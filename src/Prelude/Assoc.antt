-- ===== src/Prelude/Assoc.antt =====
-- A Python `dict` or a table with a primary key, as an association list over a number key
-- (the identities of the program, such as UUIDs, are numbers).
use Prim.Native.Nat.{ℕ}
use mathlib.Core.Path.{◌≡◌, refl}
use mathlib.Core.List.{List, [], ◌∷◌}
use mathlib.Core.Option.{Option, none, some}
use native.Mathlib.Omega.{arith}
use ai_powered_research_work.Prelude.Tests.{◌==◌, if◌then◌else◌}

abbrev pub Assoc {κ} : Type κ → Type κ
Assoc Value = List (ℕ × Value)

module _ {κ} {Value : Type κ} where
  -- d.get(key)
  unfoldable pub lookup : ℕ → Assoc Value → Option Value
  lookup key [] = none
  lookup key ((first, value) ∷ rest) = if first == key then some value else lookup key rest

  -- d.pop(key, None)
  unfoldable pub without : ℕ → Assoc Value → Assoc Value
  without key [] = []
  without key ((first, value) ∷ rest) =
      let others = without key rest in if first == key then others else (first, value) ∷ others

  -- d[key] = value: a key that is there keeps its place
  unfoldable pub insert : ℕ → Value → Assoc Value → Assoc Value
  insert key value [] = (key, value) ∷ []
  insert key value ((first, old) ∷ rest) =
      let others = insert key value rest in
      if first == key then (key, value) ∷ rest else (first, old) ∷ others

  -- Reading after a write: the new value at its key, and the old ones elsewhere.
  pub lookup-insert :
      (written read : ℕ) (value : Value) (dict : Assoc Value)
      → lookup read (insert written value dict)
        ≡ (if written == read then some value else lookup read dict)
  unfolding lookup insert
  lookup-insert written read value [] = refl
  lookup-insert written read value ((first, old) ∷ rest) =
      ground (arith, lookup-insert written read value rest)

  pub lookup-without :
      (removed read : ℕ) (dict : Assoc Value)
      → lookup read (without removed dict) ≡ (if removed == read then none else lookup read dict)
  unfolding lookup without
  lookup-without removed read [] = ground arith
  lookup-without removed read ((first, old) ∷ rest) =
      ground (arith, lookup-without removed read rest)
