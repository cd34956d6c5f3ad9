-- ===== src/Prelude/Dict.antt =====
-- A dict with text keys, as a list of its items.
use mathlib.Core.Path.{◌≡◌, refl}
use mathlib.Core.Logic.{inl, inr}
use mathlib.Core.Option.{Option, none, some}
use mathlib.Core.List.{List, [], ◌∷◌}
use ai_powered_research_work.Prelude.Tests.{if◌then◌else◌, Bool-cases}
use ai_powered_research_work.Prelude.Codes.{Text, text_eq, text_eq_refl}

abbrev pub Dict : Type 0 → Type 0
Dict V = List (Text × V)

module _ {V : Type 0} where
  -- `d.get(k)`
  unfoldable pub get : Text → Dict V → Option V
  get k [] = none
  get k ((j, v) ∷ d) = if text_eq k j then some v else get k d

  -- `{**d, k: v}`
  unfoldable pub put : Text → V → Dict V → Dict V
  put k v [] = (k, v) ∷ []
  put k v ((j, w) ∷ d) = if text_eq k j then (k, v) ∷ d else (j, w) ∷ put k v d

  pub get-put : (k : Text) (v : V) (d : Dict V) → get k (put k v d) ≡ some v
  unfolding get put
  get-put k v [] = rw (text_eq_refl k) refl
  get-put k v ((j, w) ∷ d) = elim (Bool-cases (text_eq k j)) [
    | inl e ↦ rw (e, text_eq_refl k) refl
    | inr e ↦ rw (e, e) (get-put k v d)
  ]
