-- ===== src/Sandbox/Counts.antt =====
-- How often a container stands in a list and in the registry: lemmas about
-- backend/sandbox/__init__.py.
use ai_powered_research_work.Prelude.{
  ℕ, suc, ◌+◌, ◌-◌, ◌≡◌, refl, sym, subst, ◌≤◌, inl, inr, Bool, none, some, List, [], ◌∷◌, map,
  arith, ◌==◌, if◌then◌else◌, Bool-cases,
}
use ai_powered_research_work.Prelude.Assoc.{
  Assoc, lookup, insert, without, lookup-insert, lookup-without,
}
use ai_powered_research_work.Sandbox.Servers.{LiveServerHandle, remove_container}

-- How often a container is in a list.
abbrev pub count_of : ℕ → List ℕ → ℕ
count_of c [] = 0
count_of c (d ∷ containers) = let rest = count_of c containers in if c == d then suc rest else rest

abbrev pub containers_of : Assoc LiveServerHandle → List ℕ
containers_of live = map (λ entry. LiveServerHandle.container (entry.1)) live

-- A dict has one entry for a key.
abbrev pub DistinctKeys : Assoc LiveServerHandle → Type 0
DistinctKeys [] = Unit
DistinctKeys (entry ∷ live) = (lookup entry.0 live ≡ none) × DistinctKeys live

abbrev one_if : Bool → ℕ
one_if b = if b then 1 else 0

pub count-remove :
    (c d : ℕ) (containers : List ℕ)
    → count_of c (remove_container d containers) ≡ count_of c containers - one_if (c == d)
unfolding remove_container
count-remove c d [] = ground arith
count-remove c d (e ∷ containers) = ground (arith, count-remove c d containers)

pub count-insert :
    (c id : ℕ) (handle : LiveServerHandle) (live : Assoc LiveServerHandle)
    → lookup id live ≡ none
    → count_of c (containers_of (insert id handle live))
      ≡ count_of c (containers_of live) + one_if (c == handle.container)
unfolding lookup insert
count-insert c id handle [] h = ground arith
count-insert c id handle ((k, first) ∷ live) h = ground (arith, count-insert c id handle live)

without-absent :
    (id : ℕ) (live : Assoc LiveServerHandle) → lookup id live ≡ none → without id live ≡ live
unfolding lookup without
without-absent id [] h = refl
without-absent id ((k, first) ∷ live) h = ground (arith, without-absent id live)

pub count-found :
    (c id : ℕ) (handle : LiveServerHandle) (live : Assoc LiveServerHandle)
    → lookup id live ≡ some handle
    → one_if (c == handle.container) ≤ count_of c (containers_of live)
unfolding lookup
count-found c id handle [] h = absurd (ground arith)
count-found c id handle ((k, first) ∷ live) h = elim (Bool-cases (k == id)) [
  | inl e ↦ let same : first ≡ handle = ground arith in rw (sym same) (ground arith)
  | inr e ↦ ground (arith, count-found c id handle live (rw e at h))
]

pub count-without :
    (c id : ℕ) (handle : LiveServerHandle) (live : Assoc LiveServerHandle)
    → DistinctKeys live
    → lookup id live ≡ some handle
    → count_of c (containers_of (without id live))
      ≡ count_of c (containers_of live) - one_if (c == handle.container)
unfolding lookup without
count-without c id handle [] d h = absurd (ground arith)
count-without c id handle ((k, first) ∷ live) d h = elim (Bool-cases (k == id)) [
  | inl e ↦
      let same : first ≡ handle = ground arith in
      let key : k ≡ id = ground arith in
      let unchanged : without id live ≡ live =
        without-absent id live (subst (λ n. lookup n live ≡ none) key d.0) in
      rw (e, unchanged, sym same) (ground arith)
  | inr e ↦
      let found = rw e at h in
      rw e (
        ground
          (arith, count-without c id handle live d.1 found, count-found c id handle live found))
]

pub insert-DistinctKeys :
    (id : ℕ) (handle : LiveServerHandle) (live : Assoc LiveServerHandle)
    → DistinctKeys live
    → DistinctKeys (insert id handle live)
unfolding insert lookup
insert-DistinctKeys id handle [] d = (refl, tt)
insert-DistinctKeys id handle ((k, first) ∷ live) d = elim (Bool-cases (k == id)) [
  | inl e ↦ let key : k ≡ id = ground arith in rw e (subst (λ n. lookup n live ≡ none) key d.0, d.1)
  | inr e ↦
      rw e (
        ground (arith, lookup-insert id k handle live, d.0),
        insert-DistinctKeys id handle live d.1,
      )
]

pub without-DistinctKeys :
    (id : ℕ) (live : Assoc LiveServerHandle) → DistinctKeys live → DistinctKeys (without id live)
unfolding without
without-DistinctKeys id [] d = tt
without-DistinctKeys id ((k, first) ∷ live) d = elim (Bool-cases (k == id)) [
  | inl e ↦ rw e (without-DistinctKeys id live d.1)
  | inr e ↦ rw e (ground (arith, lookup-without id k live, d.0), without-DistinctKeys id live d.1)
]
