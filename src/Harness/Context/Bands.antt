-- ===== src/Harness/Context/Bands.antt =====
-- The blocks of one band, and what the removal of one block does to each band.
use ai_powered_research_work.Prelude.{
  ℕ, suc, ◌+◌, ◌≤◌, ◌<◌, ◌≡◌, ◌≢◌, refl, sym, ap, inl, inr, Bool, true, List, [], ◌∷◌, arith,
  length, drop, keep, any, Sub, done, same, skip, Sub-refl, ◌==◌, Bool-cases,
}
use ai_powered_research_work.Harness.Context.Blocks.{ContextBlock}
use ai_powered_research_work.Harness.Context.Assemble.{
  Entry, band_of, number_from, highest_band, remove_first, insert_by_index, sort_by_index,
}

abbrev pub of_band : ℕ → List Entry → List Entry
of_band b l = keep (λ e. band_of e == b) l

abbrev has_band : ℕ → List Entry → Bool
has_band b l = any (λ e. band_of e == b) l

pub highest_band-evictable : (l : List Entry) → highest_band l ≢ 0 → 1 < highest_band l
unfolding highest_band
highest_band-evictable [] h = absurd (h refl)
highest_band-evictable (e ∷ r) h = ground (arith, highest_band-evictable r)

-- No block stands above the highest band.
pub above_highest : (b : ℕ) (l : List Entry) → 1 < b → highest_band l < b → of_band b l ≡ []
unfolding highest_band
above_highest b [] p h = refl
above_highest b (e ∷ r) p h = ground (arith, above_highest b r)

highest_band-any : (l : List Entry) (m : ℕ) → highest_band l ≡ m → m ≢ 0 → has_band m l ≡ true
unfolding highest_band
highest_band-any [] m e h = absurd (h (sym e))
highest_band-any (e ∷ r) m q h = ground (arith, highest_band-any r m)

length-remove_first :
    (b : ℕ) (l : List Entry) → has_band b l ≡ true → suc (length (remove_first b l)) ≡ length l
unfolding remove_first
length-remove_first b [] h = cc
length-remove_first b (e ∷ r) h = ground (arith, length-remove_first b r)

-- A round that evicts leaves one block less.
pub length-round :
    (l : List Entry)
    → highest_band l ≢ 0
    → suc (length (remove_first (highest_band l) l)) ≡ length l
length-round l h =
    length-remove_first (highest_band l) l (highest_band-any l (highest_band l) refl h)

-- In its own band the removal takes the first block, in another band it takes none.
pub of_band-remove_first_own :
    (b : ℕ) (l : List Entry) → of_band b (remove_first b l) ≡ drop 1 (of_band b l)
unfolding remove_first
of_band-remove_first_own b [] = refl
of_band-remove_first_own b (e ∷ r) = ground (arith, of_band-remove_first_own b r)

pub of_band-remove_first_other :
    (b c : ℕ) (l : List Entry) → b ≢ c → of_band c (remove_first b l) ≡ of_band c l
unfolding remove_first
of_band-remove_first_other b c [] d = refl
of_band-remove_first_other b c (e ∷ r) d = ground (arith, of_band-remove_first_other b c r)

pub remove_first-Sub : (b : ℕ) (l : List Entry) → Sub (remove_first b l) l
unfolding remove_first
remove_first-Sub b [] = done
remove_first-Sub b (e ∷ r) = elim (Bool-cases (band_of e == b)) [
  | inl h ↦ rw h (skip (Sub-refl r))
  | inr h ↦ rw h (same (remove_first-Sub b r))
]

-- The indices ascend from `lo` on.
abbrev pub Numbered : ℕ → List Entry → Type 0
Numbered lo [] = Unit
Numbered lo (e ∷ r) = (lo ≤ e.0) × Numbered (suc e.0) r

Numbered-weaken : (lo lo' : ℕ) (l : List Entry) → lo ≤ lo' → Numbered lo' l → Numbered lo l
Numbered-weaken lo lo' [] h n = tt
Numbered-weaken lo lo' (e ∷ r) h n = (omega arith, n.1)

pub number_from-Numbered : (i : ℕ) (blocks : List ContextBlock) → Numbered i (number_from i blocks)
unfolding number_from
number_from-Numbered i [] = tt
number_from-Numbered i (b ∷ r) =
    (omega arith, Numbered-weaken (suc i) (i + 1) _ (omega arith) (number_from-Numbered (i + 1) r))

pub Sub-Numbered : {l m : List Entry} → Sub l m → (lo : ℕ) → Numbered lo m → Numbered lo l
Sub-Numbered done lo n = tt
Sub-Numbered (same s) lo n = (n.0, Sub-Numbered s _ n.1)
Sub-Numbered (skip {x = e} s) lo n =
    Sub-Numbered s lo (Numbered-weaken lo (suc e.0) _ (omega arith) n.1)

insert-first : (e : Entry) (l : List Entry) → Numbered (suc e.0) l → insert_by_index e l ≡ e ∷ l
unfolding insert_by_index
insert-first e [] n = refl
insert-first e (f ∷ r) n = ground arith

-- The sort at the end finds the blocks in order.
pub sort_by_index_lem : (lo : ℕ) (l : List Entry) → Numbered lo l → sort_by_index l ≡ l
unfolding sort_by_index
sort_by_index_lem lo [] n = refl
sort_by_index_lem lo (e ∷ r) n = rw (sort_by_index_lem (suc e.0) r n.1, insert-first e r n.1)

pub length-number_from :
    (i : ℕ) (blocks : List ContextBlock) → length (number_from i blocks) ≡ length blocks
unfolding number_from
length-number_from i [] = refl
length-number_from i (b ∷ r) = ap suc (length-number_from (i + 1) r)
