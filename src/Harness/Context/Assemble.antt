-- ===== src/Harness/Context/Assemble.antt =====
-- `assemble`: eviction of whole blocks until the budget is met. A block carries its index in the
-- list that was given, as Python's `id(b)` and the map `order` do.
use ai_powered_research_work.Prelude.{
  ℕ, zero, suc, ◌+◌, Option, none, some, List, [], ◌∷◌, max, Text, text_eq, length, ltb, leb, ◌==◌,
  if◌then◌else◌,
}
use ai_powered_research_work.Harness.Models.{Message}
use ai_powered_research_work.Harness.Context.Blocks.{ContextBlock}

abbrev pub Entry : Type 0
Entry = ℕ × ContextBlock

abbrev pub band_of : Entry → ℕ
band_of e = e.1.band

abbrev pub messages_of : List Entry → List Message
messages_of [] = []
messages_of ((i, b) ∷ r) = b.message ∷ messages_of r

unfoldable pub number_from : ℕ → List ContextBlock → List Entry
number_from i [] = []
number_from i (b ∷ r) = (i, b) ∷ number_from (i + 1) r

-- `max(b.band for b in kept if b.band > 1)`, 0 for no such block
unfoldable pub highest_band : List Entry → ℕ
highest_band [] = 0
highest_band (e ∷ r) =
    let later = highest_band r in if ltb 1 (band_of e) then max (band_of e) later else later

-- `kept.remove(victim)` for the first block of a band.
unfoldable pub remove_first : ℕ → List Entry → List Entry
remove_first band [] = []
remove_first band (e ∷ r) =
    let rest = remove_first band r in if band_of e == band then r else e ∷ rest

-- `kept.sort(key=…)`: a stable insertion sort by index.
unfoldable pub insert_by_index : Entry → List Entry → List Entry
insert_by_index e [] = e ∷ []
insert_by_index e (f ∷ r) =
    let rest = insert_by_index e r in if leb e.0 f.0 then e ∷ (f ∷ r) else f ∷ rest

unfoldable pub sort_by_index : List Entry → List Entry
sort_by_index [] = []
sort_by_index (e ∷ r) = insert_by_index e (sort_by_index r)

abbrev pub Totals : Type 0
Totals = List (Text × ℕ)

-- `totals[name] = totals.get(name, 0) + tokens`
unfoldable pub add_total : Text → ℕ → Totals → Totals
add_total name tokens [] = (name, tokens) ∷ []
add_total name tokens ((n, t) ∷ r) =
    let rest = add_total name tokens r in
    if text_eq n name then (n, t + tokens) ∷ r else (n, t) ∷ rest

module _ (count_tokens : List Message → ℕ) where
  unfoldable pub totals_from : Totals → List Entry → Totals
  totals_from totals [] = totals
  totals_from totals ((i, b) ∷ r) =
      totals_from (add_total b.name (count_tokens (b.message ∷ [])) totals) r

  -- The `while` loop; `none` when the fuel runs out.
  unfoldable pub evict : ℕ → ℕ → List Entry → Option (List Entry)
  evict budget zero kept = none
  evict budget (suc fuel) kept =
      let rest = evict budget fuel (remove_first (highest_band kept) kept) in
      if ltb budget (count_tokens (messages_of kept))
      then (if highest_band kept == 0 then some kept else rest)
      else some kept

  abbrev pub finish : Option (List Entry) → Option (List Message × Totals)
  finish none = none
  finish (some kept) =
      let sorted = sort_by_index kept in some (messages_of sorted, totals_from [] sorted)

  unfoldable pub assemble : ℕ → List ContextBlock → Option (List Message × Totals)
  assemble budget blocks = finish (evict budget (suc (length blocks)) (number_from 0 blocks))
