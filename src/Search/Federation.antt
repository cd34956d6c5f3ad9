-- ===== src/Search/Federation.antt =====
-- `_dedupe`, `_to_summary`, the merge of `_widen`, `_matches` and `refine_results` of
-- backend/search/__init__.py. A summary holds its canonical id beside the hit that it copies.
use ai_powered_research_work.Prelude.{
  ℕ, ◌+◌, Bool, true, false, ◌&&◌, Option, none, some, List, [], ◌∷◌, ◌++◌, Text, text_eq, length,
  take, drop, keep, ltb, leb, if◌then◌else◌,
}
use ai_powered_research_work.Prelude.Fresh.{mem_text}
use ai_powered_research_work.Papers.CanonicalId.{resolve_canonical_id, lower}
use ai_powered_research_work.Search.Models.{SearchFilters, RawHit, PaperSummary, ResultSet}

abbrev pub id_of : RawHit → Option Text
id_of h = resolve_canonical_id h.source_ids

-- One round of the loop of `_dedupe`; a dict keeps the order of its first insertions.
abbrev pub dedupe_one : List Text → RawHit → Option Text → (List Text → List RawHit) → List RawHit
dedupe_one seen h none more = more seen
dedupe_one seen h (some i) more = if mem_text i seen then more seen else h ∷ more (i ∷ seen)

unfoldable pub dedupe_from : List RawHit → List Text → List RawHit
dedupe_from [] seen = []
dedupe_from (h ∷ hits) seen = dedupe_one seen h (id_of h) (dedupe_from hits)

unfoldable pub dedupe : List RawHit → List RawHit
unfolding dedupe_from
dedupe hits = dedupe_from hits []

-- `none` is the `ValueError` of `resolve_canonical_id`.
abbrev pub to_summary_with : RawHit → Option Text → Option PaperSummary
to_summary_with h none = none
to_summary_with h (some i) = some (record { canonical_id = i; hit = h })

unfoldable pub to_summary : RawHit → Option PaperSummary
to_summary h = to_summary_with h (id_of h)

abbrev pub ids_of : List PaperSummary → List Text
ids_of [] = []
ids_of (p ∷ r) = p.canonical_id ∷ ids_of r

abbrev pub new_one :
    List Text
    → Option PaperSummary
    → (List Text → Option (List PaperSummary))
    → Option (List PaperSummary)
new_one known none more = none
new_one known (some p) more =
    if mem_text p.canonical_id known
    then more known
    else elim (more (p.canonical_id ∷ known)) [ none ↦ none | some l ↦ some (p ∷ l) ]

-- The loop of `_widen` over the deeper ranking; `none` is the `ValueError`.
unfoldable pub new_papers : List RawHit → List Text → Option (List PaperSummary)
unfolding to_summary
new_papers [] known = some []
new_papers (h ∷ ranked) known = new_one known (to_summary h) (new_papers ranked)

abbrev pub merge_added : ResultSet → List Text → List PaperSummary → ResultSet
merge_added cached failed added = record {
  result_id = cached.result_id;
  query = cached.query;
  results = cached.results ++ added;
  sources_failed = failed;
  has_more = false;
  pool_size = length (cached.results ++ added);
}

-- The merge of `_widen`.
unfoldable pub widen_with : ResultSet → List RawHit → List Text → Option ResultSet
widen_with cached ranked failed = elim (new_papers ranked (ids_of cached.results)) [
  | none ↦ none
  | some added ↦ some (merge_added cached failed added)
]

abbrev at_least : Option ℕ → Option ℕ → Bool
at_least none year = true
at_least (some bound) none = false
at_least (some bound) (some year) = leb bound year

abbrev at_most : Option ℕ → Option ℕ → Bool
at_most none year = true
at_most (some bound) none = false
at_most (some bound) (some year) = leb year bound

abbrev or_empty : Option Text → Text
or_empty none = []
or_empty (some t) = t

abbrev same_venue : Option Text → Option Text → Bool
same_venue none venue = true
same_venue (some wanted) venue = text_eq (lower (or_empty venue)) (lower wanted)

unfoldable pub matches : SearchFilters → PaperSummary → Bool
matches filters paper =
    at_least filters.year_min paper.hit.year
    && at_most filters.year_max paper.hit.year
    && same_venue filters.venue paper.hit.venue

abbrev pub slice_from : Option ℕ → List PaperSummary → List PaperSummary
slice_from none l = l
slice_from (some limit) l = take limit l

-- `refine_results` on the cached set of its row.
unfoldable pub refine_results : ResultSet → SearchFilters → ℕ → Option ℕ → ResultSet
refine_results cached filters offset limit =
    let matched = keep (matches filters) cached.results in
    let sliced = slice_from limit (drop offset matched) in
    record {
      result_id = cached.result_id;
      query = cached.query;
      results = sliced;
      sources_failed = cached.sources_failed;
      has_more = ltb (offset + length sliced) (length matched);
      pool_size = length matched;
    }
