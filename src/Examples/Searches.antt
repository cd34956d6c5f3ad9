-- ===== src/Examples/Searches.antt =====
-- Search results, and the calls behind them.
use ai_powered_research_work.Prelude.{
  ℕ, suc, ◌≤◌, ◌≡◌, refl, false, ◌||◌, none, some, List, [], ◌∷◌, ◌++◌, Text, codes, length, keep,
  find_first, any, All, Sub, arith,
}
use ai_powered_research_work.Prelude.Fresh.{mem_text}
use ai_powered_research_work.Papers.CanonicalId.{normalise_s2_id, resolve_canonical_id}
use ai_powered_research_work.Provenance.Normalize.{is_space}
use ai_powered_research_work.Search.Models.{SearchFilters, RawHit, PaperSummary, ResultSet}
use ai_powered_research_work.Search.Federation.{dedupe, ids_of, widen_with, matches}
use ai_powered_research_work.Search.Dedupe.{has_id, HasId, DistinctIds, dedupe_lem, widen_with_lem}
use ai_powered_research_work.Search.Pages.{reveal, reveal_lem}
use ai_powered_research_work.Ratelimit.{acquire_all, Response, Outcome, call_with_retry}
use ai_powered_research_work.Ratelimit.Attempts.{
  Spaced, StopsAt, acquire_all-Spaced, call_with_retry_lem,
}

abbrev hit : Text → RawHit
hit s2_id = record {
  source_ids = record { doi = none; arxiv_id = none; openalex_id = none; s2_id = some s2_id };
  title = codes "t";
  abstract = none;
  authors = [];
  year = some 2024;
  venue = none;
  citation_count = none;
  source_url = none;
  pdf_url = none;
}

abbrev hits : List RawHit
hits = hit (codes "1") ∷ hit (codes "2") ∷ hit (codes "CorpusId:1") ∷ []

dedupe_example :
    Sub (dedupe hits) hits
    × All HasId (dedupe hits)
    × ((i : Text)
        → (length (keep (has_id i) (dedupe hits)) ≤ 1)
          × (find_first (has_id i) (dedupe hits) ≡ find_first (has_id i) hits))
dedupe_example = dedupe_lem hits

abbrev cached : ResultSet
cached = record {
  result_id = codes "r";
  query = codes "q";
  results = record { canonical_id = codes "s2:1"; hit = hit (codes "1") } ∷ [];
  sources_failed = [];
  has_more = false;
  pool_size = 1;
}

ids_example : All HasId hits
unfolding resolve_canonical_id normalise_s2_id is_space
ids_example = ((codes "s2:1", refl), ((codes "s2:2", refl), ((codes "s2:1", refl), tt)))

distinct_example : DistinctIds cached.results
distinct_example i = ground arith

widen_with_example :
    (merged : ResultSet) × (widen_with cached hits [] ≡ some merged)
    × ((added : List PaperSummary) × (merged.results ≡ cached.results ++ added))
    × DistinctIds merged.results
    × ((i : Text)
        → mem_text i (ids_of merged.results)
          ≡ (mem_text i (ids_of cached.results) || any (has_id i) hits))
widen_with_example = widen_with_lem cached hits [] ids_example distinct_example

abbrev recent : SearchFilters
recent = record {
  year_min = some 2020;
  year_max = none;
  venue = none;
  has_code = none;
  author = none;
}

reveal_example :
    reveal cached recent 1 (suc (length (keep (matches recent) cached.results))) 0
    ≡ some (keep (matches recent) cached.results)
reveal_example = reveal_lem cached recent 1 (omega arith)

acquire_all_example : Spaced 1000 0 (acquire_all 1000 0 ((5, 0) ∷ (10, 3) ∷ []))
acquire_all_example = acquire_all-Spaced 1000 0 ((5, 0) ∷ (10, 3) ∷ [])

abbrev no_jitter : ℕ → ℕ
no_jitter bound = 0

abbrev busy : ℕ → Response
busy attempt = record { status_code = 429; retry_after = none }

abbrev fails : ℕ → Outcome ℕ
fails attempt = Outcome.retryable none

call_with_retry_example :
    StopsAt no_jitter 1000 20000 fails 3 0 (call_with_retry no_jitter 1000 20000 fails 3)
call_with_retry_example = call_with_retry_lem no_jitter 1000 20000 fails 3
