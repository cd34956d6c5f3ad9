-- ===== src/Memory/Selection.antt =====
-- The rows that a query of the memory index returns, of backend/memory/__init__.py. Scores are
-- values of a type with a test `lt` for the `<` on floats; the candidates of the hybrid retrieval
-- and the scores of the cross-encoder are arguments.
use ai_powered_research_work.Prelude.{
  ℕ, suc, Bool, Option, none, some, List, [], ◌∷◌, map, Text, length, leb, ◌==◌, if◌then◌else◌,
}

pub data SourceType : Type 0 where
  paper_section : SourceType
  abstract_ : SourceType
  note : SourceType
  experiment : SourceType
  conversation_summary : SourceType

abbrev pub type_number : SourceType → ℕ
type_number paper_section = 0
type_number abstract_ = 1
type_number note = 2
type_number experiment = 3
type_number conversation_summary = 4

abbrev pub same_type : SourceType → SourceType → Bool
same_type s t = type_number s == type_number t

pub record CitedRow : Type 0 where
  pub id : ℕ
  pub source_type : SourceType
  pub source_id : Text
  pub paper_id : Option ℕ
  pub text : Text
  pub section_heading : Option Text
  pub char_start : ℕ
  pub char_end : ℕ

-- The dict `per_type`, with its default of 0.
abbrev pub PerType : Type 0
PerType = SourceType → ℕ

abbrev pub counted_in : SourceType → PerType → PerType
counted_in s per_type t = if same_type s t then suc (per_type t) else per_type t

module _ {S : Type 0} (lt : S → S → Bool) where
  -- The loop of `_select_top_k`, `n` rows being selected so far.
  unfoldable pub select_from : ℕ → S → ℕ → ℕ → PerType → List (CitedRow × S) → List (CitedRow × S)
  select_from k min_score max_per_type n per_type [] = []
  select_from k min_score max_per_type n per_type ((row, score) ∷ ranked) =
      let skipped = select_from k min_score max_per_type n per_type ranked in
      let rest =
        select_from k min_score max_per_type (suc n) (counted_in row.source_type per_type) ranked in
      if lt score min_score
      then []
      else if leb max_per_type (per_type row.source_type)
      then skipped
      else if leb k (suc n)
      then (row, score) ∷ []
      else (row, score) ∷ rest

  abbrev pub select_top_k : ℕ → S → ℕ → List (CitedRow × S) → List (CitedRow × S)
  select_top_k k min_score max_per_type ranked =
      select_from k min_score max_per_type 0 (λ t. 0) ranked

  -- `sorted(..., key=..., reverse=True)`, which keeps the order of equal scores.
  unfoldable pub insert_desc : CitedRow × S → List (CitedRow × S) → List (CitedRow × S)
  insert_desc p [] = p ∷ []
  insert_desc p (q ∷ ranked) = if lt p.1 q.1 then q ∷ insert_desc p ranked else p ∷ q ∷ ranked

  unfoldable pub sort_desc : List (CitedRow × S) → List (CitedRow × S)
  unfolding insert_desc
  sort_desc [] = []
  sort_desc (p ∷ pairs) = insert_desc p (sort_desc pairs)

  abbrev pub zip_scores : List CitedRow → List S → List (CitedRow × S)
  zip_scores [] scores = []
  zip_scores (c ∷ candidates) [] = []
  zip_scores (c ∷ candidates) (s ∷ scores) = (c, s) ∷ zip_scores candidates scores

  -- `_ranked_candidates`: the ranked rows and the number of candidates.
  unfoldable pub ranked_candidates : (List Text → List S) → List CitedRow → List (CitedRow × S) × ℕ
  unfolding sort_desc
  ranked_candidates rerank [] = ([], 0)
  ranked_candidates rerank (c ∷ candidates) = (
    sort_desc (zip_scores (c ∷ candidates) (rerank (map CitedRow.text (c ∷ candidates)))),
    length (c ∷ candidates),
  )

  -- `query_memory`, `zero_score` being the floor `_MIN_RERANK_SCORE`.
  unfoldable pub query_memory : S → (List Text → List S) → List CitedRow → List CitedRow
  unfolding ranked_candidates select_from
  query_memory zero_score rerank candidates =
      map (λ p. p.0) (select_top_k 6 zero_score 3 (ranked_candidates rerank candidates).0)

  abbrev pub top_score_of : List (CitedRow × S) → Option S
  top_score_of [] = none
  top_score_of (p ∷ selected) = some p.1

-- The `retrieval` diagnostics of a turn trace.
pub record Diagnostics (S : Type 0) : Type 0 where
  pub query : Text
  pub candidates : ℕ
  pub returned : ℕ
  pub top_score : Option S

module _ {S : Type 0} (lt : S → S → Bool) where
  unfoldable pub query_memory_with_diagnostics :
      S → (List Text → List S) → Text → List CitedRow → List CitedRow × Diagnostics S
  unfolding ranked_candidates select_from
  query_memory_with_diagnostics zero_score rerank query candidates =
      let ranked = ranked_candidates lt rerank candidates in
      let selected = select_top_k lt 6 zero_score 3 ranked.0 in
      (
        map (λ p. p.0) selected,
        record {
          query = query;
          candidates = ranked.1;
          returned = length selected;
          top_score = top_score_of lt selected;
        },
      )
