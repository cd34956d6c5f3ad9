-- ===== src/Examples/Papers.antt =====
-- A paper, its quotes and its chunks.
use ai_powered_research_work.Prelude.{
  ℕ, ◌+◌, ◌≡◌, refl, true, Option, some, List, [], ◌∷◌, Text, codes, length, All, arith, min,
}
use ai_powered_research_work.Prelude.Assoc.{lookup}
use ai_powered_research_work.Provenance.Locator.{CharSpan, locate, locate_all}
use ai_powered_research_work.Provenance.Spans.{InText, first_span, locate_all_lem}
use ai_powered_research_work.Provenance.Anchors.{
  Similarity, PaperContent, QuoteAnchor, Tables, validate_and_anchor, Anchored,
  validate_and_anchor_lem,
}
use ai_powered_research_work.Memory.Chunking.{rfind_space, split_span}
use ai_powered_research_work.Memory.Cover.{Covers, split_span_lem}

abbrev by_length : Similarity
by_length = record {
  Score = ℕ;
  ratio = λ s t. min (length s) (length t);
  plus = λ a b. min a b;
  exceeds = λ a b. true;
}

abbrev page : PaperContent
page = record { full_text = codes "we show that\nit holds"; sections = [] }

abbrev library : Tables
library = record { contents = (2, page) ∷ []; anchors = [] }

has_page : lookup 2 library.contents ≡ some page
unfolding lookup
has_page = refl

validate_and_anchor_example :
    (r : Tables × Option QuoteAnchor) × (validate_and_anchor by_length 8 50 library 2
        (codes "that it")
        []
        []
      ≡ some r)
    × Anchored by_length 8 library 2 page (codes "that it") r
validate_and_anchor_example =
    validate_and_anchor_lem by_length 8 50 library 2 page (codes "that it") [] [] has_page

locate_all_example :
    (spans : List CharSpan) × (locate_all (codes "that it") page.full_text ≡ some spans)
    × (locate (codes "that it") page.full_text ≡ first_span spans)
    × All (InText (length page.full_text)) spans
locate_all_example = locate_all_lem (codes "that it") page.full_text

split_span_example :
    (spans : List (ℕ × ℕ)) × (split_span page.full_text 8 2 ≡ some spans)
    × Covers 8 page.full_text 0 spans
split_span_example = split_span_lem page.full_text 8 2 (omega arith) (omega arith)

abbrev one_space : Text
one_space = codes "a bcdefghijkl"

found_space : rfind_space 0 0 (0 + 6) one_space ≡ some 1
unfolding rfind_space
found_space = refl
