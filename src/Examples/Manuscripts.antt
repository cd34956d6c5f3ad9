-- ===== src/Examples/Manuscripts.antt =====
-- Runs of the manuscript modules on concrete references and documents.
use ai_powered_research_work.Prelude.{
  ℕ, ◌≤◌, ◌≡◌, refl, none, some, List, [], ◌∷◌, map, arith, Text, codes, length, All,
}
use ai_powered_research_work.Prelude.Fresh.{Distinct}
use ai_powered_research_work.Prelude.Decimal.{decimal}
use ai_powered_research_work.Provenance.Normalize.{is_space}
use ai_powered_research_work.Papers.CanonicalId.{lower}
use ai_powered_research_work.Writing.Models.{Paper, Reference}
use ai_powered_research_work.Writing.References.{
  list_references, references_from, reference_of, autocomplete_citations, format_bibtex,
}
use ai_powered_research_work.Writing.Keys.{IsPlain, IsNamed, keys_of, list_references_lem}
use ai_powered_research_work.Writing.Citations.{find_missing_citations, check_citations}
use ai_powered_research_work.Writing.Cited.{
  Piece, prose, cite, render, expected, CitesOnly, IsPiece, find_missing_citations-render,
  list_references-cited,
}
use ai_powered_research_work.Writing.Spans.{StandsIn, check_citations-StandsIn}

abbrev attention : ℕ → Paper
attention id = record {
  id = id;
  title = codes "On Attention";
  authors = codes "Ada B. Lee" ∷ [];
  year = some 7;
  source_url = none;
}

abbrev anonymous : Paper
anonymous = record {
  id = 9;
  title = codes "A b c";
  authors = [];
  year = none;
  source_url = some (codes "u");
}

abbrev library : List Paper
library = attention 1 ∷ attention 2 ∷ anonymous ∷ []

abbrev library_keys : List Text
library_keys = codes "lee7attention" ∷ codes "lee7attentiona" ∷ codes "anonpaper" ∷ []

library_refs :
    list_references lower library
    ≡ some (
        reference_of (attention 1) (codes "lee7attention")
        ∷ reference_of (attention 2) (codes "lee7attentiona")
        ∷ reference_of anonymous (codes "anonpaper")
        ∷ [])
unfolding references_from lower is_space decimal
library_refs = refl

autocomplete_test :
    autocomplete_citations lower (reference_of anonymous (codes "anonpaper") ∷ []) (codes "NonP")
    ≡ reference_of anonymous (codes "anonpaper") ∷ []
unfolding autocomplete_citations lower
autocomplete_test = refl

bibtex_test :
    format_bibtex (reference_of anonymous (codes "anonpaper") ∷ []) (anonymous ∷ [])
    ≡ some (codes "@misc{anonpaper,\n  title = {A b c},\n  howpublished = {\\url{u}}\n}")
unfolding format_bibtex
bibtex_test = refl

library-IsNamed : All (λ paper. IsNamed (Paper.authors paper)) library
unfolding is_space
library-IsNamed = (refl, (refl, (tt, tt)))

list_references_example :
    (refs : List Reference) × (list_references lower library ≡ some refs)
    × (map Reference.paper_id refs ≡ map Paper.id library)
    × Distinct (keys_of refs)
    × (length library ≤ 27 → All IsPlain (keys_of refs))
list_references_example = list_references_lem lower library library-IsNamed

list_references-cited_example :
    (refs : List Reference) × (list_references lower library ≡ some refs)
    × ((pieces : List Piece)
        → All (CitesOnly (keys_of refs)) pieces
        → find_missing_citations (render pieces) (keys_of refs) ≡ [])
list_references-cited_example = list_references-cited lower library library-IsNamed (omega arith)

abbrev pieces : List Piece
pieces = prose (codes "As in ") ∷ cite (codes "anonpaper") (codes "nobody" ∷ []) ∷ []

pieces_written : All IsPiece pieces
unfolding is_space
pieces_written = (
  (refl, (refl, (refl, (refl, (refl, (refl, tt)))))),
  (
    (
      (refl, (refl, (refl, (refl, (refl, (refl, (refl, (refl, (refl, tt))))))))),
      ((refl, (refl, (refl, (refl, (refl, (refl, tt)))))), tt),
    ),
    tt,
  ),
)

find_missing_citations_example :
    find_missing_citations (render pieces) library_keys ≡ expected library_keys pieces
find_missing_citations_example = find_missing_citations-render pieces library_keys pieces_written

check_citations_example :
    All
      (StandsIn (render pieces))
      (check_citations (λ plain. some (plain ∷ codes "As" ∷ [])) (render pieces) library_keys)
check_citations_example =
    check_citations-StandsIn (λ plain. some (plain ∷ codes "As" ∷ [])) (render pieces) library_keys
