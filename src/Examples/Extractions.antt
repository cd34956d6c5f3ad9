-- ===== src/Examples/Extractions.antt =====
-- A short paper with two sections and an empty one.
use ai_powered_research_work.Prelude.{ℕ, ◌≡◌, refl, arith, List, [], ◌∷◌, Text, codes, All}
use ai_powered_research_work.Streaming.Machine.{concat}
use ai_powered_research_work.Papers.Windows.{
  max_extraction_chars, non_empty, or_whole, merge_from, pieces, section_windows,
}
use ai_powered_research_work.Papers.Windows.Fit.{IsWindow, Within, texts_of, section_windows_lem}

abbrev paper_text : Text
paper_text = codes "abcdef"

abbrev sections : List (ℕ × ℕ)
sections = (1, 3) ∷ (3, 3) ∷ (3, 5) ∷ []

section_windows_test : section_windows paper_text sections ≡ codes "bcde" ∷ []
unfolding section_windows
section_windows_test = refl

pieces_test : pieces 5 2 (codes "abcde") ≡ codes "ab" ∷ codes "cd" ∷ codes "e" ∷ []
unfolding pieces
pieces_test = refl

-- A section that does not fit begins a window of its own.
merge_from_test : merge_from 4 0 3 ((3, 4) ∷ (4, 9) ∷ []) ≡ (0, 4) ∷ (4, 9) ∷ []
unfolding merge_from
merge_from_test = refl

section_windows_example :
    All (IsWindow max_extraction_chars) (section_windows paper_text sections)
    × (ranges : List (ℕ × ℕ)) × (concat (section_windows paper_text sections)
        ≡ concat (texts_of paper_text ranges))
    × All (λ section. Within section ranges) (or_whole paper_text (non_empty sections))
section_windows_example = section_windows_lem paper_text sections (omega arith)
