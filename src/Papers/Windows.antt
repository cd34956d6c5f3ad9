-- ===== src/Papers/Windows.antt =====
-- `_section_windows` of backend/papers/__init__.py: the texts that the extraction of a paper reads.
pub mod Fit
use ai_powered_research_work.Prelude.{
  ℕ, zero, suc, ◌-◌, Bool, true, false, List, [], ◌∷◌, ◌++◌, map, Text, length, take, drop, keep,
  leb, ltb, if◌then◌else◌,
}
use ai_powered_research_work.Provenance.Locator.{slice}

abbrev pub max_extraction_chars : ℕ
max_extraction_chars = 20000

-- The sections that are not empty, as bounds.
abbrev pub non_empty : List (ℕ × ℕ) → List (ℕ × ℕ)
non_empty sections = keep (λ s. ltb s.0 s.1) sections

abbrev pub or_whole : Text → List (ℕ × ℕ) → List (ℕ × ℕ)
or_whole full_text [] = (0, length full_text) ∷ []
or_whole full_text (b ∷ bounds) = b ∷ bounds

-- The loop that merges, with the window so far.
unfoldable pub merge_from : ℕ → ℕ → ℕ → List (ℕ × ℕ) → List (ℕ × ℕ)
merge_from limit start end [] = (start, end) ∷ []
merge_from limit start end ((s, e) ∷ bounds) =
    let wider = merge_from limit start e bounds in
    let later = merge_from limit s e bounds in
    if leb (e - start) limit then wider else (start, end) ∷ later

abbrev pub merged : ℕ → List (ℕ × ℕ) → List (ℕ × ℕ)
merged limit [] = []
merged limit ((s, e) ∷ bounds) = merge_from limit s e bounds

abbrev cut_here : Text → ℕ → List Text → List Text
cut_here [] limit later = []
cut_here (c ∷ text) limit later = take limit (c ∷ text) ∷ later

-- The pieces of `limit` characters of a text; the fuel is its length.
unfoldable pub pieces : ℕ → ℕ → Text → List Text
pieces zero limit text = []
pieces (suc fuel) limit text =
    let later = pieces fuel limit (drop limit text) in cut_here text limit later

abbrev pub windows_of : ℕ → Text → List (ℕ × ℕ) → List Text
windows_of limit full_text [] = []
windows_of limit full_text ((s, e) ∷ ranges) =
    let text = slice full_text s e in
    pieces (length text) limit text ++ windows_of limit full_text ranges

unfoldable pub section_windows : Text → List (ℕ × ℕ) → List Text
unfolding merge_from pieces
section_windows full_text sections =
    windows_of max_extraction_chars full_text
      (merged max_extraction_chars (or_whole full_text (non_empty sections)))
