-- ===== src/Papers/Windows/Fit.antt =====
-- What the windows of `_section_windows` of backend/papers/__init__.py hold.
use ai_powered_research_work.Prelude.{
  ℕ, zero, suc, ◌-◌, ◌≤◌, ◌<◌, ◌≡◌, refl, ap, ◌∙◌, inl, inr, Bool, true, false, List, [], ◌∷◌, ◌++◌,
  map, arith, Text, length, take, drop, take-append-drop, length-take, length-drop, leb, All,
  All-map, All-append, if◌then◌else◌, Bool-cases,
}
use ai_powered_research_work.Streaming.Machine.{concat}
use ai_powered_research_work.Streaming.Pieces.{concat-append}
use ai_powered_research_work.Provenance.Locator.{slice}
use ai_powered_research_work.Papers.Windows.{
  max_extraction_chars, non_empty, or_whole, merge_from, merged, pieces, windows_of,
  section_windows,
}

abbrev pub Covers : ℕ × ℕ → ℕ × ℕ → Type 0
Covers section range = (range.0 ≤ section.0) × (section.1 ≤ range.1)

-- Some range covers the section.
pub data Within (section : ℕ × ℕ) : List (ℕ × ℕ) → Type 0 where
  here :
      {range : ℕ × ℕ} {ranges : List (ℕ × ℕ)}
      → Covers section range
      → Within section (range ∷ ranges)
  later :
      {range : ℕ × ℕ} {ranges : List (ℕ × ℕ)}
      → Within section ranges
      → Within section (range ∷ ranges)

-- The sections come in the order of their starts and of their ends.
abbrev pub IsOrdered : ℕ → ℕ → List (ℕ × ℕ) → Type 0
IsOrdered s e [] = Unit
IsOrdered s e (b ∷ bounds) = (s ≤ b.0) × (e ≤ b.1) × IsOrdered b.0 b.1 bounds

-- The first window that a merge gives starts where it began, and ends no sooner.
merge_from-Covers :
    (limit start end low high : ℕ) (bounds : List (ℕ × ℕ))
    → IsOrdered low end bounds
    → start ≤ low
    → end ≤ high
    → (section : ℕ × ℕ) → start ≤ section.0
    → section.1 ≤ end
    → Within section (merge_from limit start end bounds)
unfolding merge_from
merge_from-Covers limit start end low high [] o le hi section s e = here (s, e)
merge_from-Covers limit start end low high ((a, b) ∷ bounds) o le hi section s e =
    elim (Bool-cases (leb (b - start) limit)) [
      | inl t ↦ rw t (
          merge_from-Covers limit start b a b bounds o.2 (omega (arith, le, o.0)) (omega arith)
            section s (omega (arith, e, o.1)))
      | inr t ↦ rw t (here (s, e))
    ]

by_test :
    (P : List (ℕ × ℕ) → Type 0) (t : Bool) (x y : List (ℕ × ℕ)) → P x → P y → P (if t then x else y)
by_test P true x y p q = p
by_test P false x y p q = q

merge_from-Within :
    (limit start end low : ℕ) (bounds : List (ℕ × ℕ))
    → IsOrdered low end bounds
    → start ≤ low
    → All (λ section. Within section (merge_from limit start end bounds)) bounds
unfolding merge_from
merge_from-Within limit start end low [] o le = tt
merge_from-Within limit start end low ((a, b) ∷ bounds) o le =
    by_test (λ ranges. Within (a, b) ranges × All (λ section. Within section ranges) bounds)
      (leb (b - start) limit) (merge_from limit start b bounds)
      ((start, end) ∷ merge_from limit a b bounds)
      (
        merge_from-Covers limit start b a b bounds o.2 (omega (arith, le, o.0)) (omega arith) (a, b)
            (omega (arith, le, o.0)) (omega arith),
        merge_from-Within limit start b a bounds o.2 (omega (arith, le, o.0)),
      )
      (
        later (
            merge_from-Covers limit a b a b bounds o.2 (omega arith) (omega arith) (a, b)
              (omega arith) (omega arith)),
        All-map bounds (λ section w. later w)
            (merge_from-Within limit a b a bounds o.2 (omega arith)),
      )

pieces-concat :
    (fuel limit : ℕ) (text : Text)
    → 0 < limit
    → length text ≤ fuel
    → concat (pieces fuel limit text) ≡ text
unfolding pieces
pieces-concat zero limit [] pos le = refl
pieces-concat zero limit (c ∷ text) pos le = ground (arith, le)
pieces-concat (suc fuel) limit [] pos le = refl
pieces-concat (suc fuel) limit (c ∷ text) pos le =
    ap (λ rest. take limit (c ∷ text) ++ rest)
      (pieces-concat fuel limit (drop limit (c ∷ text)) pos
        (omega (arith, length-drop limit (c ∷ text), le, pos)))
    ∙ take-append-drop limit (c ∷ text)

abbrev pub IsWindow : ℕ → Text → Type 0
IsWindow limit text = (0 < length text) × (length text ≤ limit)

pieces-IsWindow :
    (fuel limit : ℕ) (text : Text) → 0 < limit → All (IsWindow limit) (pieces fuel limit text)
unfolding pieces
pieces-IsWindow zero limit text pos = tt
pieces-IsWindow (suc fuel) limit [] pos = tt
pieces-IsWindow (suc fuel) limit (c ∷ text) pos = (
  (omega (arith, length-take limit (c ∷ text), pos), omega (arith, length-take limit (c ∷ text))),
  pieces-IsWindow fuel limit (drop limit (c ∷ text)) pos,
)

abbrev pub texts_of : Text → List (ℕ × ℕ) → List Text
texts_of full_text ranges = map (λ r. slice full_text r.0 r.1) ranges

windows_of-concat :
    (limit : ℕ) (full_text : Text) (ranges : List (ℕ × ℕ))
    → 0 < limit
    → concat (windows_of limit full_text ranges) ≡ concat (texts_of full_text ranges)
windows_of-concat limit full_text [] pos = refl
windows_of-concat limit full_text ((s, e) ∷ ranges) pos =
    let text = slice full_text s e in
    concat-append (pieces (length text) limit text) (windows_of limit full_text ranges)
    ∙ rw (
      pieces-concat (length text) limit text pos (omega arith),
      windows_of-concat limit full_text ranges pos,
    )

windows_of-IsWindow :
    (limit : ℕ) (full_text : Text) (ranges : List (ℕ × ℕ))
    → 0 < limit
    → All (IsWindow limit) (windows_of limit full_text ranges)
windows_of-IsWindow limit full_text [] pos = tt
windows_of-IsWindow limit full_text ((s, e) ∷ ranges) pos =
    let text = slice full_text s e in
    All-append _ (pieces (length text) limit text) (windows_of limit full_text ranges)
      (pieces-IsWindow (length text) limit text pos)
      (windows_of-IsWindow limit full_text ranges pos)

merged-Within :
    (limit : ℕ) (bounds : List (ℕ × ℕ))
    → IsOrdered 0 0 bounds
    → All (λ section. Within section (merged limit bounds)) bounds
merged-Within limit [] o = tt
merged-Within limit ((s, e) ∷ bounds) o = (
  merge_from-Covers limit s e s e bounds o.2 (omega arith) (omega arith) (s, e) (omega arith)
      (omega arith),
  merge_from-Within limit s e s bounds o.2 (omega arith),
)

-- When the sections that are not empty come in the order of their starts and of their ends: the
-- windows are not empty and have at most 20,000 characters each, and joined they are the texts of
-- ranges of the paper that cover every one of these sections, or the whole paper if there is none.
pub section_windows_lem :
    (full_text : Text) (sections : List (ℕ × ℕ))
    → IsOrdered 0 0 (non_empty sections)
    → All (IsWindow max_extraction_chars) (section_windows full_text sections)
      × (ranges : List (ℕ × ℕ)) × (concat (section_windows full_text sections)
          ≡ concat (texts_of full_text ranges))
      × All (λ section. Within section ranges) (or_whole full_text (non_empty sections))
unfolding section_windows
section_windows_lem full_text sections o =
    let bounds = or_whole full_text (non_empty sections) in
    (
      windows_of-IsWindow max_extraction_chars full_text (merged max_extraction_chars bounds)
          (omega arith),
      merged max_extraction_chars bounds,
      windows_of-concat max_extraction_chars full_text (merged max_extraction_chars bounds)
          (omega arith),
      merged-Within max_extraction_chars bounds (whole (non_empty sections) o),
    )
  where
    whole :
        (bounds : List (ℕ × ℕ)) → IsOrdered 0 0 bounds → IsOrdered 0 0 (or_whole full_text bounds)
    whole [] h = (omega arith, omega arith, tt)
    whole (b ∷ bounds) h = h
