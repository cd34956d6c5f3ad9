-- ===== src/Provenance/Normalize.antt =====
-- `_normalize_with_positions` of backend/provenance/locator.py. The list that it builds is kept as
-- one list of characters with their positions.
use ai_powered_research_work.Prelude.{
  ℕ, ◌+◌, ◌≡◌, refl, Bool, true, false, ◌&&◌, ◌||◌, Option, none, some, List, [], ◌∷◌, ◌++◌, Text,
  codes, leb, ◌==◌, if◌then◌else◌,
}

-- `str.isspace` of one character, as Python has it.
unfoldable pub is_space : ℕ → Bool
is_space c =
    (leb 9 c && leb c 13)
    || (leb 28 c && leb c 32)
    || c == 133
    || c == 160
    || c == 5760
    || (leb 8192 c && leb c 8202)
    || c == 8232
    || c == 8233
    || c == 8239
    || c == 8287
    || c == 12288

-- `_LIGATURES`
unfoldable pub ligature : ℕ → Option Text
ligature c =
    if c == 64257
    then some (codes "fi")
    else if c == 64258
    then some (codes "fl")
    else if c == 64256
    then some (codes "ff")
    else if c == 64259
    then some (codes "ffi")
    else if c == 64260
    then some (codes "ffl")
    else if c == 64262
    then some (codes "st")
    else if c == 64261
    then some (codes "ft")
    else none

-- Whether the next character is there and is white space.
unfoldable pub space_follows : Text → Bool
space_follows [] = false
space_follows (c ∷ t) = is_space c

-- One character `c` before the text `t`: what it becomes, and whether the white space that follows
-- is passed over, as the two inner `while` loops do.
unfoldable pub expand : Bool → ℕ → Text → Text × Bool
expand skipping c t = if skipping && is_space c then ([], true) else elim (ligature c) [
  | some expanded ↦ (expanded, false)
  | none ↦
      if c == 45 && space_follows t
      then ([], true)
      else if is_space c
      then (32 ∷ [], true)
      else (c ∷ [], false)
]

abbrev pub at_position : ℕ → Text → List (ℕ × ℕ)
at_position i [] = []
at_position i (c ∷ t) = (c, i) ∷ at_position i t

-- The outer loop, at position `i`.
unfoldable pub normalize_from : Bool → ℕ → Text → List (ℕ × ℕ)
normalize_from skipping i [] = []
normalize_from skipping i (c ∷ t) =
    let (out, skips) = expand skipping c t in at_position i out ++ normalize_from skips (i + 1) t

unfoldable pub normalize_with_positions : Text → List (ℕ × ℕ)
normalize_with_positions text = normalize_from false 0 text

abbrev pub normal_text : List (ℕ × ℕ) → Text
normal_text [] = []
normal_text ((c, i) ∷ r) = c ∷ normal_text r

normalize_test :
    normal_text (normalize_with_positions (codes "atten-\n tion  of\tﬁelds"))
    ≡ codes "attention of fields"
unfolding normalize_with_positions normalize_from expand ligature space_follows is_space
normalize_test = refl
