-- ===== src/Memory/Chunking.antt =====
-- backend/memory/chunking.py
use ai_powered_research_work.Prelude.{
  ℕ, zero, suc, ◌+◌, ◌-◌, ◌≡◌, refl, min, max, ◌&&◌, Option, none, some, List, [], ◌∷◌, Text, codes,
  length, ltb, leb, ◌==◌, if◌then◌else◌,
}

abbrev pub later_or : Option ℕ → Option ℕ → Option ℕ
later_or (some k) here = some k
later_or none here = here

-- `text.rfind(" ", start, end)`, where `i` is the index of the head of the text.
unfoldable pub rfind_space : ℕ → ℕ → ℕ → Text → Option ℕ
rfind_space i start end [] = none
rfind_space i start end (c ∷ t) =
    later_or (rfind_space (i + 1) start end t)
      (if c == 32 && (leb start i && ltb i end) then some i else none)

abbrev pub break_at : ℕ → ℕ → Option ℕ → ℕ
break_at start end none = end
break_at start end (some space) = if ltb start space then space else end

-- Where the span from `start` ends: the budget, or a space before it.
unfoldable pub span_end : ℕ → ℕ → Text → ℕ → ℕ
span_end budget n text start =
    let end = min (start + budget) n in
    if ltb end n then break_at start end (rfind_space 0 start end text) else end

abbrev pub cons_span : ℕ × ℕ → Option (List (ℕ × ℕ)) → Option (List (ℕ × ℕ))
cons_span s none = none
cons_span s (some l) = some (s ∷ l)

-- The `while` loop; `none` when the fuel runs out.
unfoldable pub split_from : ℕ → ℕ → ℕ → ℕ → Text → ℕ → Option (List (ℕ × ℕ))
split_from zero budget overlap n text start = none
split_from (suc fuel) budget overlap n text start =
    let end = span_end budget n text start in
    let rest =
      cons_span (start, end)
        (split_from fuel budget overlap n text (max (end - overlap) (start + 1))) in
    if ltb start n then (if leb n end then some ((start, end) ∷ []) else rest) else some []

-- The defaults are a budget of 1600 and an overlap of 200.
unfoldable pub split_span : Text → ℕ → ℕ → Option (List (ℕ × ℕ))
unfolding split_from span_end
split_span text budget overlap =
    let n = length text in
    if n == 0
    then some []
    else if leb n budget
    then some ((0, n) ∷ [])
    else split_from (suc n) budget overlap n text 0

split_test : split_span (codes "aaa bbb ccc") 5 1 ≡ some ((0, 3) ∷ (2, 3) ∷ (3, 7) ∷ (6, 11) ∷ [])
unfolding split_span rfind_space
split_test = refl
