-- ===== src/Provenance/Locator.antt =====
-- `locate` and `locate_all` of backend/provenance/locator.py, and `validate_substring` of
-- backend/provenance/validator.py.
use ai_powered_research_work.Prelude.{
  ℕ, zero, suc, ◌+◌, ◌-◌, ◌≡◌, refl, Bool, false, ◌||◌, Option, none, some, List, [], ◌∷◌, Text,
  codes, text_eq, starts_with, length, take, drop, leb, ltb, if◌then◌else◌,
}
use ai_powered_research_work.Provenance.Normalize.{
  is_space, ligature, space_follows, expand, normalize_from, normalize_with_positions, normal_text,
}

-- `text[a:b]` with 0 ≤ a
abbrev pub slice : Text → ℕ → ℕ → Text
slice text a b = take (b - a) (drop a text)

-- The offsets are natural numbers, so `char_start < 0` never holds.
unfoldable pub validate_substring : Text → Text → ℕ → ℕ → Bool
validate_substring text quote char_start char_end =
    if ltb (length text) char_end || leb char_end char_start
    then false
    else text_eq (slice text char_start char_end) quote

pub record CharSpan : Type 0 where
  pub start : ℕ
  pub end : ℕ

abbrev pub bump : Option ℕ → Option ℕ
bump none = none
bump (some i) = some (suc i)

-- `text.find(needle)` for a needle that is not empty.
unfoldable pub find : Text → Text → Option ℕ
find needle [] = none
find needle (c ∷ t) =
    let later = bump (find needle t) in if starts_with needle (c ∷ t) then some 0 else later

abbrev pub shift : ℕ → Option ℕ → Option ℕ
shift n none = none
shift n (some i) = some (n + i)

-- `text.find(needle, start)`
unfoldable pub find_from : Text → Text → ℕ → Option ℕ
unfolding find
find_from needle text start = shift start (find needle (drop start text))

abbrev pub position_at : List (ℕ × ℕ) → ℕ → ℕ
position_at [] k = 0
position_at ((c, i) ∷ r) zero = i
position_at ((c, i) ∷ r) (suc k) = position_at r k

-- The span of a match of `n` normalised characters at `index`; the indices are in range.
unfoldable pub span_at : List (ℕ × ℕ) → ℕ → ℕ → CharSpan
span_at entries n index = record {
  start = position_at entries index;
  end = position_at entries (index + n - 1) + 1;
}

abbrev pub map_span : List (ℕ × ℕ) → ℕ → Option ℕ → Option CharSpan
map_span entries n none = none
map_span entries n (some index) = some (span_at entries n index)

-- `locate` on the normalised quote and text.
unfoldable pub locate_normal : Text → List (ℕ × ℕ) → Option CharSpan
locate_normal [] entries = none
locate_normal (c ∷ needle) entries =
    map_span entries (length (c ∷ needle)) (find (c ∷ needle) (normal_text entries))

-- The empty quote normalises to the empty text, so one test stands for the two early returns.
unfoldable pub locate : Text → Text → Option CharSpan
unfolding locate_normal
locate quote text_stream =
    locate_normal (normal_text (normalize_with_positions quote))
      (normalize_with_positions text_stream)

abbrev pub cons_index : ℕ → Option (List ℕ) → Option (List ℕ)
cons_index i none = none
cons_index i (some l) = some (i ∷ l)

-- A round of the loop of `locate_all`, on what `find` gave.
abbrev pub after_find : (ℕ → Option (List ℕ)) → Option ℕ → Option (List ℕ)
after_find more none = some []
after_find more (some index) = cons_index index (more (index + 1))

-- The `while` loop of `locate_all`: the indices found; `none` when the fuel runs out.
unfoldable pub find_all : ℕ → Text → Text → ℕ → Option (List ℕ)
find_all zero needle text search_from = none
find_all (suc fuel) needle text search_from =
    after_find (find_all fuel needle text) (find_from needle text search_from)

abbrev pub spans_at : List (ℕ × ℕ) → ℕ → List ℕ → List CharSpan
spans_at entries n [] = []
spans_at entries n (i ∷ l) = span_at entries n i ∷ spans_at entries n l

abbrev pub map_spans : List (ℕ × ℕ) → ℕ → Option (List ℕ) → Option (List CharSpan)
map_spans entries n none = none
map_spans entries n (some l) = some (spans_at entries n l)

unfoldable pub locate_all_normal : Text → List (ℕ × ℕ) → Option (List CharSpan)
locate_all_normal [] entries = some []
locate_all_normal (c ∷ needle) entries =
    let text = normal_text entries in
    map_spans entries (length (c ∷ needle)) (find_all (suc (length text)) (c ∷ needle) text 0)

unfoldable pub locate_all : Text → Text → Option (List CharSpan)
unfolding locate_all_normal
locate_all quote text_stream =
    locate_all_normal (normal_text (normalize_with_positions quote))
      (normalize_with_positions text_stream)

program : Unit {0}
unfolding locate locate_all find find_from find_all span_at normalize_with_positions normalize_from
    expand ligature space_follows is_space
program = tt

locate_test :
    locate (codes "the attention") (codes "so the atten-\ntion is")
    ≡ some (record { start = 3; end = 18 })
unfolding program
locate_test = refl

locate_all_test :
    locate_all (codes "aa") (codes "aaa")
    ≡ some (record { start = 0; end = 2 } ∷ record { start = 1; end = 3 } ∷ [])
unfolding program
locate_all_test = refl

-- A quote that ends in the hyphen of a line break is a part of the text, and is not located.
locate_hyphen : locate (codes "atten-") (codes "atten- tion") ≡ none
unfolding program
locate_hyphen = refl
