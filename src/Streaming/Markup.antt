-- ===== src/Streaming/Markup.antt =====
-- Delimiters and their recognition: lines 30 to 88 of backend/harness/streaming.py.
use ai_powered_research_work.Prelude.{
  ℕ, zero, suc, ◌-◌, ◌≡◌, refl, Bool, ◌||◌, Option, none, some, [], ◌∷◌, min, max, Text, codes,
  text_eq, starts_with, length, take, drop, ◌==◌, if◌then◌else◌,
}

abbrev pub min_untagged_quote_chars : ℕ
min_untagged_quote_chars = 20

abbrev pub open_tag : Text
open_tag = codes "<cite>"

abbrev pub close_tag : Text
close_tag = codes "</cite>"

abbrev pub open_unverified : Text
open_unverified = codes "<unverified>"

abbrev pub close_unverified : Text
close_unverified = codes "</unverified>"

-- The two quote marks that open a span, and `_QUOTE_CLOSERS`.
abbrev pub straight_quote : ℕ
straight_quote = 34

abbrev pub curly_open : ℕ
curly_open = 8220

abbrev pub curly_close : ℕ
curly_close = 8221

abbrev pub less_than : ℕ
less_than = 60

unfoldable pub quote_closer : ℕ → Option ℕ
quote_closer c =
    if c == straight_quote
    then some straight_quote
    else if c == curly_open
    then some curly_close
    else none

-- The length of the tag that stands at the head of a text, by which of the four it is.
unfoldable pub tag_len : Bool → Bool → Bool → Bool → ℕ
tag_len is_open is_close is_open_unverified is_close_unverified =
    if is_open
    then 6
    else if is_close
    then 7
    else if is_open_unverified
    then 12
    else if is_close_unverified
    then 13
    else 0

-- `_TAG_MARKUP_PATTERN` at the head of a text: the length of its match, 0 for none.
unfoldable pub markup_len : Text → ℕ
unfolding tag_len
markup_len text =
    tag_len (starts_with open_tag text) (starts_with close_tag text)
      (starts_with open_unverified text) (starts_with close_unverified text)

-- `re.sub` goes left to right once; the first argument counts what is left of a match.
unfoldable pub strip_from : ℕ → Text → Text
strip_from skip [] = []
strip_from (suc skip) (c ∷ text) = strip_from skip text
strip_from zero (c ∷ text) =
    let n = markup_len (c ∷ text) in
    let rest = strip_from (n - 1) text in if n == 0 then c ∷ rest else rest

unfoldable pub strip_tag_markup : Text → Text
unfolding strip_from
strip_tag_markup text = strip_from 0 text

-- `_PROSE_TRIGGER` at the head of a text: the length of its match, 0 for none.
unfoldable pub trigger_len : Text → ℕ
unfolding markup_len
trigger_len [] = 0
trigger_len (c ∷ text) = if c == straight_quote || c == curly_open then 1 else markup_len (c ∷ text)

-- `_PROSE_TRIGGER.search`: what stands before the first match, the match, and the rest.
pub record Match : Type 0 where
  pub before : Text
  pub literal : Text
  pub after : Text

abbrev pub prepend : ℕ → Option Match → Option Match
prepend c none = none
prepend c (some m) = some (record m { before = c ∷ m.before })

unfoldable pub search_trigger : Text → Option Match
search_trigger [] = none
search_trigger (c ∷ text) =
    let later = prepend c (search_trigger text) in
    let n = trigger_len (c ∷ text) in
    if n == 0
    then later
    else some (record { before = []; literal = take n (c ∷ text); after = drop n (c ∷ text) })

-- `str.find` as the same kind of split.
unfoldable pub find_literal : Text → Text → Option Match
find_literal literal [] = none
find_literal literal (c ∷ text) =
    let later = prepend c (find_literal literal text) in
    if starts_with literal (c ∷ text)
    then some (record { before = []; literal = literal; after = drop (length literal) (c ∷ text) })
    else later

-- The loop of `_partial_suffix_overlap`, from a length down to 1.
unfoldable pub overlap_from : ℕ → Text → Text → ℕ
overlap_from zero tail literal = 0
overlap_from (suc k) tail literal =
    let shorter = overlap_from k tail literal in
    if text_eq (drop (length tail - suc k) tail) (take (suc k) literal) then suc k else shorter

unfoldable pub partial_suffix_overlap : Text → Text → ℕ
unfolding overlap_from
partial_suffix_overlap tail literal =
    overlap_from (min (length tail) (length literal - 1)) tail literal

unfoldable pub partial_delimiter_len : Text → ℕ
unfolding partial_suffix_overlap
partial_delimiter_len tail = max (partial_suffix_overlap tail open_tag) (
    max (partial_suffix_overlap tail close_tag) (
      max (partial_suffix_overlap tail open_unverified)
        (partial_suffix_overlap tail close_unverified)))

strip_test : strip_tag_markup (codes "a<cite>b</unverified>c<") ≡ codes "abc<"
unfolding strip_tag_markup markup_len
strip_test = refl

-- One pass can leave a tag that two halves form.
strip_once : strip_tag_markup (codes "<ci<cite>te>") ≡ open_tag
unfolding strip_tag_markup markup_len
strip_once = refl

overlap_test : partial_delimiter_len (codes "text </unv") ≡ 5
unfolding partial_delimiter_len
overlap_test = refl
