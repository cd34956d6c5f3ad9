-- ===== src/Streaming/Machine.antt =====
-- `CitationStream` of backend/harness/streaming.py. A method that mutates the object returns the
-- new object; `none` stands for the failure of `_advance_in_quote`'s `assert` and table lookup, and
-- for a `while` loop that does not end within its fuel.
use ai_powered_research_work.Prelude.{
  ℕ, zero, suc, ◌+◌, ◌-◌, ◌*◌, Bool, true, false, ◌&&◌, ◌||◌, Option, none, some, List, [], ◌∷◌,
  ◌++◌, Text, text_eq, length, take, drop, leb, ◌==◌, if◌then◌else◌,
}
use ai_powered_research_work.Streaming.Markup.{
  min_untagged_quote_chars, open_tag, close_tag, open_unverified, close_unverified, less_than,
  quote_closer, strip_tag_markup, Match, search_trigger, find_literal, partial_suffix_overlap,
  partial_delimiter_len,
}

pub data Mode : Type 0 where
  prose in_tag in_quote : Mode

abbrev pub mode_eq : Mode → Mode → Bool
mode_eq prose prose = true
mode_eq in_tag in_tag = true
mode_eq in_quote in_quote = true
mode_eq _ _ = false

pub record CitationStream (C : Type 0) : Type 0 where
  pub mode : Mode
  pub buf : Text
  pub tag_buf : Text
  pub quote_char : Option ℕ
  pub quote_buf : Text
  pub text_parts : List Text
  pub citations : List C

-- `__init__`
abbrev pub fresh : {C : Type 0} → CitationStream C
fresh = record {
  mode = prose;
  buf = [];
  tag_buf = [];
  quote_char = none;
  quote_buf = [];
  text_parts = [];
  citations = [];
}

-- "".join
abbrev pub concat : List Text → Text
concat [] = []
concat (t ∷ ts) = t ++ concat ts

abbrev pub cite_span : Text → Text
cite_span quote = open_tag ++ (quote ++ close_tag)

abbrev pub unverified_span : Text → Text
unverified_span quote = open_unverified ++ (quote ++ close_unverified)

-- The object after a method that returns `str | None`, with the piece that it returns.
abbrev pub Step : Type 0 → Type 0
Step C = CitationStream C × Option Text

-- The `for` loop of `_advance_in_quote` up to the character that ends it.
unfoldable pub scan_quote : ℕ → Text → Option (Text × ℕ × Text)
scan_quote closer [] = none
scan_quote closer (c ∷ rest) =
    let later = scan_quote closer rest in
    if c == less_than || c == closer
    then some ([], c, rest)
    else elim later [ none ↦ none | some (b, d, after) ↦ some (c ∷ b, d, after) ]

abbrev pub push : Option Text → List Text → List Text
push none pieces = pieces
push (some p) pieces = p ∷ pieces

module _ {C : Type 0} where
  -- the property `text`
  unfoldable pub text : CitationStream C → Text
  text s = concat s.text_parts

  -- `self._text_parts.append(piece); return piece`
  abbrev pub emit : CitationStream C → Text → Step C
  emit s piece = (record s { text_parts = s.text_parts ++ piece ∷ [] }, some piece)

  -- `_resolve_span`, on what the validator answered.
  unfoldable pub span_at : CitationStream C → Text → Option C → Step C
  span_at s quote (some c) = emit (record s { citations = s.citations ++ c ∷ [] }) (cite_span quote)
  span_at s quote none = emit s (unverified_span quote)

  unfoldable pub resolve_span : (Text → Option C) → CitationStream C → Text → Step C
  unfolding span_at
  resolve_span validator s quote = span_at s quote (validator quote)

  -- The trigger that `_advance_prose` found decides the next state.
  unfoldable pub open_span : CitationStream C → Text → CitationStream C
  open_span s [] = s
  open_span s (c ∷ rest) =
      if text_eq (c ∷ rest) open_tag
      then record s { mode = in_tag; tag_buf = [] }
      else elim (quote_closer c) [
        | none ↦ s
        | some _ ↦ record s { mode = in_quote; quote_char = some c; quote_buf = [] }
      ]

  abbrev pub emit_unless_empty : CitationStream C → Text → Step C
  emit_unless_empty s [] = (s, none)
  emit_unless_empty s (c ∷ t) = emit s (c ∷ t)

  -- `_advance_prose`, on what the search for a trigger gave.
  unfoldable pub prose_at : CitationStream C → Option Match → Step C
  prose_at s none =
      let cut = length s.buf - partial_delimiter_len s.buf in
      emit_unless_empty (record s { buf = drop cut s.buf }) (take cut s.buf)
  prose_at s (some m) =
      emit_unless_empty (open_span (record s { buf = m.after }) m.literal) m.before

  unfoldable pub advance_prose : CitationStream C → Step C
  unfolding prose_at
  advance_prose s = prose_at s (search_trigger s.buf)

  -- `_advance_in_tag`, on where `</cite>` stands.
  unfoldable pub tag_at : (Text → Option C) → CitationStream C → Option Match → Step C
  tag_at validator s none =
      let cut = length s.buf - partial_suffix_overlap s.buf close_tag in
      (record s { tag_buf = s.tag_buf ++ take cut s.buf; buf = drop cut s.buf }, none)
  tag_at validator s (some m) =
      resolve_span validator (record s { tag_buf = []; buf = m.after; mode = prose })
        (strip_tag_markup (s.tag_buf ++ m.before))

  unfoldable pub advance_in_tag : (Text → Option C) → CitationStream C → Step C
  unfolding tag_at
  advance_in_tag validator s = tag_at validator s (find_literal close_tag s.buf)

  abbrev pub leave_quote : CitationStream C → Text → CitationStream C
  leave_quote s rest = record s { buf = rest; quote_buf = []; quote_char = none; mode = prose }

  -- `_advance_in_quote`, on what the `for` loop stopped at.
  unfoldable pub quote_at :
      (Text → Option C) → CitationStream C → ℕ → ℕ → Option (Text × ℕ × Text) → Step C
  quote_at validator s opener closer none =
      (record s { quote_buf = s.quote_buf ++ s.buf; buf = [] }, none)
  quote_at validator s opener closer (some (before, c, after)) =
      if c == less_than
      then emit (leave_quote s (c ∷ after)) (strip_tag_markup (opener ∷ (s.quote_buf ++ before)))
      else if leb min_untagged_quote_chars (length (s.quote_buf ++ before))
      then resolve_span validator (leave_quote s after) (strip_tag_markup (s.quote_buf ++ before))
      else emit (leave_quote s after)
          (strip_tag_markup (opener ∷ ((s.quote_buf ++ before) ++ closer ∷ [])))

  -- The lookup in `_QUOTE_CLOSERS`.
  unfoldable pub closer_at : (Text → Option C) → CitationStream C → ℕ → Option ℕ → Option (Step C)
  closer_at validator s opener none = none
  closer_at validator s opener (some closer) =
      some (quote_at validator s opener closer (scan_quote closer s.buf))

  -- The `assert` on `_quote_char`.
  unfoldable pub advance_quoted : (Text → Option C) → CitationStream C → Option ℕ → Option (Step C)
  unfolding quote_at closer_at
  advance_quoted validator s none = none
  advance_quoted validator s (some opener) = closer_at validator s opener (quote_closer opener)

  unfoldable pub advance_in_quote : (Text → Option C) → CitationStream C → Option (Step C)
  unfolding advance_quoted
  advance_in_quote validator s = advance_quoted validator s s.quote_char

  -- The body of `feed`'s loop.
  unfoldable pub advance_mode : (Text → Option C) → CitationStream C → Mode → Option (Step C)
  unfolding advance_prose advance_in_tag advance_in_quote
  advance_mode validator s prose = some (advance_prose s)
  advance_mode validator s in_tag = some (advance_in_tag validator s)
  advance_mode validator s in_quote = advance_in_quote validator s

  unfoldable pub advance : (Text → Option C) → CitationStream C → Option (Step C)
  unfolding advance_mode
  advance validator s = advance_mode validator s s.mode

  -- `before == after`
  unfoldable pub unchanged : CitationStream C → CitationStream C → Bool
  unchanged s t =
      mode_eq s.mode t.mode
      && text_eq s.buf t.buf
      && text_eq s.tag_buf t.tag_buf
      && text_eq s.quote_buf t.quote_buf

  abbrev pub pushed :
      Option Text → Option (CitationStream C × List Text) → Option (CitationStream C × List Text)
  pushed piece none = none
  pushed piece (some (u, pieces)) = some (u, push piece pieces)

  -- What the loop does with a round that gave `t` and a piece: `next` is the rest of the loop.
  unfoldable pub after_round :
      (CitationStream C → Option (CitationStream C × List Text))
      → CitationStream C
      → Option (Step C)
      → Option (CitationStream C × List Text)
  after_round next s none = none
  after_round next s (some (t, piece)) = elim (unchanged s t) [
    | true ↦ some (t, push piece [])
    | false ↦ pushed piece (next t)
  ]

  unfoldable pub feed_loop :
      (Text → Option C) → ℕ → CitationStream C → Option (CitationStream C × List Text)
  unfolding after_round
  feed_loop validator zero s = none
  feed_loop validator (suc fuel) s = after_round (feed_loop validator fuel) s (advance validator s)

  -- Every round that changes the state lowers this.
  unfoldable pub measure : CitationStream C → ℕ
  measure s = 2 * length s.buf + (if mode_eq s.mode in_quote then 1 else 0)

  unfoldable pub feed :
      (Text → Option C) → CitationStream C → Text → Option (CitationStream C × List Text)
  unfolding feed_loop
  feed validator s delta =
      let t = record s { buf = s.buf ++ delta } in feed_loop validator (suc (measure t)) t

  abbrev pub flush_buf : CitationStream C → Text → Step C
  flush_buf s [] = (s, none)
  flush_buf s (c ∷ rest) = emit (record s { buf = [] }) (c ∷ rest)

  unfoldable pub flush_mode : CitationStream C → Mode → Step C
  flush_mode s in_tag =
      emit (record s { tag_buf = []; buf = []; mode = prose })
        (unverified_span (strip_tag_markup (s.tag_buf ++ s.buf)))
  flush_mode s in_quote =
      emit (record s { quote_buf = []; buf = []; mode = prose })
        (unverified_span (strip_tag_markup (s.quote_buf ++ s.buf)))
  flush_mode s prose = flush_buf s s.buf

  unfoldable pub flush : CitationStream C → Step C
  unfolding flush_mode
  flush s = flush_mode s s.mode
