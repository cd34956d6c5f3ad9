-- ===== src/Streaming/Progress.antt =====
-- Whether `CitationStream.feed` (backend/harness/streaming.py) returns: its `assert` and its loop.
use ai_powered_research_work.Prelude.{
  ℕ, ◌+◌, ◌*◌, ◌≤◌, ◌<◌, ◌≡◌, refl, ap, ◌≢◌, ◌⊎◌, inl, inr, Bool, true, false, Option, none, some,
  [], ◌∷◌, ◌++◌, arith, Text, text_eq_refl, length, take, drop, append-nil, leb, ◌==◌, Bool-cases,
}
use ai_powered_research_work.Streaming.Markup.{
  Match, less_than, min_untagged_quote_chars, quote_closer,
}
use ai_powered_research_work.Streaming.Machine.{
  Mode, prose, in_tag, in_quote, mode_eq, CitationStream, Step, emit_unless_empty, span_at,
  resolve_span, open_span, prose_at, tag_at, quote_at, advance_quoted, advance_mode, unchanged,
  closer_at, measure,
}
use ai_powered_research_work.Streaming.Splits.{
  Shorter, ScanShorter, search_trigger-Shorter, find_close-Shorter, scan_quote-Shorter, cut-cases,
}

abbrev pub has_closer : Option ℕ → Bool
has_closer none = false
has_closer (some c) = elim (quote_closer c) [ none ↦ false | some _ ↦ true ]

-- A stream inside a quote knows which mark opened it.
abbrev pub IsReady : {C : Type 0} → CitationStream C → Type 0
IsReady s = s.mode ≡ in_quote → has_closer s.quote_char ≡ true

mode_eq_refl : (m : Mode) → mode_eq m m ≡ true
mode_eq_refl prose = refl
mode_eq_refl in_tag = refl
mode_eq_refl in_quote = refl

module _ {C : Type 0} where
  -- What a round of the loop does to a stream `s`.
  pub record Round (s t : CitationStream C) : Type 0 where
    pub ready : IsReady t
    pub progress : (unchanged s t ≡ true) ⊎ (measure t < measure s)

  emit-Round : {s t : CitationStream C} (x : Text) → Round s t → Round s (emit_unless_empty t x).0
  unfolding measure unchanged
  emit-Round [] r = r
  emit-Round (c ∷ x) r = record { ready = r.ready; progress = r.progress }

  unchanged_lem :
      (s t : CitationStream C)
      → s.mode ≡ t.mode
      → s.buf ≡ t.buf
      → s.tag_buf ≡ t.tag_buf
      → s.quote_buf ≡ t.quote_buf
      → unchanged s t ≡ true
  unfolding unchanged
  unchanged_lem s t m b g q = rw (
    ← m,
    ← b,
    ← g,
    ← q,
    text_eq_refl s.buf,
    text_eq_refl s.tag_buf,
    text_eq_refl s.quote_buf,
    mode_eq_refl s.mode,
  )

  -- What is left of the buffer when a recogniser found nothing.
  hold-Round :
      (s : CitationStream C) (cut : ℕ)
      → s.mode ≡ prose
      → Round s (record s { buf = drop cut s.buf })
  unfolding measure
  hold-Round s cut h = record {
    ready = λ q. cc;
    progress = elim (cut-cases cut s.buf) [
      | inl (b, _) ↦ inl (unchanged_lem s _ refl (rw b) refl refl)
      | inr less ↦ inr (omega arith)
    ];
  }

  hold_tag-Round :
      (s : CitationStream C) (cut : ℕ)
      → s.mode ≡ in_tag
      → Round s (record s { tag_buf = s.tag_buf ++ take cut s.buf; buf = drop cut s.buf })
  unfolding measure
  hold_tag-Round s cut h = record {
    ready = λ q. cc;
    progress = elim (cut-cases cut s.buf) [
      | inl (b, e) ↦ inl (unchanged_lem s _ refl (rw b) (rw (e, append-nil)) refl)
      | inr less ↦ inr (omega arith)
    ];
  }

  -- The trigger that was found keeps the buffer, and a quote mark is remembered.
  open_span-IsReady : (s : CitationStream C) (l : Text) → s.mode ≡ prose → IsReady (open_span s l)
  unfolding open_span
  open_span-IsReady s [] h = λ q. cc
  open_span-IsReady s (c ∷ l) h = ground arith

  pub buf-open_span : (s : CitationStream C) (l : Text) → (open_span s l).buf ≡ s.buf
  unfolding open_span
  buf-open_span s [] = refl
  buf-open_span s (c ∷ l) = ground arith

  measure-le : (s : CitationStream C) → measure s ≤ 2 * length s.buf + 1
  unfolding measure
  measure-le s = ground arith

  le-measure : (s : CitationStream C) → 2 * length s.buf ≤ measure s
  unfolding measure
  le-measure s = ground arith

  -- A round that shortens the buffer makes progress, whatever the new mode is.
  shorter-Round : (s t : CitationStream C) → IsReady t → length t.buf < length s.buf → Round s t
  shorter-Round s t r h = record {
    ready = r;
    progress = inr (omega (arith, measure-le t, le-measure s));
  }

  prose-Round :
      (s : CitationStream C) (o : Option Match)
      → Shorter o s.buf
      → s.mode ≡ prose
      → Round s (prose_at s o).0
  unfolding prose_at
  prose-Round s none l h = emit-Round _ (hold-Round s _ h)
  prose-Round s (some m) l h =
      let s' = record s { buf = m.after } in
      emit-Round m.before (
        shorter-Round s (open_span s' m.literal) (open_span-IsReady s' m.literal h)
          (rw (buf-open_span s' m.literal) l))

  -- A span that is resolved leaves the machine in `prose`.
  span-Round :
      (s t : CitationStream C) (quote : Text) (o : Option C)
      → t.mode ≡ prose
      → length t.buf < length s.buf
      → Round s (span_at t quote o).0
  unfolding span_at
  span-Round s t quote none m l = shorter-Round s _ (λ q. cc) l
  span-Round s t quote (some c) m l = shorter-Round s _ (λ q. cc) l

  resolve-Round :
      (v : Text → Option C) (s t : CitationStream C) (quote : Text)
      → t.mode ≡ prose
      → length t.buf < length s.buf
      → Round s (resolve_span v t quote).0
  unfolding resolve_span
  resolve-Round v s t quote m l = span-Round s t quote (v quote) m l

  tag-Round :
      (v : Text → Option C) (s : CitationStream C) (o : Option Match)
      → Shorter o s.buf
      → s.mode ≡ in_tag
      → Round s (tag_at v s o).0
  unfolding tag_at
  tag-Round v s none l h = hold_tag-Round s _ h
  tag-Round v s (some m) l h = resolve-Round v s _ _ refl l

  hold_quote-Round :
      (s : CitationStream C) (text : Text)
      → s.buf ≡ text
      → has_closer s.quote_char ≡ true
      → Round s (record s { quote_buf = s.quote_buf ++ text; buf = [] })
  unfolding measure
  hold_quote-Round s [] e h = record {
    ready = λ q. h;
    progress = inl (unchanged_lem s _ refl e refl (rw append-nil));
  }
  hold_quote-Round s (c ∷ text) e h = record {
    ready = λ q. h;
    progress = inr (omega (arith, ap (length {A = ℕ}) e));
  }

  -- Giving up a quote at `<` keeps that character, and leaves the mode.
  abort-Round :
      (s t : CitationStream C)
      → s.mode ≡ in_quote
      → t.mode ≡ prose
      → length t.buf ≤ length s.buf
      → Round s t
  unfolding measure
  abort-Round s t ms mt l = record { ready = λ q. cc; progress = inr (rw (ms, mt) (omega arith)) }

  quote-Round :
      (v : Text → Option C) (s : CitationStream C) (opener closer : ℕ)
      (o : Option (Text × ℕ × Text))
      → ScanShorter o s.buf
      → s.mode ≡ in_quote
      → has_closer s.quote_char ≡ true
      → Round s (quote_at v s opener closer o).0
  unfolding quote_at
  quote-Round v s opener closer none l h k = hold_quote-Round s s.buf refl k
  quote-Round v s opener closer (some (before, c, after)) l h k =
      elim (Bool-cases (c == less_than)) [
        | inl e ↦ rw e (abort-Round s _ h refl l)
        | inr e ↦
            rw e
              (elim (Bool-cases (leb min_untagged_quote_chars (length (s.quote_buf ++ before)))) [
                | inl long ↦ rw long (resolve-Round v s _ _ refl l)
                | inr short ↦ rw short (shorter-Round s _ (λ q. cc) l)
              ])
      ]

  abbrev pub Returns : CitationStream C → Option (Step C) → Type 0
  Returns s r = (t : CitationStream C) × (p : Option Text) × (r ≡ some (t, p)) × Round s t

  closer-Returns :
      (v : Text → Option C) (s : CitationStream C) (opener : ℕ) (o : Option ℕ)
      → s.mode ≡ in_quote
      → has_closer s.quote_char ≡ true
      → o ≢ none
      → Returns s (closer_at v s opener o)
  unfolding closer_at
  closer-Returns v s opener none h k f = absurd (f refl)
  closer-Returns v s opener (some d) h k f =
      (_, _, refl, quote-Round v s opener d _ (scan_quote-Shorter d s.buf) h k)

  quoted-Returns :
      (v : Text → Option C) (s : CitationStream C) (q : Option ℕ)
      → s.quote_char ≡ q
      → s.mode ≡ in_quote
      → has_closer q ≡ true
      → Returns s (advance_quoted v s q)
  unfolding advance_quoted
  quoted-Returns v s none e h k = cc
  quoted-Returns v s (some c) e h k =
      closer-Returns v s c (quote_closer c) h (rw e k) (λ bad. ground arith)

  pub advance-Returns :
      (v : Text → Option C) (s : CitationStream C) (m : Mode)
      → s.mode ≡ m
      → IsReady s
      → Returns s (advance_mode v s m)
  unfolding advance_mode
  advance-Returns v s prose e r = (_, _, refl, prose-Round s _ (search_trigger-Shorter s.buf) e)
  advance-Returns v s in_tag e r = (_, _, refl, tag-Round v s _ (find_close-Shorter s.buf) e)
  advance-Returns v s in_quote e r = quoted-Returns v s s.quote_char refl e (r e)
