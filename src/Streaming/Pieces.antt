-- ===== src/Streaming/Pieces.antt =====
-- What one round of `CitationStream.feed` may add to the shown text and to the citations.
use ai_powered_research_work.Prelude.{
  ℕ, ◌-◌, ◌≡◌, ◌≢◌, refl, sym, inl, inr, true, false, Option, none, some, List, [], ◌∷◌, ◌++◌,
  append-nil, append_assoc, arith, Text, length, take, ◌==◌, leb, Bool-cases,
}
use ai_powered_research_work.Streaming.Markup.{
  Match, less_than, quote_closer, min_untagged_quote_chars, partial_delimiter_len,
}
use ai_powered_research_work.Streaming.Machine.{
  Mode, prose, in_tag, in_quote, CitationStream, Step, concat, cite_span, unverified_span, text,
  emit, emit_unless_empty, span_at, resolve_span, open_span, prose_at, tag_at, quote_at, closer_at,
  advance_quoted, advance_mode, push,
}
use ai_powered_research_work.Streaming.Marked.{
  quoted-marked, no_less_than-of_cons, no_less_than_nil, marked, no_less_than, marked-take, Plain,
  search_trigger-Plain, no_less_than-append, Collected, scan_quote-Collected,
}

-- `Accepts q c` says that some validator of the turn answered the quote `q` with the citation `c`.
module _ {C : Type 0} (Accepts : Text → C → Type 0) where
  -- A piece that is shown, with the citations that were recorded for it.
  pub data Emitted : Text → List C → Type 0 where
    plain : (t : Text) → marked t ≡ false → Emitted t []
    cited : (q : Text) (c : C) → Accepts q c → Emitted (cite_span q) (c ∷ [])
    unverified : (q : Text) → Emitted (unverified_span q) []

  abbrev pub EmittedStep : Option Text → List C → Type 0
  EmittedStep none added = added ≡ []
  EmittedStep (some p) added = Emitted p added

abbrev pub shown_piece : Option Text → Text
shown_piece p = concat (push p [])

pub concat-append : (xs ys : List Text) → concat (xs ++ ys) ≡ concat xs ++ concat ys
concat-append [] ys = refl
concat-append (x ∷ xs) ys = rw (concat-append xs ys) (sym (append_assoc x (concat xs) (concat ys)))

module _ {C : Type 0} (Accepts : Text → C → Type 0) where
  -- What a step adds to a stream `s`; no `<` ever waits among the collected characters of a quote.
  pub record Adds (s : CitationStream C) (r : Step C) : Type 0 where
    pub added : List C
    pub citations : r.0.citations ≡ s.citations ++ added
    pub piece : EmittedStep Accepts r.1 added
    pub parts : text r.0 ≡ text s ++ shown_piece r.1
    pub clean : no_less_than r.0.quote_buf ≡ true

  -- A step that shows nothing.
  pub silent :
      (s t : CitationStream C)
      → t.citations ≡ s.citations
      → t.text_parts ≡ s.text_parts
      → no_less_than t.quote_buf ≡ true
      → Adds s (t, none)
  unfolding text
  silent s t c p q = record {
    added = [];
    citations = rw append-nil c;
    piece = refl;
    parts = rw (p, append-nil);
    clean = q;
  }

  -- A step that shows one piece.
  pub shows :
      (s t : CitationStream C) (added : List C) (p : Text)
      → t.citations ≡ s.citations ++ added
      → t.text_parts ≡ s.text_parts
      → no_less_than t.quote_buf ≡ true
      → Emitted Accepts p added
      → Adds s (emit t p)
  unfolding text
  shows s t added p c e q h = record {
    added = added;
    citations = c;
    piece = h;
    parts = rw (e, concat-append);
    clean = q;
  }

  shows_unless_empty :
      (s t : CitationStream C) (p : Text)
      → t.citations ≡ s.citations
      → t.text_parts ≡ s.text_parts
      → no_less_than t.quote_buf ≡ true
      → marked p ≡ false
      → Adds s (emit_unless_empty t p)
  shows_unless_empty s t [] c e q h = silent s t c e q
  shows_unless_empty s t (d ∷ p) c e q h =
      shows s t [] (d ∷ p) (rw append-nil c) e q (plain (d ∷ p) h)

  -- Opening a span adds nothing.
  pub record Opens (s t : CitationStream C) : Type 0 where
    pub citations : t.citations ≡ s.citations
    pub text_parts : t.text_parts ≡ s.text_parts
    pub clean : no_less_than t.quote_buf ≡ true

  open_span-Opens :
      (s : CitationStream C) (l : Text) → no_less_than s.quote_buf ≡ true → Opens s (open_span s l)
  unfolding open_span no_less_than
  open_span-Opens s [] h = record { citations = refl; text_parts = refl; clean = h }
  open_span-Opens s (c ∷ l) h = record {
    citations = ground arith;
    text_parts = ground arith;
    clean = ground arith;
  }

  prose-Adds :
      (s : CitationStream C) (o : Option Match)
      → Plain o s.buf
      → no_less_than s.quote_buf ≡ true
      → Adds s (prose_at s o)
  unfolding prose_at
  prose-Adds s none p q =
      shows_unless_empty s _ (take (length s.buf - partial_delimiter_len s.buf) s.buf) refl refl q
        (marked-take _ s.buf p)
  prose-Adds s (some m) p q =
      let o = open_span-Opens (record s { buf = m.after }) m.literal q in
      shows_unless_empty s (open_span (record s { buf = m.after }) m.literal) m.before o.citations
        o.text_parts o.clean p.0

  abbrev pub Sound : (Text → Option C) → Type 0
  Sound v = (q : Text) (c : C) → v q ≡ some c → Accepts q c

  span-Adds :
      (s t : CitationStream C) (quote : Text) (o : Option C)
      → ((c : C) → o ≡ some c → Accepts quote c)
      → t.citations ≡ s.citations
      → t.text_parts ≡ s.text_parts
      → no_less_than t.quote_buf ≡ true
      → Adds s (span_at t quote o)
  unfolding span_at
  span-Adds s t quote none v c e q = shows s t [] _ (rw append-nil c) e q (unverified quote)
  span-Adds s t quote (some d) v c e q =
      shows s (record t { citations = t.citations ++ d ∷ [] }) (d ∷ []) _ (rw c) e q
        (cited quote d (v d refl))

  abbrev pub AddsIf : CitationStream C → Option (Step C) → Type 0
  AddsIf s none = Unit
  AddsIf s (some r) = Adds s r

  module _ (v : Text → Option C) (sound : Sound v) where
    tag-Adds :
        (s : CitationStream C) (o : Option Match)
        → no_less_than s.quote_buf ≡ true
        → Adds s (tag_at v s o)
    unfolding tag_at resolve_span
    tag-Adds s none q = silent s _ refl refl q
    tag-Adds s (some m) q = span-Adds s _ _ _ (sound _) refl refl q

    quote-Adds :
        (s : CitationStream C) (opener closer : ℕ) (o : Option (Text × ℕ × Text))
        → Collected o s.buf
        → opener ≢ less_than
        → closer ≢ less_than
        → no_less_than s.quote_buf ≡ true
        → Adds s (quote_at v s opener closer o)
    unfolding quote_at resolve_span
    quote-Adds s opener closer none k ho hc q =
        silent s _ refl refl (no_less_than-append s.quote_buf s.buf q k)
    quote-Adds s opener closer (some (before, c, after)) k ho hc q =
        let content : no_less_than (s.quote_buf ++ before) ≡ true =
          no_less_than-append s.quote_buf before q k in
        elim (Bool-cases (c == less_than)) [
          | inl e ↦ rw e (
              shows s _ [] _ (rw append-nil) refl no_less_than_nil
                (plain _ (quoted-marked opener _ ho content)))
          | inr e ↦
              rw e
                (elim (Bool-cases (leb min_untagged_quote_chars (length (s.quote_buf ++ before)))) [
                  | inl long ↦ rw long (span-Adds s _ _ _ (sound _) refl refl no_less_than_nil)
                  | inr short ↦ rw short (
                      shows s _ [] _ (rw append-nil) refl no_less_than_nil (
                        plain _ (
                          quoted-marked opener _ ho (
                            no_less_than-append _ (closer ∷ []) content
                              (no_less_than-of_cons closer [] hc no_less_than_nil)))))
                ])
        ]

    -- A quote mark and its closer are not `<`.
    closer_facts :
        (opener closer : ℕ)
        → quote_closer opener ≡ some closer
        → (opener ≢ less_than) × (closer ≢ less_than)
    unfolding quote_closer
    closer_facts opener closer h = (λ e. ground arith, λ e. ground arith)

    closer-Adds :
        (s : CitationStream C) (opener : ℕ) (o : Option ℕ)
        → quote_closer opener ≡ o
        → no_less_than s.quote_buf ≡ true
        → AddsIf s (closer_at v s opener o)
    unfolding closer_at
    closer-Adds s opener none e q = tt
    closer-Adds s opener (some d) e q =
        let (ho, hc) = closer_facts opener d e in
        quote-Adds s opener d _ (scan_quote-Collected d s.buf) ho hc q

    quoted-Adds :
        (s : CitationStream C) (o : Option ℕ)
        → no_less_than s.quote_buf ≡ true
        → AddsIf s (advance_quoted v s o)
    unfolding advance_quoted
    quoted-Adds s none q = tt
    quoted-Adds s (some c) q = closer-Adds s c (quote_closer c) refl q

    pub advance-Adds :
        (s : CitationStream C) (m : Mode)
        → no_less_than s.quote_buf ≡ true
        → AddsIf s (advance_mode v s m)
    unfolding advance_mode
    advance-Adds s prose q = prose-Adds s _ (search_trigger-Plain s.buf) q
    advance-Adds s in_tag q = tag-Adds s _ q
    advance-Adds s in_quote q = quoted-Adds s s.quote_char q
