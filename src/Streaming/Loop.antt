-- ===== src/Streaming/Loop.antt =====
-- The loop of `run_turn` (backend/harness/loop.py) that feeds every delta of a turn to one
-- `CitationStream`, whichever iteration it comes from, and what a feed keeps.
use mathlib.Core.Option.{some-injective}
use ai_powered_research_work.Prelude.{
  ℕ, zero, suc, ◌<◌, ◌≡◌, refl, ap, ◌∙◌, subst, inl, inr, Bool, true, false, Option, none, some,
  List, [], ◌∷◌, ◌++◌, append-nil, append_assoc, arith, Text, text_eq_sound, length,
}
use ai_powered_research_work.Streaming.Markup.{Match, search_trigger}
use ai_powered_research_work.Streaming.Machine.{
  Mode, prose, in_tag, in_quote, mode_eq, CitationStream, Step, concat, text, emit_unless_empty,
  open_span, prose_at, advance_mode, advance, push, pushed, unchanged, measure, after_round,
  feed_loop, feed, flush,
}
use ai_powered_research_work.Streaming.Marked.{marked, no_less_than, Plain, search_trigger-Plain}
use ai_powered_research_work.Streaming.Splits.{Shorter, search_trigger-Shorter}
use ai_powered_research_work.Streaming.Progress.{
  IsReady, Round, Returns, advance-Returns, buf-open_span,
}
use ai_powered_research_work.Streaming.Pieces.{
  Emitted, EmittedStep, shown_piece, Adds, Sound, AddsIf, advance-Adds,
}

-- Pieces, each with the citations that were recorded for it.
pub data Ledger {C : Type 0} (Accepts : Text → C → Type 0) : List Text → List C → Type 0 where
  empty : Ledger Accepts [] []
  shown :
      {p : Text} {ps : List Text} {cs ds : List C}
      → Emitted Accepts p cs
      → Ledger Accepts ps ds
      → Ledger Accepts (p ∷ ps) (cs ++ ds)

mode_eq_sound : (m n : Mode) → mode_eq m n ≡ true → m ≡ n
mode_eq_sound m n h = ground arith

module _ {C : Type 0} where
  abbrev pub follow :
      List Text → Option (CitationStream C × List Text) → Option (CitationStream C × List Text)
  follow pieces none = none
  follow pieces (some (u, more)) = some (u, pieces ++ more)

  abbrev pub and_then :
      Option (CitationStream C × List Text)
      → (CitationStream C → Option (CitationStream C × List Text))
      → Option (CitationStream C × List Text)
  and_then none next = none
  and_then (some (t, pieces)) next = follow pieces (next t)

  -- The deltas of a turn, each with the validator of its moment, and then `flush`.
  unfoldable pub stream_all :
      List ((Text → Option C) × Text) → CitationStream C → Option (CitationStream C × List Text)
  stream_all [] s = let (t, piece) = flush s in some (t, push piece [])
  stream_all ((validator, delta) ∷ rest) s = and_then (feed validator s delta) (stream_all rest)

  -- In prose, no whole tag waits in the buffer.
  abbrev pub Settled : CitationStream C → Type 0
  Settled s = s.mode ≡ prose → marked s.buf ≡ false

  unchanged-fields :
      (s t : CitationStream C) → unchanged s t ≡ true → (s.mode ≡ t.mode) × (s.buf ≡ t.buf)
  unfolding unchanged
  unchanged-fields s t h =
      (mode_eq_sound s.mode t.mode (ground arith), text_eq_sound s.buf t.buf (ground arith))

  unchanged-measure : (s t : CitationStream C) → unchanged s t ≡ true → measure t ≡ measure s
  unfolding measure
  unchanged-measure s t h = let (m, b) = unchanged-fields s t h in rw (m, b)

  buf-emit_unless_empty : (s : CitationStream C) (p : Text) → (emit_unless_empty s p).0.buf ≡ s.buf
  buf-emit_unless_empty s [] = refl
  buf-emit_unless_empty s (c ∷ p) = refl

  -- A round of prose that changed nothing found no tag.
  prose_settled :
      (s : CitationStream C) (o : Option Match)
      → Plain o s.buf
      → Shorter o s.buf
      → unchanged s (prose_at s o).0 ≡ true
      → marked (prose_at s o).0.buf ≡ false
  prose_settled s none p l h = rw (← (unchanged-fields s _ h).1) p
  prose_settled s (some m) p l h =
      let t = open_span (record s { buf = m.after }) m.literal in
      let same : s.buf ≡ m.after =
        (unchanged-fields s _ h).1
        ∙ unfold prose_at in (buf-emit_unless_empty t m.before ∙ buf-open_span _ m.literal) in
      absurd (omega (arith, ap (length {A = ℕ}) same))

  advance_settled :
      (v : Text → Option C) (s : CitationStream C) (m : Mode) (t : CitationStream C)
      (p : Option Text)
      → s.mode ≡ m
      → advance_mode v s m ≡ some (t, p)
      → unchanged s t ≡ true
      → Settled t
  unfolding advance_mode
  advance_settled v s prose t p e a h q =
      let same : (prose_at s (search_trigger s.buf)).0 ≡ t =
        ap (λ (r : Step C). r.0) (some-injective _ _ a) in
      rw same at (
        prose_settled s (search_trigger s.buf) (search_trigger-Plain s.buf)
          (search_trigger-Shorter s.buf) (rw (← same) at h))
  advance_settled v s in_tag t p e a h q = let (m, _) = unchanged-fields s t h in cc
  advance_settled v s in_quote t p e a h q = let (m, _) = unchanged-fields s t h in cc

  -- What a run of the loop from `s` leaves: `t`, with the pieces that it showed.
  pub record Kept (Accepts : Text → C → Type 0) (s t : CitationStream C) (pieces : List Text)
      : Type 0 where
    pub ready : IsReady t
    pub clean : no_less_than t.quote_buf ≡ true
    pub settled : Settled t
    pub added : List C
    pub ledger : Ledger Accepts pieces added
    pub citations : t.citations ≡ s.citations ++ added
    pub parts : text t ≡ text s ++ concat pieces

  abbrev pub Feeds :
      (Text → C → Type 0) → CitationStream C → Option (CitationStream C × List Text) → Type 0
  Feeds Accepts s r =
      (t : CitationStream C) × (pieces : List Text) × (r ≡ some (t, pieces))
      × Kept Accepts s t pieces

  module _ (Accepts : Text → C → Type 0) where
    pub ledger_push :
        (p : Option Text) (added : List C) (pieces : List Text) (more : List C)
        → EmittedStep Accepts p added
        → Ledger Accepts pieces more
        → Ledger Accepts (push p pieces) (added ++ more)
    ledger_push none added pieces more e l = rw e l
    ledger_push (some p) added pieces more e l = shown e l

    concat-push :
        (p : Option Text) (pieces : List Text)
        → concat (push p pieces) ≡ shown_piece p ++ concat pieces
    concat-push none pieces = refl
    concat-push (some p) pieces = rw append-nil

    -- The round that ends the loop.
    last-Kept :
        (s t : CitationStream C) (p : Option Text)
        → Round s t
        → Adds Accepts s (t, p)
        → Settled t
        → Kept Accepts s t (push p [])
    last-Kept s t p r a settled = record {
      ready = r.ready;
      clean = a.clean;
      settled = settled;
      added = a.added;
      ledger = rw append-nil at (ledger_push p a.added [] [] a.piece empty);
      citations = a.citations;
      parts = a.parts;
    }

    -- A round in front of a run.
    round-Kept :
        (s t u : CitationStream C) (p : Option Text) (pieces : List Text)
        → Adds Accepts s (t, p)
        → Kept Accepts t u pieces
        → Kept Accepts s u (push p pieces)
    round-Kept s t u p pieces a k = record {
      ready = k.ready;
      clean = k.clean;
      settled = k.settled;
      added = a.added ++ k.added;
      ledger = ledger_push p a.added pieces k.added a.piece k.ledger;
      citations = rw (k.citations, a.citations, append_assoc);
      parts = rw (k.parts, a.parts, concat-push p pieces, append_assoc);
    }

    pushed-Feeds :
        (s t : CitationStream C) (p : Option Text) (r : Option (CitationStream C × List Text))
        → Adds Accepts s (t, p)
        → Feeds Accepts t r
        → Feeds Accepts s (pushed p r)
    pushed-Feeds s t p r a (u, pieces, e, k) =
        rw e (u, push p pieces, refl, round-Kept s t u p pieces a k)

    after-Feeds :
        (next : CitationStream C → Option (CitationStream C × List Text)) (s : CitationStream C)
        (r : Option (Step C))
        → Returns s r
        → AddsIf Accepts s r
        → ((t : CitationStream C) (p : Option Text)
            → r ≡ some (t, p)
            → unchanged s t ≡ true
            → Settled t)
        → ((t : CitationStream C)
            → IsReady t
            → no_less_than t.quote_buf ≡ true
            → measure t < measure s
            → Feeds Accepts t (next t))
        → Feeds Accepts s (after_round next s r)
    unfolding after_round
    after-Feeds next s none (t, p, e, round) adds stop more = cc
    after-Feeds next s (some (t, p)) (t', p', e, round) adds stop more = go (unchanged s t) refl
      where
        same : t' ≡ t
        same = cc

        here : Round s t
        here = subst (Round s) same round

        go :
            (b : Bool)
            → unchanged s t ≡ b
            → Feeds Accepts s (elim b [ true ↦ some (t, push p []) | false ↦ pushed p (next t) ])
        go true u = (t, push p [], refl, last-Kept s t p here adds (stop t p refl u))
        go false u =
            pushed-Feeds s t p (next t) adds
              (more t here.ready adds.clean (elim here.progress [ inl bad ↦ cc | inr l ↦ l ]))

    loop-Feeds :
        (v : Text → Option C) (fuel : ℕ) (s : CitationStream C)
        → Sound Accepts v
        → IsReady s
        → no_less_than s.quote_buf ≡ true
        → measure s < fuel
        → Feeds Accepts s (feed_loop v fuel s)
    unfolding feed_loop advance
    loop-Feeds v zero s sound r c m = absurd (omega arith)
    loop-Feeds v (suc fuel) s sound r c m =
        after-Feeds (feed_loop v fuel) s _ (advance-Returns v s s.mode refl r)
          (advance-Adds Accepts v sound s s.mode c)
          (λ t p e u. advance_settled v s s.mode t p refl e u)
          (λ t ready clean less. loop-Feeds v fuel t sound ready clean (omega arith))

    pub feed-Feeds :
        (v : Text → Option C) (s : CitationStream C) (delta : Text)
        → Sound Accepts v
        → IsReady s
        → no_less_than s.quote_buf ≡ true
        → Feeds Accepts (record s { buf = s.buf ++ delta }) (feed v s delta)
    unfolding feed
    feed-Feeds v s delta sound r c =
        let t = record s { buf = s.buf ++ delta } in
        loop-Feeds v (suc (measure t)) t sound r c (omega arith)
