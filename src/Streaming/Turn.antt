-- ===== src/Streaming/Turn.antt =====
-- The stream over a whole turn: the deltas, and the flush at its end.
use ai_powered_research_work.Prelude.{
  ◌≡◌, refl, true, false, Option, none, some, List, [], ◌∷◌, ◌++◌, append-nil, append_assoc, Text,
  All,
}
use ai_powered_research_work.Streaming.Machine.{
  Mode, prose, in_tag, in_quote, CitationStream, fresh, concat, text, push, flush_mode, flush_buf,
  flush,
}
use ai_powered_research_work.Streaming.Marked.{no_less_than_nil, marked, no_less_than}
use ai_powered_research_work.Streaming.Progress.{IsReady}
use ai_powered_research_work.Streaming.Pieces.{
  silent, shows, plain, unverified, concat-append, Adds, Sound,
}
use ai_powered_research_work.Streaming.Loop.{
  Ledger, empty, shown, stream_all, Settled, Kept, feed-Feeds, ledger_push,
}

module _ {C : Type 0} where
  module _ (Accepts : Text → C → Type 0) where
    -- A stream at the end of its turn: nothing is pending.
    pub record Closed (s t : CitationStream C) (pieces : List Text) : Type 0 where
      pub in_prose : t.mode ≡ prose
      pub drained : t.buf ≡ []
      pub added : List C
      pub ledger : Ledger Accepts pieces added
      pub citations : t.citations ≡ s.citations ++ added
      pub parts : text t ≡ text s ++ concat pieces

    abbrev Closes : CitationStream C → Option (CitationStream C × List Text) → Type 0
    Closes s r =
        (t : CitationStream C) × (pieces : List Text) × (r ≡ some (t, pieces)) × Closed s t pieces

    Closed-by :
        (s t : CitationStream C) (p : Option Text)
        → Adds Accepts s (t, p)
        → t.mode ≡ prose
        → t.buf ≡ []
        → Closed s t (push p [])
    Closed-by s t p a m b = record {
      in_prose = m;
      drained = b;
      added = a.added;
      ledger = rw append-nil at (ledger_push Accepts p a.added [] [] a.piece empty);
      citations = a.citations;
      parts = a.parts;
    }

    flush_prose :
        (s : CitationStream C) (b : Text)
        → s.buf ≡ b
        → s.mode ≡ prose
        → marked b ≡ false
        → no_less_than s.quote_buf ≡ true
        → Closed s (flush_buf s b).0 (push (flush_buf s b).1 [])
    flush_prose s [] e h k c = Closed-by s s none (silent Accepts s s refl refl c) h e
    flush_prose s (d ∷ b) e h k c =
        Closed-by s _ (some (d ∷ b))
          (shows Accepts s (record s { buf = [] }) [] (d ∷ b) (rw append-nil) refl c
            (plain (d ∷ b) k))
          h refl

    pub flush-Closed :
        (s : CitationStream C) (m : Mode)
        → s.mode ≡ m
        → Settled s
        → no_less_than s.quote_buf ≡ true
        → Closed s (flush_mode s m).0 (push (flush_mode s m).1 [])
    unfolding flush_mode
    flush-Closed s prose h k c = flush_prose s s.buf refl h (k h) c
    flush-Closed s in_tag h k c =
        Closed-by s _ _
          (shows Accepts s (record s { tag_buf = []; buf = []; mode = prose }) [] _ (rw append-nil)
            refl c (unverified _))
          refl refl
    flush-Closed s in_quote h k c =
        Closed-by s _ _
          (shows Accepts s (record s { quote_buf = []; buf = []; mode = prose }) [] _
            (rw append-nil) refl no_less_than_nil (unverified _))
          refl refl

    pub Ledger-append :
        {ps qs : List Text} {cs ds : List C}
        → Ledger Accepts ps cs
        → Ledger Accepts qs ds
        → Ledger Accepts (ps ++ qs) (cs ++ ds)
    Ledger-append empty m = m
    Ledger-append (shown {p = p} {ps = ps} {cs = cs} {ds = ds} e l) m =
        rw append_assoc (shown e (Ledger-append l m))

    pub join-Closed :
        (s t u : CitationStream C) (ps qs : List Text)
        → Kept Accepts s t ps
        → Closed t u qs
        → Closed s u (ps ++ qs)
    join-Closed s t u ps qs k c = record {
      in_prose = c.in_prose;
      drained = c.drained;
      added = k.added ++ c.added;
      ledger = Ledger-append k.ledger c.ledger;
      citations = rw (c.citations, k.citations, append_assoc);
      parts = rw (c.parts, k.parts, concat-append ps qs, append_assoc);
    }

    stream-Closes :
        (deltas : List ((Text → Option C) × Text)) (s : CitationStream C)
        → All (λ d. Sound Accepts d.0) deltas
        → IsReady s
        → no_less_than s.quote_buf ≡ true
        → Settled s
        → Closes s (stream_all deltas s)
    unfolding stream_all flush text
    stream-Closes [] s sound r c k = (_, _, refl, flush-Closed s s.mode refl k c)
    stream-Closes ((v, delta) ∷ rest) s sound r c k =
        let (t, ps, e, kept) = feed-Feeds Accepts v s delta sound.0 r c in
        let (u, qs, e', closed) = stream-Closes rest t sound.1 kept.ready kept.clean kept.settled in
        let whole = join-Closed (record s { buf = s.buf ++ delta }) t u ps qs kept closed in
        (
          u,
          ps ++ qs,
          rw (e, e'),
          record {
            in_prose = whole.in_prose;
            drained = whole.drained;
            added = whole.added;
            ledger = whole.ledger;
            citations = whole.citations;
            parts = whole.parts;
          },
        )

    -- When each validator of the turn only answers with citations that `Accepts` allows: whatever
    -- the model streams, in whatever deltas, the whole turn returns. The text that is stored is the
    -- concatenation of the pieces that were shown. The stored citations are those of the pieces, in
    -- order, where a piece is a `<cite>` span whose quote is accepted with the citation that was
    -- recorded, an `<unverified>` span, or a text in which no whole citation tag stands. At the end
    -- nothing is pending.
    pub stream_all_lem :
        (deltas : List ((Text → Option C) × Text))
        → All (λ d. Sound Accepts d.0) deltas
        → (t : CitationStream C) × (pieces : List Text) × (stream_all deltas fresh
            ≡ some (t, pieces))
          × (text t ≡ concat pieces)
          × Ledger Accepts pieces t.citations
          × (t.mode ≡ prose)
          × (t.buf ≡ [])
    unfolding marked text
    stream_all_lem deltas sound =
        let (t, ps, e, closed) =
          stream-Closes deltas fresh sound (λ q. cc) no_less_than_nil (λ q. refl) in
        (t, ps, e, closed.parts, rw closed.citations closed.ledger, closed.in_prose, closed.drained)
