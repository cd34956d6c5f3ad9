-- ===== src/Harness/Turn/Feeds.antt =====
-- The deltas of a completion, fed to the citation stream by `run_turn` of backend/harness/loop.py.
use ai_powered_research_work.Prelude.{
  ◌≡◌, refl, subst, Option, some, List, [], ◌∷◌, ◌++◌, append-nil, append_assoc, Text, All,
}
use ai_powered_research_work.Streaming.Machine.{
  CitationStream, prose, fresh, concat, feed, push, flush, flush_mode,
}
use ai_powered_research_work.Streaming.Machine
use ai_powered_research_work.Streaming.Marked.{marked, no_less_than_nil}
use ai_powered_research_work.Streaming.Pieces.{concat-append, Sound}
use ai_powered_research_work.Streaming.Loop.{empty, Kept, feed-Feeds}
use ai_powered_research_work.Streaming.Turn.{Ledger-append}
use ai_powered_research_work.Harness.Turn.{feed_all}

module _ {C : Type 0} (Accepts : Text → C → Type 0) where
  Kept-join :
      (s t u : CitationStream C) (ps qs : List Text)
      → Kept Accepts s t ps
      → Kept Accepts t u qs
      → Kept Accepts s u (ps ++ qs)
  Kept-join s t u ps qs k l = record {
    ready = l.ready;
    clean = l.clean;
    settled = l.settled;
    added = k.added ++ l.added;
    ledger = Ledger-append Accepts k.ledger l.ledger;
    citations = rw (l.citations, k.citations, append_assoc);
    parts = rw (l.parts, k.parts, concat-append ps qs, append_assoc);
  }

  pub feed-Fed :
      (v : Text → Option C) (s base : CitationStream C) (delta : Text) (ps : List Text)
      → Sound Accepts v
      → Kept Accepts base s ps
      → (t : CitationStream C) × (qs : List Text) × (feed v s delta ≡ some (t, qs))
        × Kept Accepts base t (ps ++ qs)
  unfolding Machine.text
  feed-Fed v s base delta ps sound k =
      let (t, qs, e, kept) = feed-Feeds Accepts v s delta sound k.ready k.clean in
      let from_s : Kept Accepts s t qs = record {
        ready = kept.ready;
        clean = kept.clean;
        settled = kept.settled;
        added = kept.added;
        ledger = kept.ledger;
        citations = kept.citations;
        parts = kept.parts;
      } in
      (t, qs, e, Kept-join base s t ps qs k from_s)

  pub feed_all-Fed :
      (deltas : List ((Text → Option C) × Text)) (s base : CitationStream C) (ps : List Text)
      → All (λ d. Sound Accepts d.0) deltas
      → Kept Accepts base s ps
      → (t : CitationStream C) × (qs : List Text) × (feed_all deltas s ≡ some (t, qs))
        × Kept Accepts base t (ps ++ qs)
  unfolding feed_all
  feed_all-Fed [] s base ps sound k = (s, [], refl, rw append-nil k)
  feed_all-Fed ((v, delta) ∷ deltas) s base ps sound k =
      let (t, qs, e, kept) = feed-Fed v s base delta ps sound.0 k in
      let (u, rs, f, whole) = feed_all-Fed deltas t base (ps ++ qs) sound.1 kept in
      (u, qs ++ rs, rw (e, f) refl, subst (Kept Accepts base u) (append_assoc ps qs rs) whole)

  pub fresh-Kept : Kept Accepts fresh fresh []
  unfolding marked Machine.text
  fresh-Kept = record {
    ready = λ q. cc;
    clean = no_less_than_nil;
    settled = λ q. refl;
    added = [];
    ledger = empty;
    citations = refl;
    parts = refl;
  }
