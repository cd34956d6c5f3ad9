-- ===== src/Harness/Turn/Ends.antt =====
-- How the turns of `run_turn` of backend/harness/loop.py end.
use ai_powered_research_work.Prelude.{
  ℕ, zero, suc, ◌+◌, ◌≤◌, ◌≡◌, refl, sym, ap, ◌∙◌, ◌⊎◌, inl, inr, Bool, true, false, ◌||◌, Option,
  none, some, List, [], ◌∷◌, ◌++◌, append-nil, append_assoc, arith, Text, is_empty, All,
  if◌then◌else◌, Bool-cases,
}
use ai_powered_research_work.Streaming.Machine.{
  CitationStream, prose, fresh, concat, feed, push, flush, flush_mode,
}
use ai_powered_research_work.Streaming.Machine
use ai_powered_research_work.Streaming.Pieces.{Sound}
use ai_powered_research_work.Streaming.Loop.{Kept}
use ai_powered_research_work.Streaming.Turn.{flush-Closed, join-Closed}
use ai_powered_research_work.Harness.Resume.{
  RowRole, Status, Tier, MessageRow, TraceRow, Store, is_running, find_trace, finished, finish_row,
  finish,
}
use ai_powered_research_work.Harness.ToolCalls.{
  Call, End, all_done, turn_interrupted, tool_timeout, exception, run_calls,
}
use ai_powered_research_work.Harness.ToolCalls.Pairs.{Paired, no_more, run_calls-Paired}
use ai_powered_research_work.Harness.Turn.{
  Completion, received, llm_error, not_configured, broken, Round, Turn, Outcome, feed_all, text_of,
  failed_with, status_of, answer_row, answered, after_calls, with_store, nothing_called,
  after_completion, fed, after_deltas, limit_note, at_limit, run_rounds, started, trace_row,
  duplicate_turn_id, run_turn,
}
use ai_powered_research_work.Harness.Turn.Feeds.{feed-Fed, feed_all-Fed, fresh-Kept}
use ai_powered_research_work.Harness.Turn.Calm.{
  Fair, is_calm, is_exception, is_quiet, Paired-append, run_calls-calm,
}

not_running :
    {status : Status}
    → (status ≡ Status.failed) ⊎ (status ≡ Status.interrupted)
    → is_running status ≡ false
not_running (inl e) = ap is_running e
not_running (inr e) = ap is_running e

-- How a turn ended, with the code of its error where it failed: from the store where it began.
pub data Way (conversation turn : ℕ) (began : Store) (o : Outcome) (interrupted : Bool)
    (status : Status) : Type 0 where
  answer :
      (added : List MessageRow) (row : MessageRow)
      → Paired conversation turn added
      → o.error ≡ none
      → status ≡ status_of interrupted
      → o.store.messages ≡ (began.messages ++ added) ++ row ∷ []
      → row.role ≡ RowRole.assistant
      → row.turn_id ≡ turn
      → row.content ≡ concat o.shown
      → Way conversation turn began o interrupted status
  failure :
      (added : List MessageRow) (code : Text)
      → Paired conversation turn added
      → o.error ≡ some code
      → (status ≡ Status.failed) ⊎ (status ≡ Status.interrupted)
      → o.store.messages ≡ began.messages ++ added
      → Way conversation turn began o interrupted status

pub record Ended (conversation turn : ℕ) (began : Store) (o : Outcome) : Type 0 where
  pub interrupted : Bool
  pub iterations : ℕ
  pub status : Status
  pub completed : o.completed ≡ some (turn, interrupted, iterations)
  pub bounded : iterations ≤ 8
  pub settled : is_running status ≡ false
  pub traced : o.store.traces ≡ finish_row turn status iterations began.traces
  pub way : Way conversation turn began o interrupted status

module _ {C : Type 0} (Accepts : Text → C → Type 0) (tier_of : Text → Option Tier)
    (conversation project turn : ℕ) (began : Store) where
  -- A turn that goes on.
  record Live (t : Turn C) : Type 0 where
    kept : Kept Accepts fresh t.stream t.shown
    traces : t.store.traces ≡ began.traces
    added : List MessageRow
    paired : Paired conversation turn added
    messages : t.store.messages ≡ began.messages ++ added

  abbrev Ends : Option Outcome → Type 0
  Ends r = (o : Outcome) × (r ≡ some o) × Ended conversation turn began o

  failed_with-Ended :
      (code : Text) (interrupted : Bool) (status : Status) (n : ℕ) (t : Turn C)
      → (status ≡ Status.failed) ⊎ (status ≡ Status.interrupted)
      → n ≤ 8
      → Live t
      → Ended conversation turn began
          (failed_with tier_of conversation project turn code interrupted status n t)
  unfolding finish
  failed_with-Ended code interrupted status n t s le h = record {
    interrupted = interrupted;
    iterations = n;
    status = status;
    completed = refl;
    bounded = le;
    settled = not_running s;
    traced = ap (finish_row turn status n) h.traces;
    way = failure h.added code h.paired refl s h.messages;
  }

  answered-Ended :
      (interrupted : Bool) (n : ℕ) (t : Turn C)
      → n ≤ 8
      → Live t
      → Ended conversation turn began (answered tier_of conversation project turn interrupted n t)
  unfolding finish flush Machine.text
  answered-Ended interrupted n t le h =
      let closed = flush-Closed Accepts t.stream t.stream.mode refl h.kept.settled h.kept.clean in
      let whole = join-Closed Accepts fresh t.stream _ t.shown _ h.kept closed in
      let row : MessageRow =
        answer_row tier_of conversation project turn interrupted t.store (flush t.stream).0 in
      record {
        interrupted = interrupted;
        iterations = n;
        status = status_of interrupted;
        completed = refl;
        bounded = le;
        settled = ended interrupted;
        traced = ap (finish_row turn (status_of interrupted) n) h.traces;
        way =
            answer h.added row h.paired refl refl (ap (λ m. m ++ row ∷ []) h.messages) refl refl
              whole.parts;
      }
    where
      ended : (b : Bool) → is_running (status_of b) ≡ false
      ended true = refl
      ended false = refl

  called-Live :
      (calls : List Call) (t : Turn C)
      → Live t
      → Live (
          with_store tier_of conversation project turn
            (run_calls tier_of conversation turn calls t.store).store
            t)
  called-Live calls t h =
      let (more, e, p, same) = run_calls-Paired tier_of conversation turn calls t.store in
      record {
        kept = h.kept;
        traces = same ∙ h.traces;
        added = h.added ++ more;
        paired = Paired-append conversation turn h.paired p;
        messages = e ∙ ap (λ m. m ++ more) h.messages ∙ append_assoc began.messages h.added more;
      }

  fed-Live :
      (t : Turn C) (s : CitationStream C) (ps : List Text)
      → Live t
      → Kept Accepts fresh s (t.shown ++ ps)
      → Live (fed tier_of conversation project turn t s ps)
  fed-Live t s ps h k = record {
    kept = k;
    traces = h.traces;
    added = h.added;
    paired = h.paired;
    messages = h.messages;
  }

  calls-Ends :
      (ending : End) (said : Text) (n : ℕ) (t : Turn C) (next : Text → Turn C → Option Outcome)
      → is_exception ending ≡ false
      → n ≤ 8
      → Live t
      → ((later : Text) (u : Turn C) → Live u → Ends (next later u))
      → Ends (after_calls tier_of conversation project turn ending said n t next)
  calls-Ends all_done said n t next e le h k = k said t h
  calls-Ends turn_interrupted said n t next e le h k =
      (_, refl, failed_with-Ended _ true Status.interrupted n t (inr refl) le h)
  calls-Ends tool_timeout said n t next e le h k =
      (_, refl, failed_with-Ended _ true Status.failed n t (inl refl) le h)
  calls-Ends exception said n t next e le h k = cc e

  completion-Ends :
      (c : Completion) (r : Round C) (n : ℕ) (t : Turn C) (next : Text → Turn C → Option Outcome)
      → is_quiet c ≡ true
      → All (λ call. is_calm (Call.task call) ≡ true) r.calls
      → n ≤ 8
      → Live t
      → ((later : Text) (u : Turn C) → Live u → Ends (next later u))
      → Ends (after_completion tier_of conversation project turn c r n t next)
  completion-Ends (llm_error code) r n t next q c le h k =
      (_, refl, failed_with-Ended code false Status.failed n t (inl refl) le h)
  completion-Ends not_configured r n t next q c le h k =
      (_, refl, failed_with-Ended _ false Status.failed n t (inl refl) le h)
  completion-Ends broken r n t next q c le h k = cc q
  completion-Ends (received cancelled) r n t next q c le h k =
      elim (Bool-cases (cancelled || nothing_called r.calls)) [
        | inl e ↦ rw e (_, refl, answered-Ended cancelled n t le h)
        | inr e ↦ rw e (
            calls-Ends (run_calls tier_of conversation turn r.calls t.store).ending
              (text_of r.deltas) n
              (with_store tier_of conversation project turn
                (run_calls tier_of conversation turn r.calls t.store).store t)
              next (run_calls-calm tier_of conversation turn r.calls t.store c) le
              (called-Live r.calls t h) k)
      ]

  if-Ends : (b : Bool) (x y : Option Outcome) → Ends x → Ends y → Ends (if b then x else y)
  if-Ends true x y f g = f
  if-Ends false x y f g = g

  module _ (validator : Text → Option C) (sound : Sound Accepts validator) where
    limit-Ends :
        (said : Text) (n : ℕ) (t : Turn C)
        → n ≤ 8
        → Live t
        → Ends (at_limit tier_of conversation project turn validator said n t)
    limit-Ends said n t le h = elim (Bool-cases (is_empty said)) [
      | inr e ↦ rw e (_, refl, answered-Ended false n t le h)
      | inl e ↦
          let (s, ps, f, k) =
            feed-Fed Accepts validator t.stream fresh limit_note t.shown sound h.kept in
          rw (e, f) (_, refl, answered-Ended false n _ le (fed-Live t s ps h k))
    ]

    rounds-Ends :
        (rounds : ℕ → Round C) (left n : ℕ) (said : Text) (t : Turn C)
        → ((k : ℕ) → Fair Accepts (rounds k))
        → n + left ≤ 8
        → Live t
        → Ends (run_rounds tier_of conversation project turn rounds validator left n said t)
    unfolding run_rounds
    rounds-Ends rounds zero n said t fair le h = limit-Ends said n t (omega (arith, le)) h
    rounds-Ends rounds (suc left) n said t fair le h =
        let r = rounds n in
        let next = run_rounds tier_of conversation project turn rounds validator left (suc n) in
        let f = fair n in
        let (s, ps, g, k) = feed_all-Fed Accepts r.deltas t.stream fresh t.shown f.sound h.kept in
        if-Ends r.in_time
          (after_deltas tier_of conversation project turn (feed_all r.deltas t.stream) r (suc n) t
            next)
          (at_limit tier_of conversation project turn validator said n t)
          (rw g (
            completion-Ends r.completion r (suc n) _ next f.quiet f.calm (omega (arith, le))
              (fed-Live t s ps h k)
              (λ later u live.
                rounds-Ends rounds left (suc n) later u fair (omega (arith, le)) live)))
          (limit-Ends said n t (omega (arith, le)) h)

-- The row of a new trace, and what its end makes of it.
find_trace-new :
    (turn n : ℕ) (status : Status) (row : TraceRow) (traces : List TraceRow)
    → row.turn_id ≡ turn
    → find_trace turn traces ≡ none
    → find_trace turn (finish_row turn status n (traces ++ row ∷ [])) ≡ some (finished status n row)
find_trace-new turn n status row [] e h = ground arith
find_trace-new turn n status row (other ∷ traces) e h =
    ground (arith, find_trace-new turn n status row traces e)

module _ {C : Type 0} (Accepts : Text → C → Type 0) (tier_of : Text → Option Tier)
    (conversation project turn : ℕ) where
  -- When the turn is not a resubmission, its id is new, the validators are sound, and nothing
  -- raises an exception that the loop does not foresee: `run_turn` returns after at most 8
  -- iterations, whatever the model streams, however its completions end, and whatever the tools and
  -- the waits do; it gives up its `running` status and sends its completion; and it has stored,
  -- behind the user's message, pairs of a tool call and its result, and then either an answer that
  -- is word for word what was shown, with the status `complete` or `interrupted`, or nothing more,
  -- with an error and the status `failed` or `interrupted`.
  pub run_turn-Ends :
      (rounds : ℕ → Round C) (validator : Text → Option C) (message : Text) (recent : Bool)
      (st : Store)
      → duplicate_turn_id conversation message recent st ≡ none
      → find_trace turn st.traces ≡ none
      → ((k : ℕ) → Fair Accepts (rounds k))
      → Sound Accepts validator
      → (o : Outcome) × (run_turn tier_of conversation project turn rounds validator message recent
            st
          ≡ some o)
        × (e : Ended conversation turn (started conversation project turn message st) o)
        × (find_trace turn o.store.traces
            ≡ some (finished e.status e.iterations (trace_row conversation project turn)))
  unfolding run_turn
  run_turn-Ends rounds validator message recent st d new fair sound =
      let began = started conversation project turn message st in
      let (o, gives, e) =
        rounds-Ends Accepts tier_of conversation project turn began validator sound rounds 8 0 []
          (record { store = began; stream = fresh; shown = [] }) fair (omega arith)
          (record {
            kept = fresh-Kept Accepts;
            traces = refl;
            added = [];
            paired = no_more;
            messages = sym (append-nil began.messages);
          }) in
      (
        o,
        rw d gives,
        e,
        ap (find_trace turn) e.traced
            ∙ find_trace-new turn e.iterations e.status (trace_row conversation project turn)
                st.traces refl new,
      )
