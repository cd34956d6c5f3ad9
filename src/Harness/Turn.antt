-- ===== src/Harness/Turn.antt =====
-- `run_turn` of backend/harness/loop.py: its iterations, its ways out and what it stores, with
-- `_duplicate_turn_id`. What an iteration meets is an argument: the clock, the deltas of the model,
-- each with what the validator answers then, how the completion ends, and the tool calls. Of the
-- events the pieces of text, the error and the completion are kept. The prompt of an iteration and
-- its schemas are the business of Harness.Context and Harness.Registry.
pub mod Feeds
pub mod Calm
pub mod Ends
use ai_powered_research_work.Prelude.{
  ℕ, zero, suc, ◌+◌, Bool, true, false, not, ◌&&◌, ◌||◌, Option, none, some, List, [], ◌∷◌, ◌++◌,
  map, Text, codes, text_eq, is_empty, any, keep, ltb, ◌==◌, if◌then◌else◌,
}
use ai_powered_research_work.Streaming.Machine.{CitationStream, fresh, feed, push, flush}
use ai_powered_research_work.Streaming.Machine
use ai_powered_research_work.Harness.Resume.{
  RowRole, Status, Tier, MessageRow, TraceRow, Store, next_seq, add_message, finish,
}
use ai_powered_research_work.Harness.ToolCalls.{
  Call, End, all_done, turn_interrupted, tool_timeout, exception, Ran, run_calls,
}

-- How a completion ends: with the cancel flag set or not, by an LLMError, by a RuntimeError, or by
-- another exception.
pub data Completion : Type 0 where
  received : (cancelled : Bool) → Completion
  llm_error : (code : Text) → Completion
  not_configured broken : Completion

pub record Round (C : Type 0) : Type 0 where
  -- the test of the wall clock
  pub in_time : Bool
  pub deltas : List ((Text → Option C) × Text)
  pub completion : Completion
  pub calls : List Call

pub record Turn (C : Type 0) : Type 0 where
  pub store : Store
  pub stream : CitationStream C
  -- the pieces of the TextDeltaEvents
  pub shown : List Text

-- At the end: what was shown, the code of the ErrorEvent, and the TurnCompleteEvent with its
-- turn, `interrupted` and `iterations`, which is missing when an exception leaves the turn.
pub record Outcome : Type 0 where
  pub store : Store
  pub shown : List Text
  pub error : Option Text
  pub completed : Option (ℕ × Bool × ℕ)

abbrev row_role_is_user : RowRole → Bool
row_role_is_user RowRole.user = true
row_role_is_user _ = false

-- The row with the highest number.
abbrev latest : Option MessageRow → List MessageRow → Option MessageRow
latest best [] = best
latest none (row ∷ rows) = latest (some row) rows
latest (some best) (row ∷ rows) = latest (some (if ltb best.seq row.seq then row else best)) rows

abbrev duplicate_of : Text → Bool → Option MessageRow → Option ℕ
duplicate_of text recent none = none
duplicate_of text recent (some row) =
    if row_role_is_user row.role && (text_eq row.content text && recent)
    then some row.turn_id
    else none

-- `_duplicate_turn_id`; `recent` is whether the last row is within the window.
unfoldable pub duplicate_turn_id : ℕ → Text → Bool → Store → Option ℕ
duplicate_turn_id conversation text recent st =
    duplicate_of text recent
      (latest none (keep (λ r. r.conversation_id == conversation) st.messages))

abbrev pub status_of : Bool → Status
status_of interrupted = if interrupted then Status.interrupted else Status.complete

abbrev pub nothing_called : List Call → Bool
nothing_called [] = true
nothing_called (call ∷ calls) = false

abbrev pub limit_note : Text
limit_note =
    codes "I reached my step limit before finishing this — try asking again, more narrowly."

-- `trace.start`
abbrev pub trace_row : ℕ → ℕ → ℕ → TraceRow
trace_row conversation project turn = record {
  turn_id = turn;
  conversation_id = conversation;
  project_id = project;
  status = Status.running;
  iterations = 0;
}

abbrev pub started : ℕ → ℕ → ℕ → Text → Store → Store
started conversation project turn message st = record {
  messages =
      st.messages
      ++ record {
        conversation_id = conversation;
        seq = next_seq st conversation;
        turn_id = turn;
        role = RowRole.user;
        content = message;
        tool_name = none;
        result_id = none;
        was_interrupted = false;
      }
        ∷ [];
  traces = st.traces ++ trace_row conversation project turn ∷ [];
}

module _ {C : Type 0} where
  abbrev then_feed :
      Option (CitationStream C × List Text)
      → (CitationStream C → Option (CitationStream C × List Text))
      → Option (CitationStream C × List Text)
  then_feed none rest = none
  then_feed (some (s, pieces)) rest = elim (rest s) [
    | none ↦ none
    | some (t, later) ↦ some (t, pieces ++ later)
  ]

  -- The deltas of a completion.
  unfoldable pub feed_all :
      List ((Text → Option C) × Text) → CitationStream C → Option (CitationStream C × List Text)
  feed_all [] s = some (s, [])
  feed_all ((validator, delta) ∷ deltas) s = then_feed (feed validator s delta) (feed_all deltas)

  abbrev pub text_of : List ((Text → Option C) × Text) → Text
  text_of [] = []
  text_of ((validator, delta) ∷ deltas) = delta ++ text_of deltas

  abbrev pub tail_of : CitationStream C → List Text
  tail_of s = push (flush s).1 []

  module _ (tier_of : Text → Option Tier) (conversation project turn : ℕ) where
    -- A way out with an ErrorEvent, after the flush.
    abbrev pub failed_with : Text → Bool → Status → ℕ → Turn C → Outcome
    failed_with code interrupted status n t = record {
      store = finish turn status n t.store;
      shown = t.shown ++ tail_of t.stream;
      error = some code;
      completed = some (turn, interrupted, n);
    }

    abbrev pub left_by_exception : Turn C → Outcome
    left_by_exception t = record {
      store = t.store;
      shown = t.shown;
      error = none;
      completed = none;
    }

    abbrev pub answer_row : Bool → Store → CitationStream C → MessageRow
    answer_row interrupted st s = record {
      conversation_id = conversation;
      seq = next_seq st conversation;
      turn_id = turn;
      role = RowRole.assistant;
      content = Machine.text s;
      tool_name = none;
      result_id = none;
      was_interrupted = interrupted;
    }

    -- From the end of the loop on.
    abbrev pub answered : Bool → ℕ → Turn C → Outcome
    answered interrupted n t = record {
      store =
          finish turn (status_of interrupted) n
            (add_message (answer_row interrupted t.store (flush t.stream).0) t.store);
      shown = t.shown ++ tail_of t.stream;
      error = none;
      completed = some (turn, interrupted, n);
    }

    abbrev pub after_calls :
        End → Text → ℕ → Turn C → (Text → Turn C → Option Outcome) → Option Outcome
    after_calls all_done said n t next = next said t
    after_calls turn_interrupted said n t next =
        some (failed_with (codes "turn_interrupted") true Status.interrupted n t)
    after_calls tool_timeout said n t next =
        some (failed_with (codes "tool_timeout") true Status.failed n t)
    after_calls exception said n t next = some (left_by_exception t)

    abbrev pub with_store : Store → Turn C → Turn C
    with_store st t = record { store = st; stream = t.stream; shown = t.shown }

    abbrev pub after_completion :
        Completion → Round C → ℕ → Turn C → (Text → Turn C → Option Outcome) → Option Outcome
    after_completion (llm_error code) r n t next = some (failed_with code false Status.failed n t)
    after_completion not_configured r n t next =
        some (failed_with (codes "not_configured") false Status.failed n t)
    after_completion broken r n t next = some (left_by_exception t)
    after_completion (received cancelled) r n t next =
        let ran = run_calls tier_of conversation turn r.calls t.store in
        if cancelled || nothing_called r.calls
        then some (answered cancelled n t)
        else after_calls ran.ending (text_of r.deltas) n (with_store ran.store t) next

    abbrev pub fed : Turn C → CitationStream C → List Text → Turn C
    fed t s pieces = record { store = t.store; stream = s; shown = t.shown ++ pieces }

    abbrev pub after_deltas :
        Option (CitationStream C × List Text)
        → Round C
        → ℕ
        → Turn C
        → (Text → Turn C → Option Outcome)
        → Option Outcome
    after_deltas none r n t next = none
    after_deltas (some (s, pieces)) r n t next =
        after_completion r.completion r n (fed t s pieces) next

    abbrev pub after_note : Option (CitationStream C × List Text) → ℕ → Turn C → Option Outcome
    after_note none n t = none
    after_note (some (s, pieces)) n t = some (answered false n (fed t s pieces))

    -- The `else` of the loop; `said` is the text of the last iteration.
    abbrev pub at_limit : (Text → Option C) → Text → ℕ → Turn C → Option Outcome
    at_limit validator said n t =
        if is_empty said
        then after_note (feed validator t.stream limit_note) n t
        else some (answered false n t)

    -- `left` more iterations after `n`.
    unfoldable pub run_rounds :
        (ℕ → Round C) → (Text → Option C) → ℕ → ℕ → Text → Turn C → Option Outcome
    unfolding feed_all run_calls finish
    run_rounds rounds validator zero n said t = at_limit validator said n t
    run_rounds rounds validator (suc left) n said t =
        let r = rounds n in
        let round =
          after_deltas (feed_all r.deltas t.stream) r (suc n) t
            (run_rounds rounds validator left (suc n)) in
        if r.in_time then round else at_limit validator said n t

    abbrev pub run_new :
        (ℕ → Round C) → (Text → Option C) → Text → Store → Option ℕ → Option Outcome
    run_new rounds validator message st (some other) =
        some (record { store = st; shown = []; error = none; completed = some (other, false, 0) })
    run_new rounds validator message st none = run_rounds rounds validator 8 0 [] (record {
      store = started conversation project turn message st;
      stream = fresh;
      shown = [];
    })

    -- `run_turn` with a slot reserved.
    unfoldable pub run_turn :
        (ℕ → Round C) → (Text → Option C) → Text → Bool → Store → Option Outcome
    unfolding run_rounds duplicate_turn_id
    run_turn rounds validator message recent st =
        run_new rounds validator message st (duplicate_turn_id conversation message recent st)
