-- ===== src/Harness/ToolCalls/Pairs.antt =====
-- The rows that the tool calls of `run_turn` (backend/harness/loop.py) leave.
use ai_powered_research_work.Prelude.{
  ℕ, suc, max, ◌≡◌, refl, sym, ◌∙◌, Option, none, some, List, [], ◌∷◌, ◌++◌, append-nil,
  append_assoc, arith, Text, keep, ◌==◌,
}
use ai_powered_research_work.Harness.Resume.{
  Tier, MessageRow, RowRole, Store, ToolResult, max_seq, next_seq, add_message,
}
use ai_powered_research_work.Harness.ToolCalls.{
  Approval, approved, denied, timed_out, Dispatched, result, interrupted, timeout, failed, Call,
  Ran, dispatch_tool_bounded, outcome_of, call_row, result_row, commit, after_task, after_outcome,
  run_calls,
}

-- Rows in pairs: a `tool_call` and the `tool_result` of the same tool, next to it and numbered
-- next to it.
pub data Paired (conversation turn : ℕ) : List MessageRow → Type 0 where
  no_more : Paired conversation turn []
  pair :
      {call answer : MessageRow} {rows : List MessageRow}
      → (call.role ≡ RowRole.tool_call) × (answer.role ≡ RowRole.tool_result)
      → (call.turn_id ≡ turn) × (answer.turn_id ≡ turn)
      → answer.tool_name ≡ call.tool_name
      → answer.seq ≡ suc call.seq
      → Paired conversation turn rows
      → Paired conversation turn (call ∷ answer ∷ rows)

max_seq-snoc :
    (conversation : ℕ) (rows : List MessageRow) (row : MessageRow)
    → row.conversation_id ≡ conversation
    → max_seq (keep (λ r. r.conversation_id == conversation) (rows ++ (row ∷ [])))
      ≡ max (max_seq (keep (λ r. r.conversation_id == conversation) rows)) row.seq
max_seq-snoc conversation [] row e = ground arith
max_seq-snoc conversation (r ∷ rows) row e = ground (arith, max_seq-snoc conversation rows row e)

next_seq-add_message :
    (conversation : ℕ) (st : Store) (row : MessageRow)
    → row.conversation_id ≡ conversation
    → row.seq ≡ next_seq st conversation
    → next_seq (add_message row st) conversation ≡ suc row.seq
unfolding next_seq
next_seq-add_message conversation st row e s =
    omega (arith, max_seq-snoc conversation st.messages row e, s)

module _ (tier_of : Text → Option Tier) (conversation turn : ℕ) where
  -- A run that adds pairs to the transcript, and nothing else.
  abbrev AddsPairs : Store → Ran → Type 0
  AddsPairs st r =
      (added : List MessageRow) × (r.store.messages ≡ st.messages ++ added)
      × Paired conversation turn added
      × (r.store.traces ≡ st.traces)

  commit-AddsPairs :
      (call : Call) (r : ToolResult) (st : Store) (rest : Store → Ran)
      → ((s : Store) → AddsPairs s (rest s))
      → AddsPairs st (rest (commit tier_of conversation turn call r st))
  unfolding commit
  commit-AddsPairs call r st rest h =
      let (added, e, p, t) = h (commit tier_of conversation turn call r st) in
      let a = call_row tier_of conversation turn call (next_seq st conversation) in
      let b =
        result_row tier_of conversation turn call r (next_seq (add_message a st) conversation) in
      (
        a ∷ b ∷ added,
        e
            ∙ append_assoc (st.messages ++ (a ∷ [])) (b ∷ []) added
            ∙ append_assoc st.messages (a ∷ []) (b ∷ added),
        pair {call = a} {answer = b} (refl, refl) (refl, refl) refl
            (next_seq-add_message conversation st a refl refl) p,
        t,
      )

  task-AddsPairs :
      (call : Call) (d : Dispatched) (st : Store) (rest : Store → Ran)
      → ((s : Store) → AddsPairs s (rest s))
      → AddsPairs st (after_task tier_of conversation turn call d st rest)
  task-AddsPairs call (result r) st rest h = commit-AddsPairs call r st rest h
  task-AddsPairs call interrupted st rest h = ([], sym (append-nil st.messages), no_more, refl)
  task-AddsPairs call timeout st rest h = ([], sym (append-nil st.messages), no_more, refl)
  task-AddsPairs call failed st rest h = ([], sym (append-nil st.messages), no_more, refl)

  outcome-AddsPairs :
      (call : Call) (o : Option Approval) (st : Store) (rest : Store → Ran)
      → ((s : Store) → AddsPairs s (rest s))
      → AddsPairs st (after_outcome tier_of conversation turn call o st rest)
  outcome-AddsPairs call none st rest h = ([], sym (append-nil st.messages), no_more, refl)
  outcome-AddsPairs call (some approved) st rest h =
      task-AddsPairs call (dispatch_tool_bounded call.task call.cancelled) st rest h
  outcome-AddsPairs call (some denied) st rest h = commit-AddsPairs call _ st rest h
  outcome-AddsPairs call (some timed_out) st rest h = commit-AddsPairs call _ st rest h

  -- For every list of calls, whatever their waits find and however they end: the run adds to the
  -- transcript pairs of a `tool_call` row and the `tool_result` row of the same tool and turn,
  -- numbered one after the other, and changes nothing else of the transcript and the traces.
  pub run_calls-Paired :
      (calls : List Call) (st : Store)
      → (added : List MessageRow) × ((run_calls tier_of conversation turn calls st).store.messages
          ≡ st.messages ++ added)
        × Paired conversation turn added
        × ((run_calls tier_of conversation turn calls st).store.traces ≡ st.traces)
  unfolding run_calls
  run_calls-Paired [] st = ([], sym (append-nil st.messages), no_more, refl)
  run_calls-Paired (call ∷ calls) st =
      outcome-AddsPairs call (outcome_of tier_of conversation turn call) st
        (run_calls tier_of conversation turn calls) (run_calls-Paired calls)
