-- ===== src/Harness/ToolCalls.antt =====
-- The tool calls of one completion in `run_turn` of backend/harness/loop.py, with
-- `_await_approval` and `_dispatch_tool_bounded`: the consent gate, the transaction around a
-- dispatch, and the ways out. What a wait finds when it wakes is an argument of each call.
pub mod Consent
pub mod Pairs
use ai_powered_research_work.Prelude.{
  ℕ, Bool, true, false, Option, none, some, List, [], ◌∷◌, ◌++◌, Text, codes,
}
use ai_powered_research_work.Harness.Resume.{
  Tier, MessageRow, RowRole, Store, ToolResult, next_seq, add_message,
}

-- At the end of the wait for an approval: whether the turn was cancelled, and the human's answer.
-- Neither is the timeout.
pub record Woken : Type 0 where
  pub cancelled : Bool
  pub answer : Option Bool

pub data Approval : Type 0 where
  approved denied timed_out : Approval

abbrev answered : Option Bool → Approval
answered none = timed_out
answered (some true) = approved
answered (some false) = denied

-- `_await_approval`; `none` is `_ToolDispatchInterrupted`.
unfoldable pub await_approval : Woken → Option Approval
await_approval w = elim w.cancelled [ true ↦ none | false ↦ some (answered w.answer) ]

-- The dispatch task at the end of its wait.
pub data Task : Type 0 where
  pending : Task
  returned : ToolResult → Task
  raised : Task

pub data Dispatched : Type 0 where
  result : ToolResult → Dispatched
  interrupted timeout failed : Dispatched

-- `_dispatch_tool_bounded`
unfoldable pub dispatch_tool_bounded : Task → Bool → Dispatched
dispatch_tool_bounded (returned r) cancelled = result r
dispatch_tool_bounded raised cancelled = failed
dispatch_tool_bounded pending true = interrupted
dispatch_tool_bounded pending false = timeout

-- A call of the model, and what its waits find.
pub record Call : Type 0 where
  pub tool_name : Text
  pub content : Text
  pub woken : Woken
  pub task : Task
  pub cancelled : Bool

-- How the calls end: all done, or the turn with them.
pub data End : Type 0 where
  all_done : End
  turn_interrupted tool_timeout exception : End

pub record Ran : Type 0 where
  pub store : Store
  pub dispatched : List Call
  pub ending : End

module _ (tier_of : Text → Option Tier) (conversation turn : ℕ) where
  abbrev pub asks : Option Tier → Woken → Option Approval
  asks (some Tier.confirm) w = await_approval w
  asks (some Tier.auto) w = some approved
  asks none w = some approved

  abbrev pub outcome_of : Call → Option Approval
  outcome_of call = asks (tier_of call.tool_name) call.woken

  abbrev pub call_row : Call → ℕ → MessageRow
  call_row call seq = record {
    conversation_id = conversation;
    seq = seq;
    turn_id = turn;
    role = RowRole.tool_call;
    content = call.content;
    tool_name = some call.tool_name;
    result_id = none;
    was_interrupted = false;
  }

  abbrev pub result_row : Call → ToolResult → ℕ → MessageRow
  result_row call r seq = record {
    conversation_id = conversation;
    seq = seq;
    turn_id = turn;
    role = RowRole.tool_result;
    content = r.model_view;
    tool_name = some call.tool_name;
    result_id = r.ui_view_result_id;
    was_interrupted = false;
  }

  -- The transaction of a call with its result: both rows.
  unfoldable pub commit : Call → ToolResult → Store → Store
  commit call r st =
      let with_call = add_message (call_row call (next_seq st conversation)) st in
      add_message (result_row call r (next_seq with_call conversation)) with_call

  abbrev declined : Approval → Call → ToolResult
  declined denied call = record {
    model_view = codes "The user declined this action.";
    ui_view_result_id = none;
  }
  declined timed_out call = record {
    model_view =
        codes "\"" ++ call.tool_name ++ codes "\" did not receive an approval response in time.";
    ui_view_result_id = none;
  }
  declined approved call = record { model_view = []; ui_view_result_id = none }

  abbrev pub stop : Store → List Call → End → Ran
  stop st calls ending = record { store = st; dispatched = calls; ending = ending }

  abbrev pub logged : List Call → Ran → Ran
  logged calls rest = record {
    store = rest.store;
    dispatched = calls ++ rest.dispatched;
    ending = rest.ending;
  }

  -- After the dispatch of a call: an exception rolls its transaction back.
  abbrev pub after_task : Call → Dispatched → Store → (Store → Ran) → Ran
  after_task call (result r) st rest = logged (call ∷ []) (rest (commit call r st))
  after_task call interrupted st rest = stop st (call ∷ []) turn_interrupted
  after_task call timeout st rest = stop st (call ∷ []) tool_timeout
  after_task call failed st rest = stop st (call ∷ []) exception

  abbrev pub after_outcome : Call → Option Approval → Store → (Store → Ran) → Ran
  after_outcome call none st rest = stop st [] turn_interrupted
  after_outcome call (some approved) st rest =
      after_task call (dispatch_tool_bounded call.task call.cancelled) st rest
  after_outcome call (some denied) st rest = rest (commit call (declined denied call) st)
  after_outcome call (some timed_out) st rest = rest (commit call (declined timed_out call) st)

  unfoldable pub run_calls : List Call → Store → Ran
  unfolding await_approval dispatch_tool_bounded commit
  run_calls [] st = stop st [] all_done
  run_calls (call ∷ calls) st = after_outcome call (outcome_of call) st (run_calls calls)
