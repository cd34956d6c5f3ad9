-- ===== src/Examples/Chats.antt =====
-- A conversation: its prompt, a turn that a crash left running, and two sockets.
use ai_powered_research_work.Prelude.{
  ℕ, ◌≡◌, ◌≢◌, refl, true, false, Option, none, some, List, [], ◌∷◌, ◌++◌, Text, codes, length, All,
  arith,
}
use ai_powered_research_work.Prelude.Assoc.{lookup, insert}
use ai_powered_research_work.Harness.Models.{Role, Message, UiState}
use ai_powered_research_work.Harness.Context.Blocks.{ContextBlock, plain_message, block}
use ai_powered_research_work.Harness.Context.Assemble.{
  Entry, messages_of, number_from, totals_from, assemble,
}
use ai_powered_research_work.Harness.Context.Bands.{of_band}
use ai_powered_research_work.Harness.Context.Eviction.{Kept, assemble_lem}
use ai_powered_research_work.Harness.Resume.{
  Status, Tier, RowRole, MessageRow, TraceRow, Store, ToolResult, find_trace, has_assistant,
  sweep_orphans,
}
use ai_powered_research_work.Harness.Resume.Sweep.{sweep_orphans-AutoOnly}
use ai_powered_research_work.Harness.Resume.Settles.{closed, Extends}
use ai_powered_research_work.Harness.Resume.Closed.{sweep_orphans_lem}
use ai_powered_research_work.Harness.ToolCalls.{Task, Call, run_calls}
use ai_powered_research_work.Harness.ToolCalls.Consent.{HasConsent, run_calls-HasConsent}
use ai_powered_research_work.Ws.{
  Session, Slot, World, start, Reach, begin, next_step, connect, message, user_message, begin_turn,
  handle_message, handle_connect, accept_session,
}
use ai_powered_research_work.Ws.Turns.{IsOnePerSession, Reach-IsOnePerSession}

abbrev prompt : List ContextBlock
prompt =
    block (codes "identity") 1 (plain_message Role.system (codes "be brief"))
    ∷ block (codes "history") 3 (plain_message Role.user (codes "hello"))
    ∷ block (codes "question") 1 (plain_message Role.user (codes "why?"))
    ∷ []

abbrev count_messages : List Message → ℕ
count_messages messages = length messages

assemble_example :
    (kept : List Entry) × (assemble count_messages 2 prompt
      ≡ some (messages_of kept, totals_from count_messages [] kept))
    × Kept (number_from 0 prompt) count_messages 2 kept
    × (of_band 1 kept ≡ of_band 1 (number_from 0 prompt))
assemble_example = assemble_lem count_messages 2 prompt

abbrev asked : MessageRow
asked = record {
  conversation_id = 1;
  seq = 1;
  turn_id = 9;
  role = RowRole.user;
  content = codes "hi";
  tool_name = none;
  result_id = none;
  was_interrupted = false;
}

abbrev called : MessageRow
called = record asked {
  seq = 2;
  role = RowRole.tool_call;
  content = codes "{}";
  tool_name = some (codes "search");
}

abbrev crashed_turn : TraceRow
crashed_turn = record {
  turn_id = 9;
  conversation_id = 1;
  project_id = 4;
  status = Status.running;
  iterations = 2;
}

abbrev crashed : Store
crashed = record { messages = asked ∷ called ∷ []; traces = crashed_turn ∷ [] }

abbrev answers : Text → Text → Option ToolResult
answers name content = some (record { model_view = codes "done"; ui_view_result_id = none })

abbrev all_auto : Text → Option Tier
all_auto name = some Tier.auto

answers_always : (name content : Text) → answers name content ≢ none
answers_always name content h = cc h

sweep_orphans_example :
    ((sweep_orphans answers all_auto 4 crashed).raised ≡ false)
    × Extends crashed (sweep_orphans answers all_auto 4 crashed).store
    × (find_trace 9 (sweep_orphans answers all_auto 4 crashed).store.traces
        ≡ some (closed crashed_turn))
    × (has_assistant (sweep_orphans answers all_auto 4 crashed).store 9 ≡ true)
sweep_orphans_example =
    sweep_orphans_lem answers all_auto answers_always 4 crashed 9 crashed_turn refl refl

sweep_orphans-AutoOnly_example :
    All
      (λ name. all_auto name ≡ some Tier.auto)
      (sweep_orphans answers all_auto 4 crashed).dispatched
sweep_orphans-AutoOnly_example = sweep_orphans-AutoOnly answers all_auto 4 crashed

abbrev no_ui : UiState
no_ui = record {
  selection = none;
  open_paper_ids = [];
  active_view = none;
  active_id = none;
  open_panes = [];
  working_set = [];
}

abbrev secret : Text
secret = codes "t"

abbrev first_session : Session
first_session = record { project_id = 4; conversation_id = 1; ui_state = no_ui }

abbrev connected : World
connected = handle_connect secret secret 4 1 start

abbrev talking : World
talking = handle_message 0 first_session (user_message (codes "hi") no_ui) connected

abbrev first_slot : Slot
first_slot = record { project_id = 4; conversation_id = 1; flag = 1 }

is_open : lookup 0 connected.objects ≡ some first_session
unfolding handle_connect accept_session lookup insert
is_open = refl

talking_reached : Reach talking
talking_reached =
    next_step (next_step begin (connect secret secret 4 1))
      (message 0 first_session (user_message (codes "hi") no_ui) is_open)

runs_one : talking.turns ≡ [] ++ (first_slot ∷ [])
unfolding handle_message handle_connect accept_session begin_turn
runs_one = refl

Reach-IsOnePerSession_example : IsOnePerSession talking
Reach-IsOnePerSession_example = Reach-IsOnePerSession talking talking_reached

older : 0 ≢ connected.next
unfolding handle_connect accept_session
older h = omega (arith, h)

abbrev approved_call : Call
approved_call = record {
  tool_name = codes "run_all";
  content = codes "{}";
  woken = record { cancelled = false; answer = some true };
  task = Task.returned (record { model_view = codes "done"; ui_view_result_id = none });
  cancelled = false;
}

abbrev denied_call : Call
denied_call = record approved_call { woken = record { cancelled = false; answer = some false } }

abbrev all_confirm : Text → Option Tier
all_confirm name = some Tier.confirm

abbrev two_calls : List Call
two_calls = approved_call ∷ denied_call ∷ []

run_calls-HasConsent_example :
    All (HasConsent all_confirm) (run_calls all_confirm 1 9 two_calls crashed).dispatched
run_calls-HasConsent_example = run_calls-HasConsent all_confirm 1 9 two_calls crashed
