-- ===== src/Harness/Resume.antt =====
-- backend/harness/resume.py with `finish` of backend/harness/trace.py: the sweep that closes the
-- turns a crashed process left running. Of the tables `messages` and `turn_traces` it keeps the
-- columns that the sweep reads, and those that it sets to a value that it computes.
-- `dispatch name content` is `registry.dispatch` with the arguments in a `tool_call` row's
-- content, `none` when the handler raises; `tier_of` is the tier of `registry.get`.
pub mod Sweep
pub mod Settles
pub mod Closed
use ai_powered_research_work.Prelude.{
  ℕ, ◌+◌, max, Bool, true, false, ◌&&◌, not, Option, none, some, List, [], ◌∷◌, ◌++◌, map, Text,
  codes, keep, find_first, any, ltb, ◌==◌, if◌then◌else◌,
}

pub data RowRole : Type 0 where
  user assistant tool_call tool_result : RowRole

pub data Status : Type 0 where
  running complete interrupted failed : Status

pub data Tier : Type 0 where
  auto confirm : Tier

pub record MessageRow : Type 0 where
  pub conversation_id : ℕ
  pub seq : ℕ
  pub turn_id : ℕ
  pub role : RowRole
  pub content : Text
  pub tool_name : Option Text
  pub result_id : Option Text
  pub was_interrupted : Bool

pub record TraceRow : Type 0 where
  pub turn_id : ℕ
  pub conversation_id : ℕ
  pub project_id : ℕ
  pub status : Status
  pub iterations : ℕ

pub record Store : Type 0 where
  pub messages : List MessageRow
  pub traces : List TraceRow

pub record ToolResult : Type 0 where
  pub model_view : Text
  pub ui_view_result_id : Option Text

abbrev pub is_call : RowRole → Bool
is_call tool_call = true
is_call _ = false

abbrev pub is_result : RowRole → Bool
is_result tool_result = true
is_result _ = false

abbrev pub is_assistant : RowRole → Bool
is_assistant assistant = true
is_assistant _ = false

abbrev pub is_running : Status → Bool
is_running running = true
is_running _ = false

abbrev last : List MessageRow → Option MessageRow
last [] = none
last (r ∷ []) = some r
last (r ∷ s ∷ rows) = last (s ∷ rows)

abbrev pub result_of_call : List MessageRow → Option MessageRow → Option MessageRow
result_of_call rows none = none
result_of_call rows (some call) =
    find_first (λ row. is_result row.role && ltb call.seq row.seq) rows

-- The first component of `_last_tool_call_and_result`.
unfoldable pub last_tool_call : List MessageRow → Option MessageRow
last_tool_call rows = last (keep (λ row. is_call row.role) rows)

-- Its second component.
unfoldable pub last_tool_result : List MessageRow → Option MessageRow
unfolding last_tool_call
last_tool_result rows = result_of_call rows (last_tool_call rows)

pub data Resolution : Type 0 where
  redispatch close_interrupted : Resolution

abbrev by_tier : Option Tier → Resolution
by_tier (some auto) = redispatch
by_tier (some confirm) = close_interrupted
by_tier none = close_interrupted

unfoldable pub resolution_for : Option MessageRow → Option MessageRow → Option Tier → Resolution
resolution_for none result spec = close_interrupted
resolution_for (some call) (some result) spec = close_interrupted
resolution_for (some call) none spec = by_tier spec

-- `ORDER BY seq`
abbrev insert_row : MessageRow → List MessageRow → List MessageRow
insert_row r [] = r ∷ []
insert_row r (s ∷ rows) = if ltb r.seq s.seq then r ∷ s ∷ rows else s ∷ insert_row r rows

abbrev order_by_seq : List MessageRow → List MessageRow
order_by_seq [] = []
order_by_seq (r ∷ rows) = insert_row r (order_by_seq rows)

abbrev pub max_seq : List MessageRow → ℕ
max_seq [] = 0
max_seq (r ∷ rows) = max r.seq (max_seq rows)

unfoldable pub next_seq : Store → ℕ → ℕ
next_seq st conversation =
    max_seq (keep (λ row. row.conversation_id == conversation) st.messages) + 1

unfoldable pub turn_rows : Store → ℕ → List MessageRow
turn_rows st turn = order_by_seq (keep (λ row. row.turn_id == turn) st.messages)

abbrev pub find_trace : ℕ → List TraceRow → Option TraceRow
find_trace turn traces = find_first (λ row. row.turn_id == turn) traces

abbrev pub finished : Status → ℕ → TraceRow → TraceRow
finished status iterations row = record {
  turn_id = row.turn_id;
  conversation_id = row.conversation_id;
  project_id = row.project_id;
  status = status;
  iterations = iterations;
}

abbrev pub finish_row : ℕ → Status → ℕ → List TraceRow → List TraceRow
finish_row turn status iterations [] = []
finish_row turn status iterations (row ∷ traces) =
    let rest = finish_row turn status iterations traces in
    if row.turn_id == turn then finished status iterations row ∷ traces else row ∷ rest

-- `trace.finish`
unfoldable pub finish : ℕ → Status → ℕ → Store → Store
finish turn status iterations st = record {
  messages = st.messages;
  traces = finish_row turn status iterations st.traces;
}

abbrev pub add_message : MessageRow → Store → Store
add_message row st = record { messages = st.messages ++ (row ∷ []); traces = st.traces }

-- What a sweep leaves: the store, the tools it ran again, and whether an exception ended it.
pub record Swept : Type 0 where
  pub store : Store
  pub dispatched : List Text
  pub raised : Bool

abbrev pub settled : Store → Swept
settled st = record { store = st; dispatched = []; raised = false }

abbrev pub name_of : MessageRow → Text
name_of row = elim row.tool_name [ none ↦ [] | some name ↦ name ]

-- The end of `_resolve_orphan`: the closing `assistant` row, and the status.
unfoldable pub close_turn : TraceRow → Text → List Text → Store → Swept
unfolding next_seq finish
close_turn trace note ran st = record {
  store = finish trace.turn_id interrupted 0 (
      add_message
        (record {
          conversation_id = trace.conversation_id;
          seq = next_seq st trace.conversation_id;
          turn_id = trace.turn_id;
          role = assistant;
          content = note;
          tool_name = none;
          result_id = none;
          was_interrupted = true;
        })
        st);
  dispatched = ran;
  raised = false;
}

abbrev interrupted_note : Text
interrupted_note =
    codes "This response was interrupted before it finished — the conversation continues from here."

abbrev pending_confirm_note : Option Text → Text
pending_confirm_note tool_name =
    codes "This response was interrupted before finishing, and a pending action (\""
    ++ elim tool_name [ none ↦ codes "None" | some name ↦ name ]
    ++ codes "\") that needed your approval was not completed — re-ask if you still want it done."

abbrev note_for : Option MessageRow → Option MessageRow → Text
note_for none result = interrupted_note
note_for (some call) none = pending_confirm_note call.tool_name
note_for (some call) (some result) = interrupted_note

abbrev pub followed_by : Swept → Swept → Swept
followed_by first rest = record {
  store = rest.store;
  dispatched = first.dispatched ++ rest.dispatched;
  raised = rest.raised;
}

abbrev pub has_assistant : Store → ℕ → Bool
has_assistant st turn = any (λ row. (row.turn_id == turn) && is_assistant row.role) st.messages

abbrev pub is_orphan : ℕ → Store → TraceRow → Bool
is_orphan project st row =
    (row.project_id == project) && is_running row.status && not (has_assistant st row.turn_id)

unfoldable pub orphans : ℕ → Store → List ℕ
orphans project st = map (λ row. row.turn_id) (keep (is_orphan project st) st.traces)

module _ (dispatch : Text → Text → Option ToolResult) (tier_of : Text → Option Tier) where
  -- `_redispatch` on the result of the call, and the close that follows it.
  abbrev pub after_dispatch : TraceRow → MessageRow → Option ToolResult → Store → Swept
  after_dispatch trace call none st = record {
    store = st;
    dispatched = name_of call ∷ [];
    raised = true;
  }
  after_dispatch trace call (some result) st =
      close_turn trace
        (codes "\""
          ++ name_of call
          ++ codes "\" finished after an interruption caused the original request to end early: "
          ++ result.model_view
          ++ codes " The conversation continues from here.")
        (name_of call ∷ [])
        (add_message
          (record {
            conversation_id = trace.conversation_id;
            seq = next_seq st trace.conversation_id;
            turn_id = trace.turn_id;
            role = tool_result;
            content = result.model_view;
            tool_name = some (name_of call);
            result_id = result.ui_view_result_id;
            was_interrupted = false;
          })
          st)

  abbrev pub act : Resolution → TraceRow → Option MessageRow → Option MessageRow → Store → Swept
  act close_interrupted trace call result st = close_turn trace (note_for call result) [] st
  act redispatch trace none result st = close_turn trace (note_for none result) [] st
  act redispatch trace (some call) result st =
      after_dispatch trace call (dispatch (name_of call) call.content) st

  abbrev pub spec_of : Option MessageRow → Option Tier
  spec_of none = none
  spec_of (some call) = elim call.tool_name [ none ↦ none | some name ↦ tier_of name ]

  unfoldable pub resolve_trace : TraceRow → Store → Swept
  resolve_trace trace st =
      let rows = turn_rows st trace.turn_id in
      act
        (resolution_for (last_tool_call rows) (last_tool_result rows)
          (spec_of (last_tool_call rows)))
        trace (last_tool_call rows) (last_tool_result rows) st

  abbrev pub resolve_found : Option TraceRow → Store → Swept
  resolve_found none st = settled st
  resolve_found (some trace) st =
      if is_running trace.status then resolve_trace trace st else settled st

  unfoldable pub resolve_orphan : ℕ → Store → Swept
  unfolding resolve_trace
  resolve_orphan turn st = resolve_found (find_trace turn st.traces) st

  unfoldable pub sweep_turns : List ℕ → Store → Swept
  unfolding resolve_orphan
  sweep_turns [] st = settled st
  sweep_turns (turn ∷ turns) st =
      let first = resolve_orphan turn st in
      let rest = sweep_turns turns first.store in
      if first.raised then first else followed_by first rest

  unfoldable pub sweep_orphans : ℕ → Store → Swept
  unfolding sweep_turns orphans
  sweep_orphans project st = sweep_turns (orphans project st) st
