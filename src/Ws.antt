-- ===== src/Ws.antt =====
-- backend/ws/__init__.py with what it calls of the harness: `begin_turn` and `interrupt` of
-- backend/harness/loop.py and the pending approvals of backend/harness/approval.py. Sessions and
-- cancel flags are objects, named by numbers from one counter; `turns` lists the spawned turns
-- that have not ended. `sweep_orphans`, which a connect calls, is Harness.Resume.
pub mod Turns
pub mod Registry
use ai_powered_research_work.Prelude.{
  ℕ, ◌+◌, ◌≡◌, Bool, true, false, ◌&&◌, Option, none, some, List, [], ◌∷◌, ◌++◌, Text, text_eq,
  find_first, any, ◌==◌, if◌then◌else◌,
}
use ai_powered_research_work.Prelude.Assoc.{Assoc, lookup, insert, without}
use ai_powered_research_work.Harness.Models.{SelectionState, UiState}

pub record Session : Type 0 where
  pub project_id : ℕ
  pub conversation_id : ℕ
  pub ui_state : UiState

pub data UpstreamEvent : Type 0 where
  user_message : Text → UiState → UpstreamEvent
  ui_state_event : Option SelectionState → UpstreamEvent
  interrupt_event : UpstreamEvent
  approval_response : ℕ → Bool → UpstreamEvent

-- An entry of `_in_flight`: its key and its flag.
pub record Slot : Type 0 where
  pub project_id : ℕ
  pub conversation_id : ℕ
  pub flag : ℕ

pub record World : Type 0 where
  pub sessions : Assoc ℕ
  pub objects : Assoc Session
  pub closed : List ℕ
  pub in_flight : List Slot
  pub cancelled : List ℕ
  pub turns : List Slot
  pub refused : ℕ
  pub pending : Assoc (Option Bool)
  pub next : ℕ

abbrev pub start : World
start = record {
  sessions = [];
  objects = [];
  closed = [];
  in_flight = [];
  cancelled = [];
  turns = [];
  refused = 0;
  pending = [];
  next = 0;
}

abbrev pub has_key : ℕ → ℕ → Slot → Bool
has_key p c slot = (slot.project_id == p) && (slot.conversation_id == c)

abbrev pub pop_key : ℕ → ℕ → List Slot → List Slot
pop_key p c [] = []
pop_key p c (slot ∷ slots) =
    let rest = pop_key p c slots in if has_key p c slot then slots else slot ∷ rest

-- `begin_turn`: the slot that it reserves.
unfoldable pub begin_turn : ℕ → ℕ → World → Option Slot
begin_turn p c w =
    if any (has_key p c) w.in_flight
    then none
    else some (record { project_id = p; conversation_id = c; flag = w.next })

abbrev pub set_flag : Option Slot → World → World
set_flag none w = w
set_flag (some slot) w = record {
  sessions = w.sessions;
  objects = w.objects;
  closed = w.closed;
  in_flight = w.in_flight;
  cancelled = slot.flag ∷ w.cancelled;
  turns = w.turns;
  refused = w.refused;
  pending = w.pending;
  next = w.next;
}

unfoldable pub interrupt : ℕ → ℕ → World → World
interrupt p c w = set_flag (find_first (has_key p c) w.in_flight) w

abbrev with_pending : Assoc (Option Bool) → World → World
with_pending pending w = record {
  sessions = w.sessions;
  objects = w.objects;
  closed = w.closed;
  in_flight = w.in_flight;
  cancelled = w.cancelled;
  turns = w.turns;
  refused = w.refused;
  pending = pending;
  next = w.next;
}

-- `approval.register`: a future that is not done.
unfoldable pub register : ℕ → World → World
register request w = with_pending (insert request none w.pending) w

abbrev pub set_result : ℕ → Bool → Option (Option Bool) → World → World
set_result request approved none w = w
set_result request approved (some (some answer)) w = w
set_result request approved (some none) w =
    with_pending (insert request (some approved) w.pending) w

unfoldable pub resolve : ℕ → Bool → World → World
resolve request approved w = set_result request approved (lookup request w.pending) w

unfoldable pub discard : ℕ → World → World
discard request w = with_pending (without request w.pending) w

abbrev pub with_ui_state : ℕ → Session → UiState → World → World
with_ui_state id s ui_state w = record {
  sessions = w.sessions;
  objects =
      insert id
        (record {
          project_id = s.project_id;
          conversation_id = s.conversation_id;
          ui_state = ui_state;
        })
        w.objects;
  closed = w.closed;
  in_flight = w.in_flight;
  cancelled = w.cancelled;
  turns = w.turns;
  refused = w.refused;
  pending = w.pending;
  next = w.next;
}

abbrev pub spawn : Option Slot → World → World
spawn none w = record {
  sessions = w.sessions;
  objects = w.objects;
  closed = w.closed;
  in_flight = w.in_flight;
  cancelled = w.cancelled;
  turns = w.turns;
  refused = w.refused + 1;
  pending = w.pending;
  next = w.next;
}
spawn (some slot) w = record {
  sessions = w.sessions;
  objects = w.objects;
  closed = w.closed;
  in_flight = w.in_flight ++ (slot ∷ []);
  cancelled = w.cancelled;
  turns = w.turns ++ (slot ∷ []);
  refused = w.refused;
  pending = w.pending;
  next = w.next + 1;
}

-- `ui_state.model_copy(update={"selection": …})`
abbrev with_selection : Option SelectionState → UiState → UiState
with_selection selection u = record {
  selection = selection;
  open_paper_ids = u.open_paper_ids;
  active_view = u.active_view;
  active_id = u.active_id;
  open_panes = u.open_panes;
  working_set = u.working_set;
}

unfoldable pub handle_message : ℕ → Session → UpstreamEvent → World → World
unfolding begin_turn interrupt resolve
handle_message id s (approval_response request approved) w = resolve request approved w
handle_message id s (ui_state_event selection) w =
    with_ui_state id s (with_selection selection s.ui_state) w
handle_message id s interrupt_event w = interrupt s.project_id s.conversation_id w
handle_message id s (user_message text ui_state) w =
    spawn (begin_turn s.project_id s.conversation_id w) (with_ui_state id s ui_state w)

abbrev evict : Option ℕ → List ℕ → List ℕ
evict none closed = closed
evict (some old) closed = old ∷ closed

abbrev pub no_ui_state : UiState
no_ui_state = record {
  selection = none;
  open_paper_ids = [];
  active_view = none;
  active_id = none;
  open_panes = [];
  working_set = [];
}

-- `handle_connect` with a good token, up to the sweep.
unfoldable pub accept_session : ℕ → ℕ → World → World
accept_session p c w = record {
  sessions = insert p w.next w.sessions;
  objects =
      insert w.next (record { project_id = p; conversation_id = c; ui_state = no_ui_state })
        w.objects;
  closed = evict (lookup p w.sessions) w.closed;
  in_flight = w.in_flight;
  cancelled = w.cancelled;
  turns = w.turns;
  refused = w.refused;
  pending = w.pending;
  next = w.next + 1;
}

abbrev pub accept_if : Bool → ℕ → ℕ → World → World
accept_if true p c w = accept_session p c w
accept_if false p c w = w

-- The conversation `c` of the project is the database's; with a bad token nothing changes.
unfoldable pub handle_connect : Text → Text → ℕ → ℕ → World → World
unfolding accept_session
handle_connect bearer_token token p c w = accept_if (text_eq token bearer_token) p c w

abbrev pub without_if : Bool → ℕ → World → World
without_if false p w = w
without_if true p w = record {
  sessions = without p w.sessions;
  objects = w.objects;
  closed = w.closed;
  in_flight = w.in_flight;
  cancelled = w.cancelled;
  turns = w.turns;
  refused = w.refused;
  pending = w.pending;
  next = w.next;
}

abbrev pub is_session : ℕ → Option ℕ → Bool
is_session id none = false
is_session id (some k) = k == id

-- The `finally` of `session_endpoint`.
unfoldable pub disconnect : ℕ → ℕ → World → World
disconnect id p w = without_if (is_session id (lookup p w.sessions)) p w

-- The `finally` of `run_turn`, for a turn that stands between two others in `turns`.
unfoldable pub end_turn : List Slot → Slot → List Slot → World → World
end_turn before slot after w = record {
  sessions = w.sessions;
  objects = w.objects;
  closed = w.closed;
  in_flight = pop_key slot.project_id slot.conversation_id w.in_flight;
  cancelled = w.cancelled;
  turns = before ++ after;
  refused = w.refused;
  pending = w.pending;
  next = w.next;
}

pub data Step : World → World → Type 0 where
  connect :
      {w : World} (bearer_token token : Text) (p c : ℕ)
      → Step w (handle_connect bearer_token token p c w)
  message :
      {w : World} (id : ℕ) (s : Session) (event : UpstreamEvent)
      → lookup id w.objects ≡ some s
      → Step w (handle_message id s event w)
  leave : {w : World} (id p : ℕ) → Step w (disconnect id p w)
  ends :
      {w : World} (before : List Slot) (slot : Slot) (after : List Slot)
      → w.turns ≡ before ++ (slot ∷ after)
      → Step w (end_turn before slot after w)
  ask : {w : World} (request : ℕ) → Step w (register request w)
  give_up : {w : World} (request : ℕ) → Step w (discard request w)

-- The worlds that the program reaches.
pub data Reach : World → Type 0 where
  begin : Reach start
  next_step : {v w : World} → Reach v → Step v w → Reach w
