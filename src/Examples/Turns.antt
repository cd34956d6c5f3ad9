-- ===== src/Examples/Turns.antt =====
-- A turn whose first iteration calls a tool and whose second answers.
use ai_powered_research_work.Prelude.{
  ℕ, zero, suc, ◌≡◌, refl, true, false, Option, none, some, List, [], ◌∷◌, map, Text, codes,
}
use ai_powered_research_work.Streaming.Machine.{feed, advance, unchanged, measure}
use ai_powered_research_work.Streaming.Markup.{search_trigger, trigger_len, partial_delimiter_len}
use ai_powered_research_work.Harness.Resume.{RowRole, Tier, MessageRow, Store, find_trace, finished}
use ai_powered_research_work.Harness.ToolCalls.{Task, Call}
use ai_powered_research_work.Harness.Turn.{
  received, Round, Outcome, duplicate_turn_id, run_turn, started, trace_row,
}
use ai_powered_research_work.Harness.Turn.Calm.{Fair}
use ai_powered_research_work.Harness.Turn.Ends.{Ended, run_turn-Ends}

abbrev nothing_yet : Store
nothing_yet = record { messages = []; traces = [] }

abbrev no_citation : Text → Option ℕ
no_citation quote = none

abbrev looked_up : Call
looked_up = record {
  tool_name = codes "get_paper";
  content = codes "{}";
  woken = record { cancelled = false; answer = none };
  task = Task.returned (record { model_view = codes "found"; ui_view_result_id = none });
  cancelled = false;
}

abbrev round_of : List Call → Text → Round ℕ
round_of calls delta = record {
  in_time = true;
  deltas = (no_citation, delta) ∷ [];
  completion = received false;
  calls = calls;
}

abbrev rounds : ℕ → Round ℕ
rounds zero = round_of (looked_up ∷ []) (codes "a")
rounds (suc k) = round_of [] (codes "b")

abbrev all_auto : Text → Option Tier
all_auto name = some Tier.auto

abbrev Anything : Text → ℕ → Type 0
Anything quote citation = Unit

rounds-Fair : (k : ℕ) → Fair Anything (rounds k)
rounds-Fair zero = record { sound = ((λ q c e. tt), tt); quiet = refl; calm = (refl, tt) }
rounds-Fair (suc k) = record { sound = ((λ q c e. tt), tt); quiet = refl; calm = tt }

abbrev message : Text
message = codes "why?"

run_turn_example :
    (o : Outcome) × (run_turn all_auto 1 2 9 rounds no_citation message true nothing_yet ≡ some o)
    × (e : Ended 1 9 (started 1 2 9 message nothing_yet) o) × (find_trace 9 o.store.traces
        ≡ some (finished e.status e.iterations (trace_row 1 2 9)))
unfolding duplicate_turn_id
run_turn_example =
    run_turn-Ends Anything all_auto 1 2 9 rounds no_citation message true nothing_yet refl refl
      rounds-Fair (λ q c e. tt)

abbrev roles_of : Option Outcome → List RowRole
roles_of none = []
roles_of (some o) = map MessageRow.role o.store.messages

roles_test :
    roles_of (run_turn all_auto 1 2 9 rounds no_citation message true nothing_yet)
    ≡ RowRole.user ∷ RowRole.tool_call ∷ RowRole.tool_result ∷ RowRole.assistant ∷ []
unfolding run_turn feed advance unchanged search_trigger trigger_len partial_delimiter_len measure
roles_test = refl
