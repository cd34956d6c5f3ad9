-- ===== src/Harness/Resume/Closed.antt =====
-- What the sweep of backend/harness/resume.py leaves of each turn, when no tool raises.
use ai_powered_research_work.Prelude.{
  ℕ, ◌≡◌, refl, sym, ◌∙◌, inl, inr, ◌≢◌, true, false, ◌&&◌, Option, none, some, List, [], ◌∷◌,
  append-nil, append_assoc, Text, any, ◌==◌, Bool-cases,
}
use ai_powered_research_work.Harness.Resume.{
  Tier, MessageRow, TraceRow, Store, ToolResult, Resolution, is_running, is_assistant, find_trace,
  finish, close_turn, name_of, after_dispatch, act, resolve_trace, resolve_found, resolve_orphan,
  sweep_turns, has_assistant, is_orphan, orphans, sweep_orphans,
}
use ai_powered_research_work.Harness.Resume.Settles.{
  any_last, close_turn-Closes, same_id, idle-Settles, Closes-Settles, Settles-both, orphan-runs,
  orphans-has, closed, Extends, Closes, Settles,
}

module _ (dispatch : Text → Text → Option ToolResult) (tier_of : Text → Option Tier)
    (total : (name content : Text) → dispatch name content ≢ none) where
  after-Closes :
      (trace : TraceRow) (call : MessageRow) (o : Option ToolResult) (st : Store)
      → o ≢ none
      → Closes trace st (after_dispatch dispatch tier_of trace call o st)
  unfolding close_turn finish
  after-Closes trace call none st h = absurd (h refl)
  after-Closes trace call (some result) st h = (
    refl,
    refl,
    (_, append_assoc st.messages _ _),
    any_last (λ row. (row.turn_id == trace.turn_id) && is_assistant row.role) _ _
        (same_id trace.turn_id),
  )

  act-Closes :
      (resolution : Resolution) (trace : TraceRow) (call result : Option MessageRow) (st : Store)
      → Closes trace st (act dispatch tier_of resolution trace call result st)
  act-Closes Resolution.close_interrupted trace call result st = close_turn-Closes trace _ _ st
  act-Closes Resolution.redispatch trace none result st = close_turn-Closes trace _ _ st
  act-Closes Resolution.redispatch trace (some call) result st =
      after-Closes trace call (dispatch (name_of call) call.content) st (total _ _)

  resolve-Closes :
      (trace : TraceRow) (st : Store) → Closes trace st (resolve_trace dispatch tier_of trace st)
  unfolding resolve_trace
  resolve-Closes trace st = act-Closes _ trace _ _ st

  found-Settles :
      (turn : ℕ) (st : Store) (o : Option TraceRow)
      → find_trace turn st.traces ≡ o
      → Settles (turn ∷ []) st (resolve_found dispatch tier_of o st)
  found-Settles turn st none e = idle-Settles turn st none e refl (λ row h. absurd (cc h))
  found-Settles turn st (some trace) e = elim (Bool-cases (is_running trace.status)) [
    | inl run ↦ rw run (
        Closes-Settles turn st trace (resolve_trace dispatch tier_of trace st) e run
          (resolve-Closes trace st))
    | inr stop ↦ rw stop (
        idle-Settles turn st (some trace) e (rw stop refl)
          (λ row h run. absurd (cc (h, run, stop))))
  ]

  sweep_turns-Settles :
      (turns : List ℕ) (st : Store) → Settles turns st (sweep_turns dispatch tier_of turns st)
  unfolding sweep_turns resolve_orphan
  sweep_turns-Settles [] st =
      (refl, ([], sym (append-nil st.messages)), λ j. refl, λ j row here. absurd (cc here))
  sweep_turns-Settles (turn ∷ turns) st =
      let first = resolve_orphan dispatch tier_of turn st in
      let here = found-Settles turn st (find_trace turn st.traces) refl in
      rw (here.0) (
        Settles-both turn turns st first (sweep_turns dispatch tier_of turns first.store) here
          (sweep_turns-Settles turns first.store))

  -- When no tool raises, for every store and project and every turn whose row is running, of the
  -- project, and without an `assistant` row: the sweep ends without an exception, only adds rows
  -- to the transcript, leaves the row of the turn `interrupted` with no iterations, and leaves an
  -- `assistant` row of the turn.
  pub sweep_orphans_lem :
      (project : ℕ) (st : Store) (turn : ℕ) (row : TraceRow)
      → find_trace turn st.traces ≡ some row
      → is_orphan project st row ≡ true
      → ((sweep_orphans dispatch tier_of project st).raised ≡ false)
        × Extends st (sweep_orphans dispatch tier_of project st).store
        × (find_trace turn (sweep_orphans dispatch tier_of project st).store.traces
            ≡ some (closed row))
        × (has_assistant (sweep_orphans dispatch tier_of project st).store turn ≡ true)
  unfolding sweep_orphans
  sweep_orphans_lem project st turn row found orphan =
      let (quiet, ext, find, has) = sweep_turns-Settles (orphans project st) st in
      let chosen = orphans-has project st turn row found orphan in
      let run = orphan-runs project st row orphan in
      (quiet, ext, find turn ∙ rw (chosen, found, run) refl, has turn row chosen found run)

  -- When no tool raises, for every store and project: the row of a turn that the sweep does not
  -- select is as it was.
  pub sweep_orphans-others :
      (project : ℕ) (st : Store) (turn : ℕ)
      → any (λ k. k == turn) (orphans project st) ≡ false
      → find_trace turn (sweep_orphans dispatch tier_of project st).store.traces
        ≡ find_trace turn st.traces
  unfolding sweep_orphans
  sweep_orphans-others project st turn other =
      let (quiet, ext, find, has) = sweep_turns-Settles (orphans project st) st in
      find turn ∙ rw other refl
