-- ===== src/Harness/Resume/Sweep.antt =====
-- What the sweep of backend/harness/resume.py does to each turn, and what it runs again.
use ai_powered_research_work.Prelude.{
  ℕ, ◌≡◌, refl, inl, inr, Option, none, some, List, [], ◌∷◌, ◌++◌, Text, All, Bool-cases,
  Option-cases,
}
use ai_powered_research_work.Harness.Resume.{
  Tier, MessageRow, TraceRow, Store, ToolResult, Swept, is_running, resolution_for, find_trace,
  close_turn, name_of, after_dispatch, act, spec_of, resolve_trace, resolve_found, resolve_orphan,
  sweep_turns, orphans, sweep_orphans,
}

All-append : (P : Text → Type 0) (l m : List Text) → All P l → All P m → All P (l ++ m)
All-append P [] m a b = b
All-append P (t ∷ l) m a b = (a.0, All-append P l m a.1 b)

module _ (dispatch : Text → Text → Option ToolResult) (tier_of : Text → Option Tier) where
  -- Every tool that a run of the sweep has called is of the tier `auto`.
  AutoOnly : Swept → Type 0
  AutoOnly r = All (λ name. tier_of name ≡ some Tier.auto) r.dispatched

  after-AutoOnly :
      (trace : TraceRow) (call : MessageRow) (o : Option ToolResult) (st : Store)
      → tier_of (name_of call) ≡ some Tier.auto
      → AutoOnly (after_dispatch dispatch tier_of trace call o st)
  unfolding close_turn AutoOnly
  after-AutoOnly trace call none st h = (h, tt)
  after-AutoOnly trace call (some result) st h = (h, tt)

  by-AutoOnly :
      (trace : TraceRow) (call : MessageRow) (st : Store) (tier : Option Tier)
      → (tier ≡ some Tier.auto → tier_of (name_of call) ≡ some Tier.auto)
      → AutoOnly
          (act dispatch tier_of (resolution_for (some call) none tier) trace (some call) none st)
  unfolding resolution_for close_turn AutoOnly
  by-AutoOnly trace call st none h = tt
  by-AutoOnly trace call st (some Tier.confirm) h = tt
  by-AutoOnly trace call st (some Tier.auto) h =
      after-AutoOnly trace call (dispatch (name_of call) call.content) st (h refl)

  spec-auto :
      (call : MessageRow)
      → spec_of dispatch tier_of (some call) ≡ some Tier.auto
      → tier_of (name_of call) ≡ some Tier.auto
  spec-auto call h = elim (Option-cases call.tool_name) [
    | inl e ↦ absurd (cc (h, e))
    | inr (name, e) ↦ cc (h, e)
  ]

  act-AutoOnly :
      (trace : TraceRow) (call result : Option MessageRow) (st : Store)
      → AutoOnly (
          act dispatch tier_of
            (resolution_for call result (spec_of dispatch tier_of call))
            trace
            call
            result
            st)
  unfolding resolution_for close_turn AutoOnly
  act-AutoOnly trace none result st = tt
  act-AutoOnly trace (some call) (some result) st = tt
  act-AutoOnly trace (some call) none st =
      by-AutoOnly trace call st (spec_of dispatch tier_of (some call)) (spec-auto call)

  resolve-AutoOnly :
      (o : Option TraceRow) (st : Store) → AutoOnly (resolve_found dispatch tier_of o st)
  unfolding resolve_trace AutoOnly
  resolve-AutoOnly none st = tt
  resolve-AutoOnly (some trace) st = elim (Bool-cases (is_running trace.status)) [
    | inr e ↦ rw e tt
    | inl e ↦ rw e (act-AutoOnly trace _ _ st)
  ]

  sweep_turns-AutoOnly :
      (turns : List ℕ) (st : Store) → AutoOnly (sweep_turns dispatch tier_of turns st)
  unfolding sweep_turns resolve_orphan AutoOnly
  sweep_turns-AutoOnly [] st = tt
  sweep_turns-AutoOnly (turn ∷ turns) st =
      let first = resolve_orphan dispatch tier_of turn st in
      let one = resolve-AutoOnly (find_trace turn st.traces) st in
      elim (Bool-cases first.raised) [
        | inl e ↦ rw e one
        | inr e ↦
            rw e (All-append _ first.dispatched _ one (sweep_turns-AutoOnly turns first.store))
      ]

  -- For every store and project, whatever the tools do: a tool that the sweep of the project
  -- calls is one whose tier is `auto`; a tool of the tier `confirm`, or one that is not
  -- registered, is never called.
  pub sweep_orphans-AutoOnly :
      (project : ℕ) (st : Store)
      → All
          (λ name. tier_of name ≡ some Tier.auto)
          (sweep_orphans dispatch tier_of project st).dispatched
  unfolding sweep_orphans AutoOnly
  sweep_orphans-AutoOnly project st = sweep_turns-AutoOnly (orphans project st) st
