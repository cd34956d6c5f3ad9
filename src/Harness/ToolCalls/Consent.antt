-- ===== src/Harness/ToolCalls/Consent.antt =====
-- The consent gate of `run_turn` (backend/harness/loop.py).
use ai_powered_research_work.Prelude.{
  ℕ, ◌≡◌, ◌≢◌, refl, ◌⊎◌, inl, inr, Bool, true, false, Option, none, some, List, [], ◌∷◌, Text, All,
}
use ai_powered_research_work.Harness.Resume.{Tier, Store}
use ai_powered_research_work.Harness.ToolCalls.{
  Approval, approved, denied, timed_out, await_approval, Dispatched, result, interrupted, timeout,
  failed, Call, Ran, dispatch_tool_bounded, asks, outcome_of, after_task, after_outcome, run_calls,
}

yes_of :
    (cancelled : Bool) (answer : Option Bool)
    → await_approval (record { cancelled = cancelled; answer = answer }) ≡ some approved
    → (answer ≡ some true) × (cancelled ≡ false)
unfolding await_approval
yes_of true answer h = absurd (cc h)
yes_of false none h = absurd (cc h)
yes_of false (some false) h = absurd (cc h)
yes_of false (some true) h = (refl, refl)

module _ (tier_of : Text → Option Tier) where
  -- A tool of the tier `confirm` has the human's yes, in a turn that was not cancelled.
  abbrev pub HasConsent : Call → Type 0
  HasConsent call =
      (tier_of call.tool_name ≢ some Tier.confirm)
      ⊎ ((call.woken.answer ≡ some true) × (call.woken.cancelled ≡ false))

module _ (tier_of : Text → Option Tier) (conversation turn : ℕ) where
  by_tier :
      (call : Call) (t : Option Tier)
      → tier_of call.tool_name ≡ t
      → asks tier_of conversation turn t call.woken ≡ some approved
      → HasConsent tier_of call
  by_tier call none e h = inl (λ bad. cc (e, bad))
  by_tier call (some Tier.auto) e h = inl (λ bad. cc (e, bad))
  by_tier call (some Tier.confirm) e h = inr (yes_of call.woken.cancelled call.woken.answer h)

  abbrev Asked : Ran → Type 0
  Asked r = All (HasConsent tier_of) r.dispatched

  task-Asked :
      (call : Call) (d : Dispatched) (st : Store) (rest : Store → Ran)
      → HasConsent tier_of call
      → ((s : Store) → Asked (rest s))
      → Asked (after_task tier_of conversation turn call d st rest)
  task-Asked call (result r) st rest c h = (c, h _)
  task-Asked call interrupted st rest c h = (c, tt)
  task-Asked call timeout st rest c h = (c, tt)
  task-Asked call failed st rest c h = (c, tt)

  outcome-Asked :
      (call : Call) (o : Option Approval) (st : Store) (rest : Store → Ran)
      → (o ≡ some approved → HasConsent tier_of call)
      → ((s : Store) → Asked (rest s))
      → Asked (after_outcome tier_of conversation turn call o st rest)
  outcome-Asked call none st rest c h = tt
  outcome-Asked call (some approved) st rest c h =
      task-Asked call (dispatch_tool_bounded call.task call.cancelled) st rest (c refl) h
  outcome-Asked call (some denied) st rest c h = h _
  outcome-Asked call (some timed_out) st rest c h = h _

  -- For every list of calls, whatever their waits find: each tool that is dispatched is not of the
  -- tier `confirm`, or its approval came with a yes before the turn was cancelled.
  pub run_calls-HasConsent :
      (calls : List Call) (st : Store)
      → All (HasConsent tier_of) (run_calls tier_of conversation turn calls st).dispatched
  unfolding run_calls
  run_calls-HasConsent [] st = tt
  run_calls-HasConsent (call ∷ calls) st =
      outcome-Asked call (outcome_of tier_of conversation turn call) st
        (run_calls tier_of conversation turn calls) (by_tier call (tier_of call.tool_name) refl)
        (run_calls-HasConsent calls)
