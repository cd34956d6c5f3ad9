-- ===== src/Harness/Turn/Calm.antt =====
-- Iterations of `run_turn` of backend/harness/loop.py in which nothing raises unforeseen exceptions.
use ai_powered_research_work.Prelude.{
  ℕ, ◌≡◌, refl, Bool, true, false, Option, none, some, List, [], ◌∷◌, ◌++◌, Text, All,
}
use ai_powered_research_work.Streaming.Pieces.{Sound}
use ai_powered_research_work.Harness.Resume.{Tier, MessageRow, Store}
use ai_powered_research_work.Harness.ToolCalls.{
  Approval, approved, denied, timed_out, Task, pending, returned, raised, Call, End, exception, Ran,
  outcome_of, after_outcome, after_task, dispatch_tool_bounded, run_calls,
}
use ai_powered_research_work.Harness.ToolCalls.Pairs.{Paired, no_more, pair}
use ai_powered_research_work.Harness.Turn.{Completion, broken, Round}

abbrev pub is_calm : Task → Bool
is_calm raised = false
is_calm _ = true

abbrev pub is_exception : End → Bool
is_exception exception = true
is_exception _ = false

abbrev pub is_quiet : Completion → Bool
is_quiet broken = false
is_quiet _ = true

-- An iteration in which the validators are sound and nothing raises an unforeseen exception.
pub record Fair {C : Type 0} (Accepts : Text → C → Type 0) (r : Round C) : Type 0 where
  pub sound : All (λ d. Sound Accepts d.0) r.deltas
  pub quiet : is_quiet r.completion ≡ true
  pub calm : All (λ call. is_calm (Call.task call) ≡ true) r.calls

pub Paired-append :
    (conversation turn : ℕ) {xs ys : List MessageRow}
    → Paired conversation turn xs
    → Paired conversation turn ys
    → Paired conversation turn (xs ++ ys)
Paired-append conversation turn no_more q = q
Paired-append conversation turn (pair a b c d p) q =
    pair a b c d (Paired-append conversation turn p q)

module _ (tier_of : Text → Option Tier) (conversation turn : ℕ) where
  task-calm :
      (call : Call) (task : Task) (cancelled : Bool) (st : Store) (rest : Store → Ran)
      → is_calm task ≡ true
      → ((s : Store) → is_exception (rest s).ending ≡ false)
      → is_exception
          (after_task tier_of conversation turn call
            (dispatch_tool_bounded task cancelled)
            st
            rest).ending
        ≡ false
  unfolding dispatch_tool_bounded
  task-calm call (returned r) cancelled st rest c k = k _
  task-calm call pending true st rest c k = refl
  task-calm call pending false st rest c k = refl
  task-calm call raised cancelled st rest c k = cc c

  outcome-calm :
      (call : Call) (o : Option Approval) (st : Store) (rest : Store → Ran)
      → is_calm call.task ≡ true
      → ((s : Store) → is_exception (rest s).ending ≡ false)
      → is_exception (after_outcome tier_of conversation turn call o st rest).ending ≡ false
  outcome-calm call none st rest c k = refl
  outcome-calm call (some approved) st rest c k =
      task-calm call call.task call.cancelled st rest c k
  outcome-calm call (some denied) st rest c k = k _
  outcome-calm call (some timed_out) st rest c k = k _

  pub run_calls-calm :
      (calls : List Call) (st : Store)
      → All (λ call. is_calm (Call.task call) ≡ true) calls
      → is_exception (run_calls tier_of conversation turn calls st).ending ≡ false
  unfolding run_calls
  run_calls-calm [] st c = refl
  run_calls-calm (call ∷ calls) st c =
      outcome-calm call (outcome_of tier_of conversation turn call) st
        (run_calls tier_of conversation turn calls) c.0 (λ s. run_calls-calm calls s c.1)
