-- ===== src/Llm/Calls.antt =====
-- `complete_structured` of backend/llm/__init__.py with its self-heal of rate limits, its repair of
-- schema violations and its retries. What the provider replies to its n-th call is an argument, and
-- so are the token counter, the schema's validation and the corrective message of a repair. The
-- waits between calls are those of backend/ratelimit.py and left out here.
use ai_powered_research_work.Prelude.{
  ℕ, zero, suc, ◌+◌, ◌-◌, ◌*◌, Bool, true, false, ◌||◌, Option, none, some, List, [], ◌∷◌, ◌++◌,
  Text, codes, starts_with, drop, ◌==◌, if◌then◌else◌,
}
use ai_powered_research_work.Prelude.Decimal.{is_digit}
use ai_powered_research_work.Provenance.Normalize.{is_space}
use ai_powered_research_work.Harness.Models.{Message}
use ai_powered_research_work.Writing.References.{contains}
use ai_powered_research_work.Llm.Models.{ApiKeys, Resolved}
use ai_powered_research_work.Llm.Resolve.{persist_learned_budget}
use ai_powered_research_work.Llm.Budget.{fit_to_budget}

-- What a call comes to: the content of a response, or an exception with its message. `transient`
-- are the other retryable exceptions, `broken` all that is neither retried nor repaired.
pub data Reply : Type 0 where
  content : Text → Reply
  rate_limited : Text → Reply
  transient : Text → Reply
  bad_request : Text → Reply
  broken : Reply

-- The calls made so far and the stored settings.
pub record Gateway : Type 0 where
  pub calls : ℕ
  pub row : Option ApiKeys

-- The digits at the start of a text as a number; `acc` is what is read so far.
unfoldable pub number_from : Option ℕ → Text → Option ℕ
number_from acc [] = acc
number_from none (c ∷ t) = if is_digit c then number_from (some (c - 48)) t else none
number_from (some n) (c ∷ t) =
    if is_digit c then number_from (some (n * 10 + (c - 48))) t else some n

-- `[:\s]+(\d+)`, `seen` when a separator was met.
unfoldable pub after_separators : Bool → Text → Option ℕ
unfolding number_from
after_separators seen [] = none
after_separators seen (c ∷ t) =
    if c == 58 || is_space c
    then after_separators true t
    else if seen
    then number_from none (c ∷ t)
    else none

-- `_RATE_LIMIT_CEILING_PATTERN` at the start of a text.
unfoldable pub ceiling_at : Text → Option ℕ
unfolding after_separators
ceiling_at t =
    if starts_with (codes "Limit") t || starts_with (codes "limit") t
    then after_separators false (drop 5 t)
    else none

abbrev first_ceiling : Option ℕ → Option ℕ → Option ℕ
first_ceiling (some n) later = some n
first_ceiling none later = later

-- `_parse_rate_limit_ceiling`
unfoldable pub parse_rate_limit_ceiling : Text → Option ℕ
unfolding ceiling_at
parse_rate_limit_ceiling [] = none
parse_rate_limit_ceiling (c ∷ t) = first_ceiling (ceiling_at (c ∷ t)) (parse_rate_limit_ceiling t)

-- `_is_schema_violation`
unfoldable pub is_schema_violation : Text → Bool
unfolding contains
is_schema_violation message =
    contains (codes "tool_use_failed") message
    || contains (codes "tool call validation failed") message
    || contains (codes "did not match schema") message

module _ (provider : ℕ → List Message → Reply) (count : List Message → ℕ) where
  -- `make_call`
  abbrev pub make_call : List Message → Gateway → Reply × Gateway
  make_call messages g = (provider g.calls messages, record g { calls = suc g.calls })

  -- The messages fitted to a budget, then the call; without messages `max` raises.
  abbrev pub call_fitted : Option (List Message) → Gateway → Reply × Gateway
  call_fitted none g = (broken, g)
  call_fitted (some fitted) g = make_call fitted g

  abbrev pub learn : Option Text → Option Text → ℕ → Gateway → Option Gateway
  learn (some p) (some key) budget g =
      some (record g { row = some (persist_learned_budget p key budget g.row) })
  learn none key budget g = none
  learn (some p) none budget g = none

  abbrev pub call_learned :
      List Message → Option ℕ → Text → ℕ → Gateway → Option Gateway → Reply × Gateway
  call_learned messages max_tokens message learned g none = (rate_limited message, g)
  call_learned messages max_tokens message learned g (some g') =
      call_fitted (fit_to_budget count messages (some learned) max_tokens) g'

  abbrev pub heal : Resolved → List Message → Option ℕ → Text → Option ℕ → Gateway → Reply × Gateway
  heal r messages max_tokens message none g = (rate_limited message, g)
  heal r messages max_tokens message (some learned) g =
      call_learned messages max_tokens message learned g (learn r.provider r.model_key learned g)

  abbrev pub after_first : Resolved → List Message → Option ℕ → Reply × Gateway → Reply × Gateway
  after_first r messages max_tokens (rate_limited message, g) =
      heal r messages max_tokens message (parse_rate_limit_ceiling message) g
  after_first r messages max_tokens (content t, g) = (content t, g)
  after_first r messages max_tokens (transient message, g) = (transient message, g)
  after_first r messages max_tokens (bad_request message, g) = (bad_request message, g)
  after_first r messages max_tokens (broken, g) = (broken, g)

  -- `_call_with_rate_limit_self_heal`
  unfoldable pub call_with_rate_limit_self_heal :
      Resolved → List Message → Option ℕ → Gateway → Reply × Gateway
  unfolding fit_to_budget persist_learned_budget parse_rate_limit_ceiling
  call_with_rate_limit_self_heal r messages max_tokens g =
      after_first r messages max_tokens
        (call_fitted (fit_to_budget count messages r.budget max_tokens) g)

abbrev pub or_again : (Gateway → Reply × Gateway) → Reply × Gateway → Reply × Gateway
or_again again (rate_limited message, g) = again g
or_again again (transient message, g) = again g
or_again again (content t, g) = (content t, g)
or_again again (bad_request message, g) = (bad_request message, g)
or_again again (broken, g) = (broken, g)

-- `call_with_retry` with `_LLM_RETRYABLE_EXCEPTIONS`, on the state of the gateway.
unfoldable pub retry : (Gateway → Reply × Gateway) → ℕ → Gateway → Reply × Gateway
retry attempt zero g = attempt g
retry attempt (suc left) g = or_again (λ g'. retry attempt left g') (attempt g)

-- How a structured completion ends.
pub data Structured : Type 0 where
  value : Text → Structured
  raised : Reply → Structured
  repair_failed : Structured

module _ (provider : ℕ → List Message → Reply) (count : List Message → ℕ) (validates : Text → Bool)
    (correction : Text → Message) where
  abbrev pub repaired : Reply × Gateway → Structured × Gateway
  repaired (content t, g) = (if validates t then value t else repair_failed, g)
  repaired (rate_limited message, g) = (raised (rate_limited message), g)
  repaired (transient message, g) = (raised (transient message), g)
  repaired (bad_request message, g) = (raised (bad_request message), g)
  repaired (broken, g) = (raised broken, g)

  -- `_repair_schema_violation`
  unfoldable pub repair_schema_violation :
      Resolved → List Message → Text → Gateway → Structured × Gateway
  unfolding fit_to_budget retry
  repair_schema_violation r messages malformed g =
      let fitted = fit_to_budget count (messages ++ correction malformed ∷ []) r.budget none in
      repaired (retry (call_fitted provider count fitted) 3 g)

  abbrev pub settle : Resolved → List Message → Reply × Gateway → Structured × Gateway
  settle r messages (content t, g) =
      if validates t then (value t, g) else repair_schema_violation r messages t g
  settle r messages (bad_request message, g) =
      if is_schema_violation message
      then repair_schema_violation r messages message g
      else (raised (bad_request message), g)
  settle r messages (rate_limited message, g) = (raised (rate_limited message), g)
  settle r messages (transient message, g) = (raised (transient message), g)
  settle r messages (broken, g) = (raised broken, g)

  -- `complete_structured`, its tier being resolved.
  unfoldable pub complete_structured : Resolved → List Message → Gateway → Structured × Gateway
  unfolding call_with_rate_limit_self_heal retry repair_schema_violation is_schema_violation
  complete_structured r messages g =
      settle r messages (retry (call_with_rate_limit_self_heal provider count r messages none) 4 g)
