-- ===== src/Llm/Bounded.antt =====
-- How often `complete_structured` of backend/llm/__init__.py calls the provider, and what it
-- returns.
use ai_powered_research_work.Prelude.{
  ℕ, zero, suc, ◌+◌, ◌≤◌, ◌≡◌, sym, ap, inl, inr, Bool, true, Option, none, some, List, [], ◌∷◌,
  ◌++◌, arith, Text, Bool-cases, Option-cases,
}
use ai_powered_research_work.Harness.Models.{Message}
use ai_powered_research_work.Llm.Models.{Resolved}
use ai_powered_research_work.Llm.Budget.{fit_to_budget}
use ai_powered_research_work.Llm.Calls.{
  Reply, content, rate_limited, transient, bad_request, broken, Gateway, parse_rate_limit_ceiling,
  is_schema_violation, call_fitted, learn, heal, after_first, call_with_rate_limit_self_heal,
  or_again, retry, Structured, value, raised, repair_failed, repaired, repair_schema_violation,
  settle, complete_structured,
}

-- A result after at most `n` more calls than `g` counts.
abbrev Within {ℓ} : {A : Type ℓ} → ℕ → Gateway → A × Gateway → Type 0
Within n g r = r.1.calls ≤ g.calls + n

abbrev calls_or : ℕ → Option Gateway → ℕ
calls_or n none = n
calls_or n (some g) = g.calls

module _ (provider : ℕ → List Message → Reply) (count : List Message → ℕ) where
  call_fitted-Within :
      (fitted : Option (List Message)) (g : Gateway)
      → Within 1 g (call_fitted provider count fitted g)
  call_fitted-Within none g = omega arith
  call_fitted-Within (some fitted) g = omega arith

  learn-calls :
      (p key : Option Text) (budget : ℕ) (g : Gateway) {g' : Gateway}
      → learn provider count p key budget g ≡ some g'
      → g'.calls ≡ g.calls
  learn-calls (some p) (some key) budget g h = sym (ap (calls_or 0) h)
  learn-calls none key budget g h = absurd (ground arith)
  learn-calls (some p) none budget g h = absurd (ground arith)

  heal-Within :
      (r : Resolved) (messages : List Message) (max_tokens : Option ℕ) (message : Text)
      (learned : Option ℕ) (g : Gateway)
      → Within 1 g (heal provider count r messages max_tokens message learned g)
  heal-Within r messages max_tokens message none g = omega arith
  heal-Within r messages max_tokens message (some n) g =
      elim (Option-cases (learn provider count r.provider r.model_key n g)) [
        | inl e ↦ rw e (omega arith)
        | inr (g', e) ↦ rw e (
            omega (
              arith,
              call_fitted-Within (fit_to_budget count messages (some n) max_tokens) g',
              learn-calls r.provider r.model_key n g e,
            ))
      ]

  after_first-Within :
      (r : Resolved) (messages : List Message) (max_tokens : Option ℕ) (g : Gateway)
      (first : Reply × Gateway)
      → Within 1 g first
      → Within 2 g (after_first provider count r messages max_tokens first)
  after_first-Within r messages max_tokens g (rate_limited message, g') h =
      omega
        (arith, h, heal-Within r messages max_tokens message (parse_rate_limit_ceiling message) g')
  after_first-Within r messages max_tokens g (content t, g') h = omega (arith, h)
  after_first-Within r messages max_tokens g (transient message, g') h = omega (arith, h)
  after_first-Within r messages max_tokens g (bad_request message, g') h = omega (arith, h)
  after_first-Within r messages max_tokens g (broken, g') h = omega (arith, h)

  self_heal-Within :
      (r : Resolved) (messages : List Message) (max_tokens : Option ℕ) (g : Gateway)
      → Within 2 g (call_with_rate_limit_self_heal provider count r messages max_tokens g)
  unfolding call_with_rate_limit_self_heal
  self_heal-Within r messages max_tokens g =
      after_first-Within r messages max_tokens g
        (call_fitted provider count (fit_to_budget count messages r.budget max_tokens) g)
        (call_fitted-Within (fit_to_budget count messages r.budget max_tokens) g)

or_again-Within :
    (again : Gateway → Reply × Gateway) (m n : ℕ) (g : Gateway) (first : Reply × Gateway)
    → Within m g first
    → ((g' : Gateway) → Within n g' (again g'))
    → Within (m + n) g (or_again again first)
or_again-Within again m n g (rate_limited message, g') h k = omega (arith, h, k g')
or_again-Within again m n g (transient message, g') h k = omega (arith, h, k g')
or_again-Within again m n g (content t, g') h k = omega (arith, h)
or_again-Within again m n g (bad_request message, g') h k = omega (arith, h)
or_again-Within again m n g (broken, g') h k = omega (arith, h)

-- `m` for one attempt and for each of the retries.
abbrev all_attempts : ℕ → ℕ → ℕ
all_attempts m zero = m
all_attempts m (suc left) = m + all_attempts m left

retry-Within :
    (attempt : Gateway → Reply × Gateway) (m left : ℕ)
    → ((g : Gateway) → Within m g (attempt g))
    → (g : Gateway) → Within (all_attempts m left) g (retry attempt left g)
unfolding retry
retry-Within attempt m zero h g = h g
retry-Within attempt m (suc left) h g =
    or_again-Within (λ g'. retry attempt left g') m (all_attempts m left) g (attempt g) (h g)
      (retry-Within attempt m left h)

-- The text that a completion returns is one that validates.
abbrev pub IsValid : (Text → Bool) → Structured → Type 0
IsValid validates (value t) = validates t ≡ true
IsValid validates (raised reply) = Unit
IsValid validates repair_failed = Unit

module _ (provider : ℕ → List Message → Reply) (count : List Message → ℕ) (validates : Text → Bool)
    (correction : Text → Message) where
  repaired-lem :
      (n : ℕ) (g : Gateway) (r : Reply × Gateway)
      → Within n g r
      → Within n g (repaired provider count validates correction r)
        × IsValid validates (repaired provider count validates correction r).0
  repaired-lem n g (content t, g') h = elim (Bool-cases (validates t)) [
    | inl e ↦ rw e (h, e)
    | inr e ↦ rw e (h, tt)
  ]
  repaired-lem n g (rate_limited message, g') h = (h, tt)
  repaired-lem n g (transient message, g') h = (h, tt)
  repaired-lem n g (bad_request message, g') h = (h, tt)
  repaired-lem n g (broken, g') h = (h, tt)

  repair-lem :
      (r : Resolved) (messages : List Message) (malformed : Text) (g : Gateway)
      → Within 4 g
          (repair_schema_violation provider count validates correction r messages malformed g)
        × IsValid validates
            (repair_schema_violation provider count validates correction r messages malformed g).0
  unfolding repair_schema_violation
  repair-lem r messages malformed g =
      let fitted = fit_to_budget count (messages ++ correction malformed ∷ []) r.budget none in
      repaired-lem 4 g (retry (call_fitted provider count fitted) 3 g) (
        retry-Within (call_fitted provider count fitted) 1 3
          (call_fitted-Within provider count fitted) g)

  settle-lem :
      (r : Resolved) (messages : List Message) (g : Gateway) (reply : Reply × Gateway)
      → Within 10 g reply
      → Within 14 g (settle provider count validates correction r messages reply)
        × IsValid validates (settle provider count validates correction r messages reply).0
  settle-lem r messages g (content t, g') h = elim (Bool-cases (validates t)) [
    | inl e ↦ rw e (omega (arith, h), e)
    | inr e ↦
        let (calls, valid) = repair-lem r messages t g' in rw e (omega (arith, h, calls), valid)
  ]
  settle-lem r messages g (bad_request message, g') h =
      elim (Bool-cases (is_schema_violation message)) [
        | inl e ↦
            let (calls, valid) = repair-lem r messages message g' in
            rw e (omega (arith, h, calls), valid)
        | inr e ↦ rw e (omega (arith, h), tt)
      ]
  settle-lem r messages g (rate_limited message, g') h = (omega (arith, h), tt)
  settle-lem r messages g (transient message, g') h = (omega (arith, h), tt)
  settle-lem r messages g (broken, g') h = (omega (arith, h), tt)

  -- Whatever the provider replies, a structured completion ends after at most 14 calls of it, and
  -- a text that it returns is one that validates against the schema.
  pub complete_structured_lem :
      (r : Resolved) (messages : List Message) (g : Gateway)
      → ((complete_structured provider count validates correction r messages g).1.calls
          ≤ g.calls + 14)
        × IsValid validates (complete_structured provider count validates correction r messages g).0
  unfolding complete_structured
  complete_structured_lem r messages g =
      settle-lem r messages g
        (retry (call_with_rate_limit_self_heal provider count r messages none) 4 g)
        (retry-Within (call_with_rate_limit_self_heal provider count r messages none) 2 4
          (self_heal-Within provider count r messages none) g)
