-- ===== src/Examples/Gateways.antt =====
-- Runs of the model gateway on concrete settings and replies.
use ai_powered_research_work.Prelude.{
  ℕ, ◌+◌, ◌≤◌, ◌≡◌, refl, Bool, true, none, some, List, [], ◌∷◌, Text, codes, is_empty, not, length,
  ltb, if◌then◌else◌,
}
use ai_powered_research_work.Prelude.Dict.{get}
use ai_powered_research_work.Provenance.Normalize.{is_space}
use ai_powered_research_work.Harness.Models.{user, Message}
use ai_powered_research_work.Llm.Models.{primary, auxiliary, ApiKeys, ProviderCredentials, Resolved}
use ai_powered_research_work.Llm.Resolve.{
  provider_prefixes, resolved, resolve_tier, persist_learned_budget, save_provider,
}
use ai_powered_research_work.Llm.Saved.{
  request_of, resolve_tier-persist, resolve_tier-save_provider,
}
use ai_powered_research_work.Llm.Budget.{fit_to_budget}
use ai_powered_research_work.Llm.Fits.{IsFitted, fit_to_budget_lem}
use ai_powered_research_work.Llm.Calls.{
  Reply, content, rate_limited, transient, Gateway, complete_structured,
}
use ai_powered_research_work.Llm.Bounded.{IsValid, complete_structured_lem}

abbrev encrypt : Text → Text × Text
encrypt t = (t, codes "n")

abbrev decrypt : Text → Text → Text
decrypt ciphertext nonce = ciphertext

abbrev credentials : ProviderCredentials
credentials = record {
  model = codes "m";
  tier = primary;
  api_key = some (codes "k");
  base_url = none;
  model_budgets = [];
}

abbrev row : ApiKeys
row = record {
  providers =
      (
        codes "groq",
        record { secret = some (codes "k", codes "n"); base_url = none; model_budgets = [] },
      )
      ∷ [];
  primary_model = some (codes "groq/m");
  auxiliary_model = none;
}

abbrev request : Resolved
request = record {
  model = codes "groq/m";
  api_key = some (codes "k");
  base_url = none;
  budget = none;
  provider = some (codes "groq");
  model_key = some (codes "groq/m");
}

saved_test : save_provider encrypt (λ o. true) (codes "groq") credentials none ≡ some row
unfolding save_provider
saved_test = refl

row_resolves : resolve_tier decrypt auxiliary (some row) ≡ resolved request
unfolding resolve_tier
row_resolves = refl

prefix_found : get (codes "groq") provider_prefixes ≡ some (codes "groq")
unfolding get
prefix_found = refl

resolve_tier-save_provider_example :
    resolve_tier decrypt primary (some row)
    ≡ resolved (request_of (codes "groq") (codes "groq") credentials)
resolve_tier-save_provider_example =
    resolve_tier-save_provider encrypt decrypt (λ o. true) (codes "groq") (codes "groq") credentials
      none (λ t. refl) (refl, (refl, (refl, (refl, tt)))) prefix_found saved_test

resolve_tier-persist_example :
    resolve_tier decrypt auxiliary
      (some (persist_learned_budget (codes "groq") (codes "groq/m") 6000 (some row)))
    ≡ resolved (record request { budget = some 6000 })
resolve_tier-persist_example =
    resolve_tier-persist decrypt auxiliary row request (codes "groq") (codes "groq/m") 6000
      row_resolves refl refl refl

abbrev said : Text → Message
said t = record { role = user; content = t; tool_calls = []; tool_call_id = none }

abbrev count : List Message → ℕ
count [] = 0
count (m ∷ messages) = length m.content + count messages

fit_test :
    fit_to_budget count (said (codes "abcdef") ∷ said (codes "gh") ∷ []) (some 5) (some 1)
    ≡ some (said (codes "ab") ∷ said (codes "gh") ∷ [])
unfolding fit_to_budget
fit_test = refl

fit_to_budget_example :
    (fitted : List Message) × (fit_to_budget count
        (said (codes "abcdef") ∷ said (codes "gh") ∷ [])
        (some 5)
        (some 1)
      ≡ some fitted)
    × IsFitted count 5 (some 1) (said (codes "abcdef") ∷ said (codes "gh") ∷ []) fitted
fit_to_budget_example =
    fit_to_budget_lem count (said (codes "abcdef")) (said (codes "gh") ∷ []) 5 (some 1)

-- Rate limits with a ceiling, then a content that does not validate, then failures.
abbrev busy : ℕ → List Message → Reply
busy n messages =
    if ltb n 9
    then rate_limited (codes "Limit: 6")
    else if ltb n 10
    then content []
    else transient []

abbrev fresh_gateway : Gateway
fresh_gateway = record { calls = 0; row = some row }

abbrev validates : Text → Bool
validates t = not (is_empty t)

most_calls_test :
    (complete_structured busy count validates said request
      (said (codes "abc") ∷ [])
      fresh_gateway).1.calls
    ≡ 14
unfolding complete_structured is_space
most_calls_test = refl

complete_structured_example :
    ((complete_structured busy count validates said request
        (said (codes "abc") ∷ [])
        fresh_gateway).1.calls
      ≤ fresh_gateway.calls + 14)
    × IsValid validates
        (complete_structured busy count validates said request
          (said (codes "abc") ∷ [])
          fresh_gateway).0
complete_structured_example =
    complete_structured_lem busy count validates said request (said (codes "abc") ∷ [])
      fresh_gateway
