-- ===== src/Llm/Resolve.antt =====
-- How a tier becomes a request, of backend/llm/__init__.py, and what backend/settings/__init__.py
-- saves. `encrypt` and `decrypt` of backend/settings/crypto.py call a cryptography package and are
-- arguments, and so is whether the test call of `save_provider` succeeds.
use ai_powered_research_work.Prelude.{
  ℕ, Bool, false, not, ◌&&◌, Option, none, some, List, [], ◌∷◌, ◌++◌, Text, codes, is_empty,
  starts_with, drop, length, ◌==◌, if◌then◌else◌,
}
use ai_powered_research_work.Prelude.Dict.{Dict, get, put}
use ai_powered_research_work.Prelude.Fresh.{mem_text}
use ai_powered_research_work.Llm.Models.{
  Tier, primary, auxiliary, ProviderEntry, ApiKeys, ProviderOverride, ProviderCredentials, Resolved,
}

-- `PROVIDER_PREFIX`
abbrev pub provider_prefixes : Dict Text
provider_prefixes =
    (codes "google", codes "gemini")
    ∷ (codes "groq", codes "groq")
    ∷ (codes "openai", codes "openai")
    ∷ (codes "anthropic", codes "anthropic")
    ∷ (codes "mistral", codes "mistral")
    ∷ (codes "openrouter", codes "openrouter")
    ∷ (codes "deepseek", codes "deepseek")
    ∷ (codes "custom", codes "openai")
    ∷ (codes "ollama", codes "ollama")
    ∷ (codes "vllm", codes "hosted_vllm")
    ∷ []

-- The RuntimeErrors of `_resolve_tier`, and the KeyError of a provider without a prefix.
pub data ResolveError : Type 0 where
  no_primary_model : ResolveError
  no_credentials : Text → ResolveError
  unknown_provider : Text → ResolveError

pub data Resolution : Type 0 where
  resolved : Resolved → Resolution
  failed : ResolveError → Resolution

-- `partition("/")`: what stands before the first slash, and what behind it.
unfoldable pub before_slash : Text → Text
before_slash [] = []
before_slash (c ∷ t) = if c == 47 then [] else c ∷ before_slash t

unfoldable pub after_slash : Text → Text
after_slash [] = []
after_slash (c ∷ t) = if c == 47 then t else after_slash t

-- `a or b` of two optional texts.
abbrev pub filled_or : Option Text → Option Text → Option Text
filled_or none other = other
filled_or (some []) other = other
filled_or (some (c ∷ t)) other = some (c ∷ t)

-- The model string of a tier, `none` when it is missing or empty.
unfoldable pub model_string : Tier → Option ApiKeys → Option Text
model_string tier none = none
model_string primary (some row) = filled_or row.primary_model none
model_string auxiliary (some row) = filled_or row.auxiliary_model (filled_or row.primary_model none)

abbrev pub decrypted : (Text → Text → Text) → Option (Text × Text) → Option Text
decrypted decrypt none = none
decrypted decrypt (some s) = some (decrypt s.0 s.1)

-- `f"{PROVIDER_PREFIX[provider]}/{model}"`
abbrev pub wire_model : Option Text → Text → Option Text
wire_model none model = none
wire_model (some prefix) model = some (prefix ++ codes "/" ++ model)

abbrev pub resolved_with :
    (Text → Text → Text) → Text → Text → ProviderEntry → Option Text → Resolution
resolved_with decrypt provider key entry none = failed (unknown_provider provider)
resolved_with decrypt provider key entry (some model) = resolved (record {
  model = model;
  api_key = decrypted decrypt entry.secret;
  base_url = entry.base_url;
  budget = get key entry.model_budgets;
  provider = some provider;
  model_key = some key;
})

abbrev pub resolved_entry : (Text → Text → Text) → Text → Text → Option ProviderEntry → Resolution
resolved_entry decrypt provider key none = failed (no_credentials provider)
resolved_entry decrypt provider key (some entry) =
    resolved_with decrypt provider key entry
      (wire_model (get provider provider_prefixes) (after_slash key))

abbrev pub providers_of : Option ApiKeys → Dict ProviderEntry
providers_of none = []
providers_of (some row) = row.providers

abbrev pub resolve_string : (Text → Text → Text) → Dict ProviderEntry → Option Text → Resolution
resolve_string decrypt providers none = failed no_primary_model
resolve_string decrypt providers (some key) =
    resolved_entry decrypt (before_slash key) key (get (before_slash key) providers)

-- `_resolve_tier`. Without a model of the tier there is none of the primary one, so both reasons
-- of the RuntimeError are the same.
unfoldable pub resolve_tier : (Text → Text → Text) → Tier → Option ApiKeys → Resolution
unfolding model_string before_slash after_slash get
resolve_tier decrypt tier row = resolve_string decrypt (providers_of row) (model_string tier row)

abbrev override_with : ProviderOverride → Option Text → Resolution
override_with override none = failed (unknown_provider override.provider)
override_with override (some model) = resolved (record {
  model = model;
  api_key = override.api_key;
  base_url = override.base_url;
  budget = none;
  provider = none;
  model_key = none;
})

-- `_resolve`
unfoldable pub resolve :
    (Text → Text → Text) → Tier → Option ProviderOverride → Option ApiKeys → Resolution
unfolding resolve_tier
resolve decrypt tier none row = resolve_tier decrypt tier row
resolve decrypt tier (some override) row =
    override_with override (wire_model (get override.provider provider_prefixes) override.model)

abbrev pub get_or_create_row : Option ApiKeys → ApiKeys
get_or_create_row none = record { providers = []; primary_model = none; auxiliary_model = none }
get_or_create_row (some row) = row

abbrev pub entry_or_new : Option ProviderEntry → ProviderEntry
entry_or_new none = record { secret = none; base_url = none; model_budgets = [] }
entry_or_new (some entry) = entry

-- `save_model_budget`
unfoldable pub save_model_budget : Text → Text → ℕ → Option ApiKeys → ApiKeys
unfolding get put
save_model_budget provider model budget keys =
    let row = get_or_create_row keys in
    let entry = entry_or_new (get provider row.providers) in
    let key = provider ++ codes "/" ++ model in
    record row {
      providers =
          put provider (record entry { model_budgets = put key budget entry.model_budgets })
            row.providers;
    }

-- `text.removeprefix(prefix)`
abbrev pub remove_prefix : Text → Text → Text
remove_prefix prefix t = if starts_with prefix t then drop (length prefix) t else t

-- `_persist_learned_budget`
unfoldable pub persist_learned_budget : Text → Text → ℕ → Option ApiKeys → ApiKeys
unfolding save_model_budget
persist_learned_budget provider model_key budget keys =
    save_model_budget provider (remove_prefix (provider ++ codes "/") model_key) budget keys

abbrev pub local_providers : List Text
local_providers = codes "ollama" ∷ codes "vllm" ∷ []

abbrev pub is_filled : Option Text → Bool
is_filled none = false
is_filled (some t) = not (is_empty t)

abbrev pub only_filled : Option Text → Option Text
only_filled t = filled_or t none

abbrev pub encrypted : (Text → Text × Text) → Option Text → Option (Text × Text)
encrypted encrypt none = none
encrypted encrypt (some key) = some (encrypt key)

abbrev pub with_model : Tier → Text → ApiKeys → ApiKeys
with_model primary model row = record row { primary_model = some model }
with_model auxiliary model row = record row { auxiliary_model = some model }

-- `save_provider`: `none` is the ValueError. `valid` says whether the test call of the override
-- came back.
unfoldable pub save_provider :
    (Text → Text × Text)
    → (ProviderOverride → Bool)
    → Text
    → ProviderCredentials
    → Option ApiKeys
    → Option ApiKeys
unfolding put
save_provider encrypt valid provider credentials keys =
    let row = get_or_create_row keys in
    let key = provider ++ codes "/" ++ credentials.model in
    let override : ProviderOverride = record {
      provider = provider;
      model = credentials.model;
      api_key = credentials.api_key;
      base_url = credentials.base_url;
    } in
    let entry : ProviderEntry = record {
      secret = encrypted encrypt (only_filled credentials.api_key);
      base_url = only_filled credentials.base_url;
      model_budgets = credentials.model_budgets;
    } in
    let saved =
      with_model credentials.tier key
        (record row { providers = put provider entry row.providers }) in
    if not (mem_text provider local_providers) && not (is_filled credentials.api_key)
    then none
    else if mem_text provider local_providers && not (is_filled credentials.base_url)
    then none
    else if valid override
    then some saved
    else none
