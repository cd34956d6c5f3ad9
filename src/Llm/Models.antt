-- ===== src/Llm/Models.antt =====
-- What backend/llm/__init__.py and backend/settings keep and pass around: the row `api_keys` of
-- backend/db/models.py, `ProviderOverride`, `ProviderCredentials` and `_Resolved`.
use ai_powered_research_work.Prelude.{ℕ, Option, Text}
use ai_powered_research_work.Prelude.Dict.{Dict}

pub data Tier : Type 0 where
  primary auxiliary : Tier

-- An entry of `providers`, the key as its ciphertext with the nonce.
pub record ProviderEntry : Type 0 where
  pub secret : Option (Text × Text)
  pub base_url : Option Text
  pub model_budgets : Dict ℕ

pub record ApiKeys : Type 0 where
  pub providers : Dict ProviderEntry
  pub primary_model : Option Text
  pub auxiliary_model : Option Text

pub record ProviderOverride : Type 0 where
  pub provider : Text
  pub model : Text
  pub api_key : Option Text
  pub base_url : Option Text

pub record ProviderCredentials : Type 0 where
  pub model : Text
  pub tier : Tier
  pub api_key : Option Text
  pub base_url : Option Text
  pub model_budgets : Dict ℕ

pub record Resolved : Type 0 where
  pub model : Text
  pub api_key : Option Text
  pub base_url : Option Text
  pub budget : Option ℕ
  pub provider : Option Text
  pub model_key : Option Text
