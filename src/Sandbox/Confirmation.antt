-- ===== src/Sandbox/Confirmation.antt =====
-- `RunSpec`, `build_run_spec`, `mint_confirmation` and `_consume_token` of
-- backend/sandbox/__init__.py. Times are seconds; a token is a number, drawn by `secrets`; the
-- digest of a spec is the argument `hash_spec`.
use ai_powered_research_work.Prelude.{
  ℕ, ◌+◌, Bool, true, false, not, Option, none, some, List, [], ◌∷◌, ◌++◌, Text, codes, text_eq,
  ltb, ◌==◌, if◌then◌else◌,
}
use ai_powered_research_work.Prelude.Assoc.{Assoc, lookup, insert}
use ai_powered_research_work.Experiments.Models.{Experiment}

pub data Access : Type 0 where
  read_write read_only : Access

pub data Network : Type 0 where
  bridge isolated : Network

pub record MountSpec : Type 0 where
  pub host_path : Text
  pub container_path : Text
  pub mode : Access

pub record RunSpec : Type 0 where
  pub image : Text
  pub mounts : List MountSpec
  pub network : Network
  pub cpu_limit : ℕ
  pub memory_limit_mb : ℕ
  pub idle_timeout_seconds : ℕ
  pub cell_timeout_seconds : ℕ
  pub gpu : Bool

abbrev pub token_ttl_seconds : ℕ
token_ttl_seconds = 300

unfoldable pub build_run_spec : Experiment → Text → RunSpec
build_run_spec experiment project_slug = record {
  image = codes "research-os-experiment-base:latest";
  mounts =
      record {
        host_path =
            codes "projects/" ++ (project_slug ++ (codes "/experiments/" ++ experiment.slug));
        container_path = codes "/workspace";
        mode = read_write;
      }
      ∷ record {
        host_path = codes "library";
        container_path = codes "/workspace/library";
        mode = read_only;
      }
      ∷ [];
  network = if experiment.network_optin then bridge else isolated;
  cpu_limit = 2;
  memory_limit_mb = 4096;
  idle_timeout_seconds = 600;
  cell_timeout_seconds = 120;
  gpu = experiment.gpu_optin;
}

pub record StoredToken : Type 0 where
  pub experiment_id : ℕ
  pub spec_hash : Text
  pub expires_at : ℕ
  pub used : Bool

pub data ConfirmationError : Type 0 where
  not_found already_used expired other_experiment other_spec : ConfirmationError

pub data Consumed : Type 0 where
  consumed : Assoc StoredToken → Consumed
  refused : ConfirmationError → Consumed

module _ (hash_spec : RunSpec → Text) where
  unfoldable pub mint_confirmation : ℕ → ℕ → ℕ → RunSpec → Assoc StoredToken → Assoc StoredToken
  mint_confirmation now token experiment_id spec tokens =
      insert token
        (record {
          experiment_id = experiment_id;
          spec_hash = hash_spec spec;
          expires_at = now + token_ttl_seconds;
          used = false;
        })
        tokens

  -- The checks on a token that was found, in the order of the code.
  unfoldable pub consume_stored :
      ℕ → ℕ → ℕ → RunSpec → Assoc StoredToken → Option StoredToken → Consumed
  consume_stored now experiment_id token spec tokens none = refused not_found
  consume_stored now experiment_id token spec tokens (some stored) =
      if stored.used
      then refused already_used
      else if ltb stored.expires_at now
      then refused expired
      else if not (stored.experiment_id == experiment_id)
      then refused other_experiment
      else if not (text_eq stored.spec_hash (hash_spec spec))
      then refused other_spec
      else consumed (insert token (record stored { used = true }) tokens)

  unfoldable pub consume_token : ℕ → ℕ → ℕ → RunSpec → Assoc StoredToken → Consumed
  unfolding consume_stored
  consume_token now experiment_id token spec tokens =
      consume_stored now experiment_id token spec tokens (lookup token tokens)
