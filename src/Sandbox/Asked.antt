-- ===== src/Sandbox/Asked.antt =====
-- When `run_all` of backend/sandbox/__init__.py asks Docker for a container, however it ends.
use ai_powered_research_work.Prelude.{
  ℕ, ◌≡◌, refl, ap, sym, ◌∙◌, subst, ◌⊎◌, inl, inr, Bool, true, false, ◌&&◌, Option, none, some, [],
  ◌∷◌, codes, Text, if◌then◌else◌, Bool-cases, Option-cases,
}
use ai_powered_research_work.Prelude.Assoc.{lookup, insert, without}
use ai_powered_research_work.Experiments.Models.{Experiment, ExperimentRun, Tables}
use ai_powered_research_work.Experiments.Record.{Result, ok, err, record_run}
use ai_powered_research_work.Sandbox.Confirmation.{
  RunSpec, build_run_spec, StoredToken, Consumed, consumed, consume_token,
}
use ai_powered_research_work.Sandbox.Confirmation
use ai_powered_research_work.Sandbox.Servers.{
  is_registered, RunAnswer, container_up, container_down, no_container, Removal, removed,
  raised_there, raised_gone,
}
use ai_powered_research_work.Sandbox.Launch.{
  DockerRun, Sandbox, StreamEnd, ended, timed_out, raised, RunRequest, run_result, with_running,
  after_record, record_when_written, after_exit, finish_run, after_run, run_notebook,
  launch_confirmed, run_all, docker_run_of,
}
use ai_powered_research_work.Sandbox.Recorded.{
  registered-none, network_enabled_lem, gpu_enabled_lem,
}

-- What stands before a container: an experiment without a run or a live server, and a token for the
-- spec of its current state, which was consumed; and the one call of `containers.run`.
pub record IsConsented (hash_spec : RunSpec → Text) (r : RunRequest) (s after : Sandbox)
    : Type 0 where
  pub experiment : Experiment
  pub slug : Text
  pub docker_run : DockerRun
  pub has_experiment : lookup r.experiment_id s.tables.experiments ≡ some experiment
  pub has_project : lookup experiment.project_id s.tables.projects ≡ some slug
  pub no_run : lookup r.experiment_id s.host.running_containers ≡ none
  pub no_server : lookup r.experiment_id s.host.live_servers ≡ none
  pub confirmed :
      consume_token hash_spec r.now r.experiment_id r.token
        (build_run_spec experiment slug)
        s.tokens
      ≡ consumed after.tokens
  pub one_container : after.docker_runs ≡ docker_run ∷ s.docker_runs
  pub mounts : docker_run.mounts ≡ RunSpec.mounts (build_run_spec experiment slug)
  pub network_mode :
      docker_run.network_mode
      ≡ (if experiment.network_optin && r.network_optin then codes "bridge" else codes "none")
  pub device_requests :
      docker_run.device_requests
      ≡ (if experiment.gpu_optin && r.gpu then some (codes "gpu" ∷ []) else none)

-- What follows the call of Docker uses no token and asks for no container.
record SameCalls (s after : Sandbox) : Type 0 where
  same_tokens : after.tokens ≡ s.tokens
  same_runs : after.docker_runs ≡ s.docker_runs

after_record-SameCalls :
    (s : Sandbox) (result : Result (Tables × ExperimentRun)) → SameCalls s (after_record s result).1
after_record-SameCalls s (ok made) = record { same_tokens = refl; same_runs = refl }
after_record-SameCalls s (err e) = record { same_tokens = refl; same_runs = refl }

module _ (r : RunRequest) (spec : RunSpec) where
  record_when_written-SameCalls :
      (exit_code : Option ℕ) (s : Sandbox) → SameCalls s (record_when_written r spec exit_code s).1
  record_when_written-SameCalls none s = record { same_tokens = refl; same_runs = refl }
  record_when_written-SameCalls (some code) s = elim (Bool-cases r.written) [
    | inl w ↦
        simp w
          (after_record-SameCalls s (record_run s.tables r.experiment_id (run_result r spec code)))
    | inr w ↦ simp w (record { same_tokens = refl; same_runs = refl })
  ]

  after_exit-SameCalls :
      (removal : Removal) (s : Sandbox) → SameCalls s (after_exit r spec removal s).1
  after_exit-SameCalls removed s =
      let k =
        record_when_written-SameCalls r.exit_code
          (with_running (without r.experiment_id s.host.running_containers) s) in
      record { same_tokens = k.same_tokens; same_runs = k.same_runs }
  after_exit-SameCalls raised_there s = record { same_tokens = refl; same_runs = refl }
  after_exit-SameCalls raised_gone s = record { same_tokens = refl; same_runs = refl }

  finish_run-SameCalls : (e : StreamEnd) (s : Sandbox) → SameCalls s (finish_run r spec e s).1
  finish_run-SameCalls ended s = after_exit-SameCalls r.removal s
  finish_run-SameCalls timed_out s = after_exit-SameCalls r.removal s
  finish_run-SameCalls raised s = record { same_tokens = refl; same_runs = refl }

  after_run-SameCalls :
      (answer : RunAnswer) (s : Sandbox) → SameCalls s (after_run r spec answer s).1
  after_run-SameCalls container_up s =
      let k = finish_run-SameCalls r.stream_end (
        with_running (insert r.experiment_id (r.container, r.run_id) s.host.running_containers)
          s) in
      record { same_tokens = k.same_tokens; same_runs = k.same_runs }
  after_run-SameCalls container_down s = record { same_tokens = refl; same_runs = refl }
  after_run-SameCalls no_container s = record { same_tokens = refl; same_runs = refl }

  -- At most one container for tokens that were consumed.
  record AsksOnce (s after : Sandbox) : Type 0 where
    tokens_kept : after.tokens ≡ s.tokens
    runs :
        (after.docker_runs ≡ s.docker_runs)
        ⊎ (after.docker_runs ≡ docker_run_of r spec ∷ s.docker_runs)

  run_notebook-AsksOnce : (found : Bool) (s : Sandbox) → AsksOnce s (run_notebook found r spec s).1
  run_notebook-AsksOnce false s = record { tokens_kept = refl; runs = inl refl }
  run_notebook-AsksOnce true s = elim (Bool-cases r.ready) [
    | inr e ↦ simp e (record { tokens_kept = refl; runs = inl refl })
    | inl e ↦
        let k =
          after_run-SameCalls r.run_answer
            (record s { docker_runs = docker_run_of r spec ∷ s.docker_runs }) in
        simp e (record { tokens_kept = k.same_tokens; runs = inr k.same_runs })
  ]

-- No container, or one with consent.
abbrev Consents : (RunSpec → Text) → RunRequest → Sandbox → Sandbox → Type 0
Consents hash_spec r s after = (after.docker_runs ≡ s.docker_runs) ⊎ IsConsented hash_spec r s after

module _ (hash_spec : RunSpec → Text) (r : RunRequest) (s : Sandbox) where
  launched-Consents :
      (experiment : Experiment) (slug : Text)
      → lookup r.experiment_id s.tables.experiments ≡ some experiment
      → lookup experiment.project_id s.tables.projects ≡ some slug
      → lookup r.experiment_id s.host.running_containers ≡ none
      → lookup r.experiment_id s.host.live_servers ≡ none
      → (c : Consumed)
      → consume_token hash_spec r.now r.experiment_id r.token
          (build_run_spec experiment slug)
          s.tokens
        ≡ c
      → Consents hash_spec r s (launch_confirmed r (build_run_spec experiment slug) s c).1
  launched-Consents experiment slug g p e f (Confirmation.refused why) same = inl refl
  launched-Consents experiment slug g p e f (consumed tokens) same =
      let spec = build_run_spec experiment slug in
      let k = run_notebook-AsksOnce r spec r.notebook_exists (record s { tokens = tokens }) in
      elim k.runs [
        | inl none_asked ↦ inl none_asked
        | inr asked ↦ inr (record {
          experiment = experiment;
          slug = slug;
          docker_run = docker_run_of r spec;
          has_experiment = g;
          has_project = p;
          no_run = e;
          no_server = f;
          confirmed = same ∙ ap (λ t. consumed t) (sym k.tokens_kept);
          one_container = asked;
          mounts = refl;
          network_mode = rw (network_enabled_lem r experiment slug) refl;
          device_requests = rw (gpu_enabled_lem r experiment slug) refl;
        })
      ]

  -- Whatever is asked of `run_all` and however it ends: either it does not ask Docker for a
  -- container, or it asks for exactly one, and then the experiment exists and had neither a run in
  -- flight nor a live server, a token for the spec of its current state was consumed, and the
  -- container has the mounts of that spec, the network `bridge` when the experiment and the call
  -- both opt in and else none, and the GPU likewise.
  pub run_all-Consents :
      ((run_all hash_spec r s).1.docker_runs ≡ s.docker_runs)
      ⊎ IsConsented hash_spec r s (run_all hash_spec r s).1
  unfolding run_all
  run_all-Consents =
      elim (Bool-cases (is_registered (lookup r.experiment_id s.host.running_containers))) [
        | inl e ↦ simp e (inl refl)
        | inr e ↦ elim (Bool-cases (is_registered (lookup r.experiment_id s.host.live_servers))) [
          | inl f ↦ simp (e, f) (inl refl)
          | inr f ↦ elim (Option-cases (lookup r.experiment_id s.tables.experiments)) [
            | inl g ↦ simp (e, f, g) (inl refl)
            | inr (experiment, g) ↦
                elim (Option-cases (lookup experiment.project_id s.tables.projects)) [
                  | inl p ↦ simp (e, f, g, p) (inl refl)
                  | inr (slug, p) ↦
                      let spec = build_run_spec experiment slug in
                      let c = consume_token hash_spec r.now r.experiment_id r.token spec s.tokens in
                      let launched : run_all hash_spec r s ≡ launch_confirmed r spec s c =
                        rw (e, f, g, p) refl in
                      subst (λ t. Consents hash_spec r s (t.1)) (sym launched)
                        (launched-Consents experiment slug g p
                          (registered-none (lookup r.experiment_id s.host.running_containers) e)
                          (registered-none (lookup r.experiment_id s.host.live_servers) f) c refl)
                ]
          ]
        ]
      ]
