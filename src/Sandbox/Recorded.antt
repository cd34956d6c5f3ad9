-- ===== src/Sandbox/Recorded.antt =====
-- What stands behind a run that `run_all` of backend/sandbox/__init__.py records.
use ai_powered_research_work.Prelude.{
  ℕ, ◌≡◌, refl, ap, sym, ◌∙◌, subst, inl, inr, Bool, true, false, not, ◌&&◌, Option, none, some, [],
  ◌∷◌, codes, if◌then◌else◌, arith, Text, ◌==◌, Bool-cases, Option-cases,
}
use ai_powered_research_work.Prelude.Assoc.{Assoc, lookup, insert, without, lookup-without}
use ai_powered_research_work.Experiments.Models.{Experiment, ExperimentRun, clean_run_all, Tables}
use ai_powered_research_work.Experiments.Record.{Result, ok, err, is_some, record_run}
use ai_powered_research_work.Sandbox.Confirmation.{
  bridge, isolated, RunSpec, build_run_spec, StoredToken, Consumed, consumed, consume_token,
}
use ai_powered_research_work.Sandbox.Confirmation
use ai_powered_research_work.Sandbox.Servers.{
  Host, is_registered, RunAnswer, container_up, container_down, no_container, Removal, removed,
  raised_there, raised_gone,
}
use ai_powered_research_work.Sandbox.Launch.{
  Sandbox, StreamEnd, ended, timed_out, raised, DockerRun, RunRequest, recorded, run_result,
  with_running, after_record, record_when_written, after_exit, finish_run, after_run, run_notebook,
  launch_confirmed, launch_in, run_all, network_enabled_by, gpu_enabled_by, docker_run_of,
}

-- A run that was recorded: of an existing experiment without a run or a live server, after a token
-- for the spec of its current state was consumed. `containers.run` was called once, with the mounts
-- of that spec, and with network and GPU exactly when the experiment and the call both ask for them;
-- and so it is recorded.
pub record WasLaunched (hash_spec : RunSpec → Text) (r : RunRequest) (s : Sandbox)
    (run : ExperimentRun) (after : Sandbox) : Type 0 where
  pub experiment : Experiment
  pub slug : Text
  pub docker_run : DockerRun
  pub has_experiment : lookup r.experiment_id s.tables.experiments ≡ some experiment
  pub has_project : lookup experiment.project_id s.tables.projects ≡ some slug
  pub no_run : lookup r.experiment_id s.host.running_containers ≡ none
  pub no_server : lookup r.experiment_id s.host.live_servers ≡ none
  pub confirmed :
      consume_token hash_spec r.now r.experiment_id r.token
        (build_run_spec experiment slug)
        s.tokens
      ≡ consumed after.tokens
  pub one_container : after.docker_runs ≡ docker_run ∷ s.docker_runs
  pub mounts : docker_run.mounts ≡ RunSpec.mounts (build_run_spec experiment slug)
  pub network_mode :
      docker_run.network_mode
      ≡ (if experiment.network_optin && r.network_optin then codes "bridge" else codes "none")
  pub runner_network :
      docker_run.runner_network
      ≡ (if experiment.network_optin && r.network_optin then codes "1" else codes "0")
  pub device_requests :
      docker_run.device_requests
      ≡ (if experiment.gpu_optin && r.gpu then some (codes "gpu" ∷ []) else none)
  pub clean : run.run_kind ≡ clean_run_all
  pub network : run.network_enabled ≡ (experiment.network_optin && r.network_optin)
  pub gpu : run.gpu_enabled ≡ (experiment.gpu_optin && r.gpu)
  pub deregistered : lookup r.experiment_id after.host.running_containers ≡ none

abbrev row_of : ExperimentRun → Result (Tables × ExperimentRun) → ExperimentRun
row_of run (ok made) = made.1
row_of run (err e) = run

-- What `record_run` returns is the row with the id of the experiment.
record_run-row :
    (tables : Tables) (id : ℕ) (run : ExperimentRun) {made : Tables × ExperimentRun}
    → record_run tables id run ≡ ok made
    → made.1 ≡ record run { experiment_id = id }
unfolding record_run
record_run-row tables id run {made} h =
    elim (Bool-cases
      (is_some (lookup id tables.experiments) && not (is_some (lookup run.id tables.runs)))) [
        | inl e ↦ ap (row_of run) (sym (rw e at h))
        | inr e ↦ let k = rw e at h in absurd (ground arith)
      ]

after_record-cases :
    (s : Sandbox) (result : Result (Tables × ExperimentRun)) {run : ExperimentRun}
    → (after_record s result).0 ≡ recorded run
    → (made : Tables × ExperimentRun) × (result ≡ ok made)
      × (made.1 ≡ run)
      × ((after_record s result).1 ≡ record s { tables = made.0 })
after_record-cases s (ok made) h = (made, refl, ground arith, refl)
after_record-cases s (err e) h = absurd (ground arith)

pub registered-none : {A : Type 0} (o : Option A) → is_registered o ≡ false → o ≡ none
registered-none none h = refl
registered-none (some a) h = absurd (ground arith)

pub network_enabled_lem :
    (r : RunRequest) (experiment : Experiment) (slug : Text)
    → network_enabled_by r (build_run_spec experiment slug)
      ≡ (experiment.network_optin && r.network_optin)
unfolding build_run_spec
network_enabled_lem r experiment slug = ground arith

pub gpu_enabled_lem :
    (r : RunRequest) (experiment : Experiment) (slug : Text)
    → gpu_enabled_by r (build_run_spec experiment slug) ≡ (experiment.gpu_optin && r.gpu)
unfolding build_run_spec
gpu_enabled_lem r experiment slug = ground arith

without-lookup : {A : Type 0} (id : ℕ) (m : Assoc A) → lookup id (without id m) ≡ none
without-lookup id m =
    lookup-without id id m ∙ (let e : (id == id) ≡ true = ground arith in rw e refl)

-- The end of a run that was recorded.
record Ended (r : RunRequest) (spec : RunSpec) (s after : Sandbox) (run : ExperimentRun)
    : Type 0 where
  exit_code : ℕ
  is_run : run ≡ record (run_result r spec exit_code) { experiment_id = r.experiment_id }
  same_tokens : after.tokens ≡ s.tokens
  same_runs : after.docker_runs ≡ s.docker_runs
  deregistered : lookup r.experiment_id after.host.running_containers ≡ none

module _ (r : RunRequest) (spec : RunSpec) (s : Sandbox) where
  abbrev left : Sandbox
  left = with_running (without r.experiment_id s.host.running_containers) s

  record_when_written-Ended :
      (exit_code : Option ℕ) {run : ExperimentRun}
      → (record_when_written r spec exit_code left).0 ≡ recorded run
      → Ended r spec s (record_when_written r spec exit_code left).1 run
  record_when_written-Ended none h = absurd (ground arith)
  record_when_written-Ended (some code) {run} h = elim (Bool-cases r.written) [
    | inr w ↦ let k = rw w at h in absurd (ground arith)
    | inl w ↦
        let result = record_run left.tables r.experiment_id (run_result r spec code) in
        let (made, is_ok, same, after) = after_record-cases left result (rw w at h) in
        simp w (record {
          exit_code = code;
          is_run =
              sym same ∙ record_run-row s.tables r.experiment_id (run_result r spec code) is_ok;
          same_tokens = ap Sandbox.tokens after;
          same_runs = ap Sandbox.docker_runs after;
          deregistered =
              ap (λ t. lookup r.experiment_id (Host.running_containers (Sandbox.host t))) after
              ∙ without-lookup r.experiment_id s.host.running_containers;
        })
  ]

  after_exit-Ended :
      (removal : Removal) {run : ExperimentRun}
      → (after_exit r spec removal s).0 ≡ recorded run
      → Ended r spec s (after_exit r spec removal s).1 run
  after_exit-Ended removed h = record_when_written-Ended r.exit_code h
  after_exit-Ended raised_there h = absurd (ground arith)
  after_exit-Ended raised_gone h = absurd (ground arith)

  finish_run-Ended :
      (e : StreamEnd) {run : ExperimentRun}
      → (finish_run r spec e s).0 ≡ recorded run
      → Ended r spec s (finish_run r spec e s).1 run
  finish_run-Ended ended h = after_exit-Ended r.removal h
  finish_run-Ended timed_out h = after_exit-Ended r.removal h
  finish_run-Ended raised h = absurd (ground arith)

after_run-Ended :
    (r : RunRequest) (spec : RunSpec) (answer : RunAnswer) (s : Sandbox) {run : ExperimentRun}
    → (after_run r spec answer s).0 ≡ recorded run
    → Ended r spec s (after_run r spec answer s).1 run
after_run-Ended r spec no_container s h = absurd (ground arith)
after_run-Ended r spec container_down s h = absurd (ground arith)
after_run-Ended r spec container_up s h =
    let begun =
      with_running (insert r.experiment_id (r.container, r.run_id) s.host.running_containers) s in
    let end = finish_run-Ended r spec begun r.stream_end h in
    record {
      exit_code = end.exit_code;
      is_run = end.is_run;
      same_tokens = end.same_tokens;
      same_runs = end.same_runs;
      deregistered = end.deregistered;
    }

-- A run with the call of Docker that was made for it.
abbrev asked : RunRequest → RunSpec → Sandbox → Sandbox
asked r spec s = record s { docker_runs = docker_run_of r spec ∷ s.docker_runs }

run_notebook-Ended :
    (found : Bool) (r : RunRequest) (spec : RunSpec) (s : Sandbox) {run : ExperimentRun}
    → (run_notebook found r spec s).0 ≡ recorded run
    → Ended r spec (asked r spec s) (run_notebook found r spec s).1 run
run_notebook-Ended false r spec s h = absurd (ground arith)
run_notebook-Ended true r spec s h = elim (Bool-cases r.ready) [
  | inl e ↦ simp e (after_run-Ended r spec r.run_answer (asked r spec s) (rw e at h))
  | inr e ↦ let k = rw e at h in absurd (ground arith)
]

launch_confirmed-Ended :
    (r : RunRequest) (spec : RunSpec) (s : Sandbox) (c : Consumed) {run : ExperimentRun}
    → (launch_confirmed r spec s c).0 ≡ recorded run
    → (tokens : Assoc StoredToken) × (c ≡ consumed tokens)
      × Ended r spec
          (asked r spec (record s { tokens = tokens }))
          ((launch_confirmed r spec s c).1)
          run
launch_confirmed-Ended r spec s (Confirmation.refused e) h = absurd (ground arith)
launch_confirmed-Ended r spec s (consumed tokens) h =
    (tokens, refl, run_notebook-Ended r.notebook_exists r spec (record s { tokens = tokens }) h)

launched-WasLaunched :
    (hash_spec : RunSpec → Text) (r : RunRequest) (s : Sandbox) (experiment : Experiment)
    (slug : Text) {run : ExperimentRun}
    → lookup r.experiment_id s.tables.experiments ≡ some experiment
    → lookup experiment.project_id s.tables.projects ≡ some slug
    → lookup r.experiment_id s.host.running_containers ≡ none
    → lookup r.experiment_id s.host.live_servers ≡ none
    → (launch_in hash_spec r s experiment (some slug)).0 ≡ recorded run
    → WasLaunched hash_spec r s run ((launch_in hash_spec r s experiment (some slug)).1)
launched-WasLaunched hash_spec r s experiment slug {run} g p e f h =
    let spec = build_run_spec experiment slug in
    let c = consume_token hash_spec r.now r.experiment_id r.token spec s.tokens in
    let (tokens, is_consumed, end) = launch_confirmed-Ended r spec s c h in
    record {
      experiment = experiment;
      slug = slug;
      has_experiment = g;
      has_project = p;
      no_run = e;
      no_server = f;
      confirmed = is_consumed ∙ ap (λ t. consumed t) (sym end.same_tokens);
      docker_run = docker_run_of r spec;
      one_container = end.same_runs;
      mounts = refl;
      network_mode = rw (network_enabled_lem r experiment slug) refl;
      runner_network = rw (network_enabled_lem r experiment slug) refl;
      device_requests = rw (gpu_enabled_lem r experiment slug) refl;
      clean = ap ExperimentRun.run_kind end.is_run;
      network = ap ExperimentRun.network_enabled end.is_run ∙ network_enabled_lem r experiment slug;
      gpu = ap ExperimentRun.gpu_enabled end.is_run ∙ gpu_enabled_lem r experiment slug;
      deregistered = end.deregistered;
    }

-- When `run_all` records a run: the experiment exists and had neither a run in flight nor a live
-- server; a token was consumed for the spec of its current state; Docker was asked for exactly one
-- container, with the mounts of that spec, with the network `bridge` and the runner's network flag
-- when the experiment and the call both opt in and else without, and with the GPU likewise; the run
-- is recorded as a clean run of the whole notebook with this network and GPU; and afterwards no run
-- of the experiment is registered.
pub run_all-WasLaunched :
    (hash_spec : RunSpec → Text) (r : RunRequest) (s : Sandbox) {run : ExperimentRun}
    → (run_all hash_spec r s).0 ≡ recorded run
    → WasLaunched hash_spec r s run ((run_all hash_spec r s).1)
unfolding run_all
run_all-WasLaunched hash_spec r s {run} h =
    elim (Bool-cases (is_registered (lookup r.experiment_id s.host.running_containers))) [
      | inl e ↦ let k = simp e at h in absurd (ground arith)
      | inr e ↦ elim (Bool-cases (is_registered (lookup r.experiment_id s.host.live_servers))) [
        | inl f ↦ let k = simp (e, f) at h in absurd (ground arith)
        | inr f ↦ elim (Option-cases (lookup r.experiment_id s.tables.experiments)) [
          | inl g ↦ let k = simp (e, f, g) at h in absurd (ground arith)
          | inr (experiment, g) ↦
              elim (Option-cases (lookup experiment.project_id s.tables.projects)) [
                | inl p ↦ let k = simp (e, f, g, p) at h in absurd (ground arith)
                | inr (slug, p) ↦
                    let spec = build_run_spec experiment slug in
                    let c = consume_token hash_spec r.now r.experiment_id r.token spec s.tokens in
                    let launched : run_all hash_spec r s ≡ launch_confirmed r spec s c =
                      rw (e, f, g, p) refl in
                    subst (λ t. WasLaunched hash_spec r s run (t.1)) (sym launched)
                      (launched-WasLaunched hash_spec r s experiment slug g p
                        (registered-none (lookup r.experiment_id s.host.running_containers) e)
                        (registered-none (lookup r.experiment_id s.host.live_servers) f)
                        (sym (ap (λ t. t.0) launched) ∙ h))
              ]
        ]
      ]
    ]
