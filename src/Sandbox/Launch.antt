-- ===== src/Sandbox/Launch.antt =====
-- `run_all`, `kernel_status` and `stop_kernel` of backend/sandbox/__init__.py. What Docker, the file
-- system and the vault answer, exceptions included, is an argument; the hashes, the output and the
-- list of artifacts are part of the row that the argument `row` gives. The last event to the
-- session is left out.
use ai_powered_research_work.Prelude.{
  ℕ, ◌*◌, Bool, true, false, ◌&&◌, Option, none, some, List, [], ◌∷◌, Text, codes, if◌then◌else◌,
}
use ai_powered_research_work.Prelude.Assoc.{Assoc, lookup, insert, without}
use ai_powered_research_work.Experiments.Models.{Experiment, ExperimentRun, clean_run_all, Tables}
use ai_powered_research_work.Experiments.Record.{Result, ok, err, record_run}
use ai_powered_research_work.Sandbox.Confirmation.{
  MountSpec, Network, bridge, isolated, RunSpec, build_run_spec, StoredToken, ConfirmationError,
  Consumed, consumed, consume_token,
}
use ai_powered_research_work.Sandbox.Confirmation
use ai_powered_research_work.Sandbox.Servers.{
  Host, is_registered, RunAnswer, container_up, container_down, no_container, Removal, removed,
  raised_there, raised_gone,
}

-- The arguments of `containers.run` that depend on the run; limits are kept as numbers,
-- and the paths of the mounts are those below the vault.
pub record DockerRun : Type 0 where
  pub image : Text
  -- of the command of the runner
  pub cell_timeout_seconds : ℕ
  pub runner_network : Text
  pub mounts : List MountSpec
  pub network_mode : Text
  pub nano_cpus : ℕ
  pub mem_limit_mb : ℕ
  pub device_requests : Option (List Text)

-- The module's globals, the tables, and the calls of `containers.run`, the latest first. `projects`
-- has the slug of each project.
pub record Sandbox : Type 0 where
  pub host : Host
  pub tokens : Assoc StoredToken
  pub tables : Tables
  pub docker_runs : List DockerRun

-- How the log of a container ends: with the container, by the time limit and a kill, or by an
-- exception of the stream, of a broadcast or of the kill.
pub data StreamEnd : Type 0 where
  ended timed_out raised : StreamEnd

-- The arguments of `run_all` and what it meets.
pub record RunRequest : Type 0 where
  pub experiment_id : ℕ
  pub token : ℕ
  pub network_optin : Bool
  pub gpu : Bool
  pub run_id : ℕ
  pub now : ℕ
  pub notebook_exists : Bool
  -- Docker's client and the image are there, and the files of the experiment are read
  pub ready : Bool
  pub run_answer : RunAnswer
  pub container : ℕ
  pub stream_end : StreamEnd
  -- `none` is an exception of `_wait_for_exit`
  pub exit_code : Option ℕ
  pub removal : Removal
  -- the notebook is read back, and the vault takes the files
  pub written : Bool
  -- the other columns of the run
  pub row : ExperimentRun

pub data RunError : Type 0 where
  already_running server_open no_experiment no_project no_notebook not_ready docker_raised
        stream_raised exit_unknown not_written not_recorded :
      RunError
  not_confirmed : ConfirmationError → RunError

pub data RunOutcome : Type 0 where
  recorded : ExperimentRun → RunOutcome
  refused : RunError → RunOutcome

abbrev is_bridge : Network → Bool
is_bridge bridge = true
is_bridge isolated = false

abbrev pub network_enabled_by : RunRequest → RunSpec → Bool
network_enabled_by r spec = r.network_optin && is_bridge spec.network

abbrev pub gpu_enabled_by : RunRequest → RunSpec → Bool
gpu_enabled_by r spec = r.gpu && spec.gpu

abbrev pub docker_run_of : RunRequest → RunSpec → DockerRun
docker_run_of r spec = record {
  image = spec.image;
  cell_timeout_seconds = spec.cell_timeout_seconds;
  runner_network = if network_enabled_by r spec then codes "1" else codes "0";
  mounts = spec.mounts;
  network_mode = if network_enabled_by r spec then codes "bridge" else codes "none";
  nano_cpus = spec.cpu_limit * 1000000000;
  mem_limit_mb = spec.memory_limit_mb;
  device_requests = if gpu_enabled_by r spec then some (codes "gpu" ∷ []) else none;
}

abbrev pub run_result : RunRequest → RunSpec → ℕ → ExperimentRun
run_result r spec exit_code = record r.row {
  id = r.run_id;
  experiment_id = r.experiment_id;
  exit_code = some exit_code;
  run_kind = clean_run_all;
  network_enabled = network_enabled_by r spec;
  gpu_enabled = gpu_enabled_by r spec;
  approved_at = some r.now;
}

abbrev pub with_running : Assoc (ℕ × ℕ) → Sandbox → Sandbox
with_running running s = record s { host = record s.host { running_containers = running } }

abbrev pub after_record : Sandbox → Result (Tables × ExperimentRun) → RunOutcome × Sandbox
after_record s (ok made) = (recorded made.1, record s { tables = made.0 })
after_record s (err e) = (refused not_recorded, s)

-- After the container and its entry went.
abbrev pub record_when_written : RunRequest → RunSpec → Option ℕ → Sandbox → RunOutcome × Sandbox
record_when_written r spec none left = (refused exit_unknown, left)
record_when_written r spec (some exit_code) left =
    if r.written
    then after_record left (record_run left.tables r.experiment_id (run_result r spec exit_code))
    else (refused not_written, left)

-- The `finally`: the entry goes only when the removal of the container returns.
abbrev pub after_exit : RunRequest → RunSpec → Removal → Sandbox → RunOutcome × Sandbox
after_exit r spec removed s =
    record_when_written r spec r.exit_code
      (with_running (without r.experiment_id s.host.running_containers) s)
after_exit r spec raised_there s = (refused docker_raised, s)
after_exit r spec raised_gone s = (refused docker_raised, s)

-- From the end of the log on: only the wait for the exit code stands in the `try`.
abbrev pub finish_run : RunRequest → RunSpec → StreamEnd → Sandbox → RunOutcome × Sandbox
finish_run r spec ended s = after_exit r spec r.removal s
finish_run r spec timed_out s = after_exit r spec r.removal s
finish_run r spec raised s = (refused stream_raised, s)

-- The run is registered when `containers.run` has returned.
abbrev pub after_run : RunRequest → RunSpec → RunAnswer → Sandbox → RunOutcome × Sandbox
after_run r spec container_up s =
    finish_run r spec r.stream_end
      (with_running (insert r.experiment_id (r.container, r.run_id) s.host.running_containers) s)
after_run r spec container_down s = (refused docker_raised, s)
after_run r spec no_container s = (refused docker_raised, s)

-- The run, when the experiment has a notebook.
abbrev pub run_notebook : Bool → RunRequest → RunSpec → Sandbox → RunOutcome × Sandbox
run_notebook false r spec s = (refused no_notebook, s)
run_notebook true r spec s =
    if r.ready
    then after_run r spec r.run_answer
        (record s { docker_runs = docker_run_of r spec ∷ s.docker_runs })
    else (refused not_ready, s)

abbrev pub launch_confirmed : RunRequest → RunSpec → Sandbox → Consumed → RunOutcome × Sandbox
launch_confirmed r spec s (Confirmation.refused e) = (refused (not_confirmed e), s)
launch_confirmed r spec s (consumed tokens) =
    run_notebook r.notebook_exists r spec (record s { tokens = tokens })

module _ (hash_spec : RunSpec → Text) where
  abbrev pub launch_in : RunRequest → Sandbox → Experiment → Option Text → RunOutcome × Sandbox
  launch_in r s experiment none = (refused no_project, s)
  launch_in r s experiment (some slug) =
      let spec = build_run_spec experiment slug in
      launch_confirmed r spec s
        (consume_token hash_spec r.now r.experiment_id r.token spec s.tokens)

  abbrev pub launch : RunRequest → Sandbox → Option Experiment → RunOutcome × Sandbox
  launch r s none = (refused no_experiment, s)
  launch r s (some experiment) =
      launch_in r s experiment (lookup experiment.project_id s.tables.projects)

  unfoldable pub run_all : RunRequest → Sandbox → RunOutcome × Sandbox
  unfolding build_run_spec consume_token record_run
  run_all r s =
      if is_registered (lookup r.experiment_id s.host.running_containers)
      then (refused already_running, s)
      else if is_registered (lookup r.experiment_id s.host.live_servers)
      then (refused server_open, s)
      else launch r s (lookup r.experiment_id s.tables.experiments)

-- `kernel_status`: the run that is in flight.
abbrev run_of : Option (ℕ × ℕ) → Option ℕ
run_of none = none
run_of (some entry) = some entry.1

unfoldable pub kernel_status : ℕ → Host → Option ℕ
kernel_status id host = run_of (lookup id host.running_containers)

-- The container that `stop_kernel` kills.
abbrev container_of : Option (ℕ × ℕ) → Option ℕ
container_of none = none
container_of (some entry) = some entry.0

unfoldable pub stop_kernel : ℕ → Host → Option ℕ
stop_kernel id host = container_of (lookup id host.running_containers)
