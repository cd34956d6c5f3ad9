-- ===== src/Examples/Servers.antt =====
-- Live servers and runs of one experiment.
use ai_powered_research_work.Prelude.{
  ◌+◌, ◌≡◌, refl, ◌⊎◌, true, false, none, some, List, [], ◌∷◌, Text, codes,
}
use ai_powered_research_work.Prelude.Assoc.{lookup, insert, without}
use ai_powered_research_work.Experiments.Models.{Status, RunKind, Experiment, ExperimentRun}
use ai_powered_research_work.Sandbox.Confirmation.{RunSpec, build_run_spec, mint_confirmation}
use ai_powered_research_work.Sandbox.Servers.{
  LiveServerHandle, Host, container_up, container_down, removed, raised_there, StartEnv,
  start_notebook_server, stopped, internal,
}
use ai_powered_research_work.Sandbox.Stopping.{
  changed_at, is_running, taken, http_error, StopEnv, stop_notebook_server,
  stop_all_notebook_servers_for_shutdown, enforce_ceiling, notebook_server_status,
}
use ai_powered_research_work.Sandbox.Guarded.{Stops, stop_notebook_server-Stops}
use ai_powered_research_work.Sandbox.Accounts.{
  IsAccounted, Action, start, stop, runs, docker_failures, after_all, booted, booted-IsAccounted,
}
use ai_powered_research_work.Sandbox.Launch.{
  Sandbox, StreamEnd, RunRequest, recorded, refused, already_running, run_all, kernel_status,
  stop_kernel,
}
use ai_powered_research_work.Sandbox.Asked.{IsConsented, run_all-Consents}
use ai_powered_research_work.Sandbox.Recorded.{WasLaunched, run_all-WasLaunched}

abbrev fine : StartEnv
fine = record {
  experiment_exists = true;
  notebook_written = true;
  docker_ready = true;
  port = 8000;
  internal_container = 21;
  internal_run = container_up;
  internal_reachable = true;
  bridge_container = 22;
  bridge_run = container_up;
  bridge_reachable = true;
  http_ready = true;
  removal = λ c. removed;
}

-- The port is taken when the container starts.
abbrev port_taken : StartEnv
port_taken = record fine { internal_container = 23; internal_run = container_down }

-- The file becomes newer at the second look.
abbrev saves : StopEnv
saves = record {
  experiment_exists = true;
  has_notebook_path = true;
  container_state = is_running;
  before = changed_at 4;
  save = taken;
  look = λ k. changed_at (4 + k);
  bytes_read = true;
  written = true;
  removal = removed;
}

abbrev loses : StopEnv
loses = record saves { save = http_error }

-- The removal of the container raises.
abbrev sticks : StopEnv
sticks = record saves { removal = raised_there }

abbrev handle : LiveServerHandle
handle = record { container = 21; port = 8000; network = internal }

abbrev serving : Host
serving = record { live_servers = (3, handle) ∷ []; running_containers = []; containers = 21 ∷ [] }

start_test : (start_notebook_server fine 3 booted).1 ≡ serving
unfolding start_notebook_server lookup insert
start_test = refl

shutdown_test : stop_all_notebook_servers_for_shutdown (λ id. loses) (3 ∷ []) serving ≡ serving
unfolding stop_all_notebook_servers_for_shutdown lookup
shutdown_test = refl

ceiling_test : notebook_server_status 3 (enforce_ceiling saves 3 serving) ≡ stopped
unfolding enforce_ceiling notebook_server_status lookup without
ceiling_test = refl

stop_example : Stops sticks 3 handle serving (stop_notebook_server sticks 3 serving)
unfolding lookup
stop_example = stop_notebook_server-Stops sticks 3 handle serving refl

abbrev actions : List Action
actions =
    start fine 3
    ∷ runs []
    ∷ stop loses 3
    ∷ stop sticks 3
    ∷ start port_taken 3
    ∷ start fine 3
    ∷ stop saves 3
    ∷ []

-- The container that could not be removed and the one that did not start are left.
strays_test :
    (docker_failures actions booted ≡ 2) × ((after_all actions booted).containers ≡ 23 ∷ 21 ∷ [])
unfolding start_notebook_server stop_notebook_server lookup insert without
strays_test = (refl, refl)

booted_example : IsAccounted (docker_failures actions booted) (after_all actions booted)
booted_example = booted-IsAccounted actions

abbrev experiment : Experiment
experiment = record {
  project_id = 1;
  slug = codes "e";
  title = codes "e";
  hypothesis = none;
  setup = codes "{}";
  notes = none;
  status = Status.planned;
  notebook_path = none;
  network_optin = true;
  gpu_optin = false;
}

abbrev other_columns : ExperimentRun
other_columns = record {
  id = 0;
  experiment_id = 0;
  started_at = 10;
  finished_at = some 20;
  exit_code = none;
  image = codes "i";
  reqs_hash = codes "r";
  notebook_hash = codes "n";
  stdout_ref = codes "o";
  artifacts = [];
  run_kind = RunKind.interactive;
  network_enabled = false;
  gpu_enabled = false;
  approved_at = none;
}

abbrev digest : RunSpec → Text
digest spec = spec.image

abbrev request : StreamEnd → RunRequest
request stream_end = record {
  experiment_id = 3;
  token = 50;
  network_optin = true;
  gpu = true;
  run_id = 7;
  now = 10;
  notebook_exists = true;
  ready = true;
  run_answer = container_up;
  container = 31;
  stream_end = stream_end;
  exit_code = some 0;
  removal = removed;
  written = true;
  row = other_columns;
}

abbrev before : Sandbox
before = record {
  host = booted;
  tokens = mint_confirmation digest 5 50 3 (build_run_spec experiment (codes "p")) [];
  tables = record {
    projects = (1, codes "p") ∷ [];
    experiments = (3, experiment) ∷ [];
    runs = [];
    metrics = [];
  };
  docker_runs = [];
}

abbrev run : ExperimentRun
run = record other_columns {
  id = 7;
  experiment_id = 3;
  exit_code = some 0;
  run_kind = RunKind.clean_run_all;
  network_enabled = true;
  approved_at = some 10;
}

run_recorded : (run_all digest (request StreamEnd.ended) before).0 ≡ recorded run
unfolding run_all mint_confirmation lookup insert without
run_recorded = refl

run_all_example :
    WasLaunched digest
      (request StreamEnd.ended)
      before
      run
      ((run_all digest (request StreamEnd.ended) before).1)
run_all_example = run_all-WasLaunched digest (request StreamEnd.ended) before run_recorded

-- The log of the run raises.
run_all-Consents_example :
    ((run_all digest (request StreamEnd.raised) before).1.docker_runs ≡ [])
    ⊎ IsConsented digest
        (request StreamEnd.raised)
        before
        (run_all digest (request StreamEnd.raised) before).1
run_all-Consents_example = run_all-Consents digest (request StreamEnd.raised) before

-- After an exception of the log the run stays registered, and the next call is refused.
stuck_test :
    (run_all digest
      (request StreamEnd.ended)
      ((run_all digest (request StreamEnd.raised) before).1)).0
    ≡ refused already_running
unfolding run_all mint_confirmation lookup insert
stuck_test = refl

kernel_test :
    (kernel_status 3 ((run_all digest (request StreamEnd.raised) before).1).host ≡ some 7)
    × (stop_kernel 3 ((run_all digest (request StreamEnd.raised) before).1).host ≡ some 31)
unfolding run_all mint_confirmation lookup insert kernel_status stop_kernel
kernel_test = (refl, refl)
