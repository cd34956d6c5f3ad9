-- ===== src/Sandbox/Servers.antt =====
-- The live notebook servers of backend/sandbox/__init__.py, and their start. Each function holds the lock of its
-- experiment from begin to end, so it is one step. What Docker, Jupyter, the file system and the
-- vault answer, exceptions included, is an argument; the list `containers` is the notebook
-- containers that Docker has. Left out are exceptions of the database and of the websocket, and
-- cancellation.
use ai_powered_research_work.Prelude.{
  ℕ, Bool, true, false, not, Option, none, some, List, [], ◌∷◌, ◌==◌, if◌then◌else◌,
}
use ai_powered_research_work.Prelude.Assoc.{Assoc, lookup, insert}

pub data ServerNetwork : Type 0 where
  internal bridged : ServerNetwork

-- `_LiveServerHandle`, without its project, URL, start time and ceiling task.
pub record LiveServerHandle : Type 0 where
  pub container : ℕ
  pub port : ℕ
  pub network : ServerNetwork

pub record Host : Type 0 where
  pub live_servers : Assoc LiveServerHandle
  -- `_running_containers`: the container and the run of an experiment
  pub running_containers : Assoc (ℕ × ℕ)
  pub containers : List ℕ

-- `save_failed` is the NotebookSaveError, `docker_raised` an exception of Docker, and `save_raised`
-- another one of the save.
pub data Failure : Type 0 where
  run_in_progress experiment_missing not_reachable never_ready save_failed save_raised write_failed
        docker_raised :
      Failure

pub data ServerStatus : Type 0 where
  running : LiveServerHandle → ServerStatus
  stopped : ServerStatus
  failed : Failure → ServerStatus

-- How `containers.run` ends: with a container; with an exception after the container was created,
-- as when the port is taken; with an exception and no container.
pub data RunAnswer : Type 0 where
  container_up container_down no_container : RunAnswer

-- How `container.remove(force=True)` ends: the container is gone; an exception, and it is there
-- still; an exception, although it is gone.
pub data Removal : Type 0 where
  removed raised_there raised_gone : Removal

-- What a start meets: whether the experiment exists, whether an empty notebook is written where
-- one is missing, whether Docker gives its client and the network, the free port, the containers of
-- the two networks with the end of their runs and whether they are reached, whether the server
-- answers in time, and how a removal of a container ends.
pub record StartEnv : Type 0 where
  pub experiment_exists : Bool
  pub notebook_written : Bool
  pub docker_ready : Bool
  pub port : ℕ
  pub internal_container : ℕ
  pub internal_run : RunAnswer
  pub internal_reachable : Bool
  pub bridge_container : ℕ
  pub bridge_run : RunAnswer
  pub bridge_reachable : Bool
  pub http_ready : Bool
  pub removal : ℕ → Removal

unfoldable pub remove_container : ℕ → List ℕ → List ℕ
remove_container c [] = []
remove_container c (d ∷ containers) =
    if c == d then containers else d ∷ remove_container c containers

-- The containers after a removal.
abbrev pub after_removal : Removal → ℕ → List ℕ → List ℕ
after_removal removed c containers = remove_container c containers
after_removal raised_there c containers = containers
after_removal raised_gone c containers = remove_container c containers

-- `why` when the removal returns.
abbrev pub failure_after : Removal → Failure → Failure
failure_after removed why = why
failure_after raised_there why = docker_raised
failure_after raised_gone why = docker_raised

pub data ServerMade : Type 0 where
  reached : ℕ → ServerNetwork → ServerMade
  not_made : Failure → ServerMade

-- The second try, on the default network.
abbrev pub on_bridge : RunAnswer → StartEnv → List ℕ → ServerMade × List ℕ
on_bridge container_up env containers =
    let second = env.bridge_container ∷ containers in
    let removal = env.removal env.bridge_container in
    if env.bridge_reachable then (reached env.bridge_container bridged, second) else (
      not_made (failure_after removal not_reachable),
      after_removal removal env.bridge_container second,
    )
on_bridge container_down env containers =
    (not_made docker_raised, env.bridge_container ∷ containers)
on_bridge no_container env containers = (not_made docker_raised, containers)

-- The second try comes when the first container was removed.
abbrev pub fall_back : Removal → StartEnv → List ℕ → ServerMade × List ℕ
fall_back removed env containers = on_bridge env.bridge_run env containers
fall_back raised_there env containers = (not_made docker_raised, containers)
fall_back raised_gone env containers = (not_made docker_raised, containers)

abbrev pub on_internal : RunAnswer → StartEnv → List ℕ → ServerMade × List ℕ
on_internal container_up env containers =
    let first = env.internal_container ∷ containers in
    let removal = env.removal env.internal_container in
    if env.internal_reachable
    then (reached env.internal_container internal, first)
    else fall_back removal env (after_removal removal env.internal_container first)
on_internal container_down env containers =
    (not_made docker_raised, env.internal_container ∷ containers)
on_internal no_container env containers = (not_made docker_raised, containers)

-- `_run_notebook_server_container`: the container and its network, or the exception, and the
-- containers then.
unfoldable pub run_notebook_server_container : StartEnv → List ℕ → ServerMade × List ℕ
unfolding remove_container
run_notebook_server_container env containers =
    if env.docker_ready
    then on_internal env.internal_run env containers
    else (not_made docker_raised, containers)

abbrev pub registered : StartEnv → ℕ → Host → ServerMade × List ℕ → ServerStatus × Host
registered env id host (not_made why, containers) =
    (failed why, record host { containers = containers })
registered env id host (reached container network, containers) =
    let handle : LiveServerHandle = record {
      container = container;
      port = env.port;
      network = network;
    } in
    let removal = env.removal container in
    if env.http_ready
    then (
      running handle,
      record host { live_servers = insert id handle host.live_servers; containers = containers },
    )
    else (
      failed (failure_after removal never_ready),
      record host { containers = after_removal removal container containers },
    )

abbrev pub is_registered {ℓ} : {A : Type ℓ} → Option A → Bool
is_registered none = false
is_registered (some a) = true

abbrev pub start_when_absent : StartEnv → ℕ → Host → Option LiveServerHandle → ServerStatus × Host
start_when_absent env id host (some handle) = (running handle, host)
start_when_absent env id host none =
    if is_registered (lookup id host.running_containers)
    then (failed run_in_progress, host)
    else if not env.experiment_exists
    then (failed experiment_missing, host)
    else if not env.notebook_written
    then (failed write_failed, host)
    else registered env id host (run_notebook_server_container env host.containers)

unfoldable pub start_notebook_server : StartEnv → ℕ → Host → ServerStatus × Host
unfolding run_notebook_server_container
start_notebook_server env id host = start_when_absent env id host (lookup id host.live_servers)
