-- ===== src/Sandbox/Stopping.antt =====
-- How the live notebook servers of backend/sandbox/__init__.py are stopped.
use ai_powered_research_work.Prelude.{
  ℕ, zero, suc, Bool, true, false, Option, none, some, List, [], ◌∷◌, ltb, if◌then◌else◌,
}
use ai_powered_research_work.Prelude.Assoc.{lookup, without}
use ai_powered_research_work.Sandbox.Servers.{
  LiveServerHandle, Host, Failure, save_failed, save_raised, write_failed, docker_raised,
  ServerStatus, running, stopped, failed, Removal, removed, raised_there, raised_gone,
  remove_container, after_removal, is_registered,
}

-- What a look at the vault file gives: no file, its time, or an exception.
pub data Look : Type 0 where
  no_file : Look
  changed_at : ℕ → Look
  unreadable : Look

-- What `container.reload` gives: whether the container runs, or an exception.
pub data ContainerState : Type 0 where
  is_running is_down reload_raised : ContainerState

-- How the save through Jupyter ends: taken, with an HTTPError, or with another exception, as of an
-- answer that is not JSON.
pub data SaveAnswer : Type 0 where
  taken http_error other_error : SaveAnswer

-- What a stop meets: whether the experiment exists and has a notebook path, the state of the
-- container, the file before the save, the save, the file at each look after it, whether its bytes
-- are read, whether the vault takes them, and the removal of the container.
pub record StopEnv : Type 0 where
  pub experiment_exists : Bool
  pub has_notebook_path : Bool
  pub container_state : ContainerState
  pub before : Look
  pub save : SaveAnswer
  pub look : ℕ → Look
  pub bytes_read : Bool
  pub written : Bool
  pub removal : Removal

pub data SaveEnd : Type 0 where
  confirmed : SaveEnd
  not_saved : Failure → SaveEnd

abbrev pub is_newer : Look → ℕ → Bool
is_newer no_file after = true
is_newer (changed_at before) after = ltb before after
is_newer unreadable after = false

-- `absolute_path.read_bytes()`
abbrev pub read_back : StopEnv → SaveEnd
read_back env = if env.bytes_read then confirmed else not_saved save_raised

abbrev pub looked : StopEnv → Look → SaveEnd → SaveEnd
looked env no_file later = later
looked env (changed_at after) later = if is_newer env.before after then read_back env else later
looked env unreadable later = not_saved save_raised

-- The look at the file, `left` more times from the look `k` on.
unfoldable pub verify_from : StopEnv → ℕ → ℕ → SaveEnd
verify_from env zero k = not_saved save_failed
verify_from env (suc left) k = looked env (env.look k) (verify_from env left (suc k))

-- What is saved when the container is down.
abbrev pub fallen_back : StopEnv → Look → SaveEnd
fallen_back env no_file = not_saved save_failed
fallen_back env (changed_at time) = read_back env
fallen_back env unreadable = not_saved save_raised

abbrev pub after_put : StopEnv → SaveAnswer → SaveEnd
after_put env taken = verify_from env 5 0
after_put env http_error = not_saved save_failed
after_put env other_error = not_saved save_raised

-- The save through Jupyter, after the time of the file was taken.
abbrev pub forced : StopEnv → Look → SaveEnd
forced env no_file = after_put env env.save
forced env (changed_at time) = after_put env env.save
forced env unreadable = not_saved save_raised

abbrev pub save_in : StopEnv → ContainerState → SaveEnd
save_in env is_running = forced env env.before
save_in env is_down = fallen_back env env.before
save_in env reload_raised = not_saved docker_raised

-- `_save_and_verify_notebook`: whether it returns, or its exception.
unfoldable pub save_and_verify_notebook : StopEnv → SaveEnd
unfolding verify_from
save_and_verify_notebook env =
    if env.has_notebook_path then save_in env env.container_state else not_saved save_failed

abbrev pub status_after : Removal → ServerStatus
status_after removed = stopped
status_after raised_there = failed docker_raised
status_after raised_gone = failed docker_raised

-- The entry goes before the removal, which can raise.
abbrev pub torn_down : Removal → ℕ → LiveServerHandle → Host → ServerStatus × Host
torn_down removal id handle host = (
  status_after removal,
  record host {
    live_servers = without id host.live_servers;
    containers = after_removal removal handle.container host.containers;
  },
)

abbrev pub after_save : SaveEnd → StopEnv → ℕ → LiveServerHandle → Host → ServerStatus × Host
after_save confirmed env id handle host =
    if env.written then torn_down env.removal id handle host else (failed write_failed, host)
after_save (not_saved why) env id handle host = (failed why, host)

abbrev pub stop_when_present : StopEnv → ℕ → Host → Option LiveServerHandle → ServerStatus × Host
stop_when_present env id host none = (stopped, host)
stop_when_present env id host (some handle) =
    if env.experiment_exists
    then after_save (save_and_verify_notebook env) env id handle host
    else torn_down env.removal id handle host

unfoldable pub stop_notebook_server : StopEnv → ℕ → Host → ServerStatus × Host
unfolding remove_container save_and_verify_notebook
stop_notebook_server env id host = stop_when_present env id host (lookup id host.live_servers)

abbrev pub status_of : Option LiveServerHandle → ServerStatus
status_of none = stopped
status_of (some handle) = running handle

unfoldable pub notebook_server_status : ℕ → Host → ServerStatus
notebook_server_status id host = status_of (lookup id host.live_servers)

-- A NotebookSaveError is logged; every other exception ends the loop.
abbrev goes_on : ServerStatus → Bool
goes_on (running handle) = true
goes_on stopped = true
goes_on (failed save_failed) = true
goes_on (failed _) = false

unfoldable pub stop_all_notebook_servers_for_shutdown : (ℕ → StopEnv) → List ℕ → Host → Host
unfolding stop_notebook_server
stop_all_notebook_servers_for_shutdown env [] host = host
stop_all_notebook_servers_for_shutdown env (id ∷ ids) host =
    let after = (stop_notebook_server (env id) id host).1 in
    let rest = stop_all_notebook_servers_for_shutdown env ids after in
    if goes_on (stop_notebook_server (env id) id host).0 then rest else after

-- `_enforce_ceiling` when its sleep is over.
unfoldable pub enforce_ceiling : StopEnv → ℕ → Host → Host
unfolding stop_notebook_server
enforce_ceiling env id host =
    if is_registered (lookup id host.live_servers)
    then (stop_notebook_server env id host).1
    else host
