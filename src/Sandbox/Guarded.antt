-- ===== src/Sandbox/Guarded.antt =====
-- When a live notebook server of backend/sandbox/__init__.py is torn down, and what a start leaves.
use ai_powered_research_work.Prelude.{
  ℕ, zero, suc, ◌+◌, ◌<◌, ◌≡◌, refl, ◌⊎◌, inl, inr, true, false, none, some, List, ◌∷◌, arith, ◌==◌,
  Bool-cases, Option-cases,
}
use ai_powered_research_work.Prelude.Assoc.{lookup, insert, without}
use ai_powered_research_work.Sandbox.Servers.{
  LiveServerHandle, Host, Failure, run_in_progress, experiment_missing, write_failed, docker_raised,
  ServerStatus, running, stopped, failed, RunAnswer, container_up, container_down, no_container,
  Removal, removed, raised_there, raised_gone, ServerNetwork, reached, StartEnv, remove_container,
  after_removal, failure_after, on_bridge, fall_back, on_internal, run_notebook_server_container,
  registered, start_when_absent, start_notebook_server,
}
use ai_powered_research_work.Sandbox.Stopping.{
  Look, no_file, changed_at, unreadable, ContainerState, is_running, is_down, reload_raised,
  SaveAnswer, taken, http_error, other_error, StopEnv, SaveEnd, confirmed, not_saved, is_newer,
  looked, verify_from, fallen_back, after_put, forced, save_in, save_and_verify_notebook, torn_down,
  after_save, stop_notebook_server,
}

-- A look shows a file that is newer than before the save.
abbrev pub ShowsNewer : Look → Look → Type 0
ShowsNewer before look = (after : ℕ) × (look ≡ changed_at after) × (is_newer before after ≡ true)

-- The work of a server is on disk: its container is down and there is a file, or the file became
-- newer, or came to be, at one of the five looks after a save that Jupyter took.
abbrev pub IsSaved : StopEnv → Type 0
IsSaved env =
    ((env.container_state ≡ is_down) × ((time : ℕ) × (env.before ≡ changed_at time)))
    ⊎ ((env.container_state ≡ is_running)
        × (env.save ≡ taken)
        × ((k : ℕ) × (k < 5) × ShowsNewer env.before (env.look k)))

verify_from-newer :
    (env : StopEnv) (left k : ℕ)
    → verify_from env left k ≡ confirmed
    → (j : ℕ) × (j < k + left) × ShowsNewer env.before (env.look j)
unfolding verify_from
verify_from-newer env zero k h = cc h
verify_from-newer env (suc left) k h =
    at_look (env.look k) refl h (verify_from-newer env left (suc k))
  where
    at_look :
        (look : Look)
        → env.look k ≡ look
        → looked env look (verify_from env left (suc k)) ≡ confirmed
        → (verify_from env left (suc k) ≡ confirmed
            → (j : ℕ) × (j < suc k + left) × ShowsNewer env.before (env.look j))
        → (j : ℕ) × (j < k + suc left) × ShowsNewer env.before (env.look j)
    at_look no_file e h later = let (j, low, newer) = later h in (j, omega (arith, low), newer)
    at_look unreadable e h later = cc h
    at_look (changed_at after) e h later = elim (Bool-cases (is_newer env.before after)) [
      | inl newer ↦ (k, omega arith, (after, e, newer))
      | inr old ↦ let (j, low, newer) = later (rw old at h) in (j, omega (arith, low), newer)
    ]

save_and_verify-IsSaved : (env : StopEnv) → save_and_verify_notebook env ≡ confirmed → IsSaved env
unfolding save_and_verify_notebook
save_and_verify-IsSaved env h = elim (Bool-cases env.has_notebook_path) [
  | inl e ↦ in_state env.container_state refl (rw e at h)
  | inr e ↦ let k = rw e at h in cc k
]
  where
    put :
        (save : SaveAnswer)
        → env.save ≡ save
        → after_put env save ≡ confirmed
        → (env.save ≡ taken) × ((k : ℕ) × (k < 5) × ShowsNewer env.before (env.look k))
    put taken e h = (e, verify_from-newer env 5 0 h)
    put http_error e h = cc h
    put other_error e h = cc h

    live :
        (before : Look)
        → forced env before ≡ confirmed
        → (env.save ≡ taken) × ((k : ℕ) × (k < 5) × ShowsNewer env.before (env.look k))
    live no_file h = put env.save refl h
    live (changed_at time) h = put env.save refl h
    live unreadable h = cc h

    dead :
        (before : Look)
        → env.before ≡ before
        → fallen_back env before ≡ confirmed
        → (time : ℕ) × (env.before ≡ changed_at time)
    dead no_file e h = cc h
    dead (changed_at time) e h = (time, e)
    dead unreadable e h = cc h

    in_state :
        (state : ContainerState)
        → env.container_state ≡ state
        → save_in env state ≡ confirmed
        → IsSaved env
    in_state is_running e h = let (t, looks) = live env.before h in inr (e, t, looks)
    in_state is_down e h = inl (e, dead env.before refl h)
    in_state reload_raised e h = cc h

-- The experiment is gone, or its work is on disk and the vault has taken it.
abbrev pub IsSafe : StopEnv → Type 0
IsSafe env = (env.experiment_exists ≡ false) ⊎ (IsSaved env × (env.written ≡ true))

-- The end of a stop of a registered server: its entry and its container go; or the entry goes, and
-- the removal of the container raises; or a failure, and everything is as before.
pub data Stops (env : StopEnv) (id : ℕ) (handle : LiveServerHandle) (host : Host)
    : ServerStatus × Host → Type 0 where
  gone :
      IsSafe env
      → Stops env id handle host (
        stopped,
        record host {
          live_servers = without id host.live_servers;
          containers = remove_container handle.container host.containers;
        },
      )
  left_behind :
      (later : List ℕ)
      → IsSafe env
      → (later ≡ host.containers) ⊎ (later ≡ remove_container handle.container host.containers)
      → Stops env id handle host (
        failed docker_raised,
        record host { live_servers = without id host.live_servers; containers = later },
      )
  kept : (why : Failure) → Stops env id handle host (failed why, host)

torn_down-Stops :
    (env : StopEnv) (id : ℕ) (handle : LiveServerHandle) (host : Host) (removal : Removal)
    → IsSafe env
    → Stops env id handle host (torn_down removal id handle host)
torn_down-Stops env id handle host removed safe = gone safe
torn_down-Stops env id handle host raised_there safe = left_behind host.containers safe (inl refl)
torn_down-Stops env id handle host raised_gone safe =
    left_behind (remove_container handle.container host.containers) safe (inr refl)

after_save-Stops :
    (env : StopEnv) (id : ℕ) (handle : LiveServerHandle) (host : Host) (end : SaveEnd)
    → save_and_verify_notebook env ≡ end
    → Stops env id handle host (after_save end env id handle host)
after_save-Stops env id handle host (not_saved why) e = kept why
after_save-Stops env id handle host confirmed e = elim (Bool-cases env.written) [
  | inl w ↦
      simp w
        (torn_down-Stops env id handle host env.removal (inr (save_and_verify-IsSaved env e, w)))
  | inr w ↦ simp w (kept write_failed)
]

-- Whatever Docker, Jupyter, the file system and the vault answer, exceptions included, a stop of a
-- registered server does one of two things. It takes the server out of the registry and removes
-- its container, or fails with the exception of that removal, after which the container may be
-- there still; and then the experiment is gone, or its work was confirmed on disk and taken by the
-- vault. Or it fails and leaves registry and containers as they were.
pub stop_notebook_server-Stops :
    (env : StopEnv) (id : ℕ) (handle : LiveServerHandle) (host : Host)
    → lookup id host.live_servers ≡ some handle
    → Stops env id handle host (stop_notebook_server env id host)
unfolding stop_notebook_server
stop_notebook_server-Stops env id handle host found =
    rw found (elim (Bool-cases env.experiment_exists) [
      | inl e ↦ simp e (after_save-Stops env id handle host (save_and_verify_notebook env) refl)
      | inr e ↦ simp e (torn_down-Stops env id handle host env.removal (inl e))
    ])

remove-added : (c : ℕ) (containers : List ℕ) → remove_container c (c ∷ containers) ≡ containers
unfolding remove_container
remove-added c containers = let e : (c == c) ≡ true = ground arith in rw e refl

-- The end of a start of a server that is not there: it fails and leaves everything as it was; or
-- Docker raised, and a container may be left; or there is one more container, registered for the
-- experiment, which has no run.
pub data Starts (id : ℕ) (host : Host) : ServerStatus × Host → Type 0 where
  failed_start : (why : Failure) → Starts id host (failed why, host)
  stray :
      (container : ℕ)
      → Starts id host
          (failed docker_raised, record host { containers = container ∷ host.containers })
  started :
      (handle : LiveServerHandle)
      → lookup id host.running_containers ≡ none
      → Starts id host (
        running handle,
        record host {
          live_servers = insert id handle host.live_servers;
          containers = handle.container ∷ host.containers;
        },
      )

module _ (env : StartEnv) (id : ℕ) (host : Host) where
  -- A container that was made and is removed again.
  undone :
      (removal : Removal) (c : ℕ) (why : Failure)
      → Starts id host (
        failed (failure_after removal why),
        record host { containers = after_removal removal c (c ∷ host.containers) },
      )
  undone removed c why = rw (remove-added c host.containers) (failed_start why)
  undone raised_there c why = stray c
  undone raised_gone c why = rw (remove-added c host.containers) (failed_start docker_raised)

  module _ (free : lookup id host.running_containers ≡ none) where
    reached-Starts :
        (c : ℕ) (network : ServerNetwork)
        → Starts id host (registered env id host (reached c network, c ∷ host.containers))
    reached-Starts c network = elim (Bool-cases env.http_ready) [
      | inl e ↦ simp e (started _ free)
      | inr e ↦ simp e (undone (env.removal c) c _)
    ]

    on_bridge-Starts :
        (answer : RunAnswer)
        → Starts id host (registered env id host (on_bridge answer env host.containers))
    on_bridge-Starts no_container = failed_start docker_raised
    on_bridge-Starts container_down = stray env.bridge_container
    on_bridge-Starts container_up = elim (Bool-cases env.bridge_reachable) [
      | inl e ↦ simp e (reached-Starts env.bridge_container _)
      | inr e ↦ simp e (undone (env.removal env.bridge_container) env.bridge_container _)
    ]

    fall_back-Starts :
        (removal : Removal)
        → Starts id host (
            registered env id host (
              fall_back removal env (
                after_removal removal env.internal_container
                  (env.internal_container ∷ host.containers))))
    fall_back-Starts removed =
        rw (remove-added env.internal_container host.containers) (on_bridge-Starts env.bridge_run)
    fall_back-Starts raised_there = stray env.internal_container
    fall_back-Starts raised_gone =
        rw (remove-added env.internal_container host.containers) (failed_start docker_raised)

    on_internal-Starts :
        (answer : RunAnswer)
        → Starts id host (registered env id host (on_internal answer env host.containers))
    on_internal-Starts no_container = failed_start docker_raised
    on_internal-Starts container_down = stray env.internal_container
    on_internal-Starts container_up = elim (Bool-cases env.internal_reachable) [
      | inl e ↦ simp e (reached-Starts env.internal_container _)
      | inr e ↦ simp e (fall_back-Starts (env.removal env.internal_container))
    ]

    registered-Starts :
        Starts id host (registered env id host (run_notebook_server_container env host.containers))
    unfolding run_notebook_server_container
    registered-Starts = elim (Bool-cases env.docker_ready) [
      | inl e ↦ simp e (on_internal-Starts env.internal_run)
      | inr e ↦ simp e (failed_start docker_raised)
    ]

  start_when_absent-Starts : Starts id host (start_when_absent env id host none)
  start_when_absent-Starts = elim (Option-cases (lookup id host.running_containers)) [
    | inr (entry, e) ↦ simp e (failed_start run_in_progress)
    | inl e ↦ elim (Bool-cases env.experiment_exists) [
      | inr f ↦ simp (e, f) (failed_start experiment_missing)
      | inl f ↦ elim (Bool-cases env.notebook_written) [
        | inr g ↦ simp (e, f, g) (failed_start write_failed)
        | inl g ↦ simp (e, f, g) (registered-Starts e)
      ]
    ]
  ]

  pub start_notebook_server-Starts :
      lookup id host.live_servers ≡ none → Starts id host (start_notebook_server env id host)
  unfolding start_notebook_server
  start_notebook_server-Starts absent = rw absent start_when_absent-Starts

  -- A start of a server that is there changes nothing.
  pub start_notebook_server-again :
      (handle : LiveServerHandle)
      → lookup id host.live_servers ≡ some handle
      → start_notebook_server env id host ≡ (running handle, host)
  unfolding start_notebook_server
  start_notebook_server-again handle found = rw found refl
