-- ===== src/Sandbox/Accounts.antt =====
-- Every notebook container belongs to a registered server or to a call that Docker broke off, over
-- every succession of starts and stops of backend/sandbox/__init__.py.
use ai_powered_research_work.Prelude.{
  ℕ, ◌+◌, ◌≡◌, ◌≤◌, inl, inr, none, some, List, [], ◌∷◌, length, arith, Option-cases,
}
use ai_powered_research_work.Prelude.Assoc.{Assoc, lookup, without}
use ai_powered_research_work.Sandbox.Counts.{
  count_of, containers_of, DistinctKeys, count-remove, count-insert, count-found, count-without,
  insert-DistinctKeys, without-DistinctKeys,
}
use ai_powered_research_work.Sandbox.Servers.{
  LiveServerHandle, Host, StartEnv, remove_container, start_notebook_server, ServerStatus, stopped,
  failed, docker_raised,
}
use ai_powered_research_work.Sandbox.Stopping.{StopEnv, stop_notebook_server}
use ai_powered_research_work.Sandbox.Guarded.{
  Stops, gone, left_behind, kept, Starts, failed_start, stray, started, stop_notebook_server-Stops,
  start_notebook_server-Starts, start_notebook_server-again,
}

-- The notebook containers are those of the registered servers and at most `n` others, each as often
-- in one list as in the other two.
pub record IsAccounted (n : ℕ) (host : Host) : Type 0 where
  pub strays : List ℕ
  pub few : length strays ≤ n
  pub same_containers :
      (c : ℕ)
      → count_of c host.containers
        ≡ count_of c (containers_of host.live_servers) + count_of c strays
  pub distinct : DistinctKeys host.live_servers

-- Whether a call failed with an exception of Docker.
abbrev pub docker_failure : ServerStatus → ℕ
docker_failure (failed docker_raised) = 1
docker_failure _ = 0

weaken : {m n : ℕ} {host : Host} → IsAccounted m host → m ≤ n → IsAccounted n host
weaken a le = record {
  strays = a.strays;
  few = omega (arith, a.few, le);
  same_containers = a.same_containers;
  distinct = a.distinct;
}

-- A server that goes from the registry together with its container.
gone-IsAccounted :
    (n id : ℕ) (handle : LiveServerHandle) (host : Host)
    → lookup id host.live_servers ≡ some handle
    → IsAccounted n host
    → IsAccounted n (record host {
      live_servers = without id host.live_servers;
      containers = remove_container handle.container host.containers;
    })
gone-IsAccounted n id handle host found a = record {
  strays = a.strays;
  few = a.few;
  same_containers = λ c. omega (
    arith,
    count-remove c handle.container host.containers,
    a.same_containers c,
    count-found c id handle host.live_servers found,
    count-without c id handle host.live_servers a.distinct found,
  );
  distinct = without-DistinctKeys id host.live_servers a.distinct;
}

Stops-IsAccounted :
    (n : ℕ) (env : StopEnv) (id : ℕ) (handle : LiveServerHandle) (host : Host)
    {r : ServerStatus × Host}
    → lookup id host.live_servers ≡ some handle
    → IsAccounted n host
    → Stops env id handle host r
    → IsAccounted (n + docker_failure r.0) r.1
Stops-IsAccounted n env id handle host found a (gone safe) =
    weaken (gone-IsAccounted n id handle host found a) (omega arith)
Stops-IsAccounted n env id handle host found a (left_behind later safe (inl same)) = record {
  strays = handle.container ∷ a.strays;
  few = ground (arith, a.few);
  same_containers = λ c. rw same (
      ground (
        arith,
        a.same_containers c,
        count-found c id handle host.live_servers found,
        count-without c id handle host.live_servers a.distinct found,
      ));
  distinct = without-DistinctKeys id host.live_servers a.distinct;
}
Stops-IsAccounted n env id handle host found a (left_behind later safe (inr removed)) =
    rw removed (weaken (gone-IsAccounted n id handle host found a) (omega arith))
Stops-IsAccounted n env id handle host found a (kept why) = weaken a (omega arith)

stop-IsAccounted :
    (n : ℕ) (env : StopEnv) (id : ℕ) (host : Host)
    → IsAccounted n host
    → IsAccounted
        (n + docker_failure (stop_notebook_server env id host).0)
        (stop_notebook_server env id host).1
unfolding stop_notebook_server
stop-IsAccounted n env id host a = elim (Option-cases (lookup id host.live_servers)) [
  | inl e ↦ rw e (weaken a (omega arith))
  | inr (handle, e) ↦
      Stops-IsAccounted n env id handle host e a (stop_notebook_server-Stops env id handle host e)
]

Starts-IsAccounted :
    (n id : ℕ) (host : Host) {r : ServerStatus × Host}
    → lookup id host.live_servers ≡ none
    → IsAccounted n host
    → Starts id host r
    → IsAccounted (n + docker_failure r.0) r.1
Starts-IsAccounted n id host absent a (failed_start why) = weaken a (omega arith)
Starts-IsAccounted n id host absent a (stray container) = record {
  strays = container ∷ a.strays;
  few = ground (arith, a.few);
  same_containers = λ c. ground (arith, a.same_containers c);
  distinct = a.distinct;
}
Starts-IsAccounted n id host absent a (started handle free) = record {
  strays = a.strays;
  few = omega (arith, a.few);
  same_containers =
      λ c. ground (arith, a.same_containers c, count-insert c id handle host.live_servers absent);
  distinct = insert-DistinctKeys id handle host.live_servers a.distinct;
}

start-IsAccounted :
    (n : ℕ) (env : StartEnv) (id : ℕ) (host : Host)
    → IsAccounted n host
    → IsAccounted
        (n + docker_failure (start_notebook_server env id host).0)
        (start_notebook_server env id host).1
start-IsAccounted n env id host a = elim (Option-cases (lookup id host.live_servers)) [
  | inl e ↦ Starts-IsAccounted n id host e a (start_notebook_server-Starts env id host e)
  | inr (handle, e) ↦ rw (start_notebook_server-again env id host handle e) (weaken a (omega arith))
]

pub data Action : Type 0 where
  start : StartEnv → ℕ → Action
  stop : StopEnv → ℕ → Action
  -- a run of the experiment is registered, or its end
  runs : Assoc (ℕ × ℕ) → Action

-- An action, the runs being what `run_all` makes of them.
abbrev pub answered_by : Action → Host → ServerStatus × Host
answered_by (start env id) host = start_notebook_server env id host
answered_by (stop env id) host = stop_notebook_server env id host
answered_by (runs running) host = (stopped, record host { running_containers = running })

abbrev pub after_all : List Action → Host → Host
after_all [] host = host
after_all (a ∷ actions) host = after_all actions (answered_by a host).1

-- How many of the calls fail with an exception of Docker.
abbrev pub docker_failures : List Action → Host → ℕ
docker_failures [] host = 0
docker_failures (a ∷ actions) host =
    docker_failure (answered_by a host).0 + docker_failures actions (answered_by a host).1

abbrev pub booted : Host
booted = record { live_servers = []; running_containers = []; containers = [] }

answered_by-IsAccounted :
    (n : ℕ) (a : Action) (host : Host)
    → IsAccounted n host
    → IsAccounted (n + docker_failure (answered_by a host).0) (answered_by a host).1
answered_by-IsAccounted n (start env id) host h = start-IsAccounted n env id host h
answered_by-IsAccounted n (stop env id) host h = stop-IsAccounted n env id host h
answered_by-IsAccounted n (runs running) host h = record {
  strays = h.strays;
  few = omega (arith, h.few);
  same_containers = h.same_containers;
  distinct = h.distinct;
}

after_all-IsAccounted :
    (actions : List Action) (n : ℕ) (host : Host)
    → IsAccounted n host
    → IsAccounted (n + docker_failures actions host) (after_all actions host)
after_all-IsAccounted [] n host h = weaken h (omega arith)
after_all-IsAccounted (a ∷ actions) n host h =
    weaken
      (after_all-IsAccounted actions (n + docker_failure (answered_by a host).0)
        (answered_by a host).1 (answered_by-IsAccounted n a host h))
      (omega arith)

-- After every succession of starts and stops of servers from a boot without any, whatever Docker,
-- Jupyter and the vault answer, exceptions included, and whichever runs go on: each experiment has
-- at most one registered server, and the notebook containers that exist are exactly those of the
-- registered servers and at most as many others as calls failed with an exception of Docker.
pub booted-IsAccounted :
    (actions : List Action)
    → IsAccounted (docker_failures actions booted) (after_all actions booted)
booted-IsAccounted actions =
    weaken
      (after_all-IsAccounted actions 0 booted (record {
        strays = [];
        few = omega arith;
        same_containers = λ c. omega arith;
        distinct = tt;
      }))
      (omega arith)
