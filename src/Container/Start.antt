-- ===== src/Container/Start.antt =====
-- Starting a container, in a silo or with a job (crates/psroot-container/src/container.rs,
-- crates/psroot-silo/src/lib.rs).
use psroot.Prelude.{ℕ, Bool, true, false, ◌&&◌, Option, none, some, List, [], ◌∷◌, if◌then◌else◌}
use psroot.Text.{Text, codes, join}
use psroot.Shell.Resolve.{NetworkAccess}
use psroot.Container.{
  ContainerState, is_created, state_name, PsrootError, Result, ok, err, AceGrantRecord, StateFile,
  Silo, Container, Saved, saved, kept, torn, Injected, Os, World, Op, give, fail, call, perform,
  set_runtime, set_config, set_state, get_container, ◌>>=◌, ◌>>◌,
}
use psroot.Container.Links.{unlink, setup_bind_links}
use psroot.Container.Publish.{publish_ports, insert_all}

abbrev pub nothing_of : List (Text × Text) → Option (List (Text × Text))
nothing_of [] = none
nothing_of (kv ∷ kvs) = some (kv ∷ kvs)

abbrev pub first_pid : Option ℕ → ℕ → Option ℕ
first_pid none pid = some pid
first_pid (some p) pid = some p

abbrev pub pid_of : Option Silo → Option ℕ
pid_of none = none
pid_of (some silo) = silo.init_pid

abbrev pub id_of : Option Silo → Option ℕ
id_of none = none
id_of (some silo) = some silo.silo_id

abbrev pub uses_netstack : NetworkAccess → Bool
uses_netstack NetworkAccess.netstack = true
uses_netstack _ = false

-- What state.json says of the grants and of the caches, when it can be read.
abbrev pub grants_of : Option StateFile → List AceGrantRecord
grants_of none = []
grants_of (some sf) = sf.ace_grants_applied

abbrev pub refs_of : Option StateFile → List Text
refs_of none = []
refs_of (some sf) = sf.cache_refs

abbrev pub state_of : Container → Option StateFile → StateFile
state_of c before = record {
  status = c.state;
  created = c.created_at;
  pid = pid_of c.runtime.silo;
  silo_id = id_of c.runtime.silo;
  ports = c.config.ports;
  ace_grants_applied = grants_of before;
  cache_refs = refs_of before;
}

module _ {W : Type 0} (os : Os W) where
  abbrev pub written : StateFile → World W → Saved W → Result (Unit {0}) × World W
  written sf w (saved h) = (ok tt, record w { state_json = some sf; host = h })
  written sf w (kept e h) = (err e, record w { host = h })
  written sf w (torn e h) = (err e, record w { state_json = none; host = h })

  -- What reading and parsing state.json gives.
  abbrev pub read_state : World W → Option StateFile
  read_state w = if os.readable w.host then w.state_json else none

  -- A read that fails gives no grants and no caches.
  unfoldable pub write_state : Op W (Unit {0})
  write_state w = let sf = state_of w.container (read_state w) in written sf w (os.save sf w.host)

  -- What a value that is dropped leaves behind.
  abbrev pub drop_job : ℕ → W → W
  drop_job job h = os.job_close job h

  abbrev pub drop_silo : Silo → W → W
  drop_silo silo h = os.job_close silo.handle (os.job_terminate silo.handle 0 h)

  abbrev pub ended_silo : Silo → W → W
  ended_silo silo h = drop_silo silo (os.job_terminate silo.handle 1 h)

  abbrev pub drop_netstack : Option ℕ → W → W
  drop_netstack none h = h
  drop_netstack (some ns) h = os.stop_netstack ns h

  -- A call whose error is returned, which drops what the function holds.
  abbrev pub ended : {A : Type 0} → (W → W) → World W → Result A × W → Result A × World W
  ended cleanup w (ok a, h) = (ok a, record w { host = h })
  ended cleanup w (err e, h) = (err e, record w { host = cleanup h })

  abbrev pub holding : {A : Type 0} → (W → W) → (W → Result A × W) → Op W A
  holding cleanup f w = ended cleanup w (f w.host)

  abbrev pub spawned : Silo → Result ℕ × W → Result (ℕ × Silo) × W
  spawned silo (ok pid, h) = (ok (pid, record silo { init_pid = first_pid silo.init_pid pid }), h)
  spawned silo (err e, h) = (err e, h)

  -- A process in the silo; the first is its init process.
  abbrev pub spawn : Silo → Text → Option (List (Text × Text)) → Text → W → Result (ℕ × Silo) × W
  spawn silo cmd env cwd h = spawned silo (os.create_in_silo silo.handle cmd env cwd h)

  -- The links take the place of those of an earlier try, which are dropped.
  abbrev pub keep_links : Option (List (Text × Text)) → Op W (Unit {0})
  keep_links links = do
    c ← get_container
    perform (unlink os c.runtime.bind_filter)
    set_runtime (λ r. record r { bind_filter = links })

  abbrev pub with_init : Container → Silo → Op W (Unit {0})
  with_init c silo = do
    let cmd = join (codes " ") c.config.command
    p ←
        holding (drop_silo silo)
          (spawn silo cmd (nothing_of c.config.env) c.config.working_directory)
    perform (os.inject_procshim p.0 c.config.rootfs_path)
    set_runtime (λ r. record r { silo = some p.1 })

  abbrev pub start_silo : Bool → Op W (Unit {0})
  start_silo has_filter = do
    c ← get_container
    silo ← call (os.silo_create c.config.rootfs_path c.config.resources)
    links ← holding (ended_silo silo) (setup_bind_links os has_filter c.config.volumes)
    keep_links links
    with_init c silo

  abbrev pub try_start_netstack : Op W (Option ℕ)
  try_start_netstack w =
      let r = os.start_netstack w.container.id w.host in
      if uses_netstack w.container.config.network
      then (ok r.0, record w { host = r.1 })
      else (ok none, w)

  abbrev pub env_of_netstack : Option ℕ → List (Text × Text)
  env_of_netstack none = []
  env_of_netstack (some ns) = os.child_env ns

  -- The daemon is kept when the process cannot be opened, and dropped when the injection fails.
  abbrev pub after_injection : ℕ → Injected × W → Option ℕ × W
  after_injection ns (Injected.not_opened, h) = (some ns, h)
  after_injection ns (Injected.injected, h) = (some ns, h)
  after_injection ns (Injected.refused, h) = (none, os.stop_netstack ns h)

  abbrev pub try_inject_netstack : ℕ → Option ℕ → Op W (Unit {0})
  try_inject_netstack pid none = give tt
  try_inject_netstack pid (some ns) = λ w.
      let r = after_injection ns (os.inject_netstack pid ns w.host) in
      let runtime = record w.container.runtime { netstack = r.0 } in
      (ok tt, record w { container = record w.container { runtime = runtime }; host = r.1 })

  abbrev pub with_child : ℕ → Option ℕ → Op W (Unit {0})
  with_child job ns = do
    set_config (λ c. record c { env = insert_all (env_of_netstack ns) c.env })
    c ← get_container
    let cmd = join (codes " ") c.config.command
    pid ← holding (λ h. drop_job job (drop_netstack ns h)) (os.spawn_sandboxed cmd c.config job)
    try_inject_netstack pid ns
    perform (os.inject_procshim pid c.config.rootfs_path)
    set_runtime (λ r. record r { job = some job })

  abbrev pub with_job : ℕ → Op W (Unit {0})
  with_job job = do ns ← try_start_netstack; with_child job ns

  abbrev pub start_job : Bool → Op W (Unit {0})
  start_job has_filter = do
    c ← get_container
    job ← call os.job_new
    holding (drop_job job) (os.enable_kill_on_close job)
    holding (drop_job job) (os.apply_limits job c.config.resources)
    links ← holding (drop_job job) (setup_bind_links os has_filter c.config.volumes)
    keep_links links
    with_job job

  unfoldable pub prepared : Bool × Bool → Op W (Unit {0})
  unfolding publish_ports
  prepared caps = do
    publish_ports os
    c ← get_container
    if c.config.silo && caps.0 then start_silo caps.1 else start_job caps.1

  unfoldable pub begun : Op W (Unit {0})
  unfolding write_state
  begun = do set_state ContainerState.running; write_state

  unfoldable pub start : Op W (Unit {0})
  unfolding prepared begun
  start w =
      if is_created w.container.state
      then (prepared (os.capabilities w.host) >> begun) w
      else fail
          (PsrootError.invalid_state w.container.id (state_name w.container.state)
            (codes "created"))
          w
