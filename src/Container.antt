-- ===== src/Container.antt =====
-- A container's record and the world its operations run in (crates/psroot-container/src/container.rs,
-- crates/psroot-types/src/). The job, the silo, the proxies' listeners and the shims belong to the
-- operating system and are a parameter; a handle is a number.
use psroot.Prelude.{
  ℕ, ◌≡◌, Bool, true, false, Option, none, some, List, [], ◌∷◌, ◌++◌, ◌==◌, if◌then◌else◌,
}
use psroot.Text.{Text, codes}
use psroot.PortMap.{PortMapping}
use psroot.Shell.{LaunchPlan}
use psroot.Shell.Resolve.{NetworkAccess}
pub mod Links
pub mod Publish
pub mod Start
pub mod Life
pub mod Records
pub mod Runs
pub mod Started
pub mod Sound
pub mod Grants
pub mod Ends
pub mod Revoked
pub mod Released

pub data ContainerState : Type 0 where
  created running stopped removed : ContainerState

abbrev pub is_running : ContainerState → Bool
is_running ContainerState.running = true
is_running _ = false

abbrev pub is_created : ContainerState → Bool
is_created ContainerState.created = true
is_created _ = false

unfoldable pub state_name : ContainerState → Text
state_name ContainerState.created = codes "created"
state_name ContainerState.running = codes "running"
state_name ContainerState.stopped = codes "stopped"
state_name ContainerState.removed = codes "removed"

pub data PsrootError : Type 0 where
  h_result : Text → ℕ → PsrootError
  invalid_state : Text → Text → Text → PsrootError
  not_found : Text → PsrootError
  unsupported : Text → PsrootError
  -- An I/O or a serialization error.
  io : PsrootError
  -- Of a system call, with its code.
  system : ℕ → PsrootError
  other : Text → PsrootError

pub data Result (A : Type 0) : Type 0 where
  ok : A → Result A
  err : PsrootError → Result A

-- The result of an I/O call; an error is its text.
pub data Io (A : Type 0) : Type 0 where
  done : A → Io A
  failed : Text → Io A

pub record VolumeMount : Type 0 where
  pub host_path : Text
  pub container_path : Text
  pub read_only : Bool

-- The manifest of a cache directory of the stager.
pub record CacheManifest : Type 0 where
  pub shell_name : Text
  pub host_source_version : Text
  pub cache_key : Text
  pub created_at : Text
  pub stage_ops : ℕ
  pub granted_ac_sids : List Text
  pub referenced_by : List Text

-- What the operations here use of `ContainerConfig`; `resources` is handed on to the job.
pub record ContainerConfig : Type 0 where
  pub rootfs_path : Text
  pub command : List Text
  pub env : List (Text × Text)
  pub resources : List ℕ
  pub volumes : List VolumeMount
  pub working_directory : Text
  pub silo : Bool
  pub network : NetworkAccess
  pub ports : List PortMapping

pub record AceGrantRecord : Type 0 where
  pub path : Text
  pub sid : Text
  pub mask : Text
  pub inherit : Bool

pub record StateFile : Type 0 where
  pub status : ContainerState
  pub created : Text
  pub pid : Option ℕ
  pub silo_id : Option ℕ
  pub ports : List PortMapping
  pub ace_grants_applied : List AceGrantRecord
  pub cache_refs : List Text

pub record Silo : Type 0 where
  pub handle : ℕ
  pub silo_id : ℕ
  pub init_pid : Option ℕ

-- `job` is the handle of a job; `bind_filter` lists the links, `port_mapper` the mappings with a proxy.
pub record Runtime : Type 0 where
  pub job : Option ℕ
  pub silo : Option Silo
  pub bind_filter : Option (List (Text × Text))
  pub port_mapper : Option (List PortMapping)
  pub netstack : Option ℕ

abbrev pub no_runtime : Runtime
no_runtime = record {
  job = none;
  silo = none;
  bind_filter = none;
  port_mapper = none;
  netstack = none;
}

pub record Container : Type 0 where
  pub id : Text
  pub config : ContainerConfig
  pub state : ContainerState
  pub created_at : Text
  pub runtime : Runtime

-- How a write of state.json ends, or the removal of the directory that holds it: a call that fails
-- may leave the file as it was, or unreadable.
pub data Saved (W : Type 0) : Type 0 where
  saved : W → Saved W
  kept torn : PsrootError → W → Saved W

-- What injecting the network shim into a process comes to.
pub data Injected : Type 0 where
  not_opened injected refused : Injected

-- The calls of the operating system.
pub record Os (W : Type 0) : Type 0 where
  -- Whether there are server silos, and whether there is the bind filter.
  pub capabilities : W → Bool × Bool
  -- Whether a read of state.json succeeds, when there is one.
  pub readable : W → Bool
  pub save : StateFile → W → Saved W
  pub dir_exists : W → Bool
  pub remove_dir_all : W → Saved W
  pub allocate_ephemeral : W → Io ℕ × W
  -- Starts the proxy from a host address and port to a loopback port.
  pub start_proxy : Text → ℕ → ℕ → W → Io (Unit {0}) × W
  pub stop_proxies : List PortMapping → W → W
  pub has_bind_apis : Bool
  -- The HRESULT of a call of the bind filter.
  pub create_bind_link : Text → Text → ℕ → W → ℕ × W
  pub remove_bind_link : Text → W → W
  pub silo_create : Text → List ℕ → W → Result Silo × W
  -- The pid of the process that is started in the silo.
  pub create_in_silo : ℕ → Text → Option (List (Text × Text)) → Text → W → Result ℕ × W
  pub job_new : W → Result ℕ × W
  pub enable_kill_on_close : ℕ → W → Result (Unit {0}) × W
  pub apply_limits : ℕ → List ℕ → W → Result (Unit {0}) × W
  pub job_terminate : ℕ → ℕ → W → W
  pub job_close : ℕ → W → W
  pub spawn_sandboxed : Text → ContainerConfig → ℕ → W → Result ℕ × W
  pub start_netstack : Text → W → Option ℕ × W
  pub child_env : ℕ → List (Text × Text)
  pub inject_netstack : ℕ → ℕ → W → Injected × W
  pub stop_netstack : ℕ → W → W
  pub inject_procshim : ℕ → Text → W → W
  -- Whether the silo is used; the SID of the grants and the exit code.
  pub spawn_interactive_plan : Bool → LaunchPlan → ContainerConfig → W → Result (Text × ℕ) × W
  pub path_exists : Text → W → Bool
  -- `icacls /remove` for a path and a SID.
  pub icacls_remove : Text → Text → W → W
  pub load_manifest : Text → W → Option CacheManifest
  pub save_manifest : Text → CacheManifest → W → W

-- A container and its surroundings: `state.json` of its directory, when there is one that can be parsed,
-- and the host.
pub record World (W : Type 0) : Type 0 where
  pub container : Container
  pub state_json : Option StateFile
  pub host : W

-- An operation on the container, which may fail and leaves what it has done so far.
abbrev pub Op : Type 0 → Type 0 → Type 0
Op W A = World W → Result A × World W

module _ {W : Type 0} where
  abbrev pub after : {A B : Type 0} → Result A × World W → (A → Op W B) → Result B × World W
  after (ok a, w) f = f a w
  after (err e, w) f = (err e, w)

  abbrev pub give : {A : Type 0} → A → Op W A
  give a w = (ok a, w)

  abbrev pub fail : {A : Type 0} → PsrootError → Op W A
  fail e w = (err e, w)

  -- A call of the system, and one without a result.
  abbrev pub call : {A : Type 0} → (W → Result A × W) → Op W A
  call f w = let r = f w.host in (r.0, record w { host = r.1 })

  abbrev pub perform : (W → W) → Op W (Unit {0})
  perform f w = (ok tt, record w { host = f w.host })

  abbrev pub set_runtime : (Runtime → Runtime) → Op W (Unit {0})
  set_runtime f w =
      (ok tt, record w { container = record w.container { runtime = f w.container.runtime } })

  abbrev pub set_config : (ContainerConfig → ContainerConfig) → Op W (Unit {0})
  set_config f w =
      (ok tt, record w { container = record w.container { config = f w.container.config } })

  abbrev pub set_state : ContainerState → Op W (Unit {0})
  set_state s w = (ok tt, record w { container = record w.container { state = s } })

  abbrev pub get_container : Op W Container
  get_container w = (ok w.container, w)

infixl 5 ◌>>=◌
abbrev pub ◌>>=◌ : {W A B : Type 0} → Op W A → (A → Op W B) → Op W B
(m >>= f) w = after (m w) f

infixl 5 ◌>>◌
abbrev pub ◌>>◌ : {W A B : Type 0} → Op W A → Op W B → Op W B
(m >> n) w = after (m w) (λ a. n)
