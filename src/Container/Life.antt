-- ===== src/Container/Life.antt =====
-- The rest of a container's life: exec, the interactive shell, stop, remove, load and the drop of the
-- value (crates/psroot-container/src/container.rs, crates/psroot-rootfs-stager/src/lib.rs).
use psroot.Prelude.{
  ℕ, zero, suc, Bool, true, false, Option, none, some, List, [], ◌∷◌, ◌++◌, if◌then◌else◌,
}
use psroot.Text.{Text, codes, text_eq}
use psroot.Shell.{AceGrant, LaunchPlan}
use psroot.Container.{
  ContainerState, is_running, state_name, PsrootError, Result, ok, err, AceGrantRecord, StateFile,
  CacheManifest, ContainerConfig, Silo, Runtime, no_runtime, Container, Saved, saved, kept, torn,
  Os, World, Op, give, fail, call, perform, set_runtime, set_state, get_container, ◌>>=◌, ◌>>◌,
}
use psroot.Container.Links.{unlink}
use psroot.Container.Publish.{shutdown}
use psroot.Container.Start.{
  nothing_of, drop_job, drop_silo, drop_netstack, spawn, read_state, write_state,
}

abbrev pub contains : Text → List Text → Bool
contains t [] = false
contains t (u ∷ us) = if text_eq t u then true else contains t us

abbrev pub record_of : Text → AceGrant → AceGrantRecord
record_of sid ace = record { path = ace.path; sid = sid; mask = codes "RX"; inherit = ace.inherit }

abbrev pub records_of : Text → List AceGrant → List AceGrantRecord
records_of sid [] = []
records_of sid (ace ∷ aces) = record_of sid ace ∷ records_of sid aces

-- state.json with a plan's grants and its cache.
unfoldable pub with_plan : LaunchPlan → Text → StateFile → StateFile
with_plan plan sid sf = record sf {
  ace_grants_applied = sf.ace_grants_applied ++ records_of sid plan.aces;
  cache_refs =
      if contains plan.cache_dir sf.cache_refs
      then sf.cache_refs
      else sf.cache_refs ++ plan.cache_dir ∷ [];
}

-- A running container that is loaded again has no processes.
abbrev pub loaded_state : ContainerState → ContainerState
loaded_state s = if is_running s then ContainerState.stopped else s

abbrev pub loaded : Text → Option ContainerConfig → Option StateFile → Result Container
loaded id none sf = err PsrootError.io
loaded id (some config) none = err PsrootError.io
loaded id (some config) (some sf) = ok (record {
  id = id;
  config = config;
  state = loaded_state sf.status;
  created_at = sf.created;
  runtime = no_runtime;
})

-- Whether the directory exists, and its two files when they can be read.
unfoldable pub load : Text → Bool → Option ContainerConfig → Option StateFile → Result Container
load id exists config sf = if exists then loaded id config sf else err (PsrootError.not_found id)

module _ {W : Type 0} (os : Os W) where
  abbrev pub exec_silo : Text → ContainerConfig → Silo → Op W ℕ
  exec_silo cmd config silo = do
    p ← call (spawn os silo cmd (nothing_of config.env) config.working_directory)
    set_runtime (λ r. record r { silo = some p.1 })
    give p.0

  abbrev pub exec_in : Text → ContainerConfig → Option Silo → Option ℕ → Op W ℕ
  exec_in cmd config (some silo) job = exec_silo cmd config silo
  exec_in cmd config none (some job) = call (os.spawn_sandboxed cmd config job)
  exec_in cmd config none none = fail (PsrootError.other (codes "No runtime available"))

  abbrev pub not_running : Container → Text → PsrootError
  not_running c expected = PsrootError.invalid_state c.id (state_name c.state) expected

  unfoldable pub exec : Text → Op W ℕ
  exec cmd = do
    c ← get_container
    if is_running c.state
        then exec_in cmd c.config c.runtime.silo c.runtime.job
        else fail (not_running c (codes "running"))

  -- The result of this write is ignored.
  abbrev pub rewritten : StateFile → World W → Saved W → World W
  rewritten sf w (saved h) = record w { state_json = some sf; host = h }
  rewritten sf w (kept e h) = record w { host = h }
  rewritten sf w (torn e h) = record w { state_json = none; host = h }

  abbrev pub recorded : LaunchPlan → Text → Option StateFile → World W → World W
  unfolding with_plan
  recorded plan sid none w = w
  recorded plan sid (some sf) w =
      let sf' = with_plan plan sid sf in rewritten sf' w (os.save sf' w.host)

  unfoldable pub shell_with_plan : LaunchPlan → Bool → Op W ℕ
  unfolding with_plan
  shell_with_plan plan use_silo = do
    c ← get_container
    r ← call (os.spawn_interactive_plan use_silo plan c.config)
    λ w. (ok r.1, recorded plan r.0 (read_state os w) w)

  abbrev pub end_silo : Option Silo → W → W
  end_silo none h = h
  end_silo (some silo) h = drop_silo os silo h

  abbrev pub end_job : Option ℕ → W → W
  end_job none h = h
  end_job (some job) h = drop_job os job (os.job_terminate job 0 h)

  -- Each part of the runtime is taken out of it and ended, one after the other.
  abbrev pub take_silo : Op W (Unit {0})
  take_silo = do
    c ← get_container
    set_runtime (λ r. record r { silo = none })
    perform (end_silo c.runtime.silo)

  abbrev pub take_job : Op W (Unit {0})
  take_job = do
    c ← get_container
    set_runtime (λ r. record r { job = none })
    perform (end_job c.runtime.job)

  abbrev pub take_links : Op W (Unit {0})
  take_links = do
    c ← get_container
    set_runtime (λ r. record r { bind_filter = none })
    perform (unlink os c.runtime.bind_filter)

  abbrev pub take_mapper : Op W (Unit {0})
  take_mapper = do
    c ← get_container
    set_runtime (λ r. record r { port_mapper = none })
    perform (shutdown os c.runtime.port_mapper)

  abbrev pub take_netstack : Op W (Unit {0})
  take_netstack = do
    c ← get_container
    set_runtime (λ r. record r { netstack = none })
    perform (drop_netstack os c.runtime.netstack)

  abbrev pub stop_running : Op W (Unit {0})
  unfolding write_state
  stop_running = do
    take_silo
    take_job
    take_links
    take_mapper
    take_netstack
    set_state ContainerState.stopped
    write_state os

  unfoldable pub stop : Op W (Unit {0})
  unfolding write_state
  stop = do c ← get_container; if is_running c.state then stop_running else give tt

  -- A grant of a path that is gone needs no revocation.
  abbrev pub revoke_ace_record : AceGrantRecord → W → W
  revoke_ace_record rec h =
      if os.path_exists rec.path h then os.icacls_remove rec.path rec.sid h else h

  abbrev pub retain_others : Text → List Text → List Text
  retain_others id [] = []
  retain_others id (c ∷ cs) = if text_eq c id then retain_others id cs else c ∷ retain_others id cs

  abbrev pub unreferenced : Text → Text → Option CacheManifest → W → W
  unreferenced dir id none h = h
  unreferenced dir id (some m) h =
      os.save_manifest dir (record m { referenced_by = retain_others id m.referenced_by }) h

  abbrev pub unreference_cache : Text → Text → W → W
  unreference_cache dir id h = unreferenced dir id (os.load_manifest dir h) h

  abbrev pub revoke_all : List AceGrantRecord → W → W
  revoke_all [] h = h
  revoke_all (rec ∷ recs) h = revoke_all recs (revoke_ace_record rec h)

  abbrev pub unreference_all : Text → List Text → W → W
  unreference_all id [] h = h
  unreference_all id (dir ∷ dirs) h = unreference_all id dirs (unreference_cache dir id h)

  abbrev pub forgotten : Text → Option StateFile → W → W
  forgotten id none h = h
  forgotten id (some sf) h = unreference_all id sf.cache_refs (revoke_all sf.ace_grants_applied h)

  abbrev pub removal : World W → Saved W → Result (Unit {0}) × World W
  removal w (saved h) = (ok tt, record w { state_json = none; host = h })
  removal w (kept e h) = (err e, record w { host = h })
  removal w (torn e h) = (err e, record w { state_json = none; host = h })

  abbrev pub or_again : Op W (Unit {0}) → Result (Unit {0}) × World W → Result (Unit {0}) × World W
  or_again next (ok u, w) = (ok u, w)
  or_again next (err e, w) = next w

  -- The removal of the directory is tried again as often as the number says.
  abbrev pub remove_dir : ℕ → Op W (Unit {0})
  remove_dir zero w = removal w (os.remove_dir_all w.host)
  remove_dir (suc left) w = or_again (remove_dir left) (removal w (os.remove_dir_all w.host))

  abbrev pub forget : Op W (Unit {0})
  forget w = (ok tt, record w { host = forgotten w.container.id (read_state os w) w.host })

  abbrev pub remove_tree : Op W (Unit {0})
  remove_tree w = if os.dir_exists w.host then remove_dir 2 w else (ok tt, w)

  abbrev pub before_removal : Bool → Op W (Unit {0})
  unfolding stop
  before_removal force = do
    c ← get_container
    if is_running c.state
        then if force then stop else fail (not_running c (codes "stopped or created"))
        else give tt

  abbrev pub close_job : Option ℕ → W → W
  close_job none h = h
  close_job (some job) h = drop_job os job h

  -- What becomes of the fields of a container that is dropped.
  abbrev pub dropped : Runtime → W → W
  dropped r h =
      drop_netstack os r.netstack
        (shutdown os r.port_mapper (unlink os r.bind_filter (end_silo r.silo (close_job r.job h))))

  unfoldable pub drop_fields : World W → World W
  drop_fields w = record w {
    container = record w.container { runtime = no_runtime };
    host = dropped w.container.runtime w.host;
  }

  unfoldable pub drop_container : World W → World W
  unfolding stop drop_fields
  drop_container w = if is_running w.container.state then drop_fields (stop w).1 else drop_fields w

  -- `remove` takes the container itself, which is dropped at its end, whatever the result is.
  unfoldable pub remove : Bool → World W → Result (Unit {0}) × World W
  unfolding drop_container stop
  remove force w =
      let r = (do before_removal force; forget; remove_tree) w in (r.0, drop_container r.1)
