-- ===== src/Tests/Containers.antt =====
-- The life of a container on a host whose world is the list of its grants
-- (crates/psroot-container/src/container.rs).
use psroot.Prelude.{
  ◌≡◌, refl, ap, Bool, true, false, ◌&&◌, Bool-cases, inl, inr, none, some, List, [], ◌∷◌,
  if◌then◌else◌, All,
}
use psroot.Text.{Text, codes, text_eq}
use psroot.Text.Decimal.{show}
use psroot.PortMap.{env_for_mappings, port_variable, mapping, loopback}
use psroot.Shell.{AceGrant}
use psroot.Shell.Resolve.{NetworkAccess}
use psroot.Container.{
  ContainerState, is_running, PsrootError, ok, err, done, no_runtime, saved, torn, Injected, Os,
  World,
}
use psroot.Container.Links.{setup_bind_links}
use psroot.Container.Publish.{has_mapper, publish_ports, setup_port_mappings_for_shell}
use psroot.Container.Start.{start, prepared, begun, write_state, grants_of}
use psroot.Container.Life.{exec, stop, remove, forget, not_running}
use psroot.Container.Ends.{Ended, remove_refused_stops, stop_keeps_proxies}
use psroot.Container.Released.{Resource, Releases, Released, stop-stop}
use psroot.Container.Runs.{Call, step, run}
use psroot.Container.Started.{IsSound}
use psroot.Container.Sound.{run-IsSound}
use psroot.Container.Grants.{KeepsFile}
use psroot.Container.Revoked.{Revokes, IsRevoked, forget_revokes}

abbrev Grants : Type 0
Grants = List (Text × Text)

abbrev same_grant : Text → Text → Text → Text → Bool
same_grant p s q t = text_eq p q && text_eq s t

abbrev granted : Text → Text → Grants → Bool
granted p s [] = false
granted p s ((q, t) ∷ h) = if same_grant p s q t then true else granted p s h

abbrev take_back : Text → Text → Grants → Grants
take_back p s [] = []
take_back p s ((q, t) ∷ h) =
    if same_grant p s q t then take_back p s h else (q, t) ∷ take_back p s h

taken_back : (p s : Text) (h : Grants) → granted p s (take_back p s h) ≡ false
taken_back p s [] = refl
taken_back p s ((q, t) ∷ h) = elim (Bool-cases (same_grant p s q t)) [
  | inl e ↦ rw e (taken_back p s h)
  | inr e ↦ rw (e, e) (taken_back p s h)
]

kept_back :
    (p s q t : Text) (h : Grants) → granted p s h ≡ false → granted p s (take_back q t h) ≡ false
kept_back p s q t [] k = refl
kept_back p s q t ((u, v) ∷ h) k = elim (Bool-cases (same_grant p s u v)) [
  | inl e ↦ let clash : true ≡ false = rw e at k in cc
  | inr e ↦
      let rest = kept_back p s q t h (rw e at k) in
      elim (Bool-cases (same_grant q t u v)) [ inl d ↦ rw d rest | inr d ↦ rw (d, e) rest ]
]

abbrev sid : Text
sid = codes "S-1-15-2-7"

abbrev granted_to : List AceGrant → Grants → Grants
granted_to [] h = h
granted_to (ace ∷ aces) h = (ace.path, sid) ∷ granted_to aces h

-- A host on which every call succeeds, without silos.
abbrev quiet : Os Grants
quiet = record {
  capabilities = λ h. (false, false);
  readable = λ h. true;
  save = λ sf h. saved h;
  dir_exists = λ h. true;
  remove_dir_all = λ h. saved h;
  allocate_ephemeral = λ h. (done 54321, h);
  start_proxy = λ bind host port h. (done tt, h);
  stop_proxies = λ ms h. h;
  has_bind_apis = false;
  create_bind_link = λ v b flags h. (0, h);
  remove_bind_link = λ v h. h;
  silo_create = λ rootfs limits h. (err (PsrootError.system 50), h);
  create_in_silo = λ silo cmd env cwd h. (err (PsrootError.system 50), h);
  job_new = λ h. (ok 4, h);
  enable_kill_on_close = λ job h. (ok tt, h);
  apply_limits = λ job limits h. (ok tt, h);
  job_terminate = λ job code h. h;
  job_close = λ job h. h;
  spawn_sandboxed = λ cmd config job h. (ok 1234, h);
  start_netstack = λ id h. (none, h);
  child_env = λ ns. [];
  inject_netstack = λ pid ns h. (Injected.refused, h);
  stop_netstack = λ ns h. h;
  inject_procshim = λ pid rootfs h. h;
  spawn_interactive_plan = λ use_silo plan config h. (ok (sid, 0), granted_to plan.aces h);
  path_exists = λ p h. true;
  icacls_remove = λ p s h. take_back p s h;
  load_manifest = λ dir h. none;
  save_manifest = λ dir m h. h;
}

quiet-Revokes : Revokes quiet granted
quiet-Revokes = record {
  gone = λ p s h e. cc;
  taken = λ p s h. taken_back p s h;
  kept = λ p s q t h k. kept_back p s q t h k;
  unwritten = λ p s d m h k. k;
}

quiet-KeepsFile : KeepsFile quiet
quiet-KeepsFile = record { readable = λ h. refl; atomic = λ sf h h' e q. cc }

abbrev box : World Grants
box = record {
  container = record {
    id = codes "psroot-1";
    config = record {
      rootfs_path = codes "C:\\r";
      command = codes "cmd.exe" ∷ [];
      env = [];
      resources = [];
      volumes = [];
      working_directory = codes "C:\\";
      silo = true;
      network = NetworkAccess.full;
      ports = mapping loopback 8080 3000 ∷ [];
    };
    state = ContainerState.created;
    created_at = codes "1";
    runtime = no_runtime;
  };
  state_json = some (record {
    status = ContainerState.created;
    created = codes "1";
    pid = none;
    silo_id = none;
    ports = [];
    ace_grants_applied =
        record { path = codes "C:\\pw"; sid = sid; mask = codes "RX"; inherit = true } ∷ [];
    cache_refs = [];
  });
  host = (codes "C:\\pw", sid) ∷ [];
}

abbrev lived : World Grants
lived = run quiet (Call.start ∷ Call.exec (codes "dir") ∷ []) box

started : lived.container.state ≡ ContainerState.running
unfolding step start exec setup_port_mappings_for_shell publish_ports prepared begun write_state
    setup_bind_links
started = refl

published :
    lived.container.config.env
    ≡ (codes "PSROOT_PORT_3000", codes "54321")
      ∷ (codes "PORT", codes "54321")
      ∷ (codes "HOST", codes "127.0.0.1")
      ∷ []
unfolding step start exec setup_port_mappings_for_shell publish_ports prepared begun write_state
    setup_bind_links env_for_mappings port_variable show
published = refl

run-IsSound_example : IsSound lived
run-IsSound_example = run-IsSound quiet (Call.start ∷ Call.exec (codes "dir") ∷ []) box (λ e. cc)

forget_revokes_example :
    All
      (IsRevoked quiet granted quiet-Revokes
        (forget quiet (run quiet (Call.start ∷ Call.stop ∷ []) box)).1.host)
      (grants_of box.state_json)
forget_revokes_example =
    forget_revokes quiet granted quiet-Revokes quiet-KeepsFile (Call.start ∷ Call.stop ∷ []) box

-- A host that counts as alive, of each kind, everything or nothing.
abbrev Alive : Type 0
Alive = Bool × Bool × Bool × Bool

abbrev alive : Resource → Alive → Bool
alive (Resource.job j) (jobs, links, proxies, netstacks) = jobs
alive (Resource.link v) (jobs, links, proxies, netstacks) = links
alive (Resource.proxies ms) (jobs, links, proxies, netstacks) = proxies
alive (Resource.netstack n) (jobs, links, proxies, netstacks) = netstacks

abbrev lively : Os Alive
lively = record {
  capabilities = λ h. (false, true);
  readable = λ h. true;
  save = λ sf h. torn PsrootError.io h;
  dir_exists = λ h. true;
  remove_dir_all = λ h. saved h;
  allocate_ephemeral = λ h. (done 54321, h);
  start_proxy = λ bind host port h. (done tt, (h.0, h.1, true, h.3));
  stop_proxies = λ ms h. (h.0, h.1, false, h.3);
  has_bind_apis = true;
  create_bind_link = λ v b flags h. (0, (h.0, true, h.2, h.3));
  remove_bind_link = λ v h. (h.0, false, h.2, h.3);
  silo_create = λ rootfs limits h. (err (PsrootError.system 50), h);
  create_in_silo = λ silo cmd env cwd h. (err (PsrootError.system 50), h);
  job_new = λ h. (ok 4, (true, h.1, h.2, h.3));
  enable_kill_on_close = λ job h. (ok tt, h);
  apply_limits = λ job limits h. (ok tt, h);
  job_terminate = λ job code h. h;
  job_close = λ job h. (false, h.1, h.2, h.3);
  spawn_sandboxed = λ cmd config job h. (ok 1234, h);
  start_netstack = λ id h. (none, h);
  child_env = λ ns. [];
  inject_netstack = λ pid ns h. (Injected.refused, h);
  stop_netstack = λ ns h. (h.0, h.1, h.2, false);
  inject_procshim = λ pid rootfs h. h;
  spawn_interactive_plan = λ use_silo plan config h. (ok (sid, 0), h);
  path_exists = λ p h. true;
  icacls_remove = λ p s h. h;
  load_manifest = λ dir h. none;
  save_manifest = λ dir m h. h;
}

job_close_keeps :
    (r : Resource) (h : Alive) → alive r h ≡ false → alive r (false, h.1, h.2, h.3) ≡ false
job_close_keeps (Resource.job j) h e = refl
job_close_keeps (Resource.link v) h e = e
job_close_keeps (Resource.proxies ms) h e = e
job_close_keeps (Resource.netstack n) h e = e

netstack_keeps :
    (r : Resource) (h : Alive) → alive r h ≡ false → alive r (h.0, h.1, h.2, false) ≡ false
netstack_keeps (Resource.job j) h e = e
netstack_keeps (Resource.link v) h e = e
netstack_keeps (Resource.proxies ms) h e = e
netstack_keeps (Resource.netstack n) h e = refl

link_keeps : (r : Resource) (h : Alive) → alive r h ≡ false → alive r (h.0, false, h.2, h.3) ≡ false
link_keeps (Resource.job j) h e = e
link_keeps (Resource.link v) h e = refl
link_keeps (Resource.proxies ms) h e = e
link_keeps (Resource.netstack n) h e = e

proxies_keep :
    (r : Resource) (h : Alive) → alive r h ≡ false → alive r (h.0, h.1, false, h.3) ≡ false
proxies_keep (Resource.job j) h e = e
proxies_keep (Resource.link v) h e = e
proxies_keep (Resource.proxies ms) h e = refl
proxies_keep (Resource.netstack n) h e = e

lively-Releases : Releases lively alive
lively-Releases = record {
  job_ends = λ j h. refl;
  netstack_ends = λ n h. refl;
  link_ends = λ v h. refl;
  proxies_end = λ ms h. refl;
  no_links = λ e v h. cc;
  job_close_keeps = λ r j h e. job_close_keeps r h e;
  job_terminate_keeps = λ r j c h e. e;
  netstack_keeps = λ r n h e. netstack_keeps r h e;
  link_keeps = λ r v h e. link_keeps r h e;
  proxies_keep = λ r ms h e. proxies_keep r h e;
  save_keeps = λ r sf h e. e;
}

-- A running container with a job, two links and its proxies.
abbrev held : World Alive
held = record {
  container = record box.container {
    state = ContainerState.running;
    runtime = record no_runtime {
      job = some 4;
      bind_filter = some ((codes "C:\\a", codes "D:\\a") ∷ (codes "C:\\b", codes "D:\\b") ∷ []);
      port_mapper = some (mapping loopback 8080 3000 ∷ []);
    };
  };
  state_json = box.state_json;
  host = (true, true, true, false);
}

stop-stop_example :
    Released alive held.container.runtime (stop lively held).1.host
    × Ended lively (stop lively held).1
    × (stop lively (stop lively held).1 ≡ (ok tt, (stop lively held).1))
stop-stop_example = stop-stop lively alive lively-Releases held refl

remove_refused_stops_example :
    ((remove quiet false lived).0
      ≡ err (not_running quiet lived.container (codes "stopped or created")))
    × Ended quiet (remove quiet false lived).1
remove_refused_stops_example = remove_refused_stops quiet lived (ap is_running started)

setup_ok : (setup_port_mappings_for_shell quiet box).0 ≡ ok tt
unfolding setup_port_mappings_for_shell
setup_ok = refl

stop_keeps_proxies_example :
    (stop quiet (setup_port_mappings_for_shell quiet box).1
      ≡ (ok tt, (setup_port_mappings_for_shell quiet box).1))
    × (has_mapper
          (stop quiet (setup_port_mappings_for_shell quiet box).1).1.container.runtime.port_mapper
        ≡ true)
stop_keeps_proxies_example = stop_keeps_proxies quiet box refl refl setup_ok
