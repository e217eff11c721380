-- ===== src/Shell/Resolve.antt =====
-- From a request to a launch plan (crates/psroot-shell-resolver/src/resolve.rs). The probe of the host,
-- the embedded modules and the two variables of the environment are parameters.
use psroot.Prelude.{◌||◌, Option, none, some, List, [], ◌∷◌, ◌++◌, if◌then◌else◌}
use psroot.Text.{Text, codes, text_eq}
use psroot.Shell.{
  ShellResolverError, Result, ok, err, ◌>>=◌, ok_or, map_ok, AceRule, CatalogFile, KnownCapability,
  from_name, AceGrant, StageOp, LaunchPlan,
}
use psroot.Shell.Version
use psroot.Shell.Version.{VersionReq}
use psroot.Shell.Catalog.{Catalog, lookup}
use psroot.Shell.Substitute.{Vars, substitute, substitute_stage}

pub record ShellRequest : Type 0 where
  pub name : Text
  pub version : Option VersionReq
  pub args : List Text
  pub env : List (Text × Text)

pub data NetworkAccess : Type 0 where
  no_network outbound full netstack : NetworkAccess

pub record ResolveContext : Type 0 where
  pub container_id : Text
  pub rootfs : Text
  pub network : NetworkAccess
  pub cache_root : Text

pub record HostShell : Type 0 where
  pub root : Text
  pub version : Text

-- What resolve uses of the machine it runs on. `find` is none when an I/O error stops the probe.
pub record Machine : Type 0 where
  pub find : CatalogFile → Option (Option HostShell)
  pub builtin_module : Text → Option Text
  pub system_root : Option Text
  pub program_files : Option Text

abbrev pub found : CatalogFile → Option (Option HostShell) → Result HostShell
found entry none = err ShellResolverError.io
found entry (some none) = err (ShellResolverError.shell_not_installed entry.name)
found entry (some (some host)) = ok host

abbrev pub check_requested : CatalogFile → HostShell → Option VersionReq → Result (Unit {0})
check_requested entry host none = ok tt
check_requested entry host (some req) =
    if Version.matches req host.version
    then ok tt
    else err (ShellResolverError.version_mismatch entry.name req.raw host.version)

abbrev pub check_parsed : CatalogFile → HostShell → Text → Option VersionReq → Result (Unit {0})
check_parsed entry host min none = ok tt
check_parsed entry host min (some req) =
    if Version.matches req host.version
    then ok tt
    else err (ShellResolverError.version_mismatch entry.name (codes ">=" ++ min) host.version)

abbrev pub check_min : CatalogFile → HostShell → Option (Option Text) → Result (Unit {0})
check_min entry host none = ok tt
check_min entry host (some none) = ok tt
check_min entry host (some (some min)) =
    check_parsed entry host min (Version.parse (codes ">=" ++ min))

-- `Path::join` of a relative name.
abbrev pub join_path : Text → Text → Text
join_path dir name = dir ++ (codes "\\" ++ name)

abbrev pub or_text : Text → Option Text → Text
or_text d none = d
or_text d (some v) = v

unfoldable pub build_vars : Machine → ResolveContext → HostShell → Text → Vars
build_vars machine ctx host cache_dir =
    (codes "rootfs", ctx.rootfs)
    ∷ (codes "shell_root", host.root)
    ∷ (codes "cache_dir", cache_dir)
    ∷ (codes "cache_root", ctx.cache_root)
    ∷ (codes "container_id", ctx.container_id)
    ∷ (codes "system_root", or_text (codes "C:\\Windows") machine.system_root)
    ∷ (codes "program_files", or_text (codes "C:\\Program Files") machine.program_files)
    ∷ []

unfoldable pub grant : Vars → AceRule → Result AceGrant
unfolding substitute
grant vars a = do
  path ← substitute a.path vars
  if text_eq a.access (codes "RX") || text_eq a.access (codes "rx")
      then ok (record { path = path; inherit = a.inherit })
      else err (ShellResolverError.placeholder_unknown (codes "access mask " ++ a.access))

unfoldable pub env_pair : Vars → Text × Text → Result (Text × Text)
unfolding substitute
env_pair vars (k, v) = do val ← substitute v vars; ok (k, val)

unfoldable pub cap_names : NetworkAccess → CatalogFile → List Text
cap_names NetworkAccess.no_network entry = []
cap_names NetworkAccess.netstack entry = []
cap_names NetworkAccess.outbound entry = entry.caps_when_outbound
cap_names NetworkAccess.full entry = entry.caps_when_full

unfoldable pub capability : Text → Text → Result KnownCapability
unfolding from_name
capability shell c = ok_or (ShellResolverError.invalid_capability c) (from_name c)

abbrev pub cache_key_of : CatalogFile → HostShell → Text
cache_key_of entry host = entry.name ++ (codes "-" ++ host.version)

abbrev pub vars_for : Machine → ResolveContext → CatalogFile → HostShell → Vars
unfolding build_vars
vars_for machine ctx entry host =
    build_vars machine ctx host (join_path ctx.cache_root (cache_key_of entry host))

-- The plan of the substituted parts.
abbrev pub launch_plan :
    ResolveContext
    → ShellRequest
    → CatalogFile
    → HostShell
    → List StageOp
    → List AceGrant
    → Text
    → Text
    → List Text
    → List (Text × Text)
    → List KnownCapability
    → LaunchPlan
launch_plan ctx req entry host stage aces launch_entry cwd args env caps = record {
  shell_name = entry.name;
  host_source_version = host.version;
  cache_key = cache_key_of entry host;
  cache_dir = join_path ctx.cache_root (cache_key_of entry host);
  entry = launch_entry;
  args = args ++ req.args;
  cwd = cwd;
  env = env ++ req.env;
  stage = stage;
  aces = aces;
  caps = caps;
}

-- The plan for a host shell that satisfies the constraints.
unfoldable pub plan_for :
    Machine → ResolveContext → ShellRequest → CatalogFile → HostShell → Result LaunchPlan
unfolding grant env_pair cap_names capability substitute substitute_stage
plan_for machine ctx req entry host = do
  let vars = vars_for machine ctx entry host
  stage ← map_ok (substitute_stage machine.builtin_module vars) entry.stage
  aces ← map_ok (grant vars) entry.ace
  launch_entry ← substitute entry.launch.entry vars
  cwd ← substitute entry.launch.cwd vars
  args ← map_ok (λ a. substitute a vars) entry.launch.args
  env ← map_ok (env_pair vars) entry.launch.env
  caps ← map_ok (capability entry.name) (cap_names ctx.network entry)
  ok (launch_plan ctx req entry host stage aces launch_entry cwd args env caps)

unfoldable pub resolve : Catalog → Machine → ShellRequest → ResolveContext → Result LaunchPlan
unfolding plan_for lookup
resolve catalog machine req ctx = do
  entry ← ok_or (ShellResolverError.unknown_shell req.name) (lookup req.name catalog)
  host ← found entry (machine.find entry)
  requested ← check_requested entry host req.version
  minimal ← check_min entry host entry.min_version
  plan_for machine ctx req entry host
