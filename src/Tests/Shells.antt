-- ===== src/Tests/Shells.antt =====
-- A catalog of two shells and a request (crates/psroot-shell-resolver/src).
use psroot.Prelude.{◌≡◌, ◌↔◌, refl, true, false, none, some, List, [], ◌∷◌, arith}
use psroot.Text.{Text, codes}
use psroot.Shell.{ok, CatalogFile, KnownCapability, LaunchPlan}
use psroot.Shell.Version
use psroot.Shell.Version.{Op, VersionReq, cmp_versions, is_lt, is_gt, matches_parts}
use psroot.Shell.Order.{Admits, tilde_iff}
use psroot.Shell.Substitute.{Vars}
use psroot.Shell.Template.{Template}
use psroot.Shell.Catalog.{empty_catalog, add, lookup}
use psroot.Shell.Entries.{Added, empty_catalog-IsValid, add-Added, add_takes_over}
use psroot.Shell.Resolve.{
  ShellRequest, NetworkAccess, ResolveContext, HostShell, Machine, build_vars, launch_plan, resolve,
}
use psroot.Shell.Plans.{Resolved, resolve-Resolved}

ge_works :
    (Version.matches (record { raw = []; op = Op.ge_op; target = 7 ∷ 4 ∷ [] }) (codes "7.3.99")
      ≡ false)
unfolding Version.matches
ge_works = refl

tilde_iff_example :
    (matches_parts Op.tilde (7 ∷ 5 ∷ []) (7 ∷ 5 ∷ 99 ∷ []) ≡ true)
    ↔ Admits (7 ∷ 5 ∷ []) (7 ∷ 5 ∷ 99 ∷ [])
tilde_iff_example = tilde_iff (7 ∷ 5 ∷ []) (7 ∷ 5 ∷ 99 ∷ []) (omega arith)

abbrev vars : Vars
vars = (codes "rootfs", codes "C:\\{r}") ∷ []

abbrev template : Template
template = record {
  pieces = record { plain = codes "in "; key = codes "rootfs" } ∷ [];
  last = codes "!";
}

abbrev shell : Text → List Text → CatalogFile
shell name aliases = record {
  name = name;
  aliases = aliases;
  stage = [];
  ace = [];
  launch = record {
    entry = codes "{shell_root}\\sh.exe";
    args = codes "-i" ∷ [];
    cwd = codes "C:\\";
    env = [];
  };
  caps_when_outbound = codes "internetClient" ∷ [];
  caps_when_full = [];
  min_version = some (some (codes "1.0"));
}

abbrev powershell : CatalogFile
powershell = shell (codes "PowerShell") (codes "ps" ∷ [])

add-Added_example : Added powershell empty_catalog (add powershell empty_catalog)
add-Added_example = add-Added powershell empty_catalog empty_catalog-IsValid

add_takes_over_example :
    lookup (codes "powershell") (add (shell (codes "PS") []) (add powershell empty_catalog))
    ≡ some (shell (codes "PS") [])
add_takes_over_example =
    add_takes_over (shell (codes "PS") []) (add powershell empty_catalog)
      ((add-Added powershell empty_catalog empty_catalog-IsValid).valid) 0 (codes "powershell")
      (unfold add in refl) (unfold add in refl)

abbrev host : HostShell
host = record { root = codes "D:\\sh"; version = codes "1.2" }

abbrev machine : Machine
machine = record {
  find = λ e. some (some host);
  builtin_module = λ k. none;
  system_root = none;
  program_files = none;
}

abbrev request : ShellRequest
request = record { name = codes "PS"; version = none; args = codes "-c" ∷ []; env = [] }

abbrev ctx : ResolveContext
ctx = record {
  container_id = codes "c1";
  rootfs = codes "C:\\r";
  network = NetworkAccess.outbound;
  cache_root = codes "C:\\cache";
}

abbrev plan : LaunchPlan
plan =
    launch_plan ctx request powershell host [] [] (codes "D:\\sh\\sh.exe") (codes "C:\\")
      (codes "-i" ∷ []) [] (KnownCapability.internet_client ∷ [])

planned : resolve (add powershell empty_catalog) machine request ctx ≡ ok plan
unfolding resolve add build_vars Version.matches Version.parse
planned = refl

resolve-Resolved_example : Resolved (add powershell empty_catalog) machine request ctx plan
resolve-Resolved_example =
    resolve-Resolved (add powershell empty_catalog) machine request ctx plan planned
