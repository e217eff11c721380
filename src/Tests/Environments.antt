-- ===== src/Tests/Environments.antt =====
-- A host with three variables that starts a child (crates/psroot-container/src/sandbox.rs).
use psroot.Prelude.{arith, ◌++◌, ◌≡◌, refl, Bool, true, false, none, some, [], ◌∷◌}
use psroot.Text.{Text, codes}
use psroot.Environment.{Environment, var, same_name}
use psroot.Environment.Sandbox.{
  ContainerConfig, has_name, sanitized_vars, leaks, apply_sandbox_env, restore_env, or_empty,
  sandbox_vars, apply_sandbox_env_with_plan,
}
use psroot.Environment.Hidden.{IsClean, apply_sandbox_env_shows}
use psroot.Environment.Lookup.{Distinct}
use psroot.Environment.Restore.{restore_env-apply_sandbox_env, psmodulepath_lost}
use psroot.Environment.Prepend.{path_prepend_lost}

abbrev host_env : Environment
host_env =
    (codes "Path", codes "C:\\Windows")
    ∷ (codes "EDITOR", codes "vim")
    ∷ (codes "TOOLS", codes "C:\\Users\\me\\tools")
    ∷ []

abbrev config : ContainerConfig
config = record { rootfs_path = codes "C:\\r"; env = (codes "MODE", codes "dev") ∷ [] }

abbrev every_path : Text → Bool
every_path p = true

seen : var (codes "EDITOR") (apply_sandbox_env config every_path host_env).1 ≡ some (codes "vim")
unfolding apply_sandbox_env same_name leaks
seen = refl

tools_hidden : var (codes "TOOLS") (apply_sandbox_env config every_path host_env).1 ≡ none
unfolding apply_sandbox_env same_name leaks
tools_hidden = refl

not_own : has_name (codes "EDITOR") (codes "MODE" ∷ []) ≡ false
unfolding same_name
not_own = refl

apply_sandbox_env_shows_example :
    (var (codes "EDITOR") host_env ≡ some (codes "vim"))
    × (has_name (codes "EDITOR") sanitized_vars ≡ false)
    × IsClean (codes "C:\\r") (codes "vim")
apply_sandbox_env_shows_example =
    apply_sandbox_env_shows config every_path host_env (codes "EDITOR") (codes "vim")
      (omega arith, (omega arith, (omega arith, (omega arith, tt))))
      (omega arith, (omega arith, (omega arith, tt))) not_own
      (unfold same_name sandbox_vars in refl) seen

host_env-Distinct : Distinct host_env
unfolding same_name
host_env-Distinct = (refl, (refl, (refl, tt)))

restore_env-apply_sandbox_env_example :
    var (codes "TOOLS") (
      restore_env
        (apply_sandbox_env config every_path host_env).0
        (apply_sandbox_env config every_path host_env).1)
    ≡ var (codes "TOOLS") host_env
restore_env-apply_sandbox_env_example =
    restore_env-apply_sandbox_env config every_path host_env (codes "TOOLS")
      (unfold same_name in refl) (unfold same_name sanitized_vars in refl) host_env-Distinct

psmodulepath_lost_example :
    var (codes "PSModulePath") (
      restore_env
        (apply_sandbox_env config every_path host_env).0
        (apply_sandbox_env config every_path host_env).1)
    ≡ none
psmodulepath_lost_example = psmodulepath_lost config every_path host_env

-- A user's path beside one of the root file system is shown.
beside_root : leaks (codes "C:\\r") (codes "C:\\Users\\me\\x;C:\\r\\bin") ≡ false
unfolding leaks
beside_root = refl

abbrev pwsh_env : Environment
pwsh_env = (codes "PATHEXT_APPEND", codes ".PS1") ∷ (codes "PSModulePath", codes "M:") ∷ []

path_prepend_lost_example :
    var (codes "PATH") (
      restore_env
        (apply_sandbox_env_with_plan config every_path
          (pwsh_env ++ (codes "PATH_PREPEND", codes "D:") ∷ [])
          host_env).0
        (apply_sandbox_env_with_plan config every_path
          (pwsh_env ++ (codes "PATH_PREPEND", codes "D:") ∷ [])
          host_env).1)
    ≡ some (or_empty (var (codes "PATH") (apply_sandbox_env config every_path host_env).1))
path_prepend_lost_example =
    path_prepend_lost config every_path pwsh_env [] (codes "D:") host_env
      (unfold same_name in (refl, (refl, tt))) tt
