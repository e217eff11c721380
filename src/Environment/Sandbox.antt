-- ===== src/Environment/Sandbox.antt =====
-- The environment that the sandbox lends to a child and takes back: apply_sandbox_env, restore_env and
-- apply_sandbox_env_with_plan (crates/psroot-container/src/sandbox.rs). The pairs of a map are listed in
-- the order of its iteration.
use psroot.Prelude.{
  Bool, true, false, not, ◌&&◌, ◌||◌, Option, none, some, List, [], ◌∷◌, ◌++◌, if◌then◌else◌,
}
use psroot.Text.{Text, codes, text_eq, to_lower, contains, join}
use psroot.Environment.{Environment, same_name, var, remove_var, set_var}

-- What is restored later: a name with its value before, or none if it was not set.
abbrev pub Saved : Type 0
Saved = List (Text × Option Text)

pub record ContainerConfig : Type 0 where
  pub rootfs_path : Text
  pub env : Environment

unfoldable pub sanitized_vars : List Text
sanitized_vars =
    codes "PATH"
    ∷ codes "PATHEXT"
    ∷ codes "TEMP"
    ∷ codes "TMP"
    ∷ codes "USERPROFILE"
    ∷ codes "HOMEPATH"
    ∷ codes "HOMEDRIVE"
    ∷ codes "HOMEDIR"
    ∷ codes "APPDATA"
    ∷ codes "LOCALAPPDATA"
    ∷ codes "PROGRAMDATA"
    ∷ codes "USERNAME"
    ∷ codes "USERDOMAIN"
    ∷ codes "USERDOMAIN_ROAMINGPROFILE"
    ∷ codes "SystemRoot"
    ∷ codes "windir"
    ∷ codes "SystemDrive"
    ∷ codes "COMPUTERNAME"
    ∷ codes "LOGONSERVER"
    ∷ codes "PROCESSOR_ARCHITECTURE"
    ∷ codes "PROCESSOR_IDENTIFIER"
    ∷ codes "NUMBER_OF_PROCESSORS"
    ∷ codes "OS"
    ∷ codes "PROMPT"
    ∷ codes "TERM_PROGRAM"
    ∷ codes "TERM_PROGRAM_VERSION"
    ∷ codes "VSCODE_GIT_IPC_HANDLE"
    ∷ codes "VSCODE_GIT_ASKPASS_MAIN"
    ∷ codes "VSCODE_GIT_ASKPASS_NODE"
    ∷ codes "VSCODE_INJECTION"
    ∷ codes "GIT_ASKPASS"
    ∷ codes "ELECTRON_RUN_AS_NODE"
    ∷ codes "CHROME_CRASHPAD_PIPE_NAME"
    ∷ codes "PSModulePath"
    ∷ codes "PSMODULEPATH"
    ∷ codes "CARGO_HOME"
    ∷ codes "RUSTUP_HOME"
    ∷ codes "NVM_HOME"
    ∷ codes "NVM_SYMLINK"
    ∷ codes "GOPATH"
    ∷ codes "GOROOT"
    ∷ codes "JAVA_HOME"
    ∷ codes "PYTHONPATH"
    ∷ codes "PNPM_HOME"
    ∷ codes "npm_config_cache"
    ∷ codes "CONDA_PREFIX"
    ∷ []

-- Whether a name is among some names.
abbrev pub has_name : Text → List Text → Bool
has_name k [] = false
has_name k (n ∷ ns) = if same_name k n then true else has_name k ns

abbrev pub names : Environment → List Text
names [] = []
names ((k, v) ∷ env) = k ∷ names env

-- Phase 1: the listed variables are saved and removed, one after the other.
unfoldable pub strip : List Text → Environment → Saved × Environment
strip [] env = ([], env)
strip (n ∷ ns) env =
    let (saved, env') = strip ns (remove_var n env) in ((n, var n env) ∷ saved, env')

-- A value with a path of the host. The lower case is that of ASCII, where to_lowercase is Unicode's.
unfoldable pub leaks : Text → Text → Bool
leaks rootfs val =
    (contains (codes "\\users\\") (to_lower val) && not (contains (to_lower rootfs) (to_lower val)))
    || (contains (codes "\\appdata\\") (to_lower val)
        || contains (codes "program files") (to_lower val))

abbrev pub hidden : Text → Text → Text → Bool
hidden rootfs k v = not (has_name k sanitized_vars) && leaks rootfs v

-- The variables, as they were listed before, whose values leak are saved and removed.
unfoldable pub drop_leaks : Text → Environment → Environment → Saved × Environment
drop_leaks rootfs [] env = ([], env)
drop_leaks rootfs ((k, v) ∷ es) env =
    let (saved, env') =
      drop_leaks rootfs es (if hidden rootfs k v then remove_var k env else env) in
    (if hidden rootfs k v then (k, some v) ∷ saved else saved, env')

unfoldable pub set_all : Environment → Environment → Environment
set_all [] env = env
set_all ((k, v) ∷ vs) env = set_all vs (set_var k v env)

-- `exists` says whether a path exists.
abbrev pub path_dirs : Text → (Text → Bool) → List Text
path_dirs rootfs exists =
    (rootfs ++ codes "\\Windows\\System32")
    ∷ ((if exists (rootfs ++ codes "\\bin") then (rootfs ++ codes "\\bin") ∷ [] else [])
        ++ (if exists (rootfs ++ codes "\\nodejs") then (rootfs ++ codes "\\nodejs") ∷ [] else []))

unfoldable pub sandbox_vars : Text → (Text → Bool) → Environment
sandbox_vars rootfs exists =
    (codes "PATH", join (codes ";") (path_dirs rootfs exists))
    ∷ (codes "PATHEXT", codes ".COM;.EXE;.BAT;.CMD;.PS1")
    ∷ (codes "TEMP", rootfs ++ codes "\\Temp")
    ∷ (codes "TMP", rootfs ++ codes "\\Temp")
    ∷ (codes "USERPROFILE", rootfs ++ codes "\\Users\\ContainerUser")
    ∷ (codes "HOMEPATH", codes "\\Users\\ContainerUser")
    ∷ (codes "HOMEDRIVE", codes "C:")
    ∷ (codes "APPDATA", rootfs ++ codes "\\Users\\ContainerUser\\AppData\\Roaming")
    ∷ (codes "LOCALAPPDATA", rootfs ++ codes "\\Users\\ContainerUser\\AppData\\Local")
    ∷ (codes "SystemRoot", rootfs ++ codes "\\Windows")
    ∷ (codes "windir", rootfs ++ codes "\\Windows")
    ∷ (codes "SystemDrive", codes "C:")
    ∷ (codes "USERNAME", codes "ContainerUser")
    ∷ (codes "COMPUTERNAME", codes "PSROOT")
    ∷ (codes "OS", codes "Windows_NT")
    ∷ (codes "PROMPT", codes "psroot$G ")
    ∷ []

unfoldable pub apply_sandbox_env :
    ContainerConfig → (Text → Bool) → Environment → Saved × Environment
unfolding strip drop_leaks set_all sandbox_vars sanitized_vars
apply_sandbox_env config exists env =
    let (saved, env1) = strip sanitized_vars env in
    let (leaked, env2) = drop_leaks config.rootfs_path env1 env1 in
    (saved ++ leaked, set_all config.env (set_all (sandbox_vars config.rootfs_path exists) env2))

unfoldable pub sandbox_keys : List Text
sandbox_keys =
    codes "PATH"
    ∷ codes "PATHEXT"
    ∷ codes "TEMP"
    ∷ codes "TMP"
    ∷ codes "USERPROFILE"
    ∷ codes "HOMEPATH"
    ∷ codes "HOMEDRIVE"
    ∷ codes "APPDATA"
    ∷ codes "LOCALAPPDATA"
    ∷ codes "SystemRoot"
    ∷ codes "windir"
    ∷ codes "SystemDrive"
    ∷ codes "USERNAME"
    ∷ codes "COMPUTERNAME"
    ∷ codes "OS"
    ∷ codes "PROMPT"
    ∷ []

unfoldable pub remove_all : List Text → Environment → Environment
remove_all [] env = env
remove_all (k ∷ ks) env = remove_all ks (remove_var k env)

-- The saved values go back in the order in which they were saved.
unfoldable pub put_back : Saved → Environment → Environment
put_back [] env = env
put_back ((k, some v) ∷ saved) env = put_back saved (set_var k v env)
put_back ((k, none) ∷ saved) env = put_back saved (remove_var k env)

unfoldable pub restore_env : Saved → Environment → Environment
unfolding put_back remove_all sandbox_keys
restore_env saved env = put_back saved (remove_all sandbox_keys env)

abbrev pub or_empty : Option Text → Text
or_empty none = []
or_empty (some v) = v

abbrev pub prepended : Text → Text → Text
prepended v [] = v
prepended v (c ∷ cur) = v ++ (codes ";" ++ c ∷ cur)

abbrev pub appended : Text → Text → Text
appended v [] = v
appended v (c ∷ cur) = (c ∷ cur) ++ (codes ";" ++ v)

-- One variable of a plan: the value saved, and the environment after it.
unfoldable pub apply_plan_var : Text → Text → Environment → (Text × Option Text) × Environment
apply_plan_var k v env =
    if text_eq k (codes "PATH_PREPEND")
    then (
      (codes "PATH", some (or_empty (var (codes "PATH") env))),
      set_var (codes "PATH") (prepended v (or_empty (var (codes "PATH") env))) env,
    )
    else if text_eq k (codes "PATHEXT_APPEND")
    then (
      (codes "PATHEXT", some (or_empty (var (codes "PATHEXT") env))),
      set_var (codes "PATHEXT") (appended v (or_empty (var (codes "PATHEXT") env))) env,
    )
    else ((k, var k env), set_var k v env)

unfoldable pub layer_plan : Environment → Environment → Saved × Environment
unfolding apply_plan_var
layer_plan [] env = ([], env)
layer_plan ((k, v) ∷ vs) env =
    let (one, env') = apply_plan_var k v env in
    let (saved, env'') = layer_plan vs env' in (one ∷ saved, env'')

unfoldable pub apply_sandbox_env_with_plan :
    ContainerConfig → (Text → Bool) → Environment → Environment → Saved × Environment
unfolding apply_sandbox_env layer_plan
apply_sandbox_env_with_plan config exists plan_env env =
    let (saved, env') = apply_sandbox_env config exists env in
    let (layered, env'') = layer_plan plan_env env' in (saved ++ layered, env'')
