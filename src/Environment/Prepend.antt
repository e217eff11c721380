-- ===== src/Environment/Prepend.antt =====
-- What a plan that prepends to PATH leaves of it
-- (crates/psroot-container/src/sandbox.rs).
use psroot.Prelude.{
  ◌≡◌, refl, ap, ◌∙◌, Bool, false, Bool-cases, inl, inr, none, some, [], ◌∷◌, ◌++◌, ◌||◌,
  if◌then◌else◌, All,
}
use psroot.Text.{Text, codes, text_eq}
use psroot.Environment.{Environment, same_name, var, set_var, same_name_self, var-set_var}
use psroot.Environment.Sandbox.{
  ContainerConfig, sandbox_keys, remove_all, apply_sandbox_env, restore_env, or_empty,
  apply_sandbox_env_with_plan, prepended, apply_plan_var, layer_plan,
}
use psroot.Environment.Lookup.{last_saved, later, or_else}
use psroot.Environment.Save.{last_saved-append}
use psroot.Environment.Restore.{var-restore_env}

-- Whether a variable of a plan changes PATH.
abbrev pub changes_path : Text → Bool
changes_path k = text_eq k (codes "PATH_PREPEND") || same_name (codes "PATH") k

abbrev pub SparesPath : Environment → Type 0
SparesPath vs = All (λ (kv : Text × Text). changes_path kv.0 ≡ false) vs

path_spared :
    (k v : Text) (env : Environment)
    → changes_path k ≡ false
    → (last_saved (codes "PATH") ((apply_plan_var k v env).0 ∷ []) ≡ none)
      × (var (codes "PATH") (apply_plan_var k v env).1 ≡ var (codes "PATH") env)
unfolding apply_plan_var
path_spared k v env h = elim (Bool-cases (text_eq k (codes "PATH_PREPEND"))) [
  | inl p ↦ let f = rw p at h in cc
  | inr p ↦
      let other : same_name (codes "PATH") k ≡ false = rw p at h in
      elim (Bool-cases (text_eq k (codes "PATHEXT_APPEND"))) [
        | inl a ↦
            let ext : same_name (codes "PATH") (codes "PATHEXT") ≡ false =
              unfold same_name in refl in
            rw (p, a)
              (rw ext refl, var-set_var (codes "PATH") (codes "PATHEXT") _ env ∙ rw ext refl)
        | inr a ↦ rw (p, a) (rw other refl, var-set_var (codes "PATH") k v env ∙ rw other refl)
      ]
]

layer_plan-SparesPath :
    (vs env : Environment)
    → SparesPath vs
    → (last_saved (codes "PATH") (layer_plan vs env).0 ≡ none)
      × (var (codes "PATH") (layer_plan vs env).1 ≡ var (codes "PATH") env)
unfolding layer_plan
layer_plan-SparesPath [] env h = (refl, refl)
layer_plan-SparesPath ((k, v) ∷ vs) env h =
    let first = path_spared k v env h.0 in
    let rest = layer_plan-SparesPath vs (apply_plan_var k v env).1 h.1 in
    (
      ap
            (λ l. later l (
              if same_name (codes "PATH") (apply_plan_var k v env).0.0
              then some (apply_plan_var k v env).0.1
              else none))
            rest.0
          ∙ first.0,
      rest.1 ∙ first.1,
    )

-- The last value of PATH that a plan saves, when only one of its variables changes PATH and prepends.
last_saved-layer_plan :
    (before after : Environment) (v : Text) (env : Environment)
    → SparesPath before
    → SparesPath after
    → last_saved (codes "PATH") (layer_plan (before ++ (codes "PATH_PREPEND", v) ∷ after) env).0
      ≡ some (some (or_empty (var (codes "PATH") env)))
unfolding layer_plan apply_plan_var
last_saved-layer_plan [] after v env b a =
    let path = codes "PATH" in
    let cur = or_empty (var path env) in
    let rest = layer_plan-SparesPath after (set_var path (prepended v cur) env) a in
    ap (λ l. later l (if same_name path path then some (some cur) else none)) rest.0
    ∙ rw (same_name_self path) refl
last_saved-layer_plan ((k, w) ∷ before) after v env b a =
    let first = path_spared k w env b.0 in
    let env' = (apply_plan_var k w env).1 in
    ap
      (λ l. later l (
        if same_name (codes "PATH") (apply_plan_var k w env).0.0
        then some (apply_plan_var k w env).0.1
        else none))
      (last_saved-layer_plan before after v env' b.1 a)
    ∙ ap (λ o. some (some (or_empty o))) first.1

-- When one variable of a shell's plan prepends to PATH and no other changes PATH, whatever else the plan
-- sets or appends to, the host's PATH afterwards is the sandbox's PATH (empty if it had none), not the
-- one from before: the later of the two saved values is put back last.
pub path_prepend_lost :
    (config : ContainerConfig) (exists : Text → Bool) (before after : Environment) (v : Text)
    (env : Environment)
    → SparesPath before
    → SparesPath after
    → let plan_env = before ++ (codes "PATH_PREPEND", v) ∷ after in
      var (codes "PATH") (
        restore_env
          (apply_sandbox_env_with_plan config exists plan_env env).0
          (apply_sandbox_env_with_plan config exists plan_env env).1)
      ≡ some (or_empty (var (codes "PATH") (apply_sandbox_env config exists env).1))
unfolding apply_sandbox_env_with_plan
path_prepend_lost config exists before after v env b a =
    let path = codes "PATH" in
    let plan_env = before ++ (codes "PATH_PREPEND", v) ∷ after in
    let lent = apply_sandbox_env config exists env in
    let end = (apply_sandbox_env_with_plan config exists plan_env env).1 in
    var-restore_env path _ _
    ∙ ap (λ l. or_else l (var path (remove_all sandbox_keys end)))
        (last_saved-append path lent.0 (layer_plan plan_env lent.1).0
          ∙ ap (λ l. later l (last_saved path lent.0))
              (last_saved-layer_plan before after v lent.1 b a))
