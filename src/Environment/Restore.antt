-- ===== src/Environment/Restore.antt =====
-- Taking the host's environment back: restore_env after apply_sandbox_env
-- (crates/psroot-container/src/sandbox.rs).
use psroot.Prelude.{
  ◌≡◌, refl, ap, ◌∙◌, Bool, true, false, Bool-cases, inl, inr, Option, none, some, List, [], ◌∷◌,
  ◌++◌, if◌then◌else◌,
}
use psroot.Text.{Text, codes}
use psroot.Environment.{Environment, same_name, var}
use psroot.Environment.Sandbox.{
  Saved, ContainerConfig, has_name, names, strip, sanitized_vars, drop_leaks, sandbox_vars,
  sandbox_keys, set_all, remove_all, apply_sandbox_env, restore_env,
}
use psroot.Environment.Lookup.{
  has_name-subset, var-strip, var-set_all, var-remove_all, any_hidden, var-drop_leaks, Distinct,
  last_saved, later, or_else, var-put_back,
}
use psroot.Environment.Save.{
  last_saved-append, last_saved-strip_out, last_saved-strip-once, once, repeated,
  last_saved-strip-repeated, last_saved-drop_leaks_sanitized, drop_leaks_keeps, strip-Distinct,
  sandbox_keys-sanitized, names-sandbox_vars,
}

pub var-restore_env :
    (k : Text) (saved : Saved) (env : Environment)
    → var k (restore_env saved env)
      ≡ or_else (last_saved k saved) (var k (remove_all sandbox_keys env))
unfolding restore_env
var-restore_env k saved env = var-put_back k saved (remove_all sandbox_keys env)

module _ (config : ContainerConfig) (exists : Text → Bool) (env : Environment) (k : Text) where
  -- A sanitized variable is restored from the first phase alone.
  restore_sanitized :
      has_name k sanitized_vars ≡ true
      → var k (
          restore_env
            (apply_sandbox_env config exists env).0
            (apply_sandbox_env config exists env).1)
        ≡ or_else
            (last_saved k (strip sanitized_vars env).0)
            (var k (remove_all sandbox_keys (apply_sandbox_env config exists env).1))
  unfolding apply_sandbox_env
  restore_sanitized ins =
      let env1 = (strip sanitized_vars env).1 in
      let rest = var k (remove_all sandbox_keys (apply_sandbox_env config exists env).1) in
      var-restore_env k _ _
      ∙ ap (λ l. or_else l rest)
          (last_saved-append k (strip sanitized_vars env).0
              (drop_leaks config.rootfs_path env1 env1).0
            ∙ ap (λ l. later l (last_saved k (strip sanitized_vars env).0))
                (last_saved-drop_leaks_sanitized config.rootfs_path k env1 env1 ins))

  restore_plain :
      has_name k sanitized_vars ≡ false
      → has_name k (names config.env) ≡ false
      → Distinct env
      → var k (
          restore_env
            (apply_sandbox_env config exists env).0
            (apply_sandbox_env config exists env).1)
        ≡ var k env
  unfolding apply_sandbox_env
  restore_plain out own d =
      let env1 = (strip sanitized_vars env).1 in
      let rootfs = config.rootfs_path in
      let saved = (strip sanitized_vars env).0 in
      let leaked = (drop_leaks rootfs env1 env1).0 in
      let env2 = (drop_leaks rootfs env1 env1).1 in
      let keys : has_name k sandbox_keys ≡ false =
        has_name-subset k sandbox_keys sanitized_vars sandbox_keys-sanitized out in
      let vars : has_name k (names (sandbox_vars rootfs exists)) ≡ false =
        ap (has_name k) (names-sandbox_vars rootfs exists) ∙ keys in
      let same : var k env1 ≡ var k env = var-strip k sanitized_vars env ∙ rw out refl in
      let rest : var k (
            remove_all sandbox_keys
              (set_all config.env (set_all (sandbox_vars rootfs exists) env2)))
          ≡ (if any_hidden rootfs k env1 then none else var k env1) =
        var-remove_all k sandbox_keys _ keys
        ∙ var-set_all k config.env _ own
        ∙ var-set_all k (sandbox_vars rootfs exists) env2 vars
        ∙ var-drop_leaks rootfs k env1 env1 in
      let last : last_saved k (saved ++ leaked) ≡ last_saved k leaked =
        last_saved-append k saved leaked
        ∙ ap (later (last_saved k leaked)) (last_saved-strip_out k sanitized_vars env out)
        ∙ later_none (last_saved k leaked) in
      var-restore_env k _ _
      ∙ ap
          (λ l. or_else l (var k (remove_all sandbox_keys (apply_sandbox_env config exists env).1)))
          last
      ∙ ap (or_else (last_saved k leaked)) rest
      ∙ drop_leaks_keeps rootfs k env1 env1 (strip-Distinct sanitized_vars env d)
      ∙ same
    where
      later_none : (a : Option (Option Text)) → later a none ≡ a
      later_none none = refl
      later_none (some x) = refl

  -- After a start of a child without a plan, each variable of the host is again what it was, if the
  -- container's configuration does not set it and its name is not listed twice among the sanitized ones.
  -- The host's variables have different names.
  pub restore_env-apply_sandbox_env :
      has_name k (names config.env) ≡ false
      → repeated k sanitized_vars ≡ false
      → Distinct env
      → var k (
          restore_env
            (apply_sandbox_env config exists env).0
            (apply_sandbox_env config exists env).1)
        ≡ var k env
  restore_env-apply_sandbox_env own single d = elim (Bool-cases (has_name k sanitized_vars)) [
    | inr out ↦ restore_plain out own d
    | inl ins ↦
        restore_sanitized ins
        ∙ ap
            (λ l.
              or_else l (var k (remove_all sandbox_keys (apply_sandbox_env config exists env).1)))
            (last_saved-strip-once k sanitized_vars env (once_of k sanitized_vars ins single))
  ]
    where
      once_of :
          (k : Text) (ns : List Text)
          → has_name k ns ≡ true
          → repeated k ns ≡ false
          → once k ns ≡ true
      once_of k [] h r = cc
      once_of k (n ∷ ns) h r = elim (Bool-cases (same_name k n)) [
        | inl e ↦ rw (e, rw e at r) refl
        | inr e ↦ rw e (once_of k ns (rw e at h) (rw e at r))
      ]

-- The variable PSModulePath is listed in two spellings among the sanitized ones, so it is gone from the
-- host's environment after every start of a child without a plan, whatever it was before.
pub psmodulepath_lost :
    (config : ContainerConfig) (exists : Text → Bool) (env : Environment)
    → var (codes "PSModulePath") (
        restore_env (apply_sandbox_env config exists env).0 (apply_sandbox_env config exists env).1)
      ≡ none
psmodulepath_lost config exists env =
    restore_sanitized config exists env (codes "PSModulePath") listed
    ∙ ap
        (λ l. or_else l (
          var (codes "PSModulePath")
            (remove_all sandbox_keys (apply_sandbox_env config exists env).1)))
        (last_saved-strip-repeated (codes "PSModulePath") sanitized_vars env twice)
  where
    listed : has_name (codes "PSModulePath") sanitized_vars ≡ true
    listed = unfold sanitized_vars same_name in refl

    twice : repeated (codes "PSModulePath") sanitized_vars ≡ true
    twice = unfold sanitized_vars same_name in refl
