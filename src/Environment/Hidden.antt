-- ===== src/Environment/Hidden.antt =====
-- What a sandboxed child can see of the host's environment (crates/psroot-container/src/sandbox.rs).
use psroot.Prelude.{
  ◌≡◌, ◌<◌, ◌⊎◌, refl, sym, ◌∙◌, subst, Bool, true, false, not, ◌&&◌, ◌||◌, right_false, All,
  Bool-cases, inl, inr, none, some, [], ◌∷◌, if◌then◌else◌,
}
use mathlib.Core.Option.{some-injective}
use psroot.Text.{Text, codes, to_lower, contains}
use psroot.Text.Occurs.{Occurs, contains-Occurs, contains-absent}
use psroot.Environment.{Environment, same_name, var}
use psroot.Environment.Sandbox.{
  ContainerConfig, has_name, names, strip, sanitized_vars, leaks, hidden, drop_leaks, sandbox_vars,
  apply_sandbox_env,
}
use psroot.Environment.Lookup.{has_name_same, var-strip, var-set_all, any_hidden, var-drop_leaks}

-- A visible variable is listed, and if it is not sanitized and is not hidden it does not leak.
visible-leaks :
    (rootfs k v : Text) (es : Environment)
    → has_name k sanitized_vars ≡ false
    → any_hidden rootfs k es ≡ false
    → var k es ≡ some v
    → leaks rootfs v ≡ false
visible-leaks rootfs k v [] out h e = cc
visible-leaks rootfs k v ((j, w) ∷ es) out h e = elim (Bool-cases (same_name k j)) [
  | inl s ↦ elim (Bool-cases (leaks rootfs w)) [
    | inl l ↦
        let plain = sym (has_name_same k j sanitized_vars s) ∙ out in
        let f = rw (plain, l, s) at h in cc
    | inr l ↦ subst (λ x. leaks rootfs x ≡ false) (some-injective w v (rw s at e)) l
  ]
  | inr s ↦ elim (Bool-cases (hidden rootfs j w)) [
    | inl l ↦ visible-leaks rootfs k v es out (rw (l, s) at h) (rw s at e)
    | inr l ↦ visible-leaks rootfs k v es out (rw l at h) (rw s at e)
  ]
]

-- What a value that is shown holds, in lower case: no path of application data, nothing of program files,
-- and a path of users only beside the path of the root file system.
abbrev pub IsClean : Text → Text → Type 0
IsClean rootfs v =
    (¬ Occurs (codes "\\appdata\\") (to_lower v))
    × (¬ Occurs (codes "program files") (to_lower v))
    × ((¬ Occurs (codes "\\users\\") (to_lower v)) ⊎ Occurs (to_lower rootfs) (to_lower v))

no_leak-IsClean : (rootfs v : Text) → leaks rootfs v ≡ false → IsClean rootfs v
unfolding leaks
no_leak-IsClean rootfs v h =
    let l = to_lower v in
    let users = contains (codes "\\users\\") l in
    let own = contains (to_lower rootfs) l in
    let app = contains (codes "\\appdata\\") l in
    let programs = contains (codes "program files") l in
    let rest = right_false (users && not own) (app || programs) h in
    (
      contains-absent (codes "\\appdata\\") l (left_false app programs rest),
      contains-absent (codes "program files") l (right_false app programs rest),
      elim (Bool-cases users) [
        | inr e ↦ inl (contains-absent (codes "\\users\\") l e)
        | inl e ↦ inr (
            contains-Occurs (to_lower rootfs) l
              (own_of users own (left_false (users && not own) (app || programs) h) e))
      ],
    )
  where
    left_false : (a b : Bool) → (a || b) ≡ false → a ≡ false
    left_false true b h = cc
    left_false false b h = refl

    own_of : (a b : Bool) → (a && not b) ≡ false → a ≡ true → b ≡ true
    own_of a true h e = refl
    own_of true false h e = cc
    own_of false false h e = cc

-- The texts in which the lower case of ASCII is that of Unicode.
abbrev pub IsAscii : Text → Type 0
IsAscii s = All (λ c. c < 128) s

-- What a child that is started without a plan sees of a variable that neither the container's
-- configuration nor the sandbox sets is a value that the host has for it; its name is not among the
-- sanitized ones, and the value, in whatever case, holds no \appdata\ and no text of program files, and
-- if it holds \users\ then it also holds the path of the root file system somewhere. The value and that
-- path are ASCII.
pub apply_sandbox_env_shows :
    (config : ContainerConfig) (exists : Text → Bool) (env : Environment) (k v : Text)
    → IsAscii config.rootfs_path
    → IsAscii v
    → has_name k (names config.env) ≡ false
    → has_name k (names (sandbox_vars config.rootfs_path exists)) ≡ false
    → var k (apply_sandbox_env config exists env).1 ≡ some v
    → (var k env ≡ some v) × (has_name k sanitized_vars ≡ false) × IsClean config.rootfs_path v
unfolding apply_sandbox_env
apply_sandbox_env_shows config exists env k v root_ascii ascii own clean seen =
    let env1 = (strip sanitized_vars env).1 in
    let rootfs = config.rootfs_path in
    let kept : (if any_hidden rootfs k env1 then none else var k env1) ≡ some v =
      sym (var-drop_leaks rootfs k env1 env1)
      ∙ sym (var-set_all k (sandbox_vars rootfs exists) (drop_leaks rootfs env1 env1).1 clean)
      ∙ sym (var-set_all k config.env _ own)
      ∙ seen in
    elim (Bool-cases (any_hidden rootfs k env1)) [
      | inl h ↦ let f = rw h at kept in cc
      | inr h ↦
          let now : var k env1 ≡ some v = rw h at kept in
          let before : (if has_name k sanitized_vars then none else var k env) ≡ some v =
            sym (var-strip k sanitized_vars env) ∙ now in
          elim (Bool-cases (has_name k sanitized_vars)) [
            | inl s ↦ let f = rw s at before in cc
            | inr s ↦ (
              rw s at before,
              s,
              no_leak-IsClean rootfs v (visible-leaks rootfs k v env1 s h now),
            )
          ]
    ]
