-- ===== src/Environment/Save.antt =====
-- What is saved of a variable when the environment is changed
-- (crates/psroot-container/src/sandbox.rs).
use psroot.Prelude.{
  ◌≡◌, refl, sym, ap, ◌∙◌, Bool, true, false, not, Bool-cases, inl, inr, Option, none, some, List,
  [], ◌∷◌, ◌++◌, if◌then◌else◌, All,
}
use psroot.Text.{Text}
use psroot.Environment.{Environment, same_name, var, remove_var, var_same, var-remove_var}
use psroot.Environment.Sandbox.{
  Saved, has_name, names, strip, sanitized_vars, hidden, drop_leaks, sandbox_vars, sandbox_keys,
}
use psroot.Environment.Lookup.{has_name_same, any_hidden, Distinct, last_saved, later, or_else}

later_assoc : (a b c : Option (Option Text)) → later (later a b) c ≡ later a (later b c)
later_assoc none b c = refl
later_assoc (some x) b c = refl

later_none : (a : Option (Option Text)) → later a none ≡ a
later_none none = refl
later_none (some x) = refl

pub last_saved-append :
    (k : Text) (s t : Saved) → last_saved k (s ++ t) ≡ later (last_saved k t) (last_saved k s)
last_saved-append k [] t = sym (later_none (last_saved k t))
last_saved-append k ((j, o) ∷ s) t =
    ap (λ l. later l (if same_name k j then some o else none)) (last_saved-append k s t)
    ∙ later_assoc (last_saved k t) (last_saved k s) (if same_name k j then some o else none)

pub last_saved-strip_out :
    (k : Text) (ns : List Text) (env : Environment)
    → has_name k ns ≡ false
    → last_saved k (strip ns env).0 ≡ none
unfolding strip
last_saved-strip_out k [] env h = refl
last_saved-strip_out k (n ∷ ns) env h = elim (Bool-cases (same_name k n)) [
  | inl e ↦ let f = rw e at h in cc
  | inr e ↦ rw (last_saved-strip_out k ns (remove_var n env) (rw e at h), e) refl
]

-- A name that is listed once, in whatever spelling.
abbrev pub once : Text → List Text → Bool
once k [] = false
once k (n ∷ ns) = if same_name k n then not (has_name k ns) else once k ns

false_of_not : (b : Bool) → not b ≡ true → b ≡ false
false_of_not true h = cc
false_of_not false h = refl

pub last_saved-strip-once :
    (k : Text) (ns : List Text) (env : Environment)
    → once k ns ≡ true
    → last_saved k (strip ns env).0 ≡ some (var k env)
unfolding strip
last_saved-strip-once k [] env h = cc
last_saved-strip-once k (n ∷ ns) env h = elim (Bool-cases (same_name k n)) [
  | inl e ↦
      let out = false_of_not (has_name k ns) (rw e at h) in
      rw (last_saved-strip_out k ns (remove_var n env) out, e)
        (ap (λ o. some o) (sym (var_same k n env e)))
  | inr e ↦
      rw (last_saved-strip-once k ns (remove_var n env) (rw e at h))
        (ap (λ o. some o) (var-remove_var k n env ∙ rw e refl))
]

last_saved-strip_gone :
    (k : Text) (ns : List Text) (env : Environment)
    → var k env ≡ none
    → has_name k ns ≡ true
    → last_saved k (strip ns env).0 ≡ some none
unfolding strip
last_saved-strip_gone k [] env gone h = cc
last_saved-strip_gone k (n ∷ ns) env gone h =
    let still : var k (remove_var n env) ≡ none =
      var-remove_var k n env ∙ rw gone (either (same_name k n)) in
    elim (Bool-cases (has_name k ns)) [
      | inl again ↦ rw (last_saved-strip_gone k ns (remove_var n env) still again) refl
      | inr last ↦ elim (Bool-cases (same_name k n)) [
        | inl e ↦
            rw (last_saved-strip_out k ns (remove_var n env) last, e)
              (ap (λ o. some o) (sym (var_same k n env e) ∙ gone))
        | inr e ↦ let f = rw (e, last) at h in cc
      ]
    ]
  where
    either : (b : Bool) → ◌≡◌ {A = Option Text} (if b then none else none) none
    either true = refl
    either false = refl

-- A name that is listed at least twice.
abbrev pub repeated : Text → List Text → Bool
repeated k [] = false
repeated k (n ∷ ns) = if same_name k n then has_name k ns else repeated k ns

pub last_saved-strip-repeated :
    (k : Text) (ns : List Text) (env : Environment)
    → repeated k ns ≡ true
    → last_saved k (strip ns env).0 ≡ some none
unfolding strip
last_saved-strip-repeated k [] env h = cc
last_saved-strip-repeated k (n ∷ ns) env h = elim (Bool-cases (same_name k n)) [
  | inl e ↦
      rw
        (last_saved-strip_gone k ns (remove_var n env) (var-remove_var k n env ∙ rw e refl)
          (rw e at h))
        refl
  | inr e ↦ rw (last_saved-strip-repeated k ns (remove_var n env) (rw e at h)) refl
]

pub last_saved-drop_leaks_sanitized :
    (rootfs k : Text) (es env : Environment)
    → has_name k sanitized_vars ≡ true
    → last_saved k (drop_leaks rootfs es env).0 ≡ none
unfolding drop_leaks
last_saved-drop_leaks_sanitized rootfs k [] env ins = refl
last_saved-drop_leaks_sanitized rootfs k ((j, v) ∷ es) env ins =
    elim (Bool-cases (hidden rootfs j v)) [
      | inl h ↦ elim (Bool-cases (same_name k j)) [
        | inl e ↦
            let listed = sym (has_name_same k j sanitized_vars e) ∙ ins in
            let f = rw listed at h in cc
        | inr e ↦ rw (h, last_saved-drop_leaks_sanitized rootfs k es (remove_var j env) ins, e) refl
      ]
      | inr h ↦ rw h (last_saved-drop_leaks_sanitized rootfs k es env ins)
    ]

last_saved-drop_leaks_absent :
    (rootfs k : Text) (es env : Environment)
    → var k es ≡ none
    → last_saved k (drop_leaks rootfs es env).0 ≡ none
unfolding drop_leaks
last_saved-drop_leaks_absent rootfs k [] env gone = refl
last_saved-drop_leaks_absent rootfs k ((j, v) ∷ es) env gone = elim (Bool-cases (same_name k j)) [
  | inl e ↦ let f = rw e at gone in cc
  | inr e ↦ elim (Bool-cases (hidden rootfs j v)) [
    | inl h ↦
        rw (h, last_saved-drop_leaks_absent rootfs k es (remove_var j env) (rw e at gone), e) refl
    | inr h ↦ rw h (last_saved-drop_leaks_absent rootfs k es env (rw e at gone))
  ]
]

any_hidden_absent :
    (rootfs k : Text) (es : Environment) → var k es ≡ none → any_hidden rootfs k es ≡ false
any_hidden_absent rootfs k [] gone = refl
any_hidden_absent rootfs k ((j, v) ∷ es) gone = elim (Bool-cases (same_name k j)) [
  | inl e ↦ let f = rw e at gone in cc
  | inr e ↦ elim (Bool-cases (hidden rootfs j v)) [
    | inl h ↦ rw (h, e) (any_hidden_absent rootfs k es (rw e at gone))
    | inr h ↦ rw h (any_hidden_absent rootfs k es (rw e at gone))
  ]
]

-- What was dropped is saved, and what was not is still there.
pub drop_leaks_keeps :
    (rootfs k : Text) (es env : Environment)
    → Distinct es
    → or_else
        (last_saved k (drop_leaks rootfs es env).0)
        (if any_hidden rootfs k es then none else var k es)
      ≡ var k es
unfolding drop_leaks
drop_leaks_keeps rootfs k [] env d = refl
drop_leaks_keeps rootfs k ((j, v) ∷ es) env d = elim (Bool-cases (same_name k j)) [
  | inl e ↦
      let gone : var k es ≡ none = var_same k j es e ∙ d.0 in
      let bare = any_hidden_absent rootfs k es gone in
      elim (Bool-cases (hidden rootfs j v)) [
        | inl h ↦ rw (h, last_saved-drop_leaks_absent rootfs k es (remove_var j env) gone, e) refl
        | inr h ↦ rw (h, last_saved-drop_leaks_absent rootfs k es env gone, bare, e) refl
      ]
  | inr e ↦ elim (Bool-cases (hidden rootfs j v)) [
    | inl h ↦
        rw (h, e, later_none (last_saved k (drop_leaks rootfs es (remove_var j env)).0))
          (drop_leaks_keeps rootfs k es (remove_var j env) d.1)
    | inr h ↦ rw (h, e) (drop_leaks_keeps rootfs k es env d.1)
  ]
]

remove_var-Distinct : (k : Text) (env : Environment) → Distinct env → Distinct (remove_var k env)
remove_var-Distinct k [] d = tt
remove_var-Distinct k ((j, v) ∷ env) d = elim (Bool-cases (same_name k j)) [
  | inl e ↦ rw e (remove_var-Distinct k env d.1)
  | inr e ↦
      rw e (var-remove_var j k env ∙ rw d.0 (either (same_name j k)), remove_var-Distinct k env d.1)
]
  where
    either : (b : Bool) → ◌≡◌ {A = Option Text} (if b then none else none) none
    either true = refl
    either false = refl

pub strip-Distinct : (ns : List Text) (env : Environment) → Distinct env → Distinct (strip ns env).1
unfolding strip
strip-Distinct [] env d = d
strip-Distinct (n ∷ ns) env d = strip-Distinct ns (remove_var n env) (remove_var-Distinct n env d)

-- The names that the sandbox sets are sanitized ones.
pub sandbox_keys-sanitized : All (λ n. has_name n sanitized_vars ≡ true) sandbox_keys
unfolding sandbox_keys sanitized_vars same_name
sandbox_keys-sanitized = (
  refl,
  (
    refl,
    (
      refl,
      (
        refl,
        (
          refl,
          (
            refl,
            (refl, (refl, (refl, (refl, (refl, (refl, (refl, (refl, (refl, (refl, tt)))))))))),
          ),
        ),
      ),
    ),
  ),
)

pub names-sandbox_vars :
    (rootfs : Text) (exists : Text → Bool) → names (sandbox_vars rootfs exists) ≡ sandbox_keys
unfolding sandbox_vars sandbox_keys
names-sandbox_vars rootfs exists = refl
