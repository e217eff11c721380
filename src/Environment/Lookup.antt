-- ===== src/Environment/Lookup.antt =====
-- What a variable is after each step of the sandbox, and what was saved of it
-- (crates/psroot-container/src/sandbox.rs).
use psroot.Prelude.{
  ◌≡◌, refl, ap, ◌∙◌, Bool, true, false, ◌&&◌, Bool-cases, inl, inr, Option, none, some, List, [],
  ◌∷◌, if◌then◌else◌, All,
}
use psroot.Text.{Text}
use psroot.Environment.{
  Environment, same_name, var, remove_var, set_var, same_name_left, var-remove_var, var-set_var,
}
use psroot.Environment.Sandbox.{
  Saved, has_name, names, strip, hidden, drop_leaks, set_all, remove_all, put_back,
}

pub has_name_same :
    (k j : Text) (ns : List Text) → same_name k j ≡ true → has_name k ns ≡ has_name j ns
has_name_same k j [] h = refl
has_name_same k j (n ∷ ns) h = rw (same_name_left k j n h, has_name_same k j ns h) refl

-- A name that is not among some names is not spelled like one that is.
has_name-ne :
    (k j : Text) (ns : List Text)
    → has_name k ns ≡ false
    → has_name j ns ≡ true
    → same_name k j ≡ false
has_name-ne k j ns out ins = elim (Bool-cases (same_name k j)) [
  | inl h ↦ let e = has_name_same k j ns h in cc
  | inr h ↦ h
]

pub has_name-subset :
    (k : Text) (ks ns : List Text)
    → All (λ n. has_name n ns ≡ true) ks
    → has_name k ns ≡ false
    → has_name k ks ≡ false
has_name-subset k [] ns h out = refl
has_name-subset k (n ∷ ks) ns h out =
    rw (has_name-ne k n ns out h.0) (has_name-subset k ks ns h.1 out)

both_none : (b : Bool) → ◌≡◌ {A = Option Text} (if b then none else none) none
both_none true = refl
both_none false = refl

pub var-strip :
    (k : Text) (ns : List Text) (env : Environment)
    → var k (strip ns env).1 ≡ (if has_name k ns then none else var k env)
unfolding strip
var-strip k [] env = refl
var-strip k (n ∷ ns) env = var-strip k ns (remove_var n env) ∙ elim (Bool-cases (same_name k n)) [
  | inl h ↦ rw (h, var-remove_var k n env, h) (both_none (has_name k ns))
  | inr h ↦ rw (h, var-remove_var k n env, h) refl
]

pub var-set_all :
    (k : Text) (vs env : Environment)
    → has_name k (names vs) ≡ false
    → var k (set_all vs env) ≡ var k env
unfolding set_all
var-set_all k [] env h = refl
var-set_all k ((j, v) ∷ vs) env h = elim (Bool-cases (same_name k j)) [
  | inl e ↦ let f = rw e at h in cc
  | inr e ↦ var-set_all k vs (set_var j v env) (rw e at h) ∙ (var-set_var k j v env ∙ rw e refl)
]

pub var-remove_all :
    (k : Text) (ks : List Text) (env : Environment)
    → has_name k ks ≡ false
    → var k (remove_all ks env) ≡ var k env
unfolding remove_all
var-remove_all k [] env h = refl
var-remove_all k (j ∷ ks) env h = elim (Bool-cases (same_name k j)) [
  | inl e ↦ let f = rw e at h in cc
  | inr e ↦
      var-remove_all k ks (remove_var j env) (rw e at h) ∙ (var-remove_var k j env ∙ rw e refl)
]

-- Whether a listed variable of this name leaks.
abbrev pub any_hidden : Text → Text → Environment → Bool
any_hidden rootfs k [] = false
any_hidden rootfs k ((j, v) ∷ es) =
    if hidden rootfs j v && same_name k j then true else any_hidden rootfs k es

pub var-drop_leaks :
    (rootfs k : Text) (es env : Environment)
    → var k (drop_leaks rootfs es env).1 ≡ (if any_hidden rootfs k es then none else var k env)
unfolding drop_leaks
var-drop_leaks rootfs k [] env = refl
var-drop_leaks rootfs k ((j, v) ∷ es) env = elim (Bool-cases (hidden rootfs j v)) [
  | inl h ↦ rw h (var-drop_leaks rootfs k es (remove_var j env) ∙ removed)
  | inr h ↦ rw h (var-drop_leaks rootfs k es env)
]
  where
    removed :
        (if any_hidden rootfs k es then none else var k (remove_var j env))
        ≡ (if (if same_name k j then true else any_hidden rootfs k es) then none else var k env)
    removed = elim (Bool-cases (same_name k j)) [
      | inl e ↦ rw (var-remove_var k j env, e) (both_none (any_hidden rootfs k es))
      | inr e ↦ rw (var-remove_var k j env, e) refl
    ]

-- No name is listed twice.
abbrev pub Distinct : Environment → Type 0
Distinct [] = Unit
Distinct ((k, v) ∷ env) = (var k env ≡ none) × Distinct env

abbrev pub later : Option (Option Text) → Option (Option Text) → Option (Option Text)
later none first = first
later (some x) first = some x

-- The last value saved under a name.
abbrev pub last_saved : Text → Saved → Option (Option Text)
last_saved k [] = none
last_saved k ((j, o) ∷ saved) = later (last_saved k saved) (if same_name k j then some o else none)

abbrev pub or_else : Option (Option Text) → Option Text → Option Text
or_else none o = o
or_else (some x) o = x

pub var-put_back :
    (k : Text) (saved : Saved) (env : Environment)
    → var k (put_back saved env) ≡ or_else (last_saved k saved) (var k env)
unfolding put_back
var-put_back k [] env = refl
var-put_back k ((j, some v) ∷ saved) env =
    var-put_back k saved (set_var j v env)
    ∙ ap (or_else (last_saved k saved)) (var-set_var k j v env)
    ∙ over (last_saved k saved)
  where
    over :
        (l : Option (Option Text))
        → or_else l (if same_name k j then some v else var k env)
          ≡ or_else (later l (if same_name k j then some (some v) else none)) (var k env)
    over (some x) = refl
    over none = elim (Bool-cases (same_name k j)) [ inl e ↦ rw e refl | inr e ↦ rw e refl ]
var-put_back k ((j, none) ∷ saved) env =
    var-put_back k saved (remove_var j env)
    ∙ ap (or_else (last_saved k saved)) (var-remove_var k j env)
    ∙ over (last_saved k saved)
  where
    over :
        (l : Option (Option Text))
        → or_else l (if same_name k j then none else var k env)
          ≡ or_else (later l (if same_name k j then some none else none)) (var k env)
    over (some x) = refl
    over none = elim (Bool-cases (same_name k j)) [ inl e ↦ rw e refl | inr e ↦ rw e refl ]
