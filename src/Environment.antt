-- ===== src/Environment.antt =====
-- The environment of a process on Windows, as std::env gives it: names are compared without regard to
-- case. Environment/Sandbox is what the sandbox does to it (crates/psroot-container/src/sandbox.rs).
use psroot.Prelude.{
  ℕ, ◌≡◌, refl, sym, ap, ◌∙◌, subst, Bool, true, false, Bool-cases, inl, inr, Option, none, some,
  List, [], ◌∷◌, if◌then◌else◌,
}
use psroot.Text.{Text, text_eq, text_eq→eq, text_eq_self, to_lower}
pub mod Sandbox
pub mod Lookup
pub mod Hidden
pub mod Save
pub mod Restore
pub mod Prepend

abbrev pub Environment : Type 0
Environment = List (Text × Text)

-- `eq_ignore_ascii_case`
unfoldable pub same_name : Text → Text → Bool
same_name a b = text_eq (to_lower a) (to_lower b)

abbrev pub var : Text → Environment → Option Text
var k [] = none
var k ((j, v) ∷ env) = if same_name k j then some v else var k env

abbrev pub remove_var : Text → Environment → Environment
remove_var k [] = []
remove_var k ((j, v) ∷ env) = if same_name k j then remove_var k env else (j, v) ∷ remove_var k env

abbrev pub set_var : Text → Text → Environment → Environment
set_var k v env = (k, v) ∷ remove_var k env

pub same_name_self : (a : Text) → same_name a a ≡ true
unfolding same_name
same_name_self a = text_eq_self (to_lower a)

-- Two spellings of a name are compared alike with every other name.
pub same_name_left : (a b c : Text) → same_name a b ≡ true → same_name a c ≡ same_name b c
unfolding same_name
same_name_left a b c h = ap (λ x. text_eq x (to_lower c)) (text_eq→eq (to_lower a) (to_lower b) h)

same_name_right : (a b c : Text) → same_name a b ≡ true → same_name c a ≡ same_name c b
unfolding same_name
same_name_right a b c h = ap (text_eq (to_lower c)) (text_eq→eq (to_lower a) (to_lower b) h)

same_name_sym : (a b : Text) → same_name a b ≡ true → same_name b a ≡ true
same_name_sym a b h = sym (same_name_left a b a h) ∙ same_name_self a

pub var_same : (a b : Text) (env : Environment) → same_name a b ≡ true → var a env ≡ var b env
var_same a b [] h = refl
var_same a b ((j, v) ∷ env) h = rw (same_name_left a b j h, var_same a b env h) refl

pub var-remove_var :
    (k j : Text) (env : Environment)
    → var k (remove_var j env) ≡ (if same_name k j then none else var k env)
var-remove_var k j [] = elim (Bool-cases (same_name k j)) [ inl e ↦ rw e refl | inr e ↦ rw e refl ]
var-remove_var k j ((i, v) ∷ env) = elim (Bool-cases (same_name j i)) [
  | inl h ↦ elim (Bool-cases (same_name k j)) [
    | inl e ↦ rw (h, e) (var-remove_var k j env ∙ rw e refl)
    | inr e ↦
        let other : same_name k i ≡ false = sym (same_name_right j i k h) ∙ e in
        rw (h, e, other) (var-remove_var k j env ∙ rw e refl)
  ]
  | inr h ↦ elim (Bool-cases (same_name k j)) [
    | inl e ↦
        let other : same_name k i ≡ false = same_name_left k j i e ∙ h in
        rw (h, e, other) (var-remove_var k j env ∙ rw e refl)
    | inr e ↦ elim (Bool-cases (same_name k i)) [
      | inl f ↦ rw (h, e, f) refl
      | inr f ↦ rw (h, e, f) (var-remove_var k j env ∙ rw e refl)
    ]
  ]
]

pub var-set_var :
    (k j v : Text) (env : Environment)
    → var k (set_var j v env) ≡ (if same_name k j then some v else var k env)
var-set_var k j v env = elim (Bool-cases (same_name k j)) [
  | inl e ↦ rw e refl
  | inr e ↦ rw e (var-remove_var k j env ∙ rw e refl)
]
