-- ===== src/ProcShim/Tree.antt =====
-- The process tree of a list of processes, and how many of them a set still misses
-- (crates/psroot-procshim/src/hooks.rs).
use psroot.Prelude.{
  ℕ, ◌+◌, ◌≤◌, ◌<◌, ◌≡◌, ◌⊎◌, inl, inr, refl, sym, ap, ◌∙◌, true, false, Bool-cases, List, [], ◌∷◌,
  ◌==◌, ==→eq, ==_self, if◌then◌else◌, length, arith,
}
use psroot.ProcShim.{contains}

unfoldable pub Listed : ℕ × ℕ → List (ℕ × ℕ) → Type 0
Listed e [] = ⊥
Listed e (f ∷ es) = (e ≡ f) ⊎ Listed e es

-- The descendants of a process among pairs of a process and its parent, and the process itself.
pub data Descendant (es : List (ℕ × ℕ)) (root : ℕ) : ℕ → Type 0 where
  itself : Descendant es root root
  child :
      (pid parent : ℕ)
      → Listed (pid, parent) es
      → Descendant es root parent
      → Descendant es root pid

abbrev pub Subset : List ℕ → List ℕ → Type 0
Subset s t = (x : ℕ) → contains x s ≡ true → contains x t ≡ true

pub contains-cons : (x y : ℕ) (s : List ℕ) → contains x s ≡ true → contains x (y ∷ s) ≡ true
contains-cons x y s h = elim (Bool-cases (x == y)) [ inl e ↦ rw e refl | inr e ↦ rw e h ]

pub contains_head : (x : ℕ) (s : List ℕ) → contains x (x ∷ s) ≡ true
contains_head x s = rw (==_self x) refl

-- An element of a longer set is the new one or an old one.
pub contains-inv :
    (x y : ℕ) (s : List ℕ) → contains x (y ∷ s) ≡ true → (x ≡ y) ⊎ (contains x s ≡ true)
contains-inv x y s h = elim (Bool-cases (x == y)) [
  | inl e ↦ inl (==→eq x y e)
  | inr e ↦ inr (rw e at h)
]

-- How many entries are not yet in the set.
pub missing : List (ℕ × ℕ) → List ℕ → ℕ
missing [] s = 0
missing (e ∷ es) s = (if contains e.0 s then 0 else 1) + missing es s

pub missing_le : (es : List (ℕ × ℕ)) (s : List ℕ) → missing es s ≤ length es
unfolding missing
missing_le [] s = omega arith
missing_le (e ∷ es) s = elim (Bool-cases (contains e.0 s)) [
  | inl h ↦ rw h (omega (arith, missing_le es s))
  | inr h ↦ rw h (omega (arith, missing_le es s))
]

pub missing_mono : (es : List (ℕ × ℕ)) (s t : List ℕ) → Subset s t → missing es t ≤ missing es s
unfolding missing
missing_mono [] s t sub = omega arith
missing_mono (e ∷ es) s t sub = elim (Bool-cases (contains e.0 s)) [
  | inl h ↦ rw (h, sub e.0 h) (omega (arith, missing_mono es s t sub))
  | inr h ↦ elim (Bool-cases (contains e.0 t)) [
    | inl k ↦ rw (h, k) (omega (arith, missing_mono es s t sub))
    | inr k ↦ rw (h, k) (omega (arith, missing_mono es s t sub))
  ]
]

pub missing_new :
    (es : List (ℕ × ℕ)) (e : ℕ × ℕ) (s : List ℕ)
    → Listed e es
    → contains e.0 s ≡ false
    → missing es (e.0 ∷ s) < missing es s
unfolding missing Listed
missing_new [] e s h out = absurd h
missing_new (f ∷ es) e s (inl h) out =
    let same : contains f.0 s ≡ false = ap (λ (x : ℕ × ℕ). contains x.0 s) (sym h) ∙ out in
    let now : contains f.0 (e.0 ∷ s) ≡ true =
      ap (λ (x : ℕ × ℕ). contains x.0 (e.0 ∷ s)) (sym h) ∙ contains_head e.0 s in
    rw (now, same) (omega (arith, missing_mono es s (e.0 ∷ s) (λ x k. contains-cons x e.0 s k)))
missing_new (f ∷ es) e s (inr h) out = elim (Bool-cases (contains f.0 s)) [
  | inl k ↦ rw (contains-cons f.0 e.0 s k, k) (omega (arith, missing_new es e s h out))
  | inr k ↦ elim (Bool-cases (contains f.0 (e.0 ∷ s))) [
    | inl l ↦ rw (l, k) (omega (arith, missing_new es e s h out))
    | inr l ↦ rw (l, k) (omega (arith, missing_new es e s h out))
  ]
]
