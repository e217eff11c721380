-- ===== src/ProcShim/Fuel.antt =====
-- How many rounds the walk to the root of is_descendant_of_root takes
-- (crates/psroot-procshim/src/hooks.rs).
use psroot.Prelude.{
  ℕ, zero, suc, ◌<◌, ◌≡◌, inl, inr, refl, Bool, true, false, ◌||◌, ◌%◌, ◌^◌, Bool-cases,
  right_false, Option, none, some, List, [], ◌∷◌, ◌==◌, length, arith,
}
use psroot.ProcShim.{contains}
use psroot.ProcShim.Hooks.{parent_in, step_up, walk_up, is_descendant_of_root, hook_nt_open_process}
use psroot.ProcShim.Tree.{missing, missing_le, missing_new}
use psroot.ProcShim.Visible.{parent_in-Listed}

-- Each round sees an entry that the walk has not seen.
pub walk_up_stable :
    (m n : ℕ) (es : List (ℕ × ℕ)) (root : ℕ) (visited : List ℕ) (current : ℕ)
    → missing es visited < m
    → missing es visited < n
    → walk_up m es root visited current ≡ walk_up n es root visited current
unfolding walk_up
walk_up_stable zero n es root visited current hm hn = absurd (omega arith)
walk_up_stable (suc m) zero es root visited current hm hn = absurd (omega arith)
walk_up_stable (suc m) (suc n) es root visited current hm hn = elim (Bool-cases (current == root)) [
  | inl top ↦ rw top refl
  | inr below ↦ elim (Bool-cases (current == 0 || contains current visited)) [
    | inl ends ↦ rw (below, ends) refl
    | inr goes_on ↦
        rw (below, goes_on)
          (climb (walk_up_stable m n es root (current ∷ visited))
            (right_false (current == 0) (contains current visited) goes_on) (parent_in current es)
            refl)
  ]
]
  where
    climb :
        ((parent : ℕ)
          → missing es (current ∷ visited) < m
          → missing es (current ∷ visited) < n
          → walk_up m es root (current ∷ visited) parent
            ≡ walk_up n es root (current ∷ visited) parent)
        → contains current visited ≡ false
        → (o : Option ℕ) → parent_in current es ≡ o
        → step_up o (walk_up m es root (current ∷ visited))
          ≡ step_up o (walk_up n es root (current ∷ visited))
    climb rec new none e = refl
    climb rec new (some parent) e =
        let fewer =
          missing_new es (current, parent) visited (parent_in-Listed es current parent e) new in
        rec parent (omega arith) (omega arith)

-- With any two numbers of rounds above the number of listed processes, the hook gives the same
-- answer, whatever the root and the process to open, also when it is not set up or bypassed: the walk
-- ends by itself and the answer never comes from the rounds running out.
open_enough :
    (m n : ℕ) (es : List (ℕ × ℕ)) (bypassed : Bool) (root target : Option ℕ)
    → length es < m
    → length es < n
    → hook_nt_open_process m (some es) bypassed root target
      ≡ hook_nt_open_process n (some es) bypassed root target
unfolding hook_nt_open_process is_descendant_of_root
open_enough m n es bypassed root none hm hn = refl
open_enough m n es true root (some target) hm hn = refl
open_enough m n es false none (some target) hm hn = refl
open_enough m n es false (some root) (some target) hm hn =
    let few = missing_le es [] in
    rw (walk_up_stable m n es root [] (target % 2 ^ 32) (omega arith) (omega arith)) refl
