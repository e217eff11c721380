-- ===== src/ProcShim/Opens.antt =====
-- The walk from a descendant reaches the container's root (crates/psroot-procshim/src/hooks.rs).
use psroot.Prelude.{
  ℕ, zero, suc, ◌+◌, ◌%◌, ◌^◌, ◌<◌, ◌≡◌, ◌≢◌, inl, inr, refl, sym, ap, ◌∙◌, subst, true, false,
  ◌||◌, Bool-cases, some, List, [], ◌∷◌, ◌==◌, ==→eq, ==→ne, ==_self, ne→==, length, arith,
}
use mathlib.Core.Option.{some-injective}
use psroot.ProcShim.{contains}
use psroot.ProcShim.Hooks.{
  parent_in, walk_up, is_descendant_of_root, OpenAnswer, open_checked, hook_nt_open_process,
}
use psroot.ProcShim.Tree.{Listed, Descendant, missing_le, contains-inv}
use psroot.ProcShim.Visible.{parent_in-Listed}
use psroot.ProcShim.Fuel.{walk_up_stable}

-- The way up from a process to the root, with its number of steps.
data Way (es : List (ℕ × ℕ)) (root : ℕ) : ℕ → ℕ → Type 0 where
  top : Way es root 0 root
  up :
      (d pid parent : ℕ)
      → pid ≢ root
      → parent_in pid es ≡ some parent
      → Way es root d parent
      → Way es root (suc d) pid

-- No process is listed under two parents.
abbrev pub HasOneParent : List (ℕ × ℕ) → Type 0
HasOneParent es = (pid parent : ℕ) → Listed (pid, parent) es → parent_in pid es ≡ some parent

module _ (es : List (ℕ × ℕ)) (root : ℕ) where
  Descendant-Way :
      HasOneParent es → (pid : ℕ) → Descendant es root pid → (d : ℕ) × Way es root d pid
  Descendant-Way one _ Descendant.itself = (0, Way.top)
  Descendant-Way one _ (Descendant.child pid parent l below) =
      let (d, way) = Descendant-Way one parent below in
      elim (Bool-cases (pid == root)) [
        | inl e ↦ (0, subst (Way es root 0) (sym (==→eq pid root e)) Way.top)
        | inr e ↦ (suc d, Way.up d pid parent (==→ne pid root e) (one pid parent l) way)
      ]

  Way-unique : (d e pid pid' : ℕ) → pid ≡ pid' → Way es root d pid → Way es root e pid' → d ≡ e
  Way-unique _ _ _ _ s Way.top Way.top = refl
  Way-unique _ _ _ _ s Way.top (Way.up e pid p ne h w) = absurd (ne (sym s))
  Way-unique _ _ _ _ s (Way.up d pid p ne h w) Way.top = absurd (ne s)
  Way-unique _ _ _ _ s (Way.up d pid p ne h w) (Way.up e pid' q ne' h' w') =
      let same = some-injective p q (sym h ∙ ap (λ x. parent_in x es) s ∙ h') in
      ap suc (Way-unique d e p q same w w')

  Way-Descendant : (d pid : ℕ) → Way es root d pid → Descendant es root pid
  Way-Descendant _ _ Way.top = Descendant.itself
  Way-Descendant _ _ (Way.up d pid p ne h w) =
      Descendant.child pid p (parent_in-Listed es pid p h) (Way-Descendant d p w)

  -- The processes seen so far are further from the root.
  abbrev Further : ℕ → List ℕ → Type 0
  Further d visited = (v : ℕ) → contains v visited ≡ true → (e : ℕ) × Way es root e v × (d < e)

  fresh :
      (d pid : ℕ) (visited : List ℕ)
      → Way es root d pid
      → Further d visited
      → contains pid visited ≡ false
  fresh d pid visited way further = elim (Bool-cases (contains pid visited)) [
    | inr h ↦ h
    | inl h ↦
        let (e, way', more) = further pid h in
        let same = Way-unique d e pid pid refl way way' in absurd (omega arith)
  ]

  Further-cons :
      (d pid : ℕ) (visited : List ℕ)
      → Way es root (suc d) pid
      → Further (suc d) visited
      → Further d (pid ∷ visited)
  Further-cons d pid visited way further v h = elim (contains-inv v pid visited h) [
    | inl e ↦ (suc d, subst (Way es root (suc d)) (sym e) way, omega arith)
    | inr k ↦ let (e, way', more) = further v k in (e, way', omega arith)
  ]

  Way-walks :
      (fuel d pid : ℕ) (visited : List ℕ)
      → ((e : ℕ) → Way es root e 0 → ⊥)
      → Way es root d pid
      → Further d visited
      → d < fuel
      → walk_up fuel es root visited pid ≡ true
  unfolding walk_up
  Way-walks zero d pid visited no_idle way further h = absurd (omega arith)
  Way-walks (suc fuel) _ _ visited no_idle Way.top further h = rw (==_self root) refl
  Way-walks (suc fuel) _ _ visited no_idle (Way.up d pid p ne e w) further h =
      let way : Way es root (suc d) pid = Way.up d pid p ne e w in
      let below = ne→== pid root ne in
      let nonzero = ne→== pid 0 (λ z. no_idle (suc d) (subst (Way es root (suc d)) z way)) in
      rw (below, nonzero, fresh (suc d) pid visited way further, e)
        (Way-walks fuel d p (pid ∷ visited) no_idle w (Further-cons d pid visited way further)
          (omega arith))

-- When no process is listed under two parents and process 0 is not below the container's root, the
-- hook lets every call for the root or a descendant of it through, its identifier taken modulo 2^32,
-- with any number of rounds above the number of listed processes.
pub descendants_open :
    (fuel : ℕ) (es : List (ℕ × ℕ)) (root target : ℕ)
    → HasOneParent es
    → (Descendant es root 0 → ⊥)
    → length es < fuel
    → Descendant es root (target % 2 ^ 32)
    → hook_nt_open_process fuel (some es) false (some root) (some target) ≡ OpenAnswer.real_call
unfolding hook_nt_open_process is_descendant_of_root
descendants_open fuel es root target one no_idle enough below =
    let (d, way) = Descendant-Way es root one (target % 2 ^ 32) below in
    let few = missing_le es [] in
    let walks =
      Way-walks es root (suc (d + length es)) d (target % 2 ^ 32) []
        (λ e w. no_idle (Way-Descendant es root e 0 w)) way (λ v h. absurd (nothing h))
        (omega arith) in
    let same =
      walk_up_stable (suc (d + length es)) fuel es root [] (target % 2 ^ 32) (omega arith)
        (omega arith) in
    opens (target % 2 ^ 32) (sym same ∙ walks)
  where
    nothing : false ≡ true → ⊥
    nothing e = cc

    opens :
        (t : ℕ)
        → walk_up fuel es root [] t ≡ true
        → open_checked fuel (some es) (some root) t ≡ OpenAnswer.real_call
    opens t h = elim (Bool-cases (t == 0 || (t == 4 || t == root))) [
      | inl own ↦ rw own refl
      | inr other ↦ rw (other, h) refl
    ]
