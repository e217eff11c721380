-- ===== src/Tests/Processes.antt =====
-- A list of five processes (crates/psroot-procshim/src/hooks.rs): the container is 10 and its child 11.
use psroot.Prelude.{
  ℕ, ◌≡◌, ◌↔◌, ◌⊎◌, ◌%◌, ◌^◌, inl, inr, refl, sym, ap, ◌∙◌, false, some, List, [], ◌∷◌, ◌==◌,
  if◌then◌else◌, arith,
}
use psroot.ProcShim.{Entry, Memory, pid_of, allowed_of, close_over}
use psroot.ProcShim.Hooks.{
  status_success, hook_nt_query_system_information, hook_nt_open_process, is_descendant_of_root,
  walk_up, OpenAnswer, parent_in,
}
use psroot.ProcShim.Tree.{Listed, Descendant}
use psroot.ProcShim.Chain.{Chain, keep}
use psroot.ProcShim.Visible.{Occurs, processes, query_shows, open_only}
use psroot.ProcShim.Opens.{HasOneParent, descendants_open}

abbrev entry : ℕ → ℕ → ℕ → Entry
entry next pid parent = record { next = next; pid = pid; inherited_pid = parent }

abbrev memory : Memory
memory = λ j.
    if j == 0
    then entry 100 0 0
    else if j == 100
    then entry 60 4 0
    else if j == 160
    then entry 40 10 4
    else if j == 200
    then entry 80 12 4
    else entry 0 11 10

abbrev neighbour : ℕ
neighbour = 12

abbrev child_pid : ℕ
child_pid = 11

abbrev offsets : List ℕ
offsets = 100 ∷ 160 ∷ 200 ∷ 280 ∷ []

memory-Chain : Chain memory 0 (0 ∷ offsets)
memory-Chain =
    (refl, omega arith, (refl, omega arith, (refl, omega arith, (refl, omega arith, (refl, refl)))))

query_shows_example :
    let es = processes memory (0 ∷ offsets) in
    (out : Memory) × (shown : List ℕ) × (hook_nt_query_system_information 5 false
        (some 10)
        5
        (status_success, some memory)
      ≡ (status_success, some out))
    × (shown ≡ keep (allowed_of es 10) memory offsets)
    × Chain out 0 (0 ∷ shown)
    × ((j : ℕ) → (out j).pid ≡ (memory j).pid)
    × ((o : ℕ)
        → Occurs o shown
          ↔ (Occurs o offsets × ((pid_of (memory o) ≡ 0) ⊎ Descendant es 10 (pid_of (memory o)))))
query_shows_example =
    query_shows memory offsets 10 5 memory-Chain
      (omega arith, (omega arith, (omega arith, (omega arith, tt)))) refl refl

shown_offsets :
    keep (allowed_of (processes memory (0 ∷ offsets)) 10) memory offsets ≡ 160 ∷ 280 ∷ []
unfolding allowed_of close_over
shown_offsets = refl

child_opens :
    hook_nt_open_process 6 (some (processes memory (0 ∷ offsets))) false (some 10) (some 11)
    ≡ OpenAnswer.real_call
unfolding hook_nt_open_process is_descendant_of_root walk_up
child_opens = refl

host_refused :
    hook_nt_open_process 6 (some (processes memory (0 ∷ offsets))) false (some 10) (some 12)
    ≡ OpenAnswer.denied
unfolding hook_nt_open_process is_descendant_of_root walk_up
host_refused = refl

open_only_example :
    (child_pid ≡ 0) ⊎ ((child_pid ≡ 4) ⊎ Descendant (processes memory (0 ∷ offsets)) 10 11)
open_only_example = open_only 6 (processes memory (0 ∷ offsets)) 10 11 child_opens

abbrev family : List (ℕ × ℕ)
family = (10, 4) ∷ (11, 10) ∷ []

family-HasOneParent : HasOneParent family
unfolding Listed
family-HasOneParent pid parent (inl e) =
    ap (λ (x : ℕ × ℕ). parent_in x.0 family) e ∙ ap (λ (x : ℕ × ℕ). some x.1) (sym e)
family-HasOneParent pid parent (inr (inl e)) =
    ap (λ (x : ℕ × ℕ). parent_in x.0 family) e ∙ ap (λ (x : ℕ × ℕ). some x.1) (sym e)
family-HasOneParent pid parent (inr (inr none_left)) = absurd none_left

family_without_idle : (pid : ℕ) → pid ≡ 0 → Descendant family 10 pid → ⊥
unfolding Listed
family_without_idle _ z Descendant.itself = omega arith
family_without_idle _ z (Descendant.child pid parent (inl e) below) =
    let same : pid ≡ 10 = ap (λ (x : ℕ × ℕ). x.0) e in omega arith
family_without_idle _ z (Descendant.child pid parent (inr (inl e)) below) =
    let same : pid ≡ 11 = ap (λ (x : ℕ × ℕ). x.0) e in omega arith
family_without_idle _ z (Descendant.child pid parent (inr (inr none_left)) below) = absurd none_left

family_below : Descendant family 10 (11 % 2 ^ 32)
unfolding Listed
family_below = Descendant.child 11 10 (inr (inl refl)) Descendant.itself

descendants_open_example :
    hook_nt_open_process 3 (some family) false (some 10) (some 11) ≡ OpenAnswer.real_call
descendants_open_example =
    descendants_open 3 family 10 11 family-HasOneParent (family_without_idle 0 refl) (omega arith)
      family_below
