-- ===== src/ProcShim/Visible.antt =====
-- What the two hooks let through (crates/psroot-procshim/src/hooks.rs).
use psroot.Prelude.{
  ℕ, zero, suc, ◌+◌, ◌%◌, ◌^◌, ◌<◌, ◌≡◌, ◌↔◌, ◌⊎◌, inl, inr, refl, sym, ap, ap₂, ◌∙◌, subst, Bool,
  true, false, ◌||◌, Bool-cases, Option, none, some, Option-cases, List, [], ◌∷◌, ◌==◌, ==→eq,
  ne→==, length, All, arith,
}
use mathlib.Core.Option.{some-injective}
use psroot.ProcShim.{
  Memory, pid_of, parent_of, contains, read_entries, allowed_of, build_allowed_pids,
  filter_process_list,
}
use psroot.ProcShim.Hooks.{
  status_success, is_process_class, hook_nt_query_system_information, parent_in, step_up, walk_up,
  is_descendant_of_root, OpenAnswer, open_checked, hook_nt_open_process,
}
use psroot.ProcShim.Tree.{Listed, Descendant}
use psroot.ProcShim.Closure.{allowed_of_iff}
use psroot.ProcShim.Chain.{Chain, keep, filter-Left}

pub Occurs : ℕ → List ℕ → Type 0
Occurs x [] = ⊥
Occurs x (y ∷ ys) = (x ≡ y) ⊎ Occurs x ys

-- The pairs of process and parent of the entries at some offsets.
abbrev pub processes : Memory → List ℕ → List (ℕ × ℕ)
processes mem [] = []
processes mem (o ∷ os) = (pid_of (mem o), parent_of (mem o)) ∷ processes mem os

read_entries-Chain :
    (mem : Memory) (off : ℕ) (os : List ℕ)
    → Chain mem off os
    → read_entries (length os) mem off ≡ processes mem os
unfolding read_entries
read_entries-Chain mem off [] c = absurd c
read_entries-Chain mem off (o ∷ []) (e, last) = rw (e, last) refl
read_entries-Chain mem off (o ∷ p ∷ os) (e, more, c) =
    rw (e, ne→== (mem off).next 0 (omega arith))
      (ap (λ l. (pid_of (mem off), parent_of (mem off)) ∷ l)
        (read_entries-Chain mem (off + (mem off).next) (p ∷ os) c))

keep_iff :
    (allowed : List ℕ) (mem : Memory) (os : List ℕ) (o : ℕ)
    → Occurs o (keep allowed mem os) ↔ (Occurs o os × (contains (pid_of (mem o)) allowed ≡ true))
unfolding Occurs
keep_iff allowed mem [] o = ((λ h. absurd h), (λ h. absurd h.0))
keep_iff allowed mem (p ∷ os) o =
    let rec = keep_iff allowed mem os o in
    elim (Bool-cases (contains (pid_of (mem p)) allowed)) [
      | inl stays ↦ rw stays (
        (λ h. elim h [
          | inl q ↦ (inl q, ap (λ x. contains (pid_of (mem x)) allowed) q ∙ stays)
          | inr k ↦ (inr (rec.0 k).0, (rec.0 k).1)
        ]),
        (λ h. elim h.0 [ inl q ↦ inl q | inr k ↦ inr (rec.1 (k, h.1)) ]),
      )
      | inr goes ↦ rw goes (
        (λ h. (inr (rec.0 h).0, (rec.0 h).1)),
        (λ h. elim h.0 [
          | inl q ↦
              absurd (clash (sym (ap (λ x. contains (pid_of (mem x)) allowed) q ∙ goes) ∙ h.1))
          | inr k ↦ rec.1 (k, h.1)
        ]),
      )
    ]
  where
    clash : false ≡ true → ⊥
    clash q = cc

-- The whole filter, when the first entry stays.
record Shown (allowed : List ℕ) (mem : Memory) (os : List ℕ) (out : Memory) : Type 0 where
  chain : Chain out 0 (0 ∷ keep allowed mem os)
  pids : (j : ℕ) → (out j).pid ≡ (mem j).pid

filter-Shown :
    (allowed : List ℕ) (mem : Memory) (os : List ℕ)
    → Chain mem 0 (0 ∷ os)
    → All (λ o. o < 2 ^ 32) os
    → contains (pid_of (mem 0)) allowed ≡ true
    → Shown allowed mem os (filter_process_list (length (0 ∷ os)) allowed mem none 0)
unfolding filter_process_list
filter-Shown allowed mem [] (e, last) small stays =
    rw (last, stays) (record { chain = (refl, last); pids = λ j. refl })
filter-Shown allowed mem (p ∷ os) (e, more, c) small stays =
    let l = filter-Left allowed (p ∷ os) mem 0 (0 + (mem 0).next) refl (omega arith) c small in
    rw (ne→== (mem 0).next 0 (omega arith), stays) (record { chain = l.chain; pids = l.pids })

-- What a container sees of a successful query for processes, once the shim is set up. Let the system
-- list entries at offsets below 2^32, the first of them process 0. Then the buffer is again such a chain,
-- of entries of the system in their order with the ids they had; an entry behind the first is among them
-- exactly when it is process 0, the container's root or a descendant of it.
pub query_shows :
    (mem : Memory) (os : List ℕ) (root class : ℕ)
    → Chain mem 0 (0 ∷ os)
    → All (λ o. o < 2 ^ 32) os
    → pid_of (mem 0) ≡ 0
    → is_process_class class ≡ true
    → let es = processes mem (0 ∷ os) in
      (out : Memory) × (shown : List ℕ) × (hook_nt_query_system_information
          (length (0 ∷ os))
          false
          (some root)
          class
          (status_success, some mem)
        ≡ (status_success, some out))
      × (shown ≡ keep (allowed_of es root) mem os)
      × Chain out 0 (0 ∷ shown)
      × ((j : ℕ) → (out j).pid ≡ (mem j).pid)
      × ((o : ℕ)
          → Occurs o shown
            ↔ (Occurs o os × ((pid_of (mem o) ≡ 0) ⊎ Descendant es root (pid_of (mem o)))))
unfolding hook_nt_query_system_information build_allowed_pids
query_shows mem os root class c small idle is_class =
    let es = processes mem (0 ∷ os) in
    let allowed = allowed_of es root in
    let read : read_entries (length (0 ∷ os)) mem 0 ≡ es = read_entries-Chain mem 0 (0 ∷ os) c in
    let out = filter_process_list (length (0 ∷ os)) allowed mem none 0 in
    let s =
      filter-Shown allowed mem os c small
        ((allowed_of_iff es root (pid_of (mem 0))).1 (inl idle)) in
    (
      out,
      keep allowed mem os,
      rw is_class (
          ap
            (λ l. (
              status_success,
              some (filter_process_list (length (0 ∷ os)) (allowed_of l root) mem none 0),
            ))
            read),
      refl,
      s.chain,
      s.pids,
      λ o. (
        (λ h.
            let k = (keep_iff allowed mem os o).0 h in
            (k.0, (allowed_of_iff es root (pid_of (mem o))).0 k.1)),
        (λ h. (keep_iff allowed mem os o).1 (h.0, (allowed_of_iff es root (pid_of (mem o))).1 h.1)),
      ),
    )

pub parent_in-Listed :
    (es : List (ℕ × ℕ)) (pid parent : ℕ) → parent_in pid es ≡ some parent → Listed (pid, parent) es
unfolding Listed
parent_in-Listed [] pid parent h = cc
parent_in-Listed ((p, q) ∷ es) pid parent h = elim (Option-cases (parent_in pid es)) [
  | inl nowhere ↦ elim (Bool-cases (pid == p)) [
    | inl here ↦
        inl (ap₂ pair (==→eq pid p here) (sym (some-injective q parent (rw (nowhere, here) at h))))
    | inr away ↦ absurd (clash (rw (nowhere, away) at h))
  ]
  | inr (r, later) ↦ inr (parent_in-Listed es pid parent (later ∙ (rw later at h)))
]
  where
    pair : ℕ → ℕ → ℕ × ℕ
    pair x y = (x, y)

    clash : none ≡ some parent → ⊥
    clash e = cc

-- A walk that reaches the root has gone up from a descendant of it.
walk_up-Descendant :
    (fuel : ℕ) (es : List (ℕ × ℕ)) (root : ℕ) (visited : List ℕ) (current : ℕ)
    → walk_up fuel es root visited current ≡ true
    → Descendant es root current
unfolding walk_up
walk_up-Descendant zero es root visited current h = cc
walk_up-Descendant (suc fuel) es root visited current h = elim (Bool-cases (current == root)) [
  | inl top ↦ subst (Descendant es root) (sym (==→eq current root top)) Descendant.itself
  | inr below ↦ elim (Bool-cases (current == 0 || contains current visited)) [
    | inl ends ↦ let stuck = rw (below, ends) at h in cc
    | inr goes_on ↦
        climb (parent_in current es) (walk_up fuel es root (current ∷ visited))
          (λ parent k. walk_up-Descendant fuel es root (current ∷ visited) parent k) refl
          (rw (below, goes_on) at h)
  ]
]
  where
    climb :
        (o : Option ℕ) (again : ℕ → Bool)
        → ((parent : ℕ) → again parent ≡ true → Descendant es root parent)
        → parent_in current es ≡ o
        → step_up o again ≡ true
        → Descendant es root current
    climb none again rec e k = cc
    climb (some parent) again rec e k =
        Descendant.child current parent (parent_in-Listed es current parent e) (rec parent k)

open_checked_only :
    (fuel : ℕ) (es : List (ℕ × ℕ)) (root target : ℕ)
    → open_checked fuel (some es) (some root) target ≡ OpenAnswer.real_call
    → (target ≡ 0) ⊎ ((target ≡ 4) ⊎ Descendant es root target)
unfolding is_descendant_of_root
open_checked_only fuel es root target h = elim (Bool-cases (target == 0)) [
  | inl z ↦ inl (==→eq target 0 z)
  | inr nz ↦ elim (Bool-cases (target == 4)) [
    | inl f ↦ inr (inl (==→eq target 4 f))
    | inr nf ↦ elim (Bool-cases (target == root)) [
      | inl r ↦ inr (inr (subst (Descendant es root) (sym (==→eq target root r)) Descendant.itself))
      | inr nr ↦ elim (Bool-cases (walk_up fuel es root [] target)) [
        | inl up ↦ inr (inr (walk_up-Descendant fuel es root [] target up))
        | inr down ↦ let refused = rw (nz, nf, nr, down) at h in cc
      ]
    ]
  ]
]

-- When the hook is set up and not bypassed and lets a call for a named process through to the system,
-- then the process, its identifier taken modulo 2^32, is 0, 4, the container's root or a descendant of
-- it in the list of processes. Every other process of the host is refused.
pub open_only :
    (fuel : ℕ) (es : List (ℕ × ℕ)) (root target : ℕ)
    → hook_nt_open_process fuel (some es) false (some root) (some target) ≡ OpenAnswer.real_call
    → (target % 2 ^ 32 ≡ 0) ⊎ ((target % 2 ^ 32 ≡ 4) ⊎ Descendant es root (target % 2 ^ 32))
unfolding hook_nt_open_process
open_only fuel es root target h = open_checked_only fuel es root (target % 2 ^ 32) h
