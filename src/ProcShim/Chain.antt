-- ===== src/ProcShim/Chain.antt =====
-- The chain of entries in a query's buffer, and what the filter does to it
-- (crates/psroot-procshim/src/hooks.rs).
use psroot.Prelude.{
  ℕ, ◌+◌, ◌%◌, ◌^◌, ◌≤◌, ◌<◌, ◌≡◌, ◌≢◌, refl, sym, ap, ap₂, ◌∙◌, subst, true, false, Bool-cases,
  inl, inr, some, List, [], ◌∷◌, ◌==◌, ==_self, ne→==, if◌then◌else◌, length, All, arith,
}
use native.Mathlib.Nat.{mod-eq_of_lt}
use psroot.ProcShim.{Entry, Memory, set_next, pid_of, contains, filter_process_list}

-- The entries at these offsets are a chain: each leads to the next, the last to none.
abbrev pub Chain : Memory → ℕ → List ℕ → Type 0
Chain mem off [] = ⊥
Chain mem off (o ∷ []) = (o ≡ off) × ((mem off).next ≡ 0)
Chain mem off (o ∷ p ∷ os) =
    (o ≡ off) × (0 < (mem off).next) × Chain mem (off + (mem off).next) (p ∷ os)

-- The offsets whose process is in a set.
abbrev pub keep : List ℕ → Memory → List ℕ → List ℕ
keep allowed mem [] = []
keep allowed mem (o ∷ os) =
    if contains (pid_of (mem o)) allowed then o ∷ keep allowed mem os else keep allowed mem os

Chain-ext :
    (mem mem' : Memory) (off : ℕ) (os : List ℕ)
    → ((j : ℕ) → off ≤ j → (mem' j).next ≡ (mem j).next)
    → Chain mem off os
    → Chain mem' off os
Chain-ext mem mem' off [] same c = c
Chain-ext mem mem' off (o ∷ []) same (e, last) = (e, same off (omega arith) ∙ last)
Chain-ext mem mem' off (o ∷ p ∷ os) same (e, more, c) =
    let q = same off (omega arith) in
    (
      e,
      omega (arith, q, more),
      rw q
          (Chain-ext mem mem' (off + (mem off).next) (p ∷ os) (λ j h. same j (omega (arith, h))) c),
    )

Chain-head :
    (mem : Memory) (off : ℕ) (os : List ℕ) → Chain mem off os → (rest : List ℕ) × (os ≡ off ∷ rest)
Chain-head mem off [] c = absurd c
Chain-head mem off (o ∷ []) (e, last) = ([], ap (λ x. x ∷ []) e)
Chain-head mem off (o ∷ p ∷ os) (e, more, c) = (p ∷ os, ap (λ x. x ∷ p ∷ os) e)

-- An entry before a chain, leading to it.
Chain-cons :
    (mem : Memory) (p off : ℕ) (os : List ℕ)
    → p + (mem p).next ≡ off
    → 0 < (mem p).next
    → Chain mem off os
    → Chain mem p (p ∷ os)
Chain-cons mem p off [] leads more c = absurd c
Chain-cons mem p off (o ∷ os) leads more c =
    (refl, more, subst (λ k. Chain mem k (o ∷ os)) (sym leads) c)

keep-ext :
    (allowed : List ℕ) (mem mem' : Memory) (os : List ℕ)
    → ((j : ℕ) → (mem' j).pid ≡ (mem j).pid)
    → keep allowed mem' os ≡ keep allowed mem os
keep-ext allowed mem mem' [] same = refl
keep-ext allowed mem mem' (o ∷ os) same =
    ap₂ (λ x l. if contains (x % 2 ^ 32) allowed then o ∷ l else l) (same o)
      (keep-ext allowed mem mem' os same)

set_next_self : (p v : ℕ) (mem : Memory) → (set_next p v mem p).next ≡ v
set_next_self p v mem = rw (==_self p) refl

set_next_ne : (p v j : ℕ) (mem : Memory) → j ≢ p → set_next p v mem j ≡ mem j
set_next_ne p v j mem h = rw (ne→== j p h) refl

set_next-pid : (p v j : ℕ) (mem : Memory) → (set_next p v mem j).pid ≡ (mem j).pid
set_next-pid p v j mem = elim (Bool-cases (j == p)) [ inl e ↦ rw e refl | inr e ↦ rw e refl ]

-- What the filter leaves behind an entry `p` that stays.
pub record Left (allowed : List ℕ) (mem : Memory) (p : ℕ) (os : List ℕ) (out : Memory)
    : Type 0 where
  pub chain : Chain out p (p ∷ keep allowed mem os)
  pub before : (j : ℕ) → j < p → out j ≡ mem j
  pub pids : (j : ℕ) → (out j).pid ≡ (mem j).pid

module _ (allowed : List ℕ) where
  last-Left :
      (mem : Memory) (p off : ℕ)
      → p + (mem p).next ≡ off
      → p < off
      → (mem off).next ≡ 0
      → Left allowed mem p
          (off ∷ [])
          (if contains (pid_of (mem off)) allowed then mem else set_next p 0 mem)
  last-Left mem p off leads less last = elim (Bool-cases (contains (pid_of (mem off)) allowed)) [
    | inl stays ↦ rw stays (record {
      chain =
          rw stays (refl, omega arith, (sym leads, subst (λ k. (mem k).next ≡ 0) (sym leads) last));
      before = λ j h. refl;
      pids = λ j. refl;
    })
    | inr goes ↦ rw goes (record {
      chain = rw goes (refl, set_next_self p 0 mem);
      before = λ j h. set_next_ne p 0 j mem (omega arith);
      pids = λ j. set_next-pid p 0 j mem;
    })
  ]

  -- One more entry, which stays: the rest is behind it.
  stays-Left :
      (mem out : Memory) (p off : ℕ) (os : List ℕ)
      → p + (mem p).next ≡ off
      → p < off
      → contains (pid_of (mem off)) allowed ≡ true
      → Left allowed mem off os out
      → Left allowed mem p (off ∷ os) out
  stays-Left mem out p off os leads less stays l =
      let same = l.before p less in
      record {
        chain = rw stays (
            Chain-cons out p off (off ∷ keep allowed mem os)
              (ap (λ (e : Entry). p + e.next) same ∙ leads)
              (omega (arith, leads, less, ap (λ (e : Entry). e.next) same)) l.chain);
        before = λ j h. l.before j (omega arith);
        pids = l.pids;
      }

  -- One more entry, which goes: the entry before now leads past it.
  goes-Left :
      (mem out : Memory) (p off v : ℕ) (os : List ℕ)
      → contains (pid_of (mem off)) allowed ≡ false
      → Left allowed (set_next p v mem) p os out
      → Left allowed mem p (off ∷ os) out
  goes-Left mem out p off v os goes l = record {
    chain = rw goes (
        subst (λ k. Chain out p (p ∷ k))
          (keep-ext allowed mem (set_next p v mem) os (λ j. set_next-pid p v j mem)) l.chain);
    before = λ j h. l.before j h ∙ set_next_ne p v j mem (omega arith);
    pids = λ j. l.pids j ∙ set_next-pid p v j mem;
  }

  pub filter-Left :
      (os : List ℕ) (mem : Memory) (p off : ℕ)
      → p + (mem p).next ≡ off
      → p < off
      → Chain mem off os
      → All (λ o. o < 2 ^ 32) os
      → Left allowed mem p os (filter_process_list (length os) allowed mem (some p) off)
  unfolding filter_process_list
  filter-Left [] mem p off leads less c small = absurd c
  filter-Left (o ∷ []) mem p off leads less (e, last) small =
      rw (last, e) (last-Left mem p off leads less last)
  filter-Left (o ∷ q ∷ os) mem p off leads less (e, more, c) small =
      let next = (mem off).next in
      let v = ((mem p).next + next) % 2 ^ 32 in
      let there : q ≡ off + next = chain_starts (off + next) q os mem c in
      let fits : v ≡ (mem p).next + next = mod-eq_of_lt (omega (arith, leads, there, small.1.0)) in
      elim (Bool-cases (contains (pid_of (mem off)) allowed)) [
        | inl stays ↦
            rw (ne→== next 0 (omega arith), stays, e)
              (stays-Left mem _ p off (q ∷ os) leads less stays
                (filter-Left (q ∷ os) mem off (off + next) refl (omega arith) c small.1))
        | inr goes ↦
            let mem' = set_next p v mem in
            let p_next : (mem' p).next ≡ v = set_next_self p v mem in
            let c' =
              Chain-ext mem mem' (off + next) (q ∷ os)
                (λ j h. ap (λ (x : Entry). x.next) (set_next_ne p v j mem (omega arith))) c in
            rw (ne→== next 0 (omega arith), goes, e)
              (goes-Left mem _ p off v (q ∷ os) goes (
                filter-Left (q ∷ os) mem' p (off + next) (omega (arith, p_next, fits, leads))
                  (omega arith) c' small.1))
      ]
    where
      chain_starts : (k x : ℕ) (xs : List ℕ) (m : Memory) → Chain m k (x ∷ xs) → x ≡ k
      chain_starts k x [] m h = h.0
      chain_starts k x (y ∷ ys) m h = h.0
