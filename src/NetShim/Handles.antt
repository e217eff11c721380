-- ===== src/NetShim/Handles.antt =====
-- What allocating and forgetting do to the table of handles (crates/psroot-netshim/src/state.rs).
use psroot.Prelude.{
  ℕ, suc, ◌+◌, ◌^◌, ◌≤◌, ◌<◌, ◌≡◌, ◌≢◌, refl, sym, ap, ◌∙◌, Bool-cases, inl, inr, Option, none,
  some, Option-cases, List, [], ◌∷◌, ◌==◌, ==→eq, ==→ne, ==_self, ne→==, if◌then◌else◌, arith,
}
use psroot.NetShim.{ShimState, new_state, map_get, map_remove, map_insert, alloc_fake, lookup}

map_get-map_remove_ne :
    (k i : ℕ) (es : List (ℕ × ℕ)) → i ≢ k → map_get i (map_remove k es) ≡ map_get i es
map_get-map_remove_ne k i [] h = refl
map_get-map_remove_ne k i ((j, v) ∷ es) h = elim (Bool-cases (k == j)) [
  | inl e ↦ rw (e, ne→== i j (λ q. h (q ∙ sym (==→eq k j e)))) (map_get-map_remove_ne k i es h)
  | inr e ↦ rw e (ap (λ o. if i == j then some v else o) (map_get-map_remove_ne k i es h))
]

-- Removing a key that is not there changes nothing.
pub map_remove-absent : (k : ℕ) (es : List (ℕ × ℕ)) → map_get k es ≡ none → map_remove k es ≡ es
map_remove-absent k [] h = refl
map_remove-absent k ((j, v) ∷ es) h = elim (Bool-cases (k == j)) [
  | inl e ↦ let found = rw e at h in cc
  | inr e ↦ rw e (ap (λ l. (j, v) ∷ l) (map_remove-absent k es (rw e at h)))
]

none-ne-some : (v : ℕ) → none ≡ some v → ⊥
none-ne-some v e = cc

-- Every handle in the table is one that has been handed out.
pub IsValid : ShimState → Type 0
IsValid s = (h v : ℕ) → lookup h s ≡ some v → h < s.next_fake

pub new_state-IsValid : IsValid new_state
unfolding IsValid lookup
new_state-IsValid h v e = absurd (none-ne-some v e)

pub record Allocated (virt : ℕ) (s : ShimState) (h : ℕ) (t : ShimState) : Type 0 where
  pub unused : lookup h s ≡ none
  pub stored : lookup h t ≡ some virt
  pub others : (i : ℕ) → i ≢ h → lookup i t ≡ lookup i s
  pub valid : IsValid t

-- A handle that is allocated was unknown, and is then known as the socket id that it was allocated for;
-- every other handle stands for what it stood for, and the table stays valid, as long as the counter
-- has not run through its 64 bits.
pub alloc_fake-Allocated :
    (virt : ℕ) (s : ShimState)
    → IsValid s
    → s.next_fake + 1 < 2 ^ 64
    → Allocated virt s (alloc_fake virt s).0 (alloc_fake virt s).1
unfolding alloc_fake lookup IsValid
alloc_fake-Allocated virt s v room =
    let k = s.next_fake in
    let others : (i : ℕ) → i ≢ k → map_get i (map_insert k virt s.sockets) ≡ map_get i s.sockets =
      λ i h. rw (ne→== i k h) (map_get-map_remove_ne k i s.sockets h) in
    record {
      unused = elim (Option-cases (map_get k s.sockets)) [
        | inl e ↦ e
        | inr (w, e) ↦ absurd (omega (arith, v k w e))
      ];
      stored = rw (==_self k) refl;
      others = others;
      valid = λ h w e. elim (Bool-cases (h == k)) [
        | inl q ↦ omega (arith, ==→eq h k q)
        | inr q ↦ omega (arith, v h w (sym (others h (==→ne h k q)) ∙ e))
      ];
    }

pub record Forgotten (h : ℕ) (s : ShimState) (out : Option ℕ) (t : ShimState) : Type 0 where
  pub was : out ≡ lookup h s
  pub gone : lookup h t ≡ none
  pub others : (i : ℕ) → i ≢ h → lookup i t ≡ lookup i s
  pub valid : IsValid t

-- Each handle is above a bound, and above all handles before it.
abbrev pub Rising : ℕ → List ℕ → Type 0
Rising low [] = Unit
Rising low (h ∷ hs) = (low ≤ h) × Rising (suc h) hs
