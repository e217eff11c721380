-- ===== src/Ring/Window.antt =====
-- The slots between tail and head, read round the array: how a write just past them extends them.
use native.Mathlib.Nat.{mod-add-mod, mod-eq_of_lt, mod-eq-sub-mod, mod-lt, add-zero}
use native.Mathlib.Decide.{dec_lt}
use psroot.Prelude.{
  ℕ, zero, suc, ◌+◌, ◌-◌, ◌%◌, ◌<◌, ◌≤◌, ◌≡◌, ◌≢◌, refl, sym, ap, ap₂, ◌∙◌, List, [], ◌∷◌, ◌++◌,
  length, get_or, set, get_or-set_ne, arith,
}
use psroot.Ring.{Slot, blank_slot}

-- The `n` slots from counter `t` on, in an array of `size` slots.
abbrev pub window : List Slot → ℕ → ℕ → ℕ → List Slot
window slots size t zero = []
window slots size t (suc n) = get_or slots (t % size) blank_slot ∷ window slots size (suc t) n

pub length-window : (slots : List Slot) (size t n : ℕ) → length (window slots size t n) ≡ n
length-window slots size t zero = refl
length-window slots size t (suc n) = ap suc (length-window slots size (suc t) n)

-- Only the place in the array matters, not the counter.
pub window_place :
    (slots : List Slot) (size n t u : ℕ)
    → t % size ≡ u % size
    → window slots size t n ≡ window slots size u n
window_place slots size zero t u e = refl
window_place slots size (suc n) t u e =
    ap₂ (λ i w. get_or slots i blank_slot ∷ w) e (window_place slots size n (suc t) (suc u) next)
  where
    next : suc t % size ≡ suc u % size
    next =
        ap (λ k. k % size) (omega arith)
        ∙ sym (mod-add-mod t size 1)
        ∙ ap (λ k. (k + 1) % size) e
        ∙ mod-add-mod u size 1
        ∙ ap (λ k. k % size) (omega arith)

-- Fewer than `size` steps do not come back to the same place.
pub place-ne : (t k size : ℕ) → suc k < size → (t + suc k) % size ≢ t % size
place-ne t k size h e = elim (dec_lt (t % size + suc k) size) [
  | yes p ↦ omega (arith, mod-add-mod t size (suc k), mod-eq_of_lt p)
  | no p ↦ omega (
    arith,
    mod-add-mod t size (suc k),
    mod-lt t {m = size} (omega arith),
    mod-eq-sub-mod {n = t % size + suc k} {m = size} (omega arith),
    mod-eq_of_lt {n = t % size + suc k - size} {m = size}
        (omega (arith, mod-lt t {m = size} (omega arith))),
  )
]

-- A write at the end of a window, or past it, is not seen in it.
pub window-set_outside :
    (slots : List Slot) (size n m t i : ℕ) (v : Slot)
    → n ≤ m
    → m < size
    → i ≡ (t + m) % size
    → window (set slots i v) size t n ≡ window slots size t n
window-set_outside slots size zero m t i v hn hm e = refl
window-set_outside slots size (suc n) zero t i v hn hm e = absurd (omega arith)
window-set_outside slots size (suc n) (suc m) t i v hn hm e =
    ap₂ ◌∷◌ (get_or-set_ne slots i (t % size) v blank_slot (λ q. place-ne t m size hm (sym e ∙ q)))
      (window-set_outside slots size n m (suc t) i v (omega arith) (omega arith)
        (e ∙ ap (λ k. k % size) (omega arith)))

pub window_last :
    (slots : List Slot) (size n t : ℕ)
    → window slots size t (suc n)
      ≡ window slots size t n ++ get_or slots ((t + n) % size) blank_slot ∷ []
window_last slots size zero t = ap (λ k. get_or slots (k % size) blank_slot ∷ []) (sym (add-zero t))
window_last slots size (suc n) t =
    ap (λ w. get_or slots (t % size) blank_slot ∷ w)
      (window_last slots size n (suc t)
        ∙ ap (λ k. window slots size (suc t) n ++ get_or slots (k % size) blank_slot ∷ [])
            (omega arith))
