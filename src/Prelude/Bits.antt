-- ===== src/Prelude/Bits.antt =====
-- A mask of `k` ones under `&` takes the remainder modulo `2 ^ k`, whatever `k` is.
use Prim.Native.Nat.{
  ℕ, zero, suc, ◌+◌, ◌-◌, ◌*◌, ◌/◌, ◌%◌, ◌^◌, ◌≤◌, ◌<◌, min, bit_and, digits, bit_and-bitwise, ◌∣◌,
}
use mathlib.Core.Path.{◌≡◌, refl, ◌∙◌, sym, ap, ap₂, subst}
use native.Mathlib.Nat.{
  pow-suc, one-le-pow, mul-add-mod_self_left, mod-eq_of_lt, div-add-mod, mod-lt, mod-one, dvd_refl,
  dvd-mul_right_of_dvd, zero-mod,
}
use native.Mathlib.Omega.{arith}

pub pow_pos : (k : ℕ) → 0 < 2 ^ k
pow_pos k = one-le-pow k 2 (omega arith)

-- A number splits into its last binary digit and the remainder of its half.
mod-double : (x p : ℕ) → 0 < p → x % (p * 2) ≡ (x / 2) % p * 2 + x % 2
mod-double x p h =
    ap (λ t. t % (p * 2)) (omega (arith, ap (λ t. t * 2) (div-add-mod (x / 2) p)))
    ∙ mul-add-mod_self_left (p * 2) (x / 2 / p) ((x / 2) % p * 2 + x % 2)
    ∙ mod-eq_of_lt (omega (arith, mod-lt (x / 2) h))

masked_digits : ℕ → ℕ → ℕ → ℕ
masked_digits n x m = digits (λ b. zero) min n x m

masked_digits-zero : (n x : ℕ) → x ≤ n → masked_digits n x 0 ≡ 0
unfolding masked_digits
masked_digits-zero zero zero h = refl
masked_digits-zero zero (suc x) h = absurd (omega arith)
masked_digits-zero (suc n) zero h = refl
masked_digits-zero (suc n) (suc x) h = omega (arith, masked_digits-zero n (suc x / 2) (omega arith))

half_mask : (k : ℕ) → (2 ^ suc k - 1) / 2 ≡ 2 ^ k - 1
half_mask k = omega (arith, pow-suc 2 k, pow_pos k)

odd_mask : (k : ℕ) → (2 ^ suc k - 1) % 2 ≡ 1
odd_mask k = omega (arith, pow-suc 2 k, pow_pos k)

masked_digits-mod : (k n x : ℕ) → x ≤ n → masked_digits n x (2 ^ k - 1) ≡ x % 2 ^ k
unfolding masked_digits
masked_digits-mod zero n x h = masked_digits-zero n x h ∙ sym (mod-one x)
masked_digits-mod (suc k) zero zero h = sym (zero-mod _)
masked_digits-mod (suc k) zero (suc x) h = absurd (omega arith)
masked_digits-mod (suc k) (suc n) zero h = sym (zero-mod _)
masked_digits-mod (suc k) (suc n) (suc x) h =
    ap₂ (λ d b. d * 2 + b)
      (ap (masked_digits n (suc x / 2)) (half_mask k)
        ∙ masked_digits-mod k n (suc x / 2) (omega arith))
      (omega (arith, odd_mask k))
    ∙ sym (ap (λ t. suc x % t) (pow-suc 2 k) ∙ mod-double (suc x) (2 ^ k) (pow_pos k))

pub bit_and-mask : (k x : ℕ) → bit_and x (2 ^ k - 1) ≡ x % 2 ^ k
unfolding masked_digits
bit_and-mask k x = bit_and-bitwise x (2 ^ k - 1) ∙ masked_digits-mod k x x (omega arith)

-- A smaller power of two divides a larger one.
pub pow-dvd-pow : (d k n : ℕ) → n ≡ d + k → 2 ^ k ∣ 2 ^ n
pow-dvd-pow zero k n e = subst (λ m. 2 ^ k ∣ 2 ^ m) (omega arith) (dvd_refl (2 ^ k))
pow-dvd-pow (suc d) k n e =
    subst (λ m. 2 ^ k ∣ m) (sym (pow-suc 2 (d + k)) ∙ ap (λ m. 2 ^ m) (omega arith))
      (dvd-mul_right_of_dvd (2 ^ k) (pow-dvd-pow d k (d + k) refl) 2)
