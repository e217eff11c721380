-- ===== src/Text/Decimal.antt =====
-- Decimal numbers: what `parse` reads and what `to_string` writes.
use psroot.Prelude.{
  ℕ, zero, suc, ◌+◌, ◌-◌, ◌*◌, ◌/◌, ◌%◌, ◌<◌, ◌≤◌, ◌≡◌, refl, ap, ◌∙◌, Bool, true, false, ◌&&◌,
  Bool-cases, inl, inr, Option, none, some, List, [], ◌∷◌, ◌==◌, ltb, leb, lt→ltb, if◌then◌else◌,
  All, arith,
}

abbrev pub is_digit : ℕ → Bool
is_digit c = leb b'0' c && leb c b'9'

-- The digits of a number below a limit, after those that gave `acc`.
abbrev pub read_digits : ℕ → ℕ → List ℕ → Option ℕ
read_digits limit acc [] = some acc
read_digits limit acc (c ∷ s) =
    if is_digit c
    then if ltb (acc * 10 + (c - b'0')) limit
      then read_digits limit (acc * 10 + (c - b'0')) s
      else none
    else none

-- `parse` of an unsigned type: a `+` may stand first, and there is at least one digit.
abbrev pub read_number : ℕ → List ℕ → Option ℕ
read_number limit [] = none
read_number limit (c ∷ []) = read_digits limit 0 (c ∷ [])
read_number limit (c ∷ d ∷ s) =
    if c == b'+' then read_digits limit 0 (d ∷ s) else read_digits limit 0 (c ∷ d ∷ s)

-- `to_string`: the digits from the first; the fuel is the number of digits at most.
unfoldable pub show_digits : ℕ → ℕ → List ℕ → List ℕ
show_digits zero n out = out
show_digits (suc fuel) n out =
    let out' = (b'0' + n % 10) ∷ out in
    let rest = show_digits fuel (n / 10) out' in if ltb n 10 then out' else rest

unfoldable pub show : ℕ → List ℕ
unfolding show_digits
show n = show_digits (suc n) n []

-- One digit more.
read_digits-cons :
    (limit acc d : ℕ) (out : List ℕ)
    → d < 10
    → acc * 10 + d < limit
    → read_digits limit acc ((b'0' + d) ∷ out) ≡ read_digits limit (acc * 10 + d) out
read_digits-cons limit acc d out small below =
    let digit : is_digit (b'0' + d) ≡ true = ground arith in
    let same : b'0' + d - b'0' ≡ d = omega arith in
    rw (digit, same, lt→ltb (acc * 10 + d) limit below) refl

read_digits-show_digits :
    (limit fuel n : ℕ) (out : List ℕ)
    → n < fuel
    → n < limit
    → read_digits limit 0 (show_digits fuel n out) ≡ read_digits limit n out
unfolding show_digits
read_digits-show_digits limit zero n out h below = absurd (omega arith)
read_digits-show_digits limit (suc fuel) n out h below = elim (Bool-cases (ltb n 10)) [
  | inl small ↦
      let same : 0 * 10 + n % 10 ≡ n = ground arith in
      rw small (
        read_digits-cons limit 0 (n % 10) out (omega arith) (omega arith)
        ∙ ap (λ x. read_digits limit x out) same)
  | inr large ↦
      let same : n / 10 * 10 + n % 10 ≡ n = omega arith in
      let ten : 10 ≤ n = ground arith in
      rw large (
        read_digits-show_digits limit fuel (n / 10) ((b'0' + n % 10) ∷ out) (omega arith)
          (omega arith)
        ∙ read_digits-cons limit (n / 10) (n % 10) out (omega arith) (omega arith)
        ∙ ap (λ x. read_digits limit x out) same)
]

show_digits-IsDigits :
    (fuel n : ℕ) (out : List ℕ)
    → All (λ c. is_digit c ≡ true) out
    → All (λ c. is_digit c ≡ true) (show_digits fuel n out)
unfolding show_digits
show_digits-IsDigits zero n out h = h
show_digits-IsDigits (suc fuel) n out h =
    let digit : is_digit (b'0' + n % 10) ≡ true = ground arith in
    elim (Bool-cases (ltb n 10)) [
      | inl small ↦ rw small (digit, h)
      | inr large ↦ rw large (show_digits-IsDigits fuel (n / 10) ((b'0' + n % 10) ∷ out) (digit, h))
    ]

pub show-IsDigits : (n : ℕ) → All (λ c. is_digit c ≡ true) (show n)
unfolding show
show-IsDigits n = show_digits-IsDigits (suc n) n [] tt

-- A text of digits does not start with a sign.
read_number-digits :
    (limit : ℕ) (c : ℕ) (s : List ℕ)
    → is_digit c ≡ true
    → read_number limit (c ∷ s) ≡ read_digits limit 0 (c ∷ s)
read_number-digits limit c [] h = refl
read_number-digits limit c (d ∷ s) h =
    let plain : (c == b'+') ≡ false = ground arith in rw plain refl

read_number_of_digits :
    (limit n : ℕ) (s : List ℕ)
    → All (λ c. is_digit c ≡ true) s
    → 0 < n
    → read_digits limit 0 s ≡ some n
    → read_number limit s ≡ some n
read_number_of_digits limit n [] h p e = let z : none ≡ some n = absurd (zero-ne e p) in z
  where
    zero-ne : some 0 ≡ some n → 0 < n → ⊥
    zero-ne e p = ground arith
read_number_of_digits limit n (c ∷ s) h p e = read_number-digits limit c s h.0 ∙ e

-- What is written is read back.
pub read_number-show : (limit n : ℕ) → 0 < n → n < limit → read_number limit (show n) ≡ some n
unfolding show
read_number-show limit n p h =
    read_number_of_digits limit n (show n) (show-IsDigits n) p
      (read_digits-show_digits limit (suc n) n [] (omega arith) h)
