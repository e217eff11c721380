-- ===== src/Shell/Order.antt =====
-- The order of versions, and what the constraints ask (crates/psroot-shell-resolver/src/version.rs).
use Prim.Native.Nat.{Ordering}
use psroot.Prelude.{
  ℕ, ◌+◌, ◌^◌, ◌<◌, ◌≡◌, ◌↔◌, refl, sym, ap, ap₂, subst, true, false, List, [], ◌∷◌, ltb, length,
  arith,
}
use psroot.Shell.Version.{Op, cmp_versions, is_lt, is_gt, matches_parts}

abbrev pub flip : Ordering → Ordering
flip Ordering.lt = Ordering.gt
flip Ordering.eq = Ordering.eq
flip Ordering.gt = Ordering.lt

-- Comparing the other way round gives the opposite.
cmp_versions-flip : (a b : List ℕ) → cmp_versions b a ≡ flip (cmp_versions a b)
unfolding cmp_versions
cmp_versions-flip [] [] = refl
cmp_versions-flip [] (y ∷ b) = ground (arith, cmp_versions-flip [] b)
cmp_versions-flip (x ∷ a) [] = ground (arith, cmp_versions-flip a [])
cmp_versions-flip (x ∷ a) (y ∷ b) = ground (arith, cmp_versions-flip a b)

-- A version below another that is not above a third is below the third.
cmp_versions_trans :
    (a b c : List ℕ)
    → cmp_versions a b ≡ Ordering.lt
    → is_gt (cmp_versions b c) ≡ false
    → cmp_versions a c ≡ Ordering.lt
unfolding cmp_versions
cmp_versions_trans [] [] c h k = cc
cmp_versions_trans [] (y ∷ b) [] h k = ground (arith, cmp_versions_trans [] b [])
cmp_versions_trans [] (y ∷ b) (z ∷ c) h k = ground (arith, cmp_versions_trans [] b c)
cmp_versions_trans (x ∷ a) [] [] h k = ground (arith, cmp_versions_trans a [] [])
cmp_versions_trans (x ∷ a) [] (z ∷ c) h k = ground (arith, cmp_versions_trans a [] c)
cmp_versions_trans (x ∷ a) (y ∷ b) [] h k = ground (arith, cmp_versions_trans a b [])
cmp_versions_trans (x ∷ a) (y ∷ b) (z ∷ c) h k = ground (arith, cmp_versions_trans a b c)

abbrev first_part : List ℕ → ℕ
first_part [] = 0
first_part (x ∷ v) = x

abbrev rest_of : List ℕ → List ℕ
rest_of [] = []
rest_of (x ∷ v) = v

-- No version is below the one without parts.
not_below_nil : (a : List ℕ) → is_lt (cmp_versions a []) ≡ false
unfolding cmp_versions
not_below_nil [] = refl
not_below_nil (x ∷ a) = ground (arith, not_below_nil a)

tilde_two :
    (x y a b : ℕ) (ts vs : List ℕ)
    → y + 1 < 2 ^ 32
    → (matches_parts Op.tilde (x ∷ y ∷ ts) (a ∷ b ∷ vs) ≡ true) ↔ (
        (a ≡ x)
        × (b ≡ y)
        × (ltb (length vs) (length ts) ≡ false)
        × (is_lt (cmp_versions vs ts) ≡ false))
unfolding matches_parts cmp_versions
tilde_two x y a b ts vs h =
    (λ m. let n = not_below_nil vs in ground arith, λ m. let n = not_below_nil vs in ground arith)

tilde_one :
    (x a : ℕ) (vs : List ℕ)
    → x + 1 < 2 ^ 32
    → (matches_parts Op.tilde (x ∷ []) (a ∷ vs) ≡ true) ↔ (a ≡ x)
unfolding matches_parts cmp_versions
tilde_one x a vs h =
    (λ m. let n = not_below_nil vs in ground arith, λ m. let n = not_below_nil vs in ground arith)

no_match :
    (target v : List ℕ)
    → ltb (length v) (length target) ≡ true
    → matches_parts Op.tilde target v ≡ true
    → ⊥
unfolding matches_parts
no_match target v short m = let f = rw short at m in cc

-- What a tilde asks of a version: the first part of the target if that is all, and else its first two
-- parts, as many parts as it has, and a rest that is not below its rest.
abbrev pub Admits : List ℕ → List ℕ → Type 0
Admits [] v = Unit
Admits (x ∷ []) v = (vs : List ℕ) × (v ≡ x ∷ vs)
Admits (x ∷ y ∷ ts) v =
    (vs : List ℕ) × (v ≡ x ∷ y ∷ vs)
    × (ltb (length vs) (length ts) ≡ false)
    × (is_lt (cmp_versions vs ts) ≡ false)

-- The part that a tilde holds fixed can be counted up.
abbrev pub HasNext : List ℕ → Type 0
HasNext [] = Unit
HasNext (x ∷ []) = x + 1 < 2 ^ 32
HasNext (x ∷ y ∷ ts) = y + 1 < 2 ^ 32

-- A tilde with a target of one part admits exactly the versions with this first part; with a target of
-- two or more, exactly the versions that start with its first two parts, have at least as many parts,
-- and whose rest is not below its rest. The last part held fixed is below 2^32 - 1.
pub tilde_iff :
    (target v : List ℕ)
    → HasNext target
    → (matches_parts Op.tilde target v ≡ true) ↔ Admits target v
unfolding matches_parts cmp_versions
tilde_iff [] v h = (λ m. tt, λ m. let n = not_below_nil v in ground arith)
tilde_iff (x ∷ []) [] h = (λ m. absurd (no_match (x ∷ []) [] (ground arith) m), λ (us, e). cc)
tilde_iff (x ∷ []) (a ∷ vs) h =
    let t = tilde_one x a vs h in
    (λ m. (vs, ap (λ (n : ℕ). n ∷ vs) (t.0 m)), λ m. t.1 (ap first_part m.1))
tilde_iff (x ∷ y ∷ ts) [] h =
    (λ m. absurd (no_match (x ∷ y ∷ ts) [] (ground arith) m), λ (us, e, r, s). cc)
tilde_iff (x ∷ y ∷ ts) (a ∷ []) h =
    (λ m. absurd (no_match (x ∷ y ∷ ts) (a ∷ []) (ground arith) m), λ (us, e, r, s). cc)
tilde_iff (x ∷ y ∷ ts) (a ∷ b ∷ vs) h =
    let t = tilde_two x y a b ts vs h in
    (
      λ m. let (p, q, r, s) = t.0 m in (vs, ap₂ (λ (m n : ℕ). m ∷ n ∷ vs) p q, r, s),
      λ (us, e, r, s).
          let same : us ≡ vs = sym (ap (λ (l : List ℕ). rest_of (rest_of l)) e) in
          t.1 (
            ap first_part e,
            ap (λ (l : List ℕ). first_part (rest_of l)) e,
            subst (λ l. ltb (length l) (length ts) ≡ false) same r,
            subst (λ l. is_lt (cmp_versions l ts) ≡ false) same s,
          ),
    )
