-- ===== src/Glob/Star.antt =====
-- What it means that a pattern matches a text.
use psroot.Prelude.{
  ℕ, ◌≡◌, ◌≢◌, ◌↔◌, refl, sym, subst, true, Bool-cases, inl, inr, ◌⊎◌, [], ◌∷◌, ◌==◌, ==→eq,
}
use psroot.Text.{Text}
use psroot.Glob.{accepts, skip_stars, is_nil}

-- A star stands for any number of bytes, any other byte for one byte that it accepts.
pub data Matches : Text → Text → Type 0 where
  stop : Matches [] []
  leave : (x : ℕ) (p t : Text) → x ≡ b'*' → Matches p t → Matches (x ∷ p) t
  grow : (x c : ℕ) (p t : Text) → x ≡ b'*' → Matches (x ∷ p) t → Matches (x ∷ p) (c ∷ t)
  step :
      (x c : ℕ) (p t : Text) → x ≢ b'*' → accepts x c ≡ true → Matches p t → Matches (x ∷ p) (c ∷ t)

-- A star in front.
abbrev pub Starred : Text → Text → Type 0
Starred p t = Matches (b'*' ∷ p) t

pub Starred-leave : (p t : Text) → Matches p t → Starred p t
Starred-leave p t m = Matches.leave b'*' p t refl m

pub Starred-grow : (p : Text) (c : ℕ) (t : Text) → Starred p t → Starred p (c ∷ t)
Starred-grow p c t m = Matches.grow b'*' c p t refl m

-- The star takes nothing, or it takes a byte.
pub Starred-inv :
    (p t : Text) → Starred p t → Matches p t ⊎ ((c : ℕ) × (r : Text) × (t ≡ c ∷ r) × Starred p r)
Starred-inv p _ (Matches.leave x q t e m) = inl m
Starred-inv p _ (Matches.grow x c q t e m) = inr (c, t, refl, m)
Starred-inv p _ (Matches.step x c q t ne a m) = absurd (ne refl)

pub step-inv :
    (x c : ℕ) (p t : Text) → x ≢ b'*' → Matches (x ∷ p) (c ∷ t) → (accepts x c ≡ true) × Matches p t
step-inv x c p t ne (Matches.leave x' p' t' e m) = absurd (ne e)
step-inv x c p t ne (Matches.grow x' c' p' t' e m) = absurd (ne e)
step-inv x c p t ne (Matches.step x' c' p' t' ne' a m) = (a, m)

pub Matches-nil : (c : ℕ) (t : Text) → Matches [] (c ∷ t) → ⊥
Matches-nil c t m = elim m [ ]

head-nil : (x : ℕ) (p : Text) → x ≢ b'*' → Matches (x ∷ p) [] → ⊥
head-nil x p ne (Matches.leave x' p' t' e m) = ne e

tail_eq : (c d : ℕ) (t r : Text) → ◌≡◌ {A = Text} (c ∷ t) (d ∷ r) → r ≡ t
tail_eq c d t r e = cc

-- A byte that follows a star may be left out.
Starred-weaken : (x : ℕ) (p t : Text) → x ≢ b'*' → Starred (x ∷ p) t → Starred p t
Starred-weaken x p [] ne m = elim (Starred-inv (x ∷ p) [] m) [
  | inl here ↦ absurd (head-nil x p ne here)
  | inr (c, r, e, later) ↦ cc
]
Starred-weaken x p (c ∷ t) ne m = elim (Starred-inv (x ∷ p) (c ∷ t) m) [
  | inl here ↦ Starred-grow p c t (Starred-leave p t (step-inv x c p t ne here).1)
  | inr (d, r, e, later) ↦
      Starred-grow p c t
        (Starred-weaken x p t ne (subst (Starred (x ∷ p)) (tail_eq c d t r e) later))
]

-- It may also be passed over with a byte of the text.
pub Starred-drop : (x c : ℕ) (p t : Text) → x ≢ b'*' → Starred (x ∷ p) (c ∷ t) → Starred p t
Starred-drop x c p t ne m = elim (Starred-inv (x ∷ p) (c ∷ t) m) [
  | inl here ↦ Starred-leave p t (step-inv x c p t ne here).1
  | inr (d, r, e, later) ↦
      Starred-weaken x p t ne (subst (Starred (x ∷ p)) (tail_eq c d t r e) later)
]

pub two_stars : (p t : Text) → Starred (b'*' ∷ p) t → Starred p t
two_stars p [] m = elim (Starred-inv (b'*' ∷ p) [] m) [
  | inl here ↦ here
  | inr (c, r, e, later) ↦ cc
]
two_stars p (c ∷ t) m = elim (Starred-inv (b'*' ∷ p) (c ∷ t) m) [
  | inl here ↦ here
  | inr (d, r, e, later) ↦
      Starred-grow p c t (two_stars p t (subst (Starred (b'*' ∷ p)) (tail_eq c d t r e) later))
]

-- Several stars are one.
pub Starred-skip_stars : (p t : Text) → Starred p t → Starred (skip_stars p) t
Starred-skip_stars [] t m = m
Starred-skip_stars (x ∷ p) t m = elim (Bool-cases (x == b'*')) [
  | inl e ↦
      rw e
        (Starred-skip_stars p t (two_stars p t (subst (λ y. Starred (y ∷ p) t) (==→eq x b'*' e) m)))
  | inr e ↦ rw e m
]

pub skip_stars-Starred : (p t : Text) → Starred (skip_stars p) t → Starred p t
skip_stars-Starred [] t m = m
skip_stars-Starred (x ∷ p) t m = elim (Bool-cases (x == b'*')) [
  | inl e ↦
      Starred-leave (x ∷ p) t
        (subst (λ y. Matches (y ∷ p) t) (sym (==→eq x b'*' e)) (skip_stars-Starred p t (rw e at m)))
  | inr e ↦ rw e at m
]

-- Only stars match the empty text.
pub Matches-nil_iff : (p : Text) → Matches p [] ↔ (is_nil (skip_stars p) ≡ true)
Matches-nil_iff p = (there p, back p)
  where
    there : (p : Text) → Matches p [] → is_nil (skip_stars p) ≡ true
    there _ Matches.stop = refl
    there _ (Matches.leave x p t e m) = rw e (there p m)

    back : (p : Text) → is_nil (skip_stars p) ≡ true → Matches p []
    back [] h = Matches.stop
    back (x ∷ p) h = elim (Bool-cases (x == b'*')) [
      | inl e ↦ Matches.leave x p [] (==→eq x b'*' e) (back p (rw e at h))
      | inr e ↦ let f = rw e at h in cc
    ]

pub Starred-nil : (p : Text) → Starred p [] → Matches p []
Starred-nil p m = elim (Starred-inv p [] m) [ inl here ↦ here | inr (c, r, e, later) ↦ cc ]

-- A star at the end takes all that is left.
pub Starred_all : (t : Text) → Starred [] t
Starred_all [] = Starred-leave [] [] Matches.stop
Starred_all (c ∷ t) = Starred-grow [] c t (Starred_all t)
