-- ===== src/Glob/Backtrack.antt =====
-- glob_match_inner decides Matches, for texts without a star (crates/psroot-rootfs-stager/src/lib.rs).
use psroot.Prelude.{
  ℕ, zero, suc, ◌+◌, ◌<◌, ◌≤◌, ◌≡◌, ◌≢◌, ◌⊎◌, refl, sym, subst, Bool, true, false, Bool-cases, inl,
  inr, Option, none, some, [], ◌∷◌, ◌==◌, ==→eq, ==→ne, length, arith,
}
use psroot.Text.{Text}
use psroot.Text.Split.{Lacks}
use psroot.Glob.{accepts, skip_stars, is_nil, Round, go_back, at_star, glob_loop, glob_match_inner}
use psroot.Glob.Star.{
  Matches, Matches-nil, Starred, Starred-leave, Starred-grow, Starred-inv, step-inv, Starred-drop,
  Starred-skip_stars, two_stars, skip_stars-Starred, Matches-nil_iff, Starred-nil, Starred_all,
}

-- The run ended with an answer, and the answer is right about a question.
abbrev pub Answers : Type 0 → Option Bool → Type 0
Answers G none = ⊥
Answers G (some true) = G
Answers G (some false) = G → ⊥

abbrev HeadPlain : Text → Type 0
HeadPlain [] = Unit
HeadPlain (x ∷ p) = (x == b'*') ≡ false

skip_stars-HeadPlain : (p : Text) → HeadPlain (skip_stars p)
skip_stars-HeadPlain [] = tt
skip_stars-HeadPlain (x ∷ p) = elim (Bool-cases (x == b'*')) [
  | inl e ↦ rw e (skip_stars-HeadPlain p)
  | inr e ↦ rw e e
]

module _ (G : Type 0) (size : ℕ) where
  -- What the last star means: while there is none, the whole question is still open here.
  abbrev Saved : ℕ → Text → Text → Option (Text × Text) → Type 0
  Saved rounds p t none = (G → Matches p t) × (length t + 1 < rounds)
  Saved rounds p t (some (sp, st)) =
      (G → Starred sp st)
      × (Starred sp st → G)
      × (Matches sp st → Matches p t)
      × (length st < rounds)
      × (length st < size)
      × Lacks b'*' st
      × HeadPlain sp
      × ((length t < length st) ⊎ (HeadPlain p × (length t ≤ length st)))

  record Open (rounds n : ℕ) (p t : Text) (star : Option (Text × Text)) : Type 0 where
    now : Matches p t → G
    later : G → Starred p t
    saved : Saved rounds p t star
    short : length t < n
    fits : length t < size
    plain : Lacks b'*' t

  -- The question is whether a star followed by `p` matches `t`.
  Open-at_star :
      (rounds : ℕ) (p t : Text)
      → (G → Starred p t)
      → (Starred p t → G)
      → length t < rounds
      → length t < size
      → Lacks b'*' t
      → HeadPlain p
      → Open rounds size p t (some (p, t))
  Open-at_star rounds p t to from hr hs plain head = record {
    now = λ m. from (Starred-leave p t m);
    later = to;
    saved = (to, from, λ m. m, hr, hs, plain, head, inr (head, omega arith));
    short = hs;
    fits = hs;
    plain = plain;
  }

  abbrev Decides : Round → ℕ → ℕ → Type 0
  Decides next rounds n =
      (p t : Text) (star : Option (Text × Text))
      → Open rounds n p t star
      → Answers G (next p t star)

  go_back-Answers :
      (rounds n : ℕ) (p : Text) (c : ℕ) (t : Text) (star : Option (Text × Text)) (next : Round)
      → Decides next rounds size
      → (Matches p (c ∷ t) → ⊥)
      → Open (suc rounds) n p (c ∷ t) star
      → Answers G (go_back star next)
  go_back-Answers rounds n p c t none next ih differs o = λ g. differs (o.saved.0 g)
  go_back-Answers rounds n p c t (some (sp, [])) next ih differs o = elim o.saved.7 [
    | inl h ↦ absurd (omega arith)
    | inr h ↦ let f = h.1 in absurd (omega arith)
  ]
  go_back-Answers rounds n p c t (some (sp, d ∷ st)) next ih differs o =
      let (to, from, down, hr, hs, plain, head, place) = o.saved in
      ih sp st (some (sp, st)) (
        Open-at_star rounds sp st
          (λ g. elim (Starred-inv sp (d ∷ st) (to g)) [
            | inl here ↦ absurd (differs (down here))
            | inr (e, r, q, m) ↦ subst (Starred sp) (tail_eq d e st r q) m
          ])
          (λ m. from (Starred-grow sp d st m)) (omega arith) (omega arith) plain.1 head)
    where
      tail_eq : (c d : ℕ) (t r : Text) → ◌≡◌ {A = Text} (c ∷ t) (d ∷ r) → r ≡ t
      tail_eq c d t r e = cc

  at_star-Answers :
      (rounds n x : ℕ) (p : Text) (c : ℕ) (t : Text) (star : Option (Text × Text)) (next : Round)
      → Decides next rounds size
      → x ≡ b'*'
      → Open (suc rounds) n (x ∷ p) (c ∷ t) star
      → Answers G (at_star (skip_stars p) (c ∷ t) next)
  at_star-Answers rounds n x p c t star next ih e o = go (skip_stars p) refl
    where
      from : Starred p (c ∷ t) → G
      from m = o.now (subst (λ y. Matches (y ∷ p) (c ∷ t)) (sym e) m)

      to : G → Starred (skip_stars p) (c ∷ t)
      to g =
          Starred-skip_stars p (c ∷ t)
            (two_stars p (c ∷ t) (subst (λ y. Starred (y ∷ p) (c ∷ t)) e (o.later g)))

      room :
          (star : Option (Text × Text))
          → Saved (suc rounds) (x ∷ p) (c ∷ t) star
          → length (c ∷ t) < rounds
      room none h = let r = h.1 in omega arith
      room (some (sp, st)) (to, from, down, hr, hs, plain, head, inl less) = omega arith
      room (some (sp, st)) (to, from, down, hr, hs, plain, head, inr (q, le)) =
          absurd (==→ne x b'*' q e)

      go : (rest : Text) → skip_stars p ≡ rest → Answers G (at_star rest (c ∷ t) next)
      go [] h = from (skip_stars-Starred p (c ∷ t) (rw h (Starred_all (c ∷ t))))
      go (y ∷ rest) h = ih (y ∷ rest) (c ∷ t) (some (y ∷ rest, c ∷ t)) (
          rw (← h) (
            Open-at_star rounds (skip_stars p) (c ∷ t) to
              (λ m. from (skip_stars-Starred p (c ∷ t) m)) (room star o.saved) o.fits o.plain
              (skip_stars-HeadPlain p)))

  accepts-ne-star : (x c : ℕ) → accepts x c ≡ true → (c == b'*') ≡ false → x ≢ b'*'
  accepts-ne-star x c a plain = ground arith

  Open-step :
      (rounds n x c : ℕ) (p t : Text) (star : Option (Text × Text))
      → accepts x c ≡ true
      → Open rounds (suc n) (x ∷ p) (c ∷ t) star
      → Open rounds n p t star
  Open-step rounds n x c p t star a o =
      let ne = accepts-ne-star x c a o.plain.0 in
      record {
        now = λ m. o.now (Matches.step x c p t ne a m);
        later = λ g. Starred-drop x c p t ne (o.later g);
        saved = saved_step ne star o.saved;
        short = let h = o.short in omega arith;
        fits = let h = o.fits in omega arith;
        plain = o.plain.1;
      }
    where
      saved_step :
          x ≢ b'*'
          → (star : Option (Text × Text)) → Saved rounds (x ∷ p) (c ∷ t) star
          → Saved rounds p t star
      saved_step ne none h = (λ g. (step-inv x c p t ne (h.0 g)).1, omega arith)
      saved_step ne (some (sp, st)) (to, from, down, hr, hs, plain, head, place) = (
        to,
        from,
        λ m. (step-inv x c p t ne (down m)).1,
        hr,
        hs,
        plain,
        head,
        inl (shorter place),
      )
        where
          shorter :
              (length (c ∷ t) < length st) ⊎ (HeadPlain (x ∷ p) × (length (c ∷ t) ≤ length st))
              → length t < length st
          shorter (inl h) = omega arith
          shorter (inr h) = let k = h.1 in omega arith

  differ :
      (x c : ℕ) (p t : Text)
      → accepts x c ≡ false
      → (x == b'*') ≡ false
      → Matches (x ∷ p) (c ∷ t)
      → ⊥
  differ x c p t a s m = let same = (step-inv x c p t (==→ne x b'*' s) m).0 in cc

  glob_loop-Answers :
      (rounds n : ℕ) (p t : Text) (star : Option (Text × Text))
      → Open rounds n p t star
      → Answers G (glob_loop size rounds n p t star)
  unfolding glob_loop
  glob_loop-Answers rounds n p [] star o = at_end (is_nil (skip_stars p)) refl
    where
      at_end : (b : Bool) → is_nil (skip_stars p) ≡ b → Answers G (some b)
      at_end true e = o.now ((Matches-nil_iff p).1 e)
      at_end false e = λ g. let f = (Matches-nil_iff p).0 (Starred-nil p (o.later g)) in cc
  glob_loop-Answers zero n p (c ∷ t) none o = let h = o.saved.1 in absurd (omega arith)
  glob_loop-Answers zero n p (c ∷ t) (some (sp, st)) o = let h = o.saved.3 in absurd (omega arith)
  glob_loop-Answers (suc rounds) zero p (c ∷ t) star o = let h = o.short in absurd (omega arith)
  glob_loop-Answers (suc rounds) (suc n) [] (c ∷ t) star o =
      go_back-Answers rounds (suc n) [] c t star (glob_loop size rounds size)
        (glob_loop-Answers rounds size) (Matches-nil c t) o
  glob_loop-Answers (suc rounds) (suc n) (x ∷ p) (c ∷ t) star o = elim (Bool-cases (accepts x c)) [
    | inl a ↦
        rw a (glob_loop-Answers (suc rounds) n p t star (Open-step (suc rounds) n x c p t star a o))
    | inr a ↦ elim (Bool-cases (x == b'*')) [
      | inl s ↦
          rw (a, s)
            (at_star-Answers rounds (suc n) x p c t star (glob_loop size rounds size)
              (glob_loop-Answers rounds size) (==→eq x b'*' s) o)
      | inr s ↦
          rw (a, s)
            (go_back-Answers rounds (suc n) (x ∷ p) c t star (glob_loop size rounds size)
              (glob_loop-Answers rounds size) (differ x c p t a s) o)
    ]
  ]

-- On a text without a star the stager's matcher ends with an answer, true exactly when the pattern
-- matches the text; the answer never comes from its rounds running out.
pub glob_match_inner-Answers :
    (p t : Text) → Lacks b'*' t → Answers (Matches p t) (glob_match_inner p t)
unfolding glob_match_inner
glob_match_inner-Answers p t plain =
    glob_loop-Answers (Matches p t) (length t + 1) (length t + 2) (length t + 1) p t none (record {
      now = λ m. m;
      later = Starred-leave p t;
      saved = (λ m. m, omega arith);
      short = omega arith;
      fits = omega arith;
      plain = plain;
    })
