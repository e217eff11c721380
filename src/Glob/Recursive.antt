-- ===== src/Glob/Recursive.antt =====
-- glob_recursive decides Matches (crates/psroot-container/src/app_stage.rs), so the two matchers agree.
use psroot.Prelude.{
  ℕ, ◌≡◌, ◌≢◌, ◌↔◌, refl, sym, ◌∙◌, subst, Bool, true, false, Bool-cases, inl, inr, Option, none,
  some, [], ◌∷◌, ◌==◌, ==→eq, ==→ne,
}
use psroot.Text.{Text}
use psroot.Text.Split.{Lacks}
use psroot.Glob.{
  accepts, same_letter, any_suffix, take_one, is_nil, glob_recursive, glob_match_inner,
}
use psroot.Glob.Star.{
  Matches, Matches-nil, Starred, Starred-leave, Starred-grow, Starred-inv, step-inv,
}
use psroot.Glob.Backtrack.{Answers, glob_match_inner-Answers}

tail_eq : (c d : ℕ) (t r : Text) → ◌≡◌ {A = Text} (c ∷ t) (d ∷ r) → r ≡ t
tail_eq c d t r e = cc

-- A star is tried at every end of the text.
any_suffix_iff :
    (p : Text) (f : Text → Bool) (t : Text)
    → ((s : Text) → (f s ≡ true) ↔ Matches p s)
    → (any_suffix f t ≡ true) ↔ Starred p t
any_suffix_iff p f [] h = (
  λ e. Starred-leave p [] ((h []).0 e),
  λ m. elim (Starred-inv p [] m) [ inl here ↦ (h []).1 here | inr (c, r, e, later) ↦ cc ],
)
any_suffix_iff p f (c ∷ t) h =
    let (there, back) = any_suffix_iff p f t h in
    (
      λ e. elim (Bool-cases (f (c ∷ t))) [
        | inl now ↦ Starred-leave p (c ∷ t) ((h (c ∷ t)).0 now)
        | inr other ↦ Starred-grow p c t (there (rw other at e))
      ],
      λ m. elim (Bool-cases (f (c ∷ t))) [
        | inl now ↦ rw now refl
        | inr other ↦ elim (Starred-inv p (c ∷ t) m) [
          | inl here ↦ let now = (h (c ∷ t)).1 here in cc
          | inr (d, r, e, later) ↦ rw other (back (subst (Starred p) (tail_eq c d t r e) later))
        ]
      ],
    )

head-nil : (x : ℕ) (p : Text) → x ≢ b'*' → Matches (x ∷ p) [] → ⊥
head-nil x p ne (Matches.leave x' p' t' e m) = ne e

take_one_iff :
    (x : ℕ) (p : Text) (f : Text → Bool) (test : ℕ → Bool) (t : Text)
    → x ≢ b'*'
    → ((c : ℕ) → test c ≡ accepts x c)
    → ((s : Text) → (f s ≡ true) ↔ Matches p s)
    → (take_one f test t ≡ true) ↔ Matches (x ∷ p) t
take_one_iff x p f test [] ne same h = (λ e. cc, λ m. absurd (head-nil x p ne m))
take_one_iff x p f test (c ∷ t) ne same h = (
  λ e. elim (Bool-cases (test c)) [
    | inl a ↦ Matches.step x c p t ne (sym (same c) ∙ a) ((h t).0 (rw a at e))
    | inr a ↦ let f = rw a at e in cc
  ],
  λ m. let (a, rest) = step-inv x c p t ne m in let taken = same c ∙ a in rw taken ((h t).1 rest),
)

is_nil_iff : (t : Text) → (is_nil t ≡ true) ↔ Matches [] t
is_nil_iff [] = (λ e. Matches.stop, λ m. refl)
is_nil_iff (c ∷ t) = (λ e. cc, λ m. absurd (Matches-nil c t m))

-- The recursive matcher answers true exactly when the pattern matches the text, byte by byte: a `?` stands
-- for one byte, which is a character only in ASCII, and letters are compared in the lower case of ASCII.
pub glob_recursive_iff : (p t : Text) → (glob_recursive p t ≡ true) ↔ Matches p t
unfolding glob_recursive
glob_recursive_iff [] t = is_nil_iff t
glob_recursive_iff (x ∷ p) t = elim (Bool-cases (x == b'*')) [
  | inl s ↦ rw s (
      subst (λ y. (any_suffix (glob_recursive p) t ≡ true) ↔ Matches (y ∷ p) t)
        (sym (==→eq x b'*' s)) (any_suffix_iff p (glob_recursive p) t (glob_recursive_iff p)))
  | inr s ↦ elim (Bool-cases (x == b'?')) [
    | inl q ↦
        rw (s, q)
          (take_one_iff x p (glob_recursive p) (λ c. true) t (==→ne x b'*' s) (λ c. rw q refl)
            (glob_recursive_iff p))
    | inr q ↦
        rw (s, q)
          (take_one_iff x p (glob_recursive p) (same_letter x) t (==→ne x b'*' s) (λ c. rw q refl)
            (glob_recursive_iff p))
  ]
]

-- On a text without a star the matcher of the stager and the matcher of the app staging give the same
-- answer.
pub matchers_agree : (p t : Text) → Lacks b'*' t → glob_match_inner p t ≡ some (glob_recursive p t)
matchers_agree p t plain =
    go (glob_match_inner p t) (glob_recursive p t) refl (glob_match_inner-Answers p t plain)
  where
    go :
        (o : Option Bool) (b : Bool) → glob_recursive p t ≡ b → Answers (Matches p t) o → o ≡ some b
    go none b e a = absurd a
    go (some true) true e a = refl
    go (some true) false e a = let yes_now = (glob_recursive_iff p t).1 a in cc
    go (some false) true e a = absurd (a ((glob_recursive_iff p t).0 e))
    go (some false) false e a = refl
