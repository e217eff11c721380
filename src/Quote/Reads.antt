-- ===== src/Quote/Reads.antt =====
-- What a program reads of a quoted argument.
use psroot.Prelude.{
  ℕ, zero, suc, ◌+◌, ◌*◌, ◌/◌, ◌%◌, ◌≡◌, refl, sym, ap, ◌∙◌, Bool, true, false, ◌||◌, Bool-cases,
  inl, inr, [], ◌∷◌, ◌++◌, append_assoc, append-nil, right_false, ◌==◌, ==→eq, replicate, arith,
}
use psroot.Text.{Text, is_white}
use psroot.Text.Split.{Lacks}
use psroot.Quote.{
  backslash, quote, any, is_separator, wants_quote, escape, is_empty, quote_arg_for_cmdline,
  escape_quotes, quote_arg, read_arg,
}

-- Where an argument may end: at the end of the line or at a separator.
pub data Ends : Text → Text → Type 0 where
  at_end : Ends [] []
  at_separator : (c : ℕ) (rest : Text) → is_separator c ≡ true → Ends (c ∷ rest) rest

read_arg-Ends :
    (n : ℕ) (t rest : Text) → Ends t rest → read_arg false n t ≡ (replicate n backslash, rest)
unfolding read_arg
read_arg-Ends n _ _ Ends.at_end = refl
read_arg-Ends n _ _ (Ends.at_separator c rest h) =
    let a : (c == backslash) ≡ false = ground arith in
    let b : (c == quote) ≡ false = ground arith in rw (a, b, h) refl

any-none :
    (test : ℕ → Bool) (c : ℕ) (s : Text)
    → any test (c ∷ s) ≡ false
    → (test c ≡ false) × (any test s ≡ false)
any-none test c s h = elim (Bool-cases (test c)) [
  | inl e ↦ let f = rw e at h in cc
  | inr e ↦ (e, rw e at h)
]

not_quote : (c : ℕ) → wants_quote c ≡ false → (c == quote) ≡ false
not_quote c h = ground arith

not_separator : (c : ℕ) → wants_quote c ≡ false → is_separator c ≡ false
not_separator c h = ground arith

read_arg-replicate :
    (quoted : Bool) (n k : ℕ) (t : Text)
    → read_arg quoted n (replicate k backslash ++ t) ≡ read_arg quoted (n + k) t
unfolding read_arg
read_arg-replicate quoted n zero t = ap (λ m. read_arg quoted m t) {x = n} {y = n + 0} (omega arith)
read_arg-replicate quoted n (suc k) t =
    read_arg-replicate quoted (n + 1) k t
    ∙ ap (λ m. read_arg quoted m t) {x = n + 1 + k} {y = n + suc k} (omega arith)

replicate_snoc :
    (n : ℕ) (s : Text) → replicate (n + 1) backslash ++ s ≡ replicate n backslash ++ backslash ∷ s
replicate_snoc zero s = refl
replicate_snoc (suc n) s =
    ap (λ m. replicate m backslash ++ s) {x = suc n + 1} {y = suc (n + 1)} (omega arith)
    ∙ ap (λ t. backslash ∷ t) (replicate_snoc n s)

quote_even :
    (n : ℕ) (t : Text)
    → read_arg true 0 (replicate (n * 2) backslash ++ quote ∷ t)
      ≡ (replicate n backslash ++ (read_arg false 0 t).0, (read_arg false 0 t).1)
unfolding read_arg
quote_even n t =
    let even : ((0 + n * 2) % 2 == 0) ≡ true = ground arith in
    let half : (0 + n * 2) / 2 ≡ n = omega arith in
    read_arg-replicate true 0 (n * 2) (quote ∷ t) ∙ rw (even, half) refl

quote_odd :
    (n : ℕ) (t : Text)
    → read_arg true 0 (replicate (n * 2 + 1) backslash ++ quote ∷ t)
      ≡ (replicate n backslash ++ quote ∷ (read_arg true 0 t).0, (read_arg true 0 t).1)
unfolding read_arg
quote_odd n t =
    let odd : ((0 + (n * 2 + 1)) % 2 == 0) ≡ false = ground arith in
    let half : (0 + (n * 2 + 1)) / 2 ≡ n = omega arith in
    read_arg-replicate true 0 (n * 2 + 1) (quote ∷ t) ∙ rw (odd, half) refl

read_arg_plain :
    (n c : ℕ) (t : Text)
    → (c == backslash) ≡ false
    → (c == quote) ≡ false
    → read_arg true 0 (replicate n backslash ++ c ∷ t)
      ≡ (replicate n backslash ++ c ∷ (read_arg true 0 t).0, (read_arg true 0 t).1)
unfolding read_arg
read_arg_plain n c t b q =
    let same : 0 + n ≡ n = omega arith in read_arg-replicate true 0 n (c ∷ t) ∙ rw (b, q, same) refl

read_arg-escape :
    (n : ℕ) (s t rest : Text)
    → Ends t rest
    → read_arg true 0 (escape n s ++ t) ≡ (replicate n backslash ++ s, rest)
read_arg-escape n [] t rest ends =
    ap (read_arg true 0) (append_assoc (replicate (n * 2) backslash) (quote ∷ []) t)
    ∙ quote_even n t
    ∙ ap (λ (r : Text × Text). (replicate n backslash ++ r.0, r.1)) (read_arg-Ends 0 t rest ends)
read_arg-escape n (c ∷ s) t rest ends = elim (Bool-cases (c == backslash)) [
  | inl b ↦ rw b (
      read_arg-escape (n + 1) s t rest ends
      ∙ ap (λ (r : Text). (r, rest))
          (replicate_snoc n s
            ∙ ap (λ d. replicate n backslash ++ d ∷ s) (sym (==→eq c backslash b))))
  | inr b ↦ elim (Bool-cases (c == quote)) [
    | inl q ↦
        rw (b, q)
          (ap (read_arg true 0)
              (append_assoc (replicate (n * 2 + 1) backslash) (quote ∷ escape 0 s) t)
            ∙ quote_odd n (escape 0 s ++ t)
            ∙ ap (λ (r : Text × Text). (replicate n backslash ++ quote ∷ r.0, r.1))
                (read_arg-escape 0 s t rest ends)
            ∙ ap (λ d. (replicate n backslash ++ d ∷ s, rest)) (sym (==→eq c quote q)))
    | inr q ↦
        rw (b, q)
          (ap (read_arg true 0) (append_assoc (replicate n backslash) (c ∷ escape 0 s) t)
            ∙ read_arg_plain n c (escape 0 s ++ t) b q
            ∙ ap (λ (r : Text × Text). (replicate n backslash ++ c ∷ r.0, r.1))
                (read_arg-escape 0 s t rest ends))
  ]
]

-- A text that needs no quotes is read as it stands.
read_arg_bare :
    (n : ℕ) (s t rest : Text)
    → any wants_quote s ≡ false
    → Ends t rest
    → read_arg false n (s ++ t) ≡ (replicate n backslash ++ s, rest)
unfolding read_arg
read_arg_bare n [] t rest h ends =
    read_arg-Ends n t rest ends
    ∙ ap (λ (r : Text). (r, rest)) (sym (append-nil (replicate n backslash)))
read_arg_bare n (c ∷ s) t rest h ends =
    let plain = any-none wants_quote c s h in
    let q : (c == quote) ≡ false = not_quote c plain.0 in
    let w : is_separator c ≡ false = not_separator c plain.0 in
    elim (Bool-cases (c == backslash)) [
      | inl b ↦ rw b (
          read_arg_bare (n + 1) s t rest plain.1 ends
          ∙ ap (λ (r : Text). (r, rest))
              (replicate_snoc n s
                ∙ ap (λ d. replicate n backslash ++ d ∷ s) (sym (==→eq c backslash b))))
      | inr b ↦
          rw (b, q, w)
            (ap (λ (r : Text × Text). (replicate n backslash ++ c ∷ r.0, r.1))
              (read_arg_bare 0 s t rest plain.1 ends))
    ]

-- What the command line tool quotes is read as the same argument, whatever bytes it has, and the
-- reading goes on after the separator that follows it, or ends with the line.
pub read_arg-quote_arg_for_cmdline :
    (s t rest : Text) → Ends t rest → read_arg false 0 (quote_arg_for_cmdline s ++ t) ≡ (s, rest)
unfolding quote_arg_for_cmdline read_arg
read_arg-quote_arg_for_cmdline s t rest ends = elim (Bool-cases (is_empty s || any wants_quote s)) [
  | inl q ↦ rw q (read_arg-escape 0 s t rest ends)
  | inr q ↦ rw q (read_arg_bare 0 s t rest (right_false (is_empty s) (any wants_quote s) q) ends)
]

any-append : (test : ℕ → Bool) (s t : Text) → any test s ≡ true → any test (s ++ t) ≡ true
any-append test [] t h = cc
any-append test (c ∷ s) t h = elim (Bool-cases (test c)) [
  | inl e ↦ rw e refl
  | inr e ↦ rw e (any-append test s t (rw e at h))
]

escape_quotes-append : (s t : Text) → Lacks quote s → escape_quotes (s ++ t) ≡ s ++ escape_quotes t
escape_quotes-append [] t h = refl
escape_quotes-append (c ∷ s) t h = rw h.0 (ap (λ r. c ∷ r) (escape_quotes-append s t h.1))

read_arg_plain_all :
    (s t : Text)
    → Lacks quote s
    → Lacks backslash s
    → read_arg true 0 (s ++ t) ≡ (s ++ (read_arg true 0 t).0, (read_arg true 0 t).1)
read_arg_plain_all [] t q b = refl
read_arg_plain_all (c ∷ s) t q b =
    read_arg_plain 0 c (s ++ t) b.0 q.0
    ∙ ap (λ (r : Text × Text). (c ∷ r.0, r.1)) (read_arg_plain_all s t q.1 b.1)

quote_arg_spaced :
    (s : Text)
    → any (λ d. is_white d || d == quote) s ≡ true
    → quote_arg s ≡ quote ∷ (escape_quotes s ++ quote ∷ [])
unfolding quote_arg
quote_arg_spaced [] h = cc
quote_arg_spaced (c ∷ s) h = rw h refl

-- The sandbox's quoting of an argument that has white space and ends with a backslash is read as
-- another argument: the backslash is lost, a quote takes its place, and the reading goes on between
-- quotes into whatever follows on the line. The rest of the argument has no quote and no backslash.
pub read_arg-quote_arg-backslash :
    (s t : Text)
    → any (λ d. is_white d || d == quote) s ≡ true
    → Lacks quote s
    → Lacks backslash s
    → (read_arg false 0 (quote_arg (s ++ backslash ∷ []) ++ t)).0
      ≡ s ++ quote ∷ (read_arg true 0 t).0
unfolding read_arg
read_arg-quote_arg-backslash s t white q b =
    let written : quote_arg (s ++ backslash ∷ []) ++ t ≡ quote ∷ (s ++ backslash ∷ quote ∷ t) =
      ap (λ r. r ++ t)
        (quote_arg_spaced (s ++ backslash ∷ []) (any-append _ s (backslash ∷ []) white))
      ∙ ap (λ r. quote ∷ ((r ++ quote ∷ []) ++ t)) (escape_quotes-append s (backslash ∷ []) q)
      ∙ ap (λ r. quote ∷ r) (regroup s t) in
    ap (λ r. (read_arg false 0 r).0) written
    ∙ ap (λ (r : Text × Text). r.0) (read_arg_plain_all s (backslash ∷ quote ∷ t) q b)
  where
    regroup : (s t : Text) → ((s ++ backslash ∷ []) ++ quote ∷ []) ++ t ≡ s ++ backslash ∷ quote ∷ t
    regroup [] t = refl
    regroup (c ∷ s) t = ap (λ r. c ∷ r) (regroup s t)
