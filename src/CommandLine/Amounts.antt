-- ===== src/CommandLine/Amounts.antt =====
-- What parse_memory reads (crates/psroot-cli/src/main_windows.rs).
use psroot.Prelude.{
  ℕ, ◌*◌, ◌%◌, ◌^◌, ◌<◌, ◌≡◌, refl, ap, ap₂, ◌∙◌, true, false, some, [], ◌∷◌, ◌++◌, All, arith,
}
use psroot.Text.{Text, trim, trim_start, trim_end, before_trimmed, is_white}
use psroot.Text.Decimal.{read_number, show, is_digit, show-IsDigits, read_number-show}
use psroot.CommandLine.{upper, to_upper, cut_last, scaled, with_unit, parse_memory}

abbrev IsDigits : Text → Type 0
IsDigits s = All (λ c. is_digit c ≡ true) s

digit_plain : (c : ℕ) → is_digit c ≡ true → (is_white c ≡ false) × (upper c ≡ c)
digit_plain c h = (ground arith, ground arith)

-- Nothing is trimmed off digits and a letter.
trim_end-digits :
    (s : Text) (u : ℕ) → IsDigits s → is_white u ≡ false → trim_end (s ++ u ∷ []) ≡ s ++ u ∷ []
trim_end-digits [] u h w = rw w refl
trim_end-digits (c ∷ []) u h w = ap (before_trimmed c) (trim_end-digits [] u tt w)
trim_end-digits (c ∷ d ∷ s) u h w = ap (before_trimmed c) (trim_end-digits (d ∷ s) u h.1 w)

trim_start-digits :
    (s : Text) (u : ℕ) → IsDigits s → is_white u ≡ false → trim_start (s ++ u ∷ []) ≡ s ++ u ∷ []
trim_start-digits [] u h w = rw w refl
trim_start-digits (c ∷ s) u h w = rw (digit_plain c h.0).0 refl

to_upper-digits : (s : Text) (u : ℕ) → IsDigits s → to_upper (s ++ u ∷ []) ≡ s ++ upper u ∷ []
to_upper-digits [] u h = refl
to_upper-digits (c ∷ s) u h =
    ap₂ (λ (x : ℕ) (xs : Text). x ∷ xs) (digit_plain c h.0).1 (to_upper-digits s u h.1)

cut_last-append : (s : Text) (u : ℕ) → cut_last (s ++ u ∷ []) ≡ some (s, u)
cut_last-append [] u = refl
cut_last-append (c ∷ s) u = rw (cut_last-append s u) refl

parse_memory-unit :
    (n u : ℕ)
    → is_white u ≡ false
    → parse_memory (show n ++ u ∷ []) ≡ with_unit (show n ++ upper u ∷ []) (some (show n, upper u))
unfolding parse_memory
parse_memory-unit n u w =
    let digits = show-IsDigits n in
    let trimmed : trim (show n ++ u ∷ []) ≡ show n ++ u ∷ [] =
      ap trim_end (trim_start-digits (show n) u digits w) ∙ trim_end-digits (show n) u digits w in
    let raised = ap to_upper trimmed ∙ to_upper-digits (show n) u digits in
    ap (λ (t : Text). with_unit t (cut_last t)) raised
    ∙ ap (with_unit (show n ++ upper u ∷ [])) (cut_last-append (show n) (upper u))

-- What the letters stand for.
pub data Suffix : ℕ → ℕ → Type 0 where
  giga : Suffix b'G' (2 ^ 30)
  giga_lower : Suffix b'g' (2 ^ 30)
  mega : Suffix b'M' (2 ^ 20)
  mega_lower : Suffix b'm' (2 ^ 20)
  kilo : Suffix b'K' (2 ^ 10)
  kilo_lower : Suffix b'k' (2 ^ 10)

-- A number and a unit below the limit are multiplied without wrapping around.
product :
    (n unit : ℕ)
    → 0 < n
    → n < 2 ^ 64
    → n * unit < 2 ^ 64
    → scaled unit (read_number (2 ^ 64) (show n)) ≡ some (n * unit)
product n unit p b h =
    let small : n * unit % 2 ^ 64 ≡ n * unit = lt-mod (n * unit) (2 ^ 64) h in
    rw (read_number-show (2 ^ 64) n p b) (ap (λ (x : ℕ). some x) small)
  where
    lt-mod : (a b : ℕ) → a < b → a % b ≡ a
    lt-mod a b h = grind arith

-- A positive amount with one of the letters G, M and K, in either case, is read as that many gibibytes,
-- mebibytes or kibibytes, if that is below 2^64.
pub parse_memory-show :
    (n u unit : ℕ)
    → Suffix u unit
    → 0 < n
    → n * unit < 2 ^ 64
    → parse_memory (show n ++ u ∷ []) ≡ some (n * unit)
parse_memory-show n _ _ giga p h =
    parse_memory-unit n b'G' refl ∙ product n (2 ^ 30) p (omega arith) h
parse_memory-show n _ _ giga_lower p h =
    parse_memory-unit n b'g' refl ∙ product n (2 ^ 30) p (omega arith) h
parse_memory-show n _ _ mega p h =
    parse_memory-unit n b'M' refl ∙ product n (2 ^ 20) p (omega arith) h
parse_memory-show n _ _ mega_lower p h =
    parse_memory-unit n b'm' refl ∙ product n (2 ^ 20) p (omega arith) h
parse_memory-show n _ _ kilo p h =
    parse_memory-unit n b'K' refl ∙ product n (2 ^ 10) p (omega arith) h
parse_memory-show n _ _ kilo_lower p h =
    parse_memory-unit n b'k' refl ∙ product n (2 ^ 10) p (omega arith) h
