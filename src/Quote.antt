-- ===== src/Quote.antt =====
-- Quoting of arguments for a Windows command line: quote_arg_for_cmdline of the command line tool
-- (crates/psroot-cli/src/main_windows.rs) and quote_arg of the sandbox
-- (crates/psroot-container/src/sandbox.rs). `read_arg` is how a program reads its command line, by the
-- documented rules of CommandLineToArgvW.
use psroot.Prelude.{
  ℕ, zero, suc, ◌+◌, ◌*◌, ◌/◌, ◌%◌, Bool, true, false, not, ◌&&◌, ◌||◌, List, [], ◌∷◌, ◌++◌, ◌==◌,
  if◌then◌else◌, replicate,
}
use psroot.Text.{Text, is_white}
pub mod Reads

abbrev pub backslash : ℕ
backslash = b'\\'

abbrev pub quote : ℕ
quote = b'"'

abbrev pub any : (ℕ → Bool) → Text → Bool
any test [] = false
any test (c ∷ s) = if test c then true else any test s

abbrev pub is_separator : ℕ → Bool
is_separator c = c == b' ' || c == 9

abbrev pub wants_quote : ℕ → Bool
wants_quote c = c == b' ' || (c == 9 || (c == b'"' || c == 10))

-- What is written after the opening quote, with `n` backslashes held back.
abbrev pub escape : ℕ → Text → Text
escape n [] = replicate (n * 2) backslash ++ quote ∷ []
escape n (c ∷ s) =
    let held = escape (n + 1) s in
    let rest = escape 0 s in
    if c == backslash
    then held
    else if c == quote
    then replicate (n * 2 + 1) backslash ++ quote ∷ rest
    else replicate n backslash ++ c ∷ rest

abbrev pub is_empty : Text → Bool
is_empty [] = true
is_empty (c ∷ s) = false

unfoldable pub quote_arg_for_cmdline : Text → Text
quote_arg_for_cmdline s = if is_empty s || any wants_quote s then quote ∷ escape 0 s else s

-- A backslash before each quote.
abbrev pub escape_quotes : Text → Text
escape_quotes [] = []
escape_quotes (c ∷ s) = if c == quote then backslash ∷ c ∷ escape_quotes s else c ∷ escape_quotes s

unfoldable pub quote_arg : Text → Text
quote_arg [] = quote ∷ quote ∷ []
quote_arg (c ∷ s) =
    if any (λ d. is_white d || d == quote) (c ∷ s)
    then quote ∷ (escape_quotes (c ∷ s) ++ quote ∷ [])
    else c ∷ s

-- The first argument and what follows it. `quoted` says whether the reader is between quotes, and `n`
-- counts the backslashes just read: before a quote half of them stay, and an odd one makes the quote a
-- plain character; elsewhere they all stay.
unfoldable pub read_arg : Bool → ℕ → Text → Text × Text
read_arg quoted n [] = (replicate n backslash, [])
read_arg quoted n (c ∷ s) =
    let held = read_arg quoted (n + 1) s in
    let literal = read_arg quoted 0 s in
    let toggled = read_arg (not quoted) 0 s in
    if c == backslash
    then held
    else if c == quote
    then if n % 2 == 0
      then (replicate (n / 2) backslash ++ toggled.0, toggled.1)
      else (replicate (n / 2) backslash ++ quote ∷ literal.0, literal.1)
    else if not quoted && is_separator c
    then (replicate n backslash, s)
    else (replicate n backslash ++ c ∷ literal.0, literal.1)
