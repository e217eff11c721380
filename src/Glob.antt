-- ===== src/Glob.antt =====
-- The two glob matchers of the repository: glob_match_inner of the stager
-- (crates/psroot-rootfs-stager/src/lib.rs), which goes back to the last star, and glob_recursive of the
-- app staging (crates/psroot-container/src/app_stage.rs).
use psroot.Prelude.{
  ℕ, zero, suc, ◌+◌, Bool, true, false, ◌||◌, Option, none, some, List, [], ◌∷◌, ◌==◌,
  if◌then◌else◌, length, drop,
}
use psroot.Text.{Text, lower, to_lower}
pub mod Star
pub mod Backtrack
pub mod Recursive

-- `eq_ignore_ascii_case`
abbrev pub same_letter : ℕ → ℕ → Bool
same_letter a b = lower a == lower b

-- Whether a byte of the pattern stands for a byte of the text.
abbrev pub accepts : ℕ → ℕ → Bool
accepts x c = x == b'?' || same_letter x c

abbrev pub skip_stars : Text → Text
skip_stars [] = []
skip_stars (x ∷ p) = if x == b'*' then skip_stars p else x ∷ p

abbrev pub is_nil : Text → Bool
is_nil [] = true
is_nil (x ∷ p) = false

-- A round of the loop: what is left of the pattern and of the text, and where the last star was: the
-- pattern after it and the text that was left there.
abbrev pub Round : Type 0
Round = Text → Text → Option (Text × Text) → Option Bool

-- The last star takes one byte more.
abbrev pub go_back : Option (Text × Text) → Round → Option Bool
go_back none next = some false
go_back (some (sp, st)) next = next sp (drop 1 st) (some (sp, drop 1 st))

-- A star is met, and `rest` is the pattern after it and those that follow it.
abbrev pub at_star : Text → Text → Round → Option Bool
at_star [] t next = some true
at_star (x ∷ rest) t next = next (x ∷ rest) t (some (x ∷ rest, t))

-- `rounds` bounds how often a star is met or goes back, and `n` the bytes taken after that, at first
-- `size`. None if they run out.
unfoldable pub glob_loop : ℕ → ℕ → ℕ → Round
glob_loop size rounds n p [] star = some (is_nil (skip_stars p))
glob_loop size zero n p (c ∷ t) star = none
glob_loop size (suc rounds) zero p (c ∷ t) star = none
glob_loop size (suc rounds) (suc n) [] (c ∷ t) star = go_back star (glob_loop size rounds size)
glob_loop size (suc rounds) (suc n) (x ∷ p) (c ∷ t) star =
    let onward = glob_loop size (suc rounds) n p t star in
    let meet = at_star (skip_stars p) (c ∷ t) (glob_loop size rounds size) in
    let back = go_back star (glob_loop size rounds size) in
    if accepts x c then onward else if x == b'*' then meet else back

unfoldable pub glob_match_inner : Text → Text → Option Bool
unfolding glob_loop
glob_match_inner p t = glob_loop (length t + 1) (length t + 2) (length t + 1) p t none

abbrev pub slashes : Text → Text
slashes [] = []
slashes (c ∷ s) = (if c == b'\\' then b'/' else c) ∷ slashes s

unfoldable pub glob_match : Text → Text → Option Bool
unfolding glob_match_inner
glob_match pat text = glob_match_inner (to_lower (slashes pat)) (to_lower text)

-- Whether a test holds of a text or of one of its ends.
abbrev pub any_suffix : (Text → Bool) → Text → Bool
any_suffix f [] = f []
any_suffix f (c ∷ t) = if f (c ∷ t) then true else any_suffix f t

abbrev pub take_one : (Text → Bool) → (ℕ → Bool) → Text → Bool
take_one f test [] = false
take_one f test (c ∷ t) = if test c then f t else false

unfoldable pub glob_recursive : Text → Text → Bool
glob_recursive [] t = is_nil t
glob_recursive (x ∷ p) t =
    if x == b'*'
    then any_suffix (glob_recursive p) t
    else if x == b'?'
    then take_one (glob_recursive p) (λ c. true) t
    else take_one (glob_recursive p) (same_letter x) t
