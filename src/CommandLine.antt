-- ===== src/CommandLine.antt =====
-- The values of command line options (crates/psroot-cli/src/main_windows.rs): amounts of memory, volumes
-- and bind specifications.
use psroot.Prelude.{
  ℕ, zero, suc, ◌+◌, ◌-◌, ◌*◌, ◌%◌, ◌^◌, Bool, true, false, ◌&&◌, ◌||◌, not, Option, none, some,
  List, [], ◌∷◌, ◌++◌, ◌==◌, leb, take, drop, if◌then◌else◌,
}
use psroot.Text.{Text, codes, text_eq, trim}
use psroot.Text.Split.{cut_at}
use psroot.Text.Decimal.{read_number}
use psroot.Container.{VolumeMount}
pub mod Amounts
pub mod Paths

-- `to_uppercase`, for ASCII.
abbrev pub upper : ℕ → ℕ
upper c = if leb b'a' c && leb c b'z' then c - 32 else c

abbrev pub to_upper : Text → Text
to_upper [] = []
to_upper (c ∷ s) = upper c ∷ to_upper s

-- A text without its last byte, and that byte.
abbrev pub cut_last : Text → Option (Text × ℕ)
cut_last [] = none
cut_last (c ∷ s) = elim (cut_last s) [ none ↦ some ([], c) | some (t, d) ↦ some (c ∷ t, d) ]

-- The product wraps around, as it does in a release build.
abbrev pub scaled : ℕ → Option ℕ → Option ℕ
scaled unit none = none
scaled unit (some n) = some (n * unit % 2 ^ 64)

abbrev pub with_unit : Text → Option (Text × ℕ) → Option ℕ
with_unit s none = read_number (2 ^ 64) s
with_unit s (some (t, u)) =
    if u == b'G'
    then scaled (1024 * 1024 * 1024) (read_number (2 ^ 64) t)
    else if u == b'M'
    then scaled (1024 * 1024) (read_number (2 ^ 64) t)
    else if u == b'K'
    then scaled 1024 (read_number (2 ^ 64) t)
    else read_number (2 ^ 64) s

-- None stands for the one error.
unfoldable pub parse_memory : Text → Option ℕ
parse_memory s = let t = to_upper (trim s) in with_unit t (cut_last t)

-- The parts of `splitn(3, ':')`.
abbrev pub last_parts : Text → Text → Option (Text × Text) → VolumeMount
last_parts host rest none = record {
  host_path = host;
  container_path = rest;
  read_only = text_eq rest (codes "ro");
}
last_parts host rest (some (container, last)) = record {
  host_path = host;
  container_path = container;
  read_only = text_eq last (codes "ro");
}

abbrev pub volume_parts : Option (Text × Text) → Option VolumeMount
volume_parts none = none
volume_parts (some (host, rest)) = some (last_parts host rest (cut_at b':' rest))

unfoldable pub parse_volume : Text → Option VolumeMount
parse_volume s = volume_parts (cut_at b':' s)

-- `strip_suffix`
abbrev pub strip_suffix : Text → Text → Option Text
strip_suffix p [] = if text_eq [] p then some [] else none
strip_suffix p (c ∷ s) =
    let rest = strip_suffix p s in
    if text_eq (c ∷ s) p then some [] else elim rest [ none ↦ none | some t ↦ some (c ∷ t) ]

pub data BindError : Type 0 where
  no_drive no_separator empty_path : BindError

pub data BindResult : Type 0 where
  ok : VolumeMount → BindResult
  err : BindError → BindResult

abbrev pub is_alphabetic : ℕ → Bool
is_alphabetic c = (leb b'a' c && leb c b'z') || (leb b'A' c && leb c b'Z')

abbrev pub backslash : ℕ
backslash = 92

abbrev pub is_slash : ℕ → Bool
is_slash c = c == backslash || c == b'/'

-- A colon at `i` before a slash or at the end, after the bytes `p2` and `p1`.
abbrev pub before_slash : ℕ → ℕ → ℕ → ℕ
before_slash p2 p1 i = if is_alphabetic p1 && (p2 == b':' || is_slash p2) then i - 2 else i

abbrev pub colon_or_end : Text → Bool
colon_or_end [] = true
colon_or_end (c ∷ s) = c == b':'

-- Whether a colon at `i` is the separator, or where the rest of the scan finds it.
abbrev pub at_colon : ℕ → ℕ → ℕ → Text → Option ℕ → Option ℕ
at_colon p2 p1 i [] rest = some (before_slash p2 p1 i)
at_colon p2 p1 i (n ∷ s) rest =
    if is_slash n
    then some (before_slash p2 p1 i)
    else if is_alphabetic n && colon_or_end s
    then some i
    else rest

-- The scan for the separator, with the two bytes before the index.
abbrev pub scan : ℕ → ℕ → ℕ → Text → Option ℕ
scan p2 p1 i [] = none
scan p2 p1 i (c ∷ s) =
    let rest = scan p1 c (suc i) s in if c == b':' then at_colon p2 p1 i s rest else rest

abbrev pub nonempty : Text → Text → Bool → BindResult
nonempty [] container read_only = err BindError.empty_path
nonempty (h ∷ host) [] read_only = err BindError.empty_path
nonempty (h ∷ host) (c ∷ container) read_only =
    ok (record { host_path = h ∷ host; container_path = c ∷ container; read_only = read_only })

abbrev pub separated : Text → Bool → Option ℕ → BindResult
separated body read_only none = err BindError.no_separator
separated body read_only (some sep) = nonempty (take sep body) (drop (suc sep) body) read_only

unfoldable pub parse_body : Text → Bool → BindResult
parse_body (d ∷ c ∷ e ∷ s) read_only =
    if c == b':'
    then separated (d ∷ c ∷ e ∷ s) read_only (scan d c 2 (e ∷ s))
    else err BindError.no_drive
parse_body _ read_only = err BindError.no_drive

abbrev pub with_mode : Text → Option Text → Option Text → BindResult
unfolding parse_body
with_mode raw (some body) other = parse_body body true
with_mode raw none (some body) = parse_body body false
with_mode raw none none = parse_body raw false

unfoldable pub parse_bind_spec : Text → BindResult
unfolding parse_body
parse_bind_spec s =
    let raw = trim s in
    with_mode raw (strip_suffix (codes ":ro") raw) (strip_suffix (codes ":rw") raw)
