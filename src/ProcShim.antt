-- ===== src/ProcShim.antt =====
-- The process shim (crates/psroot-procshim/src/hooks.rs): what a container sees of the host's
-- processes. `Memory` is the buffer of a query, by the offset of each entry: an entry holds the
-- distance to the next (0 at the last), its process id and its parent's. The system's own calls are
-- parameters.
pub mod Hooks
pub mod Tree
pub mod Closure
pub mod Chain
pub mod Visible
pub mod Fuel
pub mod Opens
use psroot.Prelude.{
  ℕ, zero, suc, ◌+◌, ◌%◌, ◌^◌, Bool, true, false, not, ◌&&◌, ◌||◌, Option, none, some, List, [],
  ◌∷◌, ◌==◌, if◌then◌else◌, length,
}

pub record Entry : Type 0 where
  pub next : ℕ
  pub pid : ℕ
  pub inherited_pid : ℕ

abbrev pub Memory : Type 0
Memory = ℕ → Entry

abbrev pub set_next : ℕ → ℕ → Memory → Memory
set_next off v mem = λ j. if j == off then record (mem j) { next = v } else mem j

abbrev pub set_pid : ℕ → ℕ → Memory → Memory
set_pid off v mem = λ j. if j == off then record (mem j) { pid = v } else mem j

-- `read_usize(…) as u32`
abbrev pub pid_of : Entry → ℕ
pid_of e = e.pid % 2 ^ 32

abbrev pub parent_of : Entry → ℕ
parent_of e = e.inherited_pid % 2 ^ 32

-- A set of process ids, without repetitions.
abbrev pub contains : ℕ → List ℕ → Bool
contains x [] = false
contains x (y ∷ ys) = if x == y then true else contains x ys

abbrev pub set_insert : ℕ → List ℕ → List ℕ
set_insert x s = if contains x s then s else x ∷ s

-- The pairs of a process and its parent. The fuel is the number of entries.
unfoldable pub read_entries : ℕ → Memory → ℕ → List (ℕ × ℕ)
read_entries zero mem off = []
read_entries (suc fuel) mem off =
    let rest = read_entries fuel mem (off + (mem off).next) in
    (pid_of (mem off), parent_of (mem off)) ∷ (if (mem off).next == 0 then [] else rest)

abbrev pub add_child : ℕ × ℕ → List ℕ → List ℕ
add_child e s = if contains e.1 s && not (contains e.0 s) then e.0 ∷ s else s

-- One round over the entries.
abbrev pub add_children : List (ℕ × ℕ) → List ℕ → List ℕ
add_children [] s = s
add_children (e ∷ es) s = add_children es (add_child e s)

-- Rounds until the set has stopped growing.
unfoldable pub close_over : ℕ → List (ℕ × ℕ) → List ℕ → List ℕ
close_over zero es s = s
close_over (suc fuel) es s =
    let grown = add_children es s in
    let rest = close_over fuel es grown in if length grown == length s then grown else rest

-- The root and its descendants, and then process 0.
unfoldable pub allowed_of : List (ℕ × ℕ) → ℕ → List ℕ
unfolding close_over
allowed_of es root_pid = set_insert 0 (close_over (suc (length es)) es (root_pid ∷ []))

unfoldable pub build_allowed_pids : ℕ → Memory → ℕ → List ℕ
unfolding read_entries allowed_of
build_allowed_pids fuel mem root_pid = allowed_of (read_entries fuel mem 0) root_pid

-- Taking an entry out of the chain; the first one cannot be, and loses its id.
abbrev pub unlink : Option ℕ → ℕ → Memory → Memory
unlink none off mem = set_pid off 0 mem
unlink (some prev) off mem =
    if (mem off).next == 0
    then set_next prev 0 mem
    else set_next prev (((mem prev).next + (mem off).next) % 2 ^ 32) mem

unfoldable pub filter_process_list : ℕ → List ℕ → Memory → Option ℕ → ℕ → Memory
filter_process_list zero allowed mem prev off = mem
filter_process_list (suc fuel) allowed mem prev off =
    let keeps = contains (pid_of (mem off)) allowed in
    let mem' = if keeps then mem else unlink prev off mem in
    let prev' = if keeps then some off else prev in
    let rest = filter_process_list fuel allowed mem' prev' (off + (mem off).next) in
    if (mem off).next == 0 then mem' else rest
