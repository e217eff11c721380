-- ===== src/ProcShim/Hooks.antt =====
-- The two hooks of the process shim (crates/psroot-procshim/src/hooks.rs).
use psroot.Prelude.{
  ℕ, zero, suc, Bool, true, false, not, ◌||◌, ◌%◌, ◌^◌, Option, none, some, List, [], ◌∷◌, ◌==◌,
  if◌then◌else◌,
}
use psroot.ProcShim.{Memory, contains, build_allowed_pids, filter_process_list}

abbrev pub status_success : ℕ
status_success = 0

abbrev pub status_access_denied : ℕ
status_access_denied = 0xC0000022

abbrev pub is_process_class : ℕ → Bool
is_process_class class = class == 5 || (class == 57 || class == 148)

-- What the hook does with the buffer of a query that succeeded. `root` is the shim's state, once set;
-- a null buffer is none; the fuel is the number of entries.
abbrev pub filtered : ℕ → Option ℕ → Option Memory → Option Memory
filtered fuel none info = info
filtered fuel (some root) none = none
filtered fuel (some root) (some mem) =
    some (filter_process_list fuel (build_allowed_pids fuel mem root) mem none 0)

unfoldable pub hook_nt_query_system_information :
    ℕ → Bool → Option ℕ → ℕ → ℕ × Option Memory → ℕ × Option Memory
unfolding build_allowed_pids filter_process_list
hook_nt_query_system_information fuel bypassed root class (status, info) =
    if not (status == status_success)
    then (status, info)
    else if bypassed || not (is_process_class class)
    then (status, info)
    else (status, filtered fuel root info)

-- The last entry of a process id, as `HashMap::insert` leaves it.
abbrev pub parent_in : ℕ → List (ℕ × ℕ) → Option ℕ
parent_in pid [] = none
parent_in pid ((p, q) ∷ es) = elim (parent_in pid es) [
  | some r ↦ some r
  | none ↦ if pid == p then some q else none
]

abbrev pub step_up : Option ℕ → (ℕ → Bool) → Bool
step_up none again = false
step_up (some parent) again = again parent

-- The walk towards the root; a process seen twice ends it, so the fuel is one more than the entries.
unfoldable pub walk_up : ℕ → List (ℕ × ℕ) → ℕ → List ℕ → ℕ → Bool
walk_up zero es root visited current = false
walk_up (suc fuel) es root visited current =
    if current == root
    then true
    else if current == 0 || contains current visited
    then false
    else step_up (parent_in current es) (walk_up fuel es root (current ∷ visited))

-- The real process list, or none if it cannot be read.
unfoldable pub is_descendant_of_root : ℕ → Option (List (ℕ × ℕ)) → ℕ → ℕ → Bool
unfolding walk_up
is_descendant_of_root fuel none target root = false
is_descendant_of_root fuel (some es) target root = walk_up fuel es root [] target

pub data OpenAnswer : Type 0 where
  real_call denied : OpenAnswer

abbrev pub open_checked : ℕ → Option (List (ℕ × ℕ)) → Option ℕ → ℕ → OpenAnswer
open_checked fuel processes none target = OpenAnswer.real_call
open_checked fuel processes (some root) target =
    if target == 0 || (target == 4 || target == root)
    then OpenAnswer.real_call
    else if is_descendant_of_root fuel processes target root
    then OpenAnswer.real_call
    else OpenAnswer.denied

-- `client_id` is the process to open, whose low 32 bits are looked at; a null pointer is none.
unfoldable pub hook_nt_open_process :
    ℕ → Option (List (ℕ × ℕ)) → Bool → Option ℕ → Option ℕ → OpenAnswer
unfolding is_descendant_of_root
hook_nt_open_process fuel processes bypassed root none = OpenAnswer.real_call
hook_nt_open_process fuel processes true root (some target) = OpenAnswer.real_call
hook_nt_open_process fuel processes false root (some target) =
    open_checked fuel processes root (target % 2 ^ 32)
