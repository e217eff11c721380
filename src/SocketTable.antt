-- ===== src/SocketTable.antt =====
-- The table of logical sockets (crates/psroot-netstack-host/src/socket_table.rs): ids are handed out
-- in order and recycled through a queue. A panic of the source (an id out of range, or no id left in
-- a u32) is `none`.
pub mod Invariant
pub mod Removal
use psroot.Prelude.{
  ℕ, zero, suc, ◌+◌, ◌^◌, Option, none, some, List, [], ◌∷◌, ◌++◌, Bool, ltb, if◌then◌else◌, length,
  get_elem?, set, ◌==◌,
}

pub record SocketTable {ℓ} (T : Type ℓ) : Type ℓ where
  pub slots : List (Option T)
  pub free : List ℕ
  pub next_id : ℕ

abbrev pub u32 : ℕ
u32 = 2 ^ 32

-- `slots.get(id).and_then(…)`: a slot out of range and an empty one are alike.
abbrev pub occupant {ℓ} : {T : Type ℓ} → Option (Option T) → Option T
occupant none = none
occupant (some o) = o

-- How many slots are taken.
abbrev pub count_some {ℓ} : {T : Type ℓ} → List (Option T) → ℕ
count_some [] = 0
count_some (none ∷ xs) = count_some xs
count_some (some x ∷ xs) = suc (count_some xs)

module _ {ℓ} {T : Type ℓ} where
  -- Index 0 is reserved: an id of 0 means "none" on the wire.
  unfoldable pub empty_table : SocketTable T
  empty_table = record { slots = none ∷ []; free = []; next_id = 1 }

  -- The branch of `insert` that recycles an id: `slots[id] = Some(value)`.
  abbrev pub recycle : ℕ → List ℕ → T → SocketTable T → Option (ℕ × SocketTable T)
  recycle id rest value t =
      if ltb id (length t.slots)
      then some (id, record t { slots = set t.slots id (some value); free = rest })
      else none

  -- The branch that takes a fresh id: `next_id.checked_add(1)`.
  abbrev pub fresh : T → SocketTable T → Option (ℕ × SocketTable T)
  fresh value t =
      if ltb (t.next_id + 1) u32
      then some
          (t.next_id, record t { slots = t.slots ++ some value ∷ []; next_id = t.next_id + 1 })
      else none

  abbrev pub insert_from : List ℕ → T → SocketTable T → Option (ℕ × SocketTable T)
  insert_from [] value t = fresh value t
  insert_from (id ∷ rest) value t = recycle id rest value t

  unfoldable pub insert : T → SocketTable T → Option (ℕ × SocketTable T)
  insert value t = insert_from t.free value t

  unfoldable pub get : ℕ → SocketTable T → Option T
  get id t = occupant (get_elem? t.slots id)

  -- The write through `get_mut`: an occupied slot takes the new state, and nothing else changes.
  unfoldable pub put : ℕ → T → SocketTable T → SocketTable T
  put id value t = record t { slots = set t.slots id (some value) }

  abbrev pub remove_found : Option T → ℕ → SocketTable T → Option T × SocketTable T
  remove_found none id t = (none, t)
  remove_found (some v) id t =
      (some v, record t { slots = set t.slots id none; free = t.free ++ id ∷ [] })

  unfoldable pub remove : ℕ → SocketTable T → Option T × SocketTable T
  remove id t = remove_found (occupant (get_elem? t.slots id)) id t

  unfoldable pub len : SocketTable T → ℕ
  len t = count_some t.slots

  unfoldable pub is_empty : SocketTable T → Bool
  unfolding len
  is_empty t = len t == 0
