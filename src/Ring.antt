-- ===== src/Ring.antt =====
-- The single-producer single-consumer ring (crates/psroot-netstack-ipc/src/ring.rs).
-- `Shared` is the mapping that both sides see: its length, the low bits of its address, the ring
-- header, and the slot array that starts behind the header. A `Ring` is one side's view of it.
-- Indices are u64 counters that wrap; a slot keeps all its `data_capacity` bytes, as the memory does.
pub mod Window
pub mod Queue
pub mod Invariant
pub mod Refine
pub mod Interleave
use Prim.Native.Nat.{bit_and}
use psroot.Prelude.{
  [], ◌∷◌, ℕ, zero, suc, ◌+◌, ◌-◌, ◌*◌, ◌%◌, ◌^◌, min, Bool, false, not, ◌||◌, List, ◌++◌, ltb, leb,
  ◌==◌, if◌then◌else◌, length, get_or, set, take, drop, replicate,
}
use psroot.Proto.{SlotHeader, data_capacity, slot_size}

pub data RingError : Type 0 where
  empty full too_small not_pow2 misaligned : RingError

pub record Slot : Type 0 where
  pub header : SlotHeader
  pub payload : List ℕ

pub record Shared : Type 0 where
  pub len : ℕ
  pub misalign : ℕ
  pub magic : ℕ
  pub version : ℕ
  pub slot_count : ℕ
  pub head : ℕ
  pub tail : ℕ
  pub futex : ℕ
  pub slots : List Slot

pub record Ring : Type 0 where
  pub mask : ℕ
  pub slot_count : ℕ

pub data Result {ℓ} (A : Type ℓ) : Type ℓ where
  ok : A → Result A
  err : RingError → Result A

abbrev pub ring_magic : ℕ
ring_magic = 0x70725f52

abbrev pub ring_version : ℕ
ring_version = 1

-- `size_of::<RingHeader>()`
abbrev pub ring_header_size : ℕ
ring_header_size = 64

abbrev pub u64 : ℕ
u64 = 2 ^ 64

abbrev pub wrapping_add : ℕ → ℕ → ℕ
wrapping_add a b = (a + b) % u64

abbrev pub wrapping_sub : ℕ → ℕ → ℕ
wrapping_sub a b = (u64 + a - b) % u64

unfoldable pub ring_bytes : ℕ → ℕ
ring_bytes slot_count = ring_header_size + slot_count * slot_size

-- One of the first `k` powers of two.
unfoldable pub is_pow2_below : ℕ → ℕ → Bool
is_pow2_below zero n = false
is_pow2_below (suc k) n = n == 2 ^ k || is_pow2_below k n

-- `u32::is_power_of_two`
abbrev pub is_power_of_two : ℕ → Bool
is_power_of_two n = is_pow2_below 32 n

-- The checks on the slot count, in the order of `create` and `attach`.
abbrev pub bad_count : ℕ → Bool
bad_count n = not (is_power_of_two n) || ltb n 2

abbrev pub view : ℕ → Ring
view slot_count = record { mask = slot_count - 1; slot_count = slot_count }

abbrev pub init_header : ℕ → Shared → Shared
init_header n s = record s {
  magic = ring_magic;
  version = ring_version;
  slot_count = n;
  head = 0;
  tail = 0;
  futex = 0;
}

unfoldable pub create : ℕ → Shared → Result Ring × Shared
create n s =
    if bad_count n
    then (err RingError.not_pow2, s)
    else if ltb s.len (ring_bytes n)
    then (err RingError.too_small, s)
    else if not (s.misalign % 64 == 0)
    then (err RingError.misaligned, s)
    else (ok (view n), init_header n s)

unfoldable pub attach : Shared → Result Ring
attach s =
    if ltb s.len ring_header_size
    then err RingError.too_small
    else if not (s.misalign % 64 == 0)
    then err RingError.misaligned
    else if not (s.magic == ring_magic)
    then err RingError.too_small
    else if bad_count s.slot_count
    then err RingError.not_pow2
    else if ltb s.len (ring_bytes s.slot_count)
    then err RingError.too_small
    else ok (view s.slot_count)

abbrev pub slot_idx : Ring → ℕ → ℕ
slot_idx r index = bit_and index r.mask

-- The byte offset that `slot_ptr` adds to the start of the buffer.
abbrev pub slot_offset : Ring → ℕ → ℕ
slot_offset r index = ring_header_size + slot_idx r index * slot_size

unfoldable pub len : Shared → ℕ
len s = wrapping_sub s.head s.tail

pub is_empty : Shared → Bool
is_empty s = len s == 0

unfoldable pub blank_header : SlotHeader
blank_header = record {
  opcode = 0;
  flags = 0;
  correlation = 0;
  socket_id = 0;
  payload_len = 0;
  args = replicate 16 0;
}

-- What a read outside the array would give: the bounds theorem rules it out.
unfoldable pub blank_slot : Slot
blank_slot = record { header = blank_header; payload = replicate data_capacity 0 }

abbrev pub read_slot : Ring → Shared → ℕ → Slot
read_slot r s index = get_or s.slots (slot_idx r index) blank_slot

-- The header with its length field set, and the bytes over the start of what the slot held.
abbrev pub written : SlotHeader → List ℕ → Slot → Slot
written h bytes old = record {
  header = record h { payload_len = length bytes % 2 ^ 32 };
  payload = bytes ++ drop (length bytes) old.payload;
}

-- The write of `try_push` into the slot of `head`.
abbrev pub write_slot : Ring → SlotHeader → List ℕ → Shared → Shared
write_slot r h bytes s = record s {
  slots = set s.slots (slot_idx r s.head) (written h bytes (read_slot r s s.head));
}

abbrev pub publish_head : Shared → Shared
publish_head s = record s { head = wrapping_add s.head 1 }

unfoldable pub try_push : Ring → SlotHeader → List ℕ → Shared → Result (Unit {0}) × Shared
try_push r h bytes s =
    if ltb data_capacity (length bytes)
    then (err RingError.too_small, s)
    else if leb r.slot_count (wrapping_sub s.head s.tail)
    then (err RingError.full, s)
    else (ok tt, publish_head (write_slot r h bytes s))

-- What `try_pop` and `try_peek` copy out of a slot: at most `data_capacity` bytes.
abbrev pub slot_message : Slot → SlotHeader × List ℕ
slot_message t = (t.header, take (min t.header.payload_len data_capacity) t.payload)

unfoldable pub try_peek : Ring → Shared → Result (SlotHeader × List ℕ)
try_peek r s =
    if s.head == s.tail then err RingError.empty else ok (slot_message (read_slot r s s.tail))

abbrev pub commit_peek : Shared → Shared
commit_peek s = record s { tail = wrapping_add s.tail 1 }

unfoldable pub try_pop : Ring → Shared → Result (SlotHeader × List ℕ) × Shared
try_pop r s =
    if s.head == s.tail
    then (err RingError.empty, s)
    else (ok (slot_message (read_slot r s s.tail)), record s { tail = wrapping_add s.tail 1 })

-- One side's calls, in order, with what each returns: for the queue and for the ring alike.
pub data Op : Type 0 where
  push : SlotHeader → List ℕ → Op
  pop : Op

pub data Reply : Type 0 where
  pushed : Result (Unit {0}) → Reply
  popped : Result (SlotHeader × List ℕ) → Reply

pub run : Ring → List Op → Shared → List Reply
run r [] s = []
run r (push h bytes ∷ ops) s =
    let (answer, s') = try_push r h bytes s in Reply.pushed answer ∷ run r ops s'
run r (pop ∷ ops) s = let (answer, s') = try_pop r s in Reply.popped answer ∷ run r ops s'
