-- ===== src/Ring/Invariant.antt =====
-- The invariant of a ring (crates/psroot-netstack-ipc/src/ring.rs): the counters are at most
-- `slot_count` apart, and the slots fill the mapping.
use Prim.Native.Nat.{bit_and}
use native.Mathlib.Nat.{mod-lt, pow-le-pow_right}
use psroot.Prelude.{
  ℕ, zero, suc, ◌+◌, ◌-◌, ◌/◌, ◌%◌, ◌^◌, ◌≤◌, ◌<◌, ◌≡◌, ◌≢◌, refl, sym, ap, ◌∙◌, true, Bool-cases,
  inl, inr, List, [], ◌∷◌, length, get_or, set, ◌==◌, length-set, length-append, length-drop,
  length-replicate, drop, ltb, leb, ==→eq, ==→ne, tests, All, arith,
}
use psroot.Prelude.Bits.{bit_and-mask, pow_pos}
use psroot.Proto.{SlotHeader, data_capacity, slot_size}
use psroot.Ring.{
  Slot, Shared, Ring, ok, u64, ring_bytes, ring_header_size, is_pow2_below, view, init_header,
  is_power_of_two, create, attach, slot_idx, slot_offset, wrapping_sub, written, read_slot,
  write_slot, try_push, try_pop, commit_peek, blank_slot, len, publish_head,
}

abbrev pub HasCapacity : Slot → Type 0
HasCapacity t = length t.payload ≡ data_capacity

pub record IsValid (r : Ring) (s : Shared) : Type 0 where
  pub exponent : ℕ
  pub small : exponent < 32
  pub count : r.slot_count ≡ 2 ^ exponent
  pub masked : r.mask ≡ 2 ^ exponent - 1
  pub head_u64 : s.head < u64
  pub tail_u64 : s.tail < u64
  pub fill : wrapping_sub s.head s.tail ≤ r.slot_count
  pub array : r.slot_count ≤ length s.slots
  pub payloads : All HasCapacity s.slots
  pub mapped : ring_bytes r.slot_count ≤ s.len

pub slot_idx-mod : {r : Ring} {s : Shared} → IsValid r s → (i : ℕ) → slot_idx r i ≡ i % r.slot_count
slot_idx-mod {r} v i =
    ap (bit_and i) v.masked ∙ bit_and-mask v.exponent i ∙ ap (λ n. i % n) (sym v.count)

pub count_pos : {r : Ring} {s : Shared} → IsValid r s → 0 < r.slot_count
count_pos v = omega (arith, pow_pos v.exponent, v.count)

-- A slot at any index lies behind the ring header and inside the mapping.
slot_in_bounds :
    {r : Ring} {s : Shared}
    → IsValid r s
    → (index : ℕ)
    → (slot_idx r index < r.slot_count)
      × (ring_header_size ≤ slot_offset r index)
      × (slot_offset r index + slot_size ≤ s.len)
unfolding ring_bytes
slot_in_bounds {r} {s} v index =
    let idx = slot_idx r index in
    let n = r.slot_count in
    let inside : idx < n = omega (arith, slot_idx-mod v index, mod-lt index (count_pos v)) in
    (omega (arith), omega arith, omega (arith, v.mapped))

All-set :
    (P : Slot → Type 0) (xs : List Slot) (i : ℕ) (x : Slot) → All P xs → P x → All P (set xs i x)
All-set P [] i x h p = tt
All-set P (y ∷ xs) zero x h p = (p, h.1)
All-set P (y ∷ xs) (suc i) x h p = (h.0, All-set P xs i x h.1 p)

get_or-All : (xs : List Slot) (i : ℕ) → All HasCapacity xs → HasCapacity (get_or xs i blank_slot)
unfolding blank_slot
get_or-All [] i h = length-replicate {A = ℕ} data_capacity 0
get_or-All (y ∷ xs) zero h = h.0
get_or-All (y ∷ xs) (suc i) h = get_or-All xs i h.1

written-HasCapacity :
    (h : SlotHeader) (bytes : List ℕ) (old : Slot)
    → length bytes ≤ data_capacity
    → HasCapacity old
    → HasCapacity (written h bytes old)
written-HasCapacity h bytes old small c = omega (
  arith,
  length-append bytes (drop (length bytes) old.payload),
  length-drop (length bytes) old.payload,
)

-- The mask keeps the counters far from the width of a u64.
pub count_small : {r : Ring} {s : Shared} → IsValid r s → r.slot_count ≤ 2 ^ 31
count_small v = omega (
  arith,
  v.count,
  pow-le-pow_right {n = 2} (omega arith) {i = v.exponent} {j = 31} (omega (arith, v.small)),
)

pub write_slot-IsValid :
    {r : Ring} {s : Shared} (h : SlotHeader) (bytes : List ℕ)
    → IsValid r s
    → length bytes ≤ data_capacity
    → IsValid r (write_slot r h bytes s)
write_slot-IsValid {r} {s} h bytes v small = record {
  exponent = v.exponent;
  small = v.small;
  count = v.count;
  masked = v.masked;
  head_u64 = v.head_u64;
  tail_u64 = v.tail_u64;
  fill = v.fill;
  array = omega (arith, length-set s.slots i new, v.array);
  payloads =
      All-set HasCapacity s.slots i new v.payloads (
        written-HasCapacity h bytes (read_slot r s s.head) small (get_or-All s.slots i v.payloads));
  mapped = v.mapped;
}
  where
    i : ℕ
    i = slot_idx r s.head

    new : Slot
    new = written h bytes (read_slot r s s.head)

pub publish_head-IsValid :
    {r : Ring} {s : Shared} → IsValid r s → len s < r.slot_count → IsValid r (publish_head s)
unfolding len
publish_head-IsValid v room = record {
  exponent = v.exponent;
  small = v.small;
  count = v.count;
  masked = v.masked;
  head_u64 = omega arith;
  tail_u64 = v.tail_u64;
  fill = omega (arith, count_small v, v.head_u64, v.tail_u64);
  array = v.array;
  payloads = v.payloads;
  mapped = v.mapped;
}

pub commit_peek-IsValid :
    {r : Ring} {s : Shared} → IsValid r s → s.head ≢ s.tail → IsValid r (commit_peek s)
commit_peek-IsValid v more = record {
  exponent = v.exponent;
  small = v.small;
  count = v.count;
  masked = v.masked;
  head_u64 = v.head_u64;
  tail_u64 = omega arith;
  fill = omega (arith, more, v.fill, v.head_u64, v.tail_u64);
  array = v.array;
  payloads = v.payloads;
  mapped = v.mapped;
}

-- `try_push` keeps the invariant, whether it writes or refuses.
pub try_push-IsValid :
    {r : Ring} {s : Shared} (h : SlotHeader) (bytes : List ℕ)
    → IsValid r s
    → IsValid r (try_push r h bytes s).1
unfolding try_push len
try_push-IsValid {r} {s} h bytes v = elim (Bool-cases (ltb data_capacity (length bytes))) [
  | inl long ↦ rw long v
  | inr short ↦ elim (Bool-cases (leb r.slot_count (wrapping_sub s.head s.tail))) [
    | inl full ↦ rw (short, full) v
    | inr room ↦
        rw (short, room)
          (publish_head-IsValid (write_slot-IsValid h bytes v (omega (tests, short)))
            (omega (tests, room)))
  ]
]

-- `try_pop` keeps the invariant, whether it takes a message or finds none.
pub try_pop-IsValid : {r : Ring} {s : Shared} → IsValid r s → IsValid r (try_pop r s).1
unfolding try_pop
try_pop-IsValid {r} {s} v = elim (Bool-cases (s.head == s.tail)) [
  | inl same ↦ rw same v
  | inr more ↦ rw more (commit_peek-IsValid v (==→ne _ _ more))
]

-- A mapping as the operating system hands it out: as many slots as fit behind the ring header.
pub record IsMapping (s : Shared) : Type 0 where
  pub whole : length s.slots ≡ (s.len - ring_header_size) / slot_size
  pub full_slots : All HasCapacity s.slots

is_pow2_below-exponent : (k n : ℕ) → is_pow2_below k n ≡ true → (e : ℕ) × (e < k) × (n ≡ 2 ^ e)
unfolding is_pow2_below
is_pow2_below-exponent zero n h = cc
is_pow2_below-exponent (suc k) n h = elim (Bool-cases (n == 2 ^ k)) [
  | inl here ↦ (k, omega arith, ==→eq n (2 ^ k) here)
  | inr there ↦ let (e, lt, eq) = is_pow2_below-exponent k n (rw there at h) in (e, omega arith, eq)
]

record Accepted (n : ℕ) (s s' : Shared) (r : Ring) : Type 0 where
  pow2 : is_power_of_two n ≡ true
  two : 2 ≤ n
  fits : ring_bytes n ≤ s.len
  aligned : s.misalign % 64 ≡ 0
  view_of : r ≡ view n
  header_of : s' ≡ init_header n s

create-Accepted : (n : ℕ) (s s' : Shared) (r : Ring) → create n s ≡ (ok r, s') → Accepted n s s' r
unfolding create
create-Accepted n s s' r e = ground arith

init_header-IsValid :
    (n : ℕ) (s s' : Shared) (r : Ring)
    → IsMapping s
    → Accepted n s s' r
    → IsValid (view n) (init_header n s)
unfolding ring_bytes
init_header-IsValid n s s' r m a =
    let (k, small, pow) = is_pow2_below-exponent 32 n a.pow2 in
    record {
      exponent = k;
      small = small;
      count = pow;
      masked = ap (λ t. t - 1) pow;
      head_u64 = omega arith;
      tail_u64 = omega arith;
      fill = omega arith;
      array = omega (arith, m.whole, a.fits);
      payloads = m.full_slots;
      mapped = a.fits;
    }

attach-init_header :
    (n : ℕ) (s s' : Shared) (r : Ring) → Accepted n s s' r → attach (init_header n s) ≡ ok (view n)
unfolding attach ring_bytes
attach-init_header n s s' r a = ground (arith, a.pow2, a.fits, a.aligned, a.two)

-- What `create` accepts is a valid ring with nothing in it, which `attach` then accepts at the same
-- slot count and mask.
pub create-IsValid :
    {s s' : Shared} {r : Ring} (n : ℕ)
    → IsMapping s
    → create n s ≡ (ok r, s')
    → IsValid r s' × (len s' ≡ 0) × (attach s' ≡ ok r)
create-IsValid {s} {s'} {r} n m e =
    let a = create-Accepted n s s' r e in
    rw (a.view_of, a.header_of)
      (init_header-IsValid n s s' r m a, unfold len in refl, attach-init_header n s s' r a)
