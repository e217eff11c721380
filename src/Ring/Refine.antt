-- ===== src/Ring/Refine.antt =====
-- A ring (crates/psroot-netstack-ipc/src/ring.rs) against the bounded queue of its messages.
use Prim.Native.Nat.{◌∣◌}
use native.Mathlib.Nat.{mod-mod_of_dvd, mod-lt}
use mathlib.Core.List.{map-append}
use psroot.Prelude.{
  ℕ, suc, ◌+◌, ◌-◌, ◌%◌, ◌≤◌, ◌<◌, ◌≡◌, ◌≢◌, refl, sym, ap, ap₂, ◌∙◌, subst, Bool-cases, inl, inr,
  List, [], ◌∷◌, ◌++◌, map, length, get_or, get_or-set_self, take, drop, take-append, ltb, leb,
  ◌==◌, ==→eq, ==→ne, tests, arith,
}
use psroot.Prelude.Bits.{pow-dvd-pow}
use psroot.Proto.{SlotHeader, data_capacity}
use psroot.Ring.{
  Slot, Shared, Ring, ok, u64, wrapping_sub, wrapping_add, written, read_slot, write_slot,
  publish_head, slot_idx, slot_message, try_push, try_pop, try_peek, commit_peek, blank_slot, len,
  Op, run,
}
use psroot.Ring.Window.{window, window-set_outside, window_last, window_place, length-window}
use psroot.Ring.Queue
use psroot.Ring.Queue.{Message, stamp}
use psroot.Ring.Invariant.{
  IsValid, slot_idx-mod, count_small, count_pos, try_push-IsValid, write_slot-IsValid,
  try_pop-IsValid,
}

-- The messages between tail and head, oldest first.
unfoldable pub contents : Ring → Shared → List Message
contents r s = map slot_message (window s.slots r.slot_count s.tail (wrapping_sub s.head s.tail))

length-map : (xs : List Slot) → length (map slot_message xs) ≡ length xs
length-map [] = refl
length-map (x ∷ xs) = ap suc (length-map xs)

length-contents : (r : Ring) (s : Shared) → length (contents r s) ≡ len s
unfolding contents len
length-contents r s =
    length-map (window s.slots r.slot_count s.tail (wrapping_sub s.head s.tail))
    ∙ length-window s.slots r.slot_count s.tail (wrapping_sub s.head s.tail)

-- The u64 wrap does not move a counter's place in the array: the slot count divides 2^64.
wrap_place :
    {r : Ring} {s : Shared} → IsValid r s → (i : ℕ) → (i % u64) % r.slot_count ≡ i % r.slot_count
wrap_place {r} v i = mod-mod_of_dvd r.slot_count i (
    subst (λ n. n ∣ u64) (sym v.count)
      (pow-dvd-pow (64 - v.exponent) v.exponent 64 (omega (arith, v.small))))

-- The place of head is that of tail, as many steps on as there are messages.
pub head_place :
    {r : Ring} {s : Shared}
    → IsValid r s
    → slot_idx r s.head ≡ (s.tail + wrapping_sub s.head s.tail) % r.slot_count
head_place {r} {s} v =
    slot_idx-mod v s.head
    ∙ ap (λ k. k % r.slot_count) (omega (arith, v.head_u64, v.tail_u64))
    ∙ wrap_place v (s.tail + wrapping_sub s.head s.tail)

-- A reader of a slot just written gets the stamped message.
slot_message-written :
    (h : SlotHeader) (bytes : List ℕ) (old : Slot)
    → length bytes ≤ data_capacity
    → slot_message (written h bytes old) ≡ stamp h bytes
slot_message-written h bytes old small =
    ap₂ (λ n m. (record h { payload_len = n }, take m (bytes ++ drop (length bytes) old.payload)))
      (omega arith) (omega arith)
    ∙ ap (λ t. (record h { payload_len = length bytes }, t))
        (take-append bytes (drop (length bytes) old.payload))

-- Writing the slot of head changes none of the messages; publishing head appends that slot's.
pub contents-write_slot :
    {r : Ring} {s : Shared} (h : SlotHeader) (bytes : List ℕ)
    → IsValid r s
    → len s < r.slot_count
    → contents r (write_slot r h bytes s) ≡ contents r s
unfolding contents len
contents-write_slot {r} {s} h bytes v room =
    let n = wrapping_sub s.head s.tail in
    ap (map slot_message) (
      window-set_outside s.slots r.slot_count n n s.tail (slot_idx r s.head)
        (written h bytes (read_slot r s s.head)) (omega arith) room (head_place v))

pub contents-publish_head :
    {r : Ring} {s : Shared}
    → IsValid r s
    → len s < r.slot_count
    → contents r (publish_head s) ≡ contents r s ++ slot_message (read_slot r s s.head) ∷ []
unfolding contents len
contents-publish_head {r} {s} v room =
    let n = wrapping_sub s.head s.tail in
    let w = window s.slots r.slot_count s.tail in
    ap (λ k. map slot_message (w k)) {y = suc n}
      (omega (arith, v.head_u64, v.tail_u64, count_small v))
    ∙ ap (map slot_message) (window_last s.slots r.slot_count n s.tail)
    ∙ map-append slot_message (w n) (get_or s.slots ((s.tail + n) % r.slot_count) blank_slot ∷ [])
    ∙ ap (λ k. map slot_message (w n) ++ slot_message (get_or s.slots k blank_slot) ∷ [])
        (sym (head_place v))

pub read_slot-write_slot :
    {r : Ring} {s : Shared} (h : SlotHeader) (bytes : List ℕ)
    → IsValid r s
    → length bytes ≤ data_capacity
    → slot_message (read_slot r (write_slot r h bytes s) s.head) ≡ stamp h bytes
read_slot-write_slot {r} {s} h bytes v small =
    let old = read_slot r s s.head in
    ap slot_message (
      get_or-set_self s.slots (slot_idx r s.head) (written h bytes old) blank_slot
        (omega (arith, v.array, slot_idx-mod v s.head, mod-lt s.head (count_pos v))))
    ∙ slot_message-written h bytes old small

contents-write :
    {r : Ring} {s : Shared} (h : SlotHeader) (bytes : List ℕ)
    → IsValid r s
    → length bytes ≤ data_capacity
    → len s < r.slot_count
    → contents r (publish_head (write_slot r h bytes s)) ≡ contents r s ++ stamp h bytes ∷ []
unfolding len
contents-write {r} {s} h bytes v small room =
    contents-publish_head (write_slot-IsValid h bytes v small) room
    ∙ ap₂ (λ q m. q ++ m ∷ []) (contents-write_slot h bytes v room)
        (read_slot-write_slot h bytes v small)

contents-empty : (r : Ring) (s : Shared) → s.head ≡ s.tail → contents r s ≡ []
unfolding contents
contents-empty r s e =
    ap (λ k. map slot_message (window s.slots r.slot_count s.tail k)) {y = 0} (omega arith)

pub contents-pop :
    {r : Ring} {s : Shared}
    → IsValid r s
    → s.head ≢ s.tail
    → contents r s
      ≡ slot_message (read_slot r s s.tail) ∷ contents r (record s { tail = wrapping_add s.tail 1 })
unfolding contents
contents-pop {r} {s} v some_left =
    ap (λ k. map slot_message (window s.slots size s.tail k)) {y = suc n}
      (omega (arith, v.head_u64, v.tail_u64))
    ∙ ap₂ (λ i w. slot_message (get_or s.slots i blank_slot) ∷ map slot_message w)
        (sym (slot_idx-mod v s.tail))
        (window_place s.slots size n (suc s.tail) (wrapping_add s.tail 1)
          (sym (wrap_place v (s.tail + 1) ∙ ap (λ k. k % size) (omega arith))))
  where
    size : ℕ
    size = r.slot_count

    n : ℕ
    n = wrapping_sub s.head (wrapping_add s.tail 1)

-- `try_push` does what pushing to the bounded queue does: the same answer, and the messages after it.
pub try_push_refines :
    {r : Ring} {s : Shared} (h : SlotHeader) (bytes : List ℕ)
    → IsValid r s
    → let (answer, s') = try_push r h bytes s in
      (answer, contents r s') ≡ Queue.push r.slot_count h bytes (contents r s)
unfolding try_push len
try_push_refines {r} {s} h bytes v = elim (Bool-cases (ltb data_capacity (length bytes))) [
  | inl long ↦ rw long refl
  | inr short ↦ elim (Bool-cases (leb r.slot_count (wrapping_sub s.head s.tail))) [
    | inl full ↦ rw (short, length-contents r s, len, full) refl
    | inr room ↦
        rw (short, length-contents r s, len, room)
          (ap (λ q. (ok tt, q))
            (contents-write h bytes v (omega (tests, short)) (unfold len in omega (tests, room))))
  ]
]

-- `try_pop` answers and leaves what popping the queue does.
pub try_pop_refines :
    {r : Ring} {s : Shared}
    → IsValid r s
    → let (answer, s') = try_pop r s in (answer, contents r s') ≡ Queue.pop (contents r s)
unfolding try_pop
try_pop_refines {r} {s} v = elim (Bool-cases (s.head == s.tail)) [
  | inl same ↦ rw (same, contents-empty r s (==→eq _ _ same)) refl
  | inr more ↦ rw (more, contents-pop v (==→ne _ _ more)) refl
]

-- Peeking and committing together are a pop.
peek_commit :
    (r : Ring) (s : Shared) {m : Message}
    → try_peek r s ≡ ok m
    → try_pop r s ≡ (ok m, commit_peek s)
unfolding try_peek try_pop
peek_commit r s {m} e = ground arith

-- No sequence of pushes and pops tells a valid ring from the bounded queue of its contents: every
-- answer is the queue's, through any number of turns round the slot array and any wrap of the
-- counters.
pub run_refines :
    (ops : List Op) {r : Ring} {s : Shared}
    → IsValid r s
    → run r ops s ≡ Queue.run r.slot_count ops (contents r s)
unfolding run Queue.run
run_refines [] v = refl
run_refines (Op.push h bytes ∷ ops) {r} {s} v =
    rw (run_refines ops (try_push-IsValid h bytes v), ← try_push_refines h bytes v) refl
run_refines (Op.pop ∷ ops) {r} {s} v =
    rw (run_refines ops (try_pop-IsValid v), ← try_pop_refines v) refl
