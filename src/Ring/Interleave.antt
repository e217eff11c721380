-- ===== src/Ring/Interleave.antt =====
-- One producer and one consumer on the same ring, their memory accesses interleaved in any order.
-- A push is three accesses (the check of the counters, the write of the slot, the publication of
-- head), and so is a pop (the check, the copy out of the slot, the publication of tail). Acquire
-- and release make each side see the other's accesses in this order.
use psroot.Prelude.{
  ℕ, ◌+◌, ◌-◌, ◌%◌, ◌≤◌, ◌<◌, ◌≡◌, ◌≢◌, refl, sym, ap, ap₂, ◌∙◌, List, [], ◌∷◌, ◌++◌, append_assoc,
  length, get_or-set_ne, subst, arith,
}
use psroot.Proto.{SlotHeader, data_capacity}
use psroot.Ring.{
  Shared, Ring, wrapping_sub, write_slot, publish_head, read_slot, slot_message, commit_peek, len,
}
use psroot.Ring.Queue.{Message, stamp}
use psroot.Ring.Invariant.{
  IsValid, slot_idx-mod, count_small, write_slot-IsValid, publish_head-IsValid, commit_peek-IsValid,
}
use psroot.Ring.Window.{place-ne}
use psroot.Ring.Refine.{
  contents, head_place, contents-write_slot, contents-publish_head, contents-pop,
  read_slot-write_slot,
}
use psroot.Ring.{slot_idx, written, blank_slot}
use psroot.Prelude.{subst, get_or-set_ne}

-- Where the producer and the consumer stand.
pub data Producer : Type 0 where
  idle : Producer
  checked : SlotHeader → List ℕ → Producer
  wrote : SlotHeader → List ℕ → Producer

pub data Consumer : Type 0 where
  idle : Consumer
  checked : Consumer
  copied : Message → Consumer

pub record System : Type 0 where
  pub shared : Shared
  pub producer : Producer
  pub consumer : Consumer
  pub sent : List Message
  pub received : List Message

pub data Step (r : Ring) : System → System → Type 0 where
  check_push :
      (y : System) (h : SlotHeader) (bytes : List ℕ)
      → y.producer ≡ Producer.idle
      → length bytes ≤ data_capacity
      → wrapping_sub y.shared.head y.shared.tail < r.slot_count
      → Step r y (record y { producer = Producer.checked h bytes })
  write :
      (y : System) (h : SlotHeader) (bytes : List ℕ)
      → y.producer ≡ Producer.checked h bytes
      → Step r y
          (record y { shared = write_slot r h bytes y.shared; producer = Producer.wrote h bytes })
  publish :
      (y : System) (h : SlotHeader) (bytes : List ℕ)
      → y.producer ≡ Producer.wrote h bytes
      → Step r y (record y {
        shared = publish_head y.shared;
        producer = Producer.idle;
        sent = y.sent ++ stamp h bytes ∷ [];
      })
  check_pop :
      (y : System)
      → y.consumer ≡ Consumer.idle
      → y.shared.head ≢ y.shared.tail
      → Step r y (record y { consumer = Consumer.checked })
  copy :
      (y : System)
      → y.consumer ≡ Consumer.checked
      → Step r y (record y {
        consumer = Consumer.copied (slot_message (read_slot r y.shared y.shared.tail));
      })
  advance :
      (y : System) (m : Message)
      → y.consumer ≡ Consumer.copied m
      → Step r y (record y {
        shared = commit_peek y.shared;
        consumer = Consumer.idle;
        received = y.received ++ m ∷ [];
      })

pub data Reach (r : Ring) (x : System) : System → Type 0 where
  here : Reach r x x
  next : {y z : System} → Reach r x y → Step r y z → Reach r x z

pub ProducerOk : Ring → Shared → Producer → Type 0
ProducerOk r s Producer.idle = Unit
ProducerOk r s (Producer.checked h bytes) = (length bytes ≤ data_capacity) × (len s < r.slot_count)
ProducerOk r s (Producer.wrote h bytes) =
    (len s < r.slot_count) × (slot_message (read_slot r s s.head) ≡ stamp h bytes)

pub ConsumerOk : Ring → Shared → Consumer → Type 0
ConsumerOk r s Consumer.idle = Unit
ConsumerOk r s Consumer.checked = s.head ≢ s.tail
ConsumerOk r s (Consumer.copied m) = (s.head ≢ s.tail) × (slot_message (read_slot r s s.tail) ≡ m)

-- Between any two accesses: the ring is valid, each side may go on, and what was sent is what was
-- received followed by what the ring holds.
pub record IsFifo (r : Ring) (y : System) : Type 0 where
  pub valid : IsValid r y.shared
  pub producer_ok : ProducerOk r y.shared y.producer
  pub consumer_ok : ConsumerOk r y.shared y.consumer
  pub history : y.sent ≡ y.received ++ contents r y.shared

-- Head and tail name different slots while the ring is neither full nor empty.
apart :
    {r : Ring} {s : Shared}
    → IsValid r s
    → len s < r.slot_count
    → s.head ≢ s.tail
    → slot_idx r s.head ≢ slot_idx r s.tail
unfolding len
apart {r} {s} v room more e =
    let n = wrapping_sub s.head s.tail in
    let n_pos : 0 < n = omega (arith, v.head_u64, v.tail_u64) in
    place-ne s.tail (n - 1) r.slot_count (omega arith) (
      ap (λ k. (s.tail + k) % r.slot_count) (omega arith)
      ∙ sym (head_place v)
      ∙ e
      ∙ slot_idx-mod v s.tail)

ConsumerOk-write :
    {r : Ring} {s : Shared} (h : SlotHeader) (bytes : List ℕ) (c : Consumer)
    → IsValid r s
    → len s < r.slot_count
    → ConsumerOk r s c
    → ConsumerOk r (write_slot r h bytes s) c
unfolding ConsumerOk
ConsumerOk-write h bytes Consumer.idle v room k = tt
ConsumerOk-write h bytes Consumer.checked v room k = k
ConsumerOk-write {r} {s} h bytes (Consumer.copied m) v room (more, e) = (
  more,
  ap slot_message (
        get_or-set_ne s.slots (slot_idx r s.head) (slot_idx r s.tail)
          (written h bytes (read_slot r s s.head)) blank_slot (apart v room more))
      ∙ e,
)

ConsumerOk-publish :
    {r : Ring} {s : Shared} (c : Consumer)
    → IsValid r s
    → len s < r.slot_count
    → ConsumerOk r s c
    → ConsumerOk r (publish_head s) c
unfolding ConsumerOk len
ConsumerOk-publish Consumer.idle v room k = tt
ConsumerOk-publish Consumer.checked v room k = omega (arith, count_small v, v.head_u64, v.tail_u64)
ConsumerOk-publish (Consumer.copied m) v room (more, e) =
    (omega (arith, count_small v, v.head_u64, v.tail_u64), e)

ProducerOk-commit :
    {r : Ring} {s : Shared} (p : Producer)
    → IsValid r s
    → s.head ≢ s.tail
    → ProducerOk r s p
    → ProducerOk r (commit_peek s) p
unfolding ProducerOk len
ProducerOk-commit Producer.idle v more k = tt
ProducerOk-commit (Producer.checked h bytes) v more k =
    omega (arith, v.fill, v.head_u64, v.tail_u64)
ProducerOk-commit (Producer.wrote h bytes) v more (room, e) =
    (omega (arith, v.fill, v.head_u64, v.tail_u64), e)

-- No access breaks the invariant.
Step-IsFifo : {r : Ring} {y z : System} → Step r y z → IsFifo r y → IsFifo r z
unfolding ProducerOk ConsumerOk len
Step-IsFifo (check_push y h bytes e small room) f = record {
  valid = f.valid;
  producer_ok = (small, room);
  consumer_ok = f.consumer_ok;
  history = f.history;
}
Step-IsFifo {r} (write y h bytes e) f =
    let (small, room) = subst (ProducerOk r y.shared) e f.producer_ok in
    record {
      valid = write_slot-IsValid h bytes f.valid small;
      producer_ok = (room, read_slot-write_slot h bytes f.valid small);
      consumer_ok = ConsumerOk-write h bytes y.consumer f.valid room f.consumer_ok;
      history =
          f.history ∙ ap (λ q. y.received ++ q) (sym (contents-write_slot h bytes f.valid room));
    }
Step-IsFifo {r} (publish y h bytes e) f =
    let (room, arrived) = subst (ProducerOk r y.shared) e f.producer_ok in
    record {
      valid = publish_head-IsValid f.valid room;
      producer_ok = tt;
      consumer_ok = ConsumerOk-publish y.consumer f.valid room f.consumer_ok;
      history =
          ap₂ (λ q m. q ++ m ∷ []) f.history (sym arrived)
          ∙ append_assoc y.received (contents r y.shared)
              (slot_message (read_slot r y.shared y.shared.head) ∷ [])
          ∙ ap (λ q. y.received ++ q) (sym (contents-publish_head f.valid room));
    }
Step-IsFifo (check_pop y e more) f = record {
  valid = f.valid;
  producer_ok = f.producer_ok;
  consumer_ok = more;
  history = f.history;
}
Step-IsFifo {r} (copy y e) f = record {
  valid = f.valid;
  producer_ok = f.producer_ok;
  consumer_ok = (subst (ConsumerOk r y.shared) e f.consumer_ok, refl);
  history = f.history;
}
Step-IsFifo {r} (advance y m e) f =
    let (more, same) = subst (ConsumerOk r y.shared) e f.consumer_ok in
    record {
      valid = commit_peek-IsValid f.valid more;
      producer_ok = ProducerOk-commit y.producer f.valid more f.producer_ok;
      consumer_ok = tt;
      history =
          f.history
          ∙ ap (λ q. y.received ++ q)
              (contents-pop f.valid more ∙ ap (λ x. x ∷ contents r (commit_peek y.shared)) same)
          ∙ sym (append_assoc y.received (m ∷ []) (contents r (commit_peek y.shared)));
    }

Reach-IsFifo : {r : Ring} {x y : System} → IsFifo r x → Reach r x y → IsFifo r y
Reach-IsFifo f here = f
Reach-IsFifo f (next w step) = Step-IsFifo step (Reach-IsFifo f w)

-- Two idle sides at a valid ring that has been sent and has delivered nothing but what it holds.
abbrev pub start : Shared → List Message → System
start s q = record {
  shared = s;
  producer = Producer.idle;
  consumer = Consumer.idle;
  sent = q;
  received = [];
}

-- However the accesses of the two sides are interleaved, from a valid ring on: what the consumer has
-- received and what the ring still holds are together exactly what was sent, in order, and the ring
-- stays valid. Nothing is lost, repeated, reordered or torn.
pub fifo :
    (r : Ring) (s : Shared) {y : System}
    → IsValid r s
    → Reach r (start s (contents r s)) y
    → (y.sent ≡ y.received ++ contents r y.shared) × IsValid r y.shared
unfolding ProducerOk ConsumerOk
fifo r s v w =
    let f =
      Reach-IsFifo (record { valid = v; producer_ok = tt; consumer_ok = tt; history = refl }) w in
    (f.history, f.valid)
