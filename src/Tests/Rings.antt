-- ===== src/Tests/Rings.antt =====
-- A ring of two slots (crates/psroot-netstack-ipc/src/ring.rs), filled and drained.
use psroot.Prelude.{ℕ, ◌≡◌, refl, List, [], ◌∷◌, ◌++◌, length-replicate, arith}
use psroot.Proto.{SlotHeader, data_capacity, new_header}
use psroot.Proto.Codes.{OpCode}
use psroot.Ring.{
  Shared, ok, Op, ring_bytes, is_pow2_below, create, attach, view, init_header, len, blank_slot,
  try_push, try_peek, run, publish_head, write_slot,
}
use psroot.Ring.Queue
use psroot.Ring.Queue.{Message, stamp}
use psroot.Ring.Invariant.{IsValid, IsMapping, create-IsValid}
use psroot.Ring.Refine.{contents, run_refines}
use psroot.Ring.Interleave.{System, Producer, Consumer, Step, Reach, start, fifo}

abbrev pub mapping : Shared
mapping = record {
  len = 8256;
  misalign = 0;
  magic = 0;
  version = 0;
  slot_count = 0;
  head = 0;
  tail = 0;
  futex = 0;
  slots = blank_slot ∷ blank_slot ∷ [];
}

mapping-IsMapping : IsMapping mapping
unfolding blank_slot
mapping-IsMapping =
    let full = length-replicate {A = ℕ} data_capacity 0 in
    record { whole = refl; full_slots = (full, (full, tt)) }

created : create 2 mapping ≡ (ok (view 2), init_header 2 mapping)
unfolding create ring_bytes is_pow2_below
created = refl

abbrev pub fresh : Shared
fresh = init_header 2 mapping

create-IsValid_example : IsValid (view 2) fresh × (len fresh ≡ 0) × (attach fresh ≡ ok (view 2))
create-IsValid_example = create-IsValid 2 mapping-IsMapping created

pub fresh-IsValid : IsValid (view 2) fresh
fresh-IsValid = (create-IsValid 2 mapping-IsMapping created).0

pub fresh-attaches : attach fresh ≡ ok (view 2)
fresh-attaches = (create-IsValid 2 mapping-IsMapping created).2

abbrev pub request : SlotHeader
request = new_header OpCode.send 3

abbrev ops : List Op
ops = Op.push request (1 ∷ 2 ∷ []) ∷ Op.pop ∷ Op.pop ∷ []

run_refines_example : run (view 2) ops fresh ≡ Queue.run 2 ops (contents (view 2) fresh)
run_refines_example = run_refines ops fresh-IsValid

abbrev pushed : Shared
pushed = publish_head (write_slot (view 2) request (7 ∷ []) fresh)

try_push_once : try_push (view 2) request (7 ∷ []) fresh ≡ (ok tt, pushed)
unfolding try_push
try_push_once = refl

peeked : try_peek (view 2) pushed ≡ ok (stamp request (7 ∷ []))
unfolding try_peek
peeked = refl

-- The producer has published one message; the consumer has copied it out but not yet moved tail.
abbrev midway : System
midway = record {
  shared = pushed;
  producer = Producer.idle;
  consumer = Consumer.checked;
  sent = contents (view 2) fresh ++ stamp request (7 ∷ []) ∷ [];
  received = [];
}

midway_reached : Reach (view 2) (start fresh (contents (view 2) fresh)) midway
midway_reached =
    Reach.next
      (Reach.next
        (Reach.next
          (Reach.next Reach.here (
            Step.check_push (start fresh (contents (view 2) fresh)) request (7 ∷ []) refl
              (omega arith) (omega arith)))
          (Step.write _ request (7 ∷ []) refl))
        (Step.publish _ request (7 ∷ []) refl))
      (Step.check_pop _ refl (omega arith))

fifo_example :
    (contents (view 2) fresh ++ stamp request (7 ∷ []) ∷ [] ≡ [] ++ contents (view 2) pushed)
    × IsValid (view 2) pushed
fifo_example = fifo (view 2) fresh fresh-IsValid midway_reached
