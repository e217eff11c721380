-- ===== src/Channel/Duplex.antt =====
-- The two directions of a channel (crates/psroot-netstack-ipc/src/channel.rs) against two queues.
use psroot.Prelude.{
  ℕ, ◌≡◌, refl, sym, ap, ◌∙◌, subst, Bool-cases, inl, inr, List, ltb, leb, ◌==◌, length,
}
use psroot.Proto.{SlotHeader, data_capacity}
use psroot.Ring.{Shared, Ring, Result, ok, err, attach, try_push, try_pop, wrapping_sub}
use psroot.Ring.Queue
use psroot.Ring.Queue.{Message}
use psroot.Ring.Invariant.{IsValid, try_push-IsValid, try_pop-IsValid}
use psroot.Ring.Refine.{contents, try_push_refines, try_pop_refines}
use psroot.Channel.{
  ChannelSide, Mapping, tx_ring, rx_ring, set_tx, set_rx, Reply, posted, send, try_recv,
}
use psroot.Channel.Signal.{post_word}

-- A ring that attaches, as the valid ring `r`.
pub record Ready (r : Ring) (s : Shared) : Type 0 where
  pub attaches : attach s ≡ ok r
  pub valid : IsValid r s

attach-try_push :
    (r : Ring) (h : SlotHeader) (bytes : List ℕ) (s : Shared)
    → attach (try_push r h bytes s).1 ≡ attach s
unfolding attach try_push
attach-try_push r h bytes s = elim (Bool-cases (ltb data_capacity (length bytes))) [
  | inl long ↦ rw long refl
  | inr short ↦ elim (Bool-cases (leb r.slot_count (wrapping_sub s.head s.tail))) [
    | inl full ↦ rw (short, full) refl
    | inr room ↦ rw (short, room) refl
  ]
]

attach-try_pop : (r : Ring) (s : Shared) → attach (try_pop r s).1 ≡ attach s
unfolding attach try_pop
attach-try_pop r s = elim (Bool-cases (s.head == s.tail)) [ inl e ↦ rw e refl | inr e ↦ rw e refl ]

set_futex-Ready : {r : Ring} {s : Shared} (w : ℕ) → Ready r s → Ready r (record s { futex = w })
unfolding attach
set_futex-Ready w k = record {
  attaches = k.attaches;
  valid = record {
    exponent = k.valid.exponent;
    small = k.valid.small;
    count = k.valid.count;
    masked = k.valid.masked;
    head_u64 = k.valid.head_u64;
    tail_u64 = k.valid.tail_u64;
    fill = k.valid.fill;
    array = k.valid.array;
    payloads = k.valid.payloads;
    mapped = k.valid.mapped;
  };
}

posted-Ready : {r : Ring} (x : Result (Unit {0}) × Shared) → Ready r x.1 → Ready r (posted x).1
posted-Ready (ok u, s) k = set_futex-Ready post_word k
posted-Ready (err e, s) k = k

-- The token in the futex word is no message.
posted-contents :
    (r : Ring) (x : Result (Unit {0}) × Shared) (q : Result (Unit {0}) × List Message)
    → (x.0, contents r x.1) ≡ q
    → ((posted x).0 ≡ Reply.answer q.0) × (contents r (posted x).1 ≡ q.1)
unfolding contents
posted-contents r (ok u, s) q e = (
  ap (λ (y : Result (Unit {0}) × List Message). Reply.answer y.0) e,
  ap (λ (y : Result (Unit {0}) × List Message). y.1) e,
)
posted-contents r (err f, s) q e = (
  ap (λ (y : Result (Unit {0}) × List Message). Reply.answer y.0) e,
  ap (λ (y : Result (Unit {0}) × List Message). y.1) e,
)

tx_ring-set_tx :
    (side : ChannelSide) (s : Shared) (m : Mapping)
    → (tx_ring side (set_tx side s m) ≡ s) × (rx_ring side (set_tx side s m) ≡ rx_ring side m)
tx_ring-set_tx ChannelSide.host s m = (refl, refl)
tx_ring-set_tx ChannelSide.shim s m = (refl, refl)

rx_ring-set_rx :
    (side : ChannelSide) (s : Shared) (m : Mapping)
    → (rx_ring side (set_rx side s m) ≡ s) × (tx_ring side (set_rx side s m) ≡ tx_ring side m)
rx_ring-set_rx ChannelSide.host s m = (refl, refl)
rx_ring-set_rx ChannelSide.shim s m = (refl, refl)

-- A side's `send`, into a ring that is ready, does not panic, answers as pushing to the bounded queue of
-- that direction does and leaves what that leaves; the ring stays ready, and the other direction is as it
-- was.
pub send_refines :
    (side : ChannelSide) (h : SlotHeader) (bytes : List ℕ) (m : Mapping) (r : Ring)
    → Ready r (tx_ring side m)
    → let (a, m') = send side h bytes m in
      let (answer, q) = Queue.push r.slot_count h bytes (contents r (tx_ring side m)) in
      (a ≡ Reply.answer answer)
      × (contents r (tx_ring side m') ≡ q)
      × (rx_ring side m' ≡ rx_ring side m)
      × Ready r (tx_ring side m')
unfolding send
send_refines side h bytes m r k =
    let s = tx_ring side m in
    let x = try_push r h bytes s in
    let c = posted-contents r x _ (try_push_refines h bytes k.valid) in
    let ready : Ready r x.1 = record {
      attaches = attach-try_push r h bytes s ∙ k.attaches;
      valid = try_push-IsValid h bytes k.valid;
    } in
    let put = tx_ring-set_tx side (posted x).1 m in
    rw k.attaches
      (c.0, ap (contents r) put.0 ∙ c.1, put.1, subst (Ready r) (sym put.0) (posted-Ready x ready))

-- A side's `try_recv`, from a ring that is ready, answers and leaves what popping the queue of that
-- direction does; the ring stays ready, and the other direction is as it was.
try_recv_refines :
    (side : ChannelSide) (m : Mapping) (r : Ring)
    → Ready r (rx_ring side m)
    → let (a, m') = try_recv side m in
      let (answer, q) = Queue.pop (contents r (rx_ring side m)) in
      (a ≡ Reply.answer answer)
      × (contents r (rx_ring side m') ≡ q)
      × (tx_ring side m' ≡ tx_ring side m)
      × Ready r (rx_ring side m')
unfolding try_recv
try_recv_refines side m r k =
    let s = rx_ring side m in
    let x = try_pop r s in
    let c = try_pop_refines k.valid in
    let put = rx_ring-set_rx side x.1 m in
    rw k.attaches (
      ap (λ (y : Result Message × List Message). Reply.answer y.0) c,
      ap (contents r) put.0 ∙ ap (λ (y : Result Message × List Message). y.1) c,
      put.1,
      subst (Ready r) (sym put.0)
          (record { attaches = attach-try_pop r s ∙ k.attaches; valid = try_pop-IsValid k.valid }),
    )
