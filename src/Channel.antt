-- ===== src/Channel.antt =====
-- The duplex channel of two rings in one mapping (crates/psroot-netstack-ipc/src/channel.rs).
-- The two rings are kept apart here, as `h2s` and `s2h`; where they lie is the layout. A failed
-- `expect` is `panicked`.
pub mod Signal
pub mod Layout
pub mod Duplex
pub mod Parking
pub mod Wake
use psroot.Prelude.{ℕ, ◌+◌, ◌-◌, ◌*◌, ◌%◌, Bool, true, false, List, Option, none, some}
use psroot.Proto.{SlotHeader, default_ring_slots}
use psroot.Ring.{
  Shared, Ring, Result, ok, err, RingError, ring_bytes, attach, create, try_push, try_pop,
}
use Signal.{post_word}

pub record ChannelLayout : Type 0 where
  pub slot_count : ℕ
  pub host_to_shim_offset : ℕ
  pub shim_to_host_offset : ℕ
  pub total_size : ℕ

-- `(x + 63) & !63`
abbrev pub align_64 : ℕ → ℕ
align_64 x = (x + 63) - (x + 63) % 64

unfoldable pub new_layout : ℕ → ChannelLayout
new_layout slot_count = record {
  slot_count = slot_count;
  host_to_shim_offset = 0;
  shim_to_host_offset = align_64 (ring_bytes slot_count);
  total_size = align_64 (ring_bytes slot_count) * 2;
}

abbrev pub default_layout : ChannelLayout
default_layout = new_layout default_ring_slots

pub data ChannelSide : Type 0 where
  host shim : ChannelSide

unfoldable pub tx_offset : ChannelSide → ChannelLayout → ℕ
tx_offset ChannelSide.host l = l.host_to_shim_offset
tx_offset ChannelSide.shim l = l.shim_to_host_offset

unfoldable pub rx_offset : ChannelSide → ChannelLayout → ℕ
rx_offset ChannelSide.host l = l.shim_to_host_offset
rx_offset ChannelSide.shim l = l.host_to_shim_offset

-- The mapping, as its two rings.
pub record Mapping : Type 0 where
  pub h2s : Shared
  pub s2h : Shared

abbrev pub tx_ring : ChannelSide → Mapping → Shared
tx_ring ChannelSide.host m = m.h2s
tx_ring ChannelSide.shim m = m.s2h

abbrev pub rx_ring : ChannelSide → Mapping → Shared
rx_ring ChannelSide.host m = m.s2h
rx_ring ChannelSide.shim m = m.h2s

abbrev pub set_tx : ChannelSide → Shared → Mapping → Mapping
set_tx ChannelSide.host s m = record m { h2s = s }
set_tx ChannelSide.shim s m = record m { s2h = s }

abbrev pub set_rx : ChannelSide → Shared → Mapping → Mapping
set_rx ChannelSide.host s m = record m { s2h = s }
set_rx ChannelSide.shim s m = record m { h2s = s }

pub data Reply {ℓ} (A : Type ℓ) : Type ℓ where
  answer : Result A → Reply A
  panicked : Reply A

-- After a push: on success the futex word takes the token.
abbrev pub posted : Result (Unit {0}) × Shared → Reply (Unit {0}) × Shared
posted (ok u, s) = (Reply.answer (ok u), record s { futex = post_word })
posted (err e, s) = (Reply.answer (err e), s)

abbrev pub send_on : Result Ring → SlotHeader → List ℕ → Shared → Reply (Unit {0}) × Shared
send_on (ok r) h bytes s = posted (try_push r h bytes s)
send_on (err e) h bytes s = (Reply.panicked, s)

unfoldable pub send : ChannelSide → SlotHeader → List ℕ → Mapping → Reply (Unit {0}) × Mapping
send side h bytes m =
    let (r, s) = send_on (attach (tx_ring side m)) h bytes (tx_ring side m) in (r, set_tx side s m)

abbrev pub recv_on : Result Ring → Shared → Reply (SlotHeader × List ℕ) × Shared
recv_on (ok r) s = let (a, s') = try_pop r s in (Reply.answer a, s')
recv_on (err e) s = (Reply.panicked, s)

unfoldable pub try_recv : ChannelSide → Mapping → Reply (SlotHeader × List ℕ) × Mapping
try_recv side m =
    let (r, s) = recv_on (attach (rx_ring side m)) (rx_ring side m) in (r, set_rx side s m)
