-- ===== src/Tests/Channels.antt =====
-- A channel of two rings of two slots (crates/psroot-netstack-ipc/src/channel.rs).
use psroot.Prelude.{◌+◌, ◌*◌, ◌%◌, ◌≤◌, ◌<◌, ◌≡◌, ◌⊎◌, refl, [], ◌∷◌}
use psroot.Ring.{view, ring_bytes}
use psroot.Ring.Queue
use psroot.Ring.Refine.{contents}
use psroot.Channel.{
  ChannelSide, Mapping, tx_ring, rx_ring, Reply, send, new_layout, tx_offset, rx_offset,
}
use psroot.Channel.Layout.{new_layout_fits}
use psroot.Channel.Duplex.{Ready, send_refines}
use psroot.Channel.Parking.{Poster, Sleeper, Step, Reach}
use psroot.Channel.Wake.{no_lost_wakeup}
use psroot.Tests.Rings.{fresh, fresh-IsValid, fresh-attaches, request}

abbrev channel : Mapping
channel = record { h2s = fresh; s2h = fresh }

fresh-Ready : Ready (view 2) fresh
fresh-Ready = record { attaches = fresh-attaches; valid = fresh-IsValid }

new_layout_fits_example :
    let l = new_layout 256 in
    (l.host_to_shim_offset % 64 ≡ 0)
    × (l.shim_to_host_offset % 64 ≡ 0)
    × (l.host_to_shim_offset + ring_bytes 256 ≤ l.shim_to_host_offset)
    × (l.shim_to_host_offset + ring_bytes 256 ≤ l.total_size)
    × (l.total_size < 2 * (ring_bytes 256 + 64))
    × (tx_offset ChannelSide.host l ≡ rx_offset ChannelSide.shim l)
    × (tx_offset ChannelSide.shim l ≡ rx_offset ChannelSide.host l)
new_layout_fits_example = new_layout_fits 256

send_refines_example :
    let (a, m') = send ChannelSide.shim request (1 ∷ []) channel in
    let (answer, q) = Queue.push 2 request (1 ∷ []) (contents (view 2) fresh) in
    (a ≡ Reply.answer answer)
    × (contents (view 2) (tx_ring ChannelSide.shim m') ≡ q)
    × (rx_ring ChannelSide.shim m' ≡ fresh)
    × Ready (view 2) (tx_ring ChannelSide.shim m')
send_refines_example = send_refines ChannelSide.shim request (1 ∷ []) channel (view 2) fresh-Ready

-- The consumer blocks; then the producer pushes.
asleep :
    Reach (record { word = 1; messages = 1; poster = Poster.pushed; sleeper = Sleeper.blocked })
asleep =
    Reach.next
      (Reach.next
        (Reach.next (Reach.next Reach.start (Step.see_nothing 0 Poster.idle))
          (Step.park 0 0 Poster.idle refl))
        (Step.block 1 0 Poster.idle refl))
      (Step.push 1 0 Sleeper.blocked)

no_lost_wakeup_example : (Poster.pushed ≡ Poster.pushed) ⊎ (Poster.pushed ≡ Poster.waking)
no_lost_wakeup_example = no_lost_wakeup 1 0 Poster.pushed asleep
