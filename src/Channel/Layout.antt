-- ===== src/Channel/Layout.antt =====
-- Where the two rings of a layout lie (crates/psroot-netstack-ipc/src/channel.rs).
use psroot.Prelude.{ℕ, ◌+◌, ◌*◌, ◌%◌, ◌≤◌, ◌<◌, ◌≡◌, refl, arith}
use psroot.Ring.{ring_bytes}
use psroot.Channel.{new_layout, ChannelSide, tx_offset, rx_offset}

-- Whatever the slot count, both rings start at a multiple of 64, as `create` and `attach` demand; they
-- do not overlap, and both lie inside the mapping, which has less than 64 bytes more for each. What one
-- side sends into is what the other receives from.
pub new_layout_fits :
    (n : ℕ)
    → let l = new_layout n in
      (l.host_to_shim_offset % 64 ≡ 0)
      × (l.shim_to_host_offset % 64 ≡ 0)
      × (l.host_to_shim_offset + ring_bytes n ≤ l.shim_to_host_offset)
      × (l.shim_to_host_offset + ring_bytes n ≤ l.total_size)
      × (l.total_size < 2 * (ring_bytes n + 64))
      × (tx_offset ChannelSide.host l ≡ rx_offset ChannelSide.shim l)
      × (tx_offset ChannelSide.shim l ≡ rx_offset ChannelSide.host l)
unfolding new_layout tx_offset rx_offset
new_layout_fits n = (refl, omega arith, omega arith, omega arith, omega arith, refl, refl)
