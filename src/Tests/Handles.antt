-- ===== src/Tests/Handles.antt =====
-- Handles of the network shim (crates/psroot-netshim/src/state.rs) and leases of addresses
-- (crates/psroot-unix/src/net/ipam.rs).
use psroot.Prelude.{◌≡◌, refl, true, List, [], ◌∷◌, arith}
use psroot.NetShim.{new_state, alloc_fake, Op}
use psroot.NetShim.Handles.{IsValid, new_state-IsValid, alloc_fake-Allocated}
use psroot.Ipam.{alloc, first_free, Result}

one_handle-IsValid : IsValid (alloc_fake 7 new_state).1
one_handle-IsValid = (alloc_fake-Allocated 7 new_state new_state-IsValid (omega arith)).valid

abbrev calls : List Op
calls = Op.opened 7 ∷ Op.closed 0x100000000 ∷ Op.opened 8 ∷ []

second_lease : alloc true (2 ∷ []) ≡ (Result.ok 3, 3 ∷ 2 ∷ [])
unfolding alloc first_free
second_lease = refl
