-- ===== src/Tests/Tables.antt =====
-- A socket table (crates/psroot-netstack-host/src/socket_table.rs) with two sockets, one closed again.
use psroot.Prelude.{ℕ, ◌≡◌, refl, none, some, [], ◌∷◌}
use psroot.SocketTable.{SocketTable, empty_table, insert, get}
use psroot.SocketTable.Invariant.{IsValid, empty_table-IsValid, insert-Inserted}

abbrev one_socket : SocketTable ℕ
one_socket = record { slots = none ∷ some 70 ∷ []; next_id = 2; free = [] }

inserted_once : insert 70 (empty_table {T = ℕ}) ≡ some (1, one_socket)
unfolding insert empty_table
inserted_once = refl

one_socket-IsValid : IsValid one_socket
one_socket-IsValid = (insert-Inserted 70 1 empty_table-IsValid inserted_once).valid

got_socket : get 1 one_socket ≡ some 70
unfolding get
got_socket = refl
