-- ===== src/Tests/Backends.antt =====
-- The NAT backend and the daemon over a concrete host.
use psroot.Prelude.{
  subst, ℕ, ◌≡◌, ◌≢◌, ◌⊎◌, refl, sym, ap, false, List, [], ◌∷◌, length, length-take, arith,
  replicate,
}
use psroot.Proto.{SockAddrBytes, SlotHeader, sock_v4, new_header}
use psroot.Proto.Codes.{OpCode, raw_op, op_from_raw}
use psroot.Ring.Queue.{Message}
use psroot.SocketTable.{SocketTable, empty_table, insert}
use psroot.SocketTable
use psroot.Backend.{ok, ok-injective}
use psroot.Host.{IoResult, done, failed, SocketAddr, IsFull, HasFullPeers}
use psroot.NatBackend.{
  NatBackend, new_backend, virtual_addr, socket, connect, listen, sockaddr_to_std,
}
use psroot.NatBackend.Transfer.{recv, get_sock_name, nat_backend}
use psroot.NatBackend.Invariant.{IsValid, socket-IsValid}
use psroot.NatBackend.Names.{new_backend-IsValid, ReadsFit, StreamPort}
use psroot.Daemon.Handle.{Daemon, Event, run, handle, plan, post_all, dispatch}
use psroot.Daemon.Answers.{HasFullAddresses, Answered, plan-Answered}
use psroot.Daemon.Served.{run-IsValid, run-hides}
use psroot.Tests.World.{
  host_peer, test_host, test_resolver, container_ip, some_peer, counting, keep_post,
}

abbrev backend : NatBackend
backend = (socket 2 1 6 (new_backend container_ip)).1

backend-IsValid : IsValid container_ip backend
backend-IsValid =
    socket-IsValid container_ip 2 1 6 (new_backend container_ip) (new_backend-IsValid container_ip)

abbrev connected : NatBackend
connected = (connect test_host 1 some_peer backend 5).1

connected_once : connect test_host 1 some_peer backend 5 ≡ (ok tt, connected, 6)
unfolding connect socket new_backend empty_table insert SocketTable.get sockaddr_to_std
connected_once = refl

test_host-ReadsFit : ReadsFit test_host
test_host-ReadsFit id most w bytes w' e =
    let read : IoResult (List ℕ) → List ℕ = λ r. elim r [ done x ↦ x | failed x ↦ [] ] in
    omega (
      arith,
      length-take {A = ℕ} most (1 ∷ 2 ∷ 3 ∷ []),
      ap (λ (x : IoResult (List ℕ) × ℕ). length (read x.0)) e,
    )

received_two : recv test_host 1 2 connected 6 ≡ (ok (1 ∷ 2 ∷ []), connected, 6)
unfolding recv connect socket new_backend empty_table insert SocketTable.get SocketTable.put
    sockaddr_to_std
received_two = refl

-- A container that opens a socket, listens and is asked for the socket's name.
abbrev daemon : Daemon (NatBackend × ℕ) (List Message)
daemon = record { channel = []; backend = (new_backend container_ip, 5); stop = false }

abbrev socket_request : SlotHeader
socket_request = record (new_header OpCode.socket 1) { args = 2 ∷ 0 ∷ 1 ∷ 0 ∷ replicate 12 0 }

abbrev listen_request : SlotHeader
listen_request = record (new_header OpCode.listen 2) { socket_id = 1 }

abbrev events : List Event
events = Event.request socket_request [] ∷ Event.quiet ∷ Event.request listen_request [] ∷ []

test_host-HasFullPeers : HasFullPeers test_host
test_host-HasFullPeers = record {
  tcp_accept = λ handle k a w w' e. subst IsFull (ap peer_of_accept e) tt;
  udp_recv_from = λ handle max bytes a w w' e. subst IsFull (ap peer_of_datagram e) tt;
}
  where
    peer_of_accept : IoResult (ℕ × SocketAddr) × ℕ → SocketAddr
    peer_of_accept (done (k, a), w) = a
    peer_of_accept (failed x, w) = host_peer

    peer_of_datagram : IoResult (List ℕ × SocketAddr) × ℕ → SocketAddr
    peer_of_datagram (done (k, a), w) = a
    peer_of_datagram (failed x, w) = host_peer

run-IsValid_example :
    IsValid container_ip
      (run (nat_backend test_host) test_resolver keep_post events daemon).1.backend.0
run-IsValid_example =
    run-IsValid test_host test_resolver keep_post container_ip events daemon test_host-HasFullPeers
      (new_backend-IsValid container_ip)

named :
    get_sock_name test_host 1
      (run (nat_backend test_host) test_resolver keep_post events daemon).1.backend.0
      6
    ≡ ok (virtual_addr container_ip 40005)
unfolding run handle plan dispatch post_all nat_backend socket listen get_sock_name new_backend
    empty_table insert SocketTable.get SocketTable.put op_from_raw raw_op new_header
named = refl

run-hides_example :
    ((virtual_addr container_ip 40005 ≡ virtual_addr container_ip 40005)
      ⊎ (virtual_addr container_ip 40005 ≡ sock_v4 0 0 0 0 0))
    × StreamPort test_host
        (SocketTable.get 1
          (run (nat_backend test_host) test_resolver keep_post events daemon).1.backend.0.table)
        6
        (virtual_addr container_ip 40005)
run-hides_example =
    run-hides test_host test_resolver keep_post container_ip events daemon 1 6
      (virtual_addr container_ip 40005) test_host-HasFullPeers refl named

counting-HasFullAddresses : HasFullAddresses counting test_resolver 0
counting-HasFullAddresses = record {
  accept = λ id new_id a e. ap (λ (x : ℕ × SockAddrBytes). length x.1.addr) (sym (ok-injective e));
  get_sock_name = λ id a e. ap (λ x. length x.addr) (sym (ok-injective e));
  get_peer_name = λ id a e. cc;
  recvfrom = λ id max bytes a e.
      ap (λ (x : List ℕ × SockAddrBytes). length x.1.addr) (sym (ok-injective e));
  lookup_host = λ name a e. cc;
}

plan-Answered_example : Answered 1 (plan counting test_resolver socket_request [] 0)
unfolding new_header
plan-Answered_example =
    plan-Answered counting test_resolver socket_request [] 0 counting-HasFullAddresses not_bye
  where
    not_bye : 16 ≢ raw_op OpCode.bye
    not_bye e = unfold raw_op in absurd (omega (arith, e))
