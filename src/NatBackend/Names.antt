-- ===== src/NatBackend/Names.antt =====
-- What the container sees of its sockets through the NAT backend
-- (crates/psroot-netstack-host/src/nat.rs).
use psroot.Prelude.{
  ℕ, zero, suc, ◌≤◌, ◌≡◌, ◌⊎◌, inl, inr, refl, sym, ap, ◌∙◌, subst, Option, none, some, List,
  length, arith,
}
use psroot.Proto.{SockAddrBytes, sock_v4, data_capacity}
use psroot.Proto.Codes.{StatusCode}
use psroot.SocketTable
use psroot.SocketTable.{empty_table}
use psroot.SocketTable.Invariant
use psroot.SocketTable.Removal
use psroot.Backend.{BResult, ok, err, ok-injective}
use psroot.Host.{IoResult, done, failed, Ipv4Addr, SocketAddr, Host}
use psroot.NatBackend.{
  SockState, NatBackend, new_backend, virtual_addr, bind, connect, connect_to, connected, listen,
  accept, sockaddr_to_std, translate,
}
use psroot.NatBackend.Transfer.{
  send, recv, recv_state, bytes_reply, shutdown, close, sendto, recvfrom, get_sock_name, name_of,
  get_peer_name, peer_of, port_or_zero, read_cap,
}
use psroot.NatBackend.Invariant.{IsValid}

get-empty_table : (id : ℕ) → SocketTable.get id (empty_table {T = SockState}) ≡ none
unfolding SocketTable.get empty_table
get-empty_table zero = refl
get-empty_table (suc id) = refl

-- A new backend keeps the invariant: it has no socket.
pub new_backend-IsValid : (ip : Ipv4Addr) → IsValid ip (new_backend ip)
unfolding new_backend
new_backend-IsValid ip = record {
  table_valid = Invariant.empty_table-IsValid;
  own_ip = refl;
  hidden = λ id st e. absurd (Invariant.none-ne-some st (sym (get-empty_table id) ∙ e));
}

module _ {World : Type 0} (host : Host World) where
  name_of-hides :
      (ip : Ipv4Addr) (o : Option SockState) (id : ℕ) (b : NatBackend) (w : World)
      (a : SockAddrBytes)
      → IsValid ip b
      → SocketTable.get id b.table ≡ o
      → name_of host o b w ≡ ok a
      → (a ≡ virtual_addr ip a.port) ⊎ (a ≡ sock_v4 0 0 0 0 0)
  name_of-hides ip none id b w a v found e = cc
  name_of-hides ip (some (SockState.fresh af typ)) id b w a v found e = inr (sym (ok-injective e))
  name_of-hides ip (some (SockState.stream handle peer)) id b w a v found e =
      let same = ok-injective e in
      inl (
        subst (λ x. x ≡ virtual_addr ip x.port) same
          (ap (λ i. virtual_addr i (port_or_zero (host.local_addr handle w))) v.own_ip))
  name_of-hides ip (some (SockState.listener handle addr)) id b w a v found e = inl (
      subst (λ x. x ≡ virtual_addr ip x.port) (ok-injective e)
        (v.hidden id (SockState.listener handle addr) found))
  name_of-hides ip (some (SockState.dgram handle addr)) id b w a v found e = inl (
      subst (λ x. x ≡ virtual_addr ip x.port) (ok-injective e)
        (v.hidden id (SockState.dgram handle addr) found))

  -- Whatever the host answers, the name that the container is told for a socket is the container's
  -- own address with a port, or all zeros.
  pub get_sock_name-hides :
      (ip : Ipv4Addr) (id : ℕ) (b : NatBackend) (w : World) (a : SockAddrBytes)
      → IsValid ip b
      → get_sock_name host id b w ≡ ok a
      → (a ≡ virtual_addr ip a.port) ⊎ (a ≡ sock_v4 0 0 0 0 0)
  unfolding get_sock_name
  get_sock_name-hides ip id b w a v e =
      name_of-hides ip (SocketTable.get id b.table) id b w a v refl e

  -- The port in the name of a connected stream is that of the host's socket.
  abbrev pub StreamPort : Option SockState → World → SockAddrBytes → Type 0
  StreamPort (some (SockState.stream handle peer)) w a =
      a.port ≡ port_or_zero (host.local_addr handle w)
  StreamPort _ w a = Unit

  name_of-StreamPort :
      (o : Option SockState) (b : NatBackend) (w : World) (a : SockAddrBytes)
      → name_of host o b w ≡ ok a
      → StreamPort o w a
  name_of-StreamPort none b w a e = tt
  name_of-StreamPort (some (SockState.fresh af typ)) b w a e = tt
  name_of-StreamPort (some (SockState.listener handle addr)) b w a e = tt
  name_of-StreamPort (some (SockState.dgram handle addr)) b w a e = tt
  name_of-StreamPort (some (SockState.stream handle peer)) b w a e =
      ap (λ (x : SockAddrBytes). x.port) (sym (ok-injective e))

  pub get_sock_name-StreamPort :
      (id : ℕ) (b : NatBackend) (w : World) (a : SockAddrBytes)
      → get_sock_name host id b w ≡ ok a
      → StreamPort (SocketTable.get id b.table) w a
  unfolding get_sock_name
  get_sock_name-StreamPort id b w a e = name_of-StreamPort (SocketTable.get id b.table) b w a e

  connected-peer :
      (ip : Ipv4Addr) (id : ℕ) (addr : SockAddrBytes) (b b' : NatBackend) (w w' : World)
      (r : IoResult ℕ × World) (o : Option SockState)
      → IsValid ip b
      → SocketTable.get id b.table ≡ o
      → connected host id addr b r o ≡ (ok tt, b', w')
      → get_peer_name id b' ≡ ok addr
  unfolding get_peer_name
  connected-peer ip id addr b b' w w' (failed x, u) o v found e = cc
  connected-peer ip id addr b b' w w' (done handle, u) none v found e = cc
  connected-peer ip id addr b b' w w' (done handle, u) (some old) v found e =
      let (valid, stored, others) =
        Removal.put-IsValid (SockState.stream handle addr) v.table_valid found in
      subst (λ x. peer_of (SocketTable.get id x.table) ≡ ok addr)
        (ap (λ (t : BResult (Unit {0}) × NatBackend × World). t.1) e) (ap peer_of stored)

  connect_to-peer :
      (ip : Ipv4Addr) (o : Option SocketAddr) (id : ℕ) (addr : SockAddrBytes) (b b' : NatBackend)
      (w w' : World)
      → IsValid ip b
      → connect_to host o id addr b w ≡ (ok tt, b', w')
      → get_peer_name id b' ≡ ok addr
  connect_to-peer ip none id addr b b' w w' v e = cc
  connect_to-peer ip (some requested) id addr b b' w w' v e =
      connected-peer ip id addr b b' w w' (host.tcp_connect (translate b.translator requested) w)
        (SocketTable.get id b.table) v refl e

  -- After a connect that succeeds, the socket's peer is the address that the container asked for,
  -- also where the translator sent the connection elsewhere.
  connect-get_peer_name :
      (ip : Ipv4Addr) (id : ℕ) (addr : SockAddrBytes) (b b' : NatBackend) (w w' : World)
      → IsValid ip b
      → connect host id addr b w ≡ (ok tt, b', w')
      → get_peer_name id b' ≡ ok addr
  unfolding connect
  connect-get_peer_name ip id addr b b' w w' v e =
      connect_to-peer ip (sockaddr_to_std addr) id addr b b' w w' v e

  -- After a close, each of the ten methods here refuses the id as unknown, whatever the arguments.
  close-refuses :
      (ip : Ipv4Addr) (id : ℕ) (b : NatBackend) (w : World) (addr : SockAddrBytes) (bytes : List ℕ)
      (n : ℕ)
      → IsValid ip b
      → let b' = (close id b).1 in
        ((bind host id addr b' w).0 ≡ err StatusCode.bad_socket)
        × ((listen host id n b' w).0 ≡ err StatusCode.bad_socket)
        × ((accept host id b' w).0 ≡ err StatusCode.bad_socket)
        × ((send host id bytes b' w).0 ≡ err StatusCode.bad_socket)
        × ((recv host id n b' w).0 ≡ err StatusCode.bad_socket)
        × ((shutdown host id n b' w).0 ≡ err StatusCode.bad_socket)
        × (get_sock_name host id b' w ≡ err StatusCode.bad_socket)
        × (get_peer_name id b' ≡ err StatusCode.bad_socket)
        × ((sendto host id addr bytes b' w).0 ≡ err StatusCode.bad_socket)
        × ((recvfrom host id n b' w).0 ≡ err StatusCode.bad_socket)
  unfolding close bind listen accept send recv shutdown get_sock_name get_peer_name sendto recvfrom
  close-refuses ip id b w addr bytes n v =
      let gone = (Removal.remove-Removed id v.table_valid).gone in
      rw gone (refl, refl, refl, refl, refl, refl, refl, refl, rw gone refl, refl)

  -- Documented behaviour of a read: it returns at most as many bytes as the buffer holds.
  abbrev pub ReadsFit : Type 0
  ReadsFit =
      (handle cap : ℕ) (w : World) (bytes : List ℕ) (w' : World)
      → host.tcp_read handle cap w ≡ (done bytes, w')
      → length bytes ≤ cap

  bytes_reply-inv :
      (b b' : NatBackend) (r : IoResult (List ℕ) × World) (bytes : List ℕ) (w' : World)
      → bytes_reply host b r ≡ (ok bytes, b', w')
      → r ≡ (done bytes, w')
  bytes_reply-inv b b' (failed x, w) bytes w' e = cc
  bytes_reply-inv b b' (done got, w) bytes w' e = ground arith

  recv_state-bounded :
      (o : Option SockState) (n : ℕ) (b b' : NatBackend) (w w' : World) (bytes : List ℕ)
      → ReadsFit
      → recv_state host o n b w ≡ (ok bytes, b', w')
      → length bytes ≤ read_cap n
  recv_state-bounded none n b b' w w' bytes fits e = cc
  recv_state-bounded (some (SockState.fresh af typ)) n b b' w w' bytes fits e = cc
  recv_state-bounded (some (SockState.listener handle addr)) n b b' w w' bytes fits e = cc
  recv_state-bounded (some (SockState.dgram handle addr)) n b b' w w' bytes fits e = cc
  recv_state-bounded (some (SockState.stream handle peer)) n b b' w w' bytes fits e =
      fits handle (read_cap n) w bytes w' (bytes_reply-inv b b' _ bytes w' e)

  -- A receive hands over at most the bytes asked for, and never more than one slot holds.
  recv-bounded :
      (id n : ℕ) (b b' : NatBackend) (w w' : World) (bytes : List ℕ)
      → ReadsFit
      → recv host id n b w ≡ (ok bytes, b', w')
      → (length bytes ≤ n) × (length bytes ≤ data_capacity)
  unfolding recv
  recv-bounded id n b b' w w' bytes fits e =
      let k = recv_state-bounded (SocketTable.get id b.table) n b b' w w' bytes fits e in
      (omega (arith, k), omega (arith, k))
