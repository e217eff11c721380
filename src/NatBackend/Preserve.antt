-- ===== src/NatBackend/Preserve.antt =====
-- The methods of the NAT backend that leave its state alone, and the invariant of all of them
-- (crates/psroot-netstack-host/src/nat.rs).
use psroot.Prelude.{ℕ, ◌≡◌, refl, sym, subst, Option, none, some, Bool-cases, inl, inr, List}
use psroot.Proto.{SockAddrBytes, sock_v4}
use psroot.SocketTable
use psroot.Backend.{BResult, ok, err, panic, Preserves}
use psroot.Host.{HasFullPeers, IoResult, done, failed, Ipv4Addr, SocketAddr, Host}
use psroot.NatBackend.{
  SockState, NatBackend, bind, connect, listen, accept, sockaddr_to_std, translate, shutdown_how,
}
use psroot.NatBackend.Transfer.{
  send, send_state, recv, recv_state, shutdown, shutdown_state, sendto, sendto_after, sendto_state,
  send_to_addr, recvfrom, recvfrom_state, count_reply, unit_reply, bytes_reply, datagram_reply,
  needs_bind, nat_backend, read_cap,
}
use psroot.NatBackend.Invariant.{
  IsValid, bind-IsValid, socket-IsValid, close-IsValid, connect_to-IsValid, listen_state-IsValid,
  accept_state-IsValid,
}

module _ {World : Type 0} (host : Host World) where
  open host use {tcp_write, tcp_read, tcp_shutdown, udp_send_to, udp_recv_from}

  count_reply-same : (b : NatBackend) (r : IoResult ℕ × World) → (count_reply host b r).1 ≡ b
  count_reply-same b (failed e, w) = refl
  count_reply-same b (done n, w) = refl

  unit_reply-same : (b : NatBackend) (r : IoResult (Unit {0}) × World) → (unit_reply host b r).1 ≡ b
  unit_reply-same b (failed e, w) = refl
  unit_reply-same b (done n, w) = refl

  bytes_reply-same : (b : NatBackend) (r : IoResult (List ℕ) × World) → (bytes_reply host b r).1 ≡ b
  bytes_reply-same b (failed e, w) = refl
  bytes_reply-same b (done n, w) = refl

  datagram_reply-same :
      (b : NatBackend) (r : IoResult (List ℕ × SocketAddr) × World)
      → (datagram_reply host b r).1 ≡ b
  datagram_reply-same b (failed e, w) = refl
  datagram_reply-same b (done (bytes, peer), w) = refl

  send_state-same :
      (st : Option SockState) (bytes : List ℕ) (b : NatBackend) (w : World)
      → (send_state host st bytes b w).1 ≡ b
  send_state-same (some (SockState.stream handle peer)) bytes b w =
      count_reply-same b (tcp_write handle bytes w)
  send_state-same none bytes b w = refl
  send_state-same (some (SockState.fresh af typ)) bytes b w = refl
  send_state-same (some (SockState.listener handle addr)) bytes b w = refl
  send_state-same (some (SockState.dgram handle addr)) bytes b w = refl

  recv_state-same :
      (st : Option SockState) (max : ℕ) (b : NatBackend) (w : World)
      → (recv_state host st max b w).1 ≡ b
  recv_state-same (some (SockState.stream handle peer)) max b w =
      bytes_reply-same b (tcp_read handle (read_cap max) w)
  recv_state-same none max b w = refl
  recv_state-same (some (SockState.fresh af typ)) max b w = refl
  recv_state-same (some (SockState.listener handle addr)) max b w = refl
  recv_state-same (some (SockState.dgram handle addr)) max b w = refl

  shutdown_state-same :
      (st : Option SockState) (how : ℕ) (b : NatBackend) (w : World)
      → (shutdown_state host st how b w).1 ≡ b
  shutdown_state-same (some (SockState.stream handle peer)) how b w =
      unit_reply-same b (tcp_shutdown handle (shutdown_how how) w)
  shutdown_state-same none how b w = refl
  shutdown_state-same (some (SockState.fresh af typ)) how b w = refl
  shutdown_state-same (some (SockState.listener handle addr)) how b w = refl
  shutdown_state-same (some (SockState.dgram handle addr)) how b w = refl

  send_to_addr-same :
      (o : Option SocketAddr) (handle : ℕ) (bytes : List ℕ) (b : NatBackend) (w : World)
      → (send_to_addr host o handle bytes b w).1 ≡ b
  send_to_addr-same none handle bytes b w = refl
  send_to_addr-same (some requested) handle bytes b w =
      count_reply-same b (udp_send_to handle bytes (translate b.translator requested) w)

  sendto_state-same :
      (st : Option SockState) (addr : SockAddrBytes) (bytes : List ℕ) (b : NatBackend) (w : World)
      → (sendto_state host st addr bytes b w).1 ≡ b
  sendto_state-same (some (SockState.dgram handle own)) addr bytes b w =
      send_to_addr-same (sockaddr_to_std addr) handle bytes b w
  sendto_state-same none addr bytes b w = refl
  sendto_state-same (some (SockState.fresh af typ)) addr bytes b w = refl
  sendto_state-same (some (SockState.stream handle peer)) addr bytes b w = refl
  sendto_state-same (some (SockState.listener handle own)) addr bytes b w = refl

  recvfrom_state-same :
      (st : Option SockState) (max : ℕ) (b : NatBackend) (w : World)
      → (recvfrom_state host st max b w).1 ≡ b
  recvfrom_state-same (some (SockState.dgram handle own)) max b w =
      datagram_reply-same b (udp_recv_from handle (read_cap max) w)
  recvfrom_state-same none max b w = refl
  recvfrom_state-same (some (SockState.fresh af typ)) max b w = refl
  recvfrom_state-same (some (SockState.stream handle peer)) max b w = refl
  recvfrom_state-same (some (SockState.listener handle own)) max b w = refl

module _ {World : Type 0} (host : Host World) (ip : Ipv4Addr) where
  same-IsValid : {b b' : NatBackend} → b' ≡ b → IsValid ip b → IsValid ip b'
  same-IsValid e v = subst (IsValid ip) (sym e) v

  sendto_after-IsValid :
      (id : ℕ) (addr : SockAddrBytes) (bytes : List ℕ) (r : BResult (Unit {0})) (b : NatBackend)
      (w : World)
      → IsValid ip b
      → IsValid ip (sendto_after host id addr bytes (r, b, w)).1
  sendto_after-IsValid id addr bytes (ok u) b w v =
      same-IsValid (sendto_state-same host (SocketTable.get id b.table) addr bytes b w) v
  sendto_after-IsValid id addr bytes (err e) b w v = v
  sendto_after-IsValid id addr bytes panic b w v = v

  sendto-IsValid :
      (id : ℕ) (addr : SockAddrBytes) (bytes : List ℕ) (b : NatBackend) (w : World)
      → IsValid ip b
      → IsValid ip (sendto host id addr bytes b w).1
  unfolding sendto
  sendto-IsValid id addr bytes b w v = elim (Bool-cases (needs_bind (SocketTable.get id b.table))) [
    | inl first ↦
        let own = sock_v4 0 0 0 0 0 in
        let (r, b', w') = bind host id own b w in
        rw first (sendto_after-IsValid id addr bytes r b' w' (bind-IsValid host ip id own b w v))
    | inr later ↦ rw later (sendto_after-IsValid id addr bytes (ok tt) b w v)
  ]

  -- Every method of the backend keeps the socket table valid, the container's address the same, and
  -- every bound socket reporting that address and no other, whatever the host answers, when the peers
  -- that it reports are addresses of their type.
  pub nat_backend-Preserves : HasFullPeers host → Preserves (nat_backend host) (λ s. IsValid ip s.0)
  unfolding nat_backend connect listen accept send recv shutdown recvfrom
  nat_backend-Preserves full = record {
    socket = λ af typ proto s v. socket-IsValid ip af typ proto s.0 v;
    bind = λ id addr s k v. bind-IsValid host ip id addr s.0 s.1 v;
    connect =
        λ id addr s k v. connect_to-IsValid host ip (sockaddr_to_std addr) id addr s.0 s.1 k v;
    listen = λ id backlog s v.
        listen_state-IsValid host ip (SocketTable.get id s.0.table) id s.0 s.1 v refl;
    accept = λ id s v. accept_state-IsValid host ip (SocketTable.get id s.0.table) s.0 s.1 full v;
    send = λ id bytes s v.
        same-IsValid (send_state-same host (SocketTable.get id s.0.table) bytes s.0 s.1) v;
    recv = λ id max s v.
        same-IsValid (recv_state-same host (SocketTable.get id s.0.table) max s.0 s.1) v;
    close = λ id s v. close-IsValid ip id s.0 v;
    shutdown = λ id how s v.
        same-IsValid (shutdown_state-same host (SocketTable.get id s.0.table) how s.0 s.1) v;
    get_sock_name = λ id s v. v;
    get_peer_name = λ id s v. v;
    sendto = λ id addr bytes s k v. sendto-IsValid id addr bytes s.0 s.1 v;
    recvfrom = λ id max s v.
        same-IsValid (recvfrom_state-same host (SocketTable.get id s.0.table) max s.0 s.1) v;
  }
