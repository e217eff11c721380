-- ===== src/NatBackend/Transfer.antt =====
-- The rest of the NAT backend's methods (crates/psroot-netstack-host/src/nat.rs): data, names and the
-- end of a socket; and the backend that the daemon drives.
use psroot.Prelude.{ℕ, ◌%◌, ◌^◌, min, Bool, false, Option, none, some, List, ◌==◌, if◌then◌else◌}
use psroot.Proto.{SockAddrBytes, sock_v4, data_capacity}
use psroot.Proto.Codes.{StatusCode}
use psroot.SocketTable
use psroot.Backend.{BResult, ok, err, panic, Backend}
use psroot.Host.{IoResult, done, failed, SocketAddr, addr_port, Host}
use psroot.NatBackend.{
  SockState, NatBackend, virtual_addr, translate, sockaddr_to_std, sockaddr_from_std, map_io_err,
  remove_key, shutdown_how, Effect, socket, bind, connect, listen, accept,
}

-- The most bytes that one `recv` or `recvfrom` asks the host for.
abbrev pub read_cap : ℕ → ℕ
read_cap max = min max data_capacity

abbrev pub peer_of : Option SockState → BResult SockAddrBytes
peer_of none = err StatusCode.bad_socket
peer_of (some (SockState.stream handle peer)) = ok peer
peer_of (some _) = err StatusCode.not_supported

unfoldable pub get_peer_name : ℕ → NatBackend → BResult SockAddrBytes
get_peer_name id b = peer_of (SocketTable.get id b.table)

unfoldable pub close : ℕ → NatBackend → BResult (Unit {0}) × NatBackend
close id b = (
  ok tt,
  record b {
    pending_accepts = remove_key id b.pending_accepts;
    table = (SocketTable.remove id b.table).1;
  },
)

-- The port of a local address, or 0 if the host cannot tell it.
abbrev pub port_or_zero : IoResult SocketAddr → ℕ
port_or_zero (failed e) = 0
port_or_zero (done a) = addr_port a

-- `Fresh` with the type of a datagram socket: what `sendto` binds on first use.
abbrev pub needs_bind : Option SockState → Bool
needs_bind none = false
needs_bind (some (SockState.fresh af typ)) = typ == 2
needs_bind (some _) = false

module _ {World : Type 0} (host : Host World) where
  open host use {tcp_write, tcp_read, tcp_shutdown, udp_send_to, udp_recv_from, local_addr}

  -- `n as u32`
  abbrev pub count_reply : NatBackend → IoResult ℕ × World → Effect host ℕ
  count_reply b (failed e, w) = (err (map_io_err e), b, w)
  count_reply b (done n, w) = (ok (n % 2 ^ 32), b, w)

  abbrev pub unit_reply : NatBackend → IoResult (Unit {0}) × World → Effect host (Unit {0})
  unit_reply b (failed e, w) = (err (map_io_err e), b, w)
  unit_reply b (done u, w) = (ok tt, b, w)

  abbrev pub bytes_reply : NatBackend → IoResult (List ℕ) × World → Effect host (List ℕ)
  bytes_reply b (failed e, w) = (err (map_io_err e), b, w)
  bytes_reply b (done bytes, w) = (ok bytes, b, w)

  abbrev pub datagram_reply :
      NatBackend → IoResult (List ℕ × SocketAddr) × World → Effect host (List ℕ × SockAddrBytes)
  datagram_reply b (failed e, w) = (err (map_io_err e), b, w)
  datagram_reply b (done (bytes, peer), w) = (ok (bytes, sockaddr_from_std peer), b, w)

  abbrev pub send_state : Option SockState → List ℕ → NatBackend → World → Effect host ℕ
  send_state none bytes b w = (err StatusCode.bad_socket, b, w)
  send_state (some (SockState.stream handle peer)) bytes b w =
      count_reply b (tcp_write handle bytes w)
  send_state (some _) bytes b w = (err StatusCode.not_supported, b, w)

  unfoldable pub send : ℕ → List ℕ → NatBackend → World → Effect host ℕ
  send id bytes b w = send_state (SocketTable.get id b.table) bytes b w

  abbrev pub recv_state : Option SockState → ℕ → NatBackend → World → Effect host (List ℕ)
  recv_state none max b w = (err StatusCode.bad_socket, b, w)
  recv_state (some (SockState.stream handle peer)) max b w =
      bytes_reply b (tcp_read handle (read_cap max) w)
  recv_state (some _) max b w = (err StatusCode.not_supported, b, w)

  unfoldable pub recv : ℕ → ℕ → NatBackend → World → Effect host (List ℕ)
  recv id max b w = recv_state (SocketTable.get id b.table) max b w

  abbrev pub shutdown_state : Option SockState → ℕ → NatBackend → World → Effect host (Unit {0})
  shutdown_state none how b w = (err StatusCode.bad_socket, b, w)
  shutdown_state (some (SockState.stream handle peer)) how b w =
      unit_reply b (tcp_shutdown handle (shutdown_how how) w)
  shutdown_state (some _) how b w = (err StatusCode.not_supported, b, w)

  unfoldable pub shutdown : ℕ → ℕ → NatBackend → World → Effect host (Unit {0})
  shutdown id how b w = shutdown_state (SocketTable.get id b.table) how b w

  abbrev pub name_of : Option SockState → NatBackend → World → BResult SockAddrBytes
  name_of none b w = err StatusCode.bad_socket
  name_of (some (SockState.fresh af typ)) b w = ok (sock_v4 0 0 0 0 0)
  name_of (some (SockState.stream handle peer)) b w =
      ok (virtual_addr b.virtual_ipv4 (port_or_zero (local_addr handle w)))
  name_of (some (SockState.listener handle addr)) b w = ok addr
  name_of (some (SockState.dgram handle addr)) b w = ok addr

  unfoldable pub get_sock_name : ℕ → NatBackend → World → BResult SockAddrBytes
  get_sock_name id b w = name_of (SocketTable.get id b.table) b w

  abbrev pub send_to_addr : Option SocketAddr → ℕ → List ℕ → NatBackend → World → Effect host ℕ
  send_to_addr none handle bytes b w = (err StatusCode.addr_not_avail, b, w)
  send_to_addr (some requested) handle bytes b w =
      count_reply b (udp_send_to handle bytes (translate b.translator requested) w)

  abbrev pub sendto_state :
      Option SockState → SockAddrBytes → List ℕ → NatBackend → World → Effect host ℕ
  sendto_state none addr bytes b w = (err StatusCode.bad_socket, b, w)
  sendto_state (some (SockState.dgram handle own)) addr bytes b w =
      send_to_addr (sockaddr_to_std addr) handle bytes b w
  sendto_state (some _) addr bytes b w = (err StatusCode.not_supported, b, w)

  -- `self.bind(…)?`: a bind that fails ends `sendto` with its error.
  abbrev pub sendto_after : ℕ → SockAddrBytes → List ℕ → Effect host (Unit {0}) → Effect host ℕ
  sendto_after id addr bytes (ok u, b, w) = sendto_state (SocketTable.get id b.table) addr bytes b w
  sendto_after id addr bytes (err e, b, w) = (err e, b, w)
  sendto_after id addr bytes (panic, b, w) = (panic, b, w)

  unfoldable pub sendto : ℕ → SockAddrBytes → List ℕ → NatBackend → World → Effect host ℕ
  sendto id addr bytes b w = sendto_after id addr bytes (
      if needs_bind (SocketTable.get id b.table)
      then bind host id (sock_v4 0 0 0 0 0) b w
      else (ok tt, b, w))

  abbrev pub recvfrom_state :
      Option SockState → ℕ → NatBackend → World → Effect host (List ℕ × SockAddrBytes)
  recvfrom_state none max b w = (err StatusCode.bad_socket, b, w)
  recvfrom_state (some (SockState.dgram handle own)) max b w =
      datagram_reply b (udp_recv_from handle (read_cap max) w)
  recvfrom_state (some _) max b w = (err StatusCode.not_supported, b, w)

  unfoldable pub recvfrom : ℕ → ℕ → NatBackend → World → Effect host (List ℕ × SockAddrBytes)
  recvfrom id max b w = recvfrom_state (SocketTable.get id b.table) max b w

  -- `impl Backend for NatBackend`, over the backend beside the world that it acts on.
  unfoldable pub nat_backend : Backend (NatBackend × World)
  unfolding socket bind connect listen accept send recv close shutdown get_sock_name get_peer_name
      sendto recvfrom
  nat_backend = record {
    socket = λ af typ proto s. let (r, b) = socket af typ proto s.0 in (r, (b, s.1));
    bind = λ id addr s. let (r, b, w) = bind host id addr s.0 s.1 in (r, (b, w));
    connect = λ id addr s. let (r, b, w) = connect host id addr s.0 s.1 in (r, (b, w));
    listen = λ id backlog s. let (r, b, w) = listen host id backlog s.0 s.1 in (r, (b, w));
    accept = λ id s. let (r, b, w) = accept host id s.0 s.1 in (r, (b, w));
    send = λ id bytes s. let (r, b, w) = send id bytes s.0 s.1 in (r, (b, w));
    recv = λ id max s. let (r, b, w) = recv id max s.0 s.1 in (r, (b, w));
    close = λ id s. let (r, b) = close id s.0 in (r, (b, s.1));
    shutdown = λ id how s. let (r, b, w) = shutdown id how s.0 s.1 in (r, (b, w));
    get_sock_name = λ id s. (get_sock_name id s.0 s.1, s);
    get_peer_name = λ id s. (get_peer_name id s.0, s);
    sendto = λ id addr bytes s. let (r, b, w) = sendto id addr bytes s.0 s.1 in (r, (b, w));
    recvfrom = λ id max s. let (r, b, w) = recvfrom id max s.0 s.1 in (r, (b, w));
  }
