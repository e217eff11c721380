-- ===== src/NatBackend.antt =====
-- The NAT backend (crates/psroot-netstack-host/src/nat.rs): container sockets over host sockets.
-- Calls whose result the source ignores (timeouts, nodelay, non-blocking mode) are left out; a
-- dropped host socket is closed by the host.
pub mod Transfer
pub mod Invariant
pub mod Preserve
pub mod Names
use psroot.Prelude.{
  ℕ, min, Bool, Option, none, some, List, [], ◌∷◌, ◌++◌, ◌==◌, not, ◌&&◌, if◌then◌else◌, get_or,
  replicate, take, length,
}
use psroot.Proto.{SockAddrBytes, sock_v4, sock_v6, af_inet_v, af_inet6_v, data_capacity}
use psroot.Proto.Codes.{StatusCode}
use psroot.SocketTable
use psroot.SocketTable.{SocketTable, empty_table}
use psroot.Backend.{BResult, ok, err, panic, Backend}
use psroot.Host.{ErrorKind, IoResult, done, failed, Ipv4Addr, SocketAddr, addr_port, Shutdown, Host}

pub data SockState : Type 0 where
  fresh : ℕ → ℕ → SockState
  stream : ℕ → SockAddrBytes → SockState
  listener : ℕ → SockAddrBytes → SockState
  dgram : ℕ → SockAddrBytes → SockState

abbrev pub AddrTranslator : Type 0
AddrTranslator = SocketAddr → Option SocketAddr

pub record NatBackend : Type 0 where
  pub table : SocketTable SockState
  pub virtual_ipv4 : Ipv4Addr
  pub pending_accepts : List (ℕ × List (ℕ × SocketAddr))
  pub translator : Option AddrTranslator

unfoldable pub new_backend : Ipv4Addr → NatBackend
unfolding empty_table
new_backend ip = record {
  table = empty_table;
  virtual_ipv4 = ip;
  pending_accepts = [];
  translator = none;
}

unfoldable pub with_translator : AddrTranslator → NatBackend → NatBackend
with_translator t b = record b { translator = some t }

abbrev pub loopback_v4 : SocketAddr
loopback_v4 = SocketAddr.v4 (record { a = 127; b = 0; c = 0; d = 1 }) 0

abbrev pub loopback_v6 : SocketAddr
loopback_v6 = SocketAddr.v6 (replicate 15 0 ++ 1 ∷ []) 0 0 0

-- Where the host socket behind a container's socket is bound: an ephemeral loopback port.
abbrev pub ephemeral_addr : ℕ → SocketAddr
ephemeral_addr af = if af == af_inet_v then loopback_v4 else loopback_v6

-- The container's own address with a port.
abbrev pub virtual_addr : Ipv4Addr → ℕ → SockAddrBytes
virtual_addr ip port = sock_v4 ip.a ip.b ip.c ip.d port

unfoldable pub sockaddr_to_std : SockAddrBytes → Option SocketAddr
sockaddr_to_std a =
    if a.family == af_inet_v
    then some (
        SocketAddr.v4
          (record {
            a = get_or a.addr 0 0;
            b = get_or a.addr 1 0;
            c = get_or a.addr 2 0;
            d = get_or a.addr 3 0;
          })
          a.port)
    else if a.family == af_inet6_v
    then some (SocketAddr.v6 a.addr a.port a.v6_flow a.v6_scope)
    else none

-- How `accept` and `recvfrom` report a peer: the flow of a v6 address is dropped.
unfoldable pub sockaddr_from_std : SocketAddr → SockAddrBytes
sockaddr_from_std (SocketAddr.v4 ip port) = virtual_addr ip port
sockaddr_from_std (SocketAddr.v6 ip port flow scope) = sock_v6 ip port 0 scope

unfoldable pub map_io_err : ErrorKind → StatusCode
map_io_err ErrorKind.connection_refused = StatusCode.conn_refused
map_io_err ErrorKind.connection_reset = StatusCode.conn_reset
map_io_err ErrorKind.connection_aborted = StatusCode.conn_reset
map_io_err ErrorKind.broken_pipe = StatusCode.conn_reset
map_io_err ErrorKind.addr_in_use = StatusCode.addr_in_use
map_io_err ErrorKind.addr_not_available = StatusCode.addr_not_avail
map_io_err ErrorKind.would_block = StatusCode.would_block
map_io_err ErrorKind.other = StatusCode.host_error

-- `translator.and_then(|t| t(requested)).unwrap_or(requested)`
abbrev pub unwrap_or : Option SocketAddr → SocketAddr → SocketAddr
unwrap_or none a = a
unwrap_or (some t) a = t

abbrev pub translate : Option AddrTranslator → SocketAddr → SocketAddr
translate none requested = requested
translate (some t) requested = unwrap_or (t requested) requested

abbrev pub remove_key : ℕ → List (ℕ × List (ℕ × SocketAddr)) → List (ℕ × List (ℕ × SocketAddr))
remove_key k [] = []
remove_key k ((j, q) ∷ m) = if j == k then remove_key k m else (j, q) ∷ remove_key k m

abbrev pub shutdown_how : ℕ → Shutdown
shutdown_how how =
    if how == 0 then Shutdown.read else if how == 1 then Shutdown.write else Shutdown.both

-- A table whose socket `id` is in a new state.
abbrev pub put_state : ℕ → SockState → NatBackend → NatBackend
put_state id st b = record b { table = SocketTable.put id st b.table }

-- `table.insert`, or the panic of a used-up id space.
abbrev pub inserted :
    {A : Type 0}
    → (ℕ → A)
    → NatBackend
    → Option (ℕ × SocketTable SockState)
    → BResult A × NatBackend
inserted f b none = (panic, b)
inserted f b (some (id, t)) = (ok (f id), record b { table = t })

unfoldable pub socket : ℕ → ℕ → ℕ → NatBackend → BResult ℕ × NatBackend
socket af typ proto b =
    if not (af == af_inet_v) && not (af == af_inet6_v)
    then (err StatusCode.not_supported, b)
    else if not (typ == 1) && not (typ == 2)
    then (err StatusCode.not_supported, b)
    else inserted (λ id. id) b (SocketTable.insert (SockState.fresh af typ) b.table)

module _ {World : Type 0} (host : Host World) where
  open host use {
    tcp_connect, tcp_bind, tcp_accept, tcp_write, tcp_read, tcp_shutdown, udp_bind, udp_send_to,
    udp_recv_from, local_addr,
  }

  abbrev pub Effect : Type 0 → Type 0
  Effect A = BResult A × NatBackend × World

  -- The host port was bound: ask for its number, and take the new state.
  abbrev pub bound :
      (ℕ → SockAddrBytes → SockState)
      → ℕ
      → ℕ
      → IoResult SocketAddr
      → NatBackend
      → World
      → Effect (Unit {0})
  bound state id handle (failed e) b w = (err (map_io_err e), b, w)
  bound state id handle (done local) b w =
      (ok tt, put_state id (state handle (virtual_addr b.virtual_ipv4 (addr_port local))) b, w)

  abbrev pub bind_dgram : ℕ → NatBackend → IoResult ℕ × World → Effect (Unit {0})
  bind_dgram id b (failed e, w) = (err (map_io_err e), b, w)
  bind_dgram id b (done handle, w) = bound SockState.dgram id handle (local_addr handle w) b w

  abbrev pub bind_state : Option SockState → ℕ → NatBackend → World → Effect (Unit {0})
  bind_state none id b w = (err StatusCode.bad_socket, b, w)
  bind_state (some (SockState.fresh af typ)) id b w =
      if typ == 2 then bind_dgram id b (udp_bind (ephemeral_addr af) w) else (ok tt, b, w)
  bind_state (some _) id b w = (err StatusCode.not_supported, b, w)

  unfoldable pub bind : ℕ → SockAddrBytes → NatBackend → World → Effect (Unit {0})
  bind id addr b w = bind_state (SocketTable.get id b.table) id b w

  -- The stream is open before the socket id is looked up.
  abbrev pub connected :
      ℕ → SockAddrBytes → NatBackend → IoResult ℕ × World → Option SockState → Effect (Unit {0})
  connected id addr b (failed e, w) st = (err (map_io_err e), b, w)
  connected id addr b (done handle, w) none = (err StatusCode.bad_socket, b, w)
  connected id addr b (done handle, w) (some st) =
      (ok tt, put_state id (SockState.stream handle addr) b, w)

  abbrev pub connect_to :
      Option SocketAddr → ℕ → SockAddrBytes → NatBackend → World → Effect (Unit {0})
  connect_to none id addr b w = (err StatusCode.addr_not_avail, b, w)
  connect_to (some requested) id addr b w =
      connected id addr b (tcp_connect (translate b.translator requested) w)
        (SocketTable.get id b.table)

  unfoldable pub connect : ℕ → SockAddrBytes → NatBackend → World → Effect (Unit {0})
  connect id addr b w = connect_to (sockaddr_to_std addr) id addr b w

  abbrev pub listen_bound : ℕ → NatBackend → IoResult ℕ × World → Effect (Unit {0})
  listen_bound id b (failed e, w) = (err (map_io_err e), b, w)
  listen_bound id b (done handle, w) = bound SockState.listener id handle (local_addr handle w) b w

  abbrev pub listen_state : Option SockState → ℕ → NatBackend → World → Effect (Unit {0})
  listen_state none id b w = (err StatusCode.bad_socket, b, w)
  listen_state (some (SockState.fresh af typ)) id b w =
      listen_bound id b (tcp_bind (ephemeral_addr af) w)
  listen_state (some (SockState.listener handle addr)) id b w = (ok tt, b, w)
  listen_state (some _) id b w = (err StatusCode.not_supported, b, w)

  unfoldable pub listen : ℕ → ℕ → NatBackend → World → Effect (Unit {0})
  listen id backlog b w = listen_state (SocketTable.get id b.table) id b w

  abbrev pub accepted : NatBackend → IoResult (ℕ × SocketAddr) × World → Effect (ℕ × SockAddrBytes)
  accepted b (failed e, w) = (err (map_io_err e), b, w)
  accepted b (done (handle, peer), w) =
      let peer_v = sockaddr_from_std peer in
      let (r, b') =
        inserted (λ id. (id, peer_v)) b
          (SocketTable.insert (SockState.stream handle peer_v) b.table) in
      (r, b', w)

  abbrev pub accept_state : Option SockState → NatBackend → World → Effect (ℕ × SockAddrBytes)
  accept_state none b w = (err StatusCode.bad_socket, b, w)
  accept_state (some (SockState.listener handle addr)) b w = accepted b (tcp_accept handle w)
  accept_state (some _) b w = (err StatusCode.not_supported, b, w)

  unfoldable pub accept : ℕ → NatBackend → World → Effect (ℕ × SockAddrBytes)
  accept id b w = accept_state (SocketTable.get id b.table) b w
