-- ===== src/Daemon/Served.antt =====
-- The daemon (crates/psroot-netstack-host/src/daemon.rs) over the NAT backend, through a whole run.
use psroot.Prelude.{ℕ, ◌≡◌, sym, subst, ◌⊎◌, List}
use psroot.Proto.{SockAddrBytes, sock_v4}
use psroot.Backend.{ok}
use psroot.Host.{HasFullPeers, Ipv4Addr, Host}
use psroot.SocketTable
use psroot.NatBackend.{NatBackend, new_backend, virtual_addr}
use psroot.NatBackend.Transfer.{get_sock_name, nat_backend}
use psroot.NatBackend.Invariant.{IsValid}
use psroot.NatBackend.Preserve.{nat_backend-Preserves}
use psroot.NatBackend.Names.{
  new_backend-IsValid, get_sock_name-hides, StreamPort, get_sock_name-StreamPort,
}
use psroot.Daemon.{Resolver}
use psroot.Daemon.Handle.{Post, Daemon, Event, run}
use psroot.Daemon.Keeps.{run-keeps}

module _ {World C : Type 0} (host : Host World) (resolver : Resolver) (post : Post C) where
  -- A run of the daemon over a valid NAT backend ends in a valid one, whatever the host answers (its
  -- peers being addresses of their type) and whatever requests, time-outs, failures and refused posts
  -- the channel brings: the table of sockets is sound, and each bound socket reports the container's
  -- own address.
  pub run-IsValid :
      (ip : Ipv4Addr) (events : List Event) (d : Daemon (NatBackend × World) C)
      → HasFullPeers host
      → IsValid ip d.backend.0
      → IsValid ip (run (nat_backend host) resolver post events d).1.backend.0
  run-IsValid ip events d full v =
      run-keeps (nat_backend host) resolver (λ s. IsValid ip s.0)
        (nat_backend-Preserves host ip full) post events d v

  -- When the daemon has started with a new backend, then after any run, in any world, the name that it
  -- gives for any socket (get_sock_name) is the container's own address with a port, or all zeros: the
  -- address is never one of the host. The port is the host's where the socket is a connected stream.
  -- The peers of the host are addresses of their type.
  pub run-hides :
      (ip : Ipv4Addr) (events : List Event) (d : Daemon (NatBackend × World) C) (id : ℕ) (w : World)
      (a : SockAddrBytes)
      → HasFullPeers host
      → d.backend.0 ≡ new_backend ip
      → get_sock_name host id (run (nat_backend host) resolver post events d).1.backend.0 w ≡ ok a
      → let b = (run (nat_backend host) resolver post events d).1.backend.0 in
        ((a ≡ virtual_addr ip a.port) ⊎ (a ≡ sock_v4 0 0 0 0 0))
        × StreamPort host (SocketTable.get id b.table) w a
  run-hides ip events d id w a full fresh e =
      let b = (run (nat_backend host) resolver post events d).1.backend.0 in
      let start = subst (IsValid ip) (sym fresh) (new_backend-IsValid ip) in
      (
        get_sock_name-hides host ip id b w a (run-IsValid ip events d full start) e,
        get_sock_name-StreamPort host id b w a e,
      )
