-- ===== src/NatBackend/Invariant.antt =====
-- The invariant of the NAT backend (crates/psroot-netstack-host/src/nat.rs), method by method.
use psroot.Prelude.{
  length, ℕ, ◌≡◌, ◌≢◌, refl, subst, ==→eq, ==→ne, sym, ap, ◌∙◌, Option, none, some, Bool-cases, inl,
  inr, ◌==◌, not, ◌&&◌,
}
use mathlib.Core.Option.{some-injective}
use psroot.Proto.{SockAddrBytes, af_inet_v, af_inet6_v}
use psroot.SocketTable
use psroot.SocketTable.{SocketTable}
use psroot.SocketTable.Invariant
use psroot.SocketTable.Removal
use psroot.Host.{
  IsFull, HasFullPeers, IoResult, done, failed, Ipv4Addr, SocketAddr, addr_port, Host,
}
use psroot.NatBackend.{
  SockState, NatBackend, virtual_addr, put_state, inserted, socket, bind, bind_state, bind_dgram,
  bound, connect_to, connected, listen_state, listen_bound, accept_state, accepted,
  sockaddr_from_std, translate, ephemeral_addr,
}
use psroot.NatBackend.Transfer.{close}

-- What a bound socket reports as its own address is the container's, whatever the port; a connected
-- one has a peer of sixteen bytes.
abbrev pub Presents : Ipv4Addr → SockState → Type 0
Presents ip (SockState.fresh af typ) = Unit
Presents ip (SockState.stream handle peer) = length peer.addr ≡ 16
Presents ip (SockState.listener handle addr) = addr ≡ virtual_addr ip addr.port
Presents ip (SockState.dgram handle addr) = addr ≡ virtual_addr ip addr.port

pub record IsValid (ip : Ipv4Addr) (b : NatBackend) : Type 0 where
  pub table_valid : Invariant.IsValid b.table
  pub own_ip : b.virtual_ipv4 ≡ ip
  pub hidden : (id : ℕ) (st : SockState) → SocketTable.get id b.table ≡ some st → Presents ip st

-- Every socket of a table hides the host's address.
abbrev Hidden : Ipv4Addr → SocketTable SockState → Type 0
Hidden ip t = (id : ℕ) (st : SockState) → SocketTable.get id t ≡ some st → Presents ip st

Presents-eq : (ip : Ipv4Addr) {x y : SockState} → some x ≡ some y → Presents ip x → Presents ip y
Presents-eq ip {x} {y} e h = subst (Presents ip) (some-injective x y e) h

pub length-sockaddr_from_std : (a : SocketAddr) → IsFull a → length (sockaddr_from_std a).addr ≡ 16
unfolding sockaddr_from_std
length-sockaddr_from_std (SocketAddr.v4 ip port) h = refl
length-sockaddr_from_std (SocketAddr.v6 ip port flow scope) h = h

module _ (ip : Ipv4Addr) where
  Hidden-update :
      (t t' : SocketTable SockState) (id : ℕ) (st : SockState)
      → Hidden ip t
      → Presents ip st
      → SocketTable.get id t' ≡ some st
      → ((j : ℕ) → j ≢ id → SocketTable.get j t' ≡ SocketTable.get j t)
      → Hidden ip t'
  Hidden-update t t' id st hidden hides stored others j s e = elim (Bool-cases (j == id)) [
    | inl here ↦
        Presents-eq ip (sym stored ∙ ap (λ i. SocketTable.get i t') (sym (==→eq j id here)) ∙ e)
          hides
    | inr away ↦ hidden j s (sym (others j (==→ne j id away)) ∙ e)
  ]

  Hidden-remove :
      (t t' : SocketTable SockState) (id : ℕ)
      → Hidden ip t
      → SocketTable.get id t' ≡ none
      → ((j : ℕ) → j ≢ id → SocketTable.get j t' ≡ SocketTable.get j t)
      → Hidden ip t'
  Hidden-remove t t' id hidden gone others j s e = elim (Bool-cases (j == id)) [
    | inl here ↦ absurd (
        Invariant.none-ne-some s
          (sym gone ∙ ap (λ i. SocketTable.get i t') (sym (==→eq j id here)) ∙ e))
    | inr away ↦ hidden j s (sym (others j (==→ne j id away)) ∙ e)
  ]

  put_state-IsValid :
      (id : ℕ) (st old : SockState) (b : NatBackend)
      → IsValid ip b
      → SocketTable.get id b.table ≡ some old
      → Presents ip st
      → IsValid ip (put_state id st b)
  put_state-IsValid id st old b v found hides =
      let (valid, stored, others) = Removal.put-IsValid st v.table_valid found in
      record {
        table_valid = valid;
        own_ip = v.own_ip;
        hidden = Hidden-update _ _ id st v.hidden hides stored others;
      }

  inserted-IsValid :
      {A : Type 0} (f : ℕ → A) (b : NatBackend) (st : SockState)
      (o : Option (ℕ × SocketTable SockState))
      → SocketTable.insert st b.table ≡ o
      → IsValid ip b
      → Presents ip st
      → IsValid ip (inserted f b o).1
  inserted-IsValid f b st none e v hides = v
  inserted-IsValid f b st (some (id, t)) e v hides =
      let i = Invariant.insert-Inserted st id v.table_valid e in
      record {
        table_valid = i.valid;
        own_ip = v.own_ip;
        hidden = Hidden-update _ _ id st v.hidden hides i.stored i.others;
      }

  pub close-IsValid : (id : ℕ) (b : NatBackend) → IsValid ip b → IsValid ip (close id b).1
  unfolding close
  close-IsValid id b v =
      let r = Removal.remove-Removed id v.table_valid in
      record {
        table_valid = r.valid;
        own_ip = v.own_ip;
        hidden = Hidden-remove _ _ id v.hidden r.gone r.others;
      }

  pub socket-IsValid :
      (af typ proto : ℕ) (b : NatBackend) → IsValid ip b → IsValid ip (socket af typ proto b).1
  unfolding socket
  socket-IsValid af typ proto b v =
      elim (Bool-cases (not (af == af_inet_v) && not (af == af_inet6_v))) [
        | inl bad ↦ rw bad v
        | inr good ↦ elim (Bool-cases (not (typ == 1) && not (typ == 2))) [
          | inl bad ↦ rw (good, bad) v
          | inr fine ↦
              rw (good, fine) (inserted-IsValid (λ id. id) b (SockState.fresh af typ) _ refl v tt)
        ]
      ]

module _ {World : Type 0} (host : Host World) (ip : Ipv4Addr) where
  open host use {tcp_connect, tcp_bind, tcp_accept, udp_bind, local_addr}

  -- A state for a bound socket that reports the address that it is given.
  abbrev Reports : (ℕ → SockAddrBytes → SockState) → Type 0
  Reports state =
      (handle : ℕ) (addr : SockAddrBytes)
      → addr ≡ virtual_addr ip addr.port
      → Presents ip (state handle addr)

  bound-IsValid :
      (state : ℕ → SockAddrBytes → SockState) (id handle : ℕ) (r : IoResult SocketAddr)
      (b : NatBackend) (w : World) (old : SockState)
      → Reports state
      → IsValid ip b
      → SocketTable.get id b.table ≡ some old
      → IsValid ip (bound host state id handle r b w).1
  bound-IsValid state id handle (failed e) b w old k v found = v
  bound-IsValid state id handle (done local) b w old k v found =
      put_state-IsValid ip id (state handle (virtual_addr b.virtual_ipv4 (addr_port local))) old b v
        found
        (k handle (virtual_addr b.virtual_ipv4 (addr_port local))
          (ap (λ a. virtual_addr a (addr_port local)) v.own_ip))

  bind_dgram-IsValid :
      (id : ℕ) (b : NatBackend) (r : IoResult ℕ × World) (old : SockState)
      → IsValid ip b
      → SocketTable.get id b.table ≡ some old
      → IsValid ip (bind_dgram host id b r).1
  bind_dgram-IsValid id b (failed e, w) old v found = v
  bind_dgram-IsValid id b (done handle, w) old v found =
      bound-IsValid SockState.dgram id handle (local_addr handle w) b w old (λ h a e. e) v found

  bind_state-IsValid :
      (st : Option SockState) (id : ℕ) (b : NatBackend) (w : World)
      → IsValid ip b
      → SocketTable.get id b.table ≡ st
      → IsValid ip (bind_state host st id b w).1
  bind_state-IsValid none id b w v e = v
  bind_state-IsValid (some (SockState.fresh af typ)) id b w v e = elim (Bool-cases (typ == 2)) [
    | inl udp ↦
        rw udp
          (bind_dgram-IsValid id b (udp_bind (ephemeral_addr af) w) (SockState.fresh af typ) v e)
    | inr tcp ↦ rw tcp v
  ]
  bind_state-IsValid (some (SockState.stream handle peer)) id b w v e = v
  bind_state-IsValid (some (SockState.listener handle addr)) id b w v e = v
  bind_state-IsValid (some (SockState.dgram handle addr)) id b w v e = v

  pub bind-IsValid :
      (id : ℕ) (addr : SockAddrBytes) (b : NatBackend) (w : World)
      → IsValid ip b
      → IsValid ip (bind host id addr b w).1
  unfolding bind
  bind-IsValid id addr b w v = bind_state-IsValid (SocketTable.get id b.table) id b w v refl

  connected-IsValid :
      (id : ℕ) (addr : SockAddrBytes) (b : NatBackend) (r : IoResult ℕ × World)
      (st : Option SockState)
      → length addr.addr ≡ 16
      → IsValid ip b
      → SocketTable.get id b.table ≡ st
      → IsValid ip (connected host id addr b r st).1
  connected-IsValid id addr b (failed e, w) st full v found = v
  connected-IsValid id addr b (done handle, w) none full v found = v
  connected-IsValid id addr b (done handle, w) (some old) full v found =
      put_state-IsValid ip id (SockState.stream handle addr) old b v found full

  pub connect_to-IsValid :
      (o : Option SocketAddr) (id : ℕ) (addr : SockAddrBytes) (b : NatBackend) (w : World)
      → length addr.addr ≡ 16
      → IsValid ip b
      → IsValid ip (connect_to host o id addr b w).1
  connect_to-IsValid none id addr b w full v = v
  connect_to-IsValid (some requested) id addr b w full v =
      connected-IsValid id addr b (tcp_connect (translate b.translator requested) w)
        (SocketTable.get id b.table) full v refl

  listen_bound-IsValid :
      (id : ℕ) (b : NatBackend) (r : IoResult ℕ × World) (old : SockState)
      → IsValid ip b
      → SocketTable.get id b.table ≡ some old
      → IsValid ip (listen_bound host id b r).1
  listen_bound-IsValid id b (failed e, w) old v found = v
  listen_bound-IsValid id b (done handle, w) old v found =
      bound-IsValid SockState.listener id handle (local_addr handle w) b w old (λ h a e. e) v found

  pub listen_state-IsValid :
      (st : Option SockState) (id : ℕ) (b : NatBackend) (w : World)
      → IsValid ip b
      → SocketTable.get id b.table ≡ st
      → IsValid ip (listen_state host st id b w).1
  listen_state-IsValid none id b w v e = v
  listen_state-IsValid (some (SockState.fresh af typ)) id b w v e =
      listen_bound-IsValid id b (tcp_bind (ephemeral_addr af) w) (SockState.fresh af typ) v e
  listen_state-IsValid (some (SockState.stream handle peer)) id b w v e = v
  listen_state-IsValid (some (SockState.listener handle addr)) id b w v e = v
  listen_state-IsValid (some (SockState.dgram handle addr)) id b w v e = v

  accepted-IsValid :
      (b : NatBackend) (r : IoResult (ℕ × SocketAddr) × World)
      → ((k : ℕ) (a : SocketAddr) (w' : World) → r ≡ (done (k, a), w') → IsFull a)
      → IsValid ip b
      → IsValid ip (accepted host b r).1
  accepted-IsValid b (failed e, w) full v = v
  accepted-IsValid b (done (handle, peer), w) full v =
      inserted-IsValid ip _ b (SockState.stream handle (sockaddr_from_std peer)) _ refl v
        (length-sockaddr_from_std peer (full handle peer w refl))

  pub accept_state-IsValid :
      (st : Option SockState) (b : NatBackend) (w : World)
      → HasFullPeers host
      → IsValid ip b
      → IsValid ip (accept_state host st b w).1
  accept_state-IsValid (some (SockState.listener handle addr)) b w full v =
      accepted-IsValid b (tcp_accept handle w) (λ k a w' e. full.tcp_accept handle k a w w' e) v
  accept_state-IsValid none b w full v = v
  accept_state-IsValid _ b w full v = v
