-- ===== src/NetShim/Hooks.antt =====
-- The Winsock hooks of the network shim (crates/psroot-netshim/src/hooks.rs). A hook passes the call on
-- to the system's own function (`real_call`, a parameter that is not run here), returns a value, or
-- fails with an error code. A C int is `pos` or `negsuc`; a null pointer is `none`; what a pointer
-- points to is given by its contents.
use psroot.Prelude.{
  ℕ, ◌%◌, ◌^◌, min, Bool, true, false, not, ◌&&◌, ◌||◌, Option, none, some, List, ◌==◌, ltb,
  if◌then◌else◌, length, take,
}
use psroot.Proto.{SockAddrBytes, sock_v4, data_capacity, af_inet_v}
use psroot.Proto.Codes.{StatusCode}
use psroot.Client.{ClientError, CResult, Channel, Client}
use psroot.Client.Methods
use psroot.NetShim.{ShimState, alloc_fake, lookup, forget, is_bypassed}

pub data CInt : Type 0 where
  pos : ℕ → CInt
  negsuc : ℕ → CInt

pub data WsaError : Type 0 where
  fault no_bufs conn_refused conn_reset would_block not_sock inval addr_in_use addr_not_avail
        conn_aborted :
      WsaError

unfoldable pub status_to_wsa : ClientError → WsaError
status_to_wsa (ClientError.status StatusCode.conn_refused) = WsaError.conn_refused
status_to_wsa (ClientError.status StatusCode.conn_reset) = WsaError.conn_reset
status_to_wsa (ClientError.status StatusCode.would_block) = WsaError.would_block
status_to_wsa (ClientError.status StatusCode.bad_socket) = WsaError.not_sock
status_to_wsa (ClientError.status StatusCode.not_supported) = WsaError.inval
status_to_wsa (ClientError.status StatusCode.addr_in_use) = WsaError.addr_in_use
status_to_wsa (ClientError.status StatusCode.addr_not_avail) = WsaError.addr_not_avail
status_to_wsa _ = WsaError.conn_aborted

pub data Hooked (A : Type 0) : Type 0 where
  real_call : Hooked A
  returned : A → Hooked A
  fails : WsaError → Hooked A

-- The shim's state: the handles and the client of the daemon.
pub record Shim (C : Type 0) : Type 0 where
  pub handles : ShimState
  pub client : Client C

-- A `SOCKADDR_IN`: its family, its port and octets out of network order.
pub record RawSockAddr : Type 0 where
  pub family : ℕ
  pub port : ℕ
  pub a : ℕ
  pub b : ℕ
  pub c : ℕ
  pub d : ℕ

-- `size_of::<SOCKADDR_IN>()` is 16.
unfoldable pub sockaddr_from_raw : Option RawSockAddr → CInt → Option SockAddrBytes
sockaddr_from_raw none len = none
sockaddr_from_raw (some r) (CInt.negsuc n) = none
sockaddr_from_raw (some r) (CInt.pos n) =
    if ltb n 16
    then none
    else if not (r.family == af_inet_v)
    then none
    else some (sock_v4 r.a r.b r.c r.d r.port)

-- `backlog.max(0) as u32`
abbrev pub at_least_zero : CInt → ℕ
at_least_zero (CInt.pos n) = n
at_least_zero (CInt.negsuc n) = 0

module _ {C A : Type 0} where
  -- The checks before a hook that names a socket: the bypass, the state, the handle.
  abbrev pub with_socket : Option ℕ → Shim C → (ℕ → Shim C → Hooked A × Shim C) → Hooked A × Shim C
  with_socket none shim f = (Hooked.real_call, shim)
  with_socket (some virt) shim f = f virt shim

  abbrev pub with_state :
      Option (Shim C) → (Shim C → Hooked A × Shim C) → Hooked A × Option (Shim C)
  with_state none f = (Hooked.real_call, none)
  with_state (some shim) f = let (r, s) = f shim in (r, some s)

  abbrev pub routed :
      ℕ → Option (Shim C) → ℕ → (ℕ → Shim C → Hooked A × Shim C) → Hooked A × Option (Shim C)
  routed bypass state s f =
      if is_bypassed bypass
      then (Hooked.real_call, state)
      else with_state state (λ shim. with_socket (lookup s shim.handles) shim f)

  -- The result of a client's call.
  abbrev pub answered : {B : Type 0} → (B → A) → Shim C → CResult B × Client C → Hooked A × Shim C
  answered f shim (CResult.ok x, k) = (Hooked.returned (f x), record shim { client = k })
  answered f shim (CResult.err e, k) = (Hooked.fails (status_to_wsa e), record shim { client = k })

module _ {C : Type 0} (chan : Channel C) where
  -- A socket that the daemon opened gets a made-up handle.
  abbrev pub opened : Shim C → CResult ℕ × Client C → Hooked ℕ × Shim C
  opened shim (CResult.ok virt, k) =
      let (h, handles) = alloc_fake virt shim.handles in
      (Hooked.returned h, record { handles = handles; client = k })
  opened shim (CResult.err e, k) = (Hooked.fails WsaError.no_bufs, record shim { client = k })

  -- `SOCK_STREAM` is 1 and `SOCK_DGRAM` is 2.
  unfoldable pub hook_socket : ℕ → ℕ → ℕ → ℕ → Option (Shim C) → Hooked ℕ × Option (Shim C)
  unfolding alloc_fake
  hook_socket af typ proto bypass state =
      if is_bypassed bypass
      then (Hooked.real_call, state)
      else with_state state (λ shim.
        if not (af == af_inet_v) || (not (typ == 1) && not (typ == 2))
        then (Hooked.real_call, shim)
        else opened shim
            (Methods.socket chan af_inet_v (typ % 2 ^ 16) (proto % 2 ^ 32) shim.client))

  abbrev pub with_address :
      Option SockAddrBytes
      → (SockAddrBytes → Client C → CResult (Unit {0}) × Client C)
      → Shim C
      → Hooked ℕ × Shim C
  with_address none f shim = (Hooked.fails WsaError.fault, shim)
  with_address (some addr) f shim = answered (λ u. 0) shim (f addr shim.client)

  unfoldable pub hook_connect :
      ℕ → Option RawSockAddr → CInt → ℕ → Option (Shim C) → Hooked ℕ × Option (Shim C)
  unfolding lookup
  hook_connect s name namelen bypass state =
      routed bypass state s (λ virt shim.
        with_address (sockaddr_from_raw name namelen) (Methods.connect chan virt) shim)

  unfoldable pub hook_bind :
      ℕ → Option RawSockAddr → CInt → ℕ → Option (Shim C) → Hooked ℕ × Option (Shim C)
  unfolding lookup
  hook_bind s name namelen bypass state =
      routed bypass state s
        (λ virt shim. with_address (sockaddr_from_raw name namelen) (Methods.bind chan virt) shim)

  unfoldable pub hook_listen : ℕ → CInt → ℕ → Option (Shim C) → Hooked ℕ × Option (Shim C)
  unfolding lookup
  hook_listen s backlog bypass state = routed bypass state s (λ virt shim.
      answered (λ u. 0) shim (Methods.listen chan virt (at_least_zero backlog) shim.client))

  -- The buffer's bytes from its start; at most a slot's worth is sent.
  abbrev pub send_bytes : Option (List ℕ) → CInt → ℕ → Shim C → Hooked ℕ × Shim C
  send_bytes none len virt shim = (Hooked.fails WsaError.fault, shim)
  send_bytes (some buf) (CInt.negsuc n) virt shim = (Hooked.fails WsaError.fault, shim)
  send_bytes (some buf) (CInt.pos n) virt shim =
      answered (λ sent. sent) shim
        (Methods.send chan virt (take (min n data_capacity) buf) shim.client)

  unfoldable pub hook_send :
      ℕ → Option (List ℕ) → CInt → ℕ → Option (Shim C) → Hooked ℕ × Option (Shim C)
  unfolding lookup
  hook_send s buf len bypass state = routed bypass state s (send_bytes buf len)

  -- What is copied into the caller's buffer, and so its length, is what is returned.
  abbrev pub recv_bytes : Bool → CInt → ℕ → Shim C → Hooked (List ℕ) × Shim C
  recv_bytes true len virt shim = (Hooked.fails WsaError.fault, shim)
  recv_bytes false (CInt.negsuc n) virt shim = (Hooked.fails WsaError.fault, shim)
  recv_bytes false (CInt.pos n) virt shim =
      if n == 0
      then (Hooked.fails WsaError.fault, shim)
      else answered (λ bytes. take (min (length bytes) n) bytes) shim
          (Methods.recv chan virt n shim.client)

  unfoldable pub hook_recv :
      ℕ → Bool → CInt → ℕ → Option (Shim C) → Hooked (List ℕ) × Option (Shim C)
  unfolding lookup
  hook_recv s null_buf len bypass state = routed bypass state s (recv_bytes null_buf len)

  -- Closing forgets the handle whatever the daemon answers.
  abbrev pub closed : Option ℕ × ShimState → Shim C → Hooked ℕ × Shim C
  closed (none, handles) shim = (Hooked.real_call, record shim { handles = handles })
  closed (some virt, handles) shim =
      let (r, k) = Methods.close chan virt shim.client in
      (Hooked.returned 0, record { handles = handles; client = k })

  unfoldable pub hook_closesocket : ℕ → ℕ → Option (Shim C) → Hooked ℕ × Option (Shim C)
  unfolding forget
  hook_closesocket s bypass state =
      if is_bypassed bypass
      then (Hooked.real_call, state)
      else with_state state (λ shim. closed (forget s shim.handles) shim)
