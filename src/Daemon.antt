-- ===== src/Daemon.antt =====
-- The daemon that serves a container's socket requests
-- (crates/psroot-netstack-host/src/daemon.rs). `handle` calls the backend and then posts its replies
-- one after the other, so a request is first turned into the list of its replies; `post_all` posts
-- them, up to the first that the channel refuses. The name service of the host is a parameter.
pub mod SockAddr
pub mod Handle
pub mod Framing
pub mod Address
pub mod Answers
pub mod Keeps
pub mod Served
use Prim.Native.Nat.{bit_or}
use psroot.Prelude.{
  ℕ, zero, suc, ◌+◌, ◌-◌, min, Bool, true, false, not, Option, none, some, List, [], ◌∷◌, ◌++◌, ltb,
  leb, ◌==◌, if◌then◌else◌, length, take, drop,
}
use psroot.Proto.{
  SlotHeader, SockAddrBytes, reply_ok, reply_err, data_capacity, flag_more, pack_u32, unpack_u32,
  unpack_socket_args,
}
use psroot.Proto.Bytes.{to_le32}
use psroot.Proto.Codes.{OpCode, op_from_raw, StatusCode}
use psroot.Ring.{RingError}
use psroot.Ring.Queue.{Message}
use psroot.Backend.{BResult, ok, err, panic, Backend}
use psroot.Host.{IoResult, done, failed, SocketAddr}
use psroot.NatBackend.{sockaddr_from_std}
use SockAddr.{write_sockaddr, read_sockaddr}

-- The parts of the host that resolving a name needs: `str::from_utf8` and `getaddrinfo`.
pub record Resolver : Type 0 where
  pub is_utf8 : List ℕ → Bool
  pub lookup_host : List ℕ → IoResult (List SocketAddr)

-- What a request comes to: the replies to post, the backend after it, and whether to stop.
pub data Plan (S : Type 0) : Type 0 where
  posts : List Message → S → Bool → Plan S
  panics : S → Plan S

-- `reply.flags |= FLAG_MORE`
abbrev pub with_more : SlotHeader → SlotHeader
with_more h = record h { flags = bit_or h.flags flag_more }

abbrev pub error_reply : ℕ → StatusCode → List Message
error_reply correlation status = (reply_err correlation status, []) ∷ []

abbrev pub ok_reply : ℕ → ℕ → List ℕ → List Message
ok_reply correlation socket_id bytes = (reply_ok correlation socket_id, bytes) ∷ []

-- A success reply that carries a number in its arguments.
abbrev pub count_reply : ℕ → ℕ → ℕ → List Message
count_reply correlation socket_id n =
    (record (reply_ok correlation socket_id) { args = pack_u32 n }, []) ∷ []

-- `while !remaining.is_empty()`: each round takes at least one byte, so the length is fuel enough.
abbrev pub fragment : ℕ → ℕ → List ℕ → Message
fragment correlation socket_id remaining =
    let chunk = min (length remaining) data_capacity in
    let reply = reply_ok correlation socket_id in
    (if chunk == length remaining then reply else with_more reply, take chunk remaining)

unfoldable pub fragments : ℕ → ℕ → ℕ → List ℕ → List Message
fragments correlation socket_id zero remaining = []
fragments correlation socket_id (suc fuel) [] = []
fragments correlation socket_id (suc fuel) (x ∷ xs) =
    let rest = drop (min (length (x ∷ xs)) data_capacity) (x ∷ xs) in
    fragment correlation socket_id (x ∷ xs) ∷ fragments correlation socket_id fuel rest

unfoldable pub recv_replies : ℕ → ℕ → List ℕ → List Message
unfolding fragments
recv_replies correlation socket_id [] = ok_reply correlation socket_id []
recv_replies correlation socket_id (x ∷ xs) =
    fragments correlation socket_id (length (x ∷ xs)) (x ∷ xs)

-- The room for datagram bytes beside the address in the first slot.
abbrev pub first_payload_cap : ℕ
first_payload_cap = data_capacity - 28

unfoldable pub recvfrom_replies : ℕ → ℕ → List ℕ → SockAddrBytes → List Message
unfolding fragments
recvfrom_replies correlation socket_id bytes peer =
    if leb (28 + length bytes) data_capacity
    then ok_reply correlation socket_id (write_sockaddr peer ++ bytes)
    else (
      with_more (reply_ok correlation socket_id),
      write_sockaddr peer ++ take first_payload_cap bytes,
    )
      ∷ fragments correlation socket_id (length bytes) (drop first_payload_cap bytes)

module _ {S : Type 0} where
  -- The replies to a method's result: on success those of `f`, on failure the status.
  abbrev pub answer : {A : Type 0} → ℕ → (A → List Message) → BResult A × S → Plan S
  answer correlation f (ok a, s) = Plan.posts (f a) s false
  answer correlation f (err status, s) = Plan.posts (error_reply correlation status) s false
  answer correlation f (panic, s) = Plan.panics s

  abbrev pub reply_unit : ℕ → ℕ → BResult (Unit {0}) × S → Plan S
  reply_unit correlation socket_id = answer correlation (λ u. ok_reply correlation socket_id [])

  abbrev pub with_sockaddr :
      SlotHeader → Option SockAddrBytes → (SockAddrBytes → S → BResult (Unit {0}) × S) → S → Plan S
  with_sockaddr hdr none f s =
      Plan.posts (error_reply hdr.correlation StatusCode.host_error) s false
  with_sockaddr hdr (some a) f s = reply_unit hdr.correlation hdr.socket_id (f a s)

-- The first address of a name.
abbrev pub to_socket_addrs_best : IoResult (List SocketAddr) → Option SockAddrBytes
to_socket_addrs_best (failed e) = none
to_socket_addrs_best (done []) = none
to_socket_addrs_best (done (a ∷ rest)) = some (sockaddr_from_std a)

abbrev pub resolved : ℕ → Option SockAddrBytes → List Message
resolved correlation none = error_reply correlation StatusCode.host_error
resolved correlation (some a) = ok_reply correlation 0 (write_sockaddr a)
