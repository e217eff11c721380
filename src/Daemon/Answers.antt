-- ===== src/Daemon/Answers.antt =====
-- The answer to each operation (crates/psroot-netstack-host/src/daemon.rs).
use psroot.Prelude.{
  ℕ, ◌≤◌, ◌≡◌, ◌≢◌, refl, sym, ap, false, Bool-cases, inl, inr, Option, none, some, List, [],
  length, ltb, drop, arith,
}
use psroot.Proto.{SlotHeader, SockAddrBytes, data_capacity, unpack_u32, unpack_socket_args}
use psroot.Proto.Codes.{OpCode, raw_op, op_from_raw}
use psroot.Proto.RoundTrip.{op_from_raw_iff}
use psroot.Ring.Queue.{Message}
use psroot.Backend.{BResult, ok, err, panic, Backend}
use psroot.Daemon.{
  Resolver, Plan, ok_reply, count_reply, recv_replies, recvfrom_replies, answer, reply_unit,
  with_sockaddr, to_socket_addrs_best, resolved,
}
use psroot.Daemon.SockAddr.{write_sockaddr, read_sockaddr}
use psroot.Daemon.Address.{length-write_sockaddr}
use psroot.Daemon.Handle.{send_to_plan, dispatch, dispatch_raw, plan}
use psroot.Daemon.Framing.{IsFramed, recv_replies-IsFramed, recvfrom_replies-IsFramed}

-- The addresses that a backend, in a state, and a resolver hand out have the sixteen bytes of their
-- type.
pub record HasFullAddresses {S : Type 0} (b : Backend S) (resolver : Resolver) (s : S)
    : Type 0 where
  pub accept :
      (id new_id : ℕ) (a : SockAddrBytes) → (b.accept id s).0 ≡ ok (new_id, a) → length a.addr ≡ 16
  pub get_sock_name :
      (id : ℕ) (a : SockAddrBytes) → (b.get_sock_name id s).0 ≡ ok a → length a.addr ≡ 16
  pub get_peer_name :
      (id : ℕ) (a : SockAddrBytes) → (b.get_peer_name id s).0 ≡ ok a → length a.addr ≡ 16
  pub recvfrom :
      (id max : ℕ) (bytes : List ℕ) (a : SockAddrBytes)
      → (b.recvfrom id max s).0 ≡ ok (bytes, a)
      → length a.addr ≡ 16
  pub lookup_host :
      (name : List ℕ) (a : SockAddrBytes)
      → to_socket_addrs_best (resolver.lookup_host name) ≡ some a
      → length a.addr ≡ 16

-- One framed answer, after which the daemon goes on; a panic answers nothing.
abbrev pub Answered : {S : Type 0} → ℕ → Plan S → Type 0
Answered correlation (Plan.posts ms s stop) = IsFramed correlation ms × (stop ≡ false)
Answered correlation (Plan.panics s) = Unit

module _ (correlation : ℕ) where
  ok_reply-IsFramed :
      (id : ℕ) (bytes : List ℕ)
      → length bytes ≤ data_capacity
      → IsFramed correlation (ok_reply correlation id bytes)
  ok_reply-IsFramed id bytes h = ((refl, h), refl)

  address_reply-IsFramed :
      (id : ℕ) (a : SockAddrBytes)
      → length a.addr ≡ 16
      → IsFramed correlation (ok_reply correlation id (write_sockaddr a))
  address_reply-IsFramed id a h =
      ok_reply-IsFramed id (write_sockaddr a) (omega (arith, length-write_sockaddr a h))

  resolved-IsFramed :
      (o : Option SockAddrBytes)
      → ((a : SockAddrBytes) → o ≡ some a → length a.addr ≡ 16)
      → IsFramed correlation (resolved correlation o)
  resolved-IsFramed none h = ((refl, omega arith), refl)
  resolved-IsFramed (some a) h = address_reply-IsFramed 0 a (h a refl)

  module _ {S : Type 0} where
    answer-Answered :
        {A : Type 0} (f : A → List Message) (r : BResult A × S)
        → ((a : A) → r.0 ≡ ok a → IsFramed correlation (f a))
        → Answered correlation (answer correlation f r)
    answer-Answered f (ok a, s) h = (h a refl, refl)
    answer-Answered f (err e, s) h = (((refl, omega arith), refl), refl)
    answer-Answered f (panic, s) h = tt

module _ {S : Type 0} (b : Backend S) (resolver : Resolver) where
  reply_unit-Answered :
      (correlation id : ℕ) (r : BResult (Unit {0}) × S)
      → Answered correlation (reply_unit correlation id r)
  reply_unit-Answered correlation id r =
      answer-Answered correlation (λ u. ok_reply correlation id []) r
        (λ u e. ok_reply-IsFramed correlation id [] (omega arith))

  count-Answered :
      (correlation id : ℕ) (r : BResult ℕ × S)
      → Answered correlation (answer correlation (count_reply correlation id) r)
  count-Answered correlation id r =
      answer-Answered correlation (count_reply correlation id) r
        (λ n e. ((refl, omega arith), refl))

  with_sockaddr-Answered :
      (hdr : SlotHeader) (o : Option SockAddrBytes) (f : SockAddrBytes → S → BResult (Unit {0}) × S)
      (s : S)
      → Answered hdr.correlation (with_sockaddr hdr o f s)
  with_sockaddr-Answered hdr none f s = (((refl, omega arith), refl), refl)
  with_sockaddr-Answered hdr (some a) f s =
      reply_unit-Answered hdr.correlation hdr.socket_id (f a s)

  send_to-Answered :
      (hdr : SlotHeader) (bytes : List ℕ) (o : Option SockAddrBytes) (s : S)
      → Answered hdr.correlation (send_to_plan b resolver hdr bytes o s)
  send_to-Answered hdr bytes none s = (((refl, omega arith), refl), refl)
  send_to-Answered hdr bytes (some a) s = elim (Bool-cases (ltb (length bytes) 28)) [
    | inl short ↦ rw short (((refl, omega arith), refl), refl)
    | inr long ↦
        rw long (
          count-Answered hdr.correlation hdr.socket_id (b.sendto hdr.socket_id a (drop 28 bytes) s))
  ]

  dispatch-Answered :
      (op : OpCode) (hdr : SlotHeader) (bytes : List ℕ) (s : S)
      → HasFullAddresses b resolver s
      → op ≢ OpCode.bye
      → Answered hdr.correlation (dispatch b resolver op hdr bytes s)
  unfolding dispatch
  dispatch-Answered OpCode.hello hdr bytes s full h = (((refl, omega arith), refl), refl)
  dispatch-Answered OpCode.socket hdr bytes s full h =
      let (af, typ, proto, flags) = unpack_socket_args hdr.args in
      answer-Answered hdr.correlation (λ id. ok_reply hdr.correlation id [])
        (b.socket af typ proto s) (λ id e. ok_reply-IsFramed hdr.correlation id [] (omega arith))
  dispatch-Answered OpCode.bind hdr bytes s full h =
      with_sockaddr-Answered hdr (read_sockaddr bytes) (b.bind hdr.socket_id) s
  dispatch-Answered OpCode.connect hdr bytes s full h =
      with_sockaddr-Answered hdr (read_sockaddr bytes) (b.connect hdr.socket_id) s
  dispatch-Answered OpCode.listen hdr bytes s full h =
      reply_unit-Answered hdr.correlation hdr.socket_id
        (b.listen hdr.socket_id (unpack_u32 hdr.args) s)
  dispatch-Answered OpCode.accept hdr bytes s full h =
      answer-Answered hdr.correlation (λ r. ok_reply hdr.correlation r.0 (write_sockaddr r.1))
        (b.accept hdr.socket_id s)
        (λ r e.
          address_reply-IsFramed hdr.correlation r.0 r.1 (full.accept hdr.socket_id r.0 r.1 e))
  dispatch-Answered OpCode.send hdr bytes s full h =
      count-Answered hdr.correlation hdr.socket_id (b.send hdr.socket_id bytes s)
  dispatch-Answered OpCode.recv hdr bytes s full h =
      answer-Answered hdr.correlation (recv_replies hdr.correlation hdr.socket_id)
        (b.recv hdr.socket_id (unpack_u32 hdr.args) s)
        (λ got e. recv_replies-IsFramed hdr.correlation hdr.socket_id got)
  dispatch-Answered OpCode.close hdr bytes s full h =
      reply_unit-Answered hdr.correlation hdr.socket_id (b.close hdr.socket_id s)
  dispatch-Answered OpCode.shutdown hdr bytes s full h =
      reply_unit-Answered hdr.correlation hdr.socket_id
        (b.shutdown hdr.socket_id (unpack_u32 hdr.args) s)
  dispatch-Answered OpCode.get_sock_name hdr bytes s full h =
      answer-Answered hdr.correlation
        (λ a. ok_reply hdr.correlation hdr.socket_id (write_sockaddr a))
        (b.get_sock_name hdr.socket_id s)
        (λ a e.
          address_reply-IsFramed hdr.correlation hdr.socket_id a
            (full.get_sock_name hdr.socket_id a e))
  dispatch-Answered OpCode.get_peer_name hdr bytes s full h =
      answer-Answered hdr.correlation
        (λ a. ok_reply hdr.correlation hdr.socket_id (write_sockaddr a))
        (b.get_peer_name hdr.socket_id s)
        (λ a e.
          address_reply-IsFramed hdr.correlation hdr.socket_id a
            (full.get_peer_name hdr.socket_id a e))
  dispatch-Answered OpCode.set_sock_opt hdr bytes s full h = (((refl, omega arith), refl), refl)
  dispatch-Answered OpCode.get_sock_opt hdr bytes s full h = (((refl, omega arith), refl), refl)
  dispatch-Answered OpCode.resolve hdr bytes s full h = elim (Bool-cases (resolver.is_utf8 bytes)) [
    | inl good ↦ rw good (
      resolved-IsFramed hdr.correlation (to_socket_addrs_best (resolver.lookup_host bytes))
          (full.lookup_host bytes),
      refl,
    )
    | inr bad ↦ rw bad (((refl, omega arith), refl), refl)
  ]
  dispatch-Answered OpCode.send_to hdr bytes s full h =
      send_to-Answered hdr bytes (read_sockaddr bytes) s
  dispatch-Answered OpCode.recv_from hdr bytes s full h =
      answer-Answered hdr.correlation (λ r. recvfrom_replies hdr.correlation hdr.socket_id r.0 r.1)
        (b.recvfrom hdr.socket_id (unpack_u32 hdr.args) s)
        (λ r e.
          recvfrom_replies-IsFramed hdr.correlation hdr.socket_id r.0 r.1
            (full.recvfrom hdr.socket_id (unpack_u32 hdr.args) r.0 r.1 e))
  dispatch-Answered OpCode.bye hdr bytes s full h = absurd (h refl)

  dispatch_raw-Answered :
      (o : Option OpCode) (hdr : SlotHeader) (bytes : List ℕ) (s : S)
      → HasFullAddresses b resolver s
      → o ≢ some OpCode.bye
      → Answered hdr.correlation (dispatch_raw b resolver o hdr bytes s)
  dispatch_raw-Answered none hdr bytes s full h = (((refl, omega arith), refl), refl)
  dispatch_raw-Answered (some op) hdr bytes s full h =
      dispatch-Answered op hdr bytes s full (λ e. h (ap some e))

  -- Every request but a farewell, known or unknown, well formed or not, comes to one framed answer that
  -- echoes its correlation and whose messages each fit a slot (or to a panic of the backend), when the
  -- backend's addresses have the sixteen bytes of their type.
  pub plan-Answered :
      (hdr : SlotHeader) (bytes : List ℕ) (s : S)
      → HasFullAddresses b resolver s
      → hdr.opcode ≢ raw_op OpCode.bye
      → Answered hdr.correlation (plan b resolver hdr bytes s)
  unfolding plan
  plan-Answered hdr bytes s full h =
      dispatch_raw-Answered (op_from_raw hdr.opcode) hdr bytes s full
        (λ e. h (sym ((op_from_raw_iff hdr.opcode OpCode.bye).0 e)))
