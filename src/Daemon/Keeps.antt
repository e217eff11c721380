-- ===== src/Daemon/Keeps.antt =====
-- Properties of a backend through a run of the daemon (crates/psroot-netstack-host/src/daemon.rs).
use psroot.Prelude.{
  ◌≡◌, refl, ℕ, Bool, true, false, Bool-cases, inl, inr, Option, none, some, List, [], ◌∷◌, length,
  ltb, if◌then◌else◌, drop,
}
use psroot.Proto.{SlotHeader, SockAddrBytes, unpack_u32, unpack_socket_args}
use psroot.Proto.Codes.{OpCode, op_from_raw}
use psroot.Ring.Queue.{Message}
use psroot.Backend.{BResult, ok, err, panic, Backend, Preserves}
use psroot.Daemon.{
  Resolver, Plan, ok_reply, count_reply, recv_replies, recvfrom_replies, answer, with_sockaddr,
}
use psroot.Daemon.Address.{length-read_sockaddr}
use psroot.Daemon.SockAddr.{write_sockaddr, read_sockaddr}
use psroot.Daemon.Handle.{
  send_to_plan, dispatch, dispatch_raw, plan, Post, Daemon, Outcome, Event, RunResult, carry_out,
  handle, run_next, run,
}

-- The backend after a plan.
abbrev pub backend_after : {S : Type 0} → Plan S → S
backend_after (Plan.posts ms s stop) = s
backend_after (Plan.panics s) = s

module _ {S : Type 0} (P : S → Type 0) where
  answer-keeps :
      {A : Type 0} (correlation : ℕ) (f : A → List Message) (r : BResult A × S)
      → P r.1
      → P (backend_after (answer correlation f r))
  answer-keeps correlation f (ok a, s) p = p
  answer-keeps correlation f (err e, s) p = p
  answer-keeps correlation f (panic, s) p = p

  with_sockaddr-keeps :
      (hdr : SlotHeader) (o : Option SockAddrBytes) (f : SockAddrBytes → S → BResult (Unit {0}) × S)
      (s : S)
      → ((a : SockAddrBytes) → o ≡ some a → P (f a s).1)
      → P s
      → P (backend_after (with_sockaddr hdr o f s))
  with_sockaddr-keeps hdr none f s h p = p
  with_sockaddr-keeps hdr (some a) f s h p =
      answer-keeps hdr.correlation (λ u. ok_reply hdr.correlation hdr.socket_id []) (f a s)
        (h a refl)

module _ {S : Type 0} (b : Backend S) (resolver : Resolver) (P : S → Type 0)
    (keeps : Preserves b P) where
  send_to-keeps :
      (hdr : SlotHeader) (bytes : List ℕ) (o : Option SockAddrBytes) (s : S)
      → ((a : SockAddrBytes) → o ≡ some a → length a.addr ≡ 16)
      → P s
      → P (backend_after (send_to_plan b resolver hdr bytes o s))
  send_to-keeps hdr bytes none s full p = p
  send_to-keeps hdr bytes (some a) s full p = elim (Bool-cases (ltb (length bytes) 28)) [
    | inl short ↦ rw short p
    | inr long ↦ rw long (
        answer-keeps P hdr.correlation (count_reply hdr.correlation hdr.socket_id)
          (b.sendto hdr.socket_id a (drop 28 bytes) s)
          (keeps.sendto hdr.socket_id a (drop 28 bytes) s (full a refl) p))
  ]

  dispatch-keeps :
      (op : OpCode) (hdr : SlotHeader) (bytes : List ℕ) (s : S)
      → P s
      → P (backend_after (dispatch b resolver op hdr bytes s))
  unfolding dispatch
  dispatch-keeps OpCode.socket hdr bytes s p =
      let (af, typ, proto, flags) = unpack_socket_args hdr.args in
      answer-keeps P hdr.correlation (λ id. ok_reply hdr.correlation id [])
        (b.socket af typ proto s) (keeps.socket af typ proto s p)
  dispatch-keeps OpCode.bind hdr bytes s p =
      with_sockaddr-keeps P hdr (read_sockaddr bytes) (b.bind hdr.socket_id) s
        (λ a e. keeps.bind hdr.socket_id a s (length-read_sockaddr bytes a e) p) p
  dispatch-keeps OpCode.connect hdr bytes s p =
      with_sockaddr-keeps P hdr (read_sockaddr bytes) (b.connect hdr.socket_id) s
        (λ a e. keeps.connect hdr.socket_id a s (length-read_sockaddr bytes a e) p) p
  dispatch-keeps OpCode.listen hdr bytes s p =
      answer-keeps P hdr.correlation (λ u. ok_reply hdr.correlation hdr.socket_id [])
        (b.listen hdr.socket_id (unpack_u32 hdr.args) s)
        (keeps.listen hdr.socket_id (unpack_u32 hdr.args) s p)
  dispatch-keeps OpCode.accept hdr bytes s p =
      answer-keeps P hdr.correlation (λ r. ok_reply hdr.correlation r.0 (write_sockaddr r.1))
        (b.accept hdr.socket_id s) (keeps.accept hdr.socket_id s p)
  dispatch-keeps OpCode.send hdr bytes s p =
      answer-keeps P hdr.correlation (count_reply hdr.correlation hdr.socket_id)
        (b.send hdr.socket_id bytes s) (keeps.send hdr.socket_id bytes s p)
  dispatch-keeps OpCode.recv hdr bytes s p =
      answer-keeps P hdr.correlation (recv_replies hdr.correlation hdr.socket_id)
        (b.recv hdr.socket_id (unpack_u32 hdr.args) s)
        (keeps.recv hdr.socket_id (unpack_u32 hdr.args) s p)
  dispatch-keeps OpCode.close hdr bytes s p =
      answer-keeps P hdr.correlation (λ u. ok_reply hdr.correlation hdr.socket_id [])
        (b.close hdr.socket_id s) (keeps.close hdr.socket_id s p)
  dispatch-keeps OpCode.shutdown hdr bytes s p =
      answer-keeps P hdr.correlation (λ u. ok_reply hdr.correlation hdr.socket_id [])
        (b.shutdown hdr.socket_id (unpack_u32 hdr.args) s)
        (keeps.shutdown hdr.socket_id (unpack_u32 hdr.args) s p)
  dispatch-keeps OpCode.get_sock_name hdr bytes s p =
      answer-keeps P hdr.correlation
        (λ a. ok_reply hdr.correlation hdr.socket_id (write_sockaddr a))
        (b.get_sock_name hdr.socket_id s) (keeps.get_sock_name hdr.socket_id s p)
  dispatch-keeps OpCode.get_peer_name hdr bytes s p =
      answer-keeps P hdr.correlation
        (λ a. ok_reply hdr.correlation hdr.socket_id (write_sockaddr a))
        (b.get_peer_name hdr.socket_id s) (keeps.get_peer_name hdr.socket_id s p)
  dispatch-keeps OpCode.resolve hdr bytes s p = elim (Bool-cases (resolver.is_utf8 bytes)) [
    | inl good ↦ rw good p
    | inr bad ↦ rw bad p
  ]
  dispatch-keeps OpCode.send_to hdr bytes s p =
      send_to-keeps hdr bytes (read_sockaddr bytes) s (length-read_sockaddr bytes) p
  dispatch-keeps OpCode.recv_from hdr bytes s p =
      answer-keeps P hdr.correlation (λ r. recvfrom_replies hdr.correlation hdr.socket_id r.0 r.1)
        (b.recvfrom hdr.socket_id (unpack_u32 hdr.args) s)
        (keeps.recvfrom hdr.socket_id (unpack_u32 hdr.args) s p)
  dispatch-keeps OpCode.hello hdr bytes s p = p
  dispatch-keeps OpCode.set_sock_opt hdr bytes s p = p
  dispatch-keeps OpCode.get_sock_opt hdr bytes s p = p
  dispatch-keeps OpCode.bye hdr bytes s p = p

  dispatch_raw-keeps :
      (o : Option OpCode) (hdr : SlotHeader) (bytes : List ℕ) (s : S)
      → P s
      → P (backend_after (dispatch_raw b resolver o hdr bytes s))
  dispatch_raw-keeps none hdr bytes s p = p
  dispatch_raw-keeps (some op) hdr bytes s p = dispatch-keeps op hdr bytes s p

  module _ {C : Type 0} (post : Post C) where
    carry_out-keeps :
        (q : Plan S) (d : Daemon S C)
        → P (backend_after q)
        → P (carry_out b resolver post q d).1.backend
    carry_out-keeps (Plan.posts ms s stop) d p = p
    carry_out-keeps (Plan.panics s) d p = p

    handle-keeps :
        (hdr : SlotHeader) (bytes : List ℕ) (d : Daemon S C)
        → P d.backend
        → P (handle b resolver post hdr bytes d).1.backend
    unfolding handle plan
    handle-keeps hdr bytes d p =
        carry_out-keeps (plan b resolver hdr bytes d.backend) d
          (dispatch_raw-keeps (op_from_raw hdr.opcode) hdr bytes d.backend p)

    run_next-keeps :
        (r : Outcome × Daemon S C) (rest : Daemon S C → RunResult × Daemon S C)
        → P r.1.backend
        → ((d : Daemon S C) → P d.backend → P (rest d).1.backend)
        → P (run_next b resolver post r rest).1.backend
    run_next-keeps (Outcome.handled, d) rest p h = h d p
    run_next-keeps (Outcome.io_error e, d) rest p h = h d p
    run_next-keeps (Outcome.panicked, d) rest p h = p

    if-keeps :
        (c : Bool) (x y : RunResult × Daemon S C)
        → P x.1.backend
        → P y.1.backend
        → P (if c then x else y).1.backend
    if-keeps true x y p q = p
    if-keeps false x y p q = q

    -- Whatever requests, time-outs and failures the channel brings, and wherever a post is refused or a
    -- method panics, a run of the daemon keeps each property of the backend that its methods keep.
    pub run-keeps :
        (events : List Event) (d : Daemon S C)
        → P d.backend
        → P (run b resolver post events d).1.backend
    unfolding run
    run-keeps [] d p = if-keeps d.stop _ _ p p
    run-keeps (Event.request hdr bytes ∷ events) d p = if-keeps d.stop _ _ p (
        run_next-keeps (handle b resolver post hdr bytes d) (run b resolver post events)
          (handle-keeps hdr bytes d p) (run-keeps events))
    run-keeps (Event.quiet ∷ events) d p = if-keeps d.stop _ _ p (run-keeps events d p)
    run-keeps (Event.failure ∷ events) d p = if-keeps d.stop _ _ p p
