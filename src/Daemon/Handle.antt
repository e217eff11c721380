-- ===== src/Daemon/Handle.antt =====
-- `Daemon::handle` and `Daemon::run` (crates/psroot-netstack-host/src/daemon.rs).
use psroot.Prelude.{
  ℕ, Bool, true, false, ◌||◌, Option, none, some, List, [], ◌∷◌, ◌++◌, ltb, if◌then◌else◌, length,
  drop, replicate,
}
use psroot.Proto.{SlotHeader, SockAddrBytes, reply_ok, unpack_u32, unpack_socket_args}
use psroot.Proto.Bytes.{to_le32}
use psroot.Proto.Codes.{OpCode, op_from_raw, StatusCode}
use psroot.Ring.{RingError}
use psroot.Ring.Queue.{Message}
use psroot.Backend.{Backend}
use psroot.Daemon.{
  Resolver, Plan, error_reply, ok_reply, count_reply, recv_replies, recvfrom_replies, answer,
  reply_unit, with_sockaddr, to_socket_addrs_best, resolved,
}
use psroot.Daemon.SockAddr.{write_sockaddr, read_sockaddr}

-- The reply to a greeting: protocol version 1 in the arguments.
abbrev pub hello_reply : ℕ → List Message
hello_reply correlation =
    (record (reply_ok correlation 0) { args = to_le32 1 ++ replicate 12 0 }, []) ∷ []

module _ {S : Type 0} (b : Backend S) (resolver : Resolver) where
  open b use {
    socket, bind, connect, listen, accept, send, recv, close, shutdown, get_sock_name,
    get_peer_name, sendto, recvfrom,
  }
  open resolver use {is_utf8, lookup_host}

  -- The length test behind `read_sockaddr` repeats the one inside it.
  abbrev pub send_to_plan : SlotHeader → List ℕ → Option SockAddrBytes → S → Plan S
  send_to_plan hdr bytes none s =
      Plan.posts (error_reply hdr.correlation StatusCode.host_error) s false
  send_to_plan hdr bytes (some addr) s =
      if ltb (length bytes) 28
      then Plan.posts (error_reply hdr.correlation StatusCode.host_error) s false
      else answer hdr.correlation (count_reply hdr.correlation hdr.socket_id)
          (sendto hdr.socket_id addr (drop 28 bytes) s)

  unfoldable pub dispatch : OpCode → SlotHeader → List ℕ → S → Plan S
  dispatch OpCode.hello hdr bytes s = Plan.posts (hello_reply hdr.correlation) s false
  dispatch OpCode.socket hdr bytes s =
      let (af, typ, proto, flags) = unpack_socket_args hdr.args in
      answer hdr.correlation (λ id. ok_reply hdr.correlation id []) (socket af typ proto s)
  dispatch OpCode.bind hdr bytes s = with_sockaddr hdr (read_sockaddr bytes) (bind hdr.socket_id) s
  dispatch OpCode.connect hdr bytes s =
      with_sockaddr hdr (read_sockaddr bytes) (connect hdr.socket_id) s
  dispatch OpCode.listen hdr bytes s =
      reply_unit hdr.correlation hdr.socket_id (listen hdr.socket_id (unpack_u32 hdr.args) s)
  dispatch OpCode.accept hdr bytes s =
      answer hdr.correlation (λ r. ok_reply hdr.correlation r.0 (write_sockaddr r.1))
        (accept hdr.socket_id s)
  dispatch OpCode.send hdr bytes s =
      answer hdr.correlation (count_reply hdr.correlation hdr.socket_id)
        (send hdr.socket_id bytes s)
  dispatch OpCode.recv hdr bytes s =
      answer hdr.correlation (recv_replies hdr.correlation hdr.socket_id)
        (recv hdr.socket_id (unpack_u32 hdr.args) s)
  dispatch OpCode.close hdr bytes s =
      reply_unit hdr.correlation hdr.socket_id (close hdr.socket_id s)
  dispatch OpCode.shutdown hdr bytes s =
      reply_unit hdr.correlation hdr.socket_id (shutdown hdr.socket_id (unpack_u32 hdr.args) s)
  dispatch OpCode.get_sock_name hdr bytes s =
      answer hdr.correlation (λ a. ok_reply hdr.correlation hdr.socket_id (write_sockaddr a))
        (get_sock_name hdr.socket_id s)
  dispatch OpCode.get_peer_name hdr bytes s =
      answer hdr.correlation (λ a. ok_reply hdr.correlation hdr.socket_id (write_sockaddr a))
        (get_peer_name hdr.socket_id s)
  dispatch OpCode.set_sock_opt hdr bytes s =
      Plan.posts (ok_reply hdr.correlation hdr.socket_id []) s false
  dispatch OpCode.get_sock_opt hdr bytes s =
      Plan.posts (ok_reply hdr.correlation hdr.socket_id []) s false
  dispatch OpCode.resolve hdr bytes s =
      if is_utf8 bytes
      then Plan.posts (resolved hdr.correlation (to_socket_addrs_best (lookup_host bytes))) s false
      else Plan.posts (error_reply hdr.correlation StatusCode.host_error) s false
  dispatch OpCode.send_to hdr bytes s = send_to_plan hdr bytes (read_sockaddr bytes) s
  dispatch OpCode.recv_from hdr bytes s =
      answer hdr.correlation (λ r. recvfrom_replies hdr.correlation hdr.socket_id r.0 r.1)
        (recvfrom hdr.socket_id (unpack_u32 hdr.args) s)
  dispatch OpCode.bye hdr bytes s = Plan.posts [] s true

  abbrev pub dispatch_raw : Option OpCode → SlotHeader → List ℕ → S → Plan S
  dispatch_raw none hdr bytes s =
      Plan.posts (error_reply hdr.correlation StatusCode.unknown_op) s false
  dispatch_raw (some op) hdr bytes s = dispatch op hdr bytes s

  unfoldable pub plan : SlotHeader → List ℕ → S → Plan S
  unfolding dispatch op_from_raw
  plan hdr bytes s = dispatch_raw (op_from_raw hdr.opcode) hdr bytes s

-- The channel to the shim: `send` posts one message or fails.
abbrev pub Post : Type 0 → Type 0
Post C = SlotHeader → List ℕ → C → Option RingError × C

pub record Daemon (S C : Type 0) : Type 0 where
  pub channel : C
  pub backend : S
  pub stop : Bool

pub data Outcome : Type 0 where
  handled panicked : Outcome
  io_error : RingError → Outcome

-- The `?` after a post: a refusal ends the handler.
abbrev pub post_rest : {C : Type 0} → Option RingError × C → (C → Outcome × C) → Outcome × C
post_rest (none, c) rest = rest c
post_rest (some e, c) rest = (Outcome.io_error e, c)

unfoldable pub post_all : {C : Type 0} → Post C → List Message → C → Outcome × C
post_all post [] c = (Outcome.handled, c)
post_all post ((h, bytes) ∷ ms) c = post_rest (post h bytes c) (post_all post ms)

-- What the loop of `run` meets: a request, a park that timed out, a channel that failed.
pub data Event : Type 0 where
  request : SlotHeader → List ℕ → Event
  quiet failure : Event

pub data RunResult : Type 0 where
  stopped waiting failed panicked : RunResult

module _ {S C : Type 0} (b : Backend S) (resolver : Resolver) (post : Post C) where
  abbrev pub carry_out : Plan S → Daemon S C → Outcome × Daemon S C
  carry_out (Plan.panics s) d = (Outcome.panicked, record d { backend = s })
  carry_out (Plan.posts ms s stop) d =
      let (r, c) = post_all post ms d.channel in
      (r, record { channel = c; backend = s; stop = d.stop || stop })

  unfoldable pub handle : SlotHeader → List ℕ → Daemon S C → Outcome × Daemon S C
  unfolding plan post_all
  handle hdr bytes d = carry_out (plan b resolver hdr bytes d.backend) d

  -- A handler's error is logged and the loop goes on; a panic ends the thread.
  abbrev pub run_next :
      Outcome × Daemon S C → (Daemon S C → RunResult × Daemon S C) → RunResult × Daemon S C
  run_next (Outcome.handled, d) rest = rest d
  run_next (Outcome.io_error e, d) rest = rest d
  run_next (Outcome.panicked, d) rest = (RunResult.panicked, d)

  -- `while !stop`, over what the channel brings; `waiting` when nothing more comes.
  unfoldable pub run : List Event → Daemon S C → RunResult × Daemon S C
  unfolding handle
  run [] d = if d.stop then (RunResult.stopped, d) else (RunResult.waiting, d)
  run (Event.request hdr bytes ∷ events) d =
      if d.stop then (RunResult.stopped, d) else run_next (handle hdr bytes d) (run events)
  run (Event.quiet ∷ events) d = if d.stop then (RunResult.stopped, d) else run events d
  run (Event.failure ∷ events) d = if d.stop then (RunResult.stopped, d) else (RunResult.failed, d)
