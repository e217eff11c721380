-- ===== src/Client/Calls.antt =====
-- The client's methods that name a socket or an address (crates/psroot-netshim/src/client.rs),
-- against the backend's.
use psroot.Prelude.{ℕ, ◌^◌, ◌<◌, ◌≡◌, refl, sym, ap, ◌∙◌, [], append-nil, arith}
use psroot.Proto.{SlotHeader, SockAddrBytes, pack_u32, pack_socket_args, new_header}
use psroot.Proto.Codes.{OpCode, raw_op, op_from_raw}
use psroot.Proto.RoundTrip.{unpack-pack_u32, unpack-pack_socket_args}
use psroot.Backend.{BResult, Backend}
use psroot.Daemon.{Resolver, answer, ok_reply, reply_unit, with_sockaddr}
use psroot.Daemon.SockAddr.{read_sockaddr}
use psroot.Daemon.Address.{InRange}
use psroot.Daemon.Handle.{dispatch, plan}
use psroot.Client.{CResult, Client, sockaddr_bytes}
use psroot.Client.Methods
use psroot.Client.Methods.{request, request_with, map_reply, number, ok_or, with_id}
use psroot.Client.Loopback.{room, Wire, loopback, advanced, client_result}
use psroot.Client.Transparent.{carried, unit_call, read_sockaddr-sockaddr_bytes}

module _ {S : Type 0} (b : Backend S) (resolver : Resolver) where
  -- A call with an address: the daemon reads the address that the client wrote.
  with_sockaddr-sockaddr_bytes :
      (hdr : SlotHeader) (a : SockAddrBytes) (f : SockAddrBytes → S → BResult (Unit {0}) × S)
      (s : S)
      → InRange a
      → with_sockaddr hdr (read_sockaddr (sockaddr_bytes a)) f s
        ≡ reply_unit hdr.correlation hdr.socket_id (f a s)
  with_sockaddr-sockaddr_bytes hdr a f s r =
      ap (λ o. with_sockaddr hdr o f s)
        (ap read_sockaddr (sym (append-nil (sockaddr_bytes a)))
          ∙ read_sockaddr-sockaddr_bytes a [] r)

  -- Through the client and the daemon, `bind` is the backend's `bind` of the same socket to the same
  -- address, its error included, when the address is in range and there is room for a message.
  bind-bind :
      (id : ℕ) (a : SockAddrBytes) (k : Client (Wire S))
      → k.channel.queue ≡ []
      → InRange a
      → 0 < room k
      → Methods.bind (loopback b resolver) id a k ≡ (
        client_result (λ u. tt) (b.bind id a k.channel.backend).0,
        advanced k (b.bind id a k.channel.backend).1,
      )
  unfolding Methods.bind plan dispatch op_from_raw raw_op new_header
  bind-bind id a k empty r enough =
      unit_call b resolver (request OpCode.bind id) (sockaddr_bytes a) id k
        (b.bind id a k.channel.backend) empty
        (with_sockaddr-sockaddr_bytes
          (record (request OpCode.bind id) { correlation = k.next_correlation }) a (b.bind id)
          k.channel.backend r)
        enough

  -- Through the client and the daemon, `connect` is the backend's `connect` of the same socket to the
  -- same address, its error included, when the address is in range and there is room for a message.
  connect-connect :
      (id : ℕ) (a : SockAddrBytes) (k : Client (Wire S))
      → k.channel.queue ≡ []
      → InRange a
      → 0 < room k
      → Methods.connect (loopback b resolver) id a k ≡ (
        client_result (λ u. tt) (b.connect id a k.channel.backend).0,
        advanced k (b.connect id a k.channel.backend).1,
      )
  unfolding Methods.connect plan dispatch op_from_raw raw_op new_header
  connect-connect id a k empty r enough =
      unit_call b resolver (request OpCode.connect id) (sockaddr_bytes a) id k
        (b.connect id a k.channel.backend) empty
        (with_sockaddr-sockaddr_bytes
          (record (request OpCode.connect id) { correlation = k.next_correlation }) a (b.connect id)
          k.channel.backend r)
        enough

  listen-listen :
      (id backlog : ℕ) (k : Client (Wire S))
      → k.channel.queue ≡ []
      → backlog < 2 ^ 32
      → 0 < room k
      → Methods.listen (loopback b resolver) id backlog k ≡ (
        client_result (λ u. tt) (b.listen id backlog k.channel.backend).0,
        advanced k (b.listen id backlog k.channel.backend).1,
      )
  unfolding Methods.listen plan dispatch op_from_raw raw_op new_header
  listen-listen id backlog k empty fits enough =
      unit_call b resolver (request_with OpCode.listen id (pack_u32 backlog)) [] id k
        (b.listen id backlog k.channel.backend) empty
        (ap (λ n. reply_unit k.next_correlation id (b.listen id n k.channel.backend))
          (unpack-pack_u32 backlog fits))
        enough

  close-close :
      (id : ℕ) (k : Client (Wire S))
      → k.channel.queue ≡ []
      → 0 < room k
      → Methods.close (loopback b resolver) id k ≡ (
        client_result (λ u. tt) (b.close id k.channel.backend).0,
        advanced k (b.close id k.channel.backend).1,
      )
  unfolding Methods.close plan dispatch op_from_raw raw_op new_header
  close-close id k empty enough =
      unit_call b resolver (request OpCode.close id) [] id k (b.close id k.channel.backend) empty
        refl enough

  shutdown-shutdown :
      (id how : ℕ) (k : Client (Wire S))
      → k.channel.queue ≡ []
      → how < 2 ^ 32
      → 0 < room k
      → Methods.shutdown (loopback b resolver) id how k ≡ (
        client_result (λ u. tt) (b.shutdown id how k.channel.backend).0,
        advanced k (b.shutdown id how k.channel.backend).1,
      )
  unfolding Methods.shutdown plan dispatch op_from_raw raw_op new_header
  shutdown-shutdown id how k empty fits enough =
      unit_call b resolver (request_with OpCode.shutdown id (pack_u32 how)) [] id k
        (b.shutdown id how k.channel.backend) empty
        (ap (λ n. reply_unit k.next_correlation id (b.shutdown id n k.channel.backend))
          (unpack-pack_u32 how fits))
        enough

  -- Through the client and the daemon, `socket` gives the number that the backend's `socket` gives for
  -- the same family, type and protocol, or its error, when these are in the ranges of their types and there
  -- is room for a message.
  socket-socket :
      (af typ proto : ℕ) (k : Client (Wire S))
      → k.channel.queue ≡ []
      → af < 2 ^ 16
      → typ < 2 ^ 16
      → proto < 2 ^ 32
      → 0 < room k
      → Methods.socket (loopback b resolver) af typ proto k ≡ (
        client_result (λ id. id) (b.socket af typ proto k.channel.backend).0,
        advanced k (b.socket af typ proto k.channel.backend).1,
      )
  unfolding Methods.socket plan dispatch op_from_raw raw_op new_header
  socket-socket af typ proto k empty ha ht hp enough =
      carried b resolver (λ rh bytes. CResult.ok rh.socket_id)
        (λ id. ok_reply k.next_correlation id []) (λ id. id) (λ id. []) (λ id. id)
        (request_with OpCode.socket 0 (pack_socket_args af typ proto 0)) [] k
        (b.socket af typ proto k.channel.backend) (λ id. 1) empty
        (ap
          (λ (x : ℕ × ℕ × ℕ × ℕ).
            answer k.next_correlation (λ id. ok_reply k.next_correlation id [])
              (b.socket x.0 x.1 x.2 k.channel.backend))
          (unpack-pack_socket_args af typ proto 0 ha ht hp (omega arith)))
        (λ id e. ((refl, omega arith), refl))
        (λ id. record { oks = (refl, tt); whole = refl; header = λ h. refl; few = omega arith })
        (λ id e. enough) (λ id e. refl) enough
