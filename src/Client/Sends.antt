-- ===== src/Client/Sends.antt =====
-- The client's sends (crates/psroot-netshim/src/client.rs), against the backend's.
use psroot.Prelude.{
  ℕ, ◌^◌, ◌<◌, ◌≡◌, refl, sym, ap, ◌∙◌, false, List, [], ◌++◌, ltb, le→ltb, length, length-append,
  drop, drop-append, arith,
}
use psroot.Proto.{SlotHeader, SockAddrBytes, reply_ok, pack_u32, new_header}
use psroot.Proto.Codes.{OpCode, raw_op, op_from_raw}
use psroot.Proto.RoundTrip.{unpack-pack_u32}
use psroot.Backend
use psroot.Backend.{BResult, Backend}
use psroot.Daemon.{Resolver, answer, count_reply}
use psroot.Daemon.SockAddr.{write_sockaddr, read_sockaddr}
use psroot.Daemon.Address.{InRange, length-write_sockaddr}
use psroot.Daemon.Handle.{dispatch, plan, send_to_plan}
use psroot.Client.{CResult, Client, exchange, sockaddr_bytes}
use psroot.Client.Methods
use psroot.Client.Methods.{request, map_reply, number}
use psroot.Client.Loopback.{room, Wire, loopback, advanced, client_result, exchange-answer}
use psroot.Client.Transparent.{map_reply-client_result, read_sockaddr-sockaddr_bytes}

length-sockaddr_bytes : (a : SockAddrBytes) → length a.addr ≡ 16 → length (sockaddr_bytes a) ≡ 28
unfolding sockaddr_bytes write_sockaddr
length-sockaddr_bytes a h = length-write_sockaddr a h

module _ {S : Type 0} (b : Backend S) (resolver : Resolver) where
  count_call :
      (hdr : SlotHeader) (bytes : List ℕ) (id : ℕ) (k : Client (Wire S)) (r : BResult ℕ × S)
      → k.channel.queue ≡ []
      → plan b resolver (record hdr { correlation = k.next_correlation }) bytes k.channel.backend
        ≡ answer k.next_correlation (count_reply k.next_correlation id) r
      → ((n : ℕ) → r.0 ≡ Backend.ok n → n < 2 ^ 32)
      → 0 < room k
      → map_reply number (exchange (loopback b resolver) hdr bytes k)
        ≡ (client_result (λ n. n) r.0, advanced k r.1)
  count_call hdr bytes id k r empty planned small enough =
      let g : ℕ → SlotHeader × List ℕ =
        λ n. (record (reply_ok k.next_correlation id) { args = pack_u32 n }, []) in
      ap (map_reply number) (
        exchange-answer b resolver (count_reply k.next_correlation id) g hdr hdr bytes k r empty
          planned (λ n e. ((refl, omega arith), refl)) (λ n. (refl, tt)) (λ n e. enough) (λ n. refl)
          enough)
      ∙ map_reply-client_result number g (λ n. n) r.0 (advanced k r.1)
          (λ n e. ap (λ m. CResult.ok m) (unpack-pack_u32 n (small n e)))

  -- Through the client and the daemon, `send` hands the backend the bytes of the call and gives the
  -- count that it gives, or its error, when the count is a u32 and there is room for a message.
  send-send :
      (id : ℕ) (bytes : List ℕ) (k : Client (Wire S))
      → k.channel.queue ≡ []
      → ((n : ℕ) → (b.send id bytes k.channel.backend).0 ≡ Backend.ok n → n < 2 ^ 32)
      → 0 < room k
      → Methods.send (loopback b resolver) id bytes k ≡ (
        client_result (λ n. n) (b.send id bytes k.channel.backend).0,
        advanced k (b.send id bytes k.channel.backend).1,
      )
  unfolding Methods.send plan dispatch op_from_raw raw_op new_header
  send-send id bytes k empty small enough =
      count_call (request OpCode.send id) bytes id k (b.send id bytes k.channel.backend) empty refl
        small enough

  send_to_plan-sockaddr_bytes :
      (hdr : SlotHeader) (a : SockAddrBytes) (bytes : List ℕ) (s : S)
      → InRange a
      → send_to_plan b resolver hdr
          (sockaddr_bytes a ++ bytes)
          (read_sockaddr (sockaddr_bytes a ++ bytes))
          s
        ≡ answer hdr.correlation
            (count_reply hdr.correlation hdr.socket_id)
            (b.sendto hdr.socket_id a bytes s)
  send_to_plan-sockaddr_bytes hdr a bytes s r =
      let n : length (sockaddr_bytes a) ≡ 28 = length-sockaddr_bytes a r.addr in
      let long : ltb (length (sockaddr_bytes a ++ bytes)) 28 ≡ false =
        le→ltb _ _ (omega (arith, n, length-append (sockaddr_bytes a) bytes)) in
      let tail : drop 28 (sockaddr_bytes a ++ bytes) ≡ bytes =
        ap (λ i. drop i (sockaddr_bytes a ++ bytes)) (sym n)
        ∙ drop-append (sockaddr_bytes a) bytes in
      rw (read_sockaddr-sockaddr_bytes a bytes r, long, tail) refl

  -- Through the client and the daemon, `sendto` hands the backend the address and the datagram of the
  -- call and gives the count that it gives, or its error, when the address is in range, the count is a
  -- u32 and there is room for a message.
  sendto-sendto :
      (id : ℕ) (a : SockAddrBytes) (bytes : List ℕ) (k : Client (Wire S))
      → k.channel.queue ≡ []
      → InRange a
      → ((n : ℕ) → (b.sendto id a bytes k.channel.backend).0 ≡ Backend.ok n → n < 2 ^ 32)
      → 0 < room k
      → Methods.sendto (loopback b resolver) id a bytes k ≡ (
        client_result (λ n. n) (b.sendto id a bytes k.channel.backend).0,
        advanced k (b.sendto id a bytes k.channel.backend).1,
      )
  unfolding Methods.sendto plan dispatch op_from_raw raw_op new_header
  sendto-sendto id a bytes k empty r small enough =
      count_call (request OpCode.send_to id) (sockaddr_bytes a ++ bytes) id k
        (b.sendto id a bytes k.channel.backend) empty
        (send_to_plan-sockaddr_bytes
          (record (request OpCode.send_to id) { correlation = k.next_correlation }) a bytes
          k.channel.backend r)
        small enough
