-- ===== src/Client/Transparent.antt =====
-- The client's receiving methods (crates/psroot-netshim/src/client.rs) through the daemon, against the
-- backend's.
use psroot.Prelude.{
  ℕ, suc, ◌+◌, ◌/◌, ◌^◌, ◌≤◌, ◌<◌, ◌≡◌, refl, sym, ap, ap₂, ◌∙◌, false, some, List, [], ◌++◌,
  append-nil, ltb, le→ltb, length, length-append, take, drop, take-append, drop-append, arith,
}
use psroot.Proto.{SlotHeader, SockAddrBytes, reply_ok, pack_u32, new_header, data_capacity}
use psroot.Proto.Codes.{OpCode, raw_op, op_from_raw}
use psroot.Proto.RoundTrip.{unpack-pack_u32}
use psroot.Ring.Queue.{Message}
use psroot.Backend
use psroot.Backend.{BResult, Backend}
use psroot.Daemon.{Resolver, answer, ok_reply, recv_replies, recvfrom_replies, reply_unit}
use psroot.Daemon.SockAddr.{write_sockaddr, read_sockaddr}
use psroot.Daemon.Address.{InRange, length-write_sockaddr, read_sockaddr-write_sockaddr}
use psroot.Daemon.Handle.{dispatch, plan}
use psroot.Daemon.Framing.{IsFramed, recv_replies-IsFramed, recvfrom_replies-IsFramed}
use psroot.Client.{CResult, Client, exchange, sockaddr_bytes, parse_sockaddr}
use psroot.Client.Methods
use psroot.Client.Methods.{
  request, request_with, map_reply, no_result, number, ok_or, with_id, with_bytes, datagram,
}
use psroot.Client.Loopback.{room, Wire, loopback, advanced, client_result, exchange-answer}
use psroot.Client.Pieces.{Carries, recv_replies-Carries, recvfrom_replies-Carries}

-- The bytes of a result, none when it is an error.
abbrev pub received : BResult (List ℕ) → List ℕ
received (Backend.ok bytes) = bytes
received _ = []

abbrev pub received_from : BResult (List ℕ × SockAddrBytes) → List ℕ
received_from (Backend.ok r) = r.0
received_from _ = []

abbrev whole_reply : SlotHeader → List ℕ → SlotHeader × List ℕ
whole_reply h bytes = (h, bytes)

pub map_reply-client_result :
    {A B K : Type 0} (F : SlotHeader → List ℕ → CResult B) (g : A → SlotHeader × List ℕ) (h : A → B)
    (r : BResult A) (k : K)
    → ((a : A) → r ≡ Backend.ok a → F (g a).0 (g a).1 ≡ CResult.ok (h a))
    → map_reply F (client_result g r, k) ≡ (client_result h r, k)
map_reply-client_result F g h (Backend.ok a) k e = ap (λ x. (x, k)) (e a refl)
map_reply-client_result F g h (Backend.err s) k e = refl
map_reply-client_result F g h Backend.panic k e = refl

pub parse_sockaddr-write_sockaddr :
    (a : SockAddrBytes) → InRange a → parse_sockaddr (write_sockaddr a) ≡ some a
unfolding parse_sockaddr read_sockaddr
parse_sockaddr-write_sockaddr a r =
    ap parse_sockaddr (sym (append-nil (write_sockaddr a))) ∙ read_sockaddr-write_sockaddr a [] r

pub read_sockaddr-sockaddr_bytes :
    (a : SockAddrBytes) (rest : List ℕ)
    → InRange a
    → read_sockaddr (sockaddr_bytes a ++ rest) ≡ some a
unfolding sockaddr_bytes write_sockaddr
read_sockaddr-sockaddr_bytes a rest r = read_sockaddr-write_sockaddr a rest r

datagram-write_sockaddr :
    (h : SlotHeader) (a : SockAddrBytes) (bytes : List ℕ)
    → InRange a
    → datagram h (write_sockaddr a ++ bytes) ≡ CResult.ok (bytes, a)
datagram-write_sockaddr h a bytes r =
    let n : length (write_sockaddr a) ≡ 28 = length-write_sockaddr a r.addr in
    let short : ltb (length (write_sockaddr a ++ bytes)) 28 ≡ false =
      le→ltb _ _ (omega (arith, n, length-append (write_sockaddr a) bytes)) in
    let head : take 28 (write_sockaddr a ++ bytes) ≡ write_sockaddr a =
      ap (λ i. take i (write_sockaddr a ++ bytes)) (sym n) ∙ take-append (write_sockaddr a) bytes in
    let tail : drop 28 (write_sockaddr a ++ bytes) ≡ bytes =
      ap (λ i. drop i (write_sockaddr a ++ bytes)) (sym n) ∙ drop-append (write_sockaddr a) bytes in
    rw (short, head, tail, parse_sockaddr-write_sockaddr a r) refl

module _ {S : Type 0} (b : Backend S) (resolver : Resolver) where
  -- A method whose answer carries some bytes behind the plain header.
  pub carried :
      {A B : Type 0} (F : SlotHeader → List ℕ → CResult B) (f : A → List Message) (id : A → ℕ)
      (body : A → List ℕ) (h : A → B) (hdr : SlotHeader) (bytes : List ℕ) (k : Client (Wire S))
      (r : BResult A × S) (bound : A → ℕ)
      → k.channel.queue ≡ []
      → plan b resolver (record hdr { correlation = k.next_correlation }) bytes k.channel.backend
        ≡ answer k.next_correlation f r
      → ((a : A) → r.0 ≡ Backend.ok a → IsFramed k.next_correlation (f a))
      → ((a : A) → Carries k.next_correlation (id a) (bound a) (body a) (f a))
      → ((a : A) → r.0 ≡ Backend.ok a → bound a ≤ room k)
      → ((a : A)
          → r.0 ≡ Backend.ok a
          → F (reply_ok k.next_correlation (id a)) (body a) ≡ CResult.ok (h a))
      → 0 < room k
      → map_reply F (exchange (loopback b resolver) hdr bytes k)
        ≡ (client_result h r.0, advanced k r.1)
  carried {A} F f id body h hdr bytes k r bound empty planned framed carries long reads enough =
      let g : A → SlotHeader × List ℕ = λ a. (reply_ok k.next_correlation (id a), body a) in
      ap (map_reply F) (
        exchange-answer b resolver f g hdr hdr bytes k r empty planned framed (λ a. (carries a).oks)
          (λ a e. omega (arith, (carries a).few, long a e))
          (λ a. ap₂ whole_reply ((carries a).header hdr) (carries a).whole) enough)
      ∙ map_reply-client_result F g h r.0 (advanced k r.1) reads

  -- Through the client and the daemon, `recv` gives exactly the bytes that the backend's `recv` gives, in
  -- as many slots as they take, or the backend's error (a panic is a time-out), and the backend is left
  -- as its `recv` leaves it, when the maximum is a u32 and the deadline lets in, and the empty ring of
  -- replies has slots for, more messages than the bytes fill. A ring that is full refuses a reply.
  pub recv-recv :
      (id max : ℕ) (k : Client (Wire S))
      → k.channel.queue ≡ []
      → max < 2 ^ 32
      → length (received (b.recv id max k.channel.backend).0) / data_capacity < room k
      → Methods.recv (loopback b resolver) id max k ≡ (
        client_result (λ bytes. bytes) (b.recv id max k.channel.backend).0,
        advanced k (b.recv id max k.channel.backend).1,
      )
  unfolding Methods.recv plan dispatch op_from_raw raw_op new_header
  recv-recv id max k empty fits enough =
      carried (λ rh bytes. CResult.ok bytes) (recv_replies k.next_correlation id) (λ bytes. id)
        (λ bytes. bytes) (λ bytes. bytes) (request_with OpCode.recv id (pack_u32 max)) [] k
        (b.recv id max k.channel.backend) (λ bytes. suc (length bytes / data_capacity)) empty
        (ap
          (λ n.
            answer k.next_correlation (recv_replies k.next_correlation id)
              (b.recv id n k.channel.backend))
          (unpack-pack_u32 max fits))
        (λ bytes e. recv_replies-IsFramed k.next_correlation id bytes)
        (recv_replies-Carries k.next_correlation id)
        (λ bytes e. omega (arith, enough, ap (λ r. length (received r)) (sym e))) (λ bytes e. refl)
        (omega (arith, enough))

  -- Through the client and the daemon, `recvfrom` gives the datagram and the sender that the backend's
  -- `recvfrom` gives, however many slots they take, or the backend's error, when the sender's fields are
  -- in the ranges of their types, the maximum is a u32 and the deadline lets in, and the ring of replies
  -- has free slots for, the messages that the address and the bytes fill.
  recvfrom-recvfrom :
      (id max : ℕ) (k : Client (Wire S))
      → k.channel.queue ≡ []
      → max < 2 ^ 32
      → ((bytes : List ℕ) (a : SockAddrBytes)
          → (b.recvfrom id max k.channel.backend).0 ≡ Backend.ok (bytes, a)
          → InRange a)
      → (28 + length (received_from (b.recvfrom id max k.channel.backend).0)) / data_capacity
        < room k
      → Methods.recvfrom (loopback b resolver) id max k ≡ (
        client_result (λ r. r) (b.recvfrom id max k.channel.backend).0,
        advanced k (b.recvfrom id max k.channel.backend).1,
      )
  unfolding Methods.recvfrom plan dispatch op_from_raw raw_op new_header
  recvfrom-recvfrom id max k empty fits full enough =
      carried datagram (λ r. recvfrom_replies k.next_correlation id r.0 r.1) (λ r. id)
        (λ r. write_sockaddr r.1 ++ r.0) (λ r. r) (request_with OpCode.recv_from id (pack_u32 max))
        [] k (b.recvfrom id max k.channel.backend) (λ r. suc ((28 + length r.0) / data_capacity))
        empty
        (ap
          (λ n.
            answer k.next_correlation (λ r. recvfrom_replies k.next_correlation id r.0 r.1)
              (b.recvfrom id n k.channel.backend))
          (unpack-pack_u32 max fits))
        (λ r e. recvfrom_replies-IsFramed k.next_correlation id r.0 r.1 (full r.0 r.1 e).addr)
        (λ r. recvfrom_replies-Carries k.next_correlation id r.0 r.1)
        (λ r e. omega (arith, enough, ap (λ x. length (received_from x)) (sym e)))
        (λ r e. datagram-write_sockaddr (reply_ok k.next_correlation id) r.1 r.0 (full r.0 r.1 e))
        (omega (arith, enough))

  -- A method whose answer is one message without a payload.
  pub unit_call :
      (hdr : SlotHeader) (bytes : List ℕ) (id : ℕ) (k : Client (Wire S))
      (r : BResult (Unit {0}) × S)
      → k.channel.queue ≡ []
      → plan b resolver (record hdr { correlation = k.next_correlation }) bytes k.channel.backend
        ≡ reply_unit k.next_correlation id r
      → 0 < room k
      → map_reply no_result (exchange (loopback b resolver) hdr bytes k)
        ≡ (client_result (λ u. tt) r.0, advanced k r.1)
  unit_call hdr bytes id k r empty planned enough =
      carried no_result (λ u. ok_reply k.next_correlation id []) (λ u. id) (λ u. []) (λ u. tt) hdr
        bytes k r (λ u. 1) empty planned (λ u e. ((refl, omega arith), refl))
        (λ u. record { oks = (refl, tt); whole = refl; header = λ h. refl; few = omega arith })
        (λ u e. enough) (λ u e. refl) enough
