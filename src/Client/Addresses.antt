-- ===== src/Client/Addresses.antt =====
-- The client's methods whose answer is an address (crates/psroot-netshim/src/client.rs), against the
-- backend's.
use psroot.Prelude.{ℕ, ◌<◌, ◌≡◌, refl, some, List, [], append-nil, arith}
use psroot.Proto.{SlotHeader, SockAddrBytes, reply_ok, new_header}
use psroot.Proto.Codes.{OpCode, raw_op, op_from_raw}
use psroot.Backend
use psroot.Backend.{BResult, Backend}
use psroot.Daemon.{Resolver, answer, ok_reply}
use psroot.Daemon.SockAddr.{write_sockaddr}
use psroot.Daemon.Address.{InRange, length-write_sockaddr}
use psroot.Daemon.Handle.{dispatch, plan}
use psroot.Client.{CResult, Complaint, Client, exchange, parse_sockaddr}
use psroot.Client.Methods
use psroot.Client.Methods.{request, request_with, map_reply, number, ok_or, with_id}
use psroot.Client.Loopback.{room, Wire, loopback, advanced, client_result}
use psroot.Client.Transparent.{carried, parse_sockaddr-write_sockaddr}

module _ {S : Type 0} (b : Backend S) (resolver : Resolver) where
  -- A method whose answer carries one address.
  address_call :
      {B : Type 0} (F : SlotHeader → List ℕ → CResult B) (h : ℕ × SockAddrBytes → B)
      (hdr : SlotHeader) (k : Client (Wire S)) (r : BResult (ℕ × SockAddrBytes) × S)
      → k.channel.queue ≡ []
      → plan b resolver (record hdr { correlation = k.next_correlation }) [] k.channel.backend
        ≡ answer k.next_correlation (λ x. ok_reply k.next_correlation x.0 (write_sockaddr x.1)) r
      → ((x : ℕ × SockAddrBytes) → r.0 ≡ Backend.ok x → InRange x.1)
      → ((x : ℕ × SockAddrBytes)
          → parse_sockaddr (write_sockaddr x.1) ≡ some x.1
          → F (reply_ok k.next_correlation x.0) (write_sockaddr x.1) ≡ CResult.ok (h x))
      → 0 < room k
      → map_reply F (exchange (loopback b resolver) hdr [] k)
        ≡ (client_result h r.0, advanced k r.1)
  address_call F h hdr k r empty planned full reads enough =
      carried b resolver F (λ x. ok_reply k.next_correlation x.0 (write_sockaddr x.1)) (λ x. x.0)
        (λ x. write_sockaddr x.1) h hdr [] k r (λ x. 1) empty planned
        (λ x e. ((refl, omega (arith, length-write_sockaddr x.1 (full x e).addr)), refl))
        (λ x. record {
          oks = (refl, tt);
          whole = append-nil (write_sockaddr x.1);
          header = λ h. refl;
          few = omega arith;
        })
        (λ x e. enough) (λ x e. reads x (parse_sockaddr-write_sockaddr x.1 (full x e))) enough

  -- Through the client and the daemon, `accept` gives the number and the peer that the backend's
  -- `accept` gives, or its error, when the peer's fields are in the ranges of their types and there
  -- is room for a message.
  accept-accept :
      (id : ℕ) (k : Client (Wire S))
      → k.channel.queue ≡ []
      → ((x : ℕ × SockAddrBytes) → (b.accept id k.channel.backend).0 ≡ Backend.ok x → InRange x.1)
      → 0 < room k
      → Methods.accept (loopback b resolver) id k ≡ (
        client_result (λ x. x) (b.accept id k.channel.backend).0,
        advanced k (b.accept id k.channel.backend).1,
      )
  unfolding Methods.accept plan dispatch op_from_raw raw_op new_header
  accept-accept id k empty full enough =
      address_call
        (λ rh bytes. with_id rh.socket_id (ok_or Complaint.bad_peer (parse_sockaddr bytes)))
        (λ x. x) (request OpCode.accept id) k (b.accept id k.channel.backend) empty refl full
        (λ x e. rw e refl) enough

  name_call :
      (hdr : SlotHeader) (id : ℕ) (k : Client (Wire S)) (r : BResult SockAddrBytes × S)
      → k.channel.queue ≡ []
      → plan b resolver (record hdr { correlation = k.next_correlation }) [] k.channel.backend
        ≡ answer k.next_correlation (λ a. ok_reply k.next_correlation id (write_sockaddr a)) r
      → ((a : SockAddrBytes) → r.0 ≡ Backend.ok a → InRange a)
      → 0 < room k
      → map_reply
          (λ rh bytes. ok_or Complaint.bad_sockaddr (parse_sockaddr bytes))
          (exchange (loopback b resolver) hdr [] k)
        ≡ (client_result (λ a. a) r.0, advanced k r.1)
  name_call hdr id k r empty planned full enough =
      carried b resolver (λ rh bytes. ok_or Complaint.bad_sockaddr (parse_sockaddr bytes))
        (λ a. ok_reply k.next_correlation id (write_sockaddr a)) (λ a. id) write_sockaddr (λ a. a)
        hdr [] k r (λ a. 1) empty planned
        (λ a e. ((refl, omega (arith, length-write_sockaddr a (full a e).addr)), refl))
        (λ a. record {
          oks = (refl, tt);
          whole = append-nil (write_sockaddr a);
          header = λ h. refl;
          few = omega arith;
        })
        (λ a e. enough) (λ a e. rw (parse_sockaddr-write_sockaddr a (full a e)) refl) enough

  -- Through the client and the daemon, `getsockname` gives the address that the backend's method gives,
  -- or its error, when the address is in range and there is room for a message.
  getsockname-get_sock_name :
      (id : ℕ) (k : Client (Wire S))
      → k.channel.queue ≡ []
      → ((a : SockAddrBytes) → (b.get_sock_name id k.channel.backend).0 ≡ Backend.ok a → InRange a)
      → 0 < room k
      → Methods.getsockname (loopback b resolver) id k ≡ (
        client_result (λ a. a) (b.get_sock_name id k.channel.backend).0,
        advanced k (b.get_sock_name id k.channel.backend).1,
      )
  unfolding Methods.getsockname plan dispatch op_from_raw raw_op new_header
  getsockname-get_sock_name id k empty full enough =
      name_call (request OpCode.get_sock_name id) id k (b.get_sock_name id k.channel.backend) empty
        refl full enough

  getpeername-get_peer_name :
      (id : ℕ) (k : Client (Wire S))
      → k.channel.queue ≡ []
      → ((a : SockAddrBytes) → (b.get_peer_name id k.channel.backend).0 ≡ Backend.ok a → InRange a)
      → 0 < room k
      → Methods.getpeername (loopback b resolver) id k ≡ (
        client_result (λ a. a) (b.get_peer_name id k.channel.backend).0,
        advanced k (b.get_peer_name id k.channel.backend).1,
      )
  unfolding Methods.getpeername plan dispatch op_from_raw raw_op new_header
  getpeername-get_peer_name id k empty full enough =
      name_call (request OpCode.get_peer_name id) id k (b.get_peer_name id k.channel.backend) empty
        refl full enough
