-- ===== src/Tests/Calls.antt =====
-- Calls of the client through the daemon to a concrete backend.
use psroot.Prelude.{
  ℕ, ◌+◌, ◌≤◌, ◌≡◌, refl, ap, some, List, [], ◌∷◌, ◌++◌, length-replicate, subst, arith,
}
use psroot.Proto.{SockAddrBytes}
use psroot.Backend
use psroot.Backend.{BResult, Backend, ok-injective}
use psroot.Daemon.SockAddr.{write_sockaddr, read_sockaddr}
use psroot.Daemon.Address.{InRange, read_sockaddr-write_sockaddr}
use psroot.Client.{Client}
use psroot.Client.Methods
use psroot.Client.Loopback.{Wire, loopback, advanced, client_result}
use psroot.Client.Transparent.{recv-recv}
use psroot.Tests.World.{test_resolver, some_peer, counting}

abbrev client : Client (Wire ℕ)
client = record {
  channel = record { backend = 0; queue = []; slots = 256 };
  next_correlation = 4294967295;
  patience = 40;
}

some_peer-InRange : InRange some_peer
some_peer-InRange = record {
  family = omega arith;
  port = omega arith;
  v6_flow = omega arith;
  addr = refl;
  v6_scope = omega arith;
}

read_sockaddr-write_sockaddr_example :
    read_sockaddr (write_sockaddr some_peer ++ (5 ∷ [])) ≡ some some_peer
read_sockaddr-write_sockaddr_example =
    read_sockaddr-write_sockaddr some_peer (5 ∷ []) some_peer-InRange

recv-recv_example :
    Methods.recv (loopback counting test_resolver) 1 8000 client
    ≡ (client_result (λ bytes. bytes) (counting.recv 1 8000 0).0, advanced client 1)
recv-recv_example =
    recv-recv counting test_resolver 1 8000 client refl (omega arith)
      (omega (arith, length-replicate {A = ℕ} 5000 7))

peer_InRange :
    (x : List ℕ × SockAddrBytes) → (counting.recvfrom 1 10 0).0 ≡ Backend.ok x → InRange x.1
peer_InRange x e =
    subst InRange (ap (λ (y : List ℕ × SockAddrBytes). y.1) (ok-injective e)) some_peer-InRange

three_small : (n : ℕ) → (counting.send 1 (1 ∷ 2 ∷ 3 ∷ []) 0).0 ≡ Backend.ok n → n + 1 ≤ 4294967296
three_small n e = omega (arith, ok-injective e)
