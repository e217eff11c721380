-- ===== src/Tests/World.antt =====
-- A host that connects, listens and reads, and a resolver that knows no name.
use psroot.Prelude.{ℕ, ◌+◌, true, none, Option, List, [], ◌∷◌, take, replicate, length}
use psroot.Proto.{SockAddrBytes, SlotHeader, sock_v4}
use psroot.Proto.Codes.{StatusCode}
use psroot.Backend.{ok, err, Backend}
use psroot.Host.{ErrorKind, IoResult, done, failed, Ipv4Addr, SocketAddr, Host}
use psroot.Daemon.{Resolver}
use psroot.Ring.{RingError}
use psroot.Ring.Queue.{Message}

-- The world counts the handles that it has given out.
abbrev pub next_handle : ℕ → IoResult ℕ × ℕ
next_handle w = (done w, w + 1)

abbrev pub host_peer : SocketAddr
host_peer = SocketAddr.v4 (record { a = 192; b = 168; c = 1; d = 9 }) 5000

abbrev pub test_host : Host ℕ
test_host = record {
  tcp_connect = λ a w. next_handle w;
  tcp_bind = λ a w. next_handle w;
  tcp_accept = λ handle w. (done (w, host_peer), w + 1);
  tcp_write = λ handle bytes w. (done (length bytes), w);
  tcp_read = λ handle cap w. (done (take cap (1 ∷ 2 ∷ 3 ∷ [])), w);
  tcp_shutdown = λ handle how w. (done tt, w);
  udp_bind = λ a w. next_handle w;
  udp_send_to = λ handle bytes a w. (done (length bytes), w);
  udp_recv_from = λ handle cap w. (done (take cap (9 ∷ []), host_peer), w);
  local_addr =
      λ handle w. done (SocketAddr.v4 (record { a = 127; b = 0; c = 0; d = 1 }) (40000 + handle));
}

abbrev pub container_ip : Ipv4Addr
container_ip = record { a = 10; b = 77; c = 0; d = 2 }

abbrev pub test_resolver : Resolver
test_resolver = record { is_utf8 = λ bytes. true; lookup_host = λ name. failed ErrorKind.other }

abbrev pub some_peer : SockAddrBytes
some_peer = sock_v4 1 2 3 4 80

-- A backend that counts its calls.
abbrev pub counting : Backend ℕ
counting = record {
  socket = λ af typ proto s. (ok 1, s + 1);
  bind = λ id addr s. (ok tt, s + 1);
  connect = λ id addr s. (err StatusCode.conn_refused, s + 1);
  listen = λ id backlog s. (ok tt, s + 1);
  accept = λ id s. (ok (2, some_peer), s + 1);
  send = λ id bytes s. (ok 3, s + 1);
  recv = λ id max s. (ok (replicate 5000 7), s + 1);
  close = λ id s. (ok tt, s + 1);
  shutdown = λ id how s. (ok tt, s + 1);
  get_sock_name = λ id s. (ok some_peer, s + 1);
  get_peer_name = λ id s. (err StatusCode.bad_socket, s + 1);
  sendto = λ id addr bytes s. (ok 3, s + 1);
  recvfrom = λ id max s. (ok (1 ∷ 2 ∷ [], some_peer), s + 1);
}

-- A channel that takes every message and keeps it.
abbrev pub keep_post : SlotHeader → List ℕ → List Message → Option RingError × List Message
keep_post h bytes c = (none, (h, bytes) ∷ c)
