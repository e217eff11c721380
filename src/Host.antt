-- ===== src/Host.antt =====
-- The host's sockets, which the NAT backend uses through `std::net` and does not implement: a
-- parameter of the model. A handle is a number; every call may change the world it runs in.
use psroot.Prelude.{◌≡◌, length, ℕ, List}

-- `std::io::ErrorKind`, as far as the backend tells kinds apart.
pub data ErrorKind : Type 0 where
  connection_refused connection_reset connection_aborted broken_pipe : ErrorKind
  addr_in_use addr_not_available would_block other : ErrorKind

pub data IoResult {ℓ} (A : Type ℓ) : Type ℓ where
  done : A → IoResult A
  failed : ErrorKind → IoResult A

-- `std::net::Ipv4Addr`
pub record Ipv4Addr : Type 0 where
  pub a : ℕ
  pub b : ℕ
  pub c : ℕ
  pub d : ℕ

-- `std::net::SocketAddr`: an address, a port and for v6 the flow and the scope.
pub data SocketAddr : Type 0 where
  v4 : Ipv4Addr → ℕ → SocketAddr
  v6 : List ℕ → ℕ → ℕ → ℕ → SocketAddr

abbrev pub addr_port : SocketAddr → ℕ
addr_port (SocketAddr.v4 ip port) = port
addr_port (SocketAddr.v6 ip port flow scope) = port

-- `std::net::Shutdown`
pub data Shutdown : Type 0 where
  read write both : Shutdown

pub record Host (World : Type 0) : Type 0 where
  pub tcp_connect : SocketAddr → World → IoResult ℕ × World
  pub tcp_bind : SocketAddr → World → IoResult ℕ × World
  pub tcp_accept : ℕ → World → IoResult (ℕ × SocketAddr) × World
  pub tcp_write : ℕ → List ℕ → World → IoResult ℕ × World
  -- Reads into a buffer of the given size; the bytes are those read.
  pub tcp_read : ℕ → ℕ → World → IoResult (List ℕ) × World
  pub tcp_shutdown : ℕ → Shutdown → World → IoResult (Unit {0}) × World
  pub udp_bind : SocketAddr → World → IoResult ℕ × World
  pub udp_send_to : ℕ → List ℕ → SocketAddr → World → IoResult ℕ × World
  pub udp_recv_from : ℕ → ℕ → World → IoResult (List ℕ × SocketAddr) × World
  pub local_addr : ℕ → World → IoResult SocketAddr

-- A v6 address is sixteen octets.
abbrev pub IsFull : SocketAddr → Type 0
IsFull (SocketAddr.v4 ip port) = Unit
IsFull (SocketAddr.v6 ip port flow scope) = length ip ≡ 16

-- The peers that the host reports are addresses of their type.
pub record HasFullPeers {World : Type 0} (host : Host World) : Type 0 where
  pub tcp_accept :
      (handle k : ℕ) (a : SocketAddr) (w w' : World)
      → host.tcp_accept handle w ≡ (done (k, a), w')
      → IsFull a
  pub udp_recv_from :
      (handle max : ℕ) (bytes : List ℕ) (a : SocketAddr) (w w' : World)
      → host.udp_recv_from handle max w ≡ (done (bytes, a), w')
      → IsFull a
