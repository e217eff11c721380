-- ===== src/Backend.antt =====
-- The interface between the daemon and a backend (crates/psroot-netstack-host/src/backend.rs).
-- A backend is a state `S` with one function for each method of the trait; a method returns its
-- result beside the new state. A panic of the source is a result of its own.
use psroot.Prelude.{ℕ, List}
use psroot.Proto.{SockAddrBytes}
use psroot.Proto.Codes.{StatusCode}
use psroot.Prelude.{◌≡◌, length}

pub data BResult {ℓ} (A : Type ℓ) : Type ℓ where
  ok : A → BResult A
  err : StatusCode → BResult A
  panic : BResult A

pub record Backend (S : Type 0) : Type 0 where
  pub socket : ℕ → ℕ → ℕ → S → BResult ℕ × S
  pub bind : ℕ → SockAddrBytes → S → BResult (Unit {0}) × S
  pub connect : ℕ → SockAddrBytes → S → BResult (Unit {0}) × S
  pub listen : ℕ → ℕ → S → BResult (Unit {0}) × S
  pub accept : ℕ → S → BResult (ℕ × SockAddrBytes) × S
  pub send : ℕ → List ℕ → S → BResult ℕ × S
  pub recv : ℕ → ℕ → S → BResult (List ℕ) × S
  pub close : ℕ → S → BResult (Unit {0}) × S
  pub shutdown : ℕ → ℕ → S → BResult (Unit {0}) × S
  pub get_sock_name : ℕ → S → BResult SockAddrBytes × S
  pub get_peer_name : ℕ → S → BResult SockAddrBytes × S
  pub sendto : ℕ → SockAddrBytes → List ℕ → S → BResult ℕ × S
  pub recvfrom : ℕ → ℕ → S → BResult (List ℕ × SockAddrBytes) × S

-- The default bodies of `sendto` and `recvfrom`.
pub default_sendto : {S : Type 0} → ℕ → SockAddrBytes → List ℕ → S → BResult ℕ × S
default_sendto id addr bytes s = (err StatusCode.not_supported, s)

pub default_recvfrom : {S : Type 0} → ℕ → ℕ → S → BResult (List ℕ × SockAddrBytes) × S
default_recvfrom id max s = (err StatusCode.not_supported, s)

-- A property of the state that every method keeps; the addresses that it is given have sixteen bytes.
pub record Preserves {S : Type 0} (b : Backend S) (P : S → Type 0) : Type 0 where
  pub socket : (af typ proto : ℕ) (s : S) → P s → P (b.socket af typ proto s).1
  pub bind :
      (id : ℕ) (addr : SockAddrBytes) (s : S) → length addr.addr ≡ 16 → P s → P (b.bind id addr s).1
  pub connect :
      (id : ℕ) (addr : SockAddrBytes) (s : S)
      → length addr.addr ≡ 16
      → P s
      → P (b.connect id addr s).1
  pub listen : (id backlog : ℕ) (s : S) → P s → P (b.listen id backlog s).1
  pub accept : (id : ℕ) (s : S) → P s → P (b.accept id s).1
  pub send : (id : ℕ) (bytes : List ℕ) (s : S) → P s → P (b.send id bytes s).1
  pub recv : (id max : ℕ) (s : S) → P s → P (b.recv id max s).1
  pub close : (id : ℕ) (s : S) → P s → P (b.close id s).1
  pub shutdown : (id how : ℕ) (s : S) → P s → P (b.shutdown id how s).1
  pub get_sock_name : (id : ℕ) (s : S) → P s → P (b.get_sock_name id s).1
  pub get_peer_name : (id : ℕ) (s : S) → P s → P (b.get_peer_name id s).1
  pub sendto :
      (id : ℕ) (addr : SockAddrBytes) (bytes : List ℕ) (s : S)
      → length addr.addr ≡ 16
      → P s
      → P (b.sendto id addr bytes s).1
  pub recvfrom : (id max : ℕ) (s : S) → P s → P (b.recvfrom id max s).1

pub ok-injective : {A : Type 0} {x y : A} → ok x ≡ ok y → x ≡ y
ok-injective e = cc
