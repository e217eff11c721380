-- ===== src/Daemon/Address.antt =====
-- Writing and reading a socket address (crates/psroot-netstack-host/src/daemon.rs).
use mathlib.Core.Option.{some-injective}
use psroot.Prelude.{
  drop, Bool-cases, inl, inr, tests, length-take, length-drop, ℕ, ◌+◌, ◌^◌, ◌<◌, ◌≡◌, refl, sym, ap,
  ◌∙◌, some, List, ◌++◌, length, get_or, get_or-append_right, take, take-append, append_assoc,
  length-append, false, ltb, le→ltb, arith,
}
use psroot.Proto.{SockAddrBytes, le32_at}
use psroot.Proto.Bytes.{to_le32, from_le16-to_le16, from_le32-to_le32}
use psroot.Daemon.SockAddr.{write_sockaddr, read_sockaddr, sockaddr_at}

-- The ranges of the fields' types: two u16, two u32 and a `[u8; 16]`.
pub record InRange (a : SockAddrBytes) : Type 0 where
  pub family : a.family < 2 ^ 16
  pub port : a.port < 2 ^ 16
  pub v6_flow : a.v6_flow < 2 ^ 32
  pub addr : length a.addr ≡ 16
  pub v6_scope : a.v6_scope < 2 ^ 32

pub length-write_sockaddr :
    (a : SockAddrBytes) → length a.addr ≡ 16 → length (write_sockaddr a) ≡ 28
unfolding write_sockaddr
length-write_sockaddr a h = omega (arith, length-append a.addr (to_le32 a.v6_scope))

-- What follows the first sixteen elements of a list.
get_or-skip :
    (xs ys : List ℕ) (i : ℕ) → length xs ≡ 16 → get_or (xs ++ ys) (16 + i) 0 ≡ get_or ys i 0
get_or-skip xs ys i h =
    ap (λ n. get_or (xs ++ ys) (n + i) 0) (sym h) ∙ get_or-append_right xs ys i 0

take-skip : (xs ys : List ℕ) → length xs ≡ 16 → take 16 (xs ++ ys) ≡ xs
take-skip xs ys h = ap (λ n. take n (xs ++ ys)) (sym h) ∙ take-append xs ys

le32_at-skip :
    (xs ys : List ℕ) (v : ℕ)
    → length xs ≡ 16
    → v < 2 ^ 32
    → le32_at (xs ++ (to_le32 v ++ ys)) 16 ≡ v
le32_at-skip xs ys v h r =
    let zs = to_le32 v ++ ys in
    rw (get_or-skip xs zs 0 h, get_or-skip xs zs 1 h, get_or-skip xs zs 2 h, get_or-skip xs zs 3 h)
      (from_le32-to_le32 v r)

sockaddr_at-write :
    (a : SockAddrBytes) (rest : List ℕ) → InRange a → sockaddr_at (write_sockaddr a ++ rest) ≡ a
unfolding write_sockaddr
sockaddr_at-write a rest r =
    let tail : (a.addr ++ to_le32 a.v6_scope) ++ rest ≡ a.addr ++ (to_le32 a.v6_scope ++ rest) =
      append_assoc a.addr (to_le32 a.v6_scope) rest in
    rw
      (
        tail,
        take-skip a.addr (to_le32 a.v6_scope ++ rest) r.addr,
        le32_at-skip a.addr rest a.v6_scope r.addr r.v6_scope,
        from_le16-to_le16 a.family r.family,
        from_le16-to_le16 a.port r.port,
        from_le32-to_le32 a.v6_flow r.v6_flow,
      )
      refl

-- An address that is written and read back is the same address, whatever bytes follow it.
pub read_sockaddr-write_sockaddr :
    (a : SockAddrBytes) (rest : List ℕ)
    → InRange a
    → read_sockaddr (write_sockaddr a ++ rest) ≡ some a
unfolding read_sockaddr
read_sockaddr-write_sockaddr a rest r =
    let long : ltb (length (write_sockaddr a ++ rest)) 28 ≡ false =
      le→ltb (length (write_sockaddr a ++ rest)) 28
        (omega (arith, length-append (write_sockaddr a) rest, length-write_sockaddr a r.addr)) in
    rw long (ap some (sockaddr_at-write a rest r))

-- What is read is sixteen bytes, whatever the payload.
pub length-read_sockaddr :
    (bytes : List ℕ) (a : SockAddrBytes) → read_sockaddr bytes ≡ some a → length a.addr ≡ 16
unfolding read_sockaddr
length-read_sockaddr bytes a e = elim (Bool-cases (ltb (length bytes) 28)) [
  | inl short ↦ let nothing = rw short at e in cc
  | inr long ↦
      ap (λ x. length x.addr) (sym (some-injective (sockaddr_at bytes) a (rw long at e)))
      ∙ omega (tests, long, length-take 16 (drop 8 bytes), length-drop 8 bytes)
]
