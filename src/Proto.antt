-- ===== src/Proto.antt =====
-- The wire protocol of the userland netstack (crates/psroot-netstack-proto/src/lib.rs): slot sizes,
-- flags, the compact socket address, the slot header and its packed arguments.
-- A `[u8; 16]` is a list of 16 bytes; a u16 or u32 field is a number.
pub mod Codes
pub mod Bytes
pub mod RoundTrip
use psroot.Prelude.{ℕ, ◌+◌, ◌-◌, Bool, not, List, [], ◌∷◌, ◌++◌, ◌==◌, get_or, replicate}
use Prim.Native.Nat.{bit_and}
use Codes.{OpCode, raw_op, StatusCode, raw_status}
use Bytes.{to_le16, from_le16, to_le32, from_le32}

abbrev pub slot_size : ℕ
slot_size = 4096

abbrev pub header_size : ℕ
header_size = 32

abbrev pub data_capacity : ℕ
data_capacity = slot_size - header_size

abbrev pub default_ring_slots : ℕ
default_ring_slots = 256

abbrev pub flag_more : ℕ
flag_more = 1

abbrev pub flag_reply_ok : ℕ
flag_reply_ok = 2

abbrev pub flag_event : ℕ
flag_event = 4

abbrev pub af_inet_v : ℕ
af_inet_v = 2

abbrev pub af_inet6_v : ℕ
af_inet6_v = 23

pub record SockAddrBytes : Type 0 where
  pub family : ℕ
  pub port : ℕ
  pub v6_flow : ℕ
  pub addr : List ℕ
  pub v6_scope : ℕ

abbrev pub zeroed : SockAddrBytes
zeroed = record { family = 0; port = 0; v6_flow = 0; addr = replicate 16 0; v6_scope = 0 }

-- `addr` are the four octets; the other twelve bytes stay zero.
abbrev pub sock_v4 : ℕ → ℕ → ℕ → ℕ → ℕ → SockAddrBytes
sock_v4 a b c d port = record zeroed {
  family = af_inet_v;
  port = port;
  addr = a ∷ b ∷ c ∷ d ∷ replicate 12 0;
}

abbrev pub sock_v6 : List ℕ → ℕ → ℕ → ℕ → SockAddrBytes
sock_v6 addr port flow scope = record {
  family = af_inet6_v;
  port = port;
  v6_flow = flow;
  addr = addr;
  v6_scope = scope;
}

pub record SlotHeader : Type 0 where
  pub opcode : ℕ
  pub flags : ℕ
  pub correlation : ℕ
  pub socket_id : ℕ
  pub payload_len : ℕ
  pub args : List ℕ

unfoldable pub new_header : OpCode → ℕ → SlotHeader
unfolding raw_op
new_header op correlation = record {
  opcode = raw_op op;
  flags = 0;
  correlation = correlation;
  socket_id = 0;
  payload_len = 0;
  args = replicate 16 0;
}

abbrev pub reply_ok : ℕ → ℕ → SlotHeader
reply_ok correlation socket_id = record {
  opcode = 0;
  flags = flag_reply_ok;
  correlation = correlation;
  socket_id = socket_id;
  payload_len = 0;
  args = replicate 16 0;
}

abbrev pub reply_err : ℕ → StatusCode → SlotHeader
reply_err correlation status = record {
  opcode = raw_status status;
  flags = 0;
  correlation = correlation;
  socket_id = 0;
  payload_len = 0;
  args = replicate 16 0;
}

-- `SlotHeader::is_ok`: the success bit of the flags is set.
abbrev pub is_ok : SlotHeader → Bool
is_ok h = not (bit_and h.flags flag_reply_ok == 0)

abbrev pub pack_socket_args : ℕ → ℕ → ℕ → ℕ → List ℕ
pack_socket_args af typ proto flags =
    to_le16 af ++ (to_le16 typ ++ (to_le32 proto ++ (to_le32 flags ++ replicate 4 0)))

-- The two and four bytes at an offset, as a word.
abbrev pub le16_at : List ℕ → ℕ → ℕ
le16_at a i = from_le16 (get_or a i 0) (get_or a (i + 1) 0)

abbrev pub le32_at : List ℕ → ℕ → ℕ
le32_at a i =
    from_le32 (get_or a i 0) (get_or a (i + 1) 0) (get_or a (i + 2) 0) (get_or a (i + 3) 0)

abbrev pub unpack_socket_args : List ℕ → ℕ × ℕ × ℕ × ℕ
unpack_socket_args a = (le16_at a 0, le16_at a 2, le32_at a 4, le32_at a 8)

abbrev pub pack_u32 : ℕ → List ℕ
pack_u32 v = to_le32 v ++ replicate 12 0

abbrev pub unpack_u32 : List ℕ → ℕ
unpack_u32 a = le32_at a 0
