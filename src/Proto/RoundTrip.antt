-- ===== src/Proto/RoundTrip.antt =====
-- Writing and reading codes and packed arguments (crates/psroot-netstack-proto/src/lib.rs).
use psroot.Prelude.{ℕ, ◌^◌, ◌<◌, ◌≡◌, ◌↔◌, ◌∙◌, refl, sym, ap, true, false, some, arith}
use psroot.Proto.{
  reply_ok, reply_err, is_ok, pack_socket_args, unpack_socket_args, pack_u32, unpack_u32,
}
use psroot.Proto.Codes.{OpCode, raw_op, op_from_raw, StatusCode, raw_status, decode_status}

op_from_raw-raw_op : (op : OpCode) → op_from_raw (raw_op op) ≡ some op
unfolding op_from_raw raw_op
op_from_raw-raw_op OpCode.bye = refl
op_from_raw-raw_op _ = refl

raw_op-op_from_raw : (v : ℕ) (op : OpCode) → op_from_raw v ≡ some op → raw_op op ≡ v
unfolding op_from_raw raw_op
raw_op-op_from_raw v op h = ground arith

-- A raw u16 names the operation `op` exactly when it is the code that `op` is cast to: the decoder of
-- the daemon and the cast of the shim agree, and no other code decodes.
pub op_from_raw_iff : (v : ℕ) (op : OpCode) → (op_from_raw v ≡ some op) ↔ (raw_op op ≡ v)
op_from_raw_iff v op =
    (raw_op-op_from_raw v op, λ e. ap op_from_raw (sym e) ∙ op_from_raw-raw_op op)

pub decode_status-raw_status : (s : StatusCode) → decode_status (raw_status s) ≡ some s
unfolding decode_status raw_status
decode_status-raw_status StatusCode.unknown_op = refl
decode_status-raw_status _ = refl

-- The shim decodes a raw error code as the status `s` exactly when it is the code of `s`.
decode_status_iff : (v : ℕ) (s : StatusCode) → (decode_status v ≡ some s) ↔ (raw_status s ≡ v)
decode_status_iff v s = (back v s, λ e. ap decode_status (sym e) ∙ decode_status-raw_status s)
  where
    back : (w : ℕ) (t : StatusCode) → decode_status w ≡ some t → raw_status t ≡ w
    back w t h = unfold decode_status raw_status in ground arith

-- The arguments of a socket request, each in the range of its type, survive packing.
pub unpack-pack_socket_args :
    (af typ proto flags : ℕ)
    → af < 2 ^ 16
    → typ < 2 ^ 16
    → proto < 2 ^ 32
    → flags < 2 ^ 32
    → unpack_socket_args (pack_socket_args af typ proto flags) ≡ (af, typ, proto, flags)
unpack-pack_socket_args af typ proto flags ha ht hp hf = ground arith

pub unpack-pack_u32 : (v : ℕ) → v < 2 ^ 32 → unpack_u32 (pack_u32 v) ≡ v
unpack-pack_u32 v h = omega arith

-- A success reply is recognised as one, an error reply never is.
is_ok_replies :
    (c id : ℕ) (s : StatusCode) → (is_ok (reply_ok c id) ≡ true) × (is_ok (reply_err c s) ≡ false)
is_ok_replies c id s = (refl, refl)
