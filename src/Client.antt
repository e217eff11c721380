-- ===== src/Client.antt =====
-- The shim's client of the daemon (crates/psroot-netshim/src/client.rs). The channel is a parameter:
-- how it posts a request and what it receives next. `patience` is the number of waits that fit the
-- request's deadline; when they are used up the request has timed out.
pub mod Methods
pub mod Loopback
pub mod Pieces
pub mod Transparent
pub mod Calls
pub mod Addresses
pub mod Sends
use Prim.Native.Nat.{bit_and}
use psroot.Prelude.{
  ℕ, zero, suc, ◌+◌, ◌%◌, ◌^◌, Bool, true, false, Option, none, some, List, [], ◌∷◌, ◌++◌, ltb,
  ◌==◌, if◌then◌else◌, length, take, drop,
}
use psroot.Proto.{SlotHeader, SockAddrBytes, is_ok, flag_more, le16_at, le32_at}
use psroot.Proto.Bytes.{to_le16, to_le32}
use psroot.Proto.Codes.{StatusCode, decode_status}
use psroot.Ring.{RingError}

-- The message of `ClientError::Protocol`.
pub data Complaint : Type 0 where
  ring_error correlation_mismatch bad_status bad_peer bad_sockaddr recvfrom_too_short : Complaint

pub data ClientError : Type 0 where
  io : ClientError
  status : StatusCode → ClientError
  protocol : Complaint → ClientError
  timeout : ClientError

pub data CResult {ℓ} (A : Type ℓ) : Type ℓ where
  ok : A → CResult A
  err : ClientError → CResult A

-- What `recv_blocking` returns: a message, nothing within the wait, or a failure.
pub data Arrival : Type 0 where
  message : SlotHeader → List ℕ → Arrival
  nothing failure : Arrival

pub record Channel (C : Type 0) : Type 0 where
  pub send : SlotHeader → List ℕ → C → Option RingError × C
  pub recv_blocking : C → Arrival × C

pub record Client (C : Type 0) : Type 0 where
  pub channel : C
  pub next_correlation : ℕ
  pub patience : ℕ

-- `ok_or(bad status)` and the status as an error.
abbrev pub status_error : Option StatusCode → ClientError
status_error none = ClientError.protocol Complaint.bad_status
status_error (some s) = ClientError.status s

module _ {C : Type 0} where
  -- The body of the loop for a message that arrived.
  abbrev pub on_message :
      ℕ
      → SlotHeader
      → List ℕ
      → List ℕ
      → C
      → (List ℕ → C → CResult (SlotHeader × List ℕ) × C)
      → CResult (SlotHeader × List ℕ) × C
  on_message cid rh rd combined c again =
      if rh.correlation == cid
      then if is_ok rh
        then if bit_and rh.flags flag_more == 0
          then (CResult.ok (rh, combined ++ rd), c)
          else again (combined ++ rd) c
        else (CResult.err (status_error (decode_status rh.opcode)), c)
      else (CResult.err (ClientError.protocol Complaint.correlation_mismatch), c)

  abbrev pub on_arrival :
      ℕ
      → Arrival × C
      → List ℕ
      → (List ℕ → C → CResult (SlotHeader × List ℕ) × C)
      → CResult (SlotHeader × List ℕ) × C
  on_arrival cid (Arrival.message rh rd, c) combined again = on_message cid rh rd combined c again
  on_arrival cid (Arrival.nothing, c) combined again = again combined c
  on_arrival cid (Arrival.failure, c) combined again = (CResult.err ClientError.io, c)

  unfoldable pub collect : Channel C → ℕ → ℕ → List ℕ → C → CResult (SlotHeader × List ℕ) × C
  unfolding decode_status
  collect chan cid zero combined c = (CResult.err ClientError.timeout, c)
  collect chan cid (suc patience) combined c =
      on_arrival cid (chan.recv_blocking c) combined (collect chan cid patience)

  abbrev pub sent :
      Channel C → Client C → Option RingError × C → CResult (SlotHeader × List ℕ) × Client C
  sent chan client (some e, c) =
      (CResult.err (ClientError.protocol Complaint.ring_error), record client { channel = c })
  sent chan client (none, c) =
      let (r, c') = collect chan client.next_correlation client.patience [] c in
      (r, record client { channel = c' })

  abbrev pub with_next :
      Client C
      → ℕ
      → CResult (SlotHeader × List ℕ) × Client C
      → CResult (SlotHeader × List ℕ) × Client C
  with_next client next (r, k) = (r, record k { next_correlation = next })

  -- `fetch_add` gives out the old value and wraps around at 2^32.
  unfoldable pub exchange :
      Channel C → SlotHeader → List ℕ → Client C → CResult (SlotHeader × List ℕ) × Client C
  unfolding collect
  exchange chan hdr bytes client =
      let cid = client.next_correlation in
      with_next client ((cid + 1) % 2 ^ 32)
        (sent chan client (chan.send (record hdr { correlation = cid }) bytes client.channel))

unfoldable pub sockaddr_bytes : SockAddrBytes → List ℕ
sockaddr_bytes a =
    to_le16 a.family ++ (to_le16 a.port ++ (to_le32 a.v6_flow ++ (a.addr ++ to_le32 a.v6_scope)))

unfoldable pub parse_sockaddr : List ℕ → Option SockAddrBytes
parse_sockaddr bytes =
    if ltb (length bytes) 28
    then none
    else some (record {
      family = le16_at bytes 0;
      port = le16_at bytes 2;
      v6_flow = le32_at bytes 4;
      addr = take 16 (drop 8 bytes);
      v6_scope = le32_at bytes 24;
    })
