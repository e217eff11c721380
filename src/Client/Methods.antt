-- ===== src/Client/Methods.antt =====
-- The Winsock-shaped methods of the client (crates/psroot-netshim/src/client.rs).
use psroot.Prelude.{ℕ, Option, none, some, List, [], ◌++◌, ltb, if◌then◌else◌, length, take, drop}
use psroot.Proto.{SlotHeader, SockAddrBytes, new_header, pack_socket_args, pack_u32, unpack_u32}
use psroot.Proto.Codes.{OpCode}
use psroot.Client.{
  ClientError, Complaint, CResult, Channel, Client, exchange, sockaddr_bytes, parse_sockaddr,
}

-- A request about a socket, without arguments.
abbrev pub request : OpCode → ℕ → SlotHeader
request op socket_id = record (new_header op 0) { socket_id = socket_id }

abbrev pub request_with : OpCode → ℕ → List ℕ → SlotHeader
request_with op socket_id args = record (new_header op 0) { socket_id = socket_id; args = args }

module _ {K : Type 0} where
  abbrev pub map_reply :
      {A : Type 0}
      → (SlotHeader → List ℕ → CResult A)
      → CResult (SlotHeader × List ℕ) × K
      → CResult A × K
  map_reply f (CResult.ok r, k) = (f r.0 r.1, k)
  map_reply f (CResult.err e, k) = (CResult.err e, k)

abbrev pub no_result : SlotHeader → List ℕ → CResult (Unit {0})
no_result rh bytes = CResult.ok tt

-- `u32::from_le_bytes` of the first four argument bytes.
abbrev pub number : SlotHeader → List ℕ → CResult ℕ
number rh bytes = CResult.ok (unpack_u32 rh.args)

abbrev pub ok_or : {A : Type 0} → Complaint → Option A → CResult A
ok_or c none = CResult.err (ClientError.protocol c)
ok_or c (some a) = CResult.ok a

abbrev pub with_id : {A : Type 0} → ℕ → CResult A → CResult (ℕ × A)
with_id id (CResult.ok a) = CResult.ok (id, a)
with_id id (CResult.err e) = CResult.err e

abbrev pub with_bytes : {A : Type 0} → List ℕ → CResult A → CResult (List ℕ × A)
with_bytes bytes (CResult.ok a) = CResult.ok (bytes, a)
with_bytes bytes (CResult.err e) = CResult.err e

-- The datagram and its sender from a reply of `recvfrom`.
abbrev pub datagram : SlotHeader → List ℕ → CResult (List ℕ × SockAddrBytes)
datagram rh bytes =
    if ltb (length bytes) 28
    then CResult.err (ClientError.protocol Complaint.recvfrom_too_short)
    else with_bytes (drop 28 bytes) (ok_or Complaint.bad_peer (parse_sockaddr (take 28 bytes)))

module _ {C : Type 0} (chan : Channel C) where
  unfoldable pub hello : Client C → CResult ℕ × Client C
  hello k = map_reply number (exchange chan (new_header OpCode.hello 0) [] k)

  unfoldable pub socket : ℕ → ℕ → ℕ → Client C → CResult ℕ × Client C
  socket af typ proto k =
      map_reply (λ rh bytes. CResult.ok rh.socket_id)
        (exchange chan (request_with OpCode.socket 0 (pack_socket_args af typ proto 0)) [] k)

  unfoldable pub bind : ℕ → SockAddrBytes → Client C → CResult (Unit {0}) × Client C
  bind socket_id addr k =
      map_reply no_result (exchange chan (request OpCode.bind socket_id) (sockaddr_bytes addr) k)

  unfoldable pub connect : ℕ → SockAddrBytes → Client C → CResult (Unit {0}) × Client C
  connect socket_id addr k =
      map_reply no_result (exchange chan (request OpCode.connect socket_id) (sockaddr_bytes addr) k)

  unfoldable pub listen : ℕ → ℕ → Client C → CResult (Unit {0}) × Client C
  listen socket_id backlog k =
      map_reply no_result
        (exchange chan (request_with OpCode.listen socket_id (pack_u32 backlog)) [] k)

  unfoldable pub accept : ℕ → Client C → CResult (ℕ × SockAddrBytes) × Client C
  accept socket_id k =
      map_reply (λ rh bytes. with_id rh.socket_id (ok_or Complaint.bad_peer (parse_sockaddr bytes)))
        (exchange chan (request OpCode.accept socket_id) [] k)

  unfoldable pub send : ℕ → List ℕ → Client C → CResult ℕ × Client C
  send socket_id bytes k = map_reply number (exchange chan (request OpCode.send socket_id) bytes k)

  unfoldable pub recv : ℕ → ℕ → Client C → CResult (List ℕ) × Client C
  recv socket_id max k =
      map_reply (λ rh bytes. CResult.ok bytes)
        (exchange chan (request_with OpCode.recv socket_id (pack_u32 max)) [] k)

  unfoldable pub close : ℕ → Client C → CResult (Unit {0}) × Client C
  close socket_id k = map_reply no_result (exchange chan (request OpCode.close socket_id) [] k)

  unfoldable pub shutdown : ℕ → ℕ → Client C → CResult (Unit {0}) × Client C
  shutdown socket_id how k =
      map_reply no_result
        (exchange chan (request_with OpCode.shutdown socket_id (pack_u32 how)) [] k)

  unfoldable pub getsockname : ℕ → Client C → CResult SockAddrBytes × Client C
  getsockname socket_id k =
      map_reply (λ rh bytes. ok_or Complaint.bad_sockaddr (parse_sockaddr bytes))
        (exchange chan (request OpCode.get_sock_name socket_id) [] k)

  unfoldable pub getpeername : ℕ → Client C → CResult SockAddrBytes × Client C
  getpeername socket_id k =
      map_reply (λ rh bytes. ok_or Complaint.bad_sockaddr (parse_sockaddr bytes))
        (exchange chan (request OpCode.get_peer_name socket_id) [] k)

  unfoldable pub sendto : ℕ → SockAddrBytes → List ℕ → Client C → CResult ℕ × Client C
  sendto socket_id addr bytes k =
      map_reply number
        (exchange chan (request OpCode.send_to socket_id) (sockaddr_bytes addr ++ bytes) k)

  unfoldable pub recvfrom : ℕ → ℕ → Client C → CResult (List ℕ × SockAddrBytes) × Client C
  recvfrom socket_id max k =
      map_reply datagram
        (exchange chan (request_with OpCode.recv_from socket_id (pack_u32 max)) [] k)
