-- ===== src/Proto/Codes.antt =====
-- Operation and status codes of the wire protocol (crates/psroot-netstack-proto/src/lib.rs).
use psroot.Prelude.{ℕ, Option, none, some, ◌==◌, if◌then◌else◌}

pub data OpCode : Type 0 where
  hello socket bind connect listen accept send recv close shutdown : OpCode
  get_sock_name get_peer_name set_sock_opt get_sock_opt : OpCode
  resolve send_to recv_from bye : OpCode

-- `op as u16`
unfoldable pub raw_op : OpCode → ℕ
raw_op OpCode.hello = 0x0001
raw_op OpCode.socket = 0x0010
raw_op OpCode.bind = 0x0011
raw_op OpCode.connect = 0x0012
raw_op OpCode.listen = 0x0013
raw_op OpCode.accept = 0x0014
raw_op OpCode.send = 0x0015
raw_op OpCode.recv = 0x0016
raw_op OpCode.close = 0x0017
raw_op OpCode.shutdown = 0x0018
raw_op OpCode.get_sock_name = 0x0019
raw_op OpCode.get_peer_name = 0x001A
raw_op OpCode.set_sock_opt = 0x001B
raw_op OpCode.get_sock_opt = 0x001C
raw_op OpCode.resolve = 0x0030
raw_op OpCode.send_to = 0x0040
raw_op OpCode.recv_from = 0x0041
raw_op OpCode.bye = 0xFFFE

-- `OpCode::from_raw`
unfoldable pub op_from_raw : ℕ → Option OpCode
op_from_raw v =
    if v == 0x0001
    then some OpCode.hello
    else if v == 0x0010
    then some OpCode.socket
    else if v == 0x0011
    then some OpCode.bind
    else if v == 0x0012
    then some OpCode.connect
    else if v == 0x0013
    then some OpCode.listen
    else if v == 0x0014
    then some OpCode.accept
    else if v == 0x0015
    then some OpCode.send
    else if v == 0x0016
    then some OpCode.recv
    else if v == 0x0017
    then some OpCode.close
    else if v == 0x0018
    then some OpCode.shutdown
    else if v == 0x0019
    then some OpCode.get_sock_name
    else if v == 0x001A
    then some OpCode.get_peer_name
    else if v == 0x001B
    then some OpCode.set_sock_opt
    else if v == 0x001C
    then some OpCode.get_sock_opt
    else if v == 0x0030
    then some OpCode.resolve
    else if v == 0x0040
    then some OpCode.send_to
    else if v == 0x0041
    then some OpCode.recv_from
    else if v == 0xFFFE
    then some OpCode.bye
    else none

pub data StatusCode : Type 0 where
  unknown_op bad_socket would_block conn_refused not_supported host_error : StatusCode
  conn_reset too_large addr_in_use addr_not_avail : StatusCode

-- `status as u16`
unfoldable pub raw_status : StatusCode → ℕ
raw_status StatusCode.unknown_op = 1
raw_status StatusCode.bad_socket = 2
raw_status StatusCode.would_block = 3
raw_status StatusCode.conn_refused = 4
raw_status StatusCode.not_supported = 5
raw_status StatusCode.host_error = 6
raw_status StatusCode.conn_reset = 7
raw_status StatusCode.too_large = 8
raw_status StatusCode.addr_in_use = 9
raw_status StatusCode.addr_not_avail = 10

-- `decode_status` of the shim's client
unfoldable pub decode_status : ℕ → Option StatusCode
decode_status v =
    if v == 1
    then some StatusCode.unknown_op
    else if v == 2
    then some StatusCode.bad_socket
    else if v == 3
    then some StatusCode.would_block
    else if v == 4
    then some StatusCode.conn_refused
    else if v == 5
    then some StatusCode.not_supported
    else if v == 6
    then some StatusCode.host_error
    else if v == 7
    then some StatusCode.conn_reset
    else if v == 8
    then some StatusCode.too_large
    else if v == 9
    then some StatusCode.addr_in_use
    else if v == 10
    then some StatusCode.addr_not_avail
    else none
