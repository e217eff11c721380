-- ===== src/Daemon/SockAddr.antt =====
-- Socket addresses in a payload (crates/psroot-netstack-host/src/daemon.rs): 28 bytes.
use psroot.Prelude.{ℕ, Option, none, some, List, ◌++◌, length, ltb, if◌then◌else◌, take, drop}
use psroot.Proto.{SockAddrBytes, le16_at, le32_at}
use psroot.Proto.Bytes.{to_le16, to_le32}

unfoldable pub write_sockaddr : SockAddrBytes → List ℕ
write_sockaddr a =
    to_le16 a.family ++ (to_le16 a.port ++ (to_le32 a.v6_flow ++ (a.addr ++ to_le32 a.v6_scope)))

abbrev pub sockaddr_at : List ℕ → SockAddrBytes
sockaddr_at bytes = record {
  family = le16_at bytes 0;
  port = le16_at bytes 2;
  v6_flow = le32_at bytes 4;
  addr = take 16 (drop 8 bytes);
  v6_scope = le32_at bytes 24;
}

unfoldable pub read_sockaddr : List ℕ → Option SockAddrBytes
read_sockaddr bytes = if ltb (length bytes) 28 then none else some (sockaddr_at bytes)
