-- ===== src/NetShim/Names.antt =====
-- The Winsock hooks that take or give an address (crates/psroot-netshim/src/hooks.rs): getsockname,
-- getpeername, sendto and recvfrom. A pointer the hook writes through is whether it is null.
use psroot.Prelude.{
  ℕ, ◌-◌, min, Bool, true, false, Option, none, some, List, ◌==◌, ltb, if◌then◌else◌, length, take,
  get_or,
}
use psroot.Proto.{SockAddrBytes, data_capacity, af_inet_v}
use psroot.Client.{Channel}
use psroot.Client.Methods
use psroot.NetShim.{lookup}
use psroot.NetShim.Hooks.{
  CInt, WsaError, Hooked, Shim, RawSockAddr, sockaddr_from_raw, routed, answered,
}

-- What is done with an address to be given: `filled` returns 0, writes the address and sets
-- `*out_len` to 16; `too_small` fails with WSAEFAULT and sets `*out_len` to 16; `null_out` fails with
-- WSAEFAULT and writes nothing.
pub data NameAnswer : Type 0 where
  filled : RawSockAddr → NameAnswer
  too_small null_out : NameAnswer

abbrev pub raw_of : SockAddrBytes → RawSockAddr
raw_of addr = record {
  family = af_inet_v;
  port = addr.port;
  a = get_or addr.addr 0 0;
  b = get_or addr.addr 1 0;
  c = get_or addr.addr 2 0;
  d = get_or addr.addr 3 0;
}

unfoldable pub write_sockaddr : SockAddrBytes → Bool → Option CInt → NameAnswer
write_sockaddr addr true out_len = NameAnswer.null_out
write_sockaddr addr false none = NameAnswer.null_out
write_sockaddr addr false (some (CInt.negsuc n)) = NameAnswer.too_small
write_sockaddr addr false (some (CInt.pos n)) =
    if ltb n 16 then NameAnswer.too_small else NameAnswer.filled (raw_of addr)

-- The sender is written if the caller wants it; that it cannot be written is no failure.
abbrev pub sender : Bool → Option CInt → SockAddrBytes → Option NameAnswer
sender true fromlen peer = none
sender false none peer = none
sender false (some l) peer = some (write_sockaddr peer false (some l))

module _ {C : Type 0} (chan : Channel C) where
  unfoldable pub hook_getsockname :
      ℕ → Bool → Option CInt → ℕ → Option (Shim C) → Hooked NameAnswer × Option (Shim C)
  unfolding lookup
  hook_getsockname s null_name namelen bypass state = routed bypass state s (λ virt shim.
      answered (λ addr. write_sockaddr addr null_name namelen) shim
        (Methods.getsockname chan virt shim.client))

  unfoldable pub hook_getpeername :
      ℕ → Bool → Option CInt → ℕ → Option (Shim C) → Hooked NameAnswer × Option (Shim C)
  unfolding lookup
  hook_getpeername s null_name namelen bypass state = routed bypass state s (λ virt shim.
      answered (λ addr. write_sockaddr addr null_name namelen) shim
        (Methods.getpeername chan virt shim.client))

  -- The address goes before the bytes in the slot, so 28 bytes less than a slot's worth are sent.
  abbrev pub send_to : List ℕ → ℕ → Option SockAddrBytes → ℕ → Shim C → Hooked ℕ × Shim C
  send_to buf n none virt shim = (Hooked.fails WsaError.fault, shim)
  send_to buf n (some addr) virt shim =
      answered (λ sent. sent) shim
        (Methods.sendto chan virt addr (take (min n (data_capacity - 28)) buf) shim.client)

  abbrev pub sendto_bytes :
      Option (List ℕ) → CInt → Option SockAddrBytes → ℕ → Shim C → Hooked ℕ × Shim C
  sendto_bytes none len addr virt shim = (Hooked.fails WsaError.fault, shim)
  sendto_bytes (some buf) (CInt.negsuc n) addr virt shim = (Hooked.fails WsaError.fault, shim)
  sendto_bytes (some buf) (CInt.pos n) addr virt shim = send_to buf n addr virt shim

  unfoldable pub hook_sendto :
      ℕ
      → Option (List ℕ)
      → CInt
      → Option RawSockAddr
      → CInt
      → ℕ
      → Option (Shim C)
      → Hooked ℕ × Option (Shim C)
  unfolding lookup
  hook_sendto s buf len to tolen bypass state =
      routed bypass state s (sendto_bytes buf len (sockaddr_from_raw to tolen))

  abbrev pub recvfrom_bytes :
      Bool → CInt → Bool → Option CInt → ℕ → Shim C → Hooked (List ℕ × Option NameAnswer) × Shim C
  recvfrom_bytes true len null_from fromlen virt shim = (Hooked.fails WsaError.fault, shim)
  recvfrom_bytes false (CInt.negsuc n) null_from fromlen virt shim =
      (Hooked.fails WsaError.fault, shim)
  recvfrom_bytes false (CInt.pos n) null_from fromlen virt shim =
      if n == 0
      then (Hooked.fails WsaError.fault, shim)
      else answered
          (λ (r : List ℕ × SockAddrBytes).
            (take (min (length r.0) n) r.0, sender null_from fromlen r.1))
          shim (Methods.recvfrom chan virt n shim.client)

  unfoldable pub hook_recvfrom :
      ℕ
      → Bool
      → CInt
      → Bool
      → Option CInt
      → ℕ
      → Option (Shim C)
      → Hooked (List ℕ × Option NameAnswer) × Option (Shim C)
  unfolding lookup
  hook_recvfrom s null_buf len null_from fromlen bypass state =
      routed bypass state s (recvfrom_bytes null_buf len null_from fromlen)
