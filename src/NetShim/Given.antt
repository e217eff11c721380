-- ===== src/NetShim/Given.antt =====
-- The addresses that the Winsock hooks give and take, and where their calls go
-- (crates/psroot-netshim/src/hooks.rs).
use psroot.Prelude.{
  ℕ, ◌-◌, ◌≡◌, ◌≢◌, inl, inr, refl, subst, Bool, true, false, Bool-cases, Option, none, some, List,
  ◌==◌, ltb, length, take, min,
}
use psroot.Proto.{SockAddrBytes, sock_v4, data_capacity}
use psroot.Client.{Channel}
use psroot.Client.Methods
use psroot.NetShim.{lookup}
use psroot.NetShim.Hooks.{CInt, Hooked, Shim, RawSockAddr, sockaddr_from_raw}
use psroot.NetShim.Names.{
  NameAnswer, raw_of, write_sockaddr, hook_getsockname, hook_getpeername, sendto_bytes, hook_sendto,
  sender, recvfrom_bytes, hook_recvfrom,
}
use psroot.NetShim.Routing.{StaysIn, answered-stays}

filled-injective : (r q : RawSockAddr) → NameAnswer.filled r ≡ NameAnswer.filled q → r ≡ q
filled-injective r q h = cc

-- A v4 address that a hook writes for the program, in whatever room, is read back as the same
-- address when the program hands it to a hook with the same length.
sockaddr_from_raw-write_sockaddr :
    (a b c d port n : ℕ) (r : RawSockAddr)
    → write_sockaddr (sock_v4 a b c d port) false (some (CInt.pos n)) ≡ NameAnswer.filled r
    → sockaddr_from_raw (some r) (CInt.pos n) ≡ some (sock_v4 a b c d port)
unfolding write_sockaddr sockaddr_from_raw
sockaddr_from_raw-write_sockaddr a b c d port n r h = elim (Bool-cases (ltb n 16)) [
  | inl small ↦ let f = rw small at h in cc
  | inr room ↦
      subst (λ x. sockaddr_from_raw (some x) (CInt.pos n) ≡ some (sock_v4 a b c d port))
        (filled-injective (raw_of (sock_v4 a b c d port)) r (rw room at h)) (rw room refl)
]

module _ {C : Type 0} (chan : Channel C) where
  sendto_bytes-stays :
      (buf : Option (List ℕ)) (len : CInt) (addr : Option SockAddrBytes) (virt : ℕ) (shim : Shim C)
      → (sendto_bytes chan buf len addr virt shim).0 ≢ Hooked.real_call
  sendto_bytes-stays none len addr virt shim e = cc
  sendto_bytes-stays (some buf) (CInt.negsuc n) addr virt shim e = cc
  sendto_bytes-stays (some buf) (CInt.pos n) none virt shim e = cc
  sendto_bytes-stays (some buf) (CInt.pos n) (some addr) virt shim e =
      answered-stays (λ sent. sent) shim
        (Methods.sendto chan virt addr (take (min n (data_capacity - 28)) buf) shim.client) e

  recvfrom_bytes-stays :
      (null_buf : Bool) (len : CInt) (null_from : Bool) (fromlen : Option CInt) (virt : ℕ)
      (shim : Shim C)
      → (recvfrom_bytes chan null_buf len null_from fromlen virt shim).0 ≢ Hooked.real_call
  recvfrom_bytes-stays true len null_from fromlen virt shim e = cc
  recvfrom_bytes-stays false (CInt.negsuc n) null_from fromlen virt shim e = cc
  recvfrom_bytes-stays false (CInt.pos n) null_from fromlen virt shim e =
      elim (Bool-cases (n == 0)) [
        | inl z ↦ let f = rw z at e in cc
        | inr p ↦
            answered-stays
              (λ (r : List ℕ × SockAddrBytes).
                (take (min (length r.0) n) r.0, sender null_from fromlen r.1))
              shim (Methods.recvfrom chan virt n shim.client) (rw p at e)
      ]

  -- When the shim is set up and not bypassed, no call of getsockname, getpeername, sendto or recvfrom
  -- on a handle that it made up reaches the system's sockets, whatever the arguments and the daemon's
  -- answer.
  names_stay :
      (shim : Shim C) (s virt : ℕ) (name : Option RawSockAddr) (len : CInt) (buf : Option (List ℕ))
      (null_buf null_name : Bool) (room : Option CInt)
      → lookup s shim.handles ≡ some virt
      → StaysIn (hook_getsockname chan s null_name room 0 (some shim))
        × StaysIn (hook_getpeername chan s null_name room 0 (some shim))
        × StaysIn (hook_sendto chan s buf len name len 0 (some shim))
        × StaysIn (hook_recvfrom chan s null_buf len null_name room 0 (some shim))
  unfolding hook_getsockname hook_getpeername hook_sendto hook_recvfrom lookup
  names_stay shim s virt name len buf null_buf null_name room known = rw known (
    answered-stays (λ addr. write_sockaddr addr null_name room) shim
        (Methods.getsockname chan virt shim.client),
    answered-stays (λ addr. write_sockaddr addr null_name room) shim
        (Methods.getpeername chan virt shim.client),
    sendto_bytes-stays buf len (sockaddr_from_raw name len) virt shim,
    recvfrom_bytes-stays null_buf len null_name room virt shim,
  )
