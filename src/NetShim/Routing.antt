-- ===== src/NetShim/Routing.antt =====
-- Which calls the Winsock hooks pass on to the system (crates/psroot-netshim/src/hooks.rs).
use psroot.Prelude.{
  ℕ, ◌≤◌, ◌≡◌, ◌≢◌, refl, ap, ap₂, Bool, true, false, Bool-cases, inl, inr, Option, none, some,
  List, ◌==◌, length, length-take, take, min, arith,
}
use psroot.Proto.{SockAddrBytes}
use psroot.Client.{CResult, Channel, Client}
use psroot.Client.Methods
use psroot.NetShim.{lookup, forget, is_bypassed}
use psroot.NetShim.Handles.{map_remove-absent}
use psroot.NetShim.Hooks.{
  CInt, Hooked, Shim, RawSockAddr, sockaddr_from_raw, with_socket, answered, with_address,
  hook_connect, hook_bind, hook_listen, send_bytes, hook_send, recv_bytes, hook_recv,
  hook_closesocket,
}

abbrev pub StaysIn : {C A : Type 0} → Hooked A × Option (Shim C) → Type 0
StaysIn r = r.0 ≢ Hooked.real_call

returned-ne-real_call : {A : Type 0} (x : A) → Hooked.returned x ≢ Hooked.real_call
returned-ne-real_call x e = cc

module _ {C A : Type 0} where
  pub answered-stays :
      {B : Type 0} (f : B → A) (shim : Shim C) (r : CResult B × Client C)
      → (answered f shim r).0 ≢ Hooked.real_call
  answered-stays f shim (CResult.ok x, k) e = cc
  answered-stays f shim (CResult.err x, k) e = cc

module _ {C : Type 0} (chan : Channel C) where
  with_address-stays :
      (o : Option SockAddrBytes) (f : SockAddrBytes → Client C → CResult (Unit {0}) × Client C)
      (shim : Shim C)
      → (with_address chan o f shim).0 ≢ Hooked.real_call
  with_address-stays none f shim e = cc
  with_address-stays (some a) f shim e = answered-stays (λ u. 0) shim (f a shim.client) e

  send_bytes-stays :
      (buf : Option (List ℕ)) (len : CInt) (virt : ℕ) (shim : Shim C)
      → (send_bytes chan buf len virt shim).0 ≢ Hooked.real_call
  send_bytes-stays none len virt shim e = cc
  send_bytes-stays (some buf) (CInt.negsuc n) virt shim e = cc
  send_bytes-stays (some buf) (CInt.pos n) virt shim e =
      answered-stays (λ sent. sent) shim
        (Methods.send chan virt (take (min n 4064) buf) shim.client) e

  recv_bytes-stays :
      (null_buf : Bool) (len : CInt) (virt : ℕ) (shim : Shim C)
      → (recv_bytes chan null_buf len virt shim).0 ≢ Hooked.real_call
  recv_bytes-stays true len virt shim e = cc
  recv_bytes-stays false (CInt.negsuc n) virt shim e = cc
  recv_bytes-stays false (CInt.pos n) virt shim e = elim (Bool-cases (n == 0)) [
    | inl z ↦ let f = rw z at e in cc
    | inr p ↦
        answered-stays (λ bytes. take (min (length bytes) n) bytes) shim
          (Methods.recv chan virt n shim.client) (rw p at e)
  ]

  -- When the shim is set up and not bypassed, no call on a handle that it made up reaches the system's
  -- sockets: each of these hooks answers it or fails it, whatever the arguments and the daemon's answer.
  pub known_stays :
      (shim : Shim C) (s virt : ℕ) (name : Option RawSockAddr) (len : CInt) (buf : Option (List ℕ))
      (null_buf : Bool)
      → lookup s shim.handles ≡ some virt
      → StaysIn (hook_connect chan s name len 0 (some shim))
        × StaysIn (hook_bind chan s name len 0 (some shim))
        × StaysIn (hook_listen chan s len 0 (some shim))
        × StaysIn (hook_send chan s buf len 0 (some shim))
        × StaysIn (hook_recv chan s null_buf len 0 (some shim))
        × StaysIn (hook_closesocket chan s 0 (some shim))
  unfolding hook_connect hook_bind hook_listen hook_send hook_recv hook_closesocket lookup forget
  known_stays shim s virt name len buf null_buf known = rw known (
    with_address-stays (sockaddr_from_raw name len) (Methods.connect chan virt) shim,
    with_address-stays (sockaddr_from_raw name len) (Methods.bind chan virt) shim,
    answered-stays (λ u. 0) shim (Methods.listen chan virt _ shim.client),
    send_bytes-stays buf len virt shim,
    recv_bytes-stays null_buf len virt shim,
    returned-ne-real_call 0,
  )

  -- A call on a handle that the shim did not make is passed on to the system and leaves the shim as it
  -- was, by each of these hooks.
  unknown_passes :
      (shim : Shim C) (s bypass : ℕ) (name : Option RawSockAddr) (len : CInt)
      (buf : Option (List ℕ)) (null_buf : Bool)
      → lookup s shim.handles ≡ none
      → (hook_connect chan s name len bypass (some shim) ≡ (Hooked.real_call, some shim))
        × (hook_bind chan s name len bypass (some shim) ≡ (Hooked.real_call, some shim))
        × (hook_listen chan s len bypass (some shim) ≡ (Hooked.real_call, some shim))
        × (hook_send chan s buf len bypass (some shim) ≡ (Hooked.real_call, some shim))
        × (hook_recv chan s null_buf len bypass (some shim) ≡ (Hooked.real_call, some shim))
        × (hook_closesocket chan s bypass (some shim) ≡ (Hooked.real_call, some shim))
  unfolding hook_connect hook_bind hook_listen hook_send hook_recv hook_closesocket lookup forget
  unknown_passes shim s bypass name len buf null_buf unknown =
      elim (Bool-cases (is_bypassed bypass)) [
        | inl in_hook ↦ rw in_hook (refl, refl, refl, refl, refl, refl)
        | inr outside ↦
            rw (outside, unknown)
              (
                refl,
                refl,
                refl,
                refl,
                refl,
                ap
                    (λ es. (
                      Hooked.real_call,
                      some (record {
                        handles = record { sockets = es; next_fake = shim.handles.next_fake };
                        client = shim.client;
                      }),
                    ))
                    (map_remove-absent s shim.handles.sockets unknown),
              )
      ]

  answered-bounded :
      (n : ℕ) (shim t : Shim C) (r : CResult (List ℕ) × Client C) (bytes : List ℕ)
      → answered (λ xs. take (min (length xs) n) xs) shim r ≡ (Hooked.returned bytes, t)
      → length bytes ≤ n
  answered-bounded n shim t (CResult.err x, k) bytes e = cc
  answered-bounded n shim t (CResult.ok xs, k) bytes e =
      omega (
        arith,
        length-take (min (length xs) n) xs,
        ap (λ (x : Hooked (List ℕ) × Shim C). size x.0) e,
      )
    where
      size : Hooked (List ℕ) → ℕ
      size (Hooked.returned ys) = length ys
      size _ = 0

  recv_bytes-bounded :
      (null_buf : Bool) (n virt : ℕ) (shim t : Shim C) (bytes : List ℕ)
      → recv_bytes chan null_buf (CInt.pos n) virt shim ≡ (Hooked.returned bytes, t)
      → length bytes ≤ n
  recv_bytes-bounded true n virt shim t bytes e = cc
  recv_bytes-bounded false n virt shim t bytes e = elim (Bool-cases (n == 0)) [
    | inl z ↦ let f = rw z at e in cc
    | inr p ↦ answered-bounded n shim t (Methods.recv chan virt n shim.client) bytes (rw p at e)
  ]

  with_socket-bounded :
      (o : Option ℕ) (null_buf : Bool) (n : ℕ) (shim t : Shim C) (bytes : List ℕ)
      → with_socket o shim (recv_bytes chan null_buf (CInt.pos n)) ≡ (Hooked.returned bytes, t)
      → length bytes ≤ n
  with_socket-bounded none null_buf n shim t bytes e = cc
  with_socket-bounded (some virt) null_buf n shim t bytes e =
      recv_bytes-bounded null_buf n virt shim t bytes e

  -- A receive hook writes at most as many bytes as the caller's buffer holds, whatever the daemon sends.
  hook_recv-bounded :
      (shim t : Shim C) (s n bypass : ℕ) (null_buf : Bool) (bytes : List ℕ)
      → hook_recv chan s null_buf (CInt.pos n) bypass (some shim) ≡ (Hooked.returned bytes, some t)
      → length bytes ≤ n
  unfolding hook_recv
  hook_recv-bounded shim t s n bypass null_buf bytes e = elim (Bool-cases (is_bypassed bypass)) [
    | inl in_hook ↦ let f = rw in_hook at e in cc
    | inr outside ↦
        with_socket-bounded (lookup s shim.handles) null_buf n shim
          (with_socket (lookup s shim.handles) shim (recv_bytes chan null_buf (CInt.pos n))).1 bytes
          (ap₂ same_shim (ap (λ (x : Hooked (List ℕ) × Option (Shim C)). x.0) (rw outside at e))
            refl)
  ]
    where
      same_shim : Hooked (List ℕ) → Shim C → Hooked (List ℕ) × Shim C
      same_shim h k = (h, k)
