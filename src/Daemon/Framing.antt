-- ===== src/Daemon/Framing.antt =====
-- The frame of an answer (crates/psroot-netstack-host/src/daemon.rs): replies that echo the
-- correlation and fit a slot, all but the last marked with FLAG_MORE.
use Prim.Native.Nat.{bit_and}
use psroot.Prelude.{
  ℕ, zero, suc, ◌+◌, ◌-◌, ◌≤◌, ◌<◌, ◌≡◌, ◌≢◌, refl, Bool, true, false, Bool-cases, inl, inr, List,
  [], ◌∷◌, ◌++◌, leb, ◌==◌, length, length-append, length-take, length-drop, take, drop, min,
  take_all, drop_all, ne-nil_of_pos, pos_of_ne-nil, ==_self, ne→==, leb→le, leb→lt, tests, arith,
}
use psroot.Proto.{SlotHeader, SockAddrBytes, reply_ok, is_ok, data_capacity, flag_more}
use psroot.Ring.Queue.{Message}
use psroot.Daemon.{with_more, fragments, recv_replies, recvfrom_replies, first_payload_cap}
use psroot.Daemon.SockAddr.{write_sockaddr}
use psroot.Daemon.Address.{length-write_sockaddr}

-- `flags & FLAG_MORE == 0`: no fragment follows.
abbrev pub is_last : SlotHeader → Bool
is_last h = bit_and h.flags flag_more == 0

-- A reply to `correlation` that fits one slot.
abbrev pub Fits : ℕ → Message → Type 0
Fits correlation m = (m.0.correlation ≡ correlation) × (length m.1 ≤ data_capacity)

-- One answer: any number of success replies marked "more", then one that is not.
abbrev pub IsFramed : ℕ → List Message → Type 0
IsFramed correlation [] = ⊥
IsFramed correlation (m ∷ []) = Fits correlation m × (is_last m.0 ≡ true)
IsFramed correlation (m ∷ n ∷ ms) =
    Fits correlation m × (is_last m.0 ≡ false) × (is_ok m.0 ≡ true) × IsFramed correlation (n ∷ ms)

IsFramed-cons :
    (correlation : ℕ) (m : Message) (ms : List Message)
    → Fits correlation m
    → is_last m.0 ≡ false
    → is_ok m.0 ≡ true
    → IsFramed correlation ms
    → IsFramed correlation (m ∷ ms)
IsFramed-cons correlation m [] fits more good f = absurd f
IsFramed-cons correlation m (n ∷ ms) fits more good f = (fits, more, good, f)

module _ (correlation socket_id : ℕ) where
  fragments-nil : (fuel : ℕ) → fragments correlation socket_id fuel [] ≡ []
  unfolding fragments
  fragments-nil zero = refl
  fragments-nil (suc fuel) = refl

  -- What is left fits a slot: one message, not marked.
  pub fragments_last :
      (fuel : ℕ) (bytes : List ℕ)
      → bytes ≢ []
      → length bytes ≤ data_capacity
      → fragments correlation socket_id (suc fuel) bytes
        ≡ (reply_ok correlation socket_id, bytes) ∷ []
  unfolding fragments
  fragments_last fuel [] ne fits = absurd (ne refl)
  fragments_last fuel (x ∷ xs) ne fits =
      let whole : min (length (x ∷ xs)) data_capacity ≡ length (x ∷ xs) = omega arith in
      rw
        (
          whole,
          ==_self (length (x ∷ xs)),
          take_all (length (x ∷ xs)) (x ∷ xs) (omega arith),
          drop_all (length (x ∷ xs)) (x ∷ xs) (omega arith),
          fragments-nil fuel,
        )
        refl

  -- What is left is longer: a full slot, marked, and the fragments of the rest.
  pub fragments_more :
      (fuel : ℕ) (bytes : List ℕ)
      → data_capacity < length bytes
      → fragments correlation socket_id (suc fuel) bytes
        ≡ (with_more (reply_ok correlation socket_id), take data_capacity bytes)
          ∷ fragments correlation socket_id fuel (drop data_capacity bytes)
  unfolding fragments
  fragments_more fuel [] long = absurd (omega arith)
  fragments_more fuel (x ∷ xs) long =
      let whole : min (length (x ∷ xs)) data_capacity ≡ data_capacity = omega arith in
      rw (whole, ne→== data_capacity (length (x ∷ xs)) (omega arith)) refl

  fragments-IsFramed :
      (fuel : ℕ) (bytes : List ℕ)
      → bytes ≢ []
      → length bytes ≤ fuel
      → IsFramed correlation (fragments correlation socket_id fuel bytes)
  fragments-IsFramed zero bytes ne h = absurd (omega (arith, pos_of_ne-nil bytes ne))
  fragments-IsFramed (suc fuel) bytes ne h = elim (Bool-cases (leb (length bytes) data_capacity)) [
    | inl short ↦
        rw (fragments_last fuel bytes ne (leb→le _ _ short)) ((refl, leb→le _ _ short), refl)
    | inr long ↦
        let left : length (drop data_capacity bytes) ≡ length bytes - data_capacity =
          length-drop data_capacity bytes in
        let more : data_capacity < length bytes = leb→lt _ _ long in
        rw (fragments_more fuel bytes more) (
          IsFramed-cons correlation
            (with_more (reply_ok correlation socket_id), take data_capacity bytes)
            (fragments correlation socket_id fuel (drop data_capacity bytes))
            (refl, omega (arith, length-take data_capacity bytes)) refl refl
            (fragments-IsFramed fuel (drop data_capacity bytes)
              (ne-nil_of_pos (drop data_capacity bytes) (omega arith)) (omega arith)))
  ]

  pub recv_replies-IsFramed :
      (bytes : List ℕ) → IsFramed correlation (recv_replies correlation socket_id bytes)
  unfolding recv_replies
  recv_replies-IsFramed [] = ((refl, omega arith), refl)
  recv_replies-IsFramed (x ∷ xs) =
      fragments-IsFramed (length (x ∷ xs)) (x ∷ xs) (ne-nil_of_pos (x ∷ xs) (omega arith))
        (omega arith)

  pub recvfrom_replies-IsFramed :
      (bytes : List ℕ) (peer : SockAddrBytes)
      → length peer.addr ≡ 16
      → IsFramed correlation (recvfrom_replies correlation socket_id bytes peer)
  unfolding recvfrom_replies
  recvfrom_replies-IsFramed bytes peer h =
      let k = length-write_sockaddr peer h in
      elim (Bool-cases (leb (28 + length bytes) data_capacity)) [
        | inl short ↦
            rw short
              ((refl, omega (tests, short, k, length-append (write_sockaddr peer) bytes)), refl)
        | inr long ↦ rw long (
            IsFramed-cons correlation
              (
                with_more (reply_ok correlation socket_id),
                write_sockaddr peer ++ take first_payload_cap bytes,
              )
              (fragments correlation socket_id (length bytes) (drop first_payload_cap bytes))
              (
                refl,
                omega (
                  arith,
                  k,
                  length-append (write_sockaddr peer) (take first_payload_cap bytes),
                  length-take first_payload_cap bytes,
                ),
              )
              refl refl
              (fragments-IsFramed (length bytes) (drop first_payload_cap bytes)
                (ne-nil_of_pos (drop first_payload_cap bytes)
                  (omega (tests, long, length-drop first_payload_cap bytes)))
                (omega (arith, length-drop first_payload_cap bytes))))
      ]
