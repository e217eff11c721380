-- ===== src/Client/Pieces.antt =====
-- The fragments of an answer (crates/psroot-netstack-host/src/daemon.rs), as the client puts them
-- together again.
use psroot.Prelude.{
  ℕ, zero, suc, ◌+◌, ◌-◌, ◌/◌, ◌≤◌, ◌<◌, ◌≡◌, ◌≢◌, refl, ap, ◌∙◌, Bool-cases, inl, inr, List, [],
  ◌∷◌, ◌++◌, append-nil, append_assoc, leb, length, length-drop, take, drop, take-append-drop,
  ne-nil_of_pos, pos_of_ne-nil, leb→le, leb→lt, All, arith, tests,
}
use psroot.Proto.{SlotHeader, SockAddrBytes, reply_ok, data_capacity}
use psroot.Ring.Queue.{Message}
use psroot.Daemon.{with_more, fragments, recv_replies, recvfrom_replies, first_payload_cap}
use psroot.Daemon.SockAddr.{write_sockaddr}
use psroot.Daemon.Framing.{fragments_last, fragments_more}
use psroot.Client.Loopback.{payloads, last_header, IsOk}

-- What the client needs of the messages that carry some bytes: all are successes, together they are
-- the bytes, the last has the plain header, and there are at most as many as a bound.
pub record Carries (correlation socket_id bound : ℕ) (bytes : List ℕ) (ms : List Message)
    : Type 0 where
  pub oks : All IsOk ms
  pub whole : payloads ms ≡ bytes
  pub header : (h : SlotHeader) → last_header h ms ≡ reply_ok correlation socket_id
  pub few : length ms ≤ bound

module _ (correlation socket_id : ℕ) where
  Carries-one :
      (bytes : List ℕ) (bound : ℕ)
      → 0 < bound
      → Carries correlation socket_id bound bytes ((reply_ok correlation socket_id, bytes) ∷ [])
  Carries-one bytes bound h = record {
    oks = (refl, tt);
    whole = append-nil bytes;
    header = λ h. refl;
    few = omega arith;
  }

  Carries-more :
      (first rest : List ℕ) (bound : ℕ) (ms : List Message)
      → Carries correlation socket_id bound rest ms
      → Carries correlation socket_id
          (suc bound)
          (first ++ rest)
          ((with_more (reply_ok correlation socket_id), first) ∷ ms)
  Carries-more first rest bound ms c = record {
    oks = (refl, c.oks);
    whole = ap (λ l. first ++ l) c.whole;
    header = λ h. c.header (with_more (reply_ok correlation socket_id));
    few = omega (arith, c.few);
  }

  Carries-eq :
      (bound bound' : ℕ) (bytes bytes' : List ℕ) (ms : List Message)
      → bound ≤ bound'
      → bytes ≡ bytes'
      → Carries correlation socket_id bound bytes ms
      → Carries correlation socket_id bound' bytes' ms
  Carries-eq bound bound' bytes bytes' ms le e c = record {
    oks = c.oks;
    whole = c.whole ∙ e;
    header = c.header;
    few = omega (arith, c.few);
  }

  fragments-Carries :
      (fuel : ℕ) (bytes : List ℕ)
      → bytes ≢ []
      → length bytes ≤ fuel
      → Carries correlation socket_id
          (suc (length bytes / data_capacity))
          bytes
          (fragments correlation socket_id fuel bytes)
  fragments-Carries zero bytes ne h = absurd (omega (arith, pos_of_ne-nil bytes ne))
  fragments-Carries (suc fuel) bytes ne h = elim (Bool-cases (leb (length bytes) data_capacity)) [
    | inl short ↦
        rw (fragments_last correlation socket_id fuel bytes ne (leb→le _ _ short))
          (Carries-one bytes (suc (length bytes / data_capacity)) (omega arith))
    | inr long ↦
        let more : data_capacity < length bytes = leb→lt _ _ long in
        let rest = drop data_capacity bytes in
        let left : length rest ≡ length bytes - data_capacity = length-drop data_capacity bytes in
        let tail = fragments correlation socket_id fuel rest in
        let rec : Carries correlation socket_id (suc (length rest / data_capacity)) rest tail =
          fragments-Carries fuel rest (ne-nil_of_pos rest (omega arith)) (omega arith) in
        rw (fragments_more correlation socket_id fuel bytes more) (
          Carries-eq (suc (suc (length rest / data_capacity))) (suc (length bytes / data_capacity))
            (take data_capacity bytes ++ rest) bytes _ (omega (arith, more, left))
            (take-append-drop data_capacity bytes)
            (Carries-more (take data_capacity bytes) rest (suc (length rest / data_capacity)) tail
              rec))
  ]

  pub recv_replies-Carries :
      (bytes : List ℕ)
      → Carries correlation socket_id
          (suc (length bytes / data_capacity))
          bytes
          (recv_replies correlation socket_id bytes)
  unfolding recv_replies
  recv_replies-Carries [] = Carries-one [] 1 (omega arith)
  recv_replies-Carries (x ∷ xs) =
      fragments-Carries (length (x ∷ xs)) (x ∷ xs) (ne-nil_of_pos (x ∷ xs) (omega arith))
        (omega arith)

  pub recvfrom_replies-Carries :
      (bytes : List ℕ) (peer : SockAddrBytes)
      → Carries correlation socket_id
          (suc ((28 + length bytes) / data_capacity))
          (write_sockaddr peer ++ bytes)
          (recvfrom_replies correlation socket_id bytes peer)
  unfolding recvfrom_replies
  recvfrom_replies-Carries bytes peer = elim (Bool-cases (leb (28 + length bytes) data_capacity)) [
    | inl short ↦ rw short (
        Carries-one (write_sockaddr peer ++ bytes) (suc ((28 + length bytes) / data_capacity))
          (omega arith))
    | inr long ↦
        let rest = drop first_payload_cap bytes in
        let first = take first_payload_cap bytes in
        let tail = fragments correlation socket_id (length bytes) rest in
        let left : length rest ≡ length bytes - first_payload_cap =
          length-drop first_payload_cap bytes in
        let rec : Carries correlation socket_id (suc (length rest / data_capacity)) rest tail =
          fragments-Carries (length bytes) rest (ne-nil_of_pos rest (omega (tests, long)))
            (omega arith) in
        rw long (
          Carries-eq (suc (suc (length rest / data_capacity)))
            (suc ((28 + length bytes) / data_capacity)) ((write_sockaddr peer ++ first) ++ rest)
            (write_sockaddr peer ++ bytes) _ (omega (tests, long, left))
            (append_assoc (write_sockaddr peer) first rest
              ∙ ap (λ l. write_sockaddr peer ++ l) (take-append-drop first_payload_cap bytes))
            (Carries-more (write_sockaddr peer ++ first) rest (suc (length rest / data_capacity))
              tail rec))
  ]
