-- ===== src/Client/Loopback.antt =====
-- The client (crates/psroot-netshim/src/client.rs) and the daemon joined by a channel: a request is
-- planned when it is posted, its replies queue up in a ring of some slots, which refuses a reply when it
-- is full, and are received in order. What the rings do in between is the concern of the Ring modules.
use psroot.Prelude.{
  ℕ, min, ltb, lt→ltb, length-append, if◌then◌else◌, some, zero, suc, ◌+◌, ◌%◌, ◌^◌, ◌≤◌, ◌<◌, ◌≡◌,
  refl, sym, ap, ◌∙◌, subst, true, Option, none, List, [], ◌∷◌, ◌++◌, append-nil, append_assoc,
  ◌==◌, ==_self, length, All, arith,
}
use psroot.Proto.{SlotHeader, is_ok}
use psroot.Proto.Codes.{StatusCode}
use psroot.Proto.RoundTrip.{decode_status-raw_status}
use psroot.Ring.{RingError}
use psroot.Ring.Queue.{Message}
use psroot.Backend
use psroot.Backend.{BResult, Backend}
use psroot.Daemon.{Resolver, Plan, answer, error_reply}
use psroot.Daemon.Handle.{Post, post_all, plan}
use psroot.Daemon.Framing.{IsFramed, Fits}
use psroot.Client.{
  ClientError, CResult, Arrival, Channel, Client, collect, exchange, sent, with_next,
}

pub record Wire (S : Type 0) : Type 0 where
  pub backend : S
  pub queue : List Message
  pub slots : ℕ

-- The daemon's side of the ring; a refusal ends the handler (Daemon.Handle.post_all).
abbrev pub admit : ℕ → Post (List Message)
admit slots hdr bytes queue =
    if ltb (length queue) slots
    then (none, queue ++ (hdr, bytes) ∷ [])
    else (some RingError.full, queue)

post_all-admit :
    (slots : ℕ) (ms queue : List Message)
    → length queue + length ms ≤ slots
    → (post_all (admit slots) ms queue).1 ≡ queue ++ ms
unfolding post_all
post_all-admit slots [] queue h = sym (append-nil queue)
post_all-admit slots ((hdr, bytes) ∷ ms) queue h =
    let next = queue ++ (hdr, bytes) ∷ [] in
    let longer : length next ≡ length queue + 1 = length-append queue ((hdr, bytes) ∷ []) in
    let free : ltb (length queue) slots ≡ true = lt→ltb (length queue) slots (omega arith) in
    rw free (
      post_all-admit slots ms next (omega (arith, longer))
      ∙ append_assoc queue ((hdr, bytes) ∷ []) ms)

module _ {S : Type 0} where
  abbrev pub queued : ℕ → Plan S → List Message → Option RingError × Wire S
  queued slots (Plan.posts ms s stop) queue =
      (none, record { backend = s; queue = (post_all (admit slots) ms queue).1; slots = slots })
  queued slots (Plan.panics s) queue = (none, record { backend = s; queue = queue; slots = slots })

  abbrev pub next_arrival : ℕ → S → List Message → Arrival × Wire S
  next_arrival slots s [] = (Arrival.nothing, record { backend = s; queue = []; slots = slots })
  next_arrival slots s (m ∷ ms) =
      (Arrival.message m.0 m.1, record { backend = s; queue = ms; slots = slots })

abbrev pub loopback : {S : Type 0} → Backend S → Resolver → Channel (Wire S)
loopback b resolver = record {
  send = λ hdr bytes w. queued w.slots (plan b resolver hdr bytes w.backend) w.queue;
  recv_blocking = λ w. next_arrival w.slots w.backend w.queue;
}

-- How many messages an answer may have: the waits that the deadline lets in, and the slots of the ring.
abbrev pub room : {S : Type 0} → Client (Wire S) → ℕ
room k = min k.patience k.channel.slots

-- The client after a request that left the backend in a state: its next correlation, an empty wire.
abbrev pub advanced : {S : Type 0} → Client (Wire S) → S → Client (Wire S)
advanced k s = record {
  channel = record { backend = s; queue = []; slots = k.channel.slots };
  next_correlation = (k.next_correlation + 1) % 2 ^ 32;
  patience = k.patience;
}

-- The bytes of the messages, one after the other, and the header of the last.
abbrev pub payloads : List Message → List ℕ
payloads [] = []
payloads (m ∷ ms) = m.1 ++ payloads ms

abbrev pub last_header : SlotHeader → List Message → SlotHeader
last_header h [] = h
last_header h (m ∷ ms) = last_header m.0 ms

abbrev pub IsOk : Message → Type 0
IsOk m = is_ok m.0 ≡ true

-- What the client makes of a method's result; a panic leaves it waiting.
abbrev pub client_result : {A B : Type 0} → (A → B) → BResult A → CResult B
client_result f (Backend.ok a) = CResult.ok (f a)
client_result f (Backend.err s) = CResult.err (ClientError.status s)
client_result f Backend.panic = CResult.err ClientError.timeout

module _ {S : Type 0} (b : Backend S) (resolver : Resolver) where
  correlated : (cid : ℕ) (m : Message) → Fits cid m → (m.0.correlation == cid) ≡ true
  correlated cid m fits =
      subst (λ c. (m.0.correlation == c) ≡ true) fits.0 (==_self m.0.correlation)

  collect_framed :
      (cid patience slots : ℕ) (h : SlotHeader) (ms : List Message) (combined : List ℕ) (s : S)
      → IsFramed cid ms
      → All IsOk ms
      → length ms ≤ patience
      → collect
          (loopback b resolver)
          cid
          patience
          combined
          (record { backend = s; queue = ms; slots = slots })
        ≡ (
          CResult.ok (last_header h ms, combined ++ payloads ms),
          record { backend = s; queue = []; slots = slots },
        )
  unfolding collect
  collect_framed cid patience slots h [] combined s framed oks enough = absurd framed
  collect_framed cid zero slots h (m ∷ ms) combined s framed oks enough = absurd (omega arith)
  collect_framed cid (suc patience) slots h (m ∷ []) combined s (fits, last) (good, rest) enough =
      rw (correlated cid m fits, good, last)
        (ap
          (λ l.
            (CResult.ok (m.0, combined ++ l), record { backend = s; queue = []; slots = slots }))
          (sym (append-nil m.1)))
  collect_framed cid (suc patience) slots h (m ∷ n ∷ ms) combined s (fits, last, fine, framed)
        (good, rest) enough =
      rw (correlated cid m fits, good, last)
        (collect_framed cid patience slots m.0 (n ∷ ms) (combined ++ m.1) s framed rest
            (omega arith)
          ∙ ap
              (λ l. (
                CResult.ok (last_header n.0 ms, l),
                record { backend = s; queue = []; slots = slots },
              ))
              (append_assoc combined m.1 (payloads (n ∷ ms))))

  collect_error :
      (cid patience slots : ℕ) (status : StatusCode) (combined : List ℕ) (s : S)
      → 0 < patience
      → collect
          (loopback b resolver)
          cid
          patience
          combined
          (record { backend = s; queue = error_reply cid status; slots = slots })
        ≡ (
          CResult.err (ClientError.status status),
          record { backend = s; queue = []; slots = slots },
        )
  unfolding collect
  collect_error cid zero slots status combined s enough = absurd (omega arith)
  collect_error cid (suc patience) slots status combined s enough =
      rw (==_self cid, decode_status-raw_status status) refl

  collect_nothing :
      (cid patience slots : ℕ) (combined : List ℕ) (s : S)
      → collect
          (loopback b resolver)
          cid
          patience
          combined
          (record { backend = s; queue = []; slots = slots })
        ≡ (CResult.err ClientError.timeout, record { backend = s; queue = []; slots = slots })
  unfolding collect
  collect_nothing cid zero slots combined s = refl
  collect_nothing cid (suc patience) slots combined s =
      collect_nothing cid patience slots combined s

  collect-answer :
      {A : Type 0} (cid patience slots : ℕ) (f : A → List Message) (g : A → SlotHeader × List ℕ)
      (h : SlotHeader) (r : BResult A × S)
      → ((a : A) → r.0 ≡ Backend.ok a → IsFramed cid (f a))
      → ((a : A) → All IsOk (f a))
      → ((a : A) → r.0 ≡ Backend.ok a → length (f a) ≤ patience)
      → ((a : A) → (last_header h (f a), payloads (f a)) ≡ g a)
      → 0 < patience
      → ((a : A) → r.0 ≡ Backend.ok a → length (f a) ≤ slots)
      → 0 < slots
      → collect (loopback b resolver) cid patience [] (queued slots (answer cid f r) []).1
        ≡ (client_result g r.0, record { backend = r.1; queue = []; slots = slots })
  collect-answer cid patience slots f g h (Backend.ok a, s) framed oks long read enough fit free =
      rw (post_all-admit slots (f a) [] (omega (arith, fit a refl))) (
        collect_framed cid patience slots h (f a) [] s (framed a refl) (oks a) (long a refl)
        ∙ ap (λ x. (CResult.ok x, record { backend = s; queue = []; slots = slots })) (read a))
  collect-answer cid patience slots f g h (Backend.err e, s) framed oks long read enough fit free =
      rw (post_all-admit slots (error_reply cid e) [] (omega (arith, free)))
        (collect_error cid patience slots e [] s enough)
  collect-answer cid patience slots f g h (Backend.panic, s) framed oks long read enough fit free =
      collect_nothing cid patience slots [] s

  sent_planned :
      (k : Client (Wire S)) (q : Plan S) (r : CResult (SlotHeader × List ℕ)) (s : S)
      → collect
          (loopback b resolver)
          k.next_correlation
          k.patience
          []
          (queued k.channel.slots q []).1
        ≡ (r, record { backend = s; queue = []; slots = k.channel.slots })
      → with_next k
          ((k.next_correlation + 1) % 2 ^ 32)
          (sent (loopback b resolver) k (queued k.channel.slots q []))
        ≡ (r, advanced k s)
  sent_planned k (Plan.posts ms t stop) r s e =
      ap
        (λ (x : CResult (SlotHeader × List ℕ) × Wire S). (
          x.0,
          record {
            channel = x.1;
            next_correlation = (k.next_correlation + 1) % 2 ^ 32;
            patience = k.patience;
          },
        ))
        e
  sent_planned k (Plan.panics t) r s e =
      ap
        (λ (x : CResult (SlotHeader × List ℕ) × Wire S). (
          x.0,
          record {
            channel = x.1;
            next_correlation = (k.next_correlation + 1) % 2 ^ 32;
            patience = k.patience;
          },
        ))
        e

  pub exchange-answer :
      {A : Type 0} (f : A → List Message) (g : A → SlotHeader × List ℕ) (h hdr : SlotHeader)
      (bytes : List ℕ) (k : Client (Wire S)) (r : BResult A × S)
      → k.channel.queue ≡ []
      → plan b resolver (record hdr { correlation = k.next_correlation }) bytes k.channel.backend
        ≡ answer k.next_correlation f r
      → ((a : A) → r.0 ≡ Backend.ok a → IsFramed k.next_correlation (f a))
      → ((a : A) → All IsOk (f a))
      → ((a : A) → r.0 ≡ Backend.ok a → length (f a) ≤ room k)
      → ((a : A) → (last_header h (f a), payloads (f a)) ≡ g a)
      → 0 < room k
      → exchange (loopback b resolver) hdr bytes k ≡ (client_result g r.0, advanced k r.1)
  unfolding exchange
  exchange-answer f g h hdr bytes k r empty planned framed oks long read enough =
      rw (planned, empty)
        (sent_planned k (answer k.next_correlation f r) (client_result g r.0) r.1 (
          collect-answer k.next_correlation k.patience k.channel.slots f g h r framed oks
            (λ a e. omega (arith, long a e)) read (omega arith) (λ a e. omega (arith, long a e))
            (omega arith)))
