-- ===== src/Channel/Wake.antt =====
-- What holds between any two accesses of a posting producer and a parking consumer
-- (crates/psroot-netstack-ipc/src/signal.rs).
use psroot.Prelude.{ℕ, suc, ◌≡◌, ◌≢◌, ◌⊎◌, inl, inr, refl, true, false, ==→eq, ==→ne, arith, tests}
use psroot.Channel.Signal.{
  futex_sleeping, futex_woken, post_word, post_wakes, park_word, park_returns, wait_blocks,
}
use psroot.Channel.Parking.{Poster, Sleeper, Pair, Step, Reach}

-- A message that the consumer has not seen has yet to be posted, or its token lies in the word.
abbrev Announced : ℕ → ℕ → Poster → Type 0
Announced w n p = (n ≡ 0) ⊎ ((p ≡ Poster.pushed) ⊎ (w ≡ futex_woken))

-- A blocked consumer's messages have yet to be posted, or its waking is under way.
abbrev WakesUp : ℕ → Poster → Type 0
WakesUp n p = (n ≡ 0) ⊎ ((p ≡ Poster.pushed) ⊎ (p ≡ Poster.waking))

abbrev Invariant : ℕ → ℕ → Poster → Sleeper → Type 0
Invariant w n p Sleeper.saw_nothing = Announced w n p
Invariant w n p Sleeper.swapped = Announced w n p
Invariant w n p Sleeper.blocked = WakesUp n p × ((w ≡ futex_sleeping) ⊎ (p ≡ Poster.waking))
Invariant w n p _ = Unit

push-Invariant :
    (w n : ℕ) (c : Sleeper) → Invariant w n Poster.idle c → Invariant w (suc n) Poster.pushed c
push-Invariant w n Sleeper.saw_nothing i = inr (inl refl)
push-Invariant w n Sleeper.swapped i = inr (inl refl)
push-Invariant w n Sleeper.blocked (a, inl b) = (inr (inl refl), inl b)
push-Invariant w n Sleeper.blocked (a, inr b) = cc
push-Invariant w n Sleeper.looking i = tt
push-Invariant w n Sleeper.resetting i = tt
push-Invariant w n Sleeper.looking_again i = tt

post_and_wake-Invariant :
    (w n : ℕ) (c : Sleeper) → Invariant w n Poster.pushed c → Invariant post_word n Poster.waking c
post_and_wake-Invariant w n Sleeper.saw_nothing i = inr (inr refl)
post_and_wake-Invariant w n Sleeper.swapped i = inr (inr refl)
post_and_wake-Invariant w n Sleeper.blocked i = (inr (inr refl), inr refl)
post_and_wake-Invariant w n Sleeper.looking i = tt
post_and_wake-Invariant w n Sleeper.resetting i = tt
post_and_wake-Invariant w n Sleeper.looking_again i = tt

post-Invariant :
    (w n : ℕ) (c : Sleeper)
    → post_wakes w ≡ false
    → Invariant w n Poster.pushed c
    → Invariant post_word n Poster.idle c
post-Invariant w n Sleeper.saw_nothing e i = inr (inr refl)
post-Invariant w n Sleeper.swapped e i = inr (inr refl)
post-Invariant w n Sleeper.blocked e (a, inl b) = absurd (==→ne w futex_sleeping e b)
post-Invariant w n Sleeper.blocked e (a, inr b) = cc
post-Invariant w n Sleeper.looking e i = tt
post-Invariant w n Sleeper.resetting e i = tt
post-Invariant w n Sleeper.looking_again e i = tt

wake_nobody-Invariant :
    (w n : ℕ) (c : Sleeper)
    → c ≢ Sleeper.blocked
    → Invariant w n Poster.waking c
    → Invariant w n Poster.idle c
wake_nobody-Invariant w n Sleeper.saw_nothing h (inl z) = inl z
wake_nobody-Invariant w n Sleeper.saw_nothing h (inr (inl q)) = cc
wake_nobody-Invariant w n Sleeper.saw_nothing h (inr (inr q)) = inr (inr q)
wake_nobody-Invariant w n Sleeper.swapped h (inl z) = inl z
wake_nobody-Invariant w n Sleeper.swapped h (inr (inl q)) = cc
wake_nobody-Invariant w n Sleeper.swapped h (inr (inr q)) = inr (inr q)
wake_nobody-Invariant w n Sleeper.blocked h i = absurd (h refl)
wake_nobody-Invariant w n Sleeper.looking h i = tt
wake_nobody-Invariant w n Sleeper.resetting h i = tt
wake_nobody-Invariant w n Sleeper.looking_again h i = tt

park-Invariant :
    (w n : ℕ) (p : Poster) → park_returns w ≡ false → Announced w n p → Announced park_word n p
park-Invariant w n p e (inl z) = inl z
park-Invariant w n p e (inr (inl q)) = inr (inl q)
park-Invariant w n p e (inr (inr q)) = absurd (==→ne w futex_woken e q)

block-Invariant :
    (w n : ℕ) (p : Poster)
    → wait_blocks w ≡ true
    → Announced w n p
    → Invariant w n p Sleeper.blocked
block-Invariant w n p e (inl z) = (inl z, inl (==→eq w futex_sleeping e))
block-Invariant w n p e (inr (inl q)) = (inr (inl q), inl (==→eq w futex_sleeping e))
block-Invariant w n p e (inr (inr q)) = absurd (omega (tests, e, q))

Step-Invariant :
    {y z : Pair}
    → Step y z
    → Invariant y.word y.messages y.poster y.sleeper
    → Invariant z.word z.messages z.poster z.sleeper
Step-Invariant (Step.push w n c) i = push-Invariant w n c i
Step-Invariant (Step.post_and_wake w n c e) i = post_and_wake-Invariant w n c i
Step-Invariant (Step.post w n c e) i = post-Invariant w n c e i
Step-Invariant (Step.wake w n) i = tt
Step-Invariant (Step.wake_nobody w n c h) i = wake_nobody-Invariant w n c h i
Step-Invariant (Step.take w n p) i = tt
Step-Invariant (Step.see_nothing w p) i = inl refl
Step-Invariant (Step.park_after_post w n p e) i = tt
Step-Invariant (Step.park w n p e) i = park-Invariant w n p e i
Step-Invariant (Step.block w n p e) i = block-Invariant w n p e i
Step-Invariant (Step.pass w n p e) i = tt
Step-Invariant (Step.time_out w n p) i = tt
Step-Invariant (Step.wait_fails w n p c h) i = tt
Step-Invariant (Step.reset w n p) i = tt
Step-Invariant (Step.take_again w n p) i = tt
Step-Invariant (Step.give_up w p) i = tt

Reach-Invariant : {y : Pair} → Reach y → Invariant y.word y.messages y.poster y.sleeper
Reach-Invariant Reach.start = tt
Reach-Invariant (Reach.next r s) = Step-Invariant s (Reach-Invariant r)

-- No wakeup is lost, however the accesses of the two sides to the word and the ring are interleaved: when
-- the consumer is blocked in its wait and the ring has a message, then the producer is on its way to wake
-- it, having pushed and not yet posted, or posted and not yet woken.
pub no_lost_wakeup :
    (w n : ℕ) (p : Poster)
    → Reach (record { word = w; messages = suc n; poster = p; sleeper = Sleeper.blocked })
    → (p ≡ Poster.pushed) ⊎ (p ≡ Poster.waking)
no_lost_wakeup w n p r = elim (Reach-Invariant r).0 [
  | inl z ↦ absurd (omega (arith, z))
  | inr q ↦ q
]
