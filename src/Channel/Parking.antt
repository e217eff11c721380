-- ===== src/Channel/Parking.antt =====
-- The accesses of a producer that posts and a consumer that parks
-- (crates/psroot-netstack-ipc/src/signal.rs), as steps of both. A wait returns by a wake, a word that
-- has changed, its time-out or an error, which leaves the word as it is. Of the system it is taken that a
-- wake by address reaches the side that is blocked on the word.
use psroot.Prelude.{ℕ, suc, ◌≡◌, ◌≢◌, ◌⊎◌, true, false}
use psroot.Channel.Signal.{post_word, post_wakes, park_word, park_returns, wait_blocks, reset_word}

-- Where the sides stand: the producer idle, between its push and its post, or about to wake; the
-- consumer before a look at the ring, after a look that found nothing, between its swap and the wait,
-- blocked, about to reset the word, or before its second look.
pub data Poster : Type 0 where
  idle pushed waking : Poster

pub data Sleeper : Type 0 where
  looking saw_nothing swapped blocked resetting looking_again : Sleeper

pub record Pair : Type 0 where
  pub word : ℕ
  pub messages : ℕ
  pub poster : Poster
  pub sleeper : Sleeper

pub data Step : Pair → Pair → Type 0 where
  push :
      (w n : ℕ) (c : Sleeper)
      → Step
          (record { word = w; messages = n; poster = Poster.idle; sleeper = c })
          (record { word = w; messages = suc n; poster = Poster.pushed; sleeper = c })
  post_and_wake :
      (w n : ℕ) (c : Sleeper)
      → post_wakes w ≡ true
      → Step
          (record { word = w; messages = n; poster = Poster.pushed; sleeper = c })
          (record { word = post_word; messages = n; poster = Poster.waking; sleeper = c })
  post :
      (w n : ℕ) (c : Sleeper)
      → post_wakes w ≡ false
      → Step
          (record { word = w; messages = n; poster = Poster.pushed; sleeper = c })
          (record { word = post_word; messages = n; poster = Poster.idle; sleeper = c })
  wake :
      (w n : ℕ)
      → Step
          (record { word = w; messages = n; poster = Poster.waking; sleeper = Sleeper.blocked })
          (record { word = w; messages = n; poster = Poster.idle; sleeper = Sleeper.resetting })
  wake_nobody :
      (w n : ℕ) (c : Sleeper)
      → c ≢ Sleeper.blocked
      → Step
          (record { word = w; messages = n; poster = Poster.waking; sleeper = c })
          (record { word = w; messages = n; poster = Poster.idle; sleeper = c })
  take :
      (w n : ℕ) (p : Poster)
      → Step
          (record { word = w; messages = suc n; poster = p; sleeper = Sleeper.looking })
          (record { word = w; messages = n; poster = p; sleeper = Sleeper.looking })
  see_nothing :
      (w : ℕ) (p : Poster)
      → Step
          (record { word = w; messages = 0; poster = p; sleeper = Sleeper.looking })
          (record { word = w; messages = 0; poster = p; sleeper = Sleeper.saw_nothing })
  park_after_post :
      (w n : ℕ) (p : Poster)
      → park_returns w ≡ true
      → Step
          (record { word = w; messages = n; poster = p; sleeper = Sleeper.saw_nothing })
          (record { word = park_word; messages = n; poster = p; sleeper = Sleeper.resetting })
  park :
      (w n : ℕ) (p : Poster)
      → park_returns w ≡ false
      → Step
          (record { word = w; messages = n; poster = p; sleeper = Sleeper.saw_nothing })
          (record { word = park_word; messages = n; poster = p; sleeper = Sleeper.swapped })
  block :
      (w n : ℕ) (p : Poster)
      → wait_blocks w ≡ true
      → Step
          (record { word = w; messages = n; poster = p; sleeper = Sleeper.swapped })
          (record { word = w; messages = n; poster = p; sleeper = Sleeper.blocked })
  pass :
      (w n : ℕ) (p : Poster)
      → wait_blocks w ≡ false
      → Step
          (record { word = w; messages = n; poster = p; sleeper = Sleeper.swapped })
          (record { word = w; messages = n; poster = p; sleeper = Sleeper.resetting })
  time_out :
      (w n : ℕ) (p : Poster)
      → Step
          (record { word = w; messages = n; poster = p; sleeper = Sleeper.blocked })
          (record { word = w; messages = n; poster = p; sleeper = Sleeper.resetting })
  wait_fails :
      (w n : ℕ) (p : Poster) (c : Sleeper)
      → (c ≡ Sleeper.swapped) ⊎ (c ≡ Sleeper.blocked)
      → Step
          (record { word = w; messages = n; poster = p; sleeper = c })
          (record { word = w; messages = n; poster = p; sleeper = Sleeper.looking })
  reset :
      (w n : ℕ) (p : Poster)
      → Step
          (record { word = w; messages = n; poster = p; sleeper = Sleeper.resetting })
          (record { word = reset_word; messages = n; poster = p; sleeper = Sleeper.looking_again })
  take_again :
      (w n : ℕ) (p : Poster)
      → Step
          (record { word = w; messages = suc n; poster = p; sleeper = Sleeper.looking_again })
          (record { word = w; messages = n; poster = p; sleeper = Sleeper.looking })
  give_up :
      (w : ℕ) (p : Poster)
      → Step
          (record { word = w; messages = 0; poster = p; sleeper = Sleeper.looking_again })
          (record { word = w; messages = 0; poster = p; sleeper = Sleeper.looking })

pub data Reach : Pair → Type 0 where
  start : Reach (record { word = 0; messages = 0; poster = Poster.idle; sleeper = Sleeper.looking })
  next : {y z : Pair} → Reach y → Step y z → Reach z
