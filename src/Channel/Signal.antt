-- ===== src/Channel/Signal.antt =====
-- The futex word beside a ring (crates/psroot-netstack-ipc/src/signal.rs). Swapping the word is one
-- access; the system's wait blocks only while the word is the expected one.
use psroot.Prelude.{ℕ, Bool, ◌==◌}

abbrev pub futex_idle : ℕ
futex_idle = 0

abbrev pub futex_sleeping : ℕ
futex_sleeping = 1

abbrev pub futex_woken : ℕ
futex_woken = 2

-- `post`: what the word becomes, and whether the producer then wakes a waiter.
abbrev pub post_word : ℕ
post_word = futex_woken

abbrev pub post_wakes : ℕ → Bool
post_wakes prev = prev == futex_sleeping

-- `park`: what the word becomes, and whether a post was there already.
abbrev pub park_word : ℕ
park_word = futex_sleeping

abbrev pub park_returns : ℕ → Bool
park_returns prev = prev == futex_woken

-- The wait of `park` blocks.
abbrev pub wait_blocks : ℕ → Bool
wait_blocks word = word == futex_sleeping

-- The store that ends `park`.
abbrev pub reset_word : ℕ
reset_word = futex_idle
