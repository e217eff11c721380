-- ===== src/NetShim.antt =====
-- The socket handles that the network shim hands out (crates/psroot-netshim/src/state.rs): a table
-- from a made-up SOCKET to the daemon's socket id, and the next handle. The map is an association
-- list with one entry for a key. The counter wraps, as it does where overflow is not checked.
pub mod Handles
pub mod Hooks
pub mod Names
pub mod Routing
pub mod Given
use psroot.Prelude.{
  ℕ, ◌+◌, ◌-◌, ◌%◌, ◌^◌, Bool, true, false, Option, none, some, List, [], ◌∷◌, ◌==◌, ltb,
  if◌then◌else◌,
}

-- Whether the thread is inside the daemon or a hook: a counter.
abbrev pub enter : ℕ → ℕ
enter bypass = bypass + 1

-- `saturating_sub`
abbrev pub leave : ℕ → ℕ
leave bypass = bypass - 1

abbrev pub is_bypassed : ℕ → Bool
is_bypassed bypass = ltb 0 bypass

pub record ShimState : Type 0 where
  pub sockets : List (ℕ × ℕ)
  pub next_fake : ℕ

abbrev pub new_state : ShimState
new_state = record { sockets = []; next_fake = 0x100000000 }

abbrev pub map_get : ℕ → List (ℕ × ℕ) → Option ℕ
map_get k [] = none
map_get k ((j, v) ∷ es) = if k == j then some v else map_get k es

abbrev pub map_remove : ℕ → List (ℕ × ℕ) → List (ℕ × ℕ)
map_remove k [] = []
map_remove k ((j, v) ∷ es) = if k == j then map_remove k es else (j, v) ∷ map_remove k es

abbrev pub map_insert : ℕ → ℕ → List (ℕ × ℕ) → List (ℕ × ℕ)
map_insert k v es = (k, v) ∷ map_remove k es

unfoldable pub alloc_fake : ℕ → ShimState → ℕ × ShimState
alloc_fake virt s = (
  s.next_fake,
  record {
    sockets = map_insert s.next_fake virt s.sockets;
    next_fake = (s.next_fake + 1) % 2 ^ 64;
  },
)

unfoldable pub lookup : ℕ → ShimState → Option ℕ
lookup handle s = map_get handle s.sockets

unfoldable pub forget : ℕ → ShimState → Option ℕ × ShimState
forget handle s = (map_get handle s.sockets, record s { sockets = map_remove handle s.sockets })

-- A sequence of calls, and the handles that it hands out.
pub data Op : Type 0 where
  opened : ℕ → Op
  closed : ℕ → Op

unfoldable pub run : List Op → ShimState → List ℕ × ShimState
unfolding alloc_fake forget
run [] s = ([], s)
run (Op.opened virt ∷ ops) s =
    let (h, s') = alloc_fake virt s in let (hs, t) = run ops s' in (h ∷ hs, t)
run (Op.closed handle ∷ ops) s = run ops (forget handle s).1
