-- ===== src/Ipam.antt =====
-- The leases of container addresses (crates/psroot-unix/src/net/ipam.rs). A lease is the host part of
-- an address; the set of leases is the file that `load` reads and `save` writes, a list in no order.
-- Whether the file can be written is a parameter.
pub mod Leases
use psroot.Prelude.{
  ℕ, zero, suc, ◌+◌, Bool, true, false, Option, none, some, List, [], ◌∷◌, ◌==◌, if◌then◌else◌,
}

abbrev pub first_host : ℕ
first_host = 2

abbrev pub last_host : ℕ
last_host = 65534

abbrev pub leased : ℕ → List ℕ → Bool
leased host [] = false
leased host (x ∷ xs) = if host == x then true else leased host xs

-- The first host at or after `host`, of `count` that are tried, without a lease.
unfoldable pub first_free : ℕ → ℕ → List ℕ → Option ℕ
first_free zero host l = none
first_free (suc count) host l =
    let later = first_free count (host + 1) l in if leased host l then later else some host

pub data AllocError : Type 0 where
  save_failed exhausted : AllocError

pub data Result (A : Type 0) : Type 0 where
  ok : A → Result A
  err : AllocError → Result A

abbrev pub leased_to : Bool → Option ℕ → List ℕ → Result ℕ × List ℕ
leased_to saves none l = (Result.err AllocError.exhausted, l)
leased_to true (some host) l = (Result.ok host, host ∷ l)
leased_to false (some host) l = (Result.err AllocError.save_failed, l)

-- `FIRST_HOST..=LAST_HOST - 1` are 65532 hosts.
unfoldable pub alloc : Bool → List ℕ → Result ℕ × List ℕ
unfolding first_free
alloc saves l = leased_to saves (first_free 65532 first_host l) l

abbrev pub without : ℕ → List ℕ → List ℕ
without host [] = []
without host (x ∷ xs) = if host == x then without host xs else x ∷ without host xs

unfoldable pub release : Bool → ℕ → List ℕ → List ℕ
release saves host l = if saves then without host l else l
