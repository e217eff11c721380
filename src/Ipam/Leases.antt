-- ===== src/Ipam/Leases.antt =====
-- What allocation and release do to the leases (crates/psroot-unix/src/net/ipam.rs).
use psroot.Prelude.{
  ℕ, zero, suc, ◌+◌, ◌≤◌, ◌<◌, ◌≡◌, ◌≢◌, refl, sym, ap, ◌∙◌, Bool, true, false, Bool-cases, inl,
  inr, Option, none, some, List, [], ◌∷◌, ◌==◌, ==→eq, ==→ne, ==_self, ne→==, if◌then◌else◌, arith,
}
use mathlib.Core.Option.{some-injective}
use psroot.Ipam.{
  first_host, last_host, leased, first_free, AllocError, Result, leased_to, alloc, without, release,
}

record Free (count host : ℕ) (l : List ℕ) (out : ℕ) : Type 0 where
  free : leased out l ≡ false
  low : host ≤ out
  high : out < host + count
  least : (j : ℕ) → host ≤ j → j < out → leased j l ≡ true

first_free-Free :
    (count host : ℕ) (l : List ℕ) (out : ℕ)
    → first_free count host l ≡ some out
    → Free count host l out
unfolding first_free
first_free-Free zero host l out e = cc
first_free-Free (suc count) host l out e = elim (Bool-cases (leased host l)) [
  | inl taken ↦
      let f = first_free-Free count (host + 1) l out (rw taken at e) in
      record {
        free = f.free;
        low = omega (arith, f.low);
        high = omega (arith, f.high);
        least = λ j a b. elim (Bool-cases (j == host)) [
          | inl q ↦ ap (λ i. leased i l) (==→eq j host q) ∙ taken
          | inr q ↦ f.least j (omega (arith, a, ==→ne j host q)) b
        ];
      }
  | inr free ↦
      let here : host ≡ out = some-injective host out (rw free at e) in
      record {
        free = ap (λ i. leased i l) (sym here) ∙ free;
        low = omega (arith, here);
        high = omega (arith, here);
        least = λ j a b. absurd (omega (arith, here, a, b));
      }
]

first_free-none :
    (count host : ℕ) (l : List ℕ)
    → first_free count host l ≡ none
    → (j : ℕ) → host ≤ j
    → j < host + count
    → leased j l ≡ true
unfolding first_free
first_free-none zero host l e j a b = absurd (omega (arith, a, b))
first_free-none (suc count) host l e j a b = elim (Bool-cases (leased host l)) [
  | inl taken ↦ elim (Bool-cases (j == host)) [
    | inl q ↦ ap (λ i. leased i l) (==→eq j host q) ∙ taken
    | inr q ↦
        first_free-none count (host + 1) l (rw taken at e) j (omega (arith, a, ==→ne j host q))
          (omega (arith, b))
  ]
  | inr free ↦ let found = rw free at e in cc
]

-- What an allocation has done.
pub record Leased (l : List ℕ) (out : ℕ) (l' : List ℕ) : Type 0 where
  pub low : first_host ≤ out
  pub high : out < last_host
  pub was_free : leased out l ≡ false
  pub now_leased : leased out l' ≡ true
  pub least : (j : ℕ) → first_host ≤ j → j < out → leased j l ≡ true
  pub others : (j : ℕ) → j ≢ out → leased j l' ≡ leased j l

abbrev pub Outcome : List ℕ → Result ℕ × List ℕ → Type 0
Outcome l (Result.ok out, l') = Leased l out l'
Outcome l (Result.err AllocError.save_failed, l') = l' ≡ l
Outcome l (Result.err AllocError.exhausted, l') =
    (l' ≡ l) × ((j : ℕ) → first_host ≤ j → j < last_host → leased j l ≡ true)

leased_to-Outcome :
    (saves : Bool) (o : Option ℕ) (l : List ℕ)
    → first_free 65532 first_host l ≡ o
    → Outcome l (leased_to saves o l)
leased_to-Outcome saves none l e =
    (refl, λ j a b. first_free-none 65532 2 l e j a (omega (arith, b)))
leased_to-Outcome false (some out) l e = refl
leased_to-Outcome true (some out) l e =
    let f = first_free-Free 65532 2 l out e in
    record {
      low = f.low;
      high = omega (arith, f.high);
      was_free = f.free;
      now_leased = rw (==_self out) refl;
      least = f.least;
      others = λ j h. rw (ne→== j out h) refl;
    }

-- An allocation that succeeds leases the least host part from 2 to 65533 that had no lease, and no
-- other; it reports the pool as exhausted only when all of these are leased, and then, as when the
-- leases cannot be saved, changes none.
alloc-Outcome : (saves : Bool) (l : List ℕ) → Outcome l (alloc saves l)
unfolding alloc
alloc-Outcome saves l = leased_to-Outcome saves (first_free 65532 2 l) l refl

leased-without_self : (host : ℕ) (l : List ℕ) → leased host (without host l) ≡ false
leased-without_self host [] = refl
leased-without_self host (x ∷ xs) = elim (Bool-cases (host == x)) [
  | inl e ↦ rw e (leased-without_self host xs)
  | inr e ↦ rw (e, e) (leased-without_self host xs)
]

leased-without_ne : (host j : ℕ) (l : List ℕ) → j ≢ host → leased j (without host l) ≡ leased j l
leased-without_ne host j [] h = refl
leased-without_ne host j (x ∷ xs) h = elim (Bool-cases (host == x)) [
  | inl e ↦ rw (e, ne→== j x (λ q. h (q ∙ sym (==→eq host x e)))) (leased-without_ne host j xs h)
  | inr e ↦ rw e (ap (λ o. if j == x then true else o) (leased-without_ne host j xs h))
]

-- A release that is saved ends that lease and no other; the address can then be leased again.
leased-release :
    (host : ℕ) (l : List ℕ)
    → (leased host (release true host l) ≡ false)
      × ((j : ℕ) → j ≢ host → leased j (release true host l) ≡ leased j l)
unfolding release
leased-release host l = (leased-without_self host l, λ j h. leased-without_ne host j l h)
