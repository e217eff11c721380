-- ===== src/Text/Split.antt =====
-- `split` at a byte and `find` of a byte.
use psroot.Prelude.{
  ℕ, ◌≡◌, refl, false, Bool-cases, inl, inr, Option, none, some, List, [], ◌∷◌, ◌++◌, ◌==◌, ==_self,
  if◌then◌else◌, All,
}

-- The text before the first occurrence of a byte and the text after it.
abbrev pub cut_at : ℕ → List ℕ → Option (List ℕ × List ℕ)
cut_at b [] = none
cut_at b (c ∷ s) =
    if c == b
    then some ([], s)
    else elim (cut_at b s) [ none ↦ none | some (before, after) ↦ some (c ∷ before, after) ]

-- The byte does not occur.
abbrev pub Lacks : ℕ → List ℕ → Type 0
Lacks b s = All (λ c. (c == b) ≡ false) s

pub cut_at-append : (b : ℕ) (s t : List ℕ) → Lacks b s → cut_at b (s ++ b ∷ t) ≡ some (s, t)
cut_at-append b [] t h = rw (==_self b) refl
cut_at-append b (c ∷ s) t h = rw (h.0, cut_at-append b s t h.1) refl

pub cut_at-none : (b : ℕ) (s : List ℕ) → Lacks b s → cut_at b s ≡ none
cut_at-none b [] h = refl
cut_at-none b (c ∷ s) h = rw (h.0, cut_at-none b s h.1) refl

-- The parts between the occurrences of a byte.
abbrev pub split : ℕ → List ℕ → List (List ℕ)
split b [] = [] ∷ []
split b (c ∷ s) = elim (split b s) [
  | [] ↦ []
  | p ∷ ps ↦ if c == b then [] ∷ p ∷ ps else (c ∷ p) ∷ ps
]

pub split-Lacks : (b : ℕ) (s : List ℕ) → Lacks b s → split b s ≡ s ∷ []
split-Lacks b [] h = refl
split-Lacks b (c ∷ s) h = rw (split-Lacks b s h.1, h.0) refl

split-ne-nil : (b : ℕ) (s : List ℕ) → (p : List ℕ) × (ps : List (List ℕ)) × (split b s ≡ p ∷ ps)
split-ne-nil b [] = ([], [], refl)
split-ne-nil b (c ∷ s) =
    let (p, ps, e) = split-ne-nil b s in
    elim (Bool-cases (c == b)) [
      | inl h ↦ ([], p ∷ ps, rw (e, h) refl)
      | inr h ↦ (c ∷ p, ps, rw (e, h) refl)
    ]

pub split-append : (b : ℕ) (s t : List ℕ) → Lacks b s → split b (s ++ b ∷ t) ≡ s ∷ split b t
split-append b [] t h = let (p, ps, e) = split-ne-nil b t in rw (e, ==_self b) refl
split-append b (c ∷ s) t h = rw (split-append b s t h.1, h.0) refl
