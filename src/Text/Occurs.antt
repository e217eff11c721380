-- ===== src/Text/Occurs.antt =====
-- What `contains` says of a text.
use psroot.Prelude.{
  ℕ, ◌≡◌, refl, sym, ap, ◌∙◌, true, false, Bool-cases, inl, inr, [], ◌∷◌, ◌++◌, ◌==◌, ==_self,
  ==→eq,
}
use psroot.Text.{Text, starts_with, contains}

-- A text stands somewhere in another.
abbrev pub Occurs : Text → Text → Type 0
Occurs p t = (before : Text) × (after : Text) × (t ≡ before ++ (p ++ after))

starts_with-inv : (p t : Text) → starts_with p t ≡ true → (after : Text) × (t ≡ p ++ after)
starts_with-inv [] t h = (t, refl)
starts_with-inv (c ∷ p) [] h = cc
starts_with-inv (c ∷ p) (d ∷ t) h = elim (Bool-cases (c == d)) [
  | inl e ↦
      let (after, q) = starts_with-inv p t (rw e at h) in
      (after, ap (λ (x : ℕ). x ∷ t) (sym (==→eq c d e)) ∙ ap (λ (l : Text). c ∷ l) q)
  | inr e ↦ let f = rw e at h in cc
]

starts_with-append : (p after : Text) → starts_with p (p ++ after) ≡ true
starts_with-append [] after = refl
starts_with-append (c ∷ p) after = rw (==_self c) (starts_with-append p after)

contains-start : (p t : Text) → starts_with p t ≡ true → contains p t ≡ true
contains-start p [] h = h
contains-start p (c ∷ t) h = rw h refl

pub contains-Occurs : (p t : Text) → contains p t ≡ true → Occurs p t
contains-Occurs p [] h = let (after, q) = starts_with-inv p [] h in ([], after, q)
contains-Occurs p (c ∷ t) h = elim (Bool-cases (starts_with p (c ∷ t))) [
  | inl e ↦ let (after, q) = starts_with-inv p (c ∷ t) e in ([], after, q)
  | inr e ↦
      let (before, after, q) = contains-Occurs p t (rw e at h) in
      (c ∷ before, after, ap (λ (l : Text). c ∷ l) q)
]

contains-around : (p before after : Text) → contains p (before ++ (p ++ after)) ≡ true
contains-around p [] after = contains-start p (p ++ after) (starts_with-append p after)
contains-around p (c ∷ before) after =
    elim (Bool-cases (starts_with p (c ∷ (before ++ (p ++ after))))) [
      | inl e ↦ rw e refl
      | inr e ↦ rw e (contains-around p before after)
    ]

-- Where a text is not contained, it does not occur.
pub contains-absent : (p t : Text) → contains p t ≡ false → ¬ Occurs p t
contains-absent p t h (before, after, q) =
    let found : contains p t ≡ true = ap (contains p) q ∙ contains-around p before after in
    let clash : true ≡ false = sym found ∙ h in cc
