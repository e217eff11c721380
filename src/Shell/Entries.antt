-- ===== src/Shell/Entries.antt =====
-- What is found in the catalog after an entry has been added
-- (crates/psroot-shell-resolver/src/catalog/mod.rs).
use psroot.Prelude.{
  ℕ, ◌<◌, ◌≡◌, refl, sym, ap, ◌∙◌, Bool, true, false, Bool-cases, inl, inr, Option, none, some,
  List, [], ◌∷◌, ◌++◌, if◌then◌else◌, length, length-append, length-set, get_elem?, set,
  get_elem?-set_self, get_elem?-append_last, arith,
}
use mathlib.Core.Option.{some-injective}
use psroot.Text.{Text, text_eq, text_eq→eq, text_eq_self, to_lower}
use psroot.Shell.{CatalogFile}
use psroot.Shell.Catalog.{
  Catalog, empty_catalog, index_get, index_insert, index_aliases, placed, add, entry_at, lookup,
}

index_get-index_insert :
    (k j : Text) (i : ℕ) (m : List (Text × ℕ))
    → index_get k (index_insert j i m) ≡ (if text_eq k j then some i else index_get k m)
index_get-index_insert k j i [] = refl
index_get-index_insert k j i ((l, h) ∷ m) = elim (Bool-cases (text_eq j l)) [
  | inl e ↦
      let same = text_eq→eq j l e in
      rw e (elim (Bool-cases (text_eq k l)) [
        | inl f ↦ rw (f, ap (text_eq k) same ∙ f) refl
        | inr f ↦ rw (f, ap (text_eq k) same ∙ f) refl
      ])
  | inr e ↦ rw e (elim (Bool-cases (text_eq k l)) [
    | inl f ↦ rw (f, other k l f e) refl
    | inr f ↦ rw f (index_get-index_insert k j i m)
  ])
]
  where
    other : (k l : Text) → text_eq k l ≡ true → text_eq j l ≡ false → text_eq k j ≡ false
    other k l f e = elim (Bool-cases (text_eq k j)) [
      | inr g ↦ g
      | inl g ↦
          let kj = text_eq→eq k j g in
          let clash : text_eq j l ≡ true = ap (λ x. text_eq x l) (sym kj) ∙ f in cc
    ]

-- Whether a name is, in lower case, among some aliases.
abbrev pub is_alias : Text → List Text → Bool
is_alias k [] = false
is_alias k (a ∷ as') = if text_eq k (to_lower a) then true else is_alias k as'

index_get-index_aliases :
    (k : Text) (as' : List Text) (i : ℕ) (m : List (Text × ℕ))
    → index_get k (index_aliases as' i m) ≡ (if is_alias k as' then some i else index_get k m)
index_get-index_aliases k [] i m = refl
index_get-index_aliases k (a ∷ as') i m =
    index_get-index_aliases k as' i (index_insert (to_lower a) i m)
    ∙ elim (Bool-cases (text_eq k (to_lower a))) [
      | inl e ↦ rw (index_get-index_insert k (to_lower a) i m, e) (both (is_alias k as'))
      | inr e ↦ rw (index_get-index_insert k (to_lower a) i m, e) refl
    ]
  where
    both : (b : Bool) → ◌≡◌ {A = Option ℕ} (if b then some i else some i) (some i)
    both true = refl
    both false = refl

-- Every position of the index is one of the entries.
pub IsValid : Catalog → Type 0
IsValid c = (k : Text) (i : ℕ) → index_get k c.by_name ≡ some i → i < length c.entries

pub empty_catalog-IsValid : IsValid empty_catalog
unfolding IsValid
empty_catalog-IsValid k i e = cc

-- What adding an entry does.
pub record Added (entry : CatalogFile) (c t : Catalog) : Type 0 where
  by_its_name : (k : Text) → to_lower k ≡ to_lower entry.name → lookup k t ≡ some entry
  by_alias : (k : Text) → is_alias (to_lower k) entry.aliases ≡ true → lookup k t ≡ some entry
  pub valid : IsValid t

in_range :
    (c : Catalog) (p i : ℕ) (b : Bool) (o : Option ℕ)
    → p < length c.entries
    → (o ≡ some i → i < length c.entries)
    → (if b then some p else o) ≡ some i
    → i < length c.entries
in_range c p i true o new old h = omega (arith, some-injective p i h)
in_range c p i false o new old h = old h

module _ (entry : CatalogFile) (c : Catalog) (v : IsValid c) where
  placed_here :
      (o : Option ℕ)
      → index_get (to_lower entry.name) c.by_name ≡ o
      → (get_elem? (placed entry o c).0.entries (placed entry o c).1 ≡ some entry)
        × (index_get (to_lower entry.name) (placed entry o c).0.by_name ≡ some (placed entry o c).1)
        × ((k : Text) (i : ℕ)
            → index_get k (placed entry o c).0.by_name ≡ some i
            → i < length (placed entry o c).0.entries)
  unfolding IsValid
  placed_here (some i) e = (
    get_elem?-set_self c.entries i entry (v (to_lower entry.name) i e),
    e,
    λ k j h. omega (arith, v k j h, length-set {0} c.entries i entry),
  )
  placed_here none e = (
    get_elem?-append_last c.entries entry,
    index_get-index_insert (to_lower entry.name) (to_lower entry.name) (length c.entries) c.by_name
        ∙ rw (text_eq_self (to_lower entry.name)) refl,
    λ k j h.
        bounded k j
          (sym (index_get-index_insert k (to_lower entry.name) (length c.entries) c.by_name) ∙ h),
  )
    where
      bounded :
          (k : Text) (j : ℕ)
          → (if text_eq k (to_lower entry.name)
              then some (length c.entries)
              else index_get k c.by_name)
            ≡ some j
          → j < length (c.entries ++ entry ∷ [])
      bounded k j h = elim (Bool-cases (text_eq k (to_lower entry.name))) [
        | inl s ↦ omega (
          arith,
          some-injective (length c.entries) j (rw s at h),
          length-append {0} c.entries (entry ∷ []),
        )
        | inr s ↦ omega (arith, v k j (rw s at h), length-append {0} c.entries (entry ∷ []))
      ]

  -- After an entry has been added, its name and each of its aliases, in any spelling, find it, whatever
  -- they found before; every position of the index stays one of the entries.
  pub add-Added : Added entry c (add entry c)
  unfolding add lookup IsValid
  add-Added =
      let k0 = to_lower entry.name in
      let p = placed entry (index_get k0 c.by_name) c in
      let (here, named, bound) = placed_here (index_get k0 c.by_name) refl in
      let index = λ (k : Text). index_get-index_aliases k entry.aliases p.1 p.0.by_name in
      let found =
        λ (k : Text) (h : index_get k (index_aliases entry.aliases p.1 p.0.by_name) ≡ some p.1).
          ap (entry_at p.0.entries) h ∙ here in
      record {
        by_its_name = λ k e. found (to_lower k) (
            index (to_lower k)
            ∙ ap
                (λ x.
                  if is_alias (to_lower k) entry.aliases then some p.1 else index_get x p.0.by_name)
                e
            ∙ ap (λ o. if is_alias (to_lower k) entry.aliases then some p.1 else o) named
            ∙ both p.1 (is_alias (to_lower k) entry.aliases));
        by_alias = λ k e. found (to_lower k) (index (to_lower k) ∙ rw e refl);
        valid = λ k i h.
            in_range p.0 p.1 i (is_alias k entry.aliases) (index_get k p.0.by_name)
              (bound k0 p.1 named) (bound k i) (sym (index k) ∙ h);
      }
    where
      both : (i : ℕ) (b : Bool) → ◌≡◌ {A = Option ℕ} (if b then some i else some i) (some i)
      both i true = refl
      both i false = refl

  -- When the new entry's name already stands for a position, under whatever name or alias, the entry
  -- takes that position: every other name of the shell that was there, its own included, finds the new
  -- entry afterwards.
  pub add_takes_over :
      (i : ℕ) (other : Text)
      → index_get (to_lower entry.name) c.by_name ≡ some i
      → index_get (to_lower other) c.by_name ≡ some i
      → lookup other (add entry c) ≡ some entry
  unfolding add lookup IsValid
  add_takes_over i other at_i there =
      ap
        (λ o. entry_at (placed entry o c).0.entries (
          index_get (to_lower other)
            (index_aliases entry.aliases (placed entry o c).1 (placed entry o c).0.by_name)))
        at_i
      ∙ ap (entry_at (set c.entries i entry)) (
          index_get-index_aliases (to_lower other) entry.aliases i c.by_name
          ∙ ap (λ o. if is_alias (to_lower other) entry.aliases then some i else o) there
          ∙ both (is_alias (to_lower other) entry.aliases))
      ∙ get_elem?-set_self c.entries i entry (v (to_lower entry.name) i at_i)
    where
      both : (b : Bool) → ◌≡◌ {A = Option ℕ} (if b then some i else some i) (some i)
      both true = refl
      both false = refl
