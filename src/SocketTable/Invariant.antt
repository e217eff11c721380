-- ===== src/SocketTable/Invariant.antt =====
-- The free list holds each vacant id once and nothing else, and id 0 is never handed out.
use psroot.Prelude.{
  ℕ, zero, suc, ◌+◌, ◌<◌, ◌≡◌, ◌≢◌, refl, sym, ap, ◌∙◌, Option, none, some, List, [], ◌∷◌, ◌++◌,
  ltb, if◌then◌else◌, length, length-append, length-set, get_elem?, get_elem?-set_self,
  get_elem?-set_ne, get_elem?-append_left, get_elem?-append_last, get_elem?-ge, set, ◌==◌, ==→ne,
  ==→eq, ==_self, ltb→le, subst, ◌⊎◌, arith, Bool-cases, inl, inr, true,
}
use psroot.SocketTable.{
  SocketTable, u32, occupant, empty_table, insert, insert_from, recycle, fresh, get,
}

-- How often an id stands in the queue of free ids.
abbrev pub count : ℕ → List ℕ → ℕ
count i [] = 0
count i (j ∷ l) = (if i == j then 1 else 0) + count i l

-- 1 for a slot that is there and empty.
abbrev pub vacancy {ℓ} : {T : Type ℓ} → Option (Option T) → ℕ
vacancy none = 0
vacancy (some none) = 1
vacancy (some (some x)) = 0

pub record IsValid {ℓ} {T : Type ℓ} (t : SocketTable T) : Type ℓ where
  pub sized : length t.slots ≡ t.next_id
  pub reserved : get_elem? t.slots 0 ≡ some none
  pub not_free : count 0 t.free ≡ 0
  pub vacant : (i : ℕ) → i ≢ 0 → count i t.free ≡ vacancy (get_elem? t.slots i)

pub count-append :
    (i j : ℕ) (l : List ℕ) → count i (l ++ j ∷ []) ≡ count i l + (if i == j then 1 else 0)
count-append i j [] = omega arith
count-append i j (k ∷ l) = omega (arith, count-append i j l)

pub none-ne-some {ℓ} : {A : Type ℓ} (a : A) → none ≢ some a
none-ne-some a e = cc

vacancy_cases {ℓ} :
    {T : Type ℓ} (o : Option (Option T)) → ((o ≡ some none) × (vacancy o ≡ 1)) ⊎ (vacancy o ≡ 0)
vacancy_cases none = inr refl
vacancy_cases (some none) = inl (refl, refl)
vacancy_cases (some (some x)) = inr refl

only_reserved {ℓ} :
    (T : Type ℓ) (i : ℕ) → i ≢ 0 → 0 ≡ vacancy (get_elem? {A = Option T} (none ∷ []) i)
only_reserved T zero h = absurd (h refl)
only_reserved T (suc i) h = refl

get_elem?-append_cases {ℓ} :
    {A : Type ℓ} (xs : List A) (v : A) (i : ℕ)
    → ((i ≡ length xs) × (get_elem? (xs ++ v ∷ []) i ≡ some v))
      ⊎ ((i ≢ length xs) × (get_elem? (xs ++ v ∷ []) i ≡ get_elem? xs i))
get_elem?-append_cases [] v zero = inl (refl, refl)
get_elem?-append_cases [] v (suc i) = inr (omega arith, refl)
get_elem?-append_cases (x ∷ xs) v zero = inr (omega arith, refl)
get_elem?-append_cases (x ∷ xs) v (suc i) = elim (get_elem?-append_cases xs v i) [
  | inl (e, g) ↦ inl (ap suc e, g)
  | inr (e, g) ↦ inr (omega (arith, e), g)
]

module _ {ℓ} {T : Type ℓ} where
  pub empty_table-IsValid : IsValid (empty_table {T = T})
  unfolding empty_table
  empty_table-IsValid = record {
    sized = refl;
    reserved = refl;
    not_free = refl;
    vacant = only_reserved T;
  }

  -- The id at the head of the free list names an empty slot of the table.
  head_vacant :
      {t : SocketTable T} {id : ℕ} {rest : List ℕ}
      → IsValid t
      → t.free ≡ id ∷ rest
      → (id ≢ 0) × (get_elem? t.slots id ≡ some none) × (count id rest ≡ 0)
  head_vacant {t} {id} {rest} v e = elim (vacancy_cases (get_elem? t.slots id)) [
    | inl (empty_slot, one) ↦
        (nonzero, empty_slot, omega (arith, counted, one, v.vacant id nonzero))
    | inr zero_slot ↦ absurd (omega (arith, counted, zero_slot, v.vacant id nonzero))
  ]
    where
      counted : count id t.free ≡ 1 + count id rest
      counted = rw (e, ==_self id) refl

      nonzero : id ≢ 0
      nonzero z = omega (arith, counted, ap (λ i. count i t.free) z, v.not_free)

  -- What an insertion that returns has done.
  pub record Inserted (t : SocketTable T) (value : T) (id : ℕ) (t' : SocketTable T) : Type ℓ where
    pub positive : id ≢ 0
    pub unused : get id t ≡ none
    pub stored : get id t' ≡ some value
    pub others : (j : ℕ) → j ≢ id → get j t' ≡ get j t
    pub valid : IsValid t'

  set-IsValid :
      {t : SocketTable T} {id : ℕ} {rest : List ℕ} (value : T)
      → IsValid t
      → t.free ≡ id ∷ rest
      → id < length t.slots
      → IsValid (record t { slots = set t.slots id (some value); free = rest })
  set-IsValid {t} {id} {rest} value v e inside =
      let (nonzero, empty_slot, gone) = head_vacant v e in
      record {
        sized = length-set t.slots id (some value) ∙ v.sized;
        reserved = get_elem?-set_ne t.slots id 0 (some value) nonzero ∙ v.reserved;
        not_free = omega (arith, ap (count 0) e, v.not_free);
        vacant = λ i h. elim (Bool-cases (i == id)) [
          | inl here ↦ rw (==→eq i id here, get_elem?-set_self t.slots id (some value) inside) gone
          | inr away ↦
              sym (ap (λ b. (if b then 1 else 0) + count i rest) away ∙ omega arith)
              ∙ sym (ap (count i) e)
              ∙ v.vacant i h
              ∙ ap vacancy
                  (sym (get_elem?-set_ne t.slots id i (some value) (λ q. ==→ne i id away (sym q))))
        ];
      }

  recycle-eq-some :
      (t : SocketTable T) {t' : SocketTable T} {id : ℕ} {rest : List ℕ} (value : T) (out : ℕ)
      → recycle id rest value t ≡ some (out, t')
      → (id < length t.slots)
        × (out ≡ id)
        × (t' ≡ record t { slots = set t.slots id (some value); free = rest })
  recycle-eq-some t {t'} {id} {rest} value out h = ground arith

  fresh-eq-some :
      (t : SocketTable T) {t' : SocketTable T} (value : T) (out : ℕ)
      → fresh value t ≡ some (out, t')
      → (out ≡ t.next_id)
        × (t' ≡ record t { slots = t.slots ++ some value ∷ []; next_id = t.next_id + 1 })
  fresh-eq-some t {t'} value out h = ground arith

  recycle-Inserted :
      {t t' : SocketTable T} {id : ℕ} {rest : List ℕ} (value : T) (out : ℕ)
      → IsValid t
      → t.free ≡ id ∷ rest
      → recycle id rest value t ≡ some (out, t')
      → Inserted t value out t'
  unfolding get
  recycle-Inserted {t} {t'} {id} {rest} value out v e h =
      let (inside, eo, et) = recycle-eq-some t value out h in
      let (nonzero, empty_slot, gone) = head_vacant v e in
      rw (eo, et)
        record {
          positive = nonzero;
          unused = ap occupant empty_slot;
          stored = ap occupant (get_elem?-set_self t.slots id (some value) inside);
          others =
              λ j ne. ap occupant (get_elem?-set_ne t.slots id j (some value) (λ q. ne (sym q)));
          valid = set-IsValid value v e inside;
        }

  fresh-Inserted :
      {t t' : SocketTable T} (value : T) (out : ℕ)
      → IsValid t
      → t.free ≡ []
      → fresh value t ≡ some (out, t')
      → Inserted t value out t'
  unfolding get
  fresh-Inserted {t} {t'} value out v e h =
      let (eo, et) = fresh-eq-some t value out h in
      rw (eo, et)
        record {
          positive = positive;
          unused = ap occupant (get_elem?-ge t.slots t.next_id (omega (arith, v.sized)));
          stored = ap occupant (
              subst (λ n. get_elem? (t.slots ++ some value ∷ []) n ≡ some (some value)) v.sized
                (get_elem?-append_last t.slots (some value)));
          others = λ j ne. elim (get_elem?-append_cases t.slots (some value) j) [
            | inl (q, g) ↦ absurd (ne (q ∙ v.sized))
            | inr (q, g) ↦ ap occupant g
          ];
          valid = record {
            sized = omega (arith, length-append t.slots (some value ∷ []), v.sized);
            reserved =
                get_elem?-append_left t.slots (some value ∷ []) 0 (omega (arith, positive, v.sized))
                ∙ v.reserved;
            not_free = v.not_free;
            vacant = λ i ne. elim (get_elem?-append_cases t.slots (some value) i) [
              | inl (q, g) ↦ ap (count i) e ∙ ap vacancy (sym g)
              | inr (q, g) ↦ v.vacant i ne ∙ ap vacancy (sym g)
            ];
          };
        }
    where
      positive : t.next_id ≢ 0
      positive z =
          none-ne-some _ (sym (get_elem?-ge t.slots 0 (omega (arith, z, v.sized))) ∙ v.reserved)

  insert_from-Inserted :
      {t t' : SocketTable T} (free : List ℕ) (value : T) (out : ℕ)
      → IsValid t
      → t.free ≡ free
      → insert_from free value t ≡ some (out, t')
      → Inserted t value out t'
  insert_from-Inserted [] value out v e h = fresh-Inserted value out v e h
  insert_from-Inserted (id ∷ rest) value out v e h = recycle-Inserted value out v e h

  -- An insertion hands out a nonzero id that nothing occupied, stores the value there, leaves every
  -- other socket as it was, and keeps the table valid.
  pub insert-Inserted :
      {t t' : SocketTable T} (value : T) (out : ℕ)
      → IsValid t
      → insert value t ≡ some (out, t')
      → Inserted t value out t'
  unfolding insert
  insert-Inserted {t} value out v h = insert_from-Inserted t.free value out v refl h

  recycle-ne-none :
      (t : SocketTable T) (id : ℕ) (rest : List ℕ) (value : T)
      → ltb id (length t.slots) ≡ true
      → recycle id rest value t ≢ none
  recycle-ne-none t id rest value inside h = ground arith

  insert_from-total :
      {t : SocketTable T} (free : List ℕ) (value : T)
      → IsValid t
      → t.free ≡ free
      → t.next_id + 1 < u32
      → insert_from free value t ≢ none
  insert_from-total [] value v e room h = ground arith
  insert_from-total {t} (id ∷ rest) value v e room h =
      let (nonzero, empty_slot, gone) = head_vacant v e in
      elim (Bool-cases (ltb id (length t.slots))) [
        | inl inside ↦ recycle-ne-none t id rest value inside h
        | inr outside ↦
            none-ne-some _ (sym (get_elem?-ge t.slots id (ltb→le _ _ outside)) ∙ empty_slot)
      ]

  -- A valid table takes one more socket unless its id space is used up: no access is out of range.
  insert-total :
      {t : SocketTable T} (value : T) → IsValid t → t.next_id + 1 < u32 → insert value t ≢ none
  unfolding insert
  insert-total {t} value v room = insert_from-total t.free value v refl room
