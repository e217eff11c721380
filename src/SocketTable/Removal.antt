-- ===== src/SocketTable/Removal.antt =====
-- Closing a socket empties its slot and queues its id; writing through `get_mut` moves no id.
use psroot.Prelude.{
  ℕ, ◌<◌, ◌≡◌, ◌≢◌, refl, sym, ap, ◌∙◌, Option, none, some, [], ◌∷◌, ◌++◌, if◌then◌else◌, length,
  length-set, get_elem?, get_elem?-set_self, get_elem?-set_ne, get_elem?-ge, set, ◌==◌, ==→ne,
  ==→eq, ==_self, ne→==, Bool, arith, Option-cases, Bool-cases, inl, inr, ltb, ltb→lt, ltb→le,
  lt→ltb,
}
use psroot.SocketTable.{SocketTable, occupant, insert, get, put, remove}
use psroot.SocketTable.Invariant.{IsValid, vacancy, count-append, none-ne-some}

abbrev weight : Bool → ℕ
weight b = if b then 1 else 0

module _ {ℓ} {T : Type ℓ} where
  -- An occupied slot is in range, and is not the reserved one.
  pub occupied :
      {t : SocketTable T} {id : ℕ} {w : T}
      → IsValid t
      → occupant (get_elem? t.slots id) ≡ some w
      → (id ≢ 0) × (id < length t.slots) × (get_elem? t.slots id ≡ some (some w))
  occupied {t} {id} {w} v e = (
    λ z.
        none-ne-some w
          (sym (ap (λ i. occupant (get_elem? t.slots i)) z ∙ ap occupant v.reserved) ∙ e),
    elim (Bool-cases (ltb id (length t.slots))) [
      | inl inside ↦ ltb→lt _ _ inside
      | inr outside ↦
          absurd
            (none-ne-some w (sym (ap occupant (get_elem?-ge t.slots id (ltb→le _ _ outside))) ∙ e))
    ],
    unwrap (get_elem? t.slots id) e,
  )
    where
      unwrap : (o : Option (Option T)) → occupant o ≡ some w → o ≡ some (some w)
      unwrap none h = absurd (none-ne-some w h)
      unwrap (some o) h = ap some h

  pub record Removed (t : SocketTable T) (id : ℕ) (out : Option T) (t' : SocketTable T)
      : Type ℓ where
    pub was : out ≡ get id t
    pub gone : get id t' ≡ none
    pub others : (j : ℕ) → j ≢ id → get j t' ≡ get j t
    pub valid : IsValid t'

  vacate-IsValid :
      {t : SocketTable T} (id : ℕ) {w : T}
      → IsValid t
      → occupant (get_elem? t.slots id) ≡ some w
      → IsValid (record t { slots = set t.slots id none; free = t.free ++ id ∷ [] })
  vacate-IsValid {t} id {w} v e =
      let (nonzero, inside, found) = occupied v e in
      record {
        sized = length-set t.slots id none ∙ v.sized;
        reserved = get_elem?-set_ne t.slots id 0 none nonzero ∙ v.reserved;
        not_free =
            count-append 0 id t.free
            ∙ omega (arith, v.not_free, ap weight (ne→== 0 id (λ z. nonzero (sym z))));
        vacant = λ i h. elim (Bool-cases (i == id)) [
          | inl here ↦
              rw (==→eq i id here, get_elem?-set_self t.slots id none inside)
                (count-append id id t.free
                  ∙ omega (arith, v.vacant id nonzero, ap vacancy found, ap weight (==_self id)))
          | inr away ↦
              count-append i id t.free
              ∙ omega (arith, ap weight away)
              ∙ v.vacant i h
              ∙ ap vacancy (sym (get_elem?-set_ne t.slots id i none (λ q. ==→ne i id away (sym q))))
        ];
      }

  -- Closing an id gives back what it held, leaves it unknown and every other socket as it was, and
  -- keeps the table valid; an id that held nothing changes nothing.
  pub remove-Removed :
      {t : SocketTable T} (id : ℕ) → IsValid t → Removed t id (remove id t).0 (remove id t).1
  unfolding remove get
  remove-Removed {t} id v = elim (Option-cases (occupant (get_elem? t.slots id))) [
    | inl unknown ↦
        rw unknown record { was = sym unknown; gone = unknown; others = λ j ne. refl; valid = v }
    | inr (w, found) ↦
        let (nonzero, inside, there) = occupied v found in
        rw found record {
          was = sym found;
          gone = ap occupant (get_elem?-set_self t.slots id none inside);
          others = λ j ne. ap occupant (get_elem?-set_ne t.slots id j none (λ q. ne (sym q)));
          valid = vacate-IsValid id v found;
        }
  ]

  -- A write through `get_mut` replaces the state of one socket.
  pub put-IsValid :
      {t : SocketTable T} {id : ℕ} {w : T} (value : T)
      → IsValid t
      → get id t ≡ some w
      → IsValid (put id value t)
        × (get id (put id value t) ≡ some value)
        × ((j : ℕ) → j ≢ id → get j (put id value t) ≡ get j t)
  unfolding get put
  put-IsValid {t} {id} {w} value v e =
      let (nonzero, inside, found) = occupied v e in
      (
        record {
          sized = length-set t.slots id (some value) ∙ v.sized;
          reserved = get_elem?-set_ne t.slots id 0 (some value) nonzero ∙ v.reserved;
          not_free = v.not_free;
          vacant = λ i h. elim (Bool-cases (i == id)) [
            | inl here ↦
                rw (==→eq i id here, get_elem?-set_self t.slots id (some value) inside)
                  (v.vacant id nonzero ∙ ap vacancy found)
            | inr away ↦
                v.vacant i h
                ∙ ap vacancy (
                    sym (get_elem?-set_ne t.slots id i (some value) (λ q. ==→ne i id away (sym q))))
          ];
        },
        ap occupant (get_elem?-set_self t.slots id (some value) inside),
        λ j ne. ap occupant (get_elem?-set_ne t.slots id j (some value) (λ q. ne (sym q))),
      )

  recycled :
      {t : SocketTable T} {id : ℕ} {w : T} (value : T)
      → IsValid t
      → t.free ≡ []
      → get id t ≡ some w
      → insert value (remove id t).1
        ≡ some (id, record t { slots = set (set t.slots id none) id (some value); free = [] })
  unfolding get remove insert
  recycled {t} {id} {w} value v e found =
      let (nonzero, inside, there) = occupied v found in
      rw found (
        rw e (
          rw
            (lt→ltb id (length (set t.slots id none))
              (omega (arith, inside, length-set t.slots id none)))
            refl))
