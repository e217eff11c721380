-- ===== src/ProcShim/Closure.antt =====
-- The rounds that close the set of allowed processes (crates/psroot-procshim/src/hooks.rs).
use psroot.Prelude.{
  ℕ, zero, suc, ◌≤◌, ◌<◌, ◌≡◌, ◌↔◌, ◌⊎◌, inl, inr, refl, sym, ap, ◌∙◌, subst, true, false,
  Bool-cases, List, [], ◌∷◌, ◌==◌, ==_self, ne→==, length, arith,
}
use psroot.ProcShim.{contains, set_insert, add_child, add_children, close_over, allowed_of}
use psroot.ProcShim.Tree.{
  Listed, Descendant, Subset, contains-cons, contains_head, contains-inv, missing, missing_le,
  missing_mono, missing_new,
}

-- What one entry does to the set: nothing, and its process is there if its parent is, or it is new.
data Added (es : List (ℕ × ℕ)) (e : ℕ × ℕ) (s : List ℕ) : List ℕ → Type 0 where
  same : (contains e.1 s ≡ true → contains e.0 s ≡ true) → Added es e s s
  fresh : contains e.1 s ≡ true → missing es (e.0 ∷ s) < missing es s → Added es e s (e.0 ∷ s)

add_child-Added :
    (es : List (ℕ × ℕ)) (e : ℕ × ℕ) (s : List ℕ) → Listed e es → Added es e s (add_child e s)
add_child-Added es e s h = elim (Bool-cases (contains e.1 s)) [
  | inl parent ↦ elim (Bool-cases (contains e.0 s)) [
    | inl there ↦ rw (parent, there) (Added.same (λ p. there))
    | inr new ↦ rw (parent, new) (Added.fresh parent (missing_new es e s h new))
  ]
  | inr orphan ↦ rw orphan (Added.same (λ p. absurd (false-ne-true (sym orphan ∙ p))))
]
  where
    false-ne-true : false ≡ true → ⊥
    false-ne-true q = cc

-- A round keeps what was there; it is stable and closed, or leaves fewer entries missing.
record Round (es fs : List (ℕ × ℕ)) (s t : List ℕ) : Type 0 where
  grows : Subset s t
  longer : length s ≤ length t
  progress :
      ((t ≡ s) × ((e : ℕ × ℕ) → Listed e fs → contains e.1 s ≡ true → contains e.0 s ≡ true))
      ⊎ ((length s < length t) × (missing es t < missing es s))

Round-step :
    (es fs : List (ℕ × ℕ)) (e : ℕ × ℕ) (s t u : List ℕ)
    → Added es e s t
    → Round es fs t u
    → Round es (e ∷ fs) s u
unfolding Listed
Round-step es fs e s t u (Added.same closed) r = record {
  grows = r.grows;
  longer = r.longer;
  progress = elim r.progress [
    | inl (q, rest) ↦ inl (
      q,
      λ f h. elim h [
        | inl k ↦
            subst (λ (x : ℕ × ℕ). contains x.1 s ≡ true → contains x.0 s ≡ true) (sym k) closed
        | inr k ↦ rest f k
      ],
    )
    | inr q ↦ inr q
  ];
}
Round-step es fs e s t u (Added.fresh parent fewer) r = record {
  grows = λ x h. r.grows x (contains-cons x e.0 s h);
  longer = omega (arith, r.longer);
  progress =
      inr (omega (arith, r.longer), omega (arith, fewer, missing_mono es (e.0 ∷ s) u r.grows));
}

add_children-Round :
    (es fs : List (ℕ × ℕ)) (s : List ℕ)
    → ((e : ℕ × ℕ) → Listed e fs → Listed e es)
    → Round es fs s (add_children fs s)
unfolding Listed
add_children-Round es [] s sub = record {
  grows = λ x h. h;
  longer = omega arith;
  progress = inl (refl, λ e h. absurd h);
}
add_children-Round es (f ∷ fs) s sub =
    Round-step es fs f s (add_child f s) (add_children fs (add_child f s))
      (add_child-Added es f s (sub f (inl refl)))
      (add_children-Round es fs (add_child f s) (λ e h. sub e (inr h)))

-- With fuel for each missing entry, the rounds end in a set that has the child of each of its members.
record Closed (es : List (ℕ × ℕ)) (s t : List ℕ) : Type 0 where
  grows : Subset s t
  closed : (e : ℕ × ℕ) → Listed e es → contains e.1 t ≡ true → contains e.0 t ≡ true

close_over-Closed :
    (fuel : ℕ) (es : List (ℕ × ℕ)) (s : List ℕ)
    → missing es s < fuel
    → Closed es s (close_over fuel es s)
unfolding close_over
close_over-Closed zero es s h = absurd (omega arith)
close_over-Closed (suc fuel) es s h =
    let t = add_children es s in
    let r = add_children-Round es es s (λ e k. k) in
    elim r.progress [
      | inl (q, closed) ↦
          rw (ap (λ x. length x == length s) q ∙ ==_self (length s))
            (subst (λ x. Closed es s x) (sym q) (record { grows = λ x k. k; closed = closed }))
      | inr (longer, fewer) ↦
          let c = close_over-Closed fuel es t (omega arith) in
          rw (ne→== (length t) (length s) (omega arith))
            (record { grows = λ x k. c.grows x (r.grows x k); closed = c.closed })
    ]

module _ (es : List (ℕ × ℕ)) (root : ℕ) where
  abbrev OnlyTree : List ℕ → Type 0
  OnlyTree s = (x : ℕ) → contains x s ≡ true → Descendant es root x

  add_child-OnlyTree :
      (e : ℕ × ℕ) (s : List ℕ) → Listed e es → OnlyTree s → OnlyTree (add_child e s)
  add_child-OnlyTree e s h only = elim (add_child-Added es e s h) as (λ t a. OnlyTree t) [
    | Added.same c ↦ only
    | Added.fresh parent f ↦ λ x k. elim (contains-inv x e.0 s k) [
      | inl q ↦ subst (Descendant es root) (sym q) (Descendant.child e.0 e.1 h (only e.1 parent))
      | inr q ↦ only x q
    ]
  ]

  add_children-OnlyTree :
      (fs : List (ℕ × ℕ)) (s : List ℕ)
      → ((e : ℕ × ℕ) → Listed e fs → Listed e es)
      → OnlyTree s
      → OnlyTree (add_children fs s)
  unfolding Listed
  add_children-OnlyTree [] s sub only = only
  add_children-OnlyTree (f ∷ fs) s sub only =
      add_children-OnlyTree fs (add_child f s) (λ e h. sub e (inr h))
        (add_child-OnlyTree f s (sub f (inl refl)) only)

  close_over-OnlyTree : (fuel : ℕ) (s : List ℕ) → OnlyTree s → OnlyTree (close_over fuel es s)
  unfolding close_over
  close_over-OnlyTree zero s only = only
  close_over-OnlyTree (suc fuel) s only =
      let t = add_children es s in
      let grown = add_children-OnlyTree es s (λ e h. h) only in
      elim (Bool-cases (length t == length s)) [
        | inl e ↦ rw e grown
        | inr e ↦ rw e (close_over-OnlyTree fuel t grown)
      ]

  tree_in :
      {s t : List ℕ}
      → Closed es s t
      → contains root s ≡ true
      → (x : ℕ) → Descendant es root x
      → contains x t ≡ true
  tree_in c h x Descendant.itself = c.grows root h
  tree_in c h x (Descendant.child pid parent l d) = c.closed (pid, parent) l (tree_in c h parent d)

  contains-set_insert :
      (x y : ℕ) (s : List ℕ)
      → (contains x (set_insert y s) ≡ true) ↔ ((x ≡ y) ⊎ (contains x s ≡ true))
  contains-set_insert x y s = elim (Bool-cases (contains y s)) [
    | inl there ↦
        rw there
          ((λ h. inr h), (λ h. elim h [ inl q ↦ ap (λ i. contains i s) q ∙ there | inr k ↦ k ]))
    | inr new ↦ rw new (
      (λ h. contains-inv x y s h),
      (λ h. elim h [
        | inl q ↦ ap (λ i. contains i (y ∷ s)) q ∙ contains_head y s
        | inr k ↦ contains-cons x y s k
      ]),
    )
  ]

  -- The allowed set holds exactly the container's root, its descendants and process 0, however the list
  -- of processes is ordered and whatever cycles its parents form: the rounds end with the whole tree.
  pub allowed_of_iff :
      (x : ℕ) → (contains x (allowed_of es root) ≡ true) ↔ ((x ≡ 0) ⊎ Descendant es root x)
  unfolding allowed_of
  allowed_of_iff x =
      let tree = close_over (suc (length es)) es (root ∷ []) in
      let ins = contains-set_insert x 0 tree in
      let only = close_over-OnlyTree (suc (length es)) (root ∷ []) root_only in
      let closed =
        close_over-Closed (suc (length es)) es (root ∷ [])
          (omega (arith, missing_le es (root ∷ []))) in
      (
        (λ h. elim (ins.0 h) [ inl q ↦ inl q | inr k ↦ inr (only x k) ]),
        (λ h.
            ins.1 (elim h [
              | inl q ↦ inl q
              | inr d ↦ inr (tree_in closed (contains_head root []) x d)
            ])),
      )
    where
      root_only : OnlyTree (root ∷ [])
      root_only y h = elim (contains-inv y root [] h) [
        | inl q ↦ subst (Descendant es root) (sym q) Descendant.itself
        | inr k ↦ cc
      ]
