-- ===== src/PortMap/Variables.antt =====
-- The variables that a container with published ports gets (crates/psroot-portmap/src/lib.rs).
use psroot.Prelude.{
  ℕ, ◌≡◌, refl, sym, ap, ◌∙◌, true, false, Bool-cases, inl, inr, Option, none, some, List, [], ◌∷◌,
}
use psroot.Text.{Text, codes, text_eq, text_eq_self, text_eq→eq}
use psroot.Text.Decimal.{show}
use psroot.PortMap.{
  PortMapping, env_get, env_insert, port_variable, env_of, env_from, or_insert, env_for_mappings,
}

env_get-env_insert-same :
    (k v : Text) (env : List (Text × Text)) → env_get k (env_insert k v env) ≡ some v
env_get-env_insert-same k v [] = rw (text_eq_self k) refl
env_get-env_insert-same k v ((j, w) ∷ env) = elim (Bool-cases (text_eq k j)) [
  | inl e ↦ rw (e, e) refl
  | inr e ↦ rw (e, e) (env_get-env_insert-same k v env)
]

env_get-env_insert-other :
    (k j v : Text) (env : List (Text × Text))
    → text_eq k j ≡ false
    → env_get k (env_insert j v env) ≡ env_get k env
env_get-env_insert-other k j v [] h = rw h refl
env_get-env_insert-other k j v ((i, w) ∷ env) h = elim (Bool-cases (text_eq j i)) [
  | inl e ↦
      let other : text_eq k i ≡ false = ap (text_eq k) (sym (text_eq→eq j i e)) ∙ h in
      rw (e, other) refl
  | inr e ↦ elim (Bool-cases (text_eq k i)) [
    | inl same ↦ rw (e, same) refl
    | inr other ↦ rw (e, other) (env_get-env_insert-other k j v env h)
  ]
]

-- What a name that no mapping sets keeps.
env_get-env_of :
    (k : Text) (m : PortMapping) (eph : Option ℕ) (env : List (Text × Text))
    → text_eq k (port_variable m) ≡ false
    → env_get k (env_of false m eph env) ≡ env_get k env
env_get-env_of k m none env h = refl
env_get-env_of k m (some e) env h = env_get-env_insert-other k (port_variable m) (show e) env h

env_get-env_from :
    (k : Text) (ms : List PortMapping) (env : List (Text × Text))
    → ((m : PortMapping) → text_eq k (port_variable m) ≡ false)
    → env_get k (env_from false ms env) ≡ env_get k env
env_get-env_from k [] env h = refl
env_get-env_from k (m ∷ ms) env h =
    env_get-env_from k ms (env_of false m m.ephemeral_port env) h
    ∙ env_get-env_of k m m.ephemeral_port env (h m)

port_is_free : (m : PortMapping) → text_eq (codes "PORT") (port_variable m) ≡ false
unfolding port_variable
port_is_free m = refl

host_is_free : (m : PortMapping) → text_eq (codes "HOST") (port_variable m) ≡ false
unfolding port_variable
host_is_free m = refl

env_get-or_insert-other :
    (k j v : Text) (found : Option Text) (env : List (Text × Text))
    → text_eq k j ≡ false
    → env_get k (or_insert j v found env) ≡ env_get k env
env_get-or_insert-other k j v none env h = env_get-env_insert-other k j v env h
env_get-or_insert-other k j v (some w) env h = refl

-- A port as the value of a variable, if there is one.
abbrev pub shown : Option ℕ → Option Text
shown none = none
shown (some p) = some (show p)

port_first :
    (m : PortMapping) (eph : Option ℕ) → env_get (codes "PORT") (env_of true m eph []) ≡ shown eph
unfolding port_variable
port_first m none = refl
port_first m (some e) = refl

host_first :
    (m : PortMapping) (eph : Option ℕ) → env_get (codes "HOST") (env_of true m eph []) ≡ none
unfolding port_variable
host_first m none = refl
host_first m (some e) = refl

host_set :
    (v : Text) (found : Option Text) (env : List (Text × Text))
    → found ≡ none
    → env_get (codes "HOST") (or_insert (codes "HOST") v found env) ≡ some v
host_set v none env h = env_get-env_insert-same (codes "HOST") v env
host_set v (some w) env h = cc

-- A container with published ports gets the ephemeral port of the first of them in PORT, and no PORT
-- when the first has none, whatever the later ones are; HOST is always the loopback address.
env_for_mappings-first :
    (m : PortMapping) (ms : List PortMapping)
    → (env_get (codes "PORT") (env_for_mappings (m ∷ ms)) ≡ shown m.ephemeral_port)
      × (env_get (codes "HOST") (env_for_mappings (m ∷ ms)) ≡ some (codes "127.0.0.1"))
unfolding env_for_mappings
env_for_mappings-first m ms =
    let env = env_from true (m ∷ ms) [] in
    let first = env_of true m m.ephemeral_port [] in
    let port = env_get-env_from (codes "PORT") ms first port_is_free in
    let host = env_get-env_from (codes "HOST") ms first host_is_free in
    (
      env_get-or_insert-other (codes "PORT") (codes "HOST") (codes "127.0.0.1")
            (env_get (codes "HOST") env) env refl
          ∙ port
          ∙ port_first m m.ephemeral_port,
      host_set (codes "127.0.0.1") (env_get (codes "HOST") env) env
          (host ∙ host_first m m.ephemeral_port),
    )
