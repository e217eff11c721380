-- ===== src/PortMap.antt =====
-- Port publishing: the parser of publish specifications and the variables that a container gets
-- (crates/psroot-portmap/src/lib.rs). The proxy threads are the operating system's.
use psroot.Prelude.{
  ℕ, zero, suc, ◌^◌, Bool, true, false, Option, none, some, List, [], ◌∷◌, ◌++◌, ◌==◌,
  if◌then◌else◌,
}
use psroot.Text.{Text, codes, text_eq}
use psroot.Text.Split.{split}
use psroot.Text.Decimal.{read_number, show}
pub mod Publish
pub mod Variables

pub record PortMapping : Type 0 where
  pub host_bind : Text
  pub host_port : ℕ
  pub container_port : ℕ
  pub ephemeral_port : Option ℕ
  pub name : Option Text

pub data PortError : Type 0 where
  invalid_port port_zero invalid_spec : PortError

pub data Result (A : Type 0) : Type 0 where
  ok : A → Result A
  err : PortError → Result A

infixl 5 ◌>>=◌
abbrev pub ◌>>=◌ : {A B : Type 0} → Result A → (A → Result B) → Result B
ok a >>= f = f a
err e >>= f = err e

abbrev pub nonzero : Option ℕ → Result ℕ
nonzero none = err PortError.invalid_port
nonzero (some p) = if p == 0 then err PortError.port_zero else ok p

unfoldable pub parse_port : Text → Result ℕ
parse_port s = nonzero (read_number (2 ^ 16) s)

abbrev pub mapping : Text → ℕ → ℕ → PortMapping
mapping bind host container = record {
  host_bind = bind;
  host_port = host;
  container_port = container;
  ephemeral_port = none;
  name = none;
}

abbrev pub loopback : Text
loopback = codes "127.0.0.1"

abbrev pub parse_parts : List Text → Result PortMapping
unfolding parse_port
parse_parts (p ∷ []) = do h ← parse_port p; c ← parse_port p; ok (mapping loopback h c)
parse_parts (h ∷ c ∷ []) = do h' ← parse_port h; c' ← parse_port c; ok (mapping loopback h' c')
parse_parts (b ∷ h ∷ c ∷ []) = do h' ← parse_port h; c' ← parse_port c; ok (mapping b h' c')
parse_parts _ = err PortError.invalid_spec

unfoldable pub parse_publish : Text → Result PortMapping
unfolding parse_port
parse_publish s = parse_parts (split b':' s)

-- The variables as a map: an insertion replaces.
abbrev pub env_get : Text → List (Text × Text) → Option Text
env_get k [] = none
env_get k ((j, v) ∷ env) = if text_eq k j then some v else env_get k env

abbrev pub env_insert : Text → Text → List (Text × Text) → List (Text × Text)
env_insert k v [] = (k, v) ∷ []
env_insert k v ((j, w) ∷ env) = if text_eq k j then (j, v) ∷ env else (j, w) ∷ env_insert k v env

unfoldable pub port_variable : PortMapping → Text
port_variable m = codes "PSROOT_PORT_" ++ show m.container_port

-- What the mapping at a position adds.
abbrev pub env_of : Bool → PortMapping → Option ℕ → List (Text × Text) → List (Text × Text)
env_of is_first m none env = env
env_of is_first m (some eph) env =
    let env' = env_insert (port_variable m) (show eph) env in
    if is_first then env_insert (codes "PORT") (show eph) env' else env'

abbrev pub env_from : Bool → List PortMapping → List (Text × Text) → List (Text × Text)
env_from is_first [] env = env
env_from is_first (m ∷ ms) env = env_from false ms (env_of is_first m m.ephemeral_port env)

abbrev pub or_insert : Text → Text → Option Text → List (Text × Text) → List (Text × Text)
or_insert k v none env = env_insert k v env
or_insert k v (some w) env = env

unfoldable pub env_for_mappings : List PortMapping → List (Text × Text)
unfolding port_variable
env_for_mappings [] = []
env_for_mappings (m ∷ ms) =
    let env = env_from true (m ∷ ms) [] in
    or_insert (codes "HOST") (codes "127.0.0.1") (env_get (codes "HOST") env) env
