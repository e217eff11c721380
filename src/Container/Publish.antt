-- ===== src/Container/Publish.antt =====
-- Publishing a container's ports: the ephemeral ports, the proxies and the variables
-- (crates/psroot-container/src/container.rs, crates/psroot-portmap/src/lib.rs).
use psroot.Prelude.{ℕ, Bool, true, false, Option, none, some, List, [], ◌∷◌, ◌++◌, if◌then◌else◌}
use psroot.Text.{Text, codes}
use psroot.Text.Decimal.{show}
use psroot.PortMap.{PortMapping, env_insert, env_for_mappings}
use psroot.Container.{
  PsrootError, Result, ok, err, Os, Op, give, Io, done, failed, perform, set_runtime, set_config,
  get_container, ◌>>=◌, ◌>>◌,
}

abbrev pub insert_all : List (Text × Text) → List (Text × Text) → List (Text × Text)
insert_all [] env = env
insert_all ((k, v) ∷ kvs) env = insert_all kvs (env_insert k v env)

abbrev pub with_port : ℕ → PortMapping → PortMapping
with_port p m = record m { ephemeral_port = some p }

abbrev pub not_allocated : Text → PsrootError
not_allocated e = PsrootError.other (codes "allocate ephemeral port: " ++ e)

abbrev pub not_published : PortMapping → Text → PsrootError
not_published m e =
    let host = m.host_bind ++ (codes ":" ++ show m.host_port) in
    PsrootError.other
      (codes "publish " ++ (host ++ (codes " -> " ++ (show m.container_port ++ (codes ": " ++ e)))))

abbrev pub has_ports : List PortMapping → Bool
has_ports [] = false
has_ports (m ∷ ms) = true

-- The mappings of an interactive shell forward to the container's own ports.
abbrev pub own_port : PortMapping → Option ℕ → PortMapping
own_port m none = with_port m.container_port m
own_port m (some p) = m

abbrev pub own_ports : List PortMapping → List PortMapping
own_ports [] = []
own_ports (m ∷ ms) = own_port m m.ephemeral_port ∷ own_ports ms

abbrev pub has_mapper : Option (List PortMapping) → Bool
has_mapper none = false
has_mapper (some ms) = true

module _ {W : Type 0} (os : Os W) where
  -- An ephemeral port for each mapping that has none; those before an error keep theirs.
  abbrev pub allocate_from : List PortMapping → W → Result (Unit {0}) × (List PortMapping × W)
  allocate_from [] h = (ok tt, ([], h))
  allocate_from (m ∷ ms) h = elim m.ephemeral_port [
    | some p ↦ let r = allocate_from ms h in (r.0, (m ∷ r.1.0, r.1.1))
    | none ↦ elim (os.allocate_ephemeral h).0 [
      | done p ↦
          let r = allocate_from ms (os.allocate_ephemeral h).1 in
          (r.0, (with_port p m ∷ r.1.0, r.1.1))
      | failed e ↦ (err (not_allocated e), (m ∷ ms, (os.allocate_ephemeral h).1))
    ]
  ]

  abbrev pub allocate_ports : Op W (Unit {0})
  allocate_ports w =
      let r = allocate_from w.container.config.ports w.host in
      let config = record w.container.config { ports = r.1.0 } in
      (r.0, record w { container = record w.container { config = config }; host = r.1.1 })

  -- Starts one proxy.
  abbrev pub add : PortMapping → Option ℕ → W → Io (Unit {0}) × W
  add m none h = (failed (codes "PortMapping.ephemeral_port not allocated"), h)
  add m (some p) h = os.start_proxy m.host_bind m.host_port p h

  -- Starts the proxies of the mappings; an error drops the mapper, which stops those it has.
  abbrev pub add_all : List PortMapping → List PortMapping → W → Result (List PortMapping) × W
  add_all added [] h = (ok added, h)
  add_all added (m ∷ ms) h = elim (add m m.ephemeral_port h).0 [
    | done u ↦ add_all (added ++ m ∷ []) ms (add m m.ephemeral_port h).1
    | failed e ↦ (err (not_published m e), os.stop_proxies added (add m m.ephemeral_port h).1)
  ]

  abbrev pub add_proxies : Op W (List PortMapping)
  add_proxies w =
      let r = add_all [] w.container.config.ports w.host in (r.0, record w { host = r.1 })

  -- What dropping a mapper does.
  abbrev pub shutdown : Option (List PortMapping) → W → W
  shutdown none h = h
  shutdown (some mapper) h = os.stop_proxies mapper h

  -- The mapper is kept in place of one from an earlier try, which is dropped, and the container's environment gets the ports.
  abbrev pub published : List PortMapping → Op W (Unit {0})
  published mapper = do
    c ← get_container
    perform (shutdown c.runtime.port_mapper)
    set_runtime (λ r. record r { port_mapper = some mapper })
    set_config (λ c. record c { env = insert_all (env_for_mappings c.ports) c.env })

  unfoldable pub publish_ports : Op W (Unit {0})
  publish_ports = do
    c ← get_container
    if has_ports c.config.ports
        then (do allocate_ports; mapper ← add_proxies; published mapper)
        else give tt

  unfoldable pub setup_port_mappings_for_shell : Op W (Unit {0})
  setup_port_mappings_for_shell = do
    c ← get_container
    if has_ports c.config.ports
        then if has_mapper c.runtime.port_mapper then give tt else (do
          set_config (λ c'. record c' { ports = own_ports c'.ports })
          mapper ← add_proxies
          published mapper)
        else give tt

  unfoldable pub teardown_port_mappings : Op W (Unit {0})
  teardown_port_mappings = do
    c ← get_container
    perform (shutdown c.runtime.port_mapper)
    set_runtime (λ r. record r { port_mapper = none })
