-- ===== src/Container/Records.antt =====
-- What the steps before a container runs leave alone: its state and its state.json
-- (crates/psroot-container/src/container.rs).
use psroot.Prelude.{ℕ, ◌≡◌, refl, Bool, ◌&&◌, Bool-cases, inl, inr, Option, none, some, []}
use psroot.Text.{codes, join}
use psroot.Container.{Runtime, Result, ok, err, Silo, Container, Os, World, after}
use psroot.Container.Life.{end_silo, end_job}
use psroot.Container.Links.{unlink, setup_bind_links}
use psroot.Container.Publish.{
  shutdown, has_ports, has_mapper, publish_ports, setup_port_mappings_for_shell, add_all, own_ports,
  insert_all, allocate_from, add_proxies, published,
}
use psroot.Container.Start.{
  ended, spawn, with_init, with_child, with_job, nothing_of, drop_silo, drop_job, drop_netstack,
  ended_silo, env_of_netstack, start_silo, start_job, prepared, uses_netstack, try_inject_netstack,
}

module _ {W : Type 0} where
  -- The container is in the same state and its record is the same.
  abbrev pub Stays : World W → World W → Type 0
  Stays w w' =
      (w'.container.state ≡ w.container.state)
      × (w'.state_json ≡ w.state_json)
      × (w'.container.id ≡ w.container.id)

  -- Its processes are the same as well.
  abbrev pub Same : World W → World W → Type 0
  Same w w' =
      (w'.container.state ≡ w.container.state)
      × (w'.state_json ≡ w.state_json)
      × (w'.container.id ≡ w.container.id)
      × (w'.container.runtime.silo ≡ w.container.runtime.silo)
      × (w'.container.runtime.job ≡ w.container.runtime.job)

  abbrev same : (w : World W) → Same w w
  same w = (refl, refl, refl, refl, refl)

  -- What holds after the first part of an operation, and is kept by the second, holds at its end.
  pub after_holds :
      {A B : Type 0} (P : World W → Type 0) (r : Result A × World W)
      (f : A → World W → Result B × World W)
      → P r.1
      → ((a : A) (w : World W) → P w → P (f a w).1)
      → P (after r f).1
  after_holds P (ok a, w) f h k = k a w h
  after_holds P (err e, w) f h k = h

module _ {W : Type 0} (os : Os W) where
  -- The host after stop has taken the parts of a runtime.
  abbrev pub released : Runtime → W → W
  released r h = drop_netstack os r.netstack (
      shutdown os r.port_mapper (unlink os r.bind_filter (end_job os r.job (end_silo os r.silo h))))

  ended-Stays :
      {A : Type 0} (cleanup : W → W) (w w' : World W) (r : Result A × W)
      → Stays w w'
      → Stays w (ended os cleanup w' r).1
  ended-Stays cleanup w w' (ok a, h) k = k
  ended-Stays cleanup w w' (err e, h) k = k

  proxied :
      (w w' : World W)
      → Same w w'
      → Same w (after (add_proxies os w') (λ mapper. published os mapper)).1
  proxied w w' h =
      let r = add_all os [] w'.container.config.ports w'.host in
      after_holds (Same w) (r.0, record w' { host = r.1 }) (λ mapper. published os mapper) (h)
        (λ mapper w'' k. k)

  publish_ports-Same : (w : World W) → Same w (publish_ports os w).1
  unfolding publish_ports
  publish_ports-Same w =
      let allocated = allocate_from os w.container.config.ports w.host in
      let config = record w.container.config { ports = allocated.1.0 } in
      let w1 = record w {
        container = record w.container { config = config };
        host = allocated.1.1;
      } in
      elim (Bool-cases (has_ports w.container.config.ports)) [
        | inl some_ports ↦ rw some_ports (
            after_holds (Same w) (allocated.0, w1) _ ((refl, refl, refl, refl, refl))
              (λ a w' h. proxied w w' h))
        | inr no_ports ↦ rw no_ports (same w)
      ]

  pub setup_port_mappings_for_shell-Same :
      (w : World W) → Same w (setup_port_mappings_for_shell os w).1
  unfolding setup_port_mappings_for_shell
  setup_port_mappings_for_shell-Same w = elim (Bool-cases (has_ports w.container.config.ports)) [
    | inr no_ports ↦ rw no_ports (same w)
    | inl some_ports ↦ elim (Bool-cases (has_mapper w.container.runtime.port_mapper)) [
      | inl mapped ↦ rw (some_ports, mapped) (same w)
      | inr unmapped ↦
          let config = record w.container.config { ports = own_ports w.container.config.ports } in
          let w1 = record w { container = record w.container { config = config } } in
          rw (some_ports, unmapped) (proxied w w1 (refl, refl, refl, refl, refl))
    ]
  ]

  silo_spawned :
      (w w' : World W) (silo : Silo) (c : Container)
      → Stays w w'
      → Stays w (with_init os c silo w').1
  silo_spawned w w' silo c h =
      let cmd = join (codes " ") c.config.command in
      let env = nothing_of c.config.env in
      let r = spawn os silo cmd env c.config.working_directory w'.host in
      after_holds (Stays w) (ended os (drop_silo os silo) w' r) _
        (ended-Stays (drop_silo os silo) w w' r h) (λ p w'' k. k)

  start_silo-Stays :
      (has_filter : Bool) (w w' : World W) → Stays w w' → Stays w (start_silo os has_filter w').1
  start_silo-Stays has_filter w w' h =
      let c = w'.container in
      let made = os.silo_create c.config.rootfs_path c.config.resources w'.host in
      after_holds (Stays w) (made.0, record w' { host = made.1 }) _ h
        (λ silo w1 h1.
          let links = setup_bind_links os has_filter c.config.volumes w1.host in
          after_holds (Stays w) (ended os (ended_silo os silo) w1 links) _
            (ended-Stays (ended_silo os silo) w w1 links h1)
            (λ l w2 h2. silo_spawned w _ silo c h2))

  injected-Stays :
      (w w' : World W) (pid : ℕ) (ns : Option ℕ)
      → Stays w w'
      → Stays w (try_inject_netstack os pid ns w').1
  injected-Stays w w' pid none h = h
  injected-Stays w w' pid (some ns) h = h

  with_child-Stays :
      (w w' : World W) (job : ℕ) (ns : Option ℕ) → Stays w w' → Stays w (with_child os job ns w').1
  with_child-Stays w w' job ns h =
      let config = record w'.container.config {
        env = insert_all (env_of_netstack os ns) w'.container.config.env;
      } in
      let cleanup = λ (h' : W). drop_job os job (drop_netstack os ns h') in
      let r = os.spawn_sandboxed (join (codes " ") config.command) config job w'.host in
      let w1 = record w' { container = record w'.container { config = config } } in
      after_holds (Stays w) (ended os cleanup w1 r) _ (ended-Stays cleanup w w1 r h) (λ pid w2 h2.
        after_holds (Stays w) (try_inject_netstack os pid ns w2) _ (injected-Stays w w2 pid ns h2)
          (λ u w3 h3. h3))

  with_job-Stays : (w w' : World W) (job : ℕ) → Stays w w' → Stays w (with_job os job w').1
  with_job-Stays w w' job h =
      let started = os.start_netstack w'.container.id w'.host in
      elim (Bool-cases (uses_netstack w'.container.config.network)) [
        | inl e ↦ rw e (with_child-Stays w (record w' { host = started.1 }) job started.0 h)
        | inr e ↦ rw e (with_child-Stays w w' job none h)
      ]

  start_job-Stays :
      (has_filter : Bool) (w w' : World W) → Stays w w' → Stays w (start_job os has_filter w').1
  start_job-Stays has_filter w w' h =
      let c = w'.container in
      let made = os.job_new w'.host in
      after_holds (Stays w) (made.0, record w' { host = made.1 }) _ h
        (λ job w1 h1.
          let closed = os.enable_kill_on_close job w1.host in
          after_holds (Stays w) (ended os (drop_job os job) w1 closed) _
            (ended-Stays (drop_job os job) w w1 closed h1)
            (λ u w2 h2.
              let limited = os.apply_limits job c.config.resources w2.host in
              after_holds (Stays w) (ended os (drop_job os job) w2 limited) _
                (ended-Stays (drop_job os job) w w2 limited h2)
                (λ u' w3 h3.
                  let links = setup_bind_links os has_filter c.config.volumes w3.host in
                  after_holds (Stays w) (ended os (drop_job os job) w3 links) _
                    (ended-Stays (drop_job os job) w w3 links h3)
                    (λ l w4 h4. with_job-Stays w _ job h4))))

  -- Everything before the container runs leaves its state and its record as they are.
  pub prepared-Stays : (caps : Bool × Bool) (w : World W) → Stays w (prepared os caps w).1
  unfolding prepared
  prepared-Stays caps w =
      after_holds (Stays w) (publish_ports os w) _ (let h = publish_ports-Same w in (h.0, h.1, h.2))
        (λ u w' h. elim (Bool-cases (w'.container.config.silo && caps.0)) [
          | inl e ↦ rw e (start_silo-Stays caps.1 w w' h)
          | inr e ↦ rw e (start_job-Stays caps.1 w w' h)
        ])
