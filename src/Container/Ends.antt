-- ===== src/Container/Ends.antt =====
-- How a container ends: stop, the drop of the value and remove
-- (crates/psroot-container/src/container.rs).
use psroot.Prelude.{◌≡◌, refl, sym, ap, ◌∙◌, subst, true, false, Bool-cases, inl, inr, List}
use psroot.Text.{codes}
use psroot.PortMap.{PortMapping}
use psroot.Container.{
  ContainerState, is_running, Result, ok, err, StateFile, no_runtime, Saved, saved, kept, torn, Os,
  World, after, ◌>>◌,
}
use psroot.Container.Publish.{
  has_ports, has_mapper, own_ports, add_proxies, published, setup_port_mappings_for_shell,
}
use psroot.Container.Start.{read_state, written, write_state, state_of}
use psroot.Container.Life.{
  stop, remove, drop_container, drop_fields, forget, remove_tree, before_removal, not_running,
}
use psroot.Container.Records.{released, setup_port_mappings_for_shell-Same}

module _ {W : Type 0} (os : Os W) where
  -- A container that has ended holds nothing and does not run.
  abbrev pub Ended : World W → Type 0
  Ended w = (w.container.state ≡ ContainerState.stopped) × (w.container.runtime ≡ no_runtime)

  written-Ended :
      (sf : StateFile) (w : World W) (s : Saved W) → Ended w → Ended (written os sf w s).1
  written-Ended sf w (saved h) p = p
  written-Ended sf w (kept e h) p = p
  written-Ended sf w (torn e h) p = p

  pub stop-Ended : (w : World W) → is_running w.container.state ≡ true → Ended (stop os w).1
  unfolding stop write_state
  stop-Ended w e =
      let w' = record w {
        container = record w.container { state = ContainerState.stopped; runtime = no_runtime };
        host = released os w.container.runtime w.host;
      } in
      let sf = state_of w'.container (read_state os w') in
      rw e (written-Ended sf w' (os.save sf w'.host) (refl, refl))

  -- What is not running is left alone.
  pub stop_idle : (w : World W) → is_running w.container.state ≡ false → stop os w ≡ (ok tt, w)
  unfolding stop
  stop_idle w e = rw e refl

  drop_container-Ended :
      (w : World W) → is_running w.container.state ≡ true → Ended (drop_container os w)
  unfolding drop_container drop_fields
  drop_container-Ended w e =
      let ended = stop-Ended w e in
      let through : drop_container os w ≡ drop_fields os (stop os w).1 = rw e refl in
      rw through (ended.0, refl)

  -- What a refused removal leaves before the value is dropped.
  refused :
      (w : World W)
      → is_running w.container.state ≡ true
      → (do before_removal os false; forget os; remove_tree os) w
        ≡ (err (not_running os w.container (codes "stopped or created")), w)
  unfolding stop
  refused w e = rw e refl

  -- A removal without force of a running container is refused, with the error of a wrong state, and yet
  -- the container is stopped and holds nothing afterwards: the value that `remove` takes is dropped.
  pub remove_refused_stops :
      (w : World W)
      → is_running w.container.state ≡ true
      → ((remove os false w).0 ≡ err (not_running os w.container (codes "stopped or created")))
        × Ended (remove os false w).1
  unfolding remove stop
  remove_refused_stops w e =
      let r = refused w e in
      (
        ap (λ (r : Result (Unit {0}) × World W). r.0) r,
        subst (λ (r : Result (Unit {0}) × World W). Ended (drop_container os r.1)) (sym r)
            (drop_container-Ended w e),
      )

  -- When the proxies were started, they are the container's.
  published-HasMapper :
      (r : Result (List PortMapping) × World W)
      → (after r (λ mapper. published os mapper)).0 ≡ ok tt
      → has_mapper (after r (λ mapper. published os mapper)).1.container.runtime.port_mapper ≡ true
  published-HasMapper (ok mapper, w) h = refl
  published-HasMapper (err e, w) h = cc

  setup-HasMapper :
      (w : World W)
      → has_ports w.container.config.ports ≡ true
      → (setup_port_mappings_for_shell os w).0 ≡ ok tt
      → has_mapper (setup_port_mappings_for_shell os w).1.container.runtime.port_mapper ≡ true
  unfolding setup_port_mappings_for_shell
  setup-HasMapper w p h = elim (Bool-cases (has_mapper w.container.runtime.port_mapper)) [
    | inl e ↦ rw (p, e) e
    | inr e ↦
        let config = record w.container.config { ports = own_ports w.container.config.ports } in
        let w1 = record w { container = record w.container { config = config } } in
        rw (p, e) (published-HasMapper (add_proxies os w1) (rw (p, e) at h))
  ]

  -- The proxies of an interactive shell outlive stop: when the ports of a container that does not run are
  -- published for a shell with success, a stop then succeeds and changes nothing, and the container still
  -- has its proxies.
  pub stop_keeps_proxies :
      (w : World W)
      → is_running w.container.state ≡ false
      → has_ports w.container.config.ports ≡ true
      → (setup_port_mappings_for_shell os w).0 ≡ ok tt
      → (stop os (setup_port_mappings_for_shell os w).1
          ≡ (ok tt, (setup_port_mappings_for_shell os w).1))
        × (has_mapper
              (stop os (setup_port_mappings_for_shell os w).1).1.container.runtime.port_mapper
            ≡ true)
  stop_keeps_proxies w e p h =
      let same = setup_port_mappings_for_shell-Same os w in
      let idle = stop_idle (setup_port_mappings_for_shell os w).1 (ap is_running same.0 ∙ e) in
      (idle, rw idle (setup-HasMapper w p h))
