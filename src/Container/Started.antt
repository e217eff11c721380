-- ===== src/Container/Started.antt =====
-- A container that was started has a silo or a job
-- (crates/psroot-container/src/container.rs).
use psroot.Prelude.{
  ℕ, ◌≡◌, refl, sym, ap, ◌∙◌, Bool, true, false, ◌||◌, ◌&&◌, Bool-cases, inl, inr, Option, none,
  some,
}
use psroot.Text.{codes, join}
use psroot.Container.{
  ContainerState, is_running, is_created, Result, ok, err, StateFile, Silo, Runtime, Container,
  Saved, saved, kept, torn, Os, World, after,
}
use psroot.Container.Publish.{insert_all, publish_ports}
use psroot.Container.Start.{
  read_state, spawn, spawned, prepared, begun, ended, ended_silo, drop_silo, drop_job,
  drop_netstack, start_silo, start_job, with_init, with_child, with_job, nothing_of, uses_netstack,
  env_of_netstack, try_inject_netstack, written, write_state, state_of,
}
use psroot.Container.Links.{setup_bind_links}
use psroot.Container.Start
use psroot.Container.Records.{prepared-Stays}

abbrev pub has_silo : Option Silo → Bool
has_silo none = false
has_silo (some silo) = true

abbrev pub has_job : Option ℕ → Bool
has_job none = false
has_job (some job) = true

abbrev pub HasProcesses : Runtime → Type 0
HasProcesses r = (has_silo r.silo || has_job r.job) ≡ true

-- A running container has its silo or its job.
abbrev pub IsSound : {W : Type 0} → World W → Type 0
IsSound w = is_running w.container.state ≡ true → HasProcesses w.container.runtime

created-not-running : (s : ContainerState) → is_created s ≡ true → is_running s ≡ false
created-not-running ContainerState.created h = refl
created-not-running ContainerState.running h = cc
created-not-running ContainerState.stopped h = refl
created-not-running ContainerState.removed h = refl

module _ {W : Type 0} where
  abbrev OkHas : {A : Type 0} → Result A × World W → Type 0
  OkHas (ok a, w) = HasProcesses w.container.runtime
  OkHas (err e, w) = Unit

  after-OkHas :
      {A B : Type 0} (r : Result A × World W) (f : A → World W → Result B × World W)
      → ((a : A) (w : World W) → OkHas (f a w))
      → OkHas (after r f)
  after-OkHas (ok a, w) f h = h a w
  after-OkHas (err e, w) f h = tt

module _ {W : Type 0} (os : Os W) where
  written-Has :
      (sf : StateFile) (w : World W) (s : Saved W)
      → HasProcesses w.container.runtime
      → HasProcesses (written os sf w s).1.container.runtime
  written-Has sf w (saved h) p = p
  written-Has sf w (kept e h) p = p
  written-Has sf w (torn e h) p = p

  with_init-Has : (c : Container) (silo : Silo) (w : World W) → OkHas (with_init os c silo w)
  with_init-Has c silo w =
      let cmd = join (codes " ") c.config.command in
      let r = spawn os silo cmd (nothing_of c.config.env) c.config.working_directory w.host in
      after-OkHas (ended os (drop_silo os silo) w r) _ (λ p w'. refl)

  start_silo-Has : (has_filter : Bool) (w : World W) → OkHas (start_silo os has_filter w)
  start_silo-Has has_filter w =
      let c = w.container in
      let made = os.silo_create c.config.rootfs_path c.config.resources w.host in
      after-OkHas (made.0, record w { host = made.1 }) _
        (λ silo w1.
          let links = setup_bind_links os has_filter c.config.volumes w1.host in
          after-OkHas (ended os (ended_silo os silo) w1 links) _ (λ l w2. with_init-Has c silo _))

  with_child-Has : (job : ℕ) (ns : Option ℕ) (w : World W) → OkHas (with_child os job ns w)
  with_child-Has job ns w =
      let config = record w.container.config {
        env = insert_all (env_of_netstack os ns) w.container.config.env;
      } in
      let cleanup = λ (h' : W). drop_job os job (drop_netstack os ns h') in
      let r = os.spawn_sandboxed (join (codes " ") config.command) config job w.host in
      let w1 = record w { container = record w.container { config = config } } in
      after-OkHas (ended os cleanup w1 r) _ (λ pid w2.
        after-OkHas (try_inject_netstack os pid ns w2) _
          (λ u w3. job_last w3.container.runtime.silo))
    where
      job_last : (silo : Option Silo) → has_silo silo || true ≡ true
      job_last none = refl
      job_last (some silo) = refl

  with_job-Has : (job : ℕ) (w : World W) → OkHas (with_job os job w)
  with_job-Has job w =
      let started = os.start_netstack w.container.id w.host in
      elim (Bool-cases (uses_netstack w.container.config.network)) [
        | inl e ↦ rw e (with_child-Has job started.0 (record w { host = started.1 }))
        | inr e ↦ rw e (with_child-Has job none w)
      ]

  start_job-Has : (has_filter : Bool) (w : World W) → OkHas (start_job os has_filter w)
  start_job-Has has_filter w =
      let c = w.container in
      let made = os.job_new w.host in
      after-OkHas (made.0, record w { host = made.1 }) _
        (λ job w1.
          after-OkHas (ended os (drop_job os job) w1 (os.enable_kill_on_close job w1.host)) _
            (λ u w2.
              let limited = os.apply_limits job c.config.resources w2.host in
              after-OkHas (ended os (drop_job os job) w2 limited) _ (λ u' w3.
                let links = setup_bind_links os has_filter c.config.volumes w3.host in
                after-OkHas (ended os (drop_job os job) w3 links) _ (λ l w4. with_job-Has job _))))

  prepared-Has : (caps : Bool × Bool) (w : World W) → OkHas (prepared os caps w)
  unfolding prepared
  prepared-Has caps w = after-OkHas (publish_ports os w) _ (λ u w'.
      elim (Bool-cases (w'.container.config.silo && caps.0)) [
        | inl e ↦ rw e (start_silo-Has caps.1 w')
        | inr e ↦ rw e (start_job-Has caps.1 w')
      ])

  begun-IsSound :
      (r : Result (Unit {0}) × World W)
      → OkHas r
      → is_running r.1.container.state ≡ false
      → IsSound (after r (λ u. begun os)).1
  unfolding begun write_state
  begun-IsSound (ok u, w) p h =
      let w' = record w { container = record w.container { state = ContainerState.running } } in
      let sf = state_of w'.container (read_state os w') in
      λ e. written-Has sf w' (os.save sf w.host) p
  begun-IsSound (err e, w) p h = λ e'. let clash : true ≡ false = sym e' ∙ h in cc

  -- Starting keeps this.
  pub start-IsSound : (w : World W) → IsSound w → IsSound (Start.start os w).1
  unfolding Start.start
  start-IsSound w sound = elim (Bool-cases (is_created w.container.state)) [
    | inl e ↦
        let caps = os.capabilities w.host in
        let stays = prepared-Stays os caps w in
        rw e (
          begun-IsSound (prepared os caps w) (prepared-Has caps w)
            (ap is_running stays.0 ∙ created-not-running w.container.state e))
    | inr e ↦ rw e sound
  ]
