-- ===== src/Container/Sound.antt =====
-- A running container has a silo or a job, throughout its life
-- (crates/psroot-container/src/container.rs).
use psroot.Prelude.{ℕ, refl, Bool, Bool-cases, inl, inr, Option, none, some, List, [], ◌∷◌}
use psroot.Text.{Text}
use psroot.Shell.{LaunchPlan}
use psroot.Container.{
  ContainerState, is_running, StateFile, Silo, ContainerConfig, no_runtime, Saved, saved, kept,
  torn, Os, World,
}
use psroot.Container.Publish.{setup_port_mappings_for_shell, teardown_port_mappings}
use psroot.Container.Start.{
  read_state, spawn, spawned, prepared, begun, ended, ended_silo, drop_silo, drop_job,
  drop_netstack, start_silo, start_job, with_init, with_child, with_job, nothing_of, uses_netstack,
  env_of_netstack, try_inject_netstack, written, write_state, state_of,
}
use psroot.Container.Start
use psroot.Container.Life
use psroot.Container.Life.{exec_in, shell_with_plan, recorded, rewritten, with_plan}
use psroot.Container.Records.{released, Same, after_holds, setup_port_mappings_for_shell-Same}
use psroot.Container.Runs.{Call, step, run}
use psroot.Container.Started.{IsSound, start-IsSound}

module _ {W : Type 0} (os : Os W) where
  written-IsSound :
      (sf : StateFile) (w : World W) (s : Saved W) → IsSound w → IsSound (written os sf w s).1
  written-IsSound sf w (saved h) p = p
  written-IsSound sf w (kept e h) p = p
  written-IsSound sf w (torn e h) p = p

  stop-IsSound : (w : World W) → IsSound w → IsSound (Life.stop os w).1
  unfolding Life.stop write_state
  stop-IsSound w sound =
      let w1 = record w {
        container = record w.container { state = ContainerState.stopped; runtime = no_runtime };
        host = released os w.container.runtime w.host;
      } in
      let sf = state_of w1.container (read_state os w1) in
      elim (Bool-cases (is_running w.container.state)) [
        | inl e ↦ rw e (written-IsSound sf w1 (os.save sf w1.host) (λ e'. cc))
        | inr e ↦ rw e sound
      ]

  exec_in-IsSound :
      (cmd : Text) (config : ContainerConfig) (silo : Option Silo) (job : Option ℕ) (w : World W)
      → IsSound w
      → IsSound (exec_in os cmd config silo job w).1
  exec_in-IsSound cmd config (some silo) job w sound =
      let r = spawn os silo cmd (nothing_of config.env) config.working_directory w.host in
      after_holds IsSound (r.0, record w { host = r.1 }) _ sound (λ p w' h. λ e. refl)
  exec_in-IsSound cmd config none (some job) w sound = sound
  exec_in-IsSound cmd config none none w sound = sound

  exec-IsSound : (cmd : Text) (w : World W) → IsSound w → IsSound (Life.exec os cmd w).1
  unfolding Life.exec
  exec-IsSound cmd w sound = elim (Bool-cases (is_running w.container.state)) [
    | inl e ↦
        let c = w.container in
        rw e (exec_in-IsSound cmd c.config c.runtime.silo c.runtime.job w sound)
    | inr e ↦ rw e sound
  ]

  Same-IsSound : (w w' : World W) → Same w w' → IsSound w → IsSound w'
  Same-IsSound w w' h sound = rw (h.0, h.3, h.4) sound

  rewritten-IsSound :
      (sf : StateFile) (w : World W) (s : Saved W) → IsSound w → IsSound (rewritten os sf w s)
  rewritten-IsSound sf w (saved h) p = p
  rewritten-IsSound sf w (kept e h) p = p
  rewritten-IsSound sf w (torn e h) p = p

  recorded-IsSound :
      (plan : LaunchPlan) (sid : Text) (json : Option StateFile) (w : World W)
      → IsSound w
      → IsSound (recorded os plan sid json w)
  unfolding with_plan
  recorded-IsSound plan sid none w sound = sound
  recorded-IsSound plan sid (some sf) w sound =
      let sf' = with_plan plan sid sf in rewritten-IsSound sf' w (os.save sf' w.host) sound

  shell-IsSound :
      (plan : LaunchPlan) (use_silo : Bool) (w : World W)
      → IsSound w
      → IsSound (shell_with_plan os plan use_silo w).1
  unfolding shell_with_plan with_plan
  shell-IsSound plan use_silo w sound =
      let r = os.spawn_interactive_plan use_silo plan w.container.config w.host in
      after_holds IsSound (r.0, record w { host = r.1 }) _ sound
        (λ a w' h. recorded-IsSound plan a.0 (read_state os w') w' h)

  step-IsSound : (c : Call) (w : World W) → IsSound w → IsSound (step os c w)
  unfolding step teardown_port_mappings setup_port_mappings_for_shell Life.exec Life.stop
      Start.start shell_with_plan
  step-IsSound Call.start w h = start-IsSound os w h
  step-IsSound Call.stop w h = stop-IsSound w h
  step-IsSound Call.setup_ports w h =
      Same-IsSound w (setup_port_mappings_for_shell os w).1
        (setup_port_mappings_for_shell-Same os w) h
  step-IsSound Call.teardown_ports w h = h
  step-IsSound (Call.exec cmd) w h = exec-IsSound cmd w h
  step-IsSound (Call.shell plan use_silo) w h = shell-IsSound plan use_silo w h

  -- Whatever is called on a container in whatever order, and whichever calls of the system fail, a
  -- container that is running has a silo or a job, if this is so at the beginning. So exec never misses
  -- both of them.
  pub run-IsSound : (cs : List Call) (w : World W) → IsSound w → IsSound (run os cs w)
  unfolding step
  run-IsSound [] w h = h
  run-IsSound (c ∷ cs) w h = run-IsSound cs (step os c w) (step-IsSound c w h)
