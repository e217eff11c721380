-- ===== src/Container/Runs.antt =====
-- Sequences of operations on one container: what holds throughout its life
-- (crates/psroot-container/src/container.rs).
use psroot.Prelude.{Bool, List, [], ◌∷◌}
use psroot.Text.{Text}
use psroot.Shell.{LaunchPlan}
use psroot.Container.{Os, World}
use psroot.Container.Publish.{setup_port_mappings_for_shell, teardown_port_mappings}
use psroot.Container.Start.{
  spawn, spawned, prepared, begun, ended, ended_silo, drop_silo, drop_job, drop_netstack,
  start_silo, start_job, with_init, with_child, with_job, nothing_of, uses_netstack,
  env_of_netstack, try_inject_netstack, written, write_state, state_of,
}
use psroot.Container.Start
use psroot.Container.Life
use psroot.Container.Life.{exec_in, shell_with_plan, recorded, rewritten, with_plan}

pub data Call : Type 0 where
  start stop setup_ports teardown_ports : Call
  exec : Text → Call
  shell : LaunchPlan → Bool → Call

unfoldable pub step : {W : Type 0} → Os W → Call → World W → World W
unfolding Start.start Life.stop Life.exec setup_port_mappings_for_shell teardown_port_mappings
    shell_with_plan
step os Call.start w = (Start.start os w).1
step os Call.stop w = (Life.stop os w).1
step os Call.setup_ports w = (setup_port_mappings_for_shell os w).1
step os Call.teardown_ports w = (teardown_port_mappings os w).1
step os (Call.exec cmd) w = (Life.exec os cmd w).1
step os (Call.shell plan use_silo) w = (shell_with_plan os plan use_silo w).1

abbrev pub run : {W : Type 0} → Os W → List Call → World W → World W
unfolding step
run os [] w = w
run os (c ∷ cs) w = run os cs (step os c w)
