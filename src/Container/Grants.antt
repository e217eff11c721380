-- ===== src/Container/Grants.antt =====
-- No recorded grant is lost: what state.json says of the grants and caches through a container's life,
-- and what its removal revokes (crates/psroot-container/src/container.rs,
-- crates/psroot-rootfs-stager/src/lib.rs).
use psroot.Prelude.{
  ℕ, ◌≡◌, ◌≢◌, refl, sym, ap, ◌∙◌, subst, true, Bool, Bool-cases, inl, inr, Option, none, some,
  List, [], ◌∷◌, ◌++◌, append-nil, append_assoc,
}
use psroot.Text.{Text}
use psroot.Shell.{LaunchPlan}
use psroot.Container.{
  ContainerState, is_running, is_created, PsrootError, Result, ok, err, AceGrantRecord, StateFile,
  ContainerConfig, Silo, no_runtime, Container, Saved, saved, kept, torn, Os, World, after,
}
use psroot.Container.Publish.{teardown_port_mappings}
use psroot.Container.Start
use psroot.Container.Start.{
  read_state, grants_of, refs_of, state_of, written, write_state, prepared, begun, spawn,
  nothing_of,
}
use psroot.Container.Life
use psroot.Container.Life.{
  contains, records_of, with_plan, exec_in, rewritten, recorded, shell_with_plan, revoke_ace_record,
  revoke_all, unreferenced, unreference_cache, unreference_all, forget,
}
use psroot.Container.Records.{
  released, after_holds, setup_port_mappings_for_shell-Same, prepared-Stays,
}
use psroot.Container.Runs.{Call, step, run}

-- The second record has what the first has, in the same order.
abbrev pub Grows : Option StateFile → Option StateFile → Type 0
Grows b a =
    ((more : List AceGrantRecord) × (grants_of a ≡ grants_of b ++ more))
    × ((more : List Text) × (refs_of a ≡ refs_of b ++ more))

grown_none : (b : Option StateFile) → Grows b b
grown_none b = (([], sym (append-nil (grants_of b))), ([], sym (append-nil (refs_of b))))

grown_twice : (a b c : Option StateFile) → Grows a b → Grows b c → Grows a c
grown_twice a b c h k = (
  (h.0.0 ++ k.0.0, k.0.1 ∙ ap (λ l. l ++ k.0.0) h.0.1 ∙ append_assoc (grants_of a) h.0.0 k.0.0),
  (h.1.0 ++ k.1.0, k.1.1 ∙ ap (λ l. l ++ k.1.0) h.1.1 ∙ append_assoc (refs_of a) h.1.0 k.1.0),
)

-- Reads of state.json succeed, and a write of it that fails leaves the file as it was.
pub record KeepsFile {W : Type 0} (os : Os W) : Type 0 where
  pub readable : (h : W) → os.readable h ≡ true
  pub atomic : (sf : StateFile) (h h' : W) (e : PsrootError) → os.save sf h ≢ torn e h'

module _ {W : Type 0} (os : Os W) (keeps : KeepsFile os) where
  pub read_whole : (w : World W) → read_state os w ≡ w.state_json
  read_whole w = rw (keeps.readable w.host) refl

  written-Grows :
      (c : Container) (json : Option StateFile) (w : World W) (s : Saved W)
      → w.state_json ≡ json
      → ((e : PsrootError) (h : W) → s ≢ torn e h)
      → Grows json (written os (state_of c json) w s).1.state_json
  written-Grows c json w (saved h) q a = grown_none json
  written-Grows c json w (kept e h) q a = rw q (grown_none json)
  written-Grows c json w (torn e h) q a = absurd (a e h refl)

  write_state-Grows : (w : World W) → Grows w.state_json (write_state os w).1.state_json
  unfolding write_state
  write_state-Grows w =
      let sf = state_of w.container (read_state os w) in
      let read = read_whole w in
      subst (λ json. Grows json (write_state os w).1.state_json) read
        (written-Grows w.container (read_state os w) w (os.save sf w.host) (sym read)
          (λ e h. keeps.atomic sf w.host h e))

  -- A write of the record that keeps the file's grants and caches.
  begun-Grows :
      (json : Option StateFile) (r : Result (Unit {0}) × World W)
      → r.1.state_json ≡ json
      → Grows json (after r (λ u. begun os)).1.state_json
  unfolding begun
  begun-Grows json (ok u, w) h =
      let w' = record w { container = record w.container { state = ContainerState.running } } in
      rw (sym h) (write_state-Grows w')
  begun-Grows json (err e, w) h = rw h (grown_none json)

  start-Grows : (w : World W) → Grows w.state_json (Start.start os w).1.state_json
  unfolding Start.start
  start-Grows w = elim (Bool-cases (is_created w.container.state)) [
    | inl e ↦
        let caps = os.capabilities w.host in
        rw e (begun-Grows w.state_json (prepared os caps w) (prepared-Stays os caps w).1)
    | inr e ↦ rw e (grown_none w.state_json)
  ]

  stop-Grows : (w : World W) → Grows w.state_json (Life.stop os w).1.state_json
  unfolding Life.stop
  stop-Grows w =
      let w' = record w {
        container = record w.container { state = ContainerState.stopped; runtime = no_runtime };
        host = released os w.container.runtime w.host;
      } in
      elim (Bool-cases (is_running w.container.state)) [
        | inl e ↦ rw e (write_state-Grows w')
        | inr e ↦ rw e (grown_none w.state_json)
      ]

  exec_in_keeps :
      (cmd : Text) (config : ContainerConfig) (silo : Option Silo) (job : Option ℕ) (w : World W)
      → (exec_in os cmd config silo job w).1.state_json ≡ w.state_json
  exec_in_keeps cmd config (some silo) job w =
      let r = spawn os silo cmd (nothing_of config.env) config.working_directory w.host in
      after_holds (λ w'. w'.state_json ≡ w.state_json) (r.0, record w { host = r.1 }) _ refl
        (λ p w' h. h)
  exec_in_keeps cmd config none (some job) w = refl
  exec_in_keeps cmd config none none w = refl

  exec-Grows : (cmd : Text) (w : World W) → Grows w.state_json (Life.exec os cmd w).1.state_json
  unfolding Life.exec
  exec-Grows cmd w = elim (Bool-cases (is_running w.container.state)) [
    | inl e ↦
        let c = w.container in
        rw (e, exec_in_keeps cmd c.config c.runtime.silo c.runtime.job w) (grown_none w.state_json)
    | inr e ↦ rw e (grown_none w.state_json)
  ]

  with_plan-Grows :
      (plan : LaunchPlan) (sid : Text) (sf : StateFile)
      → Grows (some sf) (some (with_plan plan sid sf))
  unfolding with_plan
  with_plan-Grows plan sid sf = elim (Bool-cases (contains plan.cache_dir sf.cache_refs)) [
    | inl e ↦ ((records_of sid plan.aces, refl), rw e ([], sym (append-nil sf.cache_refs)))
    | inr e ↦ ((records_of sid plan.aces, refl), rw e (plan.cache_dir ∷ [], refl))
  ]

  rewritten-Grows :
      (b : StateFile) (sf : StateFile) (w : World W) (s : Saved W)
      → w.state_json ≡ some b
      → Grows (some b) (some sf)
      → ((e : PsrootError) (h : W) → s ≢ torn e h)
      → Grows (some b) (rewritten os sf w s).state_json
  rewritten-Grows b sf w (saved h) q g a = g
  rewritten-Grows b sf w (kept e h) q g a = rw q (grown_none (some b))
  rewritten-Grows b sf w (torn e h) q g a = absurd (a e h refl)

  recorded-Grows :
      (plan : LaunchPlan) (sid : Text) (json : Option StateFile) (w : World W)
      → w.state_json ≡ json
      → Grows json (recorded os plan sid json w).state_json
  unfolding with_plan
  recorded-Grows plan sid none w q = rw q (grown_none none)
  recorded-Grows plan sid (some sf) w q =
      let sf' = with_plan plan sid sf in
      rewritten-Grows sf sf' w (os.save sf' w.host) q (with_plan-Grows plan sid sf)
        (λ e h. keeps.atomic sf' w.host h e)

  spawned_then :
      (w w1 : World W) (plan : LaunchPlan) (r : Result (Text × ℕ))
      → w1.state_json ≡ w.state_json
      → Grows w.state_json
          (after
            (r, w1)
            (λ a w'. (ok a.1, recorded os plan a.0 (read_state os w') w'))).1.state_json
  spawned_then w w1 plan (ok a) q =
      subst (λ json. Grows json (recorded os plan a.0 (read_state os w1) w1).state_json)
        (read_whole w1 ∙ q) (recorded-Grows plan a.0 (read_state os w1) w1 (sym (read_whole w1)))
  spawned_then w w1 plan (err e) q = rw q (grown_none w.state_json)

  shell-Grows :
      (plan : LaunchPlan) (use_silo : Bool) (w : World W)
      → Grows w.state_json (shell_with_plan os plan use_silo w).1.state_json
  unfolding shell_with_plan
  shell-Grows plan use_silo w =
      let r = os.spawn_interactive_plan use_silo plan w.container.config w.host in
      let w1 = record w { host = r.1 } in spawned_then w w1 plan r.0 refl

  step-Grows : (c : Call) (w : World W) → Grows w.state_json (step os c w).state_json
  unfolding step teardown_port_mappings
  step-Grows Call.start w = start-Grows w
  step-Grows Call.stop w = stop-Grows w
  step-Grows Call.setup_ports w =
      rw (setup_port_mappings_for_shell-Same os w).1 (grown_none w.state_json)
  step-Grows Call.teardown_ports w = grown_none w.state_json
  step-Grows (Call.exec cmd) w = exec-Grows cmd w
  step-Grows (Call.shell plan use_silo) w = shell-Grows plan use_silo w

  -- Through any sequence of operations, whichever calls of the system fail, state.json keeps each grant
  -- and each cache that it has recorded, in order, if reads of the file succeed and a
  -- failed write leaves it as it was.
  pub run-Grows : (cs : List Call) (w : World W) → Grows w.state_json (run os cs w).state_json
  unfolding step
  run-Grows [] w = grown_none w.state_json
  run-Grows (c ∷ cs) w =
      grown_twice w.state_json (step os c w).state_json (run os cs (step os c w)).state_json
        (step-Grows c w) (run-Grows cs (step os c w))
