-- ===== src/Local/Cleanup.antt =====
-- The end of a local scenario: `cleanUp` and `runScenario`.
use try_o_rama.Prelude.{ℕ, ◌≡◌, sym, ap, subst, ◌∙◌, ◌≢◌, Bool, true, false, some, All-map, arith}
use try_o_rama.Js.Exn.{Exn, Result, ok, err, never}
use try_o_rama.Js.Action.{◌>>◌, promise_all, bind_err, bind-eq_ok}
use try_o_rama.Common.Stopping.{ServicesProcess, listed}
use try_o_rama.Local.Conductor.{shut_down}
use try_o_rama.Local.Scenario.{
  World, Surroundings, M, method_of, on_host, setting, shut_down_all, clean_up,
  clean_all_conductors, cleared, finally, then_finally, settled_by, last_step, run_scenario,
}
use try_o_rama.Local.Down.{IsDown-store}
use try_o_rama.Local.Shutdown.{
  IsShut, all_down-scenario, shut_down_all-IsShut, shut_down_all_fails, shut_down_all_hangs,
}

module _ {W : Type 0} (s : Surroundings W) where
  then_finally-eq :
      (r : Result (Unit {0})) (last : M s (Unit {0})) (v : World W) {v' : World W}
      {f : Result (Unit {0})}
      → r ≢ err never
      → last v ≡ (f, v')
      → then_finally s r last v ≡ (settled_by s r f, v')
  then_finally-eq r last v n g = ground (arith, n, g)

  finally-eq :
      (test : M s (Unit {0})) (last : M s (Unit {0})) {w v v' : World W} {r f : Result (Unit {0})}
      → test w ≡ (r, v)
      → r ≢ err never
      → last v ≡ (f, v')
      → finally s test last w ≡ (settled_by s r f, v')
  finally-eq test last {v = v} {r = r} e n g =
      ap (λ x. then_finally s x.0 last x.1) e ∙ then_finally-eq r last v n g

  -- When the test of a scenario has returned or thrown and the clean-up returns, `run_scenario` comes
  -- to what the test came to; every conductor that the scenario had then is without a process, its
  -- service process has exited if it had a process id, and the scenario has no conductors, services
  -- or URLs left.
  pub run_scenario-IsShut :
      (test : M s (Unit {0})) (w v w' : World W) (r : Result (Unit {0}))
      → test w ≡ (r, v)
      → r ≢ err never
      → clean_up s v ≡ (ok tt, w')
      → (run_scenario s test true w ≡ (r, w')) × IsShut v w' × (w'.scenario ≡ cleared s v.scenario)
  unfolding run_scenario clean_up
  run_scenario-IsShut test w v w' r e n h =
      let (u, x, f, g) =
        bind-eq_ok (shut_down_all s)
          (λ u. on_host s (clean_all_conductors s) >> setting s (cleared s)) h in
      let (u', y, f', g') =
        bind-eq_ok (on_host s (clean_all_conductors s)) (λ u. setting s (cleared s)) g in
      let (shut, still) = shut_down_all-IsShut s v x f in
      let same = ap (λ r. r.1) f' in
      let last = ap (λ r. r.1) g' in
      (
        finally-eq test (clean_up s) e n h,
        record {
          down =
              All-map v.scenario.conductors
                (λ i.
                  IsDown-store i x w' (sym (ap (λ w. w.store) last) ∙ sym (ap (λ w. w.store) same)))
                shut.down;
          stopped = λ p e i.
              subst (λ xs. listed p.process xs ≡ true)
                (ap (λ w. w.exited) same ∙ ap (λ w. w.exited) last) (shut.stopped p e i);
        },
        sym (ap (λ w. w.scenario) last) ∙ ap (cleared s) (sym (ap (λ w. w.scenario) same) ∙ still),
      )

  -- Both last steps begin with `shut_down_all`.
  last_step_fails :
      (clean : Bool) (v w : World W) {e : Exn}
      → shut_down_all s v ≡ (err e, w)
      → last_step s clean v ≡ (err e, w)
  unfolding clean_up
  last_step_fails true v w g =
      bind_err (shut_down_all s) (λ u. on_host s (clean_all_conductors s) >> setting s (cleared s))
        g
  last_step_fails false v w g = g

  -- When a conductor cannot be shut down, `run_scenario` throws that conductor's exception, whatever
  -- the test came to, leaves the services running and the scenario as it was.
  pub run_scenario-keeps_services :
      (test : M s (Unit {0})) (w v w' : World W) (r : Result (Unit {0})) (clean : Bool) (e : Exn)
      → test w ≡ (r, v)
      → r ≢ err never
      → promise_all (λ i. method_of s i (shut_down s.hc)) v.scenario.conductors v ≡ (err e, w')
      → (run_scenario s test clean w ≡ (err e, w'))
        × (w'.scenario ≡ v.scenario)
        × (w'.exited ≡ v.exited)
  unfolding run_scenario
  run_scenario-keeps_services test w v w' r clean e f n g =
      let (same, kept) = all_down-scenario s v in
      (
        finally-eq test (last_step s clean) f n
            (last_step_fails clean v w' (shut_down_all_fails s v w' g)),
        ap (λ r. r.1.scenario) (sym g) ∙ same,
        ap (λ r. r.1.exited) (sym g) ∙ kept,
      )

  -- A test that ends with `shut_down` of its scenario, whose service process has a process id, never
  -- lets `run_scenario` settle, neither with the clean-up nor without: the process has exited, and its
  -- exit is awaited once more.
  pub run_scenario-never_settles :
      (test : M s (Unit {0})) (w v v' : World W) (r : Result (Unit {0})) (clean : Bool)
      (p : ServicesProcess) (pid : ℕ)
      → test w ≡ (r, v')
      → r ≢ err never
      → shut_down_all s v ≡ (ok tt, v')
      → v.scenario.service_process ≡ some p
      → p.pid ≡ some pid
      → run_scenario s test clean w ≡ (err never, v')
  unfolding run_scenario
  run_scenario-never_settles test w v v' r clean p pid e n h f g =
      finally-eq test (last_step s clean) e n
        (last_step_fails clean v' v' (shut_down_all_hangs s v v' p pid h f g))
