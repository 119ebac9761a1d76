-- ===== src/Local/Shutdown.antt =====
-- What `shutDown` of a local scenario does to its conductors and its service process.
use try_o_rama.Prelude.{
  ℕ, ◌≡◌, refl, sym, ap, subst, ◌∙◌, true, List, Option, none, some, All, All-map, arith, ==_refl,
}
use try_o_rama.Js.Value.{is_some}
use try_o_rama.Js.Exn.{Exn, Result, ok, err, never}
use try_o_rama.Js.Action.{
  pure, ◌>>=◌, ◌>>◌, promise_all, promise_all-All, promise_all_keeps, promise_all_still, bind_ok,
  bind_err, bind-eq_ok,
}
use try_o_rama.Common.Stopping.{ServicesProcess, stop_local_services, stop_pid, listed}
use try_o_rama.Local.Scenario.{World, Surroundings, M, reading, stop_services, shut_down_all}
use try_o_rama.Local.Down.{
  IsDown, shut_down_at, shut_down_at_still, shut_down_at_keeps, shut_down_at_ends,
  shut_down_at-scenario, IsDown-store,
}

-- What is left of a state when its scenario is shut down: the conductors of the list have no process,
-- and the service process, if it ever had a process id, has exited.
pub record IsShut {W : Type 0} (v w : World W) : Type 0 where
  pub down : All (λ i. IsDown i w) v.scenario.conductors
  pub stopped :
      (p : ServicesProcess)
      → v.scenario.service_process ≡ some p
      → is_some p.pid ≡ true
      → listed p.process w.exited ≡ true

module _ {W : Type 0} (s : Surroundings W) where
  abbrev pub all_down : World W → Result (List (Option ℕ)) × World W
  all_down w = promise_all (shut_down_at s) w.scenario.conductors w

  -- `shutDown` behind the conductors.
  abbrev end_services : M s (Unit {0})
  end_services = reading s (λ c. c.service_process) >>= λ p. stop_services s p >> pure tt

  pub all_down-scenario :
      (w : World W) → ((all_down w).1.scenario ≡ w.scenario) × ((all_down w).1.exited ≡ w.exited)
  all_down-scenario w =
      promise_all_keeps (λ v. (v.scenario ≡ w.scenario) × (v.exited ≡ w.exited)) (shut_down_at s)
        (λ i v (e, f). let (g, h) = shut_down_at-scenario s i v in (g ∙ e, h ∙ f))
        w.scenario.conductors w (refl, refl)

  all_down-IsDown :
      (w : World W) {codes : List (Option ℕ)}
      → (all_down w).0 ≡ ok codes
      → All (λ i. IsDown i (all_down w).1) w.scenario.conductors
  all_down-IsDown w =
      promise_all-All IsDown (shut_down_at s) (shut_down_at_keeps s) (shut_down_at_ends s)
        w.scenario.conductors w

  -- What the stop of the services leaves.
  abbrev Stopped : Option ServicesProcess → World W → World W → Type 0
  Stopped o v w =
      (w.store ≡ v.store)
      × (w.scenario ≡ v.scenario)
      × ((p : ServicesProcess)
          → o ≡ some p
          → is_some p.pid ≡ true
          → listed p.process w.exited ≡ true)

  stop_pid-listed :
      (p : ServicesProcess) (n : ℕ) (x : List ℕ × W) {code : Option ℕ}
      → (stop_pid s.kill p (some n) x).0 ≡ ok code
      → listed p.process (stop_pid s.kill p (some n) x).1.0 ≡ true
  stop_pid-listed p n x h = ground (arith, h, ==_refl p.process)

  stop_pid_exits :
      (p : ServicesProcess) (o : Option ℕ) (x : List ℕ × W) {code : Option ℕ}
      → is_some o ≡ true
      → (stop_pid s.kill p o x).0 ≡ ok code
      → listed p.process (stop_pid s.kill p o x).1.0 ≡ true
  stop_pid_exits p none x e h = absurd cc
  stop_pid_exits p (some n) x e h = stop_pid-listed p n x h

  stop_services-Stopped :
      (o : Option ServicesProcess) (w : World W) {code : Option ℕ}
      → (stop_services s o w).0 ≡ ok code
      → Stopped o w (stop_services s o w).1
  unfolding stop_local_services
  stop_services-Stopped none w h = (refl, refl, λ p e. absurd cc)
  stop_services-Stopped (some p) w {code} h = (
    refl,
    refl,
    λ q e i.
        subst
          (λ (q : ServicesProcess).
            is_some q.pid ≡ true → listed q.process (stop_services s (some p) w).1.exited ≡ true)
          (ground (arith, e)) (λ i. stop_pid_exits p p.pid (w.exited, w.host) i h) i,
  )

  pub shut_down_all-IsShut :
      (v w : World W) → shut_down_all s v ≡ (ok tt, w) → IsShut v w × (w.scenario ≡ v.scenario)
  unfolding shut_down_all
  shut_down_all-IsShut v w h =
      let (codes, u, e, g) =
        bind-eq_ok (promise_all (shut_down_at s) v.scenario.conductors) (λ codes. end_services) h in
      let (code, x, f, k) =
        bind-eq_ok (stop_services s u.scenario.service_process) (λ code. pure tt) g in
      let (same, kept) =
        subst (λ r. (r.1.scenario ≡ v.scenario) × (r.1.exited ≡ v.exited)) e
          (all_down-scenario v) in
      let down =
        subst (λ r. All (λ i. IsDown i r.1) v.scenario.conductors) e
          (all_down-IsDown v (ap (λ r. r.0) e)) in
      let (store, still, stopped) =
        subst (λ r. Stopped u.scenario.service_process u r.1) f
          (stop_services-Stopped u.scenario.service_process u (ap (λ r. r.0) f)) in
      let last = ap (λ r. r.1) k in
      subst (λ x. IsShut v x × (x.scenario ≡ v.scenario)) last
        (
          record {
            down = All-map v.scenario.conductors (λ i. IsDown-store i u x store) down;
            stopped = λ p e. stopped p (ap (λ c. c.service_process) same ∙ e);
          },
          still ∙ same,
        )

  pub shut_down_all_fails :
      (v w : World W) {e : Exn} → all_down v ≡ (err e, w) → shut_down_all s v ≡ (err e, w)
  unfolding shut_down_all
  shut_down_all_fails v w g =
      bind_err (promise_all (shut_down_at s) v.scenario.conductors) (λ codes. end_services) g

  stop_pid_hangs :
      (p : ServicesProcess) (pid : ℕ) (x : List ℕ × W)
      → listed p.process x.0 ≡ true
      → stop_pid s.kill p (some pid) x ≡ (err never, x)
  stop_pid_hangs p pid x g = ground (arith, g)

  stop_twice :
      (w : World W) (p : ServicesProcess) (pid : ℕ)
      → p.pid ≡ some pid
      → listed p.process w.exited ≡ true
      → stop_services s (some p) w ≡ (err never, w)
  unfolding stop_local_services
  stop_twice w p pid f g =
      ap (λ x. (x.0, record w { exited = x.1.0; host = x.1.1 }))
        (ap (λ o. stop_pid s.kill p o (w.exited, w.host)) f
          ∙ stop_pid_hangs p pid (w.exited, w.host) g)

  pub shut_down_all_hangs :
      (v w : World W) (p : ServicesProcess) (pid : ℕ)
      → shut_down_all s v ≡ (ok tt, w)
      → v.scenario.service_process ≡ some p
      → p.pid ≡ some pid
      → shut_down_all s w ≡ (err never, w)
  unfolding shut_down_all
  shut_down_all_hangs v w p pid h e f =
      let (shut, still) = shut_down_all-IsShut v w h in
      let cs = subst (λ c. All (λ i. IsDown i w) c.conductors) (sym still) shut.down in
      let q = ap (λ c. c.service_process) still ∙ e in
      bind_ok (promise_all (shut_down_at s) w.scenario.conductors) (λ codes. end_services)
        (promise_all_still none (shut_down_at s) w.scenario.conductors w
          (All-map w.scenario.conductors (λ i d. shut_down_at_still s i w d) cs))
      ∙ bind_err (stop_services s w.scenario.service_process) (λ code. pure tt)
          (ap (λ o. stop_services s o w) q ∙ stop_twice w p pid f (shut.stopped p e (ap is_some f)))
