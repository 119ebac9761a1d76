-- ===== src/Trycp/Scenario/Refinement/Methods.antt =====
-- The methods of a TryCP scenario in two surroundings that behave alike.
use try_o_rama.Prelude.{ℕ, String, ap, ◌⊎◌, inl, inr, List, Option, none, some}
use try_o_rama.Js.Exn.{Result}
use try_o_rama.Js.Refines.{
  Alike, Refines, runs, bind-Refines, pure-Refines, promise_all-Refines, require-Refines,
}
use try_o_rama.Common.Stopping.{ServicesProcess, stop_local_services}
use try_o_rama.Common.Stopping.Refinement.{SameExits, stop_local_services-Refines}
use try_o_rama.Trycp.Protocol.{reset}
use try_o_rama.Trycp.Conductor.{failed, TryCpConductorOptions}
use try_o_rama.Trycp.Conductor.Refinement.Creation.{
  create_try_cp_conductor-Refines, shut_down-Refines,
}
use try_o_rama.Trycp.Scenario.{
  done, World, Surroundings, create, close, add_conductor, shut_down_conductors,
  clean_all_conductors, clean_up_client, add_client, stop_services, shut_down_all, clean_up,
}
use try_o_rama.Trycp.Scenario.Refinement.{
  SameScenario, SurroundingsRefine, ScenarioRefines, on_host-Refines, client_at-Refines,
  services_of-Refine, push_conductor-Refines, push_client-Refines, reading-Refines, setting-Refines,
}

module _ {V W : Type 0} {R : V → W → Type 0} {Failure : Type 0} {s : Surroundings V}
    {t : Surroundings W} (h : SurroundingsRefine R Failure s t) where
  create-Refines :
      (url : String) (timeout : Option ℕ)
      → Refines R Failure (create s url timeout) (create t url timeout)
  unfolding create
  create-Refines url timeout = search (runs, h.open_socket) depth 40

  ruleset steps = (
    runs, on_host-Refines, client_at-Refines, push_conductor-Refines, push_client-Refines,
    services_of-Refine,
  )

  add_client-Refines :
      (url : String) (timeout : Option ℕ)
      → Refines (SameScenario R) Failure (add_client s url timeout) (add_client t url timeout)
  unfolding add_client
  add_client-Refines url timeout = search (steps, create-Refines) depth 40

  add_conductor-Refines :
      (i : ℕ) (o : TryCpConductorOptions)
      → Refines (SameScenario R) Failure (add_conductor s i o) (add_conductor t i o)
  unfolding add_conductor
  add_conductor-Refines i o = search (steps, create_try_cp_conductor-Refines) depth 40

  shut_down_conductors-Refines :
      (i : ℕ)
      → Refines (SameScenario R) Failure (shut_down_conductors s i) (shut_down_conductors t i)
  unfolding shut_down_conductors
  shut_down_conductors-Refines i = search (steps, promise_all-Refines, shut_down-Refines) depth 40

  close-Refines : (i : ℕ) → Refines (SameScenario R) Failure (close s i) (close t i)
  unfolding close
  close-Refines i = search (steps, h.close_socket) depth 40

  clean_all_conductors-Refines :
      (i : ℕ)
      → Refines (SameScenario R) Failure (clean_all_conductors s i) (clean_all_conductors t i)
  unfolding clean_all_conductors
  clean_all_conductors-Refines i = bind-Refines (client_at-Refines h i) (λ c.
      bind-Refines (on_host-Refines h ((h.services c.ws).call reset))
        (λ r. bind-Refines (require-Refines _ failed) (λ u. pure-Refines r)))

  clean_up_client-Refines :
      (i : ℕ) → Refines (SameScenario R) Failure (clean_up_client s i) (clean_up_client t i)
  unfolding clean_up_client
  clean_up_client-Refines i = search (steps, clean_all_conductors-Refines, close-Refines) depth 40

  stop_services-Refines :
      (p : Option ServicesProcess)
      → Refines (SameScenario R) Failure (stop_services s p) (stop_services t p)
  stop_services-Refines none = pure-Refines tt
  stop_services-Refines (some p) = record {
    refine = λ v w e.
        stopped v w e (stop_local_services s.kill p (v.exited, v.host))
          (stop_local_services t.kill p (w.exited, w.host))
          ((stop_local_services-Refines h.kill p).refine (v.exited, v.host) (w.exited, w.host)
            (e.exited, e.host));
  }
    where
      stopped :
          (v : World V) (w : World W)
          → SameScenario R v w
          → (x : Result (Option ℕ) × (List ℕ × V)) (y : Result (Option ℕ) × (List ℕ × W))
          → Alike (SameExits R) x y ⊎ Failure
          → Alike
              (SameScenario R)
              (done x.0, record v { exited = x.1.0; host = x.1.1 })
              (done y.0, record w { exited = y.1.0; host = y.1.1 })
            ⊎ Failure
      stopped v w e x y (inr z) = inr z
      stopped v w e x y (inl (f, (g, r))) =
          inl (ap done f, record { scenario = e.scenario; store = e.store; exited = g; host = r })

  ruleset ends =
      (steps, reading-Refines, setting-Refines, promise_all-Refines, stop_services-Refines)

  shut_down_all-Refines : Refines (SameScenario R) Failure (shut_down_all s) (shut_down_all t)
  unfolding shut_down_all
  shut_down_all-Refines = search (ends, shut_down_conductors-Refines) depth 40

  clean_up-Refines : Refines (SameScenario R) Failure (clean_up s) (clean_up t)
  unfolding clean_up
  clean_up-Refines = search (ends, clean_up_client-Refines) depth 40

  pub methods-Refine : ScenarioRefines R Failure s t
  methods-Refine = record {
    add_client = add_client-Refines;
    add_conductor = add_conductor-Refines;
    shut_down_conductors = shut_down_conductors-Refines;
    clean_up_client = clean_up_client-Refines;
    shut_down_all = shut_down_all-Refines;
    clean_up = clean_up-Refines;
  }
