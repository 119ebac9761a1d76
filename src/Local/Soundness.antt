-- ===== src/Local/Soundness.antt =====
-- What holds of a local scenario at all times.
use try_o_rama.Prelude.{
  ℕ, suc, ◌<◌, ◌≡◌, refl, sym, ap, subst, String, List, [], ◌∷◌, ◌++◌, Option, none, some,
  Option-cases, inl, inr, get_elem?, length, length-append, All, All-map, arith,
}
use try_o_rama.Js.Value.{Value, is_some}
use try_o_rama.Js.Exn.{err}
use try_o_rama.Js.Action.{Action}
use try_o_rama.Js.Keeps.{Keeps, lift-Keeps, pure-Keeps, bind-Keeps, promise_all-Keeps}
use try_o_rama.Types.{AppOptions}
use try_o_rama.Common.Stopping.{ServicesProcess}
use try_o_rama.Common.{enable_and_get_agent_app}
use try_o_rama.Local.Conductor.{Conductor}
use try_o_rama.Local.Scenario.{
  Scenario, World, Surroundings, PlayerApp, new_scenario, method_of, on_host, reading, setting,
  write_at, launch_services, with_services, ensure, ensure_local_services, there, push_conductor,
  add_conductor, add_player_with_app, add_players_with_apps, stop_services, shut_down_all, cleared,
  clean_up,
}
use try_o_rama.Local.Down.{method_of-eq}

-- The signaling URL is known exactly while there is a service process, and every conductor of the
-- list is in the store.
pub record IsSound {W : Type 0} (w : World W) : Type 0 where
  pub services : is_some w.scenario.service_process ≡ is_some w.scenario.signaling_server_url
  pub places : All (λ i. i < length w.store) w.scenario.conductors

length-write_at :
    (cs : List Conductor) (i : ℕ) (c : Conductor) → length (write_at cs i c) ≡ length cs
length-write_at [] i c = refl
length-write_at (d ∷ cs) ℕ.zero c = refl
length-write_at (d ∷ cs) (suc i) c = ap suc (length-write_at cs i c)

All-append_one : (P : ℕ → Type 0) (xs : List ℕ) {x : ℕ} → All P xs → P x → All P (xs ++ x ∷ [])
All-append_one P [] h q = (q, tt)
All-append_one P (x ∷ xs) (p, h) q = (p, All-append_one P xs h q)

-- A conductor at the end of the store, and its place at the end of the list.
pushed :
    (cs : List Conductor) (c : Conductor) (is : List ℕ)
    → All (λ i. i < length cs) is
    → All (λ i. i < length (cs ++ c ∷ [])) (is ++ length cs ∷ [])
pushed cs c is h =
    All-append_one (λ i. i < length (cs ++ c ∷ [])) is
      (All-map is (λ i p. omega (arith, length-append cs (c ∷ []))) h)
      (omega (arith, length-append cs (c ∷ [])))

module _ {W : Type 0} (s : Surroundings W) where
  on_host-Keeps : {A : Type 0} (f : Action W A) → Keeps IsSound (on_host s f)
  on_host-Keeps f = record { keep = λ w p. record { services = p.services; places = p.places } }

  method_of-Keeps :
      {A : Type 0} (i : ℕ) (f : Action (Conductor × W) A) → Keeps IsSound (method_of s i f)
  method_of-Keeps i f = record {
    keep = λ w p. elim (Option-cases (get_elem? w.store i)) [
      | inl e ↦ subst (λ x. IsSound x.1) (sym (method_of-eq s i f w e)) p
      | inr (c, e) ↦
          subst (λ x. IsSound x.1) (sym (method_of-eq s i f w e))
            (record {
              services = p.services;
              places =
                  subst (λ n. All (λ i. i < n) w.scenario.conductors)
                    (sym (length-write_at w.store i (f (c, w.host)).1.0)) p.places;
            })
    ];
  }

  reading-Keeps : {A : Type 0} (f : Scenario → A) → Keeps IsSound (reading s f)
  reading-Keeps f = record { keep = λ w p. p }

  there-Keeps : {A : Type 0} (o : Option A) → Keeps IsSound (there s o)
  there-Keeps none = lift-Keeps (err _)
  there-Keeps (some a) = pure-Keeps a

  push_conductor-Keeps : (c : Conductor) → Keeps IsSound (push_conductor s c)
  push_conductor-Keeps c = record {
    keep = λ w p. record {
      services = p.services;
      places = pushed w.store c w.scenario.conductors p.places;
    };
  }

  with_services-Keeps : (r : ServicesProcess × _) → Keeps IsSound (setting s (with_services s r))
  with_services-Keeps r = record { keep = λ w p. record { services = refl; places = p.places } }

  cleared-Keeps : Keeps IsSound (setting s (cleared s))
  cleared-Keeps = record { keep = λ w p. record { services = refl; places = tt } }

  ensure-Keeps : (o : Option ServicesProcess) → Keeps IsSound (ensure s o)
  ensure-Keeps none = bind-Keeps (on_host-Keeps (launch_services s)) (λ r. with_services-Keeps r)
  ensure-Keeps (some p) = pure-Keeps tt

  ensure_local_services-Keeps : Keeps IsSound (ensure_local_services s)
  unfolding ensure_local_services
  ensure_local_services-Keeps = bind-Keeps (reading-Keeps (λ c. c.service_process)) ensure-Keeps

  ruleset calls = (
    bind-Keeps, on_host-Keeps, method_of-Keeps, reading-Keeps, there-Keeps, lift-Keeps, pure-Keeps,
    push_conductor-Keeps, ensure_local_services-Keeps,
  )

  add_conductor-Keeps : Keeps IsSound (add_conductor s)
  unfolding add_conductor
  add_conductor-Keeps = search calls depth 40

  add_player_with_app-Keeps :
      (source : Value) (o : AppOptions) → Keeps IsSound (add_player_with_app s source o)
  unfolding add_player_with_app enable_and_get_agent_app
  add_player_with_app-Keeps source o = search (calls, add_conductor-Keeps) depth 40

  add_players_with_apps-Keeps :
      (players : List PlayerApp) → Keeps IsSound (add_players_with_apps s players)
  unfolding add_players_with_apps
  add_players_with_apps-Keeps players =
      search (calls, promise_all-Keeps, add_player_with_app-Keeps) depth 40

  stop_services-Keeps : (o : Option ServicesProcess) → Keeps IsSound (stop_services s o)
  stop_services-Keeps none = record { keep = λ w p. p }
  stop_services-Keeps (some q) = record {
    keep = λ w p. record { services = p.services; places = p.places };
  }

  shut_down_all-Keeps : Keeps IsSound (shut_down_all s)
  unfolding shut_down_all
  shut_down_all-Keeps = search (calls, promise_all-Keeps, stop_services-Keeps) depth 40

  clean_up-Keeps : Keeps IsSound (clean_up s)
  unfolding clean_up
  clean_up-Keeps = search (calls, shut_down_all-Keeps, cleared-Keeps) depth 40

  -- What a test can do with its scenario, whether the calls return or throw: the scenario's methods,
  -- anything with one of its conductors, and anything outside, with the values dropped.
  pub data Reachable : World W → Type 0 where
    begins :
        (timeout : Option ℕ) (dpki_seed seed : String) (h : W)
        → Reachable (record {
          scenario = new_scenario timeout dpki_seed seed;
          store = [];
          exited = [];
          host = h;
        })
    adds_conductor : {w : World W} → Reachable w → Reachable (add_conductor s w).1
    adds_player :
        {w : World W} (source : Value) (o : AppOptions)
        → Reachable w
        → Reachable (add_player_with_app s source o w).1
    adds_players :
        {w : World W} (players : List PlayerApp)
        → Reachable w
        → Reachable (add_players_with_apps s players w).1
    uses_conductor :
        {w : World W} (i : ℕ) (f : Action (Conductor × W) (Unit {0}))
        → Reachable w
        → Reachable (method_of s i f w).1
    goes_on : {w : World W} (f : Action W (Unit {0})) → Reachable w → Reachable (on_host s f w).1
    shuts_down : {w : World W} → Reachable w → Reachable (shut_down_all s w).1
    cleans_up : {w : World W} → Reachable w → Reachable (clean_up s w).1

  -- Whatever a test does with its local scenario, the scenario knows a signaling URL exactly while it
  -- has a service process, and every conductor of its list exists.
  pub Reachable-IsSound : (w : World W) → Reachable w → IsSound w
  Reachable-IsSound _ (begins timeout dpki_seed seed h) = record { services = refl; places = tt }
  Reachable-IsSound _ (adds_conductor {w = w} r) =
      add_conductor-Keeps.keep w (Reachable-IsSound w r)
  Reachable-IsSound _ (adds_player {w = w} source o r) =
      (add_player_with_app-Keeps source o).keep w (Reachable-IsSound w r)
  Reachable-IsSound _ (adds_players {w = w} players r) =
      (add_players_with_apps-Keeps players).keep w (Reachable-IsSound w r)
  Reachable-IsSound _ (uses_conductor {w = w} i f r) =
      (method_of-Keeps i f).keep w (Reachable-IsSound w r)
  Reachable-IsSound _ (goes_on {w = w} f r) = (on_host-Keeps f).keep w (Reachable-IsSound w r)
  Reachable-IsSound _ (shuts_down {w = w} r) = shut_down_all-Keeps.keep w (Reachable-IsSound w r)
  Reachable-IsSound _ (cleans_up {w = w} r) = clean_up-Keeps.keep w (Reachable-IsSound w r)
