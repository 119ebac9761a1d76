-- ===== src/Local/Scenario.antt =====
-- ts/src/local/scenario.ts: the class `Scenario` and `runScenario`. A conductor is an object that
-- the scenario and its players share: it is named by its place in a store.
use try_o_rama.Prelude.{
  ℕ, String, Bool, true, false, List, [], ◌∷◌, ◌++◌, Option, none, some, length, get_elem?,
}
use try_o_rama.Js.Value.{Value}
use try_o_rama.Js.Exn.{Result, ok, err, never, assertion_error, type_error}
use try_o_rama.Js.Action.{Action, pure, ◌>>=◌, ◌>>◌, lift, promise_all}
use try_o_rama.Types.{AppOptions}
use try_o_rama.Common.{AgentApp, enable_and_get_agent_app}
use try_o_rama.Common.Peers.{Told, add_all_agents_to_all_conductors}
use try_o_rama.Common.LocalServices.{Started, Listening, run_local_services}
use try_o_rama.Common.Stopping.{ServicesProcess, stop_local_services}
use try_o_rama.Local.Conductor.{
  Conductor, Host, CreateConductorOptions, create_conductor, shut_down, admin_ws,
}
use try_o_rama.Local.Apps.{Api, attach_app_interface, connect_app_ws, call_zome, install_app}

-- The fields of `Scenario`.
pub record Scenario : Type 0 where
  pub timeout : Option ℕ
  pub no_dpki : Bool
  pub dpki_network_seed : String
  pub network_seed : String
  pub service_process : Option ServicesProcess
  pub bootstrap_server_url : Option String
  pub signaling_server_url : Option String
  pub conductors : List ℕ

-- The scenario, the store of conductors, the service processes that have exited, and the rest.
pub record World (W : Type 0) : Type 0 where
  pub scenario : Scenario
  pub store : List Conductor
  pub exited : List ℕ
  pub host : W

-- What a scenario uses: `hc` and its processes, websockets, and the kill of a process.
pub record Surroundings (W : Type 0) : Type 0 where
  pub hc : Host W
  pub api : Api W
  -- `hc run-local-services`: the process and the pieces of its output
  pub hc_services : W → (ServicesProcess × List String) × W
  -- `new URL`, to the text of the URL
  pub new_url : String → Option String
  pub kill : ℕ → Action W (Option ℕ)
  -- `hc sandbox clean`: whether its output ends
  pub hc_clean : W → Bool × W

-- `Player`; its websocket is a number, and its conductor a place in the store.
pub record Player (W : Type 0) : Type 0 where
  pub conductor : ℕ
  pub app_ws : ℕ
  pub agent_app : AgentApp (World W)

-- One entry of the argument of `addPlayersWithApps`.
pub record PlayerApp : Type 0 where
  pub app_bundle_source : Value
  pub options : AppOptions

-- `new Scenario(options)`, with two random identifiers.
abbrev pub new_scenario : Option ℕ → String → String → Scenario
new_scenario timeout dpki_seed seed = record {
  timeout = timeout;
  no_dpki = false;
  dpki_network_seed = dpki_seed;
  network_seed = seed;
  service_process = none;
  bootstrap_server_url = none;
  signaling_server_url = none;
  conductors = [];
}

abbrev pub write_at {ℓ} : {A : Type ℓ} → List A → ℕ → A → List A
write_at [] i v = []
write_at (x ∷ xs) ℕ.zero v = v ∷ xs
write_at (x ∷ xs) (ℕ.suc i) v = x ∷ write_at xs i v

-- `{ ...options, networkSeed: options?.networkSeed ?? seed }`
abbrev pub seeded : String → AppOptions → AppOptions
seeded seed o = record o {
  network_seed = elim o.network_seed [ none ↦ some seed | some s ↦ some s ];
}

-- The promise of `runLocalServices`. An exception of the listener is not one of the promise.
abbrev started_by : ServicesProcess → Result Listening → Result (ServicesProcess × Started)
started_by p (err e) = err never
started_by p (ok l) = elim l.started [ none ↦ err never | some started ↦ ok (p, started) ]

abbrev cleaned_by : Bool → Result (Unit {0})
cleaned_by true = ok tt
cleaned_by false = err never

module _ {W : Type 0} (s : Surroundings W) where
  -- `runLocalServices`, with its process.
  unfoldable pub launch_services : Action W (ServicesProcess × Started)
  launch_services w =
      let ((p, pieces), w') = s.hc_services w in
      (
        started_by p (
            run_local_services s.new_url pieces
              (record { bootstrap_server_url = none; started = none })),
        w',
      )

  -- `cleanAllConductors` of ts/src/local/conductor.ts
  unfoldable pub clean_all_conductors : Action W (Unit {0})
  clean_all_conductors w = let (ended, w') = s.hc_clean w in (cleaned_by ended, w')

  abbrev pub M : Type 0 → Type 0
  M A = Action (World W) A

  abbrev pub on_host : {A : Type 0} → Action W A → M A
  on_host f w = let (r, h) = f w.host in (r, record w { host = h })

  -- A method of the conductor at a place of the store.
  abbrev pub method_of : {A : Type 0} → ℕ → Action (Conductor × W) A → M A
  method_of i f w = elim (get_elem? w.store i) [
    | none ↦ (err type_error, w)
    | some c ↦
        let (r, (c', h)) = f (c, w.host) in
        (r, record w { store = write_at w.store i c'; host = h })
  ]

  abbrev pub reading : {A : Type 0} → (Scenario → A) → M A
  reading f w = (ok (f w.scenario), w)

  abbrev pub setting : (Scenario → Scenario) → M (Unit {0})
  setting f w = (ok tt, record w { scenario = f w.scenario })

  abbrev pub with_services : ServicesProcess × Started → Scenario → Scenario
  with_services (p, started) c = record c {
    service_process = some p;
    bootstrap_server_url = started.bootstrap_server_url;
    signaling_server_url = some started.signaling_server_url;
  }

  abbrev pub ensure : Option ServicesProcess → M (Unit {0})
  ensure (some p) = pure tt
  ensure none = do r ← on_host launch_services; setting (with_services r)

  unfoldable pub ensure_local_services : M (Unit {0})
  unfolding launch_services
  ensure_local_services = do p ← reading (λ c. c.service_process); ensure p

  -- `assert(value)`
  abbrev pub there : {A : Type 0} → Option A → M A
  there none = lift (err (assertion_error ""))
  there (some a) = pure a

  -- The conductor is put into the store, and its place is pushed on the scenario's list.
  abbrev pub push_conductor : Conductor → M ℕ
  push_conductor c w = (
    ok (length w.store),
    record w {
      store = w.store ++ c ∷ [];
      scenario = record (w.scenario) {
        conductors = (w.scenario).conductors ++ length w.store ∷ [];
      };
    },
  )

  abbrev pub conductor_options : Scenario → CreateConductorOptions
  conductor_options c = record {
    bootstrap_server_url = c.bootstrap_server_url;
    network_type = none;
    timeout = c.timeout;
  }

  unfoldable pub add_conductor : M ℕ
  unfolding ensure_local_services
  add_conductor = do
    ensure_local_services
    p ← reading (λ c. c.service_process)
    there p
    u ← reading (λ c. c.signaling_server_url)
    url ← there u
    options ← reading conductor_options
    c ← on_host (create_conductor s.hc url options none)
    push_conductor c

  -- `conductor.adminWs()`
  abbrev pub admin_ws_of : ℕ → M ℕ
  admin_ws_of i = method_of i (λ (c, h). (admin_ws c, (c, h)))

  unfoldable pub add_player_with_app : Value → AppOptions → M (Player W)
  unfolding ensure_local_services add_conductor
  add_player_with_app source options = do
    ensure_local_services
    i ← add_conductor
    seed ← reading (λ c. c.network_seed)
    info ← method_of i (install_app s.api source (seeded seed options))
    ws ← admin_ws_of i
    port ← method_of i (attach_app_interface s.api none)
    token ← on_host (s.api.issue_app_authentication_token ws info.installed_app_id)
    app ← method_of i (connect_app_ws s.api token port)
    agent_app ←
        enable_and_get_agent_app (λ request. on_host (s.api.enable_app ws request))
          (λ request timeout. method_of i (call_zome s.api app request timeout)) info
    pure (record { conductor = i; app_ws = app; agent_app = agent_app })

  unfoldable pub add_players_with_apps : List PlayerApp → M (List (Player W))
  unfolding ensure_local_services add_player_with_app
  add_players_with_apps players = do
    ensure_local_services
    promise_all (λ (p : PlayerApp). add_player_with_app p.app_bundle_source p.options) players

  -- `agentInfo` at the conductor at a position of the scenario's list.
  unfoldable pub agent_info_at : World W → ℕ → Result Value
  agent_info_at w n = elim (get_elem? (w.scenario).conductors n) [
    | none ↦ err type_error
    | some i ↦ ((do ws ← admin_ws_of i; on_host (s.api.agent_info ws)) w).0
  ]

  -- `adminWs()` of the conductor at a position.
  unfoldable pub admin_ws_at : World W → ℕ → Result (Unit {0})
  admin_ws_at w n = elim (get_elem? (w.scenario).conductors n) [
    | none ↦ err type_error
    | some i ↦ ((do admin_ws_of i; pure tt) w).0
  ]

  -- What the conductors are told, by their positions; the answers are those of the present state.
  unfoldable pub share_all_agents : World W → Result (List (Unit {0})) × List Told
  unfolding agent_info_at admin_ws_at
  share_all_agents w =
      add_all_agents_to_all_conductors (admin_ws_at w) (agent_info_at w) (w.scenario).conductors []

  abbrev pub stop_services : Option ServicesProcess → M (Option ℕ)
  stop_services none w = (ok none, w)
  stop_services (some p) w =
      let (r, (exited, h)) = stop_local_services s.kill p (w.exited, w.host) in
      (r, record w { exited = exited; host = h })

  unfoldable pub shut_down_all : M (Unit {0})
  shut_down_all = do
    cs ← reading (λ c. c.conductors)
    promise_all (λ i. method_of i (shut_down s.hc)) cs
    p ← reading (λ c. c.service_process)
    stop_services p
    pure tt

  abbrev pub cleared : Scenario → Scenario
  cleared c = record c {
    conductors = [];
    service_process = none;
    bootstrap_server_url = none;
    signaling_server_url = none;
  }

  unfoldable pub clean_up : M (Unit {0})
  unfolding shut_down_all clean_all_conductors
  clean_up = do shut_down_all; on_host clean_all_conductors; setting cleared

  -- What an exception or the return of the body and those of the last step come to.
  abbrev pub settled_by : Result (Unit {0}) → Result (Unit {0}) → Result (Unit {0})
  settled_by r (err e) = err e
  settled_by r (ok u) = r

  abbrev pub then_finally : Result (Unit {0}) → M (Unit {0}) → M (Unit {0})
  then_finally (err never) last w = (err never, w)
  then_finally r last w = let (f, w') = last w in (settled_by r f, w')

  -- `try { body } catch (e) { throw e } finally { last }`: an exception of `last` takes the place of
  -- the body's, and behind a body that never settles `last` is not reached.
  abbrev pub finally : M (Unit {0}) → M (Unit {0}) → M (Unit {0})
  finally body last w = let (r, w') = body w in then_finally r last w'

  abbrev pub last_step : Bool → M (Unit {0})
  last_step true = clean_up
  last_step false = shut_down_all

  -- `runScenario` from the state in which its new scenario is made.
  unfoldable pub run_scenario : M (Unit {0}) → Bool → M (Unit {0})
  unfolding clean_up shut_down_all
  run_scenario test clean = finally test (last_step clean)
