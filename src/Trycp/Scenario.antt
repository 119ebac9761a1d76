-- ===== src/Trycp/Scenario.antt =====
-- ts/src/trycp/conductor/scenario.ts, the class `TryCpScenario`, with the clients of its TryCP
-- servers: the part of ts/src/trycp/trycp-client.ts that connects a client and keeps its conductors.
-- A client is an object that the scenario and its callers share: it is named by its place in a store.
pub mod Players
pub mod Sizes
pub mod Reach
pub mod Listing
pub mod Refinement
use try_o_rama.Prelude.{
  ℕ, String, Bool, true, List, [], ◌∷◌, ◌++◌, Option, none, some, length, get_elem?, map, ltb, suc,
  if◌then◌else◌,
}
use try_o_rama.Js.Value.{Value, is_null, null}
use try_o_rama.Js.Exn.{Exn, Result, ok, err, never, type_error, error}
use try_o_rama.Js.Action.{Action, pure, ◌>>=◌, ◌>>◌, lift, promise_all, require}
use try_o_rama.Types.{AppInfo}
use try_o_rama.Common.{AgentApp}
use try_o_rama.Common.Peers.{Told, add_all_agents_to_all_conductors}
use try_o_rama.Common.Stopping.{ServicesProcess, stop_local_services}
use try_o_rama.Trycp.Protocol.{reset}
use try_o_rama.Trycp.Services.{Services}
use try_o_rama.Trycp.Conductor.{TryCpConductorOptions, create_try_cp_conductor, shut_down, failed}
use try_o_rama.Trycp.Conductor.Admin.{agent_info}

-- The fields of `TryCpClient` but for those of Client.antt; its socket is a number.
pub record TryCpClient : Type 0 where
  pub ws : ℕ
  pub bootstrap_server_url : Option String
  pub signaling_server_url : Option String
  pub conductors : List String

-- The fields of `TryCpScenario`.
pub record TryCpScenario : Type 0 where
  pub no_dpki : Bool
  pub dpki_network_seed : String
  pub network_seed : String
  pub services_process : Option ServicesProcess
  pub bootstrap_server_url : Option String
  pub signaling_server_url : Option String
  pub clients : List ℕ

-- The scenario, the store of clients, the service processes that have exited, and the rest.
pub record World (W : Type 0) : Type 0 where
  pub scenario : TryCpScenario
  pub store : List TryCpClient
  pub exited : List ℕ
  pub host : W

-- What a new socket does: it opens, or it fails.
pub data SocketEvent : Type 0 where
  opened : SocketEvent
  failed_with : Exn → SocketEvent

-- What a scenario uses: sockets, what a conductor uses of the client on a socket, the kill of a
-- process, and the types that TypeScript declares for values from a server.
pub record Surroundings (W : Type 0) : Type 0 where
  -- `new WebSocket` with a timeout: the socket, and the events of its first attempt to connect
  pub open_socket : String → ℕ → Action W (ℕ × List SocketEvent)
  -- `close` of a socket with a code, and the code of the event "close" that it brings about
  pub close_socket : ℕ → ℕ → Action W ℕ
  pub services : ℕ → Services W
  pub kill : ℕ → Action W (Option ℕ)
  pub as_app_info : Value → AppInfo
  pub as_port : Value → ℕ

-- `new TryCpScenario()`, with two random identifiers.
abbrev pub new_scenario : String → String → TryCpScenario
new_scenario dpki_seed seed = record {
  no_dpki = true;
  dpki_network_seed = dpki_seed;
  network_seed = seed;
  services_process = none;
  bootstrap_server_url = none;
  signaling_server_url = none;
  clients = [];
}

abbrev pub change_at : List TryCpClient → ℕ → (TryCpClient → TryCpClient) → List TryCpClient
change_at [] i f = []
change_at (c ∷ cs) ℕ.zero f = f c ∷ cs
change_at (c ∷ cs) (suc i) f = c ∷ change_at cs i f

-- The promise of a connection is settled by the first event.
abbrev connected : List SocketEvent → Result (Unit {0})
connected [] = err never
connected (opened ∷ es) = ok tt
connected (failed_with e ∷ es) = err e

abbrev or_default_timeout : Option ℕ → ℕ
or_default_timeout none = 60000
or_default_timeout (some n) = n

abbrev pub done : {A : Type 0} → Result A → Result (Unit {0})
done (ok a) = ok tt
done (err e) = err e

module _ {W : Type 0} (s : Surroundings W) where
  abbrev pub M : Type 0 → Type 0
  M A = Action (World W) A

  abbrev pub on_host : {A : Type 0} → Action W A → M A
  on_host f w = let (r, h) = f w.host in (r, record w { host = h })

  abbrev pub reading : {A : Type 0} → (TryCpScenario → A) → M A
  reading f w = (ok (f w.scenario), w)

  abbrev pub setting : (TryCpScenario → TryCpScenario) → M (Unit {0})
  setting f w = (ok tt, record w { scenario = f w.scenario })

  abbrev pub client_at : ℕ → M TryCpClient
  client_at i w = elim (get_elem? w.store i) [ none ↦ (err type_error, w) | some c ↦ (ok c, w) ]

  -- What the conductors of a client use of it.
  abbrev pub services_of : TryCpClient → Services W
  services_of c = record (s.services c.ws) {
    close = s.close_socket c.ws 1000;
    bootstrap_server_url = λ w. c.bootstrap_server_url;
    signaling_server_url = λ w. c.signaling_server_url;
  }

  -- `TryCpClient.create`
  unfoldable pub create : String → Option ℕ → Action W TryCpClient
  create server_url timeout = do
    socket ← s.open_socket server_url (or_default_timeout timeout)
    lift (connected socket.1)
    pure (record {
      ws = socket.0;
      bootstrap_server_url = none;
      signaling_server_url = none;
      conductors = [];
    })

  unfoldable pub close : ℕ → M ℕ
  close i = do c ← client_at i; on_host (s.close_socket c.ws 1000)

  abbrev pub push_conductor : ℕ → String → M (Unit {0})
  push_conductor i id w = (
    ok tt,
    record w {
      store = change_at w.store i (λ c. record c { conductors = c.conductors ++ id ∷ [] });
    },
  )

  unfoldable pub add_conductor : ℕ → TryCpConductorOptions → M String
  add_conductor i options = do
    c ← client_at i
    id ← on_host (create_try_cp_conductor (services_of c) options)
    push_conductor i id
    pure id

  unfoldable pub shut_down_conductors : ℕ → M (Unit {0})
  shut_down_conductors i = do
    c ← client_at i
    promise_all (λ id. on_host (shut_down (services_of c) id)) c.conductors
    pure tt

  unfoldable pub clean_all_conductors : ℕ → M Value
  clean_all_conductors i = do
    c ← client_at i
    response ← on_host ((s.services c.ws).call reset)
    require (is_null response) failed
    pure response

  -- `cleanUp` of a client.
  unfoldable pub clean_up_client : ℕ → M (Unit {0})
  unfolding clean_all_conductors close
  clean_up_client i = do clean_all_conductors i; close i; pure tt

  abbrev pub with_urls : TryCpScenario → TryCpClient → TryCpClient
  with_urls scenario c = record c {
    bootstrap_server_url = scenario.bootstrap_server_url;
    signaling_server_url = scenario.signaling_server_url;
  }

  -- The client is put into the store, and its place is pushed on the scenario's list.
  abbrev pub push_client : TryCpClient → M ℕ
  push_client c w = (
    ok (length w.store),
    record w {
      store = w.store ++ with_urls w.scenario c ∷ [];
      scenario = record (w.scenario) { clients = (w.scenario).clients ++ length w.store ∷ [] };
    },
  )

  unfoldable pub add_client : String → Option ℕ → M ℕ
  unfolding create
  add_client server_url timeout = do c ← on_host (create server_url timeout); push_client c

  -- `this.clients.map((client) => client.conductors).flat()`
  abbrev pub conductors_of : List TryCpClient → List ℕ → List (TryCpClient × String)
  conductors_of store [] = []
  conductors_of store (i ∷ is) =
      elim (get_elem? store i) [ none ↦ [] | some c ↦ map (λ id. (c, id)) c.conductors ]
      ++ conductors_of store is

  unfoldable pub agent_info_at : World W → ℕ → Result Value
  agent_info_at w n = elim (get_elem? (conductors_of w.store (w.scenario).clients) n) [
    | none ↦ err type_error
    | some (c, id) ↦ (agent_info (services_of c) id null w.host).0
  ]

  -- What the conductors are told, by their positions; the answers are those of the present state.
  -- `adminWs()` of a TryCP conductor throws nothing.
  unfoldable pub share_all_agents : World W → Result (List (Unit {0})) × List Told
  unfolding agent_info_at
  share_all_agents w =
      add_all_agents_to_all_conductors (λ n. ok tt) (agent_info_at w)
        (conductors_of w.store (w.scenario).clients) []

  abbrev pub stop_services : Option ServicesProcess → M (Unit {0})
  stop_services none w = (ok tt, w)
  stop_services (some p) w =
      let (r, (exited, h)) = stop_local_services s.kill p (w.exited, w.host) in
      (done r, record w { exited = exited; host = h })

  unfoldable pub shut_down_all : M (Unit {0})
  unfolding shut_down_conductors
  shut_down_all = do
    clients ← reading (λ c. c.clients)
    promise_all shut_down_conductors clients
    p ← reading (λ c. c.services_process)
    stop_services p

  abbrev pub cleared : TryCpScenario → TryCpScenario
  cleared c = record c {
    clients = [];
    services_process = none;
    bootstrap_server_url = none;
    signaling_server_url = none;
  }

  unfoldable pub clean_up : M (Unit {0})
  unfolding clean_up_client
  clean_up = do
    clients ← reading (λ c. c.clients)
    promise_all clean_up_client clients
    p ← reading (λ c. c.services_process)
    stop_services p
    setting cleared
