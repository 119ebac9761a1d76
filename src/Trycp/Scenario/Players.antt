-- ===== src/Trycp/Scenario/Players.antt =====
-- ts/src/trycp/conductor/scenario.ts: the players of a TryCP scenario.
use try_o_rama.Prelude.{
  ℕ, suc, String, List, [], ◌∷◌, ◌++◌, Option, none, some, map, ltb, if◌then◌else◌,
}
use try_o_rama.Js.Value.{Value, str, obj, field, end}
use try_o_rama.Js.Exn.{Result, ok, err, error, read}
use try_o_rama.Js.Action.{pure, ◌>>=◌, ◌>>◌, lift, for_each, promise_all}
use try_o_rama.Types.{AppOptions, AgentApps, AppInfo}
use try_o_rama.Common.{AgentApp, enable_and_get_agent_app}
use try_o_rama.Trycp.Protocol.Tags.{LogLevel}
use try_o_rama.Trycp.Conductor.{connect_app_interface, on}
use try_o_rama.Trycp.Conductor.Admin.{
  attach_app_interface, issue_app_authentication_token, enable_app,
}
use try_o_rama.Trycp.Conductor.App.{call_zome}
use try_o_rama.Trycp.Conductor.Install.{install_app, install_agents_apps}
use try_o_rama.Trycp.Scenario.{
  World, Surroundings, M, on_host, reading, client_at, services_of, add_client, add_conductor,
}

-- `ClientsPlayersOptions`
pub record ClientsPlayersOptions : Type 0 where
  pub app : Value
  pub client_timeout : Option ℕ
  pub agent_pub_keys : Option (List Value)
  pub number_of_conductors_per_client : Option ℕ
  pub number_of_agents_per_conductor : Option ℕ
  pub partial_config : Option String
  pub signal_handler : Option ℕ

-- `TryCpPlayer`: its conductor by the place of the client and the id, its app websocket by the port.
pub record TryCpPlayer (W : Type 0) : Type 0 where
  pub client : ℕ
  pub conductor : String
  pub app_ws : ℕ
  pub agent_app : AgentApp (World W)

-- `ClientPlayers`
pub record ClientPlayers (W : Type 0) : Type 0 where
  pub client : ℕ
  pub players : List (TryCpPlayer W)

-- One entry of the argument of `addPlayersWithApps`.
pub record PlayerApp : Type 0 where
  pub app_bundle_source : Value
  pub options : AppOptions

-- An app with the options that are left out.
abbrev pub app_for : Value → Option Value → AgentApps
app_for app agent_pub_key = record {
  app = app;
  options = record {
    agent_pub_key = agent_pub_key;
    installed_app_id = none;
    network_seed = none;
    roles_settings = none;
    signal_handler = none;
  };
}

abbrev pub copies {ℓ} : {A : Type ℓ} → ℕ → A → List A
copies ℕ.zero a = []
copies (suc n) a = a ∷ copies n a

-- `[...Array(n)]`: of no number it has one element, and of one that is too large it throws.
abbrev pub spread_array {ℓ} : {A : Type ℓ} → Option ℕ → A → Result (List A)
spread_array none a = ok (a ∷ [])
spread_array (some n) a =
    if ltb n 4294967296 then ok (copies n a) else err (error "Invalid array length")

-- The apps for the keys that are given, or for a number of agents.
abbrev pub apps_for : Value → Option ℕ → Option (List Value) → Result (List AgentApps)
apps_for app number none = spread_array number (app_for app none)
apps_for app number (some keys) = ok (map (λ k. app_for app (some k)) keys)

unfoldable pub agents_apps : ClientsPlayersOptions → Result (List AgentApps)
agents_apps o = apps_for o.app o.number_of_agents_per_conductor o.agent_pub_keys

abbrev pub or_one : Option ℕ → ℕ
or_one none = 1
or_one (some n) = n

abbrev pub flat {ℓ} : {A : Type ℓ} → List (List A) → List A
flat [] = []
flat (xs ∷ xss) = xs ++ flat xss

-- `{ ...options, networkSeed: options?.networkSeed ?? seed }`
abbrev pub seeded : String → AppOptions → AppOptions
seeded seed o = record o {
  network_seed = elim o.network_seed [ none ↦ some seed | some t ↦ some t ];
}

module _ {W : Type 0} (s : Surroundings W) where
  -- A loop that runs its body a number of times and collects the results.
  unfoldable pub repeat : {A : Type 0} → ℕ → M s A → M s (List A)
  repeat ℕ.zero body = pure []
  repeat (suc n) body = let rest = repeat n body in do x ← body; xs ← rest; pure (x ∷ xs)

  -- A new app interface, with its port and a connection to it.
  unfoldable pub connect_interface : ℕ → String → AppInfo → M s ℕ
  connect_interface i id info = do
    c ← client_at s i
    value ← on_host s (attach_app_interface (services_of s c) id none)
    issued ← on_host s (
        issue_app_authentication_token (services_of s c) id
          (obj (field "installed_app_id" (str info.installed_app_id) end)))
    token ← lift (read "token" issued)
    on_host s (connect_app_interface (services_of s c) token (s.as_port value))
    pure (s.as_port value)

  -- The player of an installed app.
  unfoldable pub player_of : ℕ → String → AppInfo → ℕ → M s (TryCpPlayer W)
  player_of i id info port = do
    c ← client_at s i
    agent_app ←
        enable_and_get_agent_app (λ request. on_host s (enable_app (services_of s c) id request))
          (λ request timeout. on_host s (call_zome (services_of s c) id port (obj request))) info
    pure (record { client = i; conductor = id; app_ws = port; agent_app = agent_app })

  unfoldable pub add_player : ℕ → String → Value → M s (TryCpPlayer W)
  unfolding connect_interface player_of
  add_player i id installed = do
    port ← connect_interface i id (s.as_app_info installed)
    player_of i id (s.as_app_info installed) port

  -- One conductor of a client with its players.
  unfoldable pub add_conductor_players : ClientsPlayersOptions → ℕ → M s (List (TryCpPlayer W))
  unfolding add_player agents_apps
  add_conductor_players o i = do
    id ←
        add_conductor s i (record {
          id = none;
          partial_config = o.partial_config;
          startup = none;
          log_level = none;
        })
    apps ← lift (agents_apps o)
    c ← client_at s i
    infos ← on_host s (
        install_agents_apps (services_of s c) id
          (record { agents_apps = apps; network_seed = none; installed_app_id = none }))
    for_each (add_player i id) infos

  -- One client with its conductors and players.
  unfoldable pub add_client_players : ClientsPlayersOptions → String → M s (ClientPlayers W)
  unfolding repeat add_conductor_players
  add_client_players o server_url = do
    i ← add_client s server_url o.client_timeout
    conductors ← repeat (or_one o.number_of_conductors_per_client) (add_conductor_players o i)
    pure (record { client = i; players = flat conductors })

  unfoldable pub add_clients_players :
      List String → ClientsPlayersOptions → M s (List (ClientPlayers W))
  unfolding add_client_players
  add_clients_players server_urls o = promise_all (add_client_players o) server_urls

  abbrev listen : ℕ → ℕ → Option ℕ → M s (Unit {0})
  listen i port none = pure tt
  listen i port (some h) = do c ← client_at s i; on_host s (on (services_of s c) port (some h))

  unfoldable pub add_player_with_app :
      ℕ → Value → AppOptions → Option LogLevel → M s (TryCpPlayer W)
  unfolding add_player
  add_player_with_app i source options log_level = do
    id ←
        add_conductor s i
          (record { id = none; partial_config = none; startup = none; log_level = log_level })
    seed ← reading s (λ c. c.network_seed)
    c ← client_at s i
    installed ← on_host s (install_app (services_of s c) id source (seeded seed options))
    player ← add_player i id installed
    listen i player.app_ws options.signal_handler
    pure player

  unfoldable pub add_players_with_apps : ℕ → List PlayerApp → M s (List (TryCpPlayer W))
  unfolding add_player_with_app
  add_players_with_apps i players =
      promise_all (λ (p : PlayerApp). add_player_with_app i p.app_bundle_source p.options none)
        players
