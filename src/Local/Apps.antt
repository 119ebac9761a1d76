-- ===== src/Local/Apps.antt =====
-- ts/src/local/conductor.ts: what a running conductor is used for, that is installations, app
-- interfaces and app websockets. The websockets of `@holochain/client` are parameters.
use try_o_rama.Prelude.{ℕ, String, List, Option, none, some}
use try_o_rama.Js.Text.{◌++◌}
use try_o_rama.Js.Value.{Value, Fields, str, num, pair, find_field, or_undefined}
use try_o_rama.Js.Exn.{Result, ok, err, assertion_error}
use try_o_rama.Js.Action.{Action, pure, ◌>>=◌, ◌>>◌, lift, gets, promise_all}
use try_o_rama.Types.{AppOptions, AgentApps, AgentsAppsOptions, AppInfo, install_app_request}
use try_o_rama.Local.Conductor.{Conductor, admin_ws}

-- The admin and app websockets of `@holochain/client`, each named by a number, its store of signing
-- credentials, random identifiers and free ports.
pub record Api (W : Type 0) : Type 0 where
  pub generate_agent_pub_key : ℕ → Action W Value
  pub install_app : ℕ → Value → Action W AppInfo
  -- the port in the response
  pub attach_app_interface : ℕ → Value → Action W ℕ
  -- the token in the response
  pub issue_app_authentication_token : ℕ → String → Action W Value
  pub enable_app : ℕ → Value → Action W Value
  pub agent_info : ℕ → Action W Value
  pub authorize_signing_credentials : ℕ → Value → Action W (Unit {0})
  -- `AppWebsocket.connect` with a token, at a port, with the default timeout
  pub connect_app : Value → ℕ → ℕ → Action W ℕ
  pub call_zome : ℕ → Fields → Option ℕ → Action W Value
  pub cached_app_info : ℕ → W → Option Value
  pub cell_id_from_role_name : Value → Value → Result Value
  pub signing_credentials : Value → W → Option Value
  pub uuid : Action W String
  pub get_port : ℕ → ℕ → Action W ℕ

module _ {W : Type 0} (a : Api W) where
  -- A method of the conductor that calls what is outside.
  abbrev pub Method : Type 0 → Type 0
  Method A = Action (Conductor × W) A

  abbrev pub call_outside : {A : Type 0} → Action W A → Method A
  call_outside f (c, w) = let (r, w') = f w in (r, (c, w'))

  -- `this.adminWs()`
  abbrev pub get_admin_ws : Method ℕ
  get_admin_ws (c, w) = (admin_ws c, (c, w))

  -- The port and the origins of an `AttachAppInterfaceRequest`.
  abbrev attach_request : Option (ℕ × String) → Method (ℕ × String)
  attach_request (some r) = pure r
  attach_request none = do
    port ← call_outside (a.get_port 30000 40000)
    pure (port, "tryorama-interface")

  unfoldable pub attach_app_interface : Option (ℕ × String) → Method ℕ
  attach_app_interface request = do
    r ← attach_request request
    ws ← get_admin_ws
    call_outside (a.attach_app_interface ws (pair "port" (num r.0) "allowed_origins" (str r.1)))

  abbrev pub get_timeout : Method ℕ
  get_timeout (c, w) = (ok c.timeout, (c, w))

  -- `connectAppWs`: the websocket, whose `callZome` is `call_zome` below.
  unfoldable pub connect_app_ws : Value → ℕ → Method ℕ
  connect_app_ws token port = do
    timeout ← get_timeout
    call_outside (a.connect_app token port timeout)

  abbrev cached : Option Value → Result Value
  cached none = err (assertion_error "")
  cached (some info) = ok info

  -- The cell of a request: that of its role, if it names one.
  unfoldable pub cell_of_request : ℕ → Fields → Method Value
  cell_of_request ws request = elim (find_field "role_name" request) [
    | none ↦ pure (or_undefined (find_field "cell_id" request))
    | some role ↦ do
      info ← call_outside (gets (a.cached_app_info ws))
      app ← lift (cached info)
      lift (a.cell_id_from_role_name role app)
  ]

  -- Credentials are authorized for a cell that has none.
  unfoldable pub ensure_signing_credentials : Value → Option Value → Method (Unit {0})
  ensure_signing_credentials cell (some c) = pure tt
  ensure_signing_credentials cell none = do
    ws ← get_admin_ws
    call_outside (a.authorize_signing_credentials ws cell)

  unfoldable pub call_zome : ℕ → Fields → Option ℕ → Method Value
  call_zome ws request timeout = do
    cell ← cell_of_request ws request
    credentials ← call_outside (gets (a.signing_credentials cell))
    ensure_signing_credentials cell credentials
    call_outside (a.call_zome ws request timeout)

  unfoldable pub agent_key_or_new : Option Value → Method Value
  agent_key_or_new (some k) = pure k
  agent_key_or_new none = do ws ← get_admin_ws; call_outside (a.generate_agent_pub_key ws)

  unfoldable pub app_id_or_new : Option String → Method String
  app_id_or_new (some i) = pure i
  app_id_or_new none = do u ← call_outside a.uuid; pure ("app-" ++ u)

  unfoldable pub install_app : Value → AppOptions → Method AppInfo
  install_app source options = do
    agent_key ← agent_key_or_new options.agent_pub_key
    installed_app_id ← app_id_or_new options.installed_app_id
    ws ← get_admin_ws
    call_outside (
        a.install_app ws (
          install_app_request source agent_key options.roles_settings installed_app_id
            options.network_seed))

  -- The options that `installAgentsApps` passes on for one agent.
  abbrev pub options_for : AgentsAppsOptions → AgentApps → AppOptions
  options_for all one = record {
    agent_pub_key = one.agent_pub_key;
    roles_settings = one.roles_settings;
    installed_app_id = all.installed_app_id;
    network_seed = all.network_seed;
    signal_handler = none;
  }

  unfoldable pub install_agents_apps : AgentsAppsOptions → Method (List AppInfo)
  install_agents_apps options =
      promise_all (λ one. install_app one.app (options_for options one)) options.agents_apps
