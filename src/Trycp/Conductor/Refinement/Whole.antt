-- ===== src/Trycp/Conductor/Refinement/Whole.antt =====
-- The conductor's own methods, and a whole conductor, over two sets of services that behave alike.
use try_o_rama.Prelude.{ℕ, String, Bool, Option, none, some, refl, ◌≡◌}
use try_o_rama.Js.Value.{Value}
use try_o_rama.Js.Refines.{
  Refines, runs, bind-Refines, pure-Refines, gets-Refines, promise_all-Refines, modify-Refines,
  require-Refines,
}
use try_o_rama.Types.{AppOptions, AgentApps, AgentsAppsOptions}
use try_o_rama.Trycp.Protocol.{TryCpRequest, configure_player}
use try_o_rama.Trycp.Services.{Services}
use try_o_rama.Trycp.Conductor.Admin
use try_o_rama.Trycp.Conductor.{
  failed, call_for_success, call_for_text, chosen_config, given, configure, start_up, shut_down,
  disconnect_client, download_dna, save_dna, connect_app_interface, disconnect_app_interface,
  download_logs, on, off,
}
use try_o_rama.Trycp.Conductor.Install.{
  agent_key_or_new, app_id_or_new, install_app, install_agent_app, install_agents_apps,
}
use try_o_rama.Trycp.Conductor.Methods.{admin_ws, connect_app_ws, try_cp_conductor}
use try_o_rama.Trycp.Conductor.Refinement.{
  ServicesRefine, AdminRefines, AppRefines, ConductorRefines,
}
use try_o_rama.Trycp.Conductor.Refinement.AdminMethods.{admin_ws-Refines}
use try_o_rama.Trycp.Conductor.Refinement.AppMethods.{connect_app_ws-Refines}

module _ {V W : Type 0} {R : V → W → Type 0} {Failure : Type 0} {s : Services V} {t : Services W}
    (h : ServicesRefine R Failure s t) (id : String) where
  call_for_success-Refines :
      (r : TryCpRequest) → Refines R Failure (call_for_success s r) (call_for_success t r)
  call_for_success-Refines r = search (runs, h.call) depth 40

  call_for_text-Refines :
      (r : TryCpRequest) → Refines R Failure (call_for_text s r) (call_for_text t r)
  call_for_text-Refines r = search (runs, h.call) depth 40

  chosen_config-eq :
      (c : Option String) (no_dpki : Bool) (seed : String) (v : V) (w : W)
      → R v w
      → chosen_config s c no_dpki seed v ≡ chosen_config t c no_dpki seed w
  chosen_config-eq none no_dpki seed v w r =
      rw (h.bootstrap_server_url v w r, h.signaling_server_url v w r) refl
  chosen_config-eq (some c) no_dpki seed v w r = refl

  configure-Refines :
      (c : Option String) (no_dpki : Bool) (seed : String)
      → Refines R Failure (configure s id c no_dpki seed) (configure t id c no_dpki seed)
  unfolding configure
  configure-Refines c no_dpki seed =
      bind-Refines (gets-Refines (chosen_config-eq (given c) no_dpki seed))
        (λ config. call_for_success-Refines (configure_player id config))

  disconnect_client-Refines : Refines R Failure (disconnect_client s) (disconnect_client t)
  unfolding disconnect_client
  disconnect_client-Refines =
      bind-Refines h.close (λ c. bind-Refines (require-Refines _ failed) (λ u. pure-Refines c))

  download_logs-Refines : Refines R Failure (download_logs s id) (download_logs t id)
  unfolding download_logs
  download_logs-Refines = search (runs, h.call) depth 40

  agent_key_or_new-Refines :
      (k : Option Value) → Refines R Failure (agent_key_or_new s id k) (agent_key_or_new t id k)
  unfolding agent_key_or_new
  agent_key_or_new-Refines none = unfold admin_ws in (admin_ws-Refines h id).generate_agent_pub_key
  agent_key_or_new-Refines (some k) = pure-Refines k

  app_id_or_new-Refines :
      (a : Option String) → Refines R Failure (app_id_or_new s id a) (app_id_or_new t id a)
  unfolding app_id_or_new
  app_id_or_new-Refines none = search (runs, h.uuid) depth 40
  app_id_or_new-Refines (some a) = pure-Refines a

  admin_install_app-Refines :
      (v : Value) → Refines R Failure (Admin.install_app s id v) (Admin.install_app t id v)
  admin_install_app-Refines = unfold admin_ws in (admin_ws-Refines h id).install_app

  install_app-Refines :
      (source : Value) (o : AppOptions)
      → Refines R Failure (install_app s id source o) (install_app t id source o)
  unfolding install_app
  install_app-Refines source o =
      search (runs, agent_key_or_new-Refines, app_id_or_new-Refines, admin_install_app-Refines)
        depth 40

  install_agent_app-Refines :
      (o : AgentsAppsOptions) (a : AgentApps)
      → Refines R Failure (install_agent_app s id o a) (install_agent_app t id o a)
  unfolding install_agent_app
  install_agent_app-Refines o a =
      search (runs, agent_key_or_new-Refines, app_id_or_new-Refines, admin_install_app-Refines)
        depth 40

  install_agents_apps-Refines :
      (o : AgentsAppsOptions)
      → Refines R Failure (install_agents_apps s id o) (install_agents_apps t id o)
  unfolding install_agents_apps
  install_agents_apps-Refines o = promise_all-Refines o.agents_apps (install_agent_app-Refines o)

  try_cp_conductor-Refines :
      ConductorRefines R Failure (try_cp_conductor s id) (try_cp_conductor t id)
  unfolding try_cp_conductor start_up shut_down download_dna save_dna connect_app_interface
      disconnect_app_interface on off
  try_cp_conductor-Refines = record {
    configure = configure-Refines;
    start_up = λ a. call_for_success-Refines _;
    shut_down = call_for_success-Refines _;
    disconnect_client = disconnect_client-Refines;
    download_dna = λ a. call_for_text-Refines _;
    save_dna = λ a. call_for_text-Refines _;
    connect_app_interface = λ a b. call_for_success-Refines _;
    disconnect_app_interface = λ a. call_for_success-Refines _;
    download_logs = download_logs-Refines;
    on = λ a b. modify-Refines (h.set_signal_handler a b);
    off = λ a. modify-Refines (h.unset_signal_handler a);
    install_app = install_app-Refines;
    install_agents_apps = install_agents_apps-Refines;
  }

  -- Over services that behave alike, a conductor, its admin methods and its app websockets on all
  -- ports behave alike, method by method.
  pub methods-Refine :
      ConductorRefines R Failure (try_cp_conductor s id) (try_cp_conductor t id)
      × AdminRefines R Failure (admin_ws s id) (admin_ws t id)
      × ((token : Value) (port : ℕ)
          → AppRefines R Failure (connect_app_ws s id token port) (connect_app_ws t id token port))
  methods-Refine = (
    try_cp_conductor-Refines,
    admin_ws-Refines h id,
    λ token port. connect_app_ws-Refines h id port token,
  )
