-- ===== src/Trycp/Conductor/Methods.antt =====
-- The objects that a TryCP conductor is and hands out: its own methods, and those that `adminWs`
-- and `connectAppWs` return.
use try_o_rama.Prelude.{ℕ, String, Bool, List, Option}
use try_o_rama.Js.Value.{Value, Bytes}
use try_o_rama.Js.Action.{Action}
use try_o_rama.Types.{AppOptions, AgentsAppsOptions}
use try_o_rama.Trycp.Protocol.Tags.{LogLevel}
use try_o_rama.Trycp.Services.{Services}
use try_o_rama.Trycp.Conductor.{
  configure, start_up, shut_down, disconnect_client, download_dna, save_dna, connect_app_interface,
  disconnect_app_interface, download_logs, on, off,
}
use try_o_rama.Trycp.Conductor.Admin.{AttachRequest}
use try_o_rama.Trycp.Conductor.Admin
use try_o_rama.Trycp.Conductor.App
use try_o_rama.Trycp.Conductor.Install

-- What `adminWs` returns.
pub record AdminWs (W : Type 0) : Type 0 where
  pub add_agent_info : Value → Action W (Unit {0})
  pub agent_info : Value → Action W Value
  pub attach_app_interface : Option AttachRequest → Action W Value
  pub authorize_signing_credentials : Value → Value → Action W (Unit {0})
  pub delete_clone_cell : Value → Action W (Unit {0})
  pub disable_app : Value → Action W Value
  pub dump_full_state : Value → Action W Value
  pub dump_network_stats : Value → Action W Value
  pub dump_state : Value → Action W Value
  pub enable_app : Value → Action W Value
  pub generate_agent_pub_key : Action W Value
  pub get_compatible_cells : Value → Action W Value
  pub get_dna_definition : Value → Action W Value
  pub grant_signing_key : Value → Value → Value → Action W Value
  pub grant_zome_call_capability : Value → Action W (Unit {0})
  pub install_app : Value → Action W Value
  pub list_app_interfaces : Action W Value
  pub list_apps : Value → Action W Value
  pub list_cell_ids : Action W Value
  pub list_dnas : Action W Value
  pub register_dna : Value → Action W Value
  pub revoke_agent_key : Value → Action W Value
  pub start_app : Value → Action W Value
  pub storage_info : Value → Action W Value
  pub uninstall_app : Value → Action W Value
  pub update_coordinators : Value → Action W Value
  pub issue_app_authentication_token : Value → Action W Value

-- What `connectAppWs` resolves to.
pub record AppWs (W : Type 0) : Type 0 where
  pub app_info : Action W Value
  pub call_zome : Value → Action W Value
  pub enable_app : Action W (Unit {0})
  pub create_clone_cell : Value → Action W Value
  pub enable_clone_cell : Value → Action W Value
  pub disable_clone_cell : Value → Action W Value
  pub network_info : Value → Action W Value
  pub provide_memproofs : Value → Action W (Unit {0})

-- The methods of `TryCpConductor` besides the two that make the objects above.
pub record TryCpConductor (W : Type 0) : Type 0 where
  pub configure : Option String → Bool → String → Action W Value
  pub start_up : Option LogLevel → Action W Value
  pub shut_down : Action W Value
  pub disconnect_client : Action W ℕ
  pub download_dna : String → Action W Value
  pub save_dna : Bytes → Action W Value
  pub connect_app_interface : Value → ℕ → Action W Value
  pub disconnect_app_interface : ℕ → Action W Value
  pub download_logs : Action W Value
  pub on : ℕ → Option ℕ → Action W (Unit {0})
  pub off : ℕ → Action W (Unit {0})
  pub install_app : Value → AppOptions → Action W Value
  pub install_agents_apps : AgentsAppsOptions → Action W (List Value)

module _ {W : Type 0} (s : Services W) (id : String) where
  unfoldable pub admin_ws : AdminWs W
  admin_ws = record {
    add_agent_info = Admin.add_agent_info s id;
    agent_info = Admin.agent_info s id;
    attach_app_interface = Admin.attach_app_interface s id;
    authorize_signing_credentials = Admin.authorize_signing_credentials s id;
    delete_clone_cell = Admin.delete_clone_cell s id;
    disable_app = Admin.disable_app s id;
    dump_full_state = Admin.dump_full_state s id;
    dump_network_stats = Admin.dump_network_stats s id;
    dump_state = Admin.dump_state s id;
    enable_app = Admin.enable_app s id;
    generate_agent_pub_key = Admin.generate_agent_pub_key s id;
    get_compatible_cells = Admin.get_compatible_cells s id;
    get_dna_definition = Admin.get_dna_definition s id;
    grant_signing_key = Admin.grant_signing_key s id;
    grant_zome_call_capability = Admin.grant_zome_call_capability s id;
    install_app = Admin.install_app s id;
    list_app_interfaces = Admin.list_app_interfaces s id;
    list_apps = Admin.list_apps s id;
    list_cell_ids = Admin.list_cell_ids s id;
    list_dnas = Admin.list_dnas s id;
    register_dna = Admin.register_dna s id;
    revoke_agent_key = Admin.revoke_agent_key s id;
    start_app = Admin.start_app s id;
    storage_info = Admin.storage_info s id;
    uninstall_app = Admin.uninstall_app s id;
    update_coordinators = Admin.update_coordinators s id;
    issue_app_authentication_token = Admin.issue_app_authentication_token s id;
  }

  -- The token is not used: the server connects its app interface by another request.
  unfoldable pub connect_app_ws : Value → ℕ → AppWs W
  connect_app_ws token port = record {
    app_info = App.app_info s id port;
    call_zome = App.call_zome s id port;
    enable_app = App.enable_app s id port;
    create_clone_cell = App.create_clone_cell s id port;
    enable_clone_cell = App.enable_clone_cell s id port;
    disable_clone_cell = App.disable_clone_cell s id port;
    network_info = App.network_info s id port;
    provide_memproofs = App.provide_memproofs s id port;
  }

  unfoldable pub try_cp_conductor : TryCpConductor W
  try_cp_conductor = record {
    configure = configure s id;
    start_up = start_up s id;
    shut_down = shut_down s id;
    disconnect_client = disconnect_client s;
    download_dna = download_dna s;
    save_dna = save_dna s;
    connect_app_interface = connect_app_interface s;
    disconnect_app_interface = disconnect_app_interface s;
    download_logs = download_logs s id;
    on = on s;
    off = off s;
    install_app = Install.install_app s id;
    install_agents_apps = Install.install_agents_apps s id;
  }
