-- ===== src/Trycp/Conductor/Refinement.antt =====
-- Two TryCP conductors, over two sets of services, method by method.
pub mod AdminMethods
pub mod AppMethods
pub mod Whole
pub mod Creation
use try_o_rama.Prelude.{ℕ, String, Bool, List, Option, none, some, ◌≡◌, ap, true, false}
use try_o_rama.Js.Value.{Value, Bytes}
use try_o_rama.Js.Action.{Action}
use try_o_rama.Js.Refines.{
  Refines, lift-Refines, pure-Refines, throw-Refines, require-Refines, gets-Refines, modify-Refines,
  bind-Refines, promise_all-Refines,
}
use try_o_rama.Types.{AppOptions, AgentsAppsOptions}
use try_o_rama.Trycp.Protocol.{TryCpRequest}
use try_o_rama.Trycp.Protocol.Tags.{LogLevel}
use try_o_rama.Trycp.Services.{Services}
use try_o_rama.Trycp.Conductor.Admin.{AttachRequest}
use try_o_rama.Trycp.Conductor.Methods.{
  AdminWs, AppWs, TryCpConductor, admin_ws, connect_app_ws, try_cp_conductor,
}

-- Two objects of admin methods, method by method.
pub record AdminRefines {V W : Type 0} (R : V → W → Type 0) (Failure : Type 0) (m : AdminWs V)
    (n : AdminWs W) : Type 0 where
  pub add_agent_info : (a : Value) → Refines R Failure (m.add_agent_info a) (n.add_agent_info a)
  pub agent_info : (a : Value) → Refines R Failure (m.agent_info a) (n.agent_info a)
  pub attach_app_interface :
      (a : Option AttachRequest)
      → Refines R Failure (m.attach_app_interface a) (n.attach_app_interface a)
  pub authorize_signing_credentials :
      (a : Value) (b : Value)
      → Refines R Failure
          (m.authorize_signing_credentials a b)
          (n.authorize_signing_credentials a b)
  pub delete_clone_cell :
      (a : Value) → Refines R Failure (m.delete_clone_cell a) (n.delete_clone_cell a)
  pub disable_app : (a : Value) → Refines R Failure (m.disable_app a) (n.disable_app a)
  pub dump_full_state : (a : Value) → Refines R Failure (m.dump_full_state a) (n.dump_full_state a)
  pub dump_network_stats :
      (a : Value) → Refines R Failure (m.dump_network_stats a) (n.dump_network_stats a)
  pub dump_state : (a : Value) → Refines R Failure (m.dump_state a) (n.dump_state a)
  pub enable_app : (a : Value) → Refines R Failure (m.enable_app a) (n.enable_app a)
  pub generate_agent_pub_key :
      Refines R Failure (m.generate_agent_pub_key) (n.generate_agent_pub_key)
  pub get_compatible_cells :
      (a : Value) → Refines R Failure (m.get_compatible_cells a) (n.get_compatible_cells a)
  pub get_dna_definition :
      (a : Value) → Refines R Failure (m.get_dna_definition a) (n.get_dna_definition a)
  pub grant_signing_key :
      (a : Value) (b : Value) (c : Value)
      → Refines R Failure (m.grant_signing_key a b c) (n.grant_signing_key a b c)
  pub grant_zome_call_capability :
      (a : Value)
      → Refines R Failure (m.grant_zome_call_capability a) (n.grant_zome_call_capability a)
  pub install_app : (a : Value) → Refines R Failure (m.install_app a) (n.install_app a)
  pub list_app_interfaces : Refines R Failure (m.list_app_interfaces) (n.list_app_interfaces)
  pub list_apps : (a : Value) → Refines R Failure (m.list_apps a) (n.list_apps a)
  pub list_cell_ids : Refines R Failure (m.list_cell_ids) (n.list_cell_ids)
  pub list_dnas : Refines R Failure (m.list_dnas) (n.list_dnas)
  pub register_dna : (a : Value) → Refines R Failure (m.register_dna a) (n.register_dna a)
  pub revoke_agent_key :
      (a : Value) → Refines R Failure (m.revoke_agent_key a) (n.revoke_agent_key a)
  pub start_app : (a : Value) → Refines R Failure (m.start_app a) (n.start_app a)
  pub storage_info : (a : Value) → Refines R Failure (m.storage_info a) (n.storage_info a)
  pub uninstall_app : (a : Value) → Refines R Failure (m.uninstall_app a) (n.uninstall_app a)
  pub update_coordinators :
      (a : Value) → Refines R Failure (m.update_coordinators a) (n.update_coordinators a)
  pub issue_app_authentication_token :
      (a : Value)
      → Refines R Failure (m.issue_app_authentication_token a) (n.issue_app_authentication_token a)

-- Two app websockets, method by method.
pub record AppRefines {V W : Type 0} (R : V → W → Type 0) (Failure : Type 0) (m : AppWs V)
    (n : AppWs W) : Type 0 where
  pub app_info : Refines R Failure (m.app_info) (n.app_info)
  pub call_zome : (a : Value) → Refines R Failure (m.call_zome a) (n.call_zome a)
  pub enable_app : Refines R Failure (m.enable_app) (n.enable_app)
  pub create_clone_cell :
      (a : Value) → Refines R Failure (m.create_clone_cell a) (n.create_clone_cell a)
  pub enable_clone_cell :
      (a : Value) → Refines R Failure (m.enable_clone_cell a) (n.enable_clone_cell a)
  pub disable_clone_cell :
      (a : Value) → Refines R Failure (m.disable_clone_cell a) (n.disable_clone_cell a)
  pub network_info : (a : Value) → Refines R Failure (m.network_info a) (n.network_info a)
  pub provide_memproofs :
      (a : Value) → Refines R Failure (m.provide_memproofs a) (n.provide_memproofs a)

-- Two conductors, method by method.
pub record ConductorRefines {V W : Type 0} (R : V → W → Type 0) (Failure : Type 0)
    (m : TryCpConductor V) (n : TryCpConductor W) : Type 0 where
  pub configure :
      (a : Option String) (b : Bool) (c : String)
      → Refines R Failure (m.configure a b c) (n.configure a b c)
  pub start_up : (a : Option LogLevel) → Refines R Failure (m.start_up a) (n.start_up a)
  pub shut_down : Refines R Failure (m.shut_down) (n.shut_down)
  pub disconnect_client : Refines R Failure (m.disconnect_client) (n.disconnect_client)
  pub download_dna : (a : String) → Refines R Failure (m.download_dna a) (n.download_dna a)
  pub save_dna : (a : Bytes) → Refines R Failure (m.save_dna a) (n.save_dna a)
  pub connect_app_interface :
      (a : Value) (b : ℕ)
      → Refines R Failure (m.connect_app_interface a b) (n.connect_app_interface a b)
  pub disconnect_app_interface :
      (a : ℕ) → Refines R Failure (m.disconnect_app_interface a) (n.disconnect_app_interface a)
  pub download_logs : Refines R Failure (m.download_logs) (n.download_logs)
  pub on : (a : ℕ) (b : Option ℕ) → Refines R Failure (m.on a b) (n.on a b)
  pub off : (a : ℕ) → Refines R Failure (m.off a) (n.off a)
  pub install_app :
      (a : Value) (b : AppOptions) → Refines R Failure (m.install_app a b) (n.install_app a b)
  pub install_agents_apps :
      (a : AgentsAppsOptions)
      → Refines R Failure (m.install_agents_apps a) (n.install_agents_apps a)

-- Two sets of services that behave alike: they share a codec and a JSON parser.
pub record ServicesRefine {V W : Type 0} (R : V → W → Type 0) (Failure : Type 0) (s : Services V)
    (t : Services W) : Type 0 where
  pub call : (request : TryCpRequest) → Refines R Failure (s.call request) (t.call request)
  pub close : Refines R Failure s.close t.close
  pub set_signal_handler :
      (port : ℕ) (h : Option ℕ) (v : V) (w : W)
      → R v w
      → R (s.set_signal_handler port h v) (t.set_signal_handler port h w)
  pub unset_signal_handler :
      (port : ℕ) (v : V) (w : W)
      → R v w
      → R (s.unset_signal_handler port v) (t.unset_signal_handler port w)
  pub bootstrap_server_url :
      (v : V) (w : W) → R v w → s.bootstrap_server_url v ≡ t.bootstrap_server_url w
  pub signaling_server_url :
      (v : V) (w : W) → R v w → s.signaling_server_url v ≡ t.signaling_server_url w
  pub uuid : Refines R Failure s.uuid t.uuid
  pub get_port : (from to : ℕ) → Refines R Failure (s.get_port from to) (t.get_port from to)
  pub signing_credentials :
      (cell : Value) (v : V) (w : W)
      → R v w
      → s.signing_credentials cell v ≡ t.signing_credentials cell w
  pub set_signing_credentials :
      (cell credentials : Value) (v : V) (w : W)
      → R v w
      → R
          (s.set_signing_credentials cell credentials v)
          (t.set_signing_credentials cell credentials w)
  pub generate_signing_key_pair :
      Refines R Failure s.generate_signing_key_pair t.generate_signing_key_pair
  pub random_cap_secret : Refines R Failure s.random_cap_secret t.random_cap_secret
  pub sign_zome_call :
      (request : Value) → Refines R Failure (s.sign_zome_call request) (t.sign_zome_call request)
  pub codec : s.codec ≡ t.codec
  pub parse_json : s.parse_json ≡ t.parse_json
