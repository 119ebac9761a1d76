-- ===== src/Trycp/Conductor/Refinement/AdminMethods.antt =====
-- The admin methods over two sets of services that behave alike.
use try_o_rama.Prelude.{ℕ, String, Option, none, some, ◌≡◌, refl}
use try_o_rama.Js.Value.{Value}
use try_o_rama.Js.Refines.{Refines, runs, bind-Refines, lift-Refines, pure-Refines, modify-Refines}
use try_o_rama.Trycp.Protocol.Tags.{AdminRequest, AdminResponse}
use try_o_rama.Trycp.Services.{Services}
use try_o_rama.Trycp.Conductor.Admin.{
  call_admin_api, request_value, request_nothing, AttachRequest, attach_app_interface, dump_state,
  parse_dump, grant_signing_key, authorize_signing_credentials, agent_info, or_free_port,
  requested_port, or_all, grant_zome_call_capability, add_agent_info, delete_clone_cell,
  disable_app, dump_full_state, dump_network_stats, enable_app, generate_agent_pub_key,
  get_compatible_cells, get_dna_definition, install_app, list_app_interfaces, list_apps,
  list_cell_ids, list_dnas, register_dna, revoke_agent_key, start_app, storage_info, uninstall_app,
  update_coordinators, issue_app_authentication_token,
}
use try_o_rama.Trycp.Conductor.Methods.{admin_ws}
use try_o_rama.Trycp.Conductor.Refinement.{ServicesRefine, AdminRefines}

module _ {V W : Type 0} {R : V → W → Type 0} {Failure : Type 0} {s : Services V} {t : Services W}
    (h : ServicesRefine R Failure s t) (id : String) where
  call_admin_api-Refines :
      (type : AdminRequest) (value : Option Value)
      → Refines R Failure (call_admin_api s id type value) (call_admin_api t id type value)
  unfolding call_admin_api
  call_admin_api-Refines type value = search (runs, h.call) depth 40

  request_value-Refines :
      (type : AdminRequest) (value : Option Value) (tag : AdminResponse)
      → Refines R Failure (request_value s id type value tag) (request_value t id type value tag)
  unfolding request_value
  request_value-Refines type value tag = search (runs, call_admin_api-Refines) depth 40

  request_nothing-Refines :
      (type : AdminRequest) (value : Option Value) (tag : AdminResponse)
      → Refines R Failure
          (request_nothing s id type value tag)
          (request_nothing t id type value tag)
  unfolding request_nothing
  request_nothing-Refines type value tag = search (runs, call_admin_api-Refines) depth 40

  or_free_port-Refines :
      (p : Option ℕ) → Refines R Failure (or_free_port s id p) (or_free_port t id p)
  or_free_port-Refines none = h.get_port 30000 40000
  or_free_port-Refines (some p) = pure-Refines p

  attach_app_interface-Refines :
      (r : Option AttachRequest)
      → Refines R Failure (attach_app_interface s id r) (attach_app_interface t id r)
  unfolding attach_app_interface
  attach_app_interface-Refines r =
      bind-Refines (or_free_port-Refines (requested_port r))
        (λ port. bind-Refines (request_value-Refines _ _ _) (λ value. lift-Refines refl))

  parse_dump-eq : (v : Value) → parse_dump s id v ≡ parse_dump t id v
  unfolding parse_dump
  parse_dump-eq v = rw h.parse_json refl

  dump_state-Refines : (v : Value) → Refines R Failure (dump_state s id v) (dump_state t id v)
  unfolding dump_state
  dump_state-Refines v = search (runs, call_admin_api-Refines, parse_dump-eq) depth 40

  grant_zome_call_capability-Refines :
      (r : Value)
      → Refines R Failure (grant_zome_call_capability s id r) (grant_zome_call_capability t id r)
  unfolding grant_zome_call_capability
  grant_zome_call_capability-Refines r = request_nothing-Refines _ _ _

  grant_signing_key-Refines :
      (c f k : Value)
      → Refines R Failure (grant_signing_key s id c f k) (grant_signing_key t id c f k)
  unfolding grant_signing_key
  grant_signing_key-Refines c f k =
      bind-Refines h.random_cap_secret
        (λ secret. bind-Refines (grant_zome_call_capability-Refines _) (λ u. pure-Refines secret))

  pub authorize_signing_credentials-Refines :
      (c f : Value)
      → Refines R Failure
          (authorize_signing_credentials s id c f)
          (authorize_signing_credentials t id c f)
  unfolding authorize_signing_credentials
  authorize_signing_credentials-Refines c f = bind-Refines h.generate_signing_key_pair (λ keys.
      bind-Refines (grant_signing_key-Refines c (or_all f) keys.1)
        (λ secret. modify-Refines (h.set_signing_credentials c _)))

  pub admin_ws-Refines : AdminRefines R Failure (admin_ws s id) (admin_ws t id)
  unfolding admin_ws add_agent_info agent_info delete_clone_cell disable_app dump_full_state
      dump_network_stats enable_app generate_agent_pub_key get_compatible_cells get_dna_definition
      grant_zome_call_capability install_app list_app_interfaces list_apps list_cell_ids list_dnas
      register_dna revoke_agent_key start_app storage_info uninstall_app update_coordinators
      issue_app_authentication_token
  admin_ws-Refines = record {
    add_agent_info = λ a. request_nothing-Refines _ _ _;
    agent_info = λ a. request_value-Refines _ _ _;
    attach_app_interface = attach_app_interface-Refines;
    authorize_signing_credentials = authorize_signing_credentials-Refines;
    delete_clone_cell = λ a. request_nothing-Refines _ _ _;
    disable_app = λ a. request_value-Refines _ _ _;
    dump_full_state = λ a. request_value-Refines _ _ _;
    dump_network_stats = λ a. request_value-Refines _ _ _;
    dump_state = dump_state-Refines;
    enable_app = λ a. request_value-Refines _ _ _;
    generate_agent_pub_key = request_value-Refines _ _ _;
    get_compatible_cells = λ a. request_value-Refines _ _ _;
    get_dna_definition = λ a. request_value-Refines _ _ _;
    grant_signing_key = grant_signing_key-Refines;
    grant_zome_call_capability = λ a. request_nothing-Refines _ _ _;
    install_app = λ a. request_value-Refines _ _ _;
    list_app_interfaces = request_value-Refines _ _ _;
    list_apps = λ a. request_value-Refines _ _ _;
    list_cell_ids = request_value-Refines _ _ _;
    list_dnas = request_value-Refines _ _ _;
    register_dna = λ a. request_value-Refines _ _ _;
    revoke_agent_key = λ a. request_value-Refines _ _ _;
    start_app = λ a. request_value-Refines _ _ _;
    storage_info = λ a. request_value-Refines _ _ _;
    uninstall_app = λ a. request_value-Refines _ _ _;
    update_coordinators = λ a. request_value-Refines _ _ _;
    issue_app_authentication_token = λ a. request_value-Refines _ _ _;
  }
