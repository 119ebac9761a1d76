-- ===== src/Trycp/Protocol/Tags.antt =====
-- The enumerations of ts/src/trycp/types.ts, and the text that each value stands for on the wire.
use try_o_rama.Prelude.{String}

-- `TryCpConductorLogLevel`
pub data LogLevel : Type 0 where
  error warn info debug trace : LogLevel

abbrev pub log_level_tag : LogLevel → String
log_level_tag error = "error"
log_level_tag warn = "warn"
log_level_tag info = "info"
log_level_tag debug = "debug"
log_level_tag trace = "trace"

-- `RequestAdminInterfaceMessageType`
pub data AdminRequest : Type 0 where
  add_agent_info agent_info attach_app_interface connect_app_interface : AdminRequest
  delete_clone_cell disable_app dump_full_state dump_network_stats dump_state : AdminRequest
  enable_app generate_agent_pub_key get_compatible_cells get_dna_definition : AdminRequest
  grant_zome_call_capability install_app list_apps list_app_interfaces list_cell_ids : AdminRequest
  list_dnas register_dna revoke_agent_key start_app storage_info uninstall_app : AdminRequest
  update_coordinators issue_app_authentication_token : AdminRequest

abbrev pub admin_request_tag : AdminRequest → String
admin_request_tag AdminRequest.add_agent_info = "add_agent_info"
admin_request_tag AdminRequest.agent_info = "agent_info"
admin_request_tag AdminRequest.attach_app_interface = "attach_app_interface"
admin_request_tag AdminRequest.connect_app_interface = "connect_app_interface"
admin_request_tag AdminRequest.delete_clone_cell = "delete_clone_cell"
admin_request_tag AdminRequest.disable_app = "disable_app"
admin_request_tag AdminRequest.dump_full_state = "dump_full_state"
admin_request_tag AdminRequest.dump_network_stats = "dump_network_stats"
admin_request_tag AdminRequest.dump_state = "dump_state"
admin_request_tag AdminRequest.enable_app = "enable_app"
admin_request_tag AdminRequest.generate_agent_pub_key = "generate_agent_pub_key"
admin_request_tag AdminRequest.get_compatible_cells = "get_compatible_cells"
admin_request_tag AdminRequest.get_dna_definition = "get_dna_definition"
admin_request_tag AdminRequest.grant_zome_call_capability = "grant_zome_call_capability"
admin_request_tag AdminRequest.install_app = "install_app"
admin_request_tag AdminRequest.list_apps = "list_apps"
admin_request_tag AdminRequest.list_app_interfaces = "list_app_interfaces"
admin_request_tag AdminRequest.list_cell_ids = "list_cell_ids"
admin_request_tag AdminRequest.list_dnas = "list_dnas"
admin_request_tag AdminRequest.register_dna = "register_dna"
admin_request_tag AdminRequest.revoke_agent_key = "revoke_agent_key"
admin_request_tag AdminRequest.start_app = "start_app"
admin_request_tag AdminRequest.storage_info = "storage_info"
admin_request_tag AdminRequest.uninstall_app = "uninstall_app"
admin_request_tag AdminRequest.update_coordinators = "update_coordinators"
admin_request_tag AdminRequest.issue_app_authentication_token = "issue_app_authentication_token"

-- The variants of `AdminApiResponse`
pub data AdminResponse : Type 0 where
  agent_info agent_info_added agent_pub_key_generated app_disabled app_enabled : AdminResponse
  app_installed app_interface_attached app_interfaces_listed app_started : AdminResponse
  app_uninstalled apps_listed cell_ids_listed clone_cell_deleted : AdminResponse
  coordinators_updated dna_definition_returned compatible_cells dnas_listed : AdminResponse
  dna_registered full_state_dumped network_stats_dumped agent_key_revoked : AdminResponse
  state_dumped storage_info app_authentication_token_issued : AdminResponse
  zome_call_capability_granted : AdminResponse

abbrev pub admin_response_tag : AdminResponse → String
admin_response_tag AdminResponse.agent_info = "agent_info"
admin_response_tag AdminResponse.agent_info_added = "agent_info_added"
admin_response_tag AdminResponse.agent_pub_key_generated = "agent_pub_key_generated"
admin_response_tag AdminResponse.app_disabled = "app_disabled"
admin_response_tag AdminResponse.app_enabled = "app_enabled"
admin_response_tag AdminResponse.app_installed = "app_installed"
admin_response_tag AdminResponse.app_interface_attached = "app_interface_attached"
admin_response_tag AdminResponse.app_interfaces_listed = "app_interfaces_listed"
admin_response_tag AdminResponse.app_started = "app_started"
admin_response_tag AdminResponse.app_uninstalled = "app_uninstalled"
admin_response_tag AdminResponse.apps_listed = "apps_listed"
admin_response_tag AdminResponse.cell_ids_listed = "cell_ids_listed"
admin_response_tag AdminResponse.clone_cell_deleted = "clone_cell_deleted"
admin_response_tag AdminResponse.coordinators_updated = "coordinators_updated"
admin_response_tag AdminResponse.dna_definition_returned = "dna_definition_returned"
admin_response_tag AdminResponse.compatible_cells = "compatible_cells"
admin_response_tag AdminResponse.dnas_listed = "dnas_listed"
admin_response_tag AdminResponse.dna_registered = "dna_registered"
admin_response_tag AdminResponse.full_state_dumped = "full_state_dumped"
admin_response_tag AdminResponse.network_stats_dumped = "network_stats_dumped"
admin_response_tag AdminResponse.agent_key_revoked = "agent_key_revoked"
admin_response_tag AdminResponse.state_dumped = "state_dumped"
admin_response_tag AdminResponse.storage_info = "storage_info"
admin_response_tag AdminResponse.app_authentication_token_issued = "app_authentication_token_issued"
admin_response_tag AdminResponse.zome_call_capability_granted = "zome_call_capability_granted"

-- The variants of `RequestCallAppInterfaceMessage`
pub data AppRequest : Type 0 where
  call_zome app_info provide_memproofs enable_app create_clone_cell : AppRequest
  enable_clone_cell disable_clone_cell network_info : AppRequest

abbrev pub app_request_tag : AppRequest → String
app_request_tag AppRequest.call_zome = "call_zome"
app_request_tag AppRequest.app_info = "app_info"
app_request_tag AppRequest.provide_memproofs = "provide_memproofs"
app_request_tag AppRequest.enable_app = "enable_app"
app_request_tag AppRequest.create_clone_cell = "create_clone_cell"
app_request_tag AppRequest.enable_clone_cell = "enable_clone_cell"
app_request_tag AppRequest.disable_clone_cell = "disable_clone_cell"
app_request_tag AppRequest.network_info = "network_info"

-- The variants of `AppApiResponse`; `ok` is `AppApiResponseOk`.
pub data AppResponse : Type 0 where
  app_info ok zome_call clone_cell_created clone_cell_enabled clone_cell_disabled : AppResponse
  network_info : AppResponse

abbrev pub app_response_tag : AppResponse → String
app_response_tag AppResponse.app_info = "app_info"
app_response_tag AppResponse.ok = "ok"
app_response_tag AppResponse.zome_call = "zome_call"
app_response_tag AppResponse.clone_cell_created = "clone_cell_created"
app_response_tag AppResponse.clone_cell_enabled = "clone_cell_enabled"
app_response_tag AppResponse.clone_cell_disabled = "clone_cell_disabled"
app_response_tag AppResponse.network_info = "network_info"
