-- ===== src/Trycp/Conductor/Admin.antt =====
-- `adminWs` of a TryCP conductor: its admin methods, each one request to the conductor through the
-- server and a check of the response's type.
use try_o_rama.Prelude.{ℕ, String, not, Option, none, some, if◌then◌else◌}
use try_o_rama.Js.Text.{remove_escaped_newlines}
use try_o_rama.Js.Value.{
  Value, null, str, num, arr, obj, cons, nil, field, end, pair, triple, get, has_key, is_null,
  is_str, is_string, truthy,
}
use try_o_rama.Js.Exn.{Result, ok, err, type_error, codec_error, read}
use try_o_rama.Js.Action.{Action, pure, ◌>>=◌, ◌>>◌, lift, modify, require}
use try_o_rama.Trycp.Protocol.{call_admin_interface}
use try_o_rama.Trycp.Protocol.Tags.{AdminRequest, AdminResponse, admin_response_tag}
use try_o_rama.Trycp.Services.{Services}
use try_o_rama.Trycp.Conductor.{failed}

-- `_ALLOWED_ORIGIN` of ts/src/common.ts
abbrev pub allowed_origin : String
allowed_origin = "tryorama-interface"

-- `AttachAppInterfaceRequest`, with both properties optional, since the code looks for them.
pub record AttachRequest : Type 0 where
  pub port : Option ℕ
  pub allowed_origins : Option String

-- `req.cell_id || null`
abbrev pub or_null : Value → Value
or_null v = if truthy v then v else null

abbrev pub requested_port : Option AttachRequest → Option ℕ
requested_port none = none
requested_port (some r) = r.port

abbrev requested_origins : Option AttachRequest → Option String
requested_origins none = none
requested_origins (some r) = r.allowed_origins

abbrev or_default_origin : Option String → String
or_default_origin none = allowed_origin
or_default_origin (some o) = o

-- The capability that lets a signing key call a cell's functions.
abbrev pub cap_grant : Value → Value → Value → Value
cap_grant functions secret signing_key =
    triple "tag" (str "zome-call-signing-key") "functions" functions "access" (
      pair "type" (str "assigned") "value"
        (pair "secret" secret "assignees" (arr (cons signing_key nil))))

-- `functions || { type: "all" }`
abbrev pub or_all : Value → Value
or_all v = if truthy v then v else obj (field "type" (str "all") end)

-- `assert(response.type === tag)`
abbrev pub expect : {W : Type 0} → AdminResponse → Value → Action W (Unit {0})
expect tag response = do
  type ← lift (read "type" response)
  require (is_str (admin_response_tag tag) type) failed

module _ {W : Type 0} (s : Services W) (id : String) where
  unfoldable pub call_admin_api : AdminRequest → Option Value → Action W Value
  call_admin_api type value = do
    response ← s.call (call_admin_interface id (record { type = type; value = value }))
    require (not (is_null response)) failed
    require (not (is_string response)) failed
    pure response

  -- The shape of most methods: a request, the expected type, and the response's value.
  unfoldable pub request_value : AdminRequest → Option Value → AdminResponse → Action W Value
  request_value type value tag = do
    response ← call_admin_api type value
    expect tag response
    pure (get "value" response)

  -- The same for a method that returns nothing.
  unfoldable pub request_nothing : AdminRequest → Option Value → AdminResponse → Action W (Unit {0})
  request_nothing type value tag = do response ← call_admin_api type value; expect tag response

  unfoldable pub register_dna : Value → Action W Value
  register_dna request =
      request_value AdminRequest.register_dna (some request) AdminResponse.dna_registered

  unfoldable pub get_dna_definition : Value → Action W Value
  get_dna_definition dna_hash =
      request_value AdminRequest.get_dna_definition (some dna_hash)
        AdminResponse.dna_definition_returned

  unfoldable pub get_compatible_cells : Value → Action W Value
  get_compatible_cells dna_hash =
      request_value AdminRequest.get_compatible_cells (some dna_hash) AdminResponse.compatible_cells

  unfoldable pub revoke_agent_key : Value → Action W Value
  revoke_agent_key request =
      request_value AdminRequest.revoke_agent_key (some request) AdminResponse.agent_key_revoked

  unfoldable pub install_app : Value → Action W Value
  install_app request =
      request_value AdminRequest.install_app (some request) AdminResponse.app_installed

  unfoldable pub enable_app : Value → Action W Value
  enable_app request =
      request_value AdminRequest.enable_app (some request) AdminResponse.app_enabled

  unfoldable pub disable_app : Value → Action W Value
  disable_app request =
      request_value AdminRequest.disable_app (some request) AdminResponse.app_disabled

  unfoldable pub start_app : Value → Action W Value
  start_app request = request_value AdminRequest.start_app (some request) AdminResponse.app_started

  unfoldable pub uninstall_app : Value → Action W Value
  uninstall_app request =
      request_value AdminRequest.uninstall_app (some request) AdminResponse.app_uninstalled

  unfoldable pub update_coordinators : Value → Action W Value
  update_coordinators request =
      request_value AdminRequest.update_coordinators (some request)
        AdminResponse.coordinators_updated

  unfoldable pub list_apps : Value → Action W Value
  list_apps request = request_value AdminRequest.list_apps (some request) AdminResponse.apps_listed

  unfoldable pub dump_full_state : Value → Action W Value
  dump_full_state request =
      request_value AdminRequest.dump_full_state (some request) AdminResponse.full_state_dumped

  unfoldable pub dump_network_stats : Value → Action W Value
  dump_network_stats request =
      request_value AdminRequest.dump_network_stats (some request)
        AdminResponse.network_stats_dumped

  unfoldable pub storage_info : Value → Action W Value
  storage_info request =
      request_value AdminRequest.storage_info (some request) AdminResponse.storage_info

  unfoldable pub issue_app_authentication_token : Value → Action W Value
  issue_app_authentication_token request =
      request_value AdminRequest.issue_app_authentication_token (some request)
        AdminResponse.app_authentication_token_issued

  unfoldable pub generate_agent_pub_key : Action W Value
  generate_agent_pub_key =
      request_value AdminRequest.generate_agent_pub_key none AdminResponse.agent_pub_key_generated

  unfoldable pub list_cell_ids : Action W Value
  list_cell_ids = request_value AdminRequest.list_cell_ids none AdminResponse.cell_ids_listed

  unfoldable pub list_dnas : Action W Value
  list_dnas = request_value AdminRequest.list_dnas none AdminResponse.dnas_listed

  unfoldable pub list_app_interfaces : Action W Value
  list_app_interfaces =
      request_value AdminRequest.list_app_interfaces none AdminResponse.app_interfaces_listed

  unfoldable pub grant_zome_call_capability : Value → Action W (Unit {0})
  grant_zome_call_capability request =
      request_nothing AdminRequest.grant_zome_call_capability (some request)
        AdminResponse.zome_call_capability_granted

  unfoldable pub add_agent_info : Value → Action W (Unit {0})
  add_agent_info request =
      request_nothing AdminRequest.add_agent_info (some request) AdminResponse.agent_info_added

  unfoldable pub delete_clone_cell : Value → Action W (Unit {0})
  delete_clone_cell request =
      request_nothing AdminRequest.delete_clone_cell (some request) AdminResponse.clone_cell_deleted

  unfoldable pub agent_info : Value → Action W Value
  agent_info cell_id =
      request_value AdminRequest.agent_info (some (obj (field "cell_id" (or_null cell_id) end)))
        AdminResponse.agent_info

  abbrev pub or_free_port : Option ℕ → Action W ℕ
  or_free_port (some p) = pure p
  or_free_port none = s.get_port 30000 40000

  -- The result is the port in the response.
  unfoldable pub attach_app_interface : Option AttachRequest → Action W Value
  attach_app_interface request = do
    port ← or_free_port (requested_port request)
    value ←
        request_value AdminRequest.attach_app_interface
          (some (
            pair "allowed_origins" (str (or_default_origin (requested_origins request))) "port"
              (num port)))
          AdminResponse.app_interface_attached
    lift (read "port" value)

  -- `JSON.parse(value.replace(…))`; what is no text has no `replace`.
  unfoldable pub parse_dump : Value → Result Value
  parse_dump (str text) = elim (s.parse_json (remove_escaped_newlines text)) [
    | none ↦ err codec_error
    | some v ↦ ok v
  ]
  parse_dump v = err type_error

  unfoldable pub dump_state : Value → Action W Value
  dump_state request = do
    response ← call_admin_api AdminRequest.dump_state (some request)
    require (has_key "value" response) failed
    expect AdminResponse.state_dumped response
    lift (parse_dump (get "value" response))

  unfoldable pub grant_signing_key : Value → Value → Value → Action W Value
  grant_signing_key cell_id functions signing_key = do
    secret ← s.random_cap_secret
    grant_zome_call_capability
        (pair "cell_id" cell_id "cap_grant" (cap_grant functions secret signing_key))
    pure secret

  unfoldable pub authorize_signing_credentials : Value → Value → Action W (Unit {0})
  authorize_signing_credentials cell_id functions = do
    keys ← s.generate_signing_key_pair
    secret ← grant_signing_key cell_id (or_all functions) keys.1
    modify (
        s.set_signing_credentials cell_id
          (triple "capSecret" secret "keyPair" keys.0 "signingKey" keys.1))
