-- ===== src/Trycp/Protocol.antt =====
-- The messages of the TryCP protocol (ts/src/trycp/types.ts): requests, what they wrap for the
-- admin and app interfaces, and the tags of responses. A payload whose type comes from
-- `@holochain/client` is a JavaScript value.
pub mod Tags
pub mod Responses
use try_o_rama.Prelude.{ℕ, String, Option, none, some}
use try_o_rama.Js.Value.{
  Value, Bytes, str, num, bin, obj, field, end, pair, triple, optional_str, undefined,
}
use Tags.{AdminRequest, AppRequest, LogLevel, admin_request_tag, app_request_tag, log_level_tag}

-- `RequestAdminInterfaceMessage`
pub record AdminMessage : Type 0 where
  pub type : AdminRequest
  pub value : Option Value

-- `RequestCallAppInterfaceMessage`
pub record AppMessage : Type 0 where
  pub type : AppRequest
  pub value : Option Value

-- `TryCpRequest`. The conductor leaves the optional signal of a shutdown out.
pub data TryCpRequest : Type 0 where
  download_dna : String → TryCpRequest
  save_dna : String → Bytes → TryCpRequest
  configure_player : String → String → TryCpRequest
  startup : String → Option LogLevel → TryCpRequest
  shutdown : String → Option String → TryCpRequest
  reset : TryCpRequest
  connect_app_interface : Value → ℕ → TryCpRequest
  disconnect_app_interface : ℕ → TryCpRequest
  call_app_interface : ℕ → AppMessage → TryCpRequest
  -- `RequestCallAppInterfaceEncoded`: a message that its maker has encoded
  call_app_interface_encoded : ℕ → Bytes → TryCpRequest
  call_admin_interface : String → AdminMessage → TryCpRequest
  download_logs : String → TryCpRequest

-- The objects that the messages are.
unfoldable pub tagged : String → Option Value → Value
tagged t none = obj (field "type" (str t) end)
tagged t (some v) = pair "type" (str t) "value" v

unfoldable pub admin_message : AdminMessage → Value
unfolding tagged
admin_message m = tagged (admin_request_tag m.type) m.value

unfoldable pub app_message : AppMessage → Value
unfolding tagged
app_message m = tagged (app_request_tag m.type) m.value

abbrev log_level_value : Option LogLevel → Value
log_level_value none = undefined
log_level_value (some l) = str (log_level_tag l)

-- The object that a request is, before any part of it is encoded.
unfoldable pub request_object : TryCpRequest → Value
unfolding admin_message app_message
request_object (download_dna url) = pair "type" (str "download_dna") "url" (str url)
request_object (save_dna id content) =
    triple "type" (str "save_dna") "id" (str id) "content" (bin content)
request_object (configure_player id config) =
    triple "type" (str "configure_player") "id" (str id) "partial_config" (str config)
request_object (startup id level) =
    triple "type" (str "startup") "id" (str id) "log_level" (log_level_value level)
request_object (shutdown id signal) =
    triple "type" (str "shutdown") "id" (str id) "signal" (optional_str signal)
request_object reset = obj (field "type" (str "reset") end)
request_object (connect_app_interface token port) =
    triple "type" (str "connect_app_interface") "token" token "port" (num port)
request_object (disconnect_app_interface port) =
    pair "type" (str "disconnect_app_interface") "port" (num port)
request_object (call_app_interface port message) =
    triple "type" (str "call_app_interface") "port" (num port) "message" (app_message message)
request_object (call_app_interface_encoded port message) =
    triple "type" (str "call_app_interface") "port" (num port) "message" (bin message)
request_object (call_admin_interface id message) =
    triple "type" (str "call_admin_interface") "id" (str id) "message" (admin_message message)
request_object (download_logs id) = pair "type" (str "download_logs") "id" (str id)

-- `_TryCpCall`
unfoldable pub call_object : ℕ → Value → Value
call_object id request = pair "id" (num id) "request" request

-- `_TryCpResponse`
pub data TryCpResponse : Type 0 where
  success failure : Value → TryCpResponse

unfoldable pub response_object : TryCpResponse → Value
response_object (success v) = obj (field "Ok" v end)
response_object (failure v) = obj (field "Err" v end)

-- `_TryCpResponseWrapper`
unfoldable pub response_message : ℕ → TryCpResponse → Value
unfolding response_object
response_message id r = triple "type" (str "response") "id" (num id) "response" (response_object r)

unfoldable pub signal_message : ℕ → Bytes → Value
signal_message port payload = triple "type" (str "signal") "port" (num port) "data" (bin payload)
