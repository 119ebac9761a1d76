-- ===== src/Trycp/Conductor/App.antt =====
-- `connectAppWs` of a TryCP conductor: the methods of an app websocket on a port, each one request
-- to the app interface through the server.
use try_o_rama.Prelude.{ℕ, String, not, Option, none, some}
use try_o_rama.Js.Value.{Value, undefined, get, is_null, is_str, is_string, truthy}
use try_o_rama.Js.Exn.{no_credentials, read, in_object}
use try_o_rama.Js.Action.{Action, pure, throw, ◌>>=◌, ◌>>◌, lift, gets, require}
use try_o_rama.Trycp.Protocol.{call_app_interface}
use try_o_rama.Trycp.Protocol.Tags.{AppRequest, AppResponse, app_response_tag}
use try_o_rama.Trycp.Codec.{deserialize_zome_response_payload}
use try_o_rama.Trycp.Services.{Services}
use try_o_rama.Trycp.Conductor.{failed}
use try_o_rama.Trycp.Conductor.Admin.{authorize_signing_credentials}

-- `assert(response.type === tag)`
abbrev pub expect : {W : Type 0} → AppResponse → Value → Action W (Unit {0})
expect tag response = do
  type ← lift (read "type" response)
  require (is_str (app_response_tag tag) type) failed

-- A call without credentials for its cell is refused.
unfoldable pub checked_credentials : {W : Type 0} → Value → Option Value → Action W (Unit {0})
checked_credentials cell_id none = throw (no_credentials cell_id)
checked_credentials cell_id (some c) = pure tt

module _ {W : Type 0} (s : Services W) (id : String) (port : ℕ) where
  unfoldable pub call_app_api : AppRequest → Option Value → Action W Value
  call_app_api type value = do
    response ← s.call (call_app_interface port (record { type = type; value = value }))
    require (not (is_null response)) failed
    require (not (is_string response)) failed
    pure response

  unfoldable pub request_value : AppRequest → Option Value → AppResponse → Action W Value
  request_value type value tag = do
    response ← call_app_api type value
    expect tag response
    pure (get "value" response)

  unfoldable pub app_info : Action W Value
  app_info = request_value AppRequest.app_info none AppResponse.app_info

  unfoldable pub provide_memproofs : Value → Action W (Unit {0})
  provide_memproofs request = do
    response ← call_app_api AppRequest.provide_memproofs (some request)
    expect AppResponse.ok response

  unfoldable pub enable_app : Action W (Unit {0})
  enable_app = do response ← call_app_api AppRequest.enable_app none; expect AppResponse.ok response

  -- Credentials are authorized for a cell that has none, and then asked for once more.
  unfoldable pub ensure_credentials : Value → Option Value → Action W (Unit {0})
  ensure_credentials cell_id none = authorize_signing_credentials s id cell_id undefined
  ensure_credentials cell_id (some c) = pure tt

  unfoldable pub call_zome : Value → Action W Value
  call_zome request = do
    before ← gets (s.signing_credentials (get "cell_id" request))
    ensure_credentials (get "cell_id" request) before
    credentials ← gets (s.signing_credentials (get "cell_id" request))
    checked_credentials (get "cell_id" request) credentials
    signed ← s.sign_zome_call request
    response ← call_app_api AppRequest.call_zome (some signed)
    present ← lift (in_object "value" response)
    require present failed
    require (truthy (get "value" response)) failed
    bytes ← lift (in_object "BYTES_PER_ELEMENT" (get "value" response))
    require bytes failed
    lift (deserialize_zome_response_payload s.codec (get "value" response))

  unfoldable pub create_clone_cell : Value → Action W Value
  create_clone_cell request =
      request_value AppRequest.create_clone_cell (some request) AppResponse.clone_cell_created

  unfoldable pub enable_clone_cell : Value → Action W Value
  enable_clone_cell request =
      request_value AppRequest.enable_clone_cell (some request) AppResponse.clone_cell_enabled

  unfoldable pub disable_clone_cell : Value → Action W Value
  disable_clone_cell request =
      request_value AppRequest.disable_clone_cell (some request) AppResponse.clone_cell_disabled

  unfoldable pub network_info : Value → Action W Value
  network_info request =
      request_value AppRequest.network_info (some request) AppResponse.network_info
