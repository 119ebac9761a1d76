-- ===== src/Trycp/Conductor/Refinement/AppMethods.antt =====
-- The methods of an app websocket over two sets of services that behave alike.
use try_o_rama.Prelude.{ℕ, String, Option, none, some, ◌≡◌, ap}
use try_o_rama.Js.Value.{Value, undefined}
use try_o_rama.Js.Refines.{Refines, runs, pure-Refines, throw-Refines}
use try_o_rama.Trycp.Codec.{deserialize_zome_response_payload}
use try_o_rama.Trycp.Protocol.Tags.{AppRequest, AppResponse}
use try_o_rama.Trycp.Services.{Services}
use try_o_rama.Trycp.Conductor.App.{
  call_app_api, request_value, ensure_credentials, checked_credentials, call_zome,
  provide_memproofs, enable_app, app_info, create_clone_cell, enable_clone_cell, disable_clone_cell,
  network_info,
}
use try_o_rama.Trycp.Conductor.Methods.{connect_app_ws}
use try_o_rama.Trycp.Conductor.Refinement.{ServicesRefine, AppRefines}
use try_o_rama.Trycp.Conductor.Refinement.AdminMethods.{authorize_signing_credentials-Refines}

module _ {V W : Type 0} {R : V → W → Type 0} {Failure : Type 0} {s : Services V} {t : Services W}
    (h : ServicesRefine R Failure s t) (id : String) (port : ℕ) where
  call_app_api-Refines :
      (type : AppRequest) (value : Option Value)
      → Refines R Failure (call_app_api s id port type value) (call_app_api t id port type value)
  unfolding call_app_api
  call_app_api-Refines type value = search (runs, h.call) depth 40

  request_value-Refines :
      (type : AppRequest) (value : Option Value) (tag : AppResponse)
      → Refines R Failure
          (request_value s id port type value tag)
          (request_value t id port type value tag)
  unfolding request_value
  request_value-Refines type value tag = search (runs, call_app_api-Refines) depth 40

  provide_memproofs-Refines :
      (v : Value)
      → Refines R Failure (provide_memproofs s id port v) (provide_memproofs t id port v)
  unfolding provide_memproofs
  provide_memproofs-Refines v = search (runs, call_app_api-Refines) depth 40

  enable_app-Refines : Refines R Failure (enable_app s id port) (enable_app t id port)
  unfolding enable_app
  enable_app-Refines = search (runs, call_app_api-Refines) depth 40

  ensure_credentials-Refines :
      (cell : Value) (c : Option Value)
      → Refines R Failure
          (ensure_credentials s id port cell c)
          (ensure_credentials t id port cell c)
  unfolding ensure_credentials
  ensure_credentials-Refines cell none = authorize_signing_credentials-Refines h id cell undefined
  ensure_credentials-Refines cell (some c) = pure-Refines tt

  checked_credentials-Refines :
      (cell : Value) (c : Option Value)
      → Refines R Failure (checked_credentials cell c) (checked_credentials cell c)
  unfolding checked_credentials
  checked_credentials-Refines cell none = throw-Refines _
  checked_credentials-Refines cell (some c) = pure-Refines tt

  payload-eq :
      (v : Value)
      → deserialize_zome_response_payload s.codec v ≡ deserialize_zome_response_payload t.codec v
  payload-eq v = ap (λ c. deserialize_zome_response_payload c v) h.codec

  call_zome-Refines :
      (v : Value) → Refines R Failure (call_zome s id port v) (call_zome t id port v)
  unfolding call_zome
  call_zome-Refines v =
      search
        (
          runs, h.signing_credentials, ensure_credentials-Refines, checked_credentials-Refines,
          h.sign_zome_call, call_app_api-Refines, payload-eq,
        )
        depth 60

  pub connect_app_ws-Refines :
      (token : Value)
      → AppRefines R Failure (connect_app_ws s id token port) (connect_app_ws t id token port)
  unfolding connect_app_ws app_info create_clone_cell enable_clone_cell disable_clone_cell
      network_info
  connect_app_ws-Refines token = record {
    app_info = request_value-Refines _ _ _;
    call_zome = call_zome-Refines;
    enable_app = enable_app-Refines;
    create_clone_cell = λ a. request_value-Refines _ _ _;
    enable_clone_cell = λ a. request_value-Refines _ _ _;
    disable_clone_cell = λ a. request_value-Refines _ _ _;
    network_info = λ a. request_value-Refines _ _ _;
    provide_memproofs = provide_memproofs-Refines;
  }
