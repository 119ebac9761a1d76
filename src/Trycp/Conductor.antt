-- ===== src/Trycp/Conductor.antt =====
-- `TryCpConductor` of ts/src/trycp/conductor/conductor.ts: each method is one request to the TryCP
-- server, with the checks of its response. A conductor is its id.
pub mod Config
pub mod ConfigShape
pub mod Admin
pub mod App
pub mod Install
pub mod Pairing
pub mod Signing
pub mod Methods
pub mod Refinement
use Prim.Native.String.{String}
use try_o_rama.Prelude.{ℕ, Bool, true, false, not, Option, none, some, ◌==◌}
use try_o_rama.Js.Text.{◌++◌}
use try_o_rama.Js.Value.{Value, Bytes, null, is_null, is_str, is_string, is_object, has_key, get}
use try_o_rama.Js.Exn.{Exn, assertion_error, read}
use try_o_rama.Js.Action.{Action, pure, ◌>>=◌, ◌>>◌, lift, gets, modify, require}
use try_o_rama.Trycp.Protocol.{TryCpRequest, configure_player, startup, shutdown}
use try_o_rama.Trycp.Protocol.Tags.{LogLevel}
use try_o_rama.Trycp.Services.{Services}
use Config.{get_partial_config}

-- `TryCpConductorOptions`
pub record TryCpConductorOptions : Type 0 where
  pub id : Option String
  pub partial_config : Option String
  pub startup : Option Bool
  pub log_level : Option LogLevel

abbrev pub failed : Exn
failed = assertion_error ""

-- A text that is neither absent nor empty.
abbrev pub given : Option String → Option String
given none = none
given (some String.[]) = none
given (some (String.◌∷◌ c s)) = some (String.◌∷◌ c s)

-- `options?.startup !== false`
abbrev pub starts : Option Bool → Bool
starts (some false) = false
starts (some true) = true
starts none = true

-- `TryCpConductor.defaultPartialConfig`
unfoldable pub default_partial_config : String
default_partial_config = get_partial_config true "deepkey-test" none none

module _ {W : Type 0} (s : Services W) where
  -- A call whose response must be `null`.
  abbrev pub call_for_success : TryCpRequest → Action W Value
  call_for_success request = do
    response ← s.call request
    require (is_null response) failed
    pure response

  -- A call whose response must be a text.
  abbrev pub call_for_text : TryCpRequest → Action W Value
  call_for_text request = do
    response ← s.call request
    require (is_string response) failed
    pure response

  -- The configuration that a conductor is given; an empty one counts as none.
  abbrev pub chosen_config : Option String → Bool → String → W → String
  chosen_config (some c) no_dpki seed w = c
  chosen_config none no_dpki seed w =
      get_partial_config no_dpki seed (s.bootstrap_server_url w) (s.signaling_server_url w)

  unfoldable pub configure : String → Option String → Bool → String → Action W Value
  configure id partial_config no_dpki seed = do
    config ← gets (chosen_config (given partial_config) no_dpki seed)
    call_for_success (configure_player id config)

  unfoldable pub start_up : String → Option LogLevel → Action W Value
  start_up id level = call_for_success (startup id level)

  unfoldable pub shut_down : String → Action W Value
  shut_down id = call_for_success (shutdown id none)

  unfoldable pub disconnect_client : Action W ℕ
  disconnect_client = do response ← s.close; require (response == 1000) failed; pure response

  unfoldable pub download_dna : String → Action W Value
  download_dna url = call_for_text (TryCpRequest.download_dna url)

  unfoldable pub save_dna : Bytes → Action W Value
  save_dna content = call_for_text (TryCpRequest.save_dna "./entry.dna" content)

  unfoldable pub connect_app_interface : Value → ℕ → Action W Value
  connect_app_interface token port =
      call_for_success (TryCpRequest.connect_app_interface token port)

  unfoldable pub disconnect_app_interface : ℕ → Action W Value
  disconnect_app_interface port = call_for_success (TryCpRequest.disconnect_app_interface port)

  unfoldable pub download_logs : String → Action W Value
  download_logs id = do
    response ← s.call (TryCpRequest.download_logs id)
    require (not (is_null response)) failed
    require (is_object response) failed
    require (has_key "type" response) failed
    require (is_str "download_logs" (get "type" response)) failed
    pure (get "data" response)

  unfoldable pub on : ℕ → Option ℕ → Action W (Unit {0})
  on port handler = modify (s.set_signal_handler port handler)

  unfoldable pub off : ℕ → Action W (Unit {0})
  off port = modify (s.unset_signal_handler port)

  -- `id || `conductor-${uuidv4()}``
  unfoldable pub new_id : Option String → Action W String
  new_id none = do u ← s.uuid; pure ("conductor-" ++ u)
  new_id (some id) = pure id

  -- The conductor is configured and started, unless the options say otherwise.
  abbrev pub started : TryCpConductorOptions → String → Bool → Action W (Unit {0})
  started options id false = pure tt
  started options id true = do
    configure id options.partial_config true "deepkey-test"
    start_up id options.log_level
    pure tt

  -- `createTryCpConductor`
  unfoldable pub create_try_cp_conductor : TryCpConductorOptions → Action W String
  create_try_cp_conductor options = do
    id ← new_id (given options.id)
    started options id (starts options.startup)
    pure id
