-- ===== src/Trycp/Services.antt =====
-- What a TryCP conductor uses and does not implement: its client's `call` and `close`, random
-- identifiers, free ports, the signing of zome calls in `@holochain/client`, and JSON.
use try_o_rama.Prelude.{ℕ, String, Option}
use try_o_rama.Js.Value.{Value}
use try_o_rama.Js.Action.{Action}
use try_o_rama.Trycp.Codec.{Codec}
use try_o_rama.Trycp.Protocol.{TryCpRequest}

pub record Services (W : Type 0) : Type 0 where
  pub call : TryCpRequest → Action W Value
  pub close : Action W ℕ
  pub set_signal_handler : ℕ → Option ℕ → W → W
  pub unset_signal_handler : ℕ → W → W
  pub bootstrap_server_url : W → Option String
  pub signaling_server_url : W → Option String
  -- `uuidv4`
  pub uuid : Action W String
  -- `getPort({ port: portNumbers(from, to) })`
  pub get_port : ℕ → ℕ → Action W ℕ
  pub signing_credentials : Value → W → Option Value
  pub set_signing_credentials : Value → Value → W → W
  -- the key pair and the signing key
  pub generate_signing_key_pair : Action W (Value × Value)
  pub random_cap_secret : Action W Value
  pub sign_zome_call : Value → Action W Value
  pub codec : Codec
  -- `JSON.parse`
  pub parse_json : String → Option Value
