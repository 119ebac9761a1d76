-- ===== src/Examples/Conductors.antt =====
-- A TryCP conductor whose server answers every call alike.
use try_o_rama.Prelude.{◌≡◌, refl, [], ◌∷◌, Option, none, some, true, All}
use try_o_rama.Js.Value.{
  Value, str, obj, bin, pair, field, end, undefined, get, find_field, is_str, truthy, has_key,
}
use try_o_rama.Js.Text.{◌++◌}
use try_o_rama.Js.Exn.{ok}
use try_o_rama.Js.Action.{pure}
use try_o_rama.Trycp.Services.{Services}
use try_o_rama.Trycp.Codec.{deserialize_zome_response_payload}
use try_o_rama.Trycp.Conductor.App.{
  call_app_api, ensure_credentials, checked_credentials, call_zome,
}
use try_o_rama.Trycp.Conductor.Config.{
  dpki_config, get_partial_config, config_head, config_network, config_transport,
}
use try_o_rama.Trycp.Conductor.ConfigShape.{lacks, get_partial_config_shape}
use try_o_rama.Trycp.Conductor.Pairing.{
  Conforms, Method, value_methods, nothing_methods, methods_Conform,
}
use try_o_rama.Trycp.Conductor.Signing.{Signed, call_zome_Signed}
use try_o_rama.Examples.Codecs.{always}

abbrev granted : Value
granted = pair "type" (str "zome_call_capability_granted") "value" (bin (1 ∷ []))

-- The state is the one store of credentials, which `store` writes.
abbrev services : (Value → Option Value → Option Value) → Services (Option Value)
services store = record {
  call = λ request. pure granted;
  close = pure 1000;
  set_signal_handler = λ port h w. w;
  unset_signal_handler = λ port w. w;
  bootstrap_server_url = λ w. none;
  signaling_server_url = λ w. none;
  uuid = pure "1";
  get_port = λ from to. pure from;
  signing_credentials = λ cell w. w;
  set_signing_credentials = λ cell v w. store v w;
  generate_signing_key_pair = pure (str "pair", str "key");
  random_cap_secret = pure (str "secret");
  sign_zome_call = λ request. pure (obj (field "signed" request end));
  codec = always (str "hello");
  parse_json = λ text. none;
}

abbrev keeps : Services (Option Value)
keeps = services (λ v w. some v)

abbrev zome_call : Value
zome_call = pair "cell_id" (str "cell") "fn_name" (str "create")

methods_Conform_example :
    All
      (λ (m : Method keeps "c" Value). Conforms keeps "c" (get "value") m.type m.value m.run)
      (value_methods keeps "c" undefined)
    × All
        (λ (m : Method keeps "c" (Unit {0})). Conforms keeps "c" (λ _. tt) m.type m.value m.run)
        (nothing_methods keeps "c" undefined)
methods_Conform_example = methods_Conform keeps "c" undefined

called : call_zome keeps "c" 30000 zome_call (some undefined) ≡ (ok (str "hello"), some undefined)
unfolding call_zome ensure_credentials checked_credentials call_app_api get find_field is_str
    has_key truthy deserialize_zome_response_payload
called = refl

call_zome_Signed_example :
    Signed keeps "c" 30000 zome_call (some undefined) (some undefined) (str "hello")
call_zome_Signed_example =
    call_zome_Signed keeps "c" 30000 zome_call (some undefined) (some undefined) (str "hello")
      called

get_partial_config_shape_example :
    get_partial_config true "" (some "https://b") (some "wss://s")
    ≡ config_head
      ++ (dpki_config true ""
          ++ (config_network ++ ("https://b" ++ (config_transport ++ "wss://s"))))
unfolding lacks dpki_config
get_partial_config_shape_example =
    get_partial_config_shape true "" "https://b" "wss://s" refl refl refl refl
