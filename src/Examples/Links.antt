-- ===== src/Examples/Links.antt =====
-- A conductor on a client, a wire that carries every value, and a server that counts its requests.
use try_o_rama.Prelude.{ℕ, suc, ◌+◌, true, ◌≡◌, refl, get_elem?, arith, List, [], ◌∷◌, none, some}
use try_o_rama.Js.Value.{Bytes, arr, nil, null, bin, obj, str, pair, field, end}
use try_o_rama.Js.Exn.{ok}
use try_o_rama.Js.Action.{Action, pure}
use try_o_rama.Trycp.Protocol.{
  TryCpRequest, TryCpResponse, success, failure, download_dna, call_admin_interface, reset,
}
use try_o_rama.Trycp.Services.{Services}
use try_o_rama.Trycp.Client.{
  World, new_world, resolved, set_signal_handler, on_message, process_success_response,
}
use try_o_rama.Trycp.Client.Invariant.{Event, sets_handler, run, step}
use try_o_rama.Trycp.Linked.{Handler}
use try_o_rama.Trycp.Linked.Calls.{IsQuiet}
use try_o_rama.Trycp.Protocol.{signal_message}
use try_o_rama.Trycp.Protocol.Tags.{AdminResponse}
use try_o_rama.Trycp.Protocol.Responses.{
  TryCpSuccessResponse, api, admin, api_response_object, serialized_response,
}
use try_o_rama.Trycp.Client.Typed.{received, process_success_response-received}
use try_o_rama.Trycp.Client.Signals.{
  AppSignal, app_signal_object, raw_signal_object, handler_at, called_with, on_message-signal,
}
use try_o_rama.Trycp.Client.Ping.{no_pings, ping_all, on_pong, on_pong-resolves_all}
use try_o_rama.Trycp.Scenario.{Surroundings, opened}
use try_o_rama.Dht.{Library, ConductorCell}
use try_o_rama.Examples.Postfix.{emit, postfix, postfix-IsLossless}

abbrev answer_to : TryCpRequest → TryCpResponse
answer_to (download_dna url) = success (str "./entry.dna")
answer_to (call_admin_interface id m) =
    success (bin (emit (pair "type" (str "app_enabled") "value" null) []))
answer_to reset = failure (str "not now")
answer_to request = success null

abbrev counts : Handler ℕ
counts request n = (answer_to request, suc n)

abbrev services : Services ℕ
services = record {
  call = λ request. pure null;
  close = pure 1000;
  set_signal_handler = λ port h n. n;
  unset_signal_handler = λ port n. n;
  bootstrap_server_url = λ n. none;
  signaling_server_url = λ n. some "ws://signal";
  uuid = λ n. pure "1" (suc n);
  get_port = λ from to. pure from;
  signing_credentials = λ cell n. none;
  set_signing_credentials = λ cell v n. n;
  generate_signing_key_pair = pure (str "pair", str "key");
  random_cap_secret = pure (str "secret");
  sign_zome_call = λ request. pure (obj (field "signed" request end));
  codec = postfix;
  parse_json = λ text. none;
}

-- Between a call and its reply the client gets a handler for signals.
abbrev busy : World → List Event
busy w = sets_handler 0 1 (some 2) ∷ []

busy-IsQuiet : IsQuiet postfix 0 busy
unfolding run step set_signal_handler
busy-IsQuiet w id p h = h

abbrev app_enabled : TryCpSuccessResponse
app_enabled = api (admin AdminResponse.app_enabled (some (pair "app" (str "a") "errors" (arr nil))))

app_enabled-serialized :
    serialized_response postfix app_enabled
    ≡ some (
        bin (
          emit
            (api_response_object
              (admin AdminResponse.app_enabled (some (pair "app" (str "a") "errors" (arr nil)))))
            []))
unfolding serialized_response
app_enabled-serialized = refl

process_success_response-received_example :
    process_success_response postfix (
      bin (
        emit
          (api_response_object
            (admin AdminResponse.app_enabled (some (pair "app" (str "a") "errors" (arr nil)))))
          []))
    ≡ received app_enabled
process_success_response-received_example =
    process_success_response-received postfix postfix-IsLossless app_enabled _
      app_enabled-serialized refl

abbrev greeting : AppSignal
greeting = record { cell_id = str "cell"; zome_name = str "zome"; payload = str "hello" }

abbrev payload : Bytes
payload = emit (str "hello") []

abbrev raw : Bytes
raw = emit (raw_signal_object greeting payload) []

-- A client with a handler for port 30000.
abbrev listening : World
listening = set_signal_handler 0 30000 (some 3) new_world

on_message-signal_example :
    on_message postfix 0 (emit (signal_message 30000 raw) []) listening
    ≡ (ok tt, called_with 0 (handler_at listening 0 30000) (app_signal_object greeting) listening)
on_message-signal_example =
    on_message-signal postfix postfix-IsLossless greeting payload raw
      (emit (signal_message 30000 raw) []) 0 30000 listening refl refl refl

on_pong-resolves_all_example :
    (get_elem? (on_pong (7 ∷ []) (ping_all (str "a" ∷ str "b" ∷ []) no_pings)).promises 1
      ≡ some (resolved (bin (7 ∷ []))))
    × ((on_pong (7 ∷ []) (ping_all (str "a" ∷ str "b" ∷ []) no_pings)).listeners ≡ [])
on_pong-resolves_all_example =
    on_pong-resolves_all (str "a" ∷ str "b" ∷ []) (7 ∷ []) 1 (omega arith)

-- Sockets are numbered by what the servers have counted, and all open.
abbrev sockets : Surroundings ℕ
sockets = record {
  open_socket = λ url timeout n. (ok (n, opened ∷ []), suc n);
  close_socket = λ ws code. pure code;
  services = λ ws. services;
  kill = λ pid. pure (some 0);
  as_app_info = λ v. record { installed_app_id = "app"; agent_pub_key = v; cell_info = [] };
  as_port = λ v. 30000;
}

abbrev busy_at : ℕ → World → List Event
busy_at c w = sets_handler c 1 (some 2) ∷ []

busy_at-IsQuiet : (c : ℕ) → IsQuiet postfix c (busy_at c)
unfolding run step set_signal_handler
busy_at-IsQuiet c w id p h = ground (arith, h)

abbrev library : Library
library = record {
  sort_by = λ keys ops. ops;
  is_equal = λ xs ys. true;
  encode_hash_to_base64 = λ b. "";
  to_base64 = λ b. "";
}

-- Two conductors, each on a client of its own.
abbrev cells : List ConductorCell
cells =
    (record { conductor = 0; dna_hash = record { ref = 1; bytes = [] }; agent_pub_key = [] })
    ∷ (record { conductor = 1; dna_hash = record { ref = 1; bytes = [] }; agent_pub_key = [] })
    ∷ []

abbrev wait : ℕ → Action ℕ (Unit {0})
wait ms n = (ok tt, n + ms)
