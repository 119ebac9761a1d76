-- ===== src/Examples/Clients.antt =====
-- Two clients, each with a request in flight, and what their servers send.
use try_o_rama.Prelude.{◌≡◌, ◌≢◌, refl, List, [], ◌∷◌, some, true, false, ◌↔◌}
use try_o_rama.Prelude.Dict.{lookup, insert, erase}
use try_o_rama.Js.Value.{Value, nil, str, num, bin, pair, get, has_key, find_field, is_str}
use try_o_rama.Js.Exn.{ok}
use try_o_rama.Trycp.Protocol.{reset, success, failure, response_message, response_object}
use try_o_rama.Trycp.Codec.{Codec, is_response_wrapper, is_api_response}
use try_o_rama.Trycp.Client.{
  World, new_world, call, register, transmit, serialize_call, serialize_request,
  process_success_response, on_message,
}
use try_o_rama.Trycp.Client.Invariant.{
  IsConsistent, Event, calls, run, step, entry, run-new_world-IsConsistent,
}
use try_o_rama.Trycp.Client.Routing.{Settles, settled_as, response-Settles}
use try_o_rama.Trycp.Client.Orders.{Effect, on_message-Effect}
use try_o_rama.Trycp.Client.Responses.{IsLogged, process_success_response-ok_iff}
use try_o_rama.Examples.Codecs.{
  two_values, two_values-IsLossless, first_encoded, encode_only, always,
}

-- Two requests, of client 0 and of client 1.
abbrev pub two_calls : List Event
two_calls = calls 0 reset true ∷ calls 1 reset true ∷ []

abbrev pub waiting : World
waiting = run encode_only new_world two_calls

pub waiting-IsConsistent : IsConsistent waiting
waiting-IsConsistent = run-new_world-IsConsistent encode_only two_calls

run-new_world-IsConsistent_example : IsConsistent (run encode_only new_world (two_calls))
run-new_world-IsConsistent_example = run-new_world-IsConsistent encode_only two_calls

pub waiting_first : entry waiting 0 0 ≡ some 0
unfolding run step call register transmit new_world serialize_call serialize_request lookup insert
    erase
waiting_first = refl

pub waiting_second : entry waiting 1 1 ≡ some 1
unfolding run step call register transmit new_world serialize_call serialize_request lookup insert
    erase
waiting_second = refl

abbrev pub pong : Value
pong = response_message 0 (success (str "pong"))

abbrev pub refusal : Value
refusal = response_message 1 (failure (str "no"))

pub messages_differ : refusal ≢ pong
unfolding response_message
messages_differ = cc

abbrev pub both : Codec
both = two_values pong refusal

response-Settles_example :
    let (x, w') = on_message both 0 (0 ∷ []) waiting in
    (x ≡ ok tt) × Settles 0 0 0 (settled_as both (success (str "pong"))) waiting w'
response-Settles_example =
    response-Settles both (two_values-IsLossless pong refusal) 0 0 (0 ∷ []) waiting 0 waiting_first
      (success (str "pong")) waiting-IsConsistent (first_encoded pong refusal)

on_message-Effect_example : Effect 0 waiting (on_message both 0 (0 ∷ []) waiting).1
on_message-Effect_example = on_message-Effect both 0 waiting (0 ∷ [])

pong_is_response : is_response_wrapper pong ≡ true
unfolding is_response_wrapper response_message has_key find_field response_object
pong_is_response = refl

pong_type : get "type" pong ≡ str "response"
unfolding get response_message find_field
pong_type = refl

pong_id : get "id" pong ≡ num 0
unfolding get response_message find_field
pong_id = refl

-- A response with neither `Ok` nor `Err`.
-- An admin response.
abbrev listed : Value
listed = pair "type" (str "apps_listed") "value" (Value.arr nil)

process_success_response-ok_iff_example :
    (process_success_response (always listed) (bin []) ≡ ok listed) ↔ (
      (some listed ≡ some listed)
      × (is_api_response listed ≡ true)
      × (is_str "error" (get "type" listed) ≡ false)
      × IsLogged listed)
process_success_response-ok_iff_example = process_success_response-ok_iff (always listed) [] listed
