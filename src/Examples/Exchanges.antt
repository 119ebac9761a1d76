-- ===== src/Examples/Exchanges.antt =====
-- A call of a fresh client and the reply of a server that answers every request alike.
use try_o_rama.Prelude.{◌≡◌, ◌≢◌, refl, [], ◌∷◌, some, true, arith}
use try_o_rama.Prelude.Dict.{lookup, insert, erase}
use try_o_rama.Js.Value.{Value, str, get, find_field}
use try_o_rama.Js.Exn.{ok}
use try_o_rama.Trycp.Protocol.{
  TryCpRequest, TryCpResponse, reset, success, call_object, request_object, response_message,
}
use try_o_rama.Trycp.Codec.{Codec}
use try_o_rama.Trycp.Client.{
  World, new_world, call, register, transmit, serialize_call, serialize_request,
}
use try_o_rama.Trycp.Client.Invariant.{entry, run}
use try_o_rama.Trycp.Client.Reader.{read_call, read_request}
use try_o_rama.Trycp.Client.Exchange.{serve}
use try_o_rama.Examples.Codecs.{two_values, first_encoded, second_encoded}

abbrev reset_call : Value
reset_call = call_object 0 (request_object reset)

abbrev pong : Value
pong = response_message 0 (success (str "pong"))

abbrev link : Codec
link = two_values reset_call pong

abbrev answers_pong : TryCpRequest → TryCpResponse
answers_pong request = success (str "pong")

abbrev asked : World
asked = transmit 0 (0 ∷ []) (register 0 new_world)

serialized : serialize_call link 0 reset ≡ ok (0 ∷ [])
unfolding serialize_call serialize_request
serialized = ground (arith, first_encoded reset_call pong)

asked-call : call link 0 reset true new_world ≡ (ok 0, asked)
unfolding call new_world
asked-call = ground (arith, serialized)

asked-sent : (asked.client 0).sent ≡ (0 ∷ []) ∷ (new_world.client 0).sent
unfolding transmit register new_world
asked-sent = refl

pong-ne-call : pong ≢ reset_call
unfolding response_message call_object
pong-ne-call = cc

served : serve link answers_pong (0 ∷ []) ≡ some (1 ∷ [])
unfolding serve read_call read_request call_object request_object get find_field
served = second_encoded reset_call pong pong-ne-call

still_waiting : entry (run link asked []) 0 new_world.request_id ≡ some 0
unfolding run transmit register new_world lookup insert erase
still_waiting = refl
