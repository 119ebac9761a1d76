-- ===== src/Examples/Runs.antt =====
-- Runs of the clients with promises that settle, and the frame of a call.
use mathlib.Core.List.{Permᴰ}
use try_o_rama.Prelude.{◌≡◌, [], ◌∷◌, some, get_elem?, ◌<◌, arith, map, inl, refl}
use try_o_rama.Js.Value.{Value, str}
use try_o_rama.Js.Exn.{ok, refused}
use try_o_rama.Trycp.Protocol.{reset, success, failure, call_object, request_object}
use try_o_rama.Trycp.Client.{
  World, Promise, rejected, new_world, call, register, transmit, serialize_call, serialize_request,
}
use try_o_rama.Trycp.Client.Invariant.{receives, run, step}
use try_o_rama.Trycp.Client.Routing.{settled_as, response-Settles}
use try_o_rama.Trycp.Client.Settling.{IsSettled}
use try_o_rama.Trycp.Client.Answering.{answered_settles}
use try_o_rama.Trycp.Client.Permuting.{Answer, received, responses_permute}
use try_o_rama.Examples.Codecs.{two_values, two_values-IsLossless, first_encoded, second_encoded}
use try_o_rama.Examples.Clients.{
  waiting, waiting-IsConsistent, waiting_first, waiting_second, both, pong, refusal,
  messages_differ,
}

-- The second request of `waiting` has been refused.
abbrev answered : World
answered = run both waiting (receives 1 (1 ∷ []) ∷ [])

abbrev refused_promise : Promise
refused_promise = rejected (refused (str "no"))

answered-settled : get_elem? answered.promises 1 ≡ some refused_promise
unfolding run step settled_as
answered-settled =
    (response-Settles both (two_values-IsLossless pong refusal) 1 1 (1 ∷ []) waiting 1
      waiting_second (failure (str "no")) waiting-IsConsistent
      (second_encoded pong refusal messages_differ)).1.settled

waiting_counted : 0 < waiting.request_id
unfolding run step call register transmit new_world serialize_call serialize_request
waiting_counted = omega arith

answered_settles_example :
    IsSettled (run both waiting (receives 1 (1 ∷ []) ∷ receives 0 (0 ∷ []) ∷ [])).promises 0
answered_settles_example =
    answered_settles both waiting (receives 1 (1 ∷ []) ∷ []) [] 0 0 0 (0 ∷ [])
      (success (str "pong")) (two_values-IsLossless pong refusal) (first_encoded pong refusal)
      waiting-IsConsistent (record { registered = waiting_first; counted = waiting_counted })

-- The call of a `reset` as a value, and its frame.
abbrev reset_call : Value
reset_call = call_object 3 (request_object reset)

reset_serialized : serialize_call (two_values reset_call refusal) 3 reset ≡ ok (0 ∷ [])
unfolding serialize_call serialize_request
reset_serialized = ground (arith, first_encoded reset_call refusal)

-- The responses to the two requests of `waiting`.
abbrev first_answer : Answer
first_answer = record {
  client = 0;
  id = 0;
  promise = 0;
  frame = 0 ∷ [];
  response = success (str "pong");
}

abbrev second_answer : Answer
second_answer = record {
  client = 1;
  id = 1;
  promise = 1;
  frame = 1 ∷ [];
  response = failure (str "no");
}

responses_permute_example :
    run both waiting (map received (first_answer ∷ second_answer ∷ []))
    ≡ run both waiting (map received (second_answer ∷ first_answer ∷ []))
responses_permute_example =
    responses_permute both (two_values-IsLossless pong refusal) waiting
      (first_answer ∷ second_answer ∷ []) (second_answer ∷ first_answer ∷ []) waiting-IsConsistent
      (
        record { registered = waiting_first; encoded = first_encoded pong refusal },
        (
          record {
            registered = waiting_second;
            encoded = second_encoded pong refusal messages_differ;
          },
          tt,
        ),
      )
      ((inl (λ e. cc), tt), (tt, tt)) (Permᴰ.swap refl refl)
