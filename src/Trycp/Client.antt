-- ===== src/Trycp/Client.antt =====
-- ts/src/trycp/trycp-client.ts: the requests in flight of every client, and how a message from a
-- server settles them. `requestId` is a variable of the module, so all clients share it.
pub mod Invariant
pub mod Routing
pub mod Orders
pub mod Responses
pub mod Settling
pub mod Answering
pub mod Permuting
pub mod Reader
pub mod Frames
pub mod Exchange
pub mod Typed
pub mod Ping
pub mod Signals
use try_o_rama.Prelude.{
  ℕ, suc, ◌+◌, String, Bool, true, false, ◌&&◌, List, [], ◌∷◌, ◌++◌, Option, none, some, ◌==◌,
  if◌then◌else◌, length, not,
}
use try_o_rama.Prelude.Dict.{Dict, lookup, insert, erase}
use try_o_rama.Js.Value.{
  Value, Bytes, bin, num, obj, field, end, str, pair, triple, get, is_str, is_string, is_null,
  is_object, has_key, truthy,
}
use try_o_rama.Js.Exn.{
  Exn, Result, ok, err, error, api_error, type_error, send_error, refused, ◌>>=◌, ◌>>◌, read,
  in_object,
}
use try_o_rama.Trycp.Protocol.{
  TryCpRequest, call_app_interface, call_app_interface_encoded, call_admin_interface,
  request_object, app_message, admin_message, call_object,
}
use try_o_rama.Trycp.Codec.{
  Codec, encoded, deserialize_try_cp_response, deserialize_try_cp_signal, deserialize_api_response,
}

-- A promise that `call` returned.
pub data Promise : Type 0 where
  pending : Promise
  resolved : Value → Promise
  rejected : Exn → Promise

-- A promise is named by its position among all promises. A handler is named by a number, and is
-- absent where `setSignalHandler` was called without one.
pub record Client : Type 0 where
  pub request_promises : Dict ℕ
  pub signal_handlers : Dict (Option ℕ)
  -- the frames sent to the server, the last one first
  pub sent : List Bytes
  -- the handlers called, each with its signal, the last call first
  pub signals : List (ℕ × Value)

pub record World : Type 0 where
  pub request_id : ℕ
  pub promises : List Promise
  pub client : ℕ → Client

unfoldable pub new_client : Client
new_client = record { request_promises = []; signal_handlers = []; sent = []; signals = [] }

unfoldable pub new_world : World
unfolding new_client
new_world = record { request_id = 0; promises = []; client = λ _. new_client }

abbrev pub put : ℕ → Client → World → World
put c k w = record w { client = λ d. if c == d then k else w.client d }

-- A promise settles once: later calls of its callbacks do nothing.
unfoldable pub settle : ℕ → Promise → List Promise → List Promise
settle p s [] = []
settle ℕ.zero s (pending ∷ ps) = s ∷ ps
settle ℕ.zero s (p ∷ ps) = p ∷ ps
settle (ℕ.suc i) s (p ∷ ps) = p ∷ settle i s ps

-- The executor of the promise: it registers the callbacks under the next request id.
unfoldable pub register : ℕ → World → World
register c w =
    put c
      (record (w.client c) {
        request_promises = insert w.request_id (length w.promises) (w.client c).request_promises;
      })
      (record w { promises = w.promises ++ pending ∷ [] })

-- `this.ws.send` and `requestId++`
unfoldable pub transmit : ℕ → Bytes → World → World
transmit c frame w =
    put c (record (w.client c) { sent = frame ∷ (w.client c).sent })
      (record w { request_id = suc w.request_id })

-- `getFormattedResponseLog` throws where `in` is applied to what is no object.
unfoldable pub formatted_response_log : Value → Result (Unit {0})
formatted_response_log response =
    let value = get "value" response in
    if has_key "value" response && (truthy value && not (is_string value))
    then (in_object "BYTES_PER_ELEMENT" value >>= λ _. ok tt)
    else ok tt

unfoldable pub process_api_response : Value → Result Value
process_api_response response =
    if is_str "error" (get "type" response)
    then err (api_error (get "value" response))
    else (formatted_response_log response >> ok response)

abbrev pub outcome : Result Value → Promise
outcome (ok v) = resolved v
outcome (err e) = rejected e

-- A promise settled and its callbacks deleted.
unfoldable pub finish : ℕ → ℕ → ℕ → Promise → World → World
finish c id p s w =
    put c (record (w.client c) { request_promises = erase id (w.client c).request_promises })
      (record w { promises = settle p s w.promises })

-- The number that a property key is, if it is one.
abbrev pub key : Value → Option ℕ
key (num n) = some n
key v = none

abbrev pub lookup_key {ℓ} : {V : Type ℓ} → Option ℕ → Dict V → Option V
lookup_key none d = none
lookup_key (some k) d = lookup k d

-- The handler of a port, if there is one.
abbrev pub handler : Option (Option ℕ) → Option ℕ
handler none = none
handler (some h) = h

module _ (codec : Codec) where
  -- An admin or app request is encoded on its own before the call around it is, also where its
  -- message is bytes already.
  unfoldable pub serialize_request : TryCpRequest → Result Value
  serialize_request (call_admin_interface id message) = do
    b ← encoded codec (admin_message message)
    ok (triple "type" (str "call_admin_interface") "id" (str id) "message" (bin b))
  serialize_request (call_app_interface port message) = do
    b ← encoded codec (app_message message)
    ok (triple "type" (str "call_app_interface") "port" (num port) "message" (bin b))
  serialize_request (call_app_interface_encoded port message) = do
    b ← encoded codec (bin message)
    ok (triple "type" (str "call_app_interface") "port" (num port) "message" (bin b))
  serialize_request request = ok (request_object request)

  unfoldable pub serialize_call : ℕ → TryCpRequest → Result Bytes
  serialize_call id request = do r ← serialize_request request; encoded codec (call_object id r)

  -- `call` returns a promise, or throws what the encoder or `send` throws. Whether `send` throws
  -- is `connected`'s to say: it does while the socket is still connecting.
  unfoldable pub call : ℕ → TryCpRequest → Bool → World → Result ℕ × World
  call c request connected w = elim (serialize_call w.request_id request) [
    | err e ↦ (err e, register c w)
    | ok frame ↦
        if connected
        then (ok (length w.promises), transmit c frame (register c w))
        else (err send_error, register c w)
  ]

  unfoldable pub process_success_response : Value → Result Value
  process_success_response response =
      if is_null response
      then ok response
      else (if is_string response
          then ok response
          else (deserialize_api_response codec response >>= process_api_response))

  -- The inner response, `Ok` before `Err`; without both the listener throws.
  unfoldable pub answer : ℕ → ℕ → ℕ → Value → World → Result (Unit {0}) × World
  answer c id p response w =
      if is_object response
      then (if has_key "Ok" response
          then (ok tt, finish c id p (outcome (process_success_response (get "Ok" response))) w)
          else (if has_key "Err" response
              then (ok tt, finish c id p (rejected (refused (get "Err" response))) w)
              else (err (error "Unknown response type"), w)))
      else (err type_error, w)

  unfoldable pub on_response : ℕ → Value → World → Result (Unit {0}) × World
  on_response c wrapper w = elim (key (get "id" wrapper)) [
    | none ↦ (err type_error, w)
    | some id ↦ elim (lookup id (w.client c).request_promises) [
      | none ↦ (err type_error, w)
      | some p ↦ answer c id p (get "response" wrapper) w
    ]
  ]

  unfoldable pub on_signal : ℕ → Value → World → Result (Unit {0}) × World
  on_signal c wrapper w =
      elim (handler (lookup_key (key (get "port" wrapper)) (w.client c).signal_handlers)) [
        | none ↦ (ok tt, w)
        | some h ↦ elim (deserialize_try_cp_signal codec (get "data" wrapper)) [
          | err e ↦ (err e, w)
          | ok signal ↦ (
            ok tt,
            put c (record (w.client c) { signals = (h, signal) ∷ (w.client c).signals }) w,
          )
        ]
      ]

  unfoldable pub on_wrapper : ℕ → Value → World → Result (Unit {0}) × World
  on_wrapper c wrapper w =
      if is_str "signal" (get "type" wrapper)
      then on_signal c wrapper w
      else (if is_str "response" (get "type" wrapper) then on_response c wrapper w else (ok tt, w))

  -- The listener of the event "message".
  unfoldable pub on_message : ℕ → Bytes → World → Result (Unit {0}) × World
  on_message c frame w = elim (deserialize_try_cp_response codec frame) [
    | err e ↦ (err e, w)
    | ok wrapper ↦ on_wrapper c wrapper w
  ]

unfoldable pub set_signal_handler : ℕ → ℕ → Option ℕ → World → World
set_signal_handler c port h w =
    put c (record (w.client c) { signal_handlers = insert port h (w.client c).signal_handlers }) w

unfoldable pub unset_signal_handler : ℕ → ℕ → World → World
unset_signal_handler c port w =
    put c (record (w.client c) { signal_handlers = erase port (w.client c).signal_handlers }) w
