-- ===== src/Trycp/Client/Routing.antt =====
-- Which promise a call creates, and which one each message from the server settles.
use try_o_rama.Prelude.{
  ℕ, ◌+◌, ◌≡◌, ◌≢◌, refl, ap, subst₂, ◌⊎◌, inl, inr, Bool, true, false, ◌∷◌, none, some, arith,
  length, get_elem?, get_elem?-append_last,
}
use try_o_rama.Prelude.Dict.{lookup-insert, lookup-erase}
use try_o_rama.Js.Value.{Value, Bytes, get, has_key, is_str}
use try_o_rama.Js.Exn.{Exn, Result, Result-cases, ok, err, type_error, refused}
use try_o_rama.Trycp.Protocol.{TryCpRequest, TryCpResponse, success, failure, response_message}
use try_o_rama.Trycp.Codec.{Codec, IsLossless, deserialize_try_cp_response, is_response_wrapper}
use try_o_rama.Trycp.Client.{
  Promise, pending, rejected, World, register, transmit, call, finish, answer, on_response,
  on_wrapper, on_message, serialize_call, outcome, process_success_response,
}
use try_o_rama.Trycp.Client.Invariant.{IsConsistent, entry, get_elem?-settle, get_elem?-settle_ne}

-- What a call that returns has done.
pub record Called (codec : Codec) (c : ℕ) (request : TryCpRequest) (w : World) (p : ℕ) (w' : World)
    : Type 0 where
  pub fresh : p ≡ length w.promises
  pub waiting : get_elem? w'.promises p ≡ some pending
  pub registered : entry w' c w.request_id ≡ some p
  pub next_id : w'.request_id ≡ w.request_id + 1
  pub frame : Bytes
  pub serialized : serialize_call codec w.request_id request ≡ ok frame
  pub transmitted : (w'.client c).sent ≡ frame ∷ (w.client c).sent
  pub others : (d : ℕ) → d ≢ c → w'.client d ≡ w.client d

transmit-Called :
    (codec : Codec) (c : ℕ) (request : TryCpRequest) (w : World) (frame : Bytes)
    → serialize_call codec w.request_id request ≡ ok frame
    → Called codec c request w (length w.promises) (transmit c frame (register c w))
unfolding register transmit
transmit-Called codec c request w frame e = record {
  fresh = refl;
  waiting = get_elem?-append_last w.promises pending;
  registered = ground (
    arith,
    lookup-insert w.request_id w.request_id (length w.promises) (w.client c).request_promises,
  );
  next_id = omega arith;
  frame = frame;
  serialized = e;
  transmitted = ground arith;
  others = λ d ne. ground arith;
}

-- A call that returns has created one new pending promise, registered it under the next request
-- id, sent one frame that carries that id and the request, counted the id up, and left every other
-- client alone.
pub call_Called :
    (codec : Codec) (c : ℕ) (request : TryCpRequest) (connected : Bool) (w w' : World) (p : ℕ)
    → call codec c request connected w ≡ (ok p, w')
    → Called codec c request w p w'
unfolding call
call_Called codec c request true w w' p h =
    elim (Result-cases (serialize_call codec w.request_id request)) [
      | inl (frame, e) ↦
          let h' : ◌≡◌ {A = Result ℕ × World}
              (ok (length w.promises), transmit c frame (register c w)) (ok p, w') =
            rw (e, call) at h in
          subst₂ (λ q x. Called codec c request w q x) (cc) (ap (λ x. x.1) h')
            (transmit-Called codec c request w frame e)
      | inr (x, e) ↦ cc
    ]
call_Called codec c request false w w' p h =
    elim (Result-cases (serialize_call codec w.request_id request)) [
      | inl (frame, e) ↦ ground arith
      | inr (x, e) ↦ ground arith
    ]

-- A call that throws has sent nothing, and the next call goes out under the same request id.
call_throws :
    (codec : Codec) (c : ℕ) (request : TryCpRequest) (connected : Bool) (w w' : World) (x : Exn)
    → call codec c request connected w ≡ (err x, w')
    → (w'.request_id ≡ w.request_id)
      × ((w'.client c).sent ≡ (w.client c).sent)
      × (entry w' c w.request_id ≡ some (length w.promises))
unfolding call register
call_throws codec c request connected w w' x h =
    elim (Result-cases (serialize_call codec w.request_id request)) [
      | inl (frame, e) ↦ ground (
        arith,
        lookup-insert w.request_id w.request_id (length w.promises) (w.client c).request_promises,
      )
      | inr (y, e) ↦ ground (
        arith,
        lookup-insert w.request_id w.request_id (length w.promises) (w.client c).request_promises,
      )
    ]

-- The promise `p` of request `id` of client `c` has settled as `s`, and nothing else has changed.
pub record Settles (c id p : ℕ) (s : Promise) (w w' : World) : Type 0 where
  pub settled : get_elem? w'.promises p ≡ some s
  pub removed : entry w' c id ≡ none
  pub other_promises : (q : ℕ) → q ≢ p → get_elem? w'.promises q ≡ get_elem? w.promises q
  pub other_entries : (d j : ℕ) → (d ≢ c) ⊎ (j ≢ id) → entry w' d j ≡ entry w d j
  pub same_id : w'.request_id ≡ w.request_id

pub finish-Settles :
    (c id p : ℕ) (s : Promise) (w : World)
    → get_elem? w.promises p ≡ some pending
    → Settles c id p s w (finish c id p s w)
unfolding finish
finish-Settles c id p s w h = record {
  settled = get_elem?-settle w.promises p s h;
  removed = ground (arith, lookup-erase id id (w.client c).request_promises);
  other_promises = λ q ne. get_elem?-settle_ne w.promises p q s ne;
  other_entries = λ d j other. ground (arith, lookup-erase id j (w.client c).request_promises);
  same_id = refl;
}

-- What a response does to the promise of its request.
unfoldable pub settled_as : Codec → TryCpResponse → Promise
settled_as codec (success v) = outcome (process_success_response codec v)
settled_as codec (failure v) = rejected (refused v)

deserialize_wrapper :
    (codec : Codec) (frame : Bytes) (wrapper : Value)
    → codec.decode frame ≡ some wrapper
    → is_response_wrapper wrapper ≡ true
    → deserialize_try_cp_response codec frame ≡ ok wrapper
unfolding deserialize_try_cp_response
deserialize_wrapper codec frame wrapper d i = ground arith

module _ (codec : Codec) (good : IsLossless codec) (c id : ℕ) (frame : Bytes) (w : World) where
  module _ (p : ℕ) (found : entry w c id ≡ some p) where
    on_message-response :
        (wrapper : Value)
        → codec.encode wrapper ≡ some frame
        → is_response_wrapper wrapper ≡ true
        → is_str "signal" (get "type" wrapper) ≡ false
        → is_str "response" (get "type" wrapper) ≡ true
        → get "id" wrapper ≡ Value.num id
        → on_message codec c frame w ≡ answer codec c id p (get "response" wrapper) w
    unfolding on_message on_wrapper on_response
    on_message-response wrapper sent i ns r n =
        ground
          (arith, deserialize_wrapper codec frame wrapper (good.decode-encode wrapper frame sent) i)

    pub on_message-response_message :
        (r : TryCpResponse)
        → codec.encode (response_message id r) ≡ some frame
        → on_message codec c frame w ≡ (ok tt, finish c id p (settled_as codec r) w)
    unfolding response_message get is_str is_response_wrapper has_key answer settled_as
    on_message-response_message (success v) sent =
        on_message-response (response_message id (success v)) sent refl refl refl refl
    on_message-response_message (failure v) sent =
        on_message-response (response_message id (failure v)) sent refl refl refl refl

    -- In a consistent state a response to a registered request settles the promise of that request,
    -- with what an inner `Ok` means or as a rejection with an inner `Err`, takes the request off
    -- the register, and changes no other promise and no other request of any client.
    pub response-Settles :
        (r : TryCpResponse)
        → IsConsistent w
        → codec.encode (response_message id r) ≡ some frame
        → let (x, w') = on_message codec c frame w in
          (x ≡ ok tt) × Settles c id p (settled_as codec r) w w'
    response-Settles r good_w sent =
        rw (on_message-response_message r sent)
          (refl, finish-Settles c id p _ w (good_w.waits c id p found))

module _ (codec : Codec) (c : ℕ) (frame : Bytes) (w : World) where
  -- A response with an id that the client has no request for makes the listener throw, and changes
  -- nothing. So a second response to a request is without effect.
  unknown_id_throws :
      (wrapper : Value) (id : ℕ)
      → codec.decode frame ≡ some wrapper
      → is_response_wrapper wrapper ≡ true
      → get "type" wrapper ≡ Value.str "response"
      → get "id" wrapper ≡ Value.num id
      → entry w c id ≡ none
      → on_message codec c frame w ≡ (err type_error, w)
  unfolding on_message on_wrapper on_response is_str
  unknown_id_throws wrapper id d i t n e =
      ground (arith, deserialize_wrapper codec frame wrapper d i)
