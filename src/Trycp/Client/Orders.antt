-- ===== src/Trycp/Client/Orders.antt =====
-- The order in which answers arrive, and what a message can change at all.
use try_o_rama.Prelude.{
  ℕ, ◌≡◌, ◌≢◌, refl, sym, ap, ◌∙◌, fun_ext, ◌⊎◌, inl, inr, List, [], ◌∷◌, Option, none, some, arith,
  if_intro, Option-cases,
}
use try_o_rama.Prelude.Dict.{Dict, lookup, erase, lookup-erase}
use try_o_rama.Js.Value.{Value, Bytes, get, has_key, is_str, is_object}
use try_o_rama.Js.Exn.{Result, Result-cases, ok, err}
use try_o_rama.Trycp.Protocol.{TryCpResponse, response_message}
use try_o_rama.Trycp.Codec.{
  Codec, IsLossless, deserialize_try_cp_response, deserialize_try_cp_signal,
}
use try_o_rama.Trycp.Client.{
  Promise, pending, World, put, settle, finish, answer, on_response, on_signal, on_wrapper,
  on_message, outcome, handler, lookup_key, key,
}
use try_o_rama.Trycp.Client.Invariant.{IsConsistent, entry}
use try_o_rama.Trycp.Client.Routing.{settled_as, on_message-response_message}

settle-settle :
    (ps : List Promise) (p q : ℕ) (s t : Promise)
    → p ≢ q
    → settle p s (settle q t ps) ≡ settle q t (settle p s ps)
unfolding settle
settle-settle [] p q s t h = refl
settle-settle (x ∷ ps) ℕ.zero ℕ.zero s t h = absurd (h refl)
settle-settle (Promise.pending ∷ ps) ℕ.zero (ℕ.suc q) s t h = refl
settle-settle (Promise.resolved v ∷ ps) ℕ.zero (ℕ.suc q) s t h = refl
settle-settle (Promise.rejected e ∷ ps) ℕ.zero (ℕ.suc q) s t h = refl
settle-settle (Promise.pending ∷ ps) (ℕ.suc p) ℕ.zero s t h = refl
settle-settle (Promise.resolved v ∷ ps) (ℕ.suc p) ℕ.zero s t h = refl
settle-settle (Promise.rejected e ∷ ps) (ℕ.suc p) ℕ.zero s t h = refl
settle-settle (x ∷ ps) (ℕ.suc p) (ℕ.suc q) s t h =
    ap (λ r. x ∷ r) (settle-settle ps p q s t (λ e. h (ap ℕ.suc e)))

erase-erase {ℓ} : {V : Type ℓ} (i j : ℕ) (d : Dict V) → erase i (erase j d) ≡ erase j (erase i d)
unfolding erase
erase-erase i j [] = refl
erase-erase i j ((k, v) ∷ d) = ground (arith, erase-erase i j d)

finish-finish :
    (c d i j p q : ℕ) (s t : Promise) (w : World)
    → p ≢ q
    → finish d j q t (finish c i p s w) ≡ finish c i p s (finish d j q t w)
unfolding finish
finish-finish c d i j p q s t w h = λ k. record {
  request_id = w.request_id;
  promises = settle-settle w.promises q p t s (λ e. h (sym e)) k;
  client = fun_ext clients k;
}
  where
    clients :
        (x : ℕ)
        → World.client (finish d j q t (finish c i p s w)) x
          ≡ World.client (finish c i p s (finish d j q t w)) x
    clients x = ground (arith, erase-erase i j (w.client c).request_promises)

-- Two requests in flight, of one client or of two, and a response to each.
module _ (codec : Codec) (good : IsLossless codec) (c d i j p q : ℕ) (f g : Bytes)
    (r s : TryCpResponse) (w : World) (v : IsConsistent w) (first : entry w c i ≡ some p)
    (second : entry w d j ≡ some q) (different : (d ≢ c) ⊎ (j ≢ i))
    (first_sent : codec.encode (response_message i r) ≡ some f)
    (second_sent : codec.encode (response_message j s) ≡ some g) where
  abbrev after_first : World
  after_first = finish c i p (settled_as codec r) w

  abbrev after_second : World
  after_second = finish d j q (settled_as codec s) w

  promises_differ : p ≢ q
  promises_differ e = apart (v.unique c d i j p first (second ∙ ap some (sym e))) different
    where
      apart : (c ≡ d) × (i ≡ j) → (d ≢ c) ⊎ (j ≢ i) → ⊥
      apart (a, b) (inl h) = h (sym a)
      apart (a, b) (inr h) = h (sym b)

  still_second : entry after_first d j ≡ some q
  unfolding finish
  still_second = ground (arith, lookup-erase i j (w.client c).request_promises)

  still_first : entry after_second c i ≡ some p
  unfolding finish
  still_first = ground (arith, lookup-erase j i (w.client d).request_promises)

  -- In a consistent state the responses to two requests may arrive in either order: the clients
  -- and the promises end up the same.
  pub responses_commute :
      (on_message codec d g (on_message codec c f w).1).1
      ≡ (on_message codec c f (on_message codec d g w).1).1
  responses_commute =
      rw
        (
          on_message-response_message codec good c i f w p first r first_sent,
          on_message-response_message codec good d j g w q second s second_sent,
          on_message-response_message codec good d j g after_first q still_second s second_sent,
          on_message-response_message codec good c i f after_second p still_first r first_sent,
        )
        (finish-finish c d i j p q (settled_as codec r) (settled_as codec s) w promises_differ)

-- What a message that client `c` receives can do to the clients and the promises.
pub data Effect (c : ℕ) (w : World) : World → Type 0 where
  nothing : {w' : World} → w' ≡ w → Effect c w w'
  settles :
      {w' : World} (id p : ℕ) (s : Promise)
      → entry w c id ≡ some p
      → s ≢ pending
      → w' ≡ finish c id p s w
      → Effect c w w'
  delivers :
      {w' : World} (port h : ℕ) (signal : Value)
      → lookup port (w.client c).signal_handlers ≡ some (some h)
      → w' ≡ put c (record (w.client c) { signals = (h, signal) ∷ (w.client c).signals }) w
      → Effect c w w'

pub outcome-ne-pending : (r : Result Value) → outcome r ≢ pending
outcome-ne-pending (ok v) = cc
outcome-ne-pending (err e) = cc

module _ (codec : Codec) (c : ℕ) (w : World) where
  answer-Effect :
      (id p : ℕ) (response : Value)
      → entry w c id ≡ some p
      → Effect c w (answer codec c id p response w).1
  unfolding answer
  answer-Effect id p response found =
      if_intro {A = Result (Unit {0}) × World} (λ r. Effect c w r.1) (is_object response)
        (λ _.
          if_intro {A = Result (Unit {0}) × World} (λ r. Effect c w r.1) (has_key "Ok" response)
            (λ _. settles id p _ found (outcome-ne-pending _) refl)
            (λ _.
              if_intro {A = Result (Unit {0}) × World} (λ r. Effect c w r.1)
                (has_key "Err" response) (λ _. settles id p _ found (cc) refl) (λ _. nothing refl)))
        (λ _. nothing refl)

  on_response-Effect : (wrapper : Value) → Effect c w (on_response codec c wrapper w).1
  unfolding on_response
  on_response-Effect wrapper = elim (Option-cases (key (get "id" wrapper))) [
    | inl e ↦ rw (e, on_response) (nothing refl)
    | inr (id, e) ↦ elim (Option-cases (entry w c id)) [
      | inl f ↦ rw (e, f, on_response) (nothing refl)
      | inr (p, f) ↦ rw (e, f, on_response) (answer-Effect id p (get "response" wrapper) f)
    ]
  ]

  handler-eq_some :
      (k : Option ℕ) (ports : Dict (Option ℕ)) (h : ℕ)
      → handler (lookup_key k ports) ≡ some h
      → (port : ℕ) × (lookup port ports ≡ some (some h))
  handler-eq_some none ports h e = cc
  handler-eq_some (some port) ports h e = (port, ground arith)

  on_signal-Effect : (wrapper : Value) → Effect c w (on_signal codec c wrapper w).1
  unfolding on_signal
  on_signal-Effect wrapper =
      elim (Option-cases
        (handler (lookup_key (key (get "port" wrapper)) (w.client c).signal_handlers))) [
          | inl e ↦ rw (e, on_signal) (nothing refl)
          | inr (h, e) ↦
              let (port, registered) = handler-eq_some _ (w.client c).signal_handlers h e in
              elim (Result-cases (deserialize_try_cp_signal codec (get "data" wrapper))) [
                | inl (signal, f) ↦ rw (e, f, on_signal) (delivers port h signal registered refl)
                | inr (x, f) ↦ rw (e, f, on_signal) (nothing refl)
              ]
        ]

  -- Whatever bytes a client receives, the message does one of three things: nothing; it settles one
  -- promise, that of a request registered with this client, and takes that request off the
  -- register; or it passes one signal to the handler registered for a port.
  pub on_message-Effect : (frame : Bytes) → Effect c w (on_message codec c frame w).1
  unfolding on_message on_wrapper
  on_message-Effect frame = elim (Result-cases (deserialize_try_cp_response codec frame)) [
    | inl (wrapper, e) ↦
        rw (e, on_message)
          (if_intro {A = Result (Unit {0}) × World} (λ r. Effect c w r.1)
            (is_str "signal" (get "type" wrapper)) (λ _. on_signal-Effect wrapper)
            (λ _.
              if_intro {A = Result (Unit {0}) × World} (λ r. Effect c w r.1)
                (is_str "response" (get "type" wrapper)) (λ _. on_response-Effect wrapper)
                (λ _. nothing refl)))
    | inr (x, e) ↦ rw (e, on_message) (nothing refl)
  ]
