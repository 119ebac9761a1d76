-- ===== src/Trycp/Client/Invariant.antt =====
-- What holds of the requests in flight whatever the clients call and the servers send.
use try_o_rama.Prelude.{
  ℕ, ◌≤◌, ◌≡◌, ◌≢◌, refl, sym, ap, ◌∙◌, ◌⊎◌, inl, inr, Bool, List, [], ◌∷◌, ◌++◌, Option, some,
  arith, if_intro, length, get_elem?, get_elem?-append_left, get_elem?-append_last,
  get_elem?-eq_none, Option-cases,
}
use try_o_rama.Prelude.Dict.{lookup, lookup-insert, lookup-erase, lookup-nil}
use try_o_rama.Js.Value.{Value, Bytes, get, is_object, has_key, is_str}
use try_o_rama.Js.Exn.{Result, Result-cases}
use try_o_rama.Trycp.Protocol.{TryCpRequest}
use try_o_rama.Trycp.Codec.{Codec, deserialize_try_cp_response}
use try_o_rama.Trycp.Client.{
  Promise, pending, World, new_world, settle, register, transmit, call, finish, answer, on_response,
  on_signal, on_wrapper, on_message, set_signal_handler, unset_signal_handler, key, serialize_call,
}

-- The promise that client `c` holds under request id `i`.
abbrev pub entry : World → ℕ → ℕ → Option ℕ
entry w c i = lookup i (w.client c).request_promises

-- Every registered request has an id that was issued or is the next one, waits for its answer, and
-- shares its promise with no other entry of any client.
pub record IsConsistent (w : World) : Type 0 where
  pub issued : (c i p : ℕ) → entry w c i ≡ some p → i ≤ w.request_id
  pub waits : (c i p : ℕ) → entry w c i ≡ some p → get_elem? w.promises p ≡ some pending
  pub unique : (c d i j p : ℕ) → entry w c i ≡ some p → entry w d j ≡ some p → (c ≡ d) × (i ≡ j)

pub get_elem?-settle_ne :
    (ps : List Promise) (p i : ℕ) (s : Promise)
    → i ≢ p
    → get_elem? (settle p s ps) i ≡ get_elem? ps i
unfolding settle
get_elem?-settle_ne [] p i s h = refl
get_elem?-settle_ne (q ∷ ps) ℕ.zero ℕ.zero s h = absurd (h refl)
get_elem?-settle_ne (Promise.pending ∷ ps) ℕ.zero (ℕ.suc i) s h = refl
get_elem?-settle_ne (Promise.resolved v ∷ ps) ℕ.zero (ℕ.suc i) s h = refl
get_elem?-settle_ne (Promise.rejected e ∷ ps) ℕ.zero (ℕ.suc i) s h = refl
get_elem?-settle_ne (q ∷ ps) (ℕ.suc p) ℕ.zero s h = refl
get_elem?-settle_ne (q ∷ ps) (ℕ.suc p) (ℕ.suc i) s h =
    get_elem?-settle_ne ps p i s (λ e. h (ap ℕ.suc e))

pub get_elem?-settle :
    (ps : List Promise) (p : ℕ) (s : Promise)
    → get_elem? ps p ≡ some pending
    → get_elem? (settle p s ps) p ≡ some s
unfolding settle
get_elem?-settle [] p s h = cc
get_elem?-settle (Promise.pending ∷ ps) ℕ.zero s h = refl
get_elem?-settle (Promise.resolved v ∷ ps) ℕ.zero s h = cc
get_elem?-settle (Promise.rejected e ∷ ps) ℕ.zero s h = cc
get_elem?-settle (q ∷ ps) (ℕ.suc p) s h = get_elem?-settle ps p s h

-- A promise that exists is not the next one.
fresh : (ps : List Promise) (p : ℕ) {s : Promise} → get_elem? ps p ≡ some s → p ≢ length ps
fresh ps p h e = cc (get_elem?-eq_none ps p (omega arith))

pub entry-register :
    (c d i p : ℕ) (w : World)
    → entry (register c w) d i ≡ some p
    → ((c ≡ d) × (i ≡ w.request_id) × (p ≡ length w.promises)) ⊎ (entry w d i ≡ some p)
unfolding register
entry-register c d i p w h =
    ground (arith, lookup-insert w.request_id i (length w.promises) (w.client c).request_promises)

pub entry-finish :
    (c d id i q p : ℕ) (s : Promise) (w : World)
    → entry (finish c id q s w) d i ≡ some p
    → (entry w d i ≡ some p) × ((c ≢ d) ⊎ (id ≢ i))
unfolding finish
entry-finish c d id i q p s w h = ground (arith, lookup-erase id i (w.client c).request_promises)

module _ (c : ℕ) (w : World) (v : IsConsistent w) where
  register-issued : (d i p : ℕ) → entry (register c w) d i ≡ some p → i ≤ w.request_id
  register-issued d i p h = elim (entry-register c d i p w h) [
    | inl (_, e, _) ↦ omega arith
    | inr old ↦ v.issued d i p old
  ]

  register-waits :
      (d i p : ℕ)
      → entry (register c w) d i ≡ some p
      → get_elem? (w.promises ++ pending ∷ []) p ≡ some pending
  register-waits d i p h = elim (entry-register c d i p w h) [
    | inl (_, _, e) ↦ rw e (get_elem?-append_last w.promises pending)
    | inr old ↦ get_elem?-append_left w.promises (pending ∷ []) p (v.waits d i p old)
  ]

  register_unique :
      (d d' i j p : ℕ)
      → entry (register c w) d i ≡ some p
      → entry (register c w) d' j ≡ some p
      → (d ≡ d') × (i ≡ j)
  register_unique d d' i j p h k = elim (entry-register c d i p w h) [
    | inl (e, f, g) ↦ elim (entry-register c d' j p w k) [
      | inl (e', f', g') ↦ (sym e ∙ e', f ∙ sym f')
      | inr old ↦ absurd (fresh w.promises p (v.waits d' j p old) g)
    ]
    | inr old ↦ elim (entry-register c d' j p w k) [
      | inl (e', f', g') ↦ absurd (fresh w.promises p (v.waits d i p old) g')
      | inr old' ↦ v.unique d d' i j p old old'
    ]
  ]

  register-IsConsistent : IsConsistent (register c w)
  unfolding register
  register-IsConsistent = record {
    issued = unfold register in register-issued;
    waits = unfold register in register-waits;
    unique = unfold register in register_unique;
  }

  module _ (id q : ℕ) (found : entry w c id ≡ some q) (s : Promise) where
    finish-waits :
        (d i p : ℕ)
        → entry (finish c id q s w) d i ≡ some p
        → get_elem? (settle q s w.promises) p ≡ some pending
    finish-waits d i p h =
        let (old, other) = entry-finish c d id i q p s w h in
        let ne : p ≢ q = λ e. apart (v.unique c d id i q found (old ∙ ap some e)) other in
        get_elem?-settle_ne w.promises q p s ne ∙ v.waits d i p old
      where
        apart : {d i : ℕ} → (c ≡ d) × (id ≡ i) → (c ≢ d) ⊎ (id ≢ i) → ⊥
        apart (e, f) (inl g) = g e
        apart (e, f) (inr g) = g f

    finish-IsConsistent : IsConsistent (finish c id q s w)
    unfolding finish
    finish-IsConsistent = record {
      issued = λ d i p h. v.issued d i p (entry-finish c d id i q p s w h).0;
      waits = finish-waits;
      unique = λ d d' i j p h k.
          v.unique d d' i j p (entry-finish c d id i q p s w h).0
            (entry-finish c d' id j q p s w k).0;
    }

-- A world whose registered requests are those of a consistent world.
same-IsConsistent :
    (w w' : World)
    → ((d i : ℕ) → entry w' d i ≡ entry w d i)
    → w'.promises ≡ w.promises
    → w.request_id ≤ w'.request_id
    → IsConsistent w
    → IsConsistent w'
same-IsConsistent w w' e f le v = record {
  issued = λ d i p h. (let old = v.issued d i p (sym (e d i) ∙ h) in omega arith);
  waits = λ d i p h. ap (λ ps. get_elem? ps p) f ∙ v.waits d i p (sym (e d i) ∙ h);
  unique = λ d d' i j p h k. v.unique d d' i j p (sym (e d i) ∙ h) (sym (e d' j) ∙ k);
}

transmit-IsConsistent :
    (c : ℕ) (frame : Bytes) (w : World) → IsConsistent w → IsConsistent (transmit c frame w)
unfolding transmit
transmit-IsConsistent c frame w =
    same-IsConsistent w (transmit c frame w) (λ d i. ground arith) refl (omega arith)

set_signal_handler-IsConsistent :
    (c port : ℕ) (h : Option ℕ) (w : World)
    → IsConsistent w
    → IsConsistent (set_signal_handler c port h w)
unfolding set_signal_handler
set_signal_handler-IsConsistent c port h w =
    same-IsConsistent w (set_signal_handler c port h w) (λ d i. ground arith) refl (omega arith)

unset_signal_handler-IsConsistent :
    (c port : ℕ) (w : World) → IsConsistent w → IsConsistent (unset_signal_handler c port w)
unfolding unset_signal_handler
unset_signal_handler-IsConsistent c port w =
    same-IsConsistent w (unset_signal_handler c port w) (λ d i. ground arith) refl (omega arith)

module _ (codec : Codec) (c : ℕ) (w : World) (v : IsConsistent w) where
  call-IsConsistent :
      (request : TryCpRequest) (connected : Bool)
      → IsConsistent (call codec c request connected w).1
  unfolding call
  call-IsConsistent request connected =
      let r = register-IsConsistent c w v in
      elim (Result-cases (serialize_call codec w.request_id request)) [
        | inl (frame, e) ↦
            rw (e, call)
              (if_intro {A = Result ℕ × World} (λ x. IsConsistent x.1) connected
                (λ _. transmit-IsConsistent c frame (register c w) r) (λ _. r))
        | inr (x, e) ↦ rw (e, call) r
      ]

  answer-IsConsistent :
      (id p : ℕ) (response : Value)
      → entry w c id ≡ some p
      → IsConsistent (answer codec c id p response w).1
  unfolding answer
  answer-IsConsistent id p response found =
      let keep = finish-IsConsistent c w v id p found in
      if_intro {A = Result (Unit {0}) × World} (λ r. IsConsistent r.1) (is_object response)
        (λ _.
          if_intro {A = Result (Unit {0}) × World} (λ r. IsConsistent r.1) (has_key "Ok" response)
            (λ _. keep _)
            (λ _.
              if_intro {A = Result (Unit {0}) × World} (λ r. IsConsistent r.1)
                (has_key "Err" response) (λ _. keep _) (λ _. v)))
        (λ _. v)

  on_response-IsConsistent : (wrapper : Value) → IsConsistent (on_response codec c wrapper w).1
  unfolding on_response
  on_response-IsConsistent wrapper = elim (Option-cases (key (get "id" wrapper))) [
    | inl e ↦ rw (e, on_response) v
    | inr (id, e) ↦ elim (Option-cases (entry w c id)) [
      | inl f ↦ rw (e, f, on_response) v
      | inr (p, f) ↦ rw (e, f, on_response) (answer-IsConsistent id p (get "response" wrapper) f)
    ]
  ]

  on_signal-IsConsistent : (wrapper : Value) → IsConsistent (on_signal codec c wrapper w).1
  unfolding on_signal
  on_signal-IsConsistent wrapper =
      same-IsConsistent w (on_signal codec c wrapper w).1 (λ d i. ground arith) (ground arith)
        (ground arith) v

  on_wrapper-IsConsistent : (wrapper : Value) → IsConsistent (on_wrapper codec c wrapper w).1
  unfolding on_wrapper
  on_wrapper-IsConsistent wrapper =
      if_intro {A = Result (Unit {0}) × World} (λ r. IsConsistent r.1)
        (is_str "signal" (get "type" wrapper)) (λ _. on_signal-IsConsistent wrapper)
        (λ _.
          if_intro {A = Result (Unit {0}) × World} (λ r. IsConsistent r.1)
            (is_str "response" (get "type" wrapper)) (λ _. on_response-IsConsistent wrapper)
            (λ _. v))

  on_message-IsConsistent : (frame : Bytes) → IsConsistent (on_message codec c frame w).1
  unfolding on_message
  on_message-IsConsistent frame = elim (Result-cases (deserialize_try_cp_response codec frame)) [
    | inl (wrapper, e) ↦ rw (e, on_message) (on_wrapper-IsConsistent wrapper)
    | inr (x, e) ↦ rw (e, on_message) v
  ]

-- What can happen to the clients of one process.
pub data Event : Type 0 where
  calls : ℕ → TryCpRequest → Bool → Event
  receives : ℕ → Bytes → Event
  sets_handler : ℕ → ℕ → Option ℕ → Event
  unsets_handler : ℕ → ℕ → Event

unfoldable pub step : Codec → World → Event → World
step codec w (calls c request connected) = (call codec c request connected w).1
step codec w (receives c frame) = (on_message codec c frame w).1
step codec w (sets_handler c port h) = set_signal_handler c port h w
step codec w (unsets_handler c port) = unset_signal_handler c port w

unfoldable pub run : Codec → World → List Event → World
unfolding step
run codec w [] = w
run codec w (e ∷ es) = run codec (step codec w e) es

pub step-IsConsistent :
    (codec : Codec) (w : World) (e : Event) → IsConsistent w → IsConsistent (step codec w e)
unfolding step
step-IsConsistent codec w (calls c request connected) v =
    call-IsConsistent codec c w v request connected
step-IsConsistent codec w (receives c frame) v = on_message-IsConsistent codec c w v frame
step-IsConsistent codec w (sets_handler c port h) v = set_signal_handler-IsConsistent c port h w v
step-IsConsistent codec w (unsets_handler c port) v = unset_signal_handler-IsConsistent c port w v

pub run-IsConsistent :
    (codec : Codec) (w : World) (es : List Event) → IsConsistent w → IsConsistent (run codec w es)
unfolding run
run-IsConsistent codec w [] v = v
run-IsConsistent codec w (e ∷ es) v =
    run-IsConsistent codec (step codec w e) es (step-IsConsistent codec w e v)

pub new_world-IsConsistent : IsConsistent new_world
unfolding new_world
new_world-IsConsistent = record {
  issued = λ c i p h. cc (lookup-nil {V = ℕ} i);
  waits = λ c i p h. cc (lookup-nil {V = ℕ} i);
  unique = λ c d i j p h k. absurd (cc (lookup-nil {V = ℕ} i));
}

-- Whatever the clients of a process call and the servers send, in any order, every registered
-- request has an id that was issued or comes next, waits for its answer, and shares its promise
-- with no other entry of any client.
pub run-new_world-IsConsistent :
    (codec : Codec) (es : List Event) → IsConsistent (run codec new_world es)
run-new_world-IsConsistent codec es = run-IsConsistent codec new_world es new_world-IsConsistent
