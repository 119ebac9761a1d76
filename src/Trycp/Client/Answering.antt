-- ===== src/Trycp/Client/Answering.antt =====
-- A request that is answered does not stay pending, whatever happens before and after.
use native.Mathlib.Decide.{ℕ_discrete}
use try_o_rama.Prelude.{
  ℕ, ◌<◌, ◌≡◌, ◌≢◌, refl, sym, ap, subst, ◌∙◌, ◌⊎◌, inl, inr, Bool, List, [], ◌∷◌, ◌++◌, some,
  arith, length, get_elem?,
}
use try_o_rama.Prelude.Dict.{lookup-insert}
use try_o_rama.Js.Value.{Bytes}
use try_o_rama.Trycp.Protocol.{TryCpRequest, TryCpResponse, success, failure, response_message}
use try_o_rama.Trycp.Codec.{Codec, IsLossless}
use try_o_rama.Trycp.Client.{
  pending, World, register, transmit, call, finish, set_signal_handler, unset_signal_handler,
  process_success_response,
}
use try_o_rama.Trycp.Client.Invariant.{
  IsConsistent, entry, Event, calls, receives, sets_handler, unsets_handler, step, run,
  step-IsConsistent, run-IsConsistent,
}
use try_o_rama.Trycp.Client.Routing.{finish-Settles, response-Settles, settled_as}
use try_o_rama.Trycp.Client.Orders.{
  Effect, nothing, settles, delivers, on_message-Effect, outcome-ne-pending,
}
use try_o_rama.Trycp.Client.Settling.{IsSettled, Moves-IsSettled, run-keeps_IsSettled, step-Moves}

settled_as-ne-pending : (codec : Codec) (r : TryCpResponse) → settled_as codec r ≢ pending
unfolding settled_as
settled_as-ne-pending codec (success v) = outcome-ne-pending (process_success_response codec v)
settled_as-ne-pending codec (failure v) = cc

-- The request `id` of client `c` is under way: registered for the promise `p`, and sent, so that no
-- later call goes out under its id.
pub record IsUnderWay (w : World) (c id p : ℕ) : Type 0 where
  pub registered : entry w c id ≡ some p
  pub counted : id < w.request_id

module _ (c id p : ℕ) where
  -- What a request under way has come to.
  abbrev Progress : World → Type 0
  Progress w = IsUnderWay w c id p ⊎ IsSettled w.promises p

  other_request :
      (w : World) (d i q : ℕ)
      → entry w c id ≡ some p
      → entry w d i ≡ some q
      → p ≢ q
      → (c ≢ d) ⊎ (id ≢ i)
  other_request w d i q h k ne = elim (ℕ_discrete c d) [
    | no n ↦ inl n
    | yes e ↦ elim (ℕ_discrete id i) [
      | no n ↦ inr n
      | yes f ↦ absurd (ne (cc (ap (λ x. entry w x id) e, ap (entry w d) f)))
    ]
  ]

  call-Progress :
      (codec : Codec) (d : ℕ) (request : TryCpRequest) (connected : Bool) (w : World)
      → IsUnderWay w c id p
      → IsUnderWay (call codec d request connected w).1 c id p
  unfolding call register transmit
  call-Progress codec d request connected w u = record {
    registered =
        ground
          (arith, lookup-insert w.request_id id (length w.promises) (w.client d).request_promises);
    counted = ground arith;
  }

  Effect-Progress :
      (d : ℕ) (w w' : World) → IsConsistent w → IsUnderWay w c id p → Effect d w w' → Progress w'
  Effect-Progress d w w' v u (nothing e) =
      inl (subst (λ (x : World). IsUnderWay x c id p) (sym e) u)
  Effect-Progress d w w' v u (settles i q s found ne e) =
      let f = finish-Settles d i q s w (v.waits d i q found) in
      subst Progress (sym e) (elim (ℕ_discrete p q) [
        | yes same ↦ inr (record {
          outcome = s;
          known = ap (get_elem? (finish d i q s w).promises) same ∙ f.settled;
          final = ne;
        })
        | no other ↦ inl (record {
          registered =
              f.other_entries c id (other_request w d i q u.registered found other) ∙ u.registered;
          counted = subst (λ n. id < n) (sym f.same_id) u.counted;
        })
      ])
  Effect-Progress d w w' v u (delivers port h signal found e) = inl (
      subst (λ (x : World). IsUnderWay x c id p) (sym e)
        (record { registered = ground arith; counted = u.counted }))

  step-Progress :
      (codec : Codec) (w : World) (e : Event)
      → IsConsistent w
      → IsUnderWay w c id p
      → Progress (step codec w e)
  unfolding step set_signal_handler unset_signal_handler
  step-Progress codec w (calls d request connected) v u =
      inl (call-Progress codec d request connected w u)
  step-Progress codec w (receives d frame) v u =
      Effect-Progress d w _ v u (on_message-Effect codec d w frame)
  step-Progress codec w (sets_handler d port h) v u =
      inl (record { registered = ground arith; counted = u.counted })
  step-Progress codec w (unsets_handler d port) v u =
      inl (record { registered = ground arith; counted = u.counted })

  run-Progress :
      (codec : Codec) (w : World) (es : List Event)
      → IsConsistent w
      → IsUnderWay w c id p
      → Progress (run codec w es)
  unfolding run
  run-Progress codec w [] v u = inl u
  run-Progress codec w (e ∷ es) v u = elim (step-Progress codec w e v u) [
    | inl u' ↦ run-Progress codec (step codec w e) es (step-IsConsistent codec w e v) u'
    | inr t ↦ inr (run-keeps_IsSettled codec (step codec w e) es (step-IsConsistent codec w e v) t)
  ]

  -- A response to the request settles the promise, if that has not happened before.
  response-Progress :
      (codec : Codec) (w : World) (frame : Bytes) (r : TryCpResponse)
      → IsLossless codec
      → codec.encode (response_message id r) ≡ some frame
      → IsConsistent w
      → Progress w
      → IsSettled (step codec w (receives c frame)).promises p
  unfolding step
  response-Progress codec w frame r good sent v (inl u) = record {
    outcome = settled_as codec r;
    known = (response-Settles codec good c id frame w p u.registered r v sent).1.settled;
    final = settled_as-ne-pending codec r;
  }
  response-Progress codec w frame r good sent v (inr t) =
      Moves-IsSettled _ _ (step-Moves codec w (receives c frame) v) t

run-append :
    (codec : Codec) (w : World) (es fs : List Event)
    → run codec w (es ++ fs) ≡ run codec (run codec w es) fs
unfolding run
run-append codec w [] fs = refl
run-append codec w (e ∷ es) fs = run-append codec (step codec w e) es fs

-- If the codec loses nothing and the state is consistent, then a request under way is answered in the
-- end: whatever the clients call and receive before and after it, once a response to the request
-- has come its promise has an outcome.
pub answered_settles :
    (codec : Codec) (w : World) (before later : List Event) (c id p : ℕ) (frame : Bytes)
    (r : TryCpResponse)
    → IsLossless codec
    → codec.encode (response_message id r) ≡ some frame
    → IsConsistent w
    → IsUnderWay w c id p
    → IsSettled (run codec w (before ++ receives c frame ∷ later)).promises p
unfolding run
answered_settles codec w before later c id p frame r good sent v u =
    let w' = run codec w before in
    let v' = run-IsConsistent codec w before v in
    subst (λ (x : World). IsSettled x.promises p)
      (sym (run-append codec w before (receives c frame ∷ later)))
      (run-keeps_IsSettled codec (step codec w' (receives c frame)) later
        (step-IsConsistent codec w' (receives c frame) v')
        (response-Progress c id p codec w' frame r good sent v'
          (run-Progress c id p codec w before v u)))
