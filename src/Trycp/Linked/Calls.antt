-- ===== src/Trycp/Linked/Calls.antt =====
-- One call through a client to a server, against the answer of the server.
use try_o_rama.Prelude.{
  ℕ, ◌≡◌, refl, sym, ap, subst, ◌∙◌, ◌⊎◌, inl, inr, List, ◌∷◌, some, true, get_elem?, Option-cases,
}
use try_o_rama.Js.Value.{Value, Bytes}
use try_o_rama.Js.Exn.{Result, ok, err}
use try_o_rama.Js.Refines.{Alike, Refines}
use try_o_rama.Trycp.Protocol.{TryCpRequest, TryCpResponse, success, failure, response_message}
use try_o_rama.Trycp.Codec.{Codec, IsLossless}
use try_o_rama.Trycp.Services.{Services}
use try_o_rama.Trycp.Client.{World, call, on_message, outcome, process_success_response}
use try_o_rama.Trycp.Client.Invariant.{
  IsConsistent, Event, receives, run, step, entry, step-IsConsistent, run-IsConsistent,
}
use try_o_rama.Trycp.Client.Routing.{Called, call_Called, settled_as}
use try_o_rama.Trycp.Client.Reader.{read_call}
use try_o_rama.Trycp.Client.Frames.{serialize_call-read_call}
use try_o_rama.Trycp.Client.Exchange.{serve-eq, exchange_settles, call-IsConsistent_after}
use try_o_rama.Trycp.Linked.Encoding.{Unencodable, call-Unencodable}
use try_o_rama.Trycp.Linked.{
  deliver, behind, Handler, meaning, awaited, serve_frame, answered, call_over, direct_call,
}

-- What happens meanwhile answers no request that waits.
abbrev pub IsQuiet : Codec → ℕ → (World → List Event) → Type 0
IsQuiet codec c traffic =
    (w : World) (id p : ℕ) → entry w c id ≡ some p → entry (run codec w (traffic w)) c id ≡ some p

awaited-outcome : (r : Result Value) → awaited (some (outcome r)) ≡ r
awaited-outcome (ok v) = refl
awaited-outcome (err e) = refl

awaited-settled_as :
    (codec : Codec) (r : TryCpResponse) → awaited (some (settled_as codec r)) ≡ meaning codec r
unfolding settled_as meaning
awaited-settled_as codec (success v) = awaited-outcome (process_success_response codec v)
awaited-settled_as codec (failure v) = refl

-- A consistent client, and the state of all else.
abbrev pub Linked : {X : Type 0} → World × X → X → Type 0
Linked (w, x) y = IsConsistent w × (x ≡ y)

module _ {X : Type 0} (s : Services X) (good : IsLossless s.codec) (c : ℕ) (handler : Handler X)
    (traffic : World → List Event) (quiet : IsQuiet s.codec c traffic) where
  serve_frame-eq :
      (frame : Bytes) (id : ℕ) (request : TryCpRequest) (x : X)
      → read_call s.codec frame ≡ some (id, request)
      → serve_frame s c handler traffic frame x
        ≡ (s.codec.encode (response_message id (handler request x).0), (handler request x).1)
  unfolding serve_frame
  serve_frame-eq frame id request x e = rw (e, serve_frame) refl

  module _ (request : TryCpRequest) (w w' : World) (p : ℕ) (v : IsConsistent w)
      (h : call s.codec c request true w ≡ (ok p, w')) (x : X) where
    abbrev response : TryCpResponse
    response = (handler request x).0

    abbrev next : X
    next = (handler request x).1

    abbrev meanwhile : World
    meanwhile = run s.codec w' (traffic w')

    -- The state of the clients when a reply has come.
    abbrev after : Bytes → World
    after reply = (on_message s.codec c reply meanwhile).1

    module _ (made : Called s.codec c request w p w') where
      read : read_call s.codec made.frame ≡ some (w.request_id, request)
      read = serialize_call-read_call s.codec good w.request_id request made.frame made.serialized

      after-IsConsistent : (reply : Bytes) → IsConsistent (after reply)
      after-IsConsistent reply =
          unfold step in
          step-IsConsistent s.codec (run s.codec w' (traffic w')) (receives c reply) (
            run-IsConsistent s.codec w' (traffic w')
              (call-IsConsistent_after s.codec good (λ r. response) c request true w w' p v h))

      replied-Alike :
          (reply : Bytes)
          → s.codec.encode (response_message w.request_id response) ≡ some reply
          → Alike Linked
              (answered s c handler traffic p (made.frame ∷ (w.client c).sent) (w', x))
              (direct_call s c handler traffic request x)
      unfolding answered direct_call
      replied-Alike reply q =
          subst
            (λ y.
              (awaited (get_elem? (deliver s c handler traffic y.0 meanwhile).promises p)
                ≡ meaning s.codec response)
              × (IsConsistent (deliver s c handler traffic y.0 meanwhile) × (y.1 ≡ next)))
            (sym (serve_frame-eq made.frame w.request_id request x read ∙ ap (λ o. (o, next)) q))
            (
              ap awaited (
                    exchange_settles s.codec good (λ r. response) c request true w w' p (traffic w')
                      made.frame reply v h made.transmitted
                      (serve-eq s.codec good (λ r. response) w.request_id request made.frame read
                        ∙ q)
                      (quiet w' w.request_id p made.registered))
                  ∙ awaited-settled_as s.codec response,
              (after-IsConsistent reply, refl),
            )

      answered-Alike :
          Alike Linked
            (answered s c handler traffic p (made.frame ∷ (w.client c).sent) (w', x))
            (direct_call s c handler traffic request x)
          ⊎ Unencodable s.codec
      answered-Alike =
          elim (Option-cases (s.codec.encode (response_message w.request_id response))) [
            | inl n ↦ inr (response_message w.request_id response, n)
            | inr (reply, q) ↦ inl (replied-Alike reply q)
          ]

    call_over-eq :
        call_over s c handler traffic request (w, x)
        ≡ answered s c handler traffic p (w'.client c).sent (w', x)
    unfolding call_over
    call_over-eq = ap (behind s c handler traffic x) h

    returned-Alike :
        Alike Linked
          (call_over s c handler traffic request (w, x))
          (direct_call s c handler traffic request x)
        ⊎ Unencodable s.codec
    returned-Alike =
        let made = call_Called s.codec c request true w w' p h in
        subst
          (λ y. Alike Linked y (direct_call s c handler traffic request x) ⊎ Unencodable s.codec)
          (sym (
            call_over-eq
            ∙ ap (λ frames. answered s c handler traffic p frames (w', x)) made.transmitted))
          (answered-Alike made)

  call_over-Alike :
      (request : TryCpRequest) (w : World) (x : X)
      → IsConsistent w
      → (r : Result ℕ × World) → call s.codec c request true w ≡ r
      → Alike Linked
          (call_over s c handler traffic request (w, x))
          (direct_call s c handler traffic request x)
        ⊎ Unencodable s.codec
  call_over-Alike request w x v (ok p, w') h = returned-Alike request w w' p v h x
  call_over-Alike request w x v (err e, w') h = inr (call-Unencodable s.codec c request w w' e h)

  pub call_over-Refines :
      (request : TryCpRequest)
      → Refines Linked
          (Unencodable s.codec)
          (call_over s c handler traffic request)
          (direct_call s c handler traffic request)
  call_over-Refines request = record {
    refine = λ (w, x) y (v, e).
        subst
          (λ y.
            Alike Linked (call_over s c handler traffic request (w, x))
              (direct_call s c handler traffic request y)
            ⊎ Unencodable s.codec)
          e (call_over-Alike request w x v _ refl);
  }
