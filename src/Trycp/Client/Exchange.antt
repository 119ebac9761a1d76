-- ===== src/Trycp/Client/Exchange.antt =====
-- A client and a server together: what a server answers is what the caller gets.
use try_o_rama.Prelude.{ℕ, ◌≡◌, sym, ap, subst, ◌∙◌, Bool, List, ◌∷◌, Option, none, some, get_elem?}
use try_o_rama.Js.Value.{Bytes}
use try_o_rama.Js.Exn.{ok}
use try_o_rama.Trycp.Protocol.{TryCpRequest, TryCpResponse, response_message}
use try_o_rama.Trycp.Codec.{Codec, IsLossless}
use try_o_rama.Trycp.Client.{World, call, on_message}
use try_o_rama.Trycp.Client.Invariant.{
  IsConsistent, Event, calls, entry, step, run, step-IsConsistent, run-IsConsistent,
}
use try_o_rama.Trycp.Client.Routing.{call_Called, response-Settles, settled_as}
use try_o_rama.Trycp.Client.Reader.{read_call}
use try_o_rama.Trycp.Client.Frames.{serialize_call-read_call}

-- A server that reads a frame as a call and answers its request under the call's id, in a frame.
unfoldable pub serve : Codec → (TryCpRequest → TryCpResponse) → Bytes → Option Bytes
serve codec handler frame = elim (read_call codec frame) [
  | none ↦ none
  | some (id, request) ↦ codec.encode (response_message id (handler request))
]

abbrev reply_to : Codec → (TryCpRequest → TryCpResponse) → Option (ℕ × TryCpRequest) → Option Bytes
reply_to codec handler none = none
reply_to codec handler (some (id, request)) = codec.encode (response_message id (handler request))

head_eq : {a b : Bytes} {xs ys : List Bytes} → a ∷ xs ≡ b ∷ ys → a ≡ b
head_eq h = cc

module _ (codec : Codec) (good : IsLossless codec) (handler : TryCpRequest → TryCpResponse) where
  pub serve-eq :
      (id : ℕ) (request : TryCpRequest) (frame : Bytes)
      → read_call codec frame ≡ some (id, request)
      → serve codec handler frame ≡ codec.encode (response_message id (handler request))
  unfolding serve
  serve-eq id request frame e = ap (reply_to codec handler) e

  pub call-IsConsistent_after :
      (c : ℕ) (request : TryCpRequest) (connected : Bool) (w w' : World) (p : ℕ)
      → IsConsistent w
      → call codec c request connected w ≡ (ok p, w')
      → IsConsistent w'
  unfolding step
  call-IsConsistent_after c request connected w w' p v h =
      subst (λ x. IsConsistent x.1) h (step-IsConsistent codec w (calls c request connected) v)

  -- If the codec loses nothing and a call returns from a consistent state, then the reply of a server
  -- that answers requests by `handler` to the frame that the call has sent settles the promise of the
  -- call with what `handler` answers to its request, whatever happens before the reply comes, as long
  -- as the request is still registered then.
  pub exchange_settles :
      (c : ℕ) (request : TryCpRequest) (connected : Bool) (w w' : World) (p : ℕ) (es : List Event)
      (frame reply : Bytes)
      → IsConsistent w
      → call codec c request connected w ≡ (ok p, w')
      → (w'.client c).sent ≡ frame ∷ (w.client c).sent
      → serve codec handler frame ≡ some reply
      → entry (run codec w' es) c w.request_id ≡ some p
      → get_elem? (on_message codec c reply (run codec w' es)).1.promises p
        ≡ some (settled_as codec (handler request))
  exchange_settles c request connected w w' p es frame reply v h sent served waiting =
      let made = call_Called codec c request connected w w' p h in
      let same = head_eq (sym made.transmitted ∙ sent) in
      let read =
        subst (λ f. read_call codec f ≡ some (w.request_id, request)) same
          (serialize_call-read_call codec good w.request_id request made.frame made.serialized) in
      let encoded = sym (serve-eq w.request_id request frame read) ∙ served in
      (response-Settles codec good c w.request_id reply (run codec w' es) p waiting
        (handler request)
        (run-IsConsistent codec w' es (call-IsConsistent_after c request connected w w' p v h))
        encoded).1.settled
