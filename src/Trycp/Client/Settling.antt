-- ===== src/Trycp/Client/Settling.antt =====
-- What the callers of all clients see over a run: promises are created pending and settle once.
use try_o_rama.Prelude.{
  ℕ, ◌≡◌, ◌≢◌, refl, sym, ap, subst, ◌∙◌, Bool, List, [], ◌∷◌, ◌++◌, some, arith, get_elem?,
  get_elem?-append_left,
}
use try_o_rama.Trycp.Protocol.{TryCpRequest}
use try_o_rama.Trycp.Codec.{Codec}
use try_o_rama.Trycp.Client.{
  Promise, pending, World, register, transmit, call, set_signal_handler, unset_signal_handler,
}
use try_o_rama.Trycp.Client.Invariant.{
  IsConsistent, Event, calls, receives, sets_handler, unsets_handler, step, run, step-IsConsistent,
}
use try_o_rama.Trycp.Client.Routing.{finish-Settles}
use try_o_rama.Trycp.Client.Orders.{Effect, nothing, settles, delivers, on_message-Effect}

-- The abstract machine: a list of promises, to which a pending one is added, or of which a pending
-- one gets its value or its exception for good.
pub data Moves (ps qs : List Promise) : Type 0 where
  stays : qs ≡ ps → Moves ps qs
  opens : qs ≡ ps ++ pending ∷ [] → Moves ps qs
  ends :
      (p : ℕ) (s : Promise)
      → get_elem? ps p ≡ some pending
      → s ≢ pending
      → get_elem? qs p ≡ some s
      → ((q : ℕ) → q ≢ p → get_elem? qs q ≡ get_elem? ps q)
      → Moves ps qs

call-Moves :
    (codec : Codec) (c : ℕ) (request : TryCpRequest) (connected : Bool) (w : World)
    → (call codec c request connected w).1.promises ≡ w.promises ++ pending ∷ []
unfolding call register transmit
call-Moves codec c request connected w = ground arith

Effect-Moves :
    (c : ℕ) (w w' : World) → IsConsistent w → Effect c w w' → Moves w.promises w'.promises
Effect-Moves c w w' v (nothing e) = stays (ap (λ (x : World). x.promises) e)
Effect-Moves c w w' v (settles id p s found ne e) =
    let f = finish-Settles c id p s w (v.waits c id p found) in
    subst (λ (x : World). Moves w.promises x.promises) (sym e)
      (ends p s (v.waits c id p found) ne f.settled f.other_promises)
Effect-Moves c w w' v (delivers port h signal found e) = stays (ap (λ (x : World). x.promises) e)

-- Every step of the clients is one of the abstract machine.
pub step-Moves :
    (codec : Codec) (w : World) (e : Event)
    → IsConsistent w
    → Moves w.promises (step codec w e).promises
unfolding step set_signal_handler unset_signal_handler
step-Moves codec w (calls c request connected) v = opens (call-Moves codec c request connected w)
step-Moves codec w (receives c frame) v = Effect-Moves c w _ v (on_message-Effect codec c w frame)
step-Moves codec w (sets_handler c port h) v = stays refl
step-Moves codec w (unsets_handler c port) v = stays refl

-- The runs of the abstract machine.
pub data Reaches : List Promise → List Promise → Type 0 where
  here : {ps : List Promise} → Reaches ps ps
  after : {ps qs rs : List Promise} → Moves ps qs → Reaches qs rs → Reaches ps rs

run-Reaches_from :
    (codec : Codec) (w : World) (es : List Event)
    → IsConsistent w
    → Reaches w.promises (run codec w es).promises
unfolding run
run-Reaches_from codec w [] v = here
run-Reaches_from codec w (e ∷ es) v =
    after (step-Moves codec w e v)
      (run-Reaches_from codec (step codec w e) es (step-IsConsistent codec w e v))

-- The promise `p` has an outcome.
pub record IsSettled (ps : List Promise) (p : ℕ) : Type 0 where
  pub outcome : Promise
  pub known : get_elem? ps p ≡ some outcome
  pub final : outcome ≢ pending

same_entry :
    (ps : List Promise) (p q : ℕ) {s t : Promise}
    → p ≡ q
    → get_elem? ps p ≡ some s
    → get_elem? ps q ≡ some t
    → s ≡ t
same_entry ps p q e h k = cc (ap (get_elem? ps) e)

Moves-keeps :
    (ps qs : List Promise) (p : ℕ) (s : Promise)
    → Moves ps qs
    → get_elem? ps p ≡ some s
    → s ≢ pending
    → get_elem? qs p ≡ some s
Moves-keeps ps qs p s (stays e) h ne = ap (λ x. get_elem? x p) e ∙ h
Moves-keeps ps qs p s (opens e) h ne =
    ap (λ x. get_elem? x p) e ∙ get_elem?-append_left ps (pending ∷ []) p h
Moves-keeps ps qs p s (ends q t was new got others) h ne =
    others p (λ e. ne (same_entry ps p q e h was)) ∙ h

Reaches-keeps :
    (ps qs : List Promise) (p : ℕ) (s : Promise)
    → Reaches ps qs
    → get_elem? ps p ≡ some s
    → s ≢ pending
    → get_elem? qs p ≡ some s
Reaches-keeps ps qs p s here h ne = h
Reaches-keeps ps rs p s (after {qs = qs} m r) h ne =
    Reaches-keeps qs rs p s r (Moves-keeps ps qs p s m h ne) ne

-- In a consistent state a promise that has an outcome has the same one after any further calls and
-- messages.
run-keeps_outcome :
    (codec : Codec) (w : World) (es : List Event) (p : ℕ) (s : Promise)
    → IsConsistent w
    → get_elem? w.promises p ≡ some s
    → s ≢ pending
    → get_elem? (run codec w es).promises p ≡ some s
run-keeps_outcome codec w es p s v = Reaches-keeps _ _ p s (run-Reaches_from codec w es v)

pub Moves-IsSettled : (ps qs : List Promise) {p : ℕ} → Moves ps qs → IsSettled ps p → IsSettled qs p
Moves-IsSettled ps qs {p} m t = record {
  outcome = t.outcome;
  known = Moves-keeps ps qs p t.outcome m t.known t.final;
  final = t.final;
}

pub run-keeps_IsSettled :
    (codec : Codec) (w : World) (es : List Event) {p : ℕ}
    → IsConsistent w
    → IsSettled w.promises p
    → IsSettled (run codec w es).promises p
run-keeps_IsSettled codec w es {p} v t = record {
  outcome = t.outcome;
  known = run-keeps_outcome codec w es p t.outcome v t.known t.final;
  final = t.final;
}
