-- ===== src/Trycp/Client/Permuting.antt =====
-- Any number of responses may arrive in any order.
use mathlib.Core.List.{Permᴰ}
use try_o_rama.Prelude.{
  ℕ, ◌≡◌, ◌≢◌, refl, sym, ap, subst, ◌∙◌, ◌⊎◌, inl, inr, List, [], ◌∷◌, some, All, map,
}
use try_o_rama.Js.Value.{Bytes}
use try_o_rama.Trycp.Protocol.{TryCpResponse, response_message}
use try_o_rama.Trycp.Codec.{Codec, IsLossless}
use try_o_rama.Trycp.Client.{World}
use try_o_rama.Trycp.Client.Invariant.{
  IsConsistent, Event, receives, entry, step, run, step-IsConsistent,
}
use try_o_rama.Trycp.Client.Routing.{response-Settles}
use try_o_rama.Trycp.Client.Orders.{responses_commute}

-- A response to the request `id` of a client, in its frame, and the promise of the request.
pub record Answer : Type 0 where
  pub client : ℕ
  pub id : ℕ
  pub promise : ℕ
  pub frame : Bytes
  pub response : TryCpResponse

abbrev pub received : Answer → Event
received a = receives a.client a.frame

-- The two are responses to different requests.
abbrev pub Apart : Answer → Answer → Type 0
Apart a b = (b.client ≢ a.client) ⊎ (b.id ≢ a.id)

abbrev pub AllApart : List Answer → Type 0
AllApart [] = Unit
AllApart (a ∷ as') = All (Apart a) as' × AllApart as'

Apart-sym : (a b : Answer) → Apart a b → Apart b a
Apart-sym a b (inl n) = inl (λ e. n (sym e))
Apart-sym a b (inr n) = inr (λ e. n (sym e))

All-Permᴰ : {A : Type 0} (P : A → Type 0) {xs ys : List A} → Permᴰ xs ys → All P xs → All P ys
All-Permᴰ P Permᴰ.nil h = h
All-Permᴰ P (Permᴰ.cons e d) (p, h) = (subst P e p, All-Permᴰ P d h)
All-Permᴰ P (Permᴰ.swap e f) (p, (q, h)) = (subst P f q, (subst P e p, h))
All-Permᴰ P (Permᴰ.trans d e) h = All-Permᴰ P e (All-Permᴰ P d h)

AllApart-Permᴰ : {xs ys : List Answer} → Permᴰ xs ys → AllApart xs → AllApart ys
AllApart-Permᴰ Permᴰ.nil h = h
AllApart-Permᴰ (Permᴰ.cons {a = a} {l₂ = ys} e d) (p, h) =
    (subst (λ c. All (Apart c) ys) e (All-Permᴰ (Apart a) d p), AllApart-Permᴰ d h)
AllApart-Permᴰ (Permᴰ.swap {a = a} {b = b} {b' = b'} {l = l} e f) ((n, p), (q, h)) =
    subst (λ x. AllApart (x ∷ b' ∷ l)) f
      (subst (λ y. AllApart (b ∷ y ∷ l)) e ((Apart-sym a b n, q), (p, h)))
AllApart-Permᴰ (Permᴰ.trans d e) h = AllApart-Permᴰ e (AllApart-Permᴰ d h)

module _ (codec : Codec) (good : IsLossless codec) where
  -- The request is registered, and the frame is that of the response.
  pub record Answers (w : World) (a : Answer) : Type 0 where
    pub registered : entry w a.client a.id ≡ some a.promise
    pub encoded : codec.encode (response_message a.id a.response) ≡ some a.frame

  -- A response leaves those to other requests what they are.
  step-Answers :
      (w : World) (a b : Answer)
      → IsConsistent w
      → Answers w a
      → Apart a b
      → Answers w b
      → Answers (step codec w (received a)) b
  unfolding step
  step-Answers w a b v x n y =
      let (done, s) =
        response-Settles codec good a.client a.id a.frame w a.promise x.registered a.response v
          x.encoded in
      record { registered = s.other_entries b.client b.id n ∙ y.registered; encoded = y.encoded }

  steps_commute :
      (w : World) (a b : Answer)
      → IsConsistent w
      → Answers w a
      → Answers w b
      → Apart a b
      → step codec (step codec w (received a)) (received b)
        ≡ step codec (step codec w (received b)) (received a)
  unfolding step
  steps_commute w a b v x y n =
      responses_commute codec good a.client b.client a.id b.id a.promise b.promise a.frame b.frame
        a.response b.response w v x.registered y.registered n x.encoded y.encoded

  -- What is registered stays so behind the first response.
  still_Answers :
      (w : World) (a : Answer) (as' : List Answer)
      → IsConsistent w
      → Answers w a
      → All (Apart a) as'
      → All (Answers w) as'
      → All (Answers (step codec w (received a))) as'
  still_Answers w a [] v x n xs = tt
  still_Answers w a (b ∷ as') v x (m, n) (y, xs) =
      (step-Answers w a b v x m y, still_Answers w a as' v x n xs)

  permuted :
      {as' bs : List Answer}
      → Permᴰ as' bs
      → (w : World) → IsConsistent w
      → All (Answers w) as'
      → AllApart as'
      → run codec w (map received as') ≡ run codec w (map received bs)
  unfolding run
  permuted Permᴰ.nil w v x n = refl
  permuted (Permᴰ.cons {a = a} {l₁ = as'} {l₂ = bs} e d) w v (x, xs) (n, ns) =
      permuted d (step codec w (received a)) (step-IsConsistent codec w (received a) v)
        (still_Answers w a as' v x n xs) ns
      ∙ ap (λ c. run codec (step codec w (received c)) (map received bs)) e
  permuted (Permᴰ.swap {a = a} {b = b} {a' = b'} {l = l} e f) w v (x, (y, xs)) ((m, n), ns) =
      ap (λ w. run codec w (map received l)) (steps_commute w a b v x y m)
      ∙ ap (λ c. run codec (step codec (step codec w (received c)) (received a)) (map received l)) f
      ∙ ap (λ c. run codec (step codec (step codec w (received b')) (received c)) (map received l))
          e
  permuted (Permᴰ.trans d e) w v x n =
      permuted d w v x n ∙ permuted e w v (All-Permᴰ (Answers w) d x) (AllApart-Permᴰ d n)

  -- In a consistent state, and if the codec loses nothing, the responses to any number of different
  -- registered requests may arrive in any order: the clients and the promises end up the same.
  pub responses_permute :
      (w : World) (as' bs : List Answer)
      → IsConsistent w
      → All (Answers w) as'
      → AllApart as'
      → Permᴰ as' bs
      → run codec w (map received as') ≡ run codec w (map received bs)
  responses_permute w as' bs v x n d = permuted d w v x n
