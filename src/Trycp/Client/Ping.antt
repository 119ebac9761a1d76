-- ===== src/Trycp/Client/Ping.antt =====
-- `ping` of ts/src/trycp/trycp-client.ts: the promises of a client that wait for a pong.
use native.Mathlib.Decide.{ℕ_discrete}
use try_o_rama.Prelude.{
  length-append, ◌<◌, ◌+◌, sym, subst, ℕ, suc, ◌≡◌, ◌≢◌, refl, ap, ◌∙◌, List, [], ◌∷◌, ◌++◌, some,
  length, get_elem?, get_elem?-append_left, get_elem?-append_last, arith, inl, inr, ◌⊎◌,
}
use try_o_rama.Js.Value.{Value, Bytes, bin}
use try_o_rama.Trycp.Client.{Promise, pending, resolved, rejected, settle}
use try_o_rama.Trycp.Client.Invariant.{get_elem?-settle, get_elem?-settle_ne}

-- The promises that pings returned, the listeners for the event "pong", each by its promise, and the
-- bytes sent, the last first.
pub record Pings : Type 0 where
  pub promises : List Promise
  pub listeners : List ℕ
  pub sent : List Value

unfoldable pub ping : Value → Pings → ℕ × Pings
ping payload s = (
  length s.promises,
  record {
    promises = s.promises ++ pending ∷ [];
    listeners = s.listeners ++ length s.promises ∷ [];
    sent = payload ∷ s.sent;
  },
)

unfoldable pub settle_all : List ℕ → Promise → List Promise → List Promise
unfolding settle
settle_all [] s ps = ps
settle_all (i ∷ is) s ps = settle_all is s (settle i s ps)

-- A pong calls every listener, and a listener that `once` has added is called once.
unfoldable pub on_pong : Bytes → Pings → Pings
unfolding settle_all
on_pong bytes s = record {
  promises = settle_all s.listeners (resolved (bin bytes)) s.promises;
  listeners = [];
  sent = s.sent;
}

-- Some pings, one after the other.
unfoldable pub ping_all : List Value → Pings → Pings
unfolding ping
ping_all [] s = s
ping_all (d ∷ ds) s = ping_all ds (ping d s).1

abbrev pub no_pings : Pings
no_pings = record { promises = []; listeners = []; sent = [] }

-- A promise is one of those listed.
abbrev Among : ℕ → List ℕ → Type 0
Among p [] = ⊥
Among p (i ∷ is) = (i ≡ p) ⊎ Among p is

Among-append : (p : ℕ) (is js : List ℕ) → Among p is ⊎ Among p js → Among p (is ++ js)
Among-append p [] js (inl a) = absurd a
Among-append p [] js (inr b) = b
Among-append p (i ∷ is) js (inl (inl e)) = inl e
Among-append p (i ∷ is) js (inl (inr a)) = inr (Among-append p is js (inl a))
Among-append p (i ∷ is) js (inr b) = inr (Among-append p is js (inr b))

-- So many pings, each waiting for a pong.
record IsWaiting (n : ℕ) (s : Pings) : Type 0 where
  count : length s.promises ≡ n
  waits : (p : ℕ) → p < n → get_elem? s.promises p ≡ some pending
  heard : (p : ℕ) → p < n → Among p s.listeners

ping-IsWaiting : (n : ℕ) (d : Value) (s : Pings) → IsWaiting n s → IsWaiting (suc n) (ping d s).1
unfolding ping
ping-IsWaiting n d s v = record {
  count = omega (arith, v.count, length-append s.promises (pending ∷ []));
  waits = λ p h. elim (≤-cases p h) [
    | inl le ↦ get_elem?-append_left s.promises (pending ∷ []) p (v.waits p le)
    | inr e ↦
        ap (get_elem? (s.promises ++ pending ∷ [])) (e ∙ sym v.count)
        ∙ get_elem?-append_last s.promises pending
  ];
  heard = λ p h. elim (≤-cases p h) [
    | inl le ↦ Among-append p s.listeners _ (inl (v.heard p le))
    | inr e ↦ Among-append p s.listeners _ (inr (inl (v.count ∙ sym e)))
  ];
}
  where
    ≤-cases : (p : ℕ) → p < suc n → (p < n) ⊎ (p ≡ n)
    ≤-cases p h = elim (ℕ_discrete p n) [ yes e ↦ inr e | no ne ↦ inl (omega arith) ]

ping_all-IsWaiting :
    (ds : List Value) (n : ℕ) (s : Pings)
    → IsWaiting n s
    → IsWaiting (length ds + n) (ping_all ds s)
unfolding ping_all
ping_all-IsWaiting [] n s v = subst (λ m. IsWaiting m s) (omega arith) v
ping_all-IsWaiting (d ∷ ds) n s v =
    subst (λ m. IsWaiting m (ping_all ds (ping d s).1)) (omega arith)
      (ping_all-IsWaiting ds (suc n) (ping d s).1 (ping-IsWaiting n d s v))

settle_keeps :
    (ps : List Promise) (i p : ℕ) (s : Promise) (v : Value)
    → get_elem? ps p ≡ some (resolved v)
    → get_elem? (settle i s ps) p ≡ some (resolved v)
unfolding settle
settle_keeps [] i p s v h = h
settle_keeps (pending ∷ ps) ℕ.zero ℕ.zero s v h = absurd cc
settle_keeps (resolved u ∷ ps) ℕ.zero ℕ.zero s v h = h
settle_keeps (rejected e ∷ ps) ℕ.zero ℕ.zero s v h = h
settle_keeps (pending ∷ ps) ℕ.zero (suc p) s v h = h
settle_keeps (resolved u ∷ ps) ℕ.zero (suc p) s v h = h
settle_keeps (rejected e ∷ ps) ℕ.zero (suc p) s v h = h
settle_keeps (q ∷ ps) (suc i) ℕ.zero s v h = h
settle_keeps (q ∷ ps) (suc i) (suc p) s v h = settle_keeps ps i p s v h

settle_all_keeps :
    (is : List ℕ) (ps : List Promise) (p : ℕ) (s : Promise) (v : Value)
    → get_elem? ps p ≡ some (resolved v)
    → get_elem? (settle_all is s ps) p ≡ some (resolved v)
unfolding settle_all
settle_all_keeps [] ps p s v h = h
settle_all_keeps (i ∷ is) ps p s v h =
    settle_all_keeps is (settle i s ps) p s v (settle_keeps ps i p s v h)

settle_all-settles :
    (is : List ℕ) (ps : List Promise) (p : ℕ) (v : Value)
    → Among p is
    → get_elem? ps p ≡ some pending
    → get_elem? (settle_all is (resolved v) ps) p ≡ some (resolved v)
unfolding settle_all
settle_all-settles [] ps p v a h = absurd a
settle_all-settles (i ∷ is) ps p v a h = elim (ℕ_discrete i p) [
  | yes e ↦
      settle_all_keeps is (settle i (resolved v) ps) p (resolved v) v
        (ap (λ j. get_elem? (settle j (resolved v) ps) p) e ∙ get_elem?-settle ps p (resolved v) h)
  | no ne ↦
      settle_all-settles is (settle i (resolved v) ps) p v (later a ne)
        (get_elem?-settle_ne ps i p (resolved v) (λ e. ne (sym e)) ∙ h)
]
  where
    later : Among p (i ∷ is) → (i ≢ p) → Among p is
    later (inl e) ne = absurd (ne e)
    later (inr b) ne = b

-- If a client sends any number of pings and then receives one pong, all the pings' promises resolve
-- with the data of that one pong, and no listener is left for the pongs to the other pings.
pub on_pong-resolves_all :
    (ds : List Value) (bytes : Bytes) (p : ℕ)
    → p < length ds
    → (get_elem? (on_pong bytes (ping_all ds no_pings)).promises p ≡ some (resolved (bin bytes)))
      × ((on_pong bytes (ping_all ds no_pings)).listeners ≡ [])
unfolding on_pong
on_pong-resolves_all ds bytes p h =
    let v = ping_all-IsWaiting ds 0 no_pings none_IsWaiting in
    (
      settle_all-settles _ _ p (bin bytes) (v.heard p (omega (arith, h)))
          (v.waits p (omega (arith, h))),
      refl,
    )
  where
    none_IsWaiting : IsWaiting 0 no_pings
    none_IsWaiting = record {
      count = refl;
      waits = λ p h. absurd (omega arith);
      heard = λ p h. absurd (omega arith);
    }
