-- ===== src/Common/Peers.antt =====
-- `addAllAgentsToAllConductors`: every conductor is told of the agents of all the others.
use native.Mathlib.Decide.{ℕ_discrete}
use try_o_rama.Prelude.{
  ℕ, suc, ◌≡◌, ◌≢◌, sym, ap, subst, ◌+◌, ◌*◌, ◌&&◌, ◌||◌, leb, ltb, inl, inr, Bool, true, false,
  not, List, [], ◌∷◌, ◌++◌, ◌==◌, if◌then◌else◌, arith, length,
}
use try_o_rama.Js.Value.{Value}
use try_o_rama.Js.Exn.{Result, Result-cases, ok, err}
use try_o_rama.Js.Action.{Action, promise_all}

-- A request `addAgentInfo` that was sent: to which conductor, about which one, and with what.
pub record Told : Type 0 where
  pub to : ℕ
  pub about : ℕ
  pub infos : Value

-- The positions of the conductors in the list, from `n` on.
unfoldable pub positions : {C : Type 0} → ℕ → List C → List ℕ
positions n [] = []
positions n (c ∷ cs) = n ∷ positions (suc n) cs

abbrev pub is_ok : {A : Type 0} → Result A → Bool
is_ok (ok a) = true
is_ok (err e) = false

-- `admin_ws` is what `adminWs()` of the conductor at a position gives.
module _ (admin_ws : ℕ → Result (Unit {0})) where
  -- What is sent about the conductor at `about`, to the conductors at `tos`. The exception of an
  -- `adminWs()` rejects the promise of that one conductor; the others are told all the same. The
  -- promises of `addAgentInfo` are not awaited, so what becomes of them is not seen.
  unfoldable pub tell : ℕ → Value → List ℕ → List Told
  tell about infos [] = []
  tell about infos (to ∷ tos) =
      let rest = tell about infos tos in
      if (about == to) || not (is_ok (admin_ws to))
      then rest
      else record { to = to; about = about; infos = infos } ∷ rest

  -- The inner `Promise.all`: the first exception of an `adminWs()`.
  unfoldable pub told_all : ℕ → List ℕ → Result (Unit {0})
  told_all about [] = ok tt
  told_all about (to ∷ tos) =
      let rest = told_all about tos in
      if about == to then rest else elim (admin_ws to) [ err e ↦ err e | ok u ↦ rest ]

-- `agent_info` is what the conductor at a position answers to `agentInfo`.
module _ (admin_ws : ℕ → Result (Unit {0})) (agent_info : ℕ → Result Value) where
  unfoldable pub share_agent : List ℕ → ℕ → Action (List Told) (Unit {0})
  unfolding tell told_all
  share_agent all about sent = elim (agent_info about) [
    | err e ↦ (err e, sent)
    | ok infos ↦ (told_all admin_ws about all, sent ++ tell admin_ws about infos all)
  ]

  -- The result is that of the outer `Promise.all`.
  unfoldable pub add_all_agents_to_all_conductors :
      {C : Type 0} → List C → Action (List Told) (List (Unit {0}))
  unfolding share_agent
  add_all_agents_to_all_conductors conductors =
      promise_all (share_agent (positions 0 conductors)) (positions 0 conductors)

-- How often the conductor `i` was told of the agents of `j`.
pub count_told : ℕ → ℕ → List Told → ℕ
count_told i j [] = 0
count_told i j (t ∷ ts) =
    let rest = count_told i j ts in if (t.to == i) && (t.about == j) then suc rest else rest

occurrences : ℕ → List ℕ → ℕ
occurrences i [] = 0
occurrences i (n ∷ ns) = let rest = occurrences i ns in if n == i then suc rest else rest

count_told-append :
    (i j : ℕ) (ts us : List Told)
    → count_told i j (ts ++ us) ≡ count_told i j ts + count_told i j us
unfolding count_told
count_told-append i j [] us = omega arith
count_told-append i j (t ∷ ts) us = ground (arith, count_told-append i j ts us)

occurrences_self : (j : ℕ) (ns : List ℕ) → occurrences j (j ∷ ns) ≡ suc (occurrences j ns)
unfolding occurrences
occurrences_self j ns = ground arith

occurrences_other :
    (j : ℕ) {a : ℕ} (ns : List ℕ) → a ≢ j → occurrences j (a ∷ ns) ≡ occurrences j ns
unfolding occurrences
occurrences_other j ns ne = ground arith

-- A request to one conductor.
count_told-tell_cons :
    (admin_ws : ℕ → Result (Unit {0})) (i j about : ℕ) (infos : Value) (to : ℕ) (tos : List ℕ)
    → count_told i j (tell admin_ws about infos tos)
      ≡ (if (about == j) && not (i == j) && is_ok (admin_ws i) then occurrences i tos else 0)
    → Dec (to ≡ i)
    → count_told i j (tell admin_ws about infos (to ∷ tos))
      ≡ (if (about == j) && not (i == j) && is_ok (admin_ws i) then occurrences i (to ∷ tos) else 0)
unfolding count_told tell occurrences
count_told-tell_cons admin_ws i j about infos to tos ih (yes e) =
    subst
      (λ x. count_told i j (tell admin_ws about infos (x ∷ tos)) ≡ (
        if (about == j) && not (i == j) && is_ok (admin_ws i) then occurrences i (x ∷ tos) else 0))
      (sym e) (ground arith)
count_told-tell_cons admin_ws i j about infos to tos ih (no ne) = ground arith

count_told-tell :
    (admin_ws : ℕ → Result (Unit {0})) (i j about : ℕ) (infos : Value) (tos : List ℕ)
    → count_told i j (tell admin_ws about infos tos)
      ≡ (if (about == j) && not (i == j) && is_ok (admin_ws i) then occurrences i tos else 0)
unfolding count_told tell occurrences
count_told-tell admin_ws i j about infos [] = ground arith
count_told-tell admin_ws i j about infos (to ∷ tos) =
    count_told-tell_cons admin_ws i j about infos to tos
      (count_told-tell admin_ws i j about infos tos) (ℕ_discrete to i)

occurrences-positions :
    {C : Type 0} (i n : ℕ) (cs : List C)
    → occurrences i (positions n cs) ≡ (if leb n i && ltb i (n + length cs) then 1 else 0)
unfolding occurrences positions
occurrences-positions i n [] = ground arith
occurrences-positions i n (c ∷ cs) = ground (arith, occurrences-positions i (suc n) cs)

pub suc-mul : (m t : ℕ) → suc m * t ≡ t + m * t
suc-mul m t = omega arith

add_step : (x y z m n t : ℕ) → x ≡ y + m * t → y ≡ z + t → n ≡ suc m → x ≡ z + n * t
add_step x y z m n t h k l = omega (arith, ap (λ i. i * t) l, suc-mul m t)

add_same : {x y z m n : ℕ} (t : ℕ) → x ≡ y + m * t → y ≡ z → n ≡ m → x ≡ z + n * t
add_same t h k l = omega (arith, ap (λ i. i * t) l)

module _ (admin_ws : ℕ → Result (Unit {0})) (agent_info : ℕ → Result Value) (i j : ℕ) where
  -- How often the round of `j` tells `i`.
  abbrev told_in_round : List ℕ → ℕ
  told_in_round all =
      if not (i == j) && is_ok (admin_ws i) && is_ok (agent_info j) then occurrences i all else 0

  share_agent_other :
      (all : List ℕ) (about : ℕ) (sent : List Told)
      → about ≢ j
      → count_told i j (share_agent admin_ws agent_info all about sent).1 ≡ count_told i j sent
  unfolding share_agent
  share_agent_other all about sent ne = elim (Result-cases (agent_info about)) [
    | inl (infos, e) ↦ ground (
      arith,
      count_told-append i j sent (tell admin_ws about infos all),
      count_told-tell admin_ws i j about infos all,
    )
    | inr (x, e) ↦ ground arith
  ]

  share_agent_self :
      (all : List ℕ) (sent : List Told)
      → count_told i j (share_agent admin_ws agent_info all j sent).1
        ≡ count_told i j sent + told_in_round all
  unfolding share_agent
  share_agent_self all sent = elim (Result-cases (agent_info j)) [
    | inl (infos, e) ↦ ground (
      arith,
      count_told-append i j sent (tell admin_ws j infos all),
      count_told-tell admin_ws i j j infos all,
    )
    | inr (x, e) ↦ ground arith
  ]

  -- What `rounds` says of a list, and its step for one head.
  abbrev Counts : List ℕ → List ℕ → Type 0
  Counts all abouts =
      (sent : List Told)
      → count_told i j (promise_all (share_agent admin_ws agent_info all) abouts sent).1
        ≡ count_told i j sent + occurrences j abouts * told_in_round all

  rounds-cons :
      (all : List ℕ) (a : ℕ) (abouts : List ℕ) → Counts all abouts → Counts all (a ∷ abouts)
  unfolding promise_all
  rounds-cons all a abouts ih sent =
      let t = told_in_round all in
      elim (ℕ_discrete a j) [
        | yes e ↦
            subst
              (λ x.
                count_told i j
                  (promise_all (share_agent admin_ws agent_info all) (x ∷ abouts) sent).1
                ≡ count_told i j sent + occurrences j (x ∷ abouts) * t)
              (sym e)
              (add_step _ _ _ _ _ t (ih (share_agent admin_ws agent_info all j sent).1)
                (share_agent_self all sent) (occurrences_self j abouts))
        | no ne ↦
            add_same t (ih (share_agent admin_ws agent_info all a sent).1)
              (share_agent_other all a sent ne) (occurrences_other j abouts ne)
      ]

  rounds :
      (all abouts : List ℕ) (sent : List Told)
      → count_told i j (promise_all (share_agent admin_ws agent_info all) abouts sent).1
        ≡ count_told i j sent + occurrences j abouts * told_in_round all
  unfolding promise_all occurrences
  rounds all [] sent = omega arith
  rounds all (a ∷ abouts) sent = rounds-cons all a abouts (rounds all abouts) sent

-- When n conductors exchange their agents, the conductor i is told of the agents of the conductor
-- j exactly once if both are among the n, are not the same, i has an admin websocket, and j answers
-- what its agents are, and never otherwise.
pub add_all_agents_to_all_conductors-count :
    {C : Type 0} (admin_ws : ℕ → Result (Unit {0})) (agent_info : ℕ → Result Value)
    (conductors : List C) (i j : ℕ)
    → count_told i j (add_all_agents_to_all_conductors admin_ws agent_info conductors []).1 ≡ (
        if ltb i (length conductors)
          && ltb j (length conductors)
          && not (i == j)
          && is_ok (admin_ws i)
          && is_ok (agent_info j)
        then 1
        else 0)
unfolding add_all_agents_to_all_conductors count_told
add_all_agents_to_all_conductors-count admin_ws agent_info conductors i j = ground (
  arith,
  rounds admin_ws agent_info i j (positions 0 conductors) (positions 0 conductors) [],
  occurrences-positions i 0 conductors,
  occurrences-positions j 0 conductors,
)
