-- ===== src/Dht/Loop.antt =====
-- The loop of `conductorCellsDhtSync`: when it ends, how, and what its end means.
use try_o_rama.Prelude.{
  ℕ, suc, ◌+◌, ◌-◌, ◌*◌, ◌≤◌, ◌<◌, ◌≡◌, ◌↔◌, refl, sym, ap, ◌∙◌, subst, List, Bool, true, false,
  arith, Bool-cases, inl, inr, Option, some, ◌⊎◌,
}
use try_o_rama.Js.Exn.{Exn, Result, Result-cases, ok, err, sync_timeout}
use try_o_rama.Dht.{
  DhtOp, Library, DnaHash, ConductorCell, DhtPlayer, is_conductor_cell_dna_hash_equal,
  are_conductor_cells_dhts_synced, timed_out, timeout_value, sync_loop, conductor_cells_dht_sync,
  dht_sync, players_to_conductor_cells,
}
use try_o_rama.Dht.Agreement.{players_hash_equal}

-- The test for the timeout, in nanoseconds.
pub timed_out_iff :
    (t elapsed : ℕ) → (timed_out (some t) elapsed ≡ true) ↔ ((0 < t) × (t * 1000 ≤ elapsed))
unfolding timed_out
timed_out_iff t elapsed = (λ h. ground arith, λ h. ground arith)

module _ (l : Library) (start : ℕ) (now : ℕ → ℕ) (dump : ℕ → ConductorCell → Result (List DhtOp))
    (cells : List ConductorCell) (timeout : Option ℕ) where
  abbrev loop : ℕ → ℕ → Option (Result (Unit {0}))
  loop = sync_loop l start now dump cells timeout

  abbrev pub synced : ℕ → Result Bool
  synced n = are_conductor_cells_dhts_synced l (dump n) cells

  abbrev pub expired : ℕ → Bool
  expired n = timed_out timeout (now n - start)

  -- In the rounds from `n` up to `n + k` no timeout has passed and the states disagree.
  abbrev pub Unsettled : ℕ → ℕ → Type 0
  Unsettled n ℕ.zero = Unit
  Unsettled n (ℕ.suc k) = (expired n ≡ false) × (synced n ≡ ok false) × Unsettled (suc n) k

  -- How round `n` ends the loop, with the result `r`.
  pub data Ends (n : ℕ) (r : Result (Unit {0})) : Type 0 where
    expires : expired n ≡ true → r ≡ err (sync_timeout (timeout_value timeout)) → Ends n r
    agrees : expired n ≡ false → synced n ≡ ok true → r ≡ ok tt → Ends n r
    fails : (e : Exn) → expired n ≡ false → synced n ≡ err e → r ≡ err e → Ends n r

  loop-Ends : (n fuel : ℕ) (r : Result (Unit {0})) → Ends n r → loop (suc fuel) n ≡ some r
  unfolding sync_loop
  loop-Ends n fuel r (expires x e) = ground arith
  loop-Ends n fuel r (agrees x a e) = ground arith
  loop-Ends n fuel r (fails y x a e) = ground arith

  loop-Unsettled :
      (n fuel : ℕ) → expired n ≡ false → synced n ≡ ok false → loop (suc fuel) n ≡ loop fuel (suc n)
  unfolding sync_loop
  loop-Unsettled n fuel x a = ground arith

  loop_result :
      (k n fuel : ℕ) (r : Result (Unit {0}))
      → Unsettled n k
      → Ends (k + n) r
      → k < fuel
      → loop fuel n ≡ some r
  loop_result k n ℕ.zero r u e h = absurd (omega arith)
  loop_result ℕ.zero n (ℕ.suc fuel) r u e h =
      loop-Ends n fuel r (subst (λ m. Ends m r) (omega arith) e)
  loop_result (ℕ.suc k) n (ℕ.suc fuel) r (x, a, u) e h =
      loop-Unsettled n fuel x a
      ∙ loop_result k (suc n) fuel r u (subst (λ m. Ends m r) (omega arith) e) (omega arith)

  -- A round that does not end the loop.
  round :
      (n : ℕ) → ((expired n ≡ false) × (synced n ≡ ok false)) ⊎ ((r : Result (Unit {0})) × Ends n r)
  round n = elim (Bool-cases (expired n)) [
    | inl x ↦ inr (err (sync_timeout (timeout_value timeout)), expires x refl)
    | inr x ↦ elim (Result-cases (synced n)) [
      | inr (e, a) ↦ inr (err e, fails e x a refl)
      | inl (b, a) ↦ elim (Bool-cases b) [
        | inl c ↦ inr (ok tt, agrees x (a ∙ ap ok c) refl)
        | inr c ↦ inl (x, a ∙ ap ok c)
      ]
    ]
  ]

  loop_sound :
      (fuel n : ℕ) (r : Result (Unit {0}))
      → loop fuel n ≡ some r
      → (k : ℕ) × Unsettled n k × Ends (k + n) r
  unfolding sync_loop
  loop_sound ℕ.zero n r h = cc
  loop_sound (ℕ.suc fuel) n r h = elim (round n) [
    | inl (x, a) ↦
        let (k, u, e) = loop_sound fuel (suc n) r (sym (loop-Unsettled n fuel x a) ∙ h) in
        (suc k, (x, a, u), subst (λ m. Ends m r) (omega arith) e)
    | inr (q, e) ↦
        let found : some q ≡ some r = sym (loop-Ends n fuel q e) ∙ h in
        (0, tt, subst (λ m. Ends m r) (omega arith) (subst (λ x. Ends n x) (cc) e))
  ]

  loop_expires :
      (k n fuel : ℕ)
      → expired (k + n) ≡ true
      → k < fuel
      → (r : Result (Unit {0})) × (loop fuel n ≡ some r)
  loop_expires k n ℕ.zero x h = absurd (omega arith)
  loop_expires ℕ.zero n (ℕ.suc fuel) x h =
      let due = subst (λ m. expired m ≡ true) (omega arith) x in
      (err (sync_timeout (timeout_value timeout)), loop-Ends n fuel _ (expires due refl))
  loop_expires (ℕ.suc k) n (ℕ.suc fuel) x h = elim (round n) [
    | inr (r, e) ↦ (r, loop-Ends n fuel r e)
    | inl (y, a) ↦
        let (r, e) =
          loop_expires k (suc n) fuel (subst (λ m. expired m ≡ true) (omega arith) x)
            (omega arith) in
        (r, loop-Unsettled n fuel y a ∙ e)
  ]

  module _ (same : is_conductor_cell_dna_hash_equal cells ≡ true) where
    sync-eq-loop :
        (fuel : ℕ) → conductor_cells_dht_sync l start now dump cells timeout fuel ≡ loop fuel 0
    unfolding conductor_cells_dht_sync
    sync-eq-loop fuel = rw same

    -- For cells of one DNA hash: if the states disagree and no timeout passes in the first `k`
    -- rounds, and round `k` ends the waiting with the result `r` (it is past the timeout, or the
    -- states agree, or a dump throws), then with more than `k` rounds `r` is what comes out.
    pub sync_result :
        (k fuel : ℕ) (r : Result (Unit {0}))
        → Unsettled 0 k
        → Ends k r
        → k < fuel
        → conductor_cells_dht_sync l start now dump cells timeout fuel ≡ some r
    sync_result k fuel r u e h =
        sync-eq-loop fuel ∙ loop_result k 0 fuel r u (subst (λ m. Ends m r) (omega arith) e) h

    -- For cells of one DNA hash: whatever comes out is the result of the first round that ends the
    -- waiting. So a normal end means that in that round the states agreed.
    pub sync_sound :
        (fuel : ℕ) (r : Result (Unit {0}))
        → conductor_cells_dht_sync l start now dump cells timeout fuel ≡ some r
        → (k : ℕ) × Unsettled 0 k × Ends k r
    sync_sound fuel r h =
        let (k, u, e) = loop_sound fuel 0 r (sym (sync-eq-loop fuel) ∙ h) in
        (k, u, subst (λ m. Ends m r) (omega arith) e)

    -- For cells of one DNA hash: the waiting ends if in some round `k` the clock is past the
    -- timeout; `k + 1` rounds are enough.
    sync_terminates :
        (k fuel : ℕ)
        → expired k ≡ true
        → k < fuel
        → (r : Result (Unit {0})) × (conductor_cells_dht_sync l start now dump cells timeout fuel
            ≡ some r)
    sync_terminates k fuel x h =
        let (r, e) = loop_expires k 0 fuel (subst (λ m. expired m ≡ true) (omega arith) x) h in
        (r, sync-eq-loop fuel ∙ e)

-- Players are always held to be of one DNA, so that waiting for them never fails for that reason:
-- it is the loop of their cells.
dht_sync-eq :
    (l : Library) (start fuel : ℕ) (now : ℕ → ℕ) (dump : ℕ → ConductorCell → Result (List DhtOp))
    (players : List DhtPlayer) (hash : DnaHash) (timeout : Option ℕ)
    → dht_sync l start now dump players hash timeout fuel
      ≡ sync_loop l start now dump (players_to_conductor_cells players hash) timeout fuel 0
unfolding dht_sync
dht_sync-eq l start fuel now dump players hash timeout =
    sync-eq-loop l start now dump (players_to_conductor_cells players hash) timeout
      (players_hash_equal players hash) fuel
