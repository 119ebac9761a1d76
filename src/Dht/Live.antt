-- ===== src/Dht/Live.antt =====
-- The loop of `conductorCellsDhtSync` (ts/src/util.ts) with its clock, dumps and pauses as actions, and
-- the time that they take.
pub mod Refinement
use try_o_rama.Prelude.{
  ℕ, suc, ◌+◌, ◌-◌, ◌*◌, ◌≤◌, ◌<◌, ◌≡◌, refl, ap, sym, subst, ◌∙◌, inl, inr, List, Bool, true,
  false, Bool-cases, if_intro, Option, none, some, map, arith, if◌then◌else◌,
}
use try_o_rama.Js.Exn.{Exn, Result, ok, err, error, sync_timeout}
use try_o_rama.Js.Action.{Action, pure, throw, ◌>>=◌, promise_all, promise_all_keeps, bind_keeps}
use try_o_rama.Dht.{
  DhtOp, Library, ConductorCell, is_conductor_cell_dna_hash_equal, sorted, all_equal, timed_out,
  timeout_value,
}
use try_o_rama.Dht.Loop.{timed_out_iff}

-- `performance.now()`, in nanoseconds, the request `dumpFullState` to the conductor of a cell with the
-- integrated operations of the answer, and the timer of `setTimeout`, which counts milliseconds.
pub record Site (W : Type 0) : Type 0 where
  pub now : W → ℕ
  pub dump_full_state : ConductorCell → Action W (List DhtOp)
  pub set_timeout : ℕ → Action W (Unit {0})

-- Requests take time, and a timer does not ring early. Neither stops the clock.
pub record IsTimed {W : Type 0} (s : Site W) : Type 0 where
  pub dump_forward : (c : ConductorCell) (w : W) → s.now w ≤ s.now (s.dump_full_state c w).1
  pub timer_rings : (ms : ℕ) (w : W) → (s.set_timeout ms w).0 ≡ ok tt
  pub timer_waits : (ms : ℕ) (w : W) → s.now w + ms * 1000000 ≤ s.now (s.set_timeout ms w).1

module _ {W : Type 0} (s : Site W) where
  unfoldable pub pause : ℕ → Action W (Unit {0})
  pause milliseconds = s.set_timeout milliseconds

module _ {W : Type 0} (s : Site W) (l : Library) (cells : List ConductorCell) where
  unfoldable pub compare_cells : Action W Bool
  compare_cells =
      if is_conductor_cell_dna_hash_equal cells
      then (promise_all s.dump_full_state cells >>= λ states.
          pure (all_equal l (map (sorted l) states)))
      else throw (error "Cannot compare DHT state of different DNAs")

  module _ (start interval : ℕ) (timeout : Option ℕ) where
    -- How a round that did not time out goes on, with the rounds after it.
    abbrev pub settle_round :
        Result Bool × W → (W → Option (Result (Unit {0}) × W)) → Option (Result (Unit {0}) × W)
    settle_round (err e, w) again = some (err e, w)
    settle_round (ok true, w) again = some (ok tt, w)
    settle_round (ok false, w) again = again w

    abbrev pub after_pause :
        Result (Unit {0}) × W
        → (W → Option (Result (Unit {0}) × W))
        → Option (Result (Unit {0}) × W)
    after_pause (err e, w) again = some (err e, w)
    after_pause (ok u, w) again = again w

    -- At most `fuel` rounds; `none` if more are needed.
    unfoldable pub wait_loop : ℕ → W → Option (Result (Unit {0}) × W)
    unfolding compare_cells pause
    wait_loop ℕ.zero w = none
    wait_loop (suc fuel) w =
        if timed_out timeout (s.now w - start)
        then some (err (sync_timeout (timeout_value timeout)), w)
        else settle_round (compare_cells w) (λ v. after_pause (pause s interval v) (wait_loop fuel))

    -- How the waiting has ended, in a last round that started at `v`.
    pub data Ended : Result (Unit {0}) → W → Type 0 where
      expired :
          (v : W)
          → timed_out timeout (s.now v - start) ≡ true
          → Ended (err (sync_timeout (timeout_value timeout))) v
      agreed : (v w : W) → compare_cells v ≡ (ok true, w) → Ended (ok tt) w
      failed : (v w : W) (e : Exn) → compare_cells v ≡ (err e, w) → Ended (err e) w

  -- `conductorCellsDhtSync`
  unfoldable pub wait_for_sync : ℕ → Option ℕ → ℕ → W → Option (Result (Unit {0}) × W)
  unfolding wait_loop
  wait_for_sync interval timeout fuel w =
      if is_conductor_cell_dna_hash_equal cells
      then wait_loop (s.now w) interval timeout fuel w
      else some (err (error "Cannot compare DHT state of different DNAs"), w)

module _ {W : Type 0} (s : Site W) (timed : IsTimed s) (l : Library)
    (cells : List ConductorCell) where
  dumps_forward :
      (t : ℕ) (w : W) → t ≤ s.now w → t ≤ s.now (promise_all s.dump_full_state cells w).1
  dumps_forward t =
      promise_all_keeps (λ w. t ≤ s.now w) s.dump_full_state
        (λ c w h. omega (arith, timed.dump_forward c w)) cells

  compare_forward : (w : W) → s.now w ≤ s.now (compare_cells s l cells w).1
  unfolding compare_cells
  compare_forward w =
      if_intro {A = Action W Bool} (λ m. s.now w ≤ s.now (m w).1)
        (is_conductor_cell_dna_hash_equal cells)
        (λ e.
          bind_keeps (λ v. s.now w ≤ s.now v) (promise_all s.dump_full_state cells)
            (λ states. pure (all_equal l (map (sorted l) states))) w
            (dumps_forward (s.now w) w (omega arith)) (λ states v p. p))
        (λ e. omega arith)

  after_pause-eq :
      (start interval : ℕ) (timeout : Option ℕ) (v : W) (again : W → Option (Result (Unit {0}) × W))
      → after_pause s l cells start interval timeout (pause s interval v) again
        ≡ again (pause s interval v).1
  unfolding pause
  after_pause-eq start interval timeout v again = ground (arith, timed.timer_rings interval v)

  module _ (start interval t : ℕ) (h : 0 < t) (i : 0 < interval) where
    abbrev Ends : Option (Result (Unit {0}) × W) → Type 0
    Ends o =
        (r : Result (Unit {0})) × (w : W) × (o ≡ some (r, w))
        × Ended s l cells start interval (some t) r w

    settle_round-Ends :
        (w : W) (x : Result Bool × W)
        → compare_cells s l cells w ≡ x
        → (again : W → Option (Result (Unit {0}) × W)) → ((v : W) → x.1 ≡ v → Ends (again v))
        → Ends (settle_round s l cells start interval (some t) x again)
    settle_round-Ends w (err e, v) c again k = (err e, v, refl, failed w v e c)
    settle_round-Ends w (ok true, v) c again k = (ok tt, v, refl, agreed w v c)
    settle_round-Ends w (ok false, v) c again k = k v refl

    -- The state of the next round.
    abbrev next : W → W
    next w = (pause s interval (compare_cells s l cells w).1).1

    next_later : (w : W) → s.now w + 1000000 ≤ s.now (next w)
    unfolding pause
    next_later w =
        omega
          (arith, compare_forward w, i, timed.timer_waits interval (compare_cells s l cells w).1)

    expired-eq :
        (n : ℕ) (w : W)
        → t ≤ n
        → start + n * 1000000 ≤ s.now w
        → timed_out (some t) (s.now w - start) ≡ true
    expired-eq n w f g = (timed_out_iff t (s.now w - start)).1 (h, omega (arith, f, g))

    abbrev rounds : ℕ → W → Option (Result (Unit {0}) × W)
    rounds = wait_loop s l cells start interval (some t)

    -- Round `n` starts after `n` pauses at least.
    wait_loop-Ends :
        (fuel n : ℕ) (w : W)
        → t ≤ fuel + n
        → start + n * 1000000 ≤ s.now w
        → Ends (wait_loop s l cells start interval (some t) (suc fuel) w)
    unfolding wait_loop
    wait_loop-Ends ℕ.zero n w f g =
        let e = expired-eq n w (omega (arith, f)) g in
        rw (e, wait_loop) (err (sync_timeout t), w, refl, expired w e)
    wait_loop-Ends (suc fuel) n w f g = elim (Bool-cases (timed_out (some t) (s.now w - start))) [
      | inl e ↦ rw (e, wait_loop) (err (sync_timeout t), w, refl, expired w e)
      | inr e ↦
          rw (e, wait_loop)
            (settle_round-Ends w (compare_cells s l cells w) refl _ (λ v q.
              subst Ends (sym (after_pause-eq start interval (some t) v (rounds (suc fuel)))) (
                subst (λ v. Ends (rounds (suc fuel) (pause s interval v).1)) q
                  (wait_loop-Ends fuel (suc n) (next w) (omega (arith, f))
                    (omega (arith, g, next_later w))))))
    ]

  wait_for_sync-eq :
      (interval t : ℕ) (w : W)
      → is_conductor_cell_dna_hash_equal cells ≡ true
      → wait_for_sync s l cells interval (some t) (suc t) w
        ≡ wait_loop s l cells (s.now w) interval (some t) (suc t) w
  unfolding wait_for_sync
  wait_for_sync-eq interval t w e =
      ap
        (λ b.
          if b
          then wait_loop s l cells (s.now w) interval (some t) (suc t) w
          else some (err (error "Cannot compare DHT state of different DNAs"), w))
        e

  -- If requests do not turn the clock back and no timer rings early, then with a positive timeout of
  -- `t` and a positive interval the waiting for cells of one DNA hash ends within `t + 1` rounds,
  -- whatever the dumps are: with the timeout's error in a round that finds the timeout passed, or it
  -- returns after a round in which the dumps agree, or it comes to what a failed dump comes to.
  pub wait_for_sync-Ends :
      (interval t : ℕ) (w : W)
      → 0 < t
      → 0 < interval
      → is_conductor_cell_dna_hash_equal cells ≡ true
      → (r : Result (Unit {0})) × (v : W) × (wait_for_sync s l cells interval (some t) (suc t) w
          ≡ some (r, v))
        × Ended s l cells (s.now w) interval (some t) r v
  wait_for_sync-Ends interval t w h i e =
      let (r, v, eq, end) =
        wait_loop-Ends (s.now w) interval t h i t 0 w (omega arith) (omega arith) in
      (r, v, wait_for_sync-eq interval t w e ∙ eq, end)
