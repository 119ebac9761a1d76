-- ===== src/Dht/Live/Refinement.antt =====
-- The waiting for DHTs at two sites that behave alike.
use try_o_rama.Prelude.{
  ℕ, suc, ◌-◌, ◌≡◌, refl, subst, ◌⊎◌, inl, inr, Bool, true, false, Option, none, some, List, map,
  if◌then◌else◌,
}
use try_o_rama.Js.Exn.{Result, ok, err, error, sync_timeout}
use try_o_rama.Js.Action.{pure, throw, ◌>>=◌, promise_all}
use try_o_rama.Js.Refines.{
  Alike, Refines, bind-Refines, pure-Refines, throw-Refines, promise_all-Refines,
}
use try_o_rama.Dht.{
  Library, ConductorCell, is_conductor_cell_dna_hash_equal, sorted, all_equal, timed_out,
  timeout_value,
}
use try_o_rama.Dht.Live.{
  Site, pause, compare_cells, settle_round, after_pause, wait_loop, wait_for_sync,
}

pub record SiteRefines {V W : Type 0} (R : V → W → Type 0) (Failure : Type 0) (s : Site V)
    (t : Site W) : Type 0 where
  pub now : (v : V) (w : W) → R v w → s.now v ≡ t.now w
  pub dump_full_state :
      (c : ConductorCell) → Refines R Failure (s.dump_full_state c) (t.dump_full_state c)
  pub set_timeout : (ms : ℕ) → Refines R Failure (s.set_timeout ms) (t.set_timeout ms)

-- Both have ended alike, or neither has ended.
abbrev pub EndAlike :
    {V W A : Type 0} → (V → W → Type 0) → Option (Result A × V) → Option (Result A × W) → Type 0
EndAlike R none none = Unit
EndAlike R none (some y) = ⊥
EndAlike R (some x) none = ⊥
EndAlike R (some x) (some y) = Alike R x y

module _ {V W : Type 0} {R : V → W → Type 0} {Failure : Type 0} {s : Site V} {t : Site W}
    (h : SiteRefines R Failure s t) (l : Library) (cells : List ConductorCell) where
  compared-Refines :
      (b : Bool)
      → Refines R Failure
          (if b
            then (promise_all s.dump_full_state cells >>= λ states.
                pure (all_equal l (map (sorted l) states)))
            else throw (error "Cannot compare DHT state of different DNAs"))
          (if b
            then (promise_all t.dump_full_state cells >>= λ states.
                pure (all_equal l (map (sorted l) states)))
            else throw (error "Cannot compare DHT state of different DNAs"))
  compared-Refines true =
      bind-Refines (promise_all-Refines cells h.dump_full_state) (λ states. pure-Refines _)
  compared-Refines false = throw-Refines _

  compare_cells-Refines : Refines R Failure (compare_cells s l cells) (compare_cells t l cells)
  unfolding compare_cells
  compare_cells-Refines = compared-Refines (is_conductor_cell_dna_hash_equal cells)

  module _ (start interval : ℕ) (timeout : Option ℕ) where
    abbrev Same : Option (Result (Unit {0}) × V) → Option (Result (Unit {0}) × W) → Type 0
    Same x y = EndAlike R x y ⊎ Failure

    after_pause-Same :
        (x : Result (Unit {0}) × V) (y : Result (Unit {0}) × W)
        → Alike R x y ⊎ Failure
        → (f : V → Option (Result (Unit {0}) × V)) (g : W → Option (Result (Unit {0}) × W))
        → ((v : V) (w : W) → R v w → Same (f v) (g w))
        → Same
            (after_pause s l cells start interval timeout x f)
            (after_pause t l cells start interval timeout y g)
    after_pause-Same x y (inr z) f g k = inr z
    after_pause-Same (ok a, v) (ok b, w) (inl (e, r)) f g k = k v w r
    after_pause-Same (ok a, v) (err b, w) (inl (e, r)) f g k = absurd cc
    after_pause-Same (err a, v) (ok b, w) (inl (e, r)) f g k = absurd cc
    after_pause-Same (err a, v) (err b, w) (inl (e, r)) f g k = inl (cc, r)

    settle_round-Same :
        (x : Result Bool × V) (y : Result Bool × W)
        → Alike R x y ⊎ Failure
        → (f : V → Option (Result (Unit {0}) × V)) (g : W → Option (Result (Unit {0}) × W))
        → ((v : V) (w : W) → R v w → Same (f v) (g w))
        → Same
            (settle_round s l cells start interval timeout x f)
            (settle_round t l cells start interval timeout y g)
    settle_round-Same x y (inr z) f g k = inr z
    settle_round-Same (ok true, v) (ok true, w) (inl (e, r)) f g k = inl (refl, r)
    settle_round-Same (ok false, v) (ok false, w) (inl (e, r)) f g k = k v w r
    settle_round-Same (ok true, v) (ok false, w) (inl (e, r)) f g k = absurd cc
    settle_round-Same (ok false, v) (ok true, w) (inl (e, r)) f g k = absurd cc
    settle_round-Same (ok a, v) (err b, w) (inl (e, r)) f g k = absurd cc
    settle_round-Same (err a, v) (ok b, w) (inl (e, r)) f g k = absurd cc
    settle_round-Same (err a, v) (err b, w) (inl (e, r)) f g k = inl (cc, r)

    -- A round, once it is known whether it times out.
    round-Same :
        (v : V) (w : W)
        → R v w
        → (b : Bool) → (x : Option (Result (Unit {0}) × V)) (y : Option (Result (Unit {0}) × W))
        → Same x y
        → Same
            (if b then some (err (sync_timeout (timeout_value timeout)), v) else x)
            (if b then some (err (sync_timeout (timeout_value timeout)), w) else y)
    round-Same v w r true x y k = inl (refl, r)
    round-Same v w r false x y k = k

    pause-Alike :
        (v : V) (w : W) → R v w → Alike R (pause s interval v) (pause t interval w) ⊎ Failure
    unfolding pause
    pause-Alike v w r = (h.set_timeout interval).refine v w r

    -- The rest of a round that does not time out.
    abbrev next_left : ℕ → V → Option (Result (Unit {0}) × V)
    next_left fuel v =
        settle_round s l cells start interval timeout (compare_cells s l cells v) (λ v.
          after_pause s l cells start interval timeout (pause s interval v)
            (wait_loop s l cells start interval timeout fuel))

    abbrev next_right : ℕ → W → Option (Result (Unit {0}) × W)
    next_right fuel w =
        settle_round t l cells start interval timeout (compare_cells t l cells w) (λ w.
          after_pause t l cells start interval timeout (pause t interval w)
            (wait_loop t l cells start interval timeout fuel))

    wait_loop-Same :
        (fuel : ℕ) (v : V) (w : W)
        → R v w
        → Same
            (wait_loop s l cells start interval timeout fuel v)
            (wait_loop t l cells start interval timeout fuel w)
    unfolding wait_loop
    wait_loop-Same ℕ.zero v w r = inl tt
    wait_loop-Same (suc fuel) v w r =
        subst
          (λ n. Same (wait_loop s l cells start interval timeout (suc fuel) v) (
            if timed_out timeout (n - start)
            then some (err (sync_timeout (timeout_value timeout)), w)
            else next_right fuel w))
          (h.now v w r)
          (round-Same v w r (timed_out timeout (s.now v - start)) (next_left fuel v)
            (next_right fuel w)
            (settle_round-Same (compare_cells s l cells v) (compare_cells t l cells w)
              (compare_cells-Refines.refine v w r) _ _
              (λ v w r.
                after_pause-Same (pause s interval v) (pause t interval w) (pause-Alike v w r) _ _
                  (wait_loop-Same fuel))))

  pub wait_for_sync-Same :
      (interval : ℕ) (timeout : Option ℕ) (fuel : ℕ) (v : V) (w : W)
      → R v w
      → EndAlike R
          (wait_for_sync s l cells interval timeout fuel v)
          (wait_for_sync t l cells interval timeout fuel w)
        ⊎ Failure
  unfolding wait_for_sync
  wait_for_sync-Same interval timeout fuel v w r =
      subst
        (λ n.
          EndAlike R (wait_for_sync s l cells interval timeout fuel v) (
            if is_conductor_cell_dna_hash_equal cells
            then wait_loop t l cells n interval timeout fuel w
            else some (err (error "Cannot compare DHT state of different DNAs"), w))
          ⊎ Failure)
        (h.now v w r)
        (known (is_conductor_cell_dna_hash_equal cells) _ _
          (wait_loop-Same (s.now v) interval timeout fuel v w r))
    where
      known :
          (b : Bool) (x : Option (Result (Unit {0}) × V)) (y : Option (Result (Unit {0}) × W))
          → EndAlike R x y ⊎ Failure
          → EndAlike R
              (if b then x else some (err (error "Cannot compare DHT state of different DNAs"), v))
              (if b then y else some (err (error "Cannot compare DHT state of different DNAs"), w))
            ⊎ Failure
      known true x y k = k
      known false x y k = inl (refl, r)
