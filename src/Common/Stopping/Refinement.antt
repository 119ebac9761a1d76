-- ===== src/Common/Stopping/Refinement.antt =====
-- `stopLocalServices` over two ways to kill a process that behave alike.
use try_o_rama.Prelude.{
  ℕ, ◌≡◌, refl, subst, ◌⊎◌, inl, inr, List, ◌∷◌, Bool, true, false, Option, none, some,
  if◌then◌else◌,
}
use try_o_rama.Js.Exn.{Result, ok, err, never}
use try_o_rama.Js.Action.{Action}
use try_o_rama.Js.Refines.{Alike, Refines}
use try_o_rama.Common.Stopping.{
  ServicesProcess, listed, kill_and_wait, stop_pid, stop_local_services,
}

-- The same exited processes, and states that stand for each other.
abbrev pub SameExits : {V W : Type 0} → (V → W → Type 0) → List ℕ × V → List ℕ × W → Type 0
SameExits R (xs, v) (ys, w) = (xs ≡ ys) × R v w

-- The kill of a process, noted.
abbrev noted :
    {W : Type 0}
    → ServicesProcess
    → List ℕ
    → Result (Option ℕ) × W
    → Result (Option ℕ) × (List ℕ × W)
noted p xs (r, w) = elim r [ ok code ↦ (ok code, (p.process ∷ xs, w)) | err e ↦ (err e, (xs, w)) ]

module _ {V W : Type 0} {R : V → W → Type 0} {Failure : Type 0} {f : ℕ → Action V (Option ℕ)}
    {g : ℕ → Action W (Option ℕ)} (h : (pid : ℕ) → Refines R Failure (f pid) (g pid))
    (p : ServicesProcess) where
  noted-Alike :
      (xs : List ℕ) (x : Result (Option ℕ) × V) (y : Result (Option ℕ) × W)
      → Alike R x y ⊎ Failure
      → Alike (SameExits R) (noted p xs x) (noted p xs y) ⊎ Failure
  noted-Alike xs x y (inr z) = inr z
  noted-Alike xs (ok a, v) (ok b, w) (inl (e, r)) = inl (e, (refl, r))
  noted-Alike xs (ok a, v) (err b, w) (inl (e, r)) = absurd cc
  noted-Alike xs (err a, v) (ok b, w) (inl (e, r)) = absurd cc
  noted-Alike xs (err a, v) (err b, w) (inl (e, r)) = inl (cc, (refl, r))

  -- A process that has exited, or not.
  killed-Alike :
      (pid : ℕ) (xs : List ℕ) (v : V) (w : W) (b : Bool)
      → R v w
      → Alike
          (SameExits R)
          (if b then (err never, (xs, v)) else kill_and_wait f p pid (xs, v))
          (if b then (err never, (xs, w)) else kill_and_wait g p pid (xs, w))
        ⊎ Failure
  killed-Alike pid xs v w true r = inl (refl, (refl, r))
  killed-Alike pid xs v w false r = noted-Alike xs (f pid v) (g pid w) ((h pid).refine v w r)

  stop_pid-Alike :
      (o : Option ℕ) (xs : List ℕ) (v : V) (w : W)
      → R v w
      → Alike (SameExits R) (stop_pid f p o (xs, v)) (stop_pid g p o (xs, w)) ⊎ Failure
  stop_pid-Alike none xs v w r = inl (refl, (refl, r))
  stop_pid-Alike (some pid) xs v w r = killed-Alike pid xs v w (listed p.process xs) r

  pub stop_local_services-Refines :
      Refines (SameExits R) Failure (stop_local_services f p) (stop_local_services g p)
  unfolding stop_local_services
  stop_local_services-Refines = record {
    refine = λ (xs, v) (ys, w) (e, r).
        subst
          (λ ys.
            Alike (SameExits R) (stop_pid f p p.pid (xs, v)) (stop_pid g p p.pid (ys, w)) ⊎ Failure)
          e (stop_pid-Alike p.pid xs v w r);
  }
