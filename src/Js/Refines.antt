-- ===== src/Js/Refines.antt =====
-- Functions that behave alike on two states, the second of which stands for the first.
use try_o_rama.Prelude.{
  ◌≡◌, refl, sym, ap, ◌∙◌, ◌⊎◌, inl, inr, List, [], ◌∷◌, subst, Bool, true, false, arith,
}
use try_o_rama.Js.Exn.{Result, ok, err, Exn}
use try_o_rama.Js.Yields.{ok_inj}
use try_o_rama.Js.Action.{
  Action, pure, throw, lift, gets, modify, require, ◌>>=◌, promise_all, join,
}

-- The same value or exception, and states that stand for each other again.
abbrev pub Alike : {V W A : Type 0} → (V → W → Type 0) → Result A × V → Result A × W → Type 0
Alike R x y = (x.0 ≡ y.0) × R x.1 y.1

-- The rest of a function behind what its first part has ended in.
abbrev rest : {W A B : Type 0} → (A → Action W B) → Result A × W → Result B × W
rest f x = ((λ w. x) >>= f) x.1

-- From states related by `R` the functions end alike, but for the reason `Failure`.
pub record Refines {V W A : Type 0} (R : V → W → Type 0) (Failure : Type 0) (m : Action V A)
    (n : Action W A) : Type 0 where
  pub refine : (v : V) (w : W) → R v w → Alike R (m v) (n w) ⊎ Failure

module _ {V W : Type 0} {R : V → W → Type 0} {Failure : Type 0} where
  pub lift-Refines : {A : Type 0} {r q : Result A} → r ≡ q → Refines R Failure (lift r) (lift q)
  lift-Refines e = record { refine = λ v w h. inl (e, h) }

  pub pure-Refines : {A : Type 0} (a : A) → Refines R Failure (pure a) (pure a)
  pure-Refines a = record { refine = λ v w h. inl (refl, h) }

  pub throw-Refines : {A : Type 0} (e : Exn) → Refines {A = A} R Failure (throw e) (throw e)
  throw-Refines e = record { refine = λ v w h. inl (refl, h) }

  pub require-Refines : (b : Bool) (e : Exn) → Refines R Failure (require b e) (require b e)
  require-Refines true e = pure-Refines tt
  require-Refines false e = throw-Refines e

  pub gets-Refines :
      {A : Type 0} {f : V → A} {g : W → A}
      → ((v : V) (w : W) → R v w → f v ≡ g w)
      → Refines R Failure (gets f) (gets g)
  gets-Refines e = record { refine = λ v w h. inl (ap ok (e v w h), h) }

  pub modify-Refines :
      {f : V → V} {g : W → W}
      → ((v : V) (w : W) → R v w → R (f v) (g w))
      → Refines R Failure (modify f) (modify g)
  modify-Refines k = record { refine = λ v w h. inl (refl, k v w h) }

  pub bind-Refines :
      {A B : Type 0} {m : Action V A} {n : Action W A} {f : A → Action V B} {g : A → Action W B}
      → Refines R Failure m n
      → ((a : A) → Refines R Failure (f a) (g a))
      → Refines R Failure (m >>= f) (n >>= g)
  bind-Refines {A} {B} {m = m} {n = n} {f = f} {g = g} k l = record {
    refine = λ v w h. go (m v) (n w) (k.refine v w h);
  }
    where
      go :
          (x : Result A × V) (y : Result A × W)
          → Alike R x y ⊎ Failure
          → Alike R (rest f x) (rest g y) ⊎ Failure
      go x y (inr z) = inr z
      go (ok a, v) (ok b, w) (inl (e, h)) =
          subst (λ c. Alike R (f a v) (g c w) ⊎ Failure) (ok_inj e) ((l a).refine v w h)
      go (ok a, v) (err b, w) (inl (e, h)) = absurd cc
      go (err a, v) (ok b, w) (inl (e, h)) = absurd cc
      go (err a, v) (err b, w) (inl (e, h)) = inl (cc, h)

  pub promise_all-Refines :
      {A B : Type 0} {f : A → Action V B} {g : A → Action W B} (xs : List A)
      → ((x : A) → Refines R Failure (f x) (g x))
      → Refines R Failure (promise_all f xs) (promise_all g xs)
  unfolding promise_all
  promise_all-Refines [] k = pure-Refines []
  promise_all-Refines {B = B} {f = f} {g = g} (x ∷ xs) k = record {
    refine = λ v w h.
        first (λ v w. (promise_all-Refines xs k).refine v w) (f x v) (g x w) ((k x).refine v w h);
  }
    where
      second :
          (r q : Result B)
          → r ≡ q
          → (a : Result (List B) × V) (b : Result (List B) × W) → Alike R a b ⊎ Failure
          → Alike R (join r a.0, a.1) (join q b.0, b.1) ⊎ Failure
      second r q e a b (inl (c, h)) = inl (cc, h)
      second r q e a b (inr z) = inr z

      first :
          ((v : V) (w : W) → R v w → Alike R (promise_all f xs v) (promise_all g xs w) ⊎ Failure)
          → (a : Result B × V) (b : Result B × W) → Alike R a b ⊎ Failure
          → Alike R
              (join a.0 (promise_all f xs a.1).0, (promise_all f xs a.1).1)
              (join b.0 (promise_all g xs b.1).0, (promise_all g xs b.1).1)
            ⊎ Failure
      first k a b (inr z) = inr z
      first k a b (inl (e, h)) =
          second a.0 b.0 e (promise_all f xs a.1) (promise_all g xs b.1) (k a.1 b.1 h)

  pub ruleset runs = (
    lift-Refines, pure-Refines, throw-Refines, require-Refines, gets-Refines, modify-Refines,
    bind-Refines, refl,
  )
