-- ===== src/Js/Keeps.antt =====
-- What a function leaves true, whether it returns or throws.
use try_o_rama.Prelude.{◌≡◌, refl, sym, ap, subst, ◌∙◌, arith, List, [], ◌∷◌, All, All-map}
use try_o_rama.Js.Exn.{Result, ok, err}
use try_o_rama.Js.Yields.{ok_inj}
use try_o_rama.Js.Action.{
  Action, pure, join, bind_ok, bind_err, ◌>>=◌, lift, for_each, promise_all, bind_keeps,
  promise_all_keeps,
}

pub record Keeps {W A : Type 0} (P : W → Type 0) (m : Action W A) : Type 0 where
  pub keep : (w : W) → P w → P (m w).1

module _ {W : Type 0} {P : W → Type 0} where
  pub lift-Keeps : {A : Type 0} (r : Result A) → Keeps P (lift r)
  lift-Keeps r = record { keep = λ w p. p }

  pub pure-Keeps : {A : Type 0} (a : A) → Keeps P (pure a)
  pure-Keeps a = record { keep = λ w p. p }

  pub bind-Keeps :
      {A B : Type 0} {m : Action W A} {f : A → Action W B}
      → Keeps P m
      → ((a : A) → Keeps P (f a))
      → Keeps P (m >>= f)
  bind-Keeps {m = m} {f = f} k l = record {
    keep = λ w p. bind_keeps P m f w (k.keep w p) (λ a v. (l a).keep v);
  }

  pub then-Keeps :
      {B : Type 0} {A : Type 0} {m : Action W A} {f : Action W B}
      → Keeps P m
      → Keeps P f
      → Keeps P (m >>= λ a. f)
  then-Keeps k l = bind-Keeps k (λ a. l)

  pub promise_all-Keeps :
      {A B : Type 0} (f : A → Action W B) (xs : List A)
      → ((x : A) → Keeps P (f x))
      → Keeps P (promise_all f xs)
  promise_all-Keeps f xs k = record { keep = λ w p. promise_all_keeps P f (λ x. (k x).keep) xs w p }

-- What a function brings about, with its value, when it returns from a state of the kind `Pre`.
pub record Brings {W A : Type 0} (Pre : W → Type 0) (Post : A → W → Type 0) (m : Action W A)
    : Type 0 where
  pub bring : (w : W) (a : A) → Pre w → (m w).0 ≡ ok a → Post a (m w).1

abbrev pub Always : {W : Type 0} → W → Type 0
Always w = Unit {0}

join-All :
    {B : Type 0} (P : B → Type 0) (r : Result B) (rs : Result (List B)) (bs : List B)
    → ((b : B) → r ≡ ok b → P b)
    → ((bs : List B) → rs ≡ ok bs → All P bs)
    → join r rs ≡ ok bs
    → All P bs
join-All P (ok b) (ok bs) cs p ps h = subst (All P) (ok_inj h) (p b refl, ps bs refl)
join-All P (ok b) (err e) cs p ps h = absurd cc
join-All P (err e) rs cs p ps h = absurd cc

module _ {W : Type 0} where
  pub bind-Brings :
      {A B : Type 0} {Pre : W → Type 0} {Post : B → W → Type 0} (Mid : A → W → Type 0)
      {m : Action W A} {f : A → Action W B}
      → Brings Pre Mid m
      → ((a : A) → Brings (Mid a) Post (f a))
      → Brings Pre Post (m >>= f)
  bind-Brings {A} {B} {Pre} {Post} Mid {m = m} {f = f} k l = record {
    bring = λ w b p h. go w b p (m w) refl h;
  }
    where
      go :
          (w : W) (b : B)
          → Pre w
          → (x : Result A × W) → m w ≡ x
          → ((m >>= f) w).0 ≡ ok b
          → Post b ((m >>= f) w).1
      go w b p (ok a, v) e h =
          let g = bind_ok m f e in
          subst (λ x. Post b x.1) (sym g)
            ((l a).bring v b (subst (λ x. Mid a x.1) e (k.bring w a p (ap (λ x. x.0) e)))
              (ap (λ x. x.0) (sym g) ∙ h))
      go w b p (err x, v) e h = absurd (ground (arith, bind_err m f e, h))

  -- A call in front that leaves `Pre` as it is.
  pub step-Brings :
      {A B : Type 0} {Pre : W → Type 0} {Post : B → W → Type 0} {m : Action W A}
      {f : A → Action W B}
      → Keeps Pre m
      → ((a : A) → Brings Pre Post (f a))
      → Brings Pre Post (m >>= f)
  step-Brings {Pre = Pre} k l = bind-Brings (λ a. Pre) (record { bring = λ w a p h. k.keep w p }) l

  pub Always-Keeps : {A : Type 0} (m : Action W A) → Keeps Always m
  Always-Keeps m = record { keep = λ w p. tt }

  pub pure-Brings :
      {A : Type 0} {Pre : W → Type 0} {Post : A → W → Type 0} (a : A)
      → ((w : W) → Pre w → Post a w)
      → Brings Pre Post (pure a)
  pure-Brings {Post = Post} a q = record {
    bring = λ w b p h. subst (λ b. Post b w) (ok_inj h) (q w p);
  }

  -- What it leaves true besides.
  pub with-Keeps :
      {A : Type 0} {Pre R : W → Type 0} {Post : A → W → Type 0} {m : Action W A}
      → Brings Pre Post m
      → Keeps R m
      → Brings (λ w. Pre w × R w) (λ a w. Post a w × R w) m
  with-Keeps k l = record { bring = λ w a (p, r) h. (k.bring w a p h, l.keep w r) }

  pub for_each-Keeps :
      {A B : Type 0} {P : W → Type 0} (f : A → Action W B) (xs : List A)
      → ((x : A) → Keeps P (f x))
      → Keeps P (for_each f xs)
  unfolding for_each
  for_each-Keeps f [] k = pure-Keeps []
  for_each-Keeps f (x ∷ xs) k =
      bind-Keeps (k x) (λ y. bind-Keeps (for_each-Keeps f xs k) (λ ys. pure-Keeps (y ∷ ys)))

  -- A loop whose rounds leave `Pre` and what the rounds before brought about as they are.
  pub for_each-Brings :
      {A B : Type 0} {Pre : W → Type 0} (P : B → W → Type 0) (f : A → Action W B) (xs : List A)
      → ((x : A) → Brings Pre P (f x))
      → ((x : A) → Keeps Pre (f x))
      → ((x : A) (y : B) → Keeps (P y) (f x))
      → Brings Pre (λ ys w. All (λ y. P y w) ys) (for_each f xs)
  unfolding for_each
  for_each-Brings {Pre = Pre} P f [] k l n = pure-Brings [] (λ w p. tt)
  for_each-Brings {Pre = Pre} P f (x ∷ xs) k l n =
      bind-Brings (λ y w. P y w × Pre w)
        (record { bring = λ w y p h. ((k x).bring w y p h, (l x).keep w p) })
        (λ y.
          bind-Brings (λ ys w. All (λ y. P y w) ys × P y w)
            (record {
              bring = λ w ys (q, p) h. (
                (for_each-Brings P f xs k l n).bring w ys p h,
                (for_each-Keeps f xs (λ x. n x y)).keep w q,
              );
            })
            (λ ys. pure-Brings (y ∷ ys) (λ w (qs, q). (q, qs))))

  pub promise_all-Brings :
      {A B : Type 0} {Pre : W → Type 0} (P : B → W → Type 0) (f : A → Action W B) (xs : List A)
      → ((x : A) → Brings Pre P (f x))
      → ((x : A) → Keeps Pre (f x))
      → ((x : A) (y : B) → Keeps (P y) (f x))
      → Brings Pre (λ ys w. All (λ y. P y w) ys) (promise_all f xs)
  unfolding promise_all
  promise_all-Brings P f [] k l n = record {
    bring = λ w bs p h. subst (All (λ y. P y w)) (ok_inj h) tt;
  }
  promise_all-Brings P f (x ∷ xs) k l n = record {
    bring = λ w bs p h.
        let v = (f x w).1 in
        let last = (promise_all f xs v).1 in
        join-All (λ y. P y last) (f x w).0 (promise_all f xs v).0 bs
          (λ b e. promise_all_keeps (P b) f (λ y. (n y b).keep) xs v ((k x).bring w b p e))
          (λ bs e. (promise_all-Brings P f xs k l n).bring v bs ((l x).keep w p) e) h;
  }

  pub All-Keeps :
      {A B : Type 0} {P : B → W → Type 0} {m : Action W A} (ys : List B)
      → ((y : B) → Keeps (P y) m)
      → Keeps (λ w. All (λ y. P y w) ys) m
  All-Keeps ys k = record { keep = λ w p. All-map ys (λ y q. (k y).keep w q) p }
