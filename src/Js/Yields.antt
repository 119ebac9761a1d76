-- ===== src/Js/Yields.antt =====
-- What a function's value is like whenever it returns one, from the values of what it calls.
use try_o_rama.Prelude.{ℕ, ◌≡◌, refl, ap, List, [], ◌∷◌, All, length, suc, subst}
use try_o_rama.Js.Exn.{Result, ok, err}
use try_o_rama.Js.Action.{Action, pure, ◌>>=◌, lift, for_each, promise_all, bind-eq_ok, join}

abbrev pub Yields : {W A : Type 0} → (A → Type 0) → Action W A → Type 0
Yields {W} {A} P m = (w : W) (a : A) → (m w).0 ≡ ok a → P a

pub bind-Yields :
    {W A B : Type 0} (Q : A → Type 0) (P : B → Type 0) (m : Action W A) (f : A → Action W B)
    → Yields Q m
    → ((a : A) → Q a → Yields P (f a))
    → Yields P (m >>= f)
bind-Yields Q P m f q p w b h =
    let (a, v, e, g) =
      bind-eq_ok m f {w = w} {w' = ((m >>= f) w).1} (ap (λ r. (r, ((m >>= f) w).1)) h) in
    p a (q w a (ap (λ x. x.0) e)) v b (ap (λ x. x.0) g)

-- The call's value does not matter.
pub rest-Yields :
    {W A B : Type 0} (P : B → Type 0) (m : Action W A) (f : A → Action W B)
    → ((a : A) → Yields P (f a))
    → Yields P (m >>= f)
rest-Yields P m f p = bind-Yields (λ a. Unit {0}) P m f (λ w a h. tt) (λ a u. p a)

pub ok_inj : {A : Type 0} {a b : A} → ok a ≡ ok b → a ≡ b
ok_inj e = cc

pub pure-Yields : {W A : Type 0} (P : A → Type 0) (a : A) → P a → Yields {W = W} P (pure a)
pure-Yields P a p w b h = subst P (ok_inj h) p

-- Results of so many rounds.
abbrev pub Each : {B : Type 0} → (B → Type 0) → ℕ → List B → Type 0
Each P n ys = All P ys × (length ys ≡ n)

pub for_each-Yields :
    {W A B : Type 0} (P : B → Type 0) (f : A → Action W B) (xs : List A)
    → ((x : A) → Yields P (f x))
    → Yields (Each P (length xs)) (for_each f xs)
unfolding for_each
for_each-Yields P f [] p = pure-Yields (Each P 0) [] (tt, refl)
for_each-Yields P f (x ∷ xs) p =
    bind-Yields P (Each P (suc (length xs))) (f x) (λ y. for_each f xs >>= λ ys. pure (y ∷ ys))
      (p x)
      (λ y q.
        bind-Yields (Each P (length xs)) (Each P (suc (length xs))) (for_each f xs)
          (λ ys. pure (y ∷ ys)) (for_each-Yields P f xs p)
          (λ ys (qs, e). pure-Yields (Each P (suc (length xs))) (y ∷ ys) ((q, qs), ap suc e)))

join-Each :
    {B : Type 0} (P : B → Type 0) (n : ℕ) (r : Result B) (rs : Result (List B)) (bs : List B)
    → ((b : B) → r ≡ ok b → P b)
    → ((bs : List B) → rs ≡ ok bs → Each P n bs)
    → join r rs ≡ ok bs
    → Each P (suc n) bs
join-Each P n (ok b) (ok bs) cs p ps h =
    subst (λ bs. Each P (suc n) bs) (ok_inj h) ((p b refl, (ps bs refl).0), ap suc (ps bs refl).1)
join-Each P n (ok b) (err e) cs p ps h = absurd cc
join-Each P n (err e) rs cs p ps h = absurd cc

pub promise_all-Yields :
    {W A B : Type 0} (P : B → Type 0) (f : A → Action W B) (xs : List A)
    → ((x : A) → Yields P (f x))
    → Yields (Each P (length xs)) (promise_all f xs)
unfolding promise_all
promise_all-Yields P f [] p w a h = pure-Yields (Each P 0) [] (tt, refl) w a h
promise_all-Yields P f (x ∷ xs) p w bs h =
    join-Each P (length xs) (f x w).0 (promise_all f xs (f x w).1).0 bs (p x w)
      (promise_all-Yields P f xs p (f x w).1) h

pub lift-Yields :
    {W A : Type 0} (P : A → Type 0) (r : Result A)
    → ((a : A) → r ≡ ok a → P a)
    → Yields {W = W} P (lift r)
lift-Yields P r p w a h = p a h
