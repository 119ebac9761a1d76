-- ===== src/Js/Action.antt =====
-- An `async` function as an action on a state. What is written before an exception stays written.
use try_o_rama.Prelude.{
  ℕ, suc, ap, ◌≡◌, refl, sym, ◌∙◌, length, arith, List, [], ◌∷◌, Bool, true, false, map, All, subst,
}
use try_o_rama.Js.Exn.{Result, ok, err, Exn, never}

abbrev pub Action : Type 0 → Type 0 → Type 0
Action W A = W → Result A × W

abbrev pub pure : {W A : Type 0} → A → Action W A
pure a w = (ok a, w)

abbrev pub throw : {W A : Type 0} → Exn → Action W A
throw e w = (err e, w)

infixl 5 ◌>>=◌ ◌>>◌
abbrev pub ◌>>=◌ : {W A B : Type 0} → Action W A → (A → Action W B) → Action W B
◌>>=◌ m f w = let (r, w') = m w in elim r [ ok a ↦ f a w' | err e ↦ (err e, w') ]

abbrev pub ◌>>◌ : {W A B : Type 0} → Action W A → Action W B → Action W B
m >> k = m >>= λ _. k

-- A call in front of the rest of a function, when it returns and when it throws.
pub bind_ok :
    {W A B : Type 0} (m : Action W A) (f : A → Action W B) {w w' : W} {a : A}
    → m w ≡ (ok a, w')
    → (m >>= f) w ≡ f a w'
bind_ok m f h = ground arith

pub bind_err :
    {W A B : Type 0} (m : Action W A) (f : A → Action W B) {w w' : W} {e : Exn}
    → m w ≡ (err e, w')
    → (m >>= f) w ≡ (err e, w')
bind_err m f h = ground arith

-- Inversion of a function that returned.
pub bind-eq_ok :
    {W A B : Type 0} (m : Action W A) (f : A → Action W B) {w w' : W} {b : B}
    → (m >>= f) w ≡ (ok b, w')
    → (a : A) × (v : W) × (m w ≡ (ok a, v)) × (f a v ≡ (ok b, w'))
bind-eq_ok {W} {A} {B} m f {w} {w'} {b} h = go (m w) refl
  where
    go : (x : Result A × W) → m w ≡ x → (a : A) × (v : W) × (m w ≡ (ok a, v)) × (f a v ≡ (ok b, w'))
    go (ok a, v) e = (a, v, e, sym (bind_ok m f e) ∙ h)
    go (err x, v) e = absurd (ground (arith, bind_err m f e))

abbrev pub lift : {W A : Type 0} → Result A → Action W A
lift r w = (r, w)

abbrev pub gets : {W A : Type 0} → (W → A) → Action W A
gets f w = (ok (f w), w)

abbrev pub modify : {W : Type 0} → (W → W) → Action W (Unit {0})
modify f w = (ok tt, f w)

-- `assert(test, message)`
abbrev pub require : {W : Type 0} → Bool → Exn → Action W (Unit {0})
require true e w = (ok tt, w)
require false e w = (err e, w)

-- A loop `for (const x of xs)` that collects the results; an exception leaves the loop.
unfoldable pub for_each : {W A B : Type 0} → (A → Action W B) → List A → Action W (List B)
for_each f [] = pure []
for_each f (x ∷ xs) = let rest = for_each f xs in do y ← f x; ys ← rest; pure (y ∷ ys)

-- The exception of which a promise and the rest of them are rejected: a promise that never settles
-- does not keep the others from it.
abbrev pub worse : {A : Type 0} → Exn → Result A → Exn
worse never (err e) = e
worse e r = e

abbrev pub join : {A : Type 0} → Result A → Result (List A) → Result (List A)
join (err e) r = err (worse e r)
join (ok a) (err e) = err e
join (ok a) (ok as') = ok (a ∷ as')

-- `Promise.all(xs.map(f))` on the schedule that runs the started functions one after the other:
-- all of them run, also when one throws.
unfoldable pub promise_all : {W A B : Type 0} → (A → Action W B) → List A → Action W (List B)
promise_all f [] w = (ok [], w)
promise_all f (x ∷ xs) w =
    let (r, w') = f x w in let (rs, w'') = promise_all f xs w' in (join r rs, w'')

-- A list of results, if there is one, has `n` entries.
abbrev pub IsSized : {A : Type 0} → ℕ → Result (List A) → Type 0
IsSized n (ok xs) = length xs ≡ n
IsSized n (err e) = Unit

join-IsSized :
    {A : Type 0} (n : ℕ) (r : Result A) (rs : Result (List A))
    → IsSized n rs
    → IsSized (suc n) (join r rs)
join-IsSized n (ok a) (ok as') h = ap suc h
join-IsSized n (ok a) (err e) h = tt
join-IsSized n (err e) rs h = tt

-- If all the promises are fulfilled there is one result for each element.
pub promise_all-IsSized :
    {W A B : Type 0} (f : A → Action W B) (xs : List A) (w : W)
    → IsSized (length xs) (promise_all f xs w).0
unfolding promise_all
promise_all-IsSized f [] w = refl
promise_all-IsSized f (x ∷ xs) w =
    join-IsSized (length xs) (f x w).0 (promise_all f xs (f x w).1).0
      (promise_all-IsSized f xs (f x w).1)

-- What every started function keeps, they keep together.
pub promise_all_keeps :
    {W A B : Type 0} (P : W → Type 0) (f : A → Action W B)
    → ((x : A) (w : W) → P w → P (f x w).1)
    → (xs : List A) (w : W) → P w
    → P (promise_all f xs w).1
unfolding promise_all
promise_all_keeps P f keeps [] w p = p
promise_all_keeps P f keeps (x ∷ xs) w p = promise_all_keeps P f keeps xs (f x w).1 (keeps x w p)

join-eq_ok :
    {A : Type 0} (r : Result A) (rs : Result (List A)) {as' : List A}
    → join r rs ≡ ok as'
    → ((a : A) × (r ≡ ok a)) × ((bs : List A) × (rs ≡ ok bs))
join-eq_ok (ok a) (ok bs) h = ((a, refl), (bs, refl))
join-eq_ok (ok a) (err e) h = absurd (cc)
join-eq_ok (err e) rs h = absurd (cc)

-- What each function that returns brings about, and all of them keep, holds for all the elements in
-- the end, if all the promises are fulfilled.
pub promise_all-All :
    {W A B : Type 0} (Q : A → W → Type 0) (f : A → Action W B)
    → ((x y : A) (w : W) → Q y w → Q y (f x w).1)
    → ((x : A) (w : W) (b : B) → (f x w).0 ≡ ok b → Q x (f x w).1)
    → (xs : List A) (w : W) {bs : List B} → (promise_all f xs w).0 ≡ ok bs
    → All (λ x. Q x (promise_all f xs w).1) xs
unfolding promise_all
promise_all-All Q f keeps brings [] w h = tt
promise_all-All Q f keeps brings (x ∷ xs) w h =
    let ((a, e), (bs, g)) = join-eq_ok (f x w).0 (promise_all f xs (f x w).1).0 h in
    (
      promise_all_keeps (Q x) f (λ y v. keeps y x v) xs (f x w).1 (brings x w a e),
      promise_all-All Q f keeps brings xs (f x w).1 g,
    )

-- Functions that return a value and change nothing, one after the other.
pub promise_all_still :
    {W A B : Type 0} (b : B) (f : A → Action W B) (xs : List A) (w : W)
    → All (λ x. f x w ≡ (ok b, w)) xs
    → promise_all f xs w ≡ (ok (map (λ x. b) xs), w)
unfolding promise_all
promise_all_still b f [] w h = refl
promise_all_still b f (x ∷ xs) w (e, h) = ground (arith, e, promise_all_still b f xs w h)

-- What the rest of a function brings about when it returns holds after the whole of it has returned.
pub bind_ends :
    {W A B : Type 0} (Q : W → Type 0) (m : Action W A) (f : A → Action W B) (w : W) {b : B}
    → ((a : A) (v : W) → (f a v).0 ≡ ok b → Q (f a v).1)
    → ((m >>= f) w).0 ≡ ok b
    → Q ((m >>= f) w).1
bind_ends {W} {A} {B} Q m f w {b} q h = go (m w) refl
  where
    go : (x : Result A × W) → m w ≡ x → Q ((m >>= f) w).1
    go (ok a, v) e =
        subst (λ x. Q x.1) (sym (bind_ok m f e)) (q a v (ap (λ x. x.0) (sym (bind_ok m f e)) ∙ h))
    go (err x, v) e = absurd (ground (arith, bind_err m f e, h))

-- What a function and the rest after it keep, they keep together.
pub bind_keeps :
    {W A B : Type 0} (P : W → Type 0) (m : Action W A) (f : A → Action W B) (w : W)
    → P (m w).1
    → ((a : A) (v : W) → P v → P (f a v).1)
    → P ((m >>= f) w).1
bind_keeps {W} {A} {B} P m f w p q = go (m w) refl p
  where
    go : (x : Result A × W) → m w ≡ x → P x.1 → P ((m >>= f) w).1
    go (ok a, v) e p = subst (λ x. P x.1) (sym (bind_ok m f e)) (q a v p)
    go (err x, v) e p = subst (λ x. P x.1) (sym (bind_err m f e)) p
