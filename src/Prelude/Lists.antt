-- ===== src/Prelude/Lists.antt =====
-- Lists measured and indexed by native numbers, and the array methods `every` and `some`.
use Prim.Native.Nat.{ℕ, zero, suc, ◌+◌, ◌≤◌}
use mathlib.Core.Path.{◌≡◌, refl, ap}
use mathlib.Core.Bool.{Bool, true, false, ◌&&◌, ◌||◌}
use mathlib.Core.List.{List, [], ◌∷◌, ◌++◌, map}
use mathlib.Core.Option.{Option, none, some}
use native.Mathlib.Omega.{arith}

module _ {ℓ} {A : Type ℓ} where
  abbrev pub length : List A → ℕ
  length [] = 0
  length (x ∷ xs) = suc (length xs)

  abbrev pub get_elem? : List A → ℕ → Option A
  get_elem? [] i = none
  get_elem? (x ∷ xs) zero = some x
  get_elem? (x ∷ xs) (suc i) = get_elem? xs i

  -- `Array.prototype.every`
  abbrev pub every : (A → Bool) → List A → Bool
  every p [] = true
  every p (x ∷ xs) = p x && every p xs

  -- `Array.prototype.some`
  abbrev pub any : (A → Bool) → List A → Bool
  any p [] = false
  any p (x ∷ xs) = p x || any p xs

  abbrev pub All {κ} : (A → Type κ) → List A → Type κ
  All P [] = Unit
  All P (x ∷ xs) = P x × All P xs

  pub length-append : (xs ys : List A) → length (xs ++ ys) ≡ length xs + length ys
  length-append [] ys = omega arith
  length-append (x ∷ xs) ys = omega (arith, length-append xs ys)

  pub get_elem?-append_left :
      (xs ys : List A) (i : ℕ) {a : A} → get_elem? xs i ≡ some a → get_elem? (xs ++ ys) i ≡ some a
  get_elem?-append_left [] ys i h = cc
  get_elem?-append_left (x ∷ xs) ys zero h = h
  get_elem?-append_left (x ∷ xs) ys (suc i) h = get_elem?-append_left xs ys i h

  pub get_elem?-append_last : (xs : List A) (a : A) → get_elem? (xs ++ a ∷ []) (length xs) ≡ some a
  get_elem?-append_last [] a = refl
  get_elem?-append_last (x ∷ xs) a = get_elem?-append_last xs a

  pub get_elem?-eq_none : (xs : List A) (i : ℕ) → length xs ≤ i → get_elem? xs i ≡ none
  get_elem?-eq_none [] i h = refl
  get_elem?-eq_none (x ∷ xs) zero h = absurd (omega arith)
  get_elem?-eq_none (x ∷ xs) (suc i) h = get_elem?-eq_none xs i (omega arith)

  pub All-of_every {κ} :
      (p : A → Bool) (P : A → Type κ) (xs : List A)
      → ((a : A) → p a ≡ true → P a)
      → every p xs ≡ true
      → All P xs
  All-of_every p P [] f h = tt
  All-of_every p P (x ∷ xs) f h = (f x (ground arith), All-of_every p P xs f (ground arith))

  pub every_of_All {κ} :
      (p : A → Bool) (P : A → Type κ) (xs : List A)
      → ((a : A) → P a → p a ≡ true)
      → All P xs
      → every p xs ≡ true
  every_of_All p P [] f h = refl
  every_of_All p P (x ∷ xs) f (h, hs) = rw (f x h) (every_of_All p P xs f hs)

  pub All-map {κ μ} :
      {P : A → Type κ} {Q : A → Type μ} (xs : List A) → ((a : A) → P a → Q a) → All P xs → All Q xs
  All-map [] f h = tt
  All-map (x ∷ xs) f (h, hs) = (f x h, All-map xs f hs)

pub every-map {ℓ κ} :
    {A : Type ℓ} {B : Type κ} (p : B → Bool) (f : A → B) (xs : List A)
    → every p (map f xs) ≡ every (λ x. p (f x)) xs
every-map p f [] = refl
every-map p f (x ∷ xs) = ap (λ b. p (f x) && b) (every-map p f xs)
