-- ===== src/Prelude/Dict.antt =====
-- A JavaScript object used as a dictionary with numbers for keys, as an association list.
use Prim.Native.Nat.{ℕ}
use mathlib.Core.Path.{◌≡◌, refl}
use mathlib.Core.List.{List, [], ◌∷◌}
use mathlib.Core.Option.{Option, none, some}
use native.Mathlib.Omega.{arith}
use try_o_rama.Prelude.Tests.{◌==◌, if◌then◌else◌}

abbrev pub Dict {ℓ} : Type ℓ → Type ℓ
Dict V = List (ℕ × V)

module _ {ℓ} {V : Type ℓ} where
  -- `d[k]`
  unfoldable pub lookup : ℕ → Dict V → Option V
  lookup k [] = none
  lookup k ((j, v) ∷ d) = if j == k then some v else lookup k d

  -- `delete d[k]`
  unfoldable pub erase : ℕ → Dict V → Dict V
  erase k [] = []
  erase k ((j, v) ∷ d) = if j == k then erase k d else (j, v) ∷ erase k d

  -- `d[k] = v`
  unfoldable pub insert : ℕ → V → Dict V → Dict V
  unfolding erase
  insert k v d = (k, v) ∷ erase k d

  pub lookup-nil : (k : ℕ) → lookup k [] ≡ none
  unfolding lookup
  lookup-nil k = refl

  pub lookup-erase :
      (k j : ℕ) (d : Dict V) → lookup j (erase k d) ≡ (if k == j then none else lookup j d)
  unfolding lookup erase
  lookup-erase k j [] = ground arith
  lookup-erase k j ((i, v) ∷ d) = ground (arith, lookup-erase k j d)

  pub lookup-insert :
      (k j : ℕ) (v : V) (d : Dict V)
      → lookup j (insert k v d) ≡ (if k == j then some v else lookup j d)
  unfolding lookup insert
  lookup-insert k j v d = ground (arith, lookup-erase k j d)
