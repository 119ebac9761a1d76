-- ===== src/Examples/Codecs.antt =====
-- Codecs to run the theorems with: one that loses nothing, and some with one answer.
use native.Mathlib.Decide.{ℕ_discrete}
use try_o_rama.Prelude.{
  ℕ, String, ◌≡◌, refl, Option, none, some, [], ◌∷◌, str_eq, eq_iff, Bool-cases, inl, inr, arith,
  ◌≢◌,
}
use try_o_rama.Js.Value.{Value, Bytes}
use try_o_rama.Trycp.Codec.{Codec, IsLossless}

pub String-discrete : Discrete String
String-discrete s t = elim (Bool-cases (str_eq s t)) [
  | inl e ↦ yes ((eq_iff s t).0 e)
  | inr e ↦ no (λ p. cc ((eq_iff s t).1 p))
]

pub Value-discrete : Discrete Value
Value-discrete = hlevel (ℕ_discrete, String-discrete)

-- Two values are encoded, by one byte each.
abbrev pub code_of : {v x y : Value} → Dec (v ≡ x) → Dec (v ≡ y) → Option Bytes
code_of (yes e) q = some (0 ∷ [])
code_of (no n) (yes e) = some (1 ∷ [])
code_of (no n) (no m) = none

abbrev pub two_values : Value → Value → Codec
two_values x y = record {
  encode = λ v. code_of (Value-discrete v x) (Value-discrete v y);
  decode = λ b. elim b [ [] ↦ none | n ∷ ns ↦ elim n [ ℕ.zero ↦ some x | ℕ.suc m ↦ some y ] ];
  decode_other = λ v. none;
}

pub two_values-IsLossless : (x y : Value) → IsLossless (two_values x y)
two_values-IsLossless x y = record {
  decode-encode = λ v b h. go (Value-discrete v x) (Value-discrete v y) h;
}
  where
    go :
        {v : Value} {b : Bytes} (p : Dec (v ≡ x)) (q : Dec (v ≡ y))
        → code_of p q ≡ some b
        → (two_values x y).decode b ≡ some v
    go (yes e) q h = ground (arith, e)
    go (no n) (yes e) h = ground (arith, e)
    go (no n) (no m) h = cc

pub first_encoded : (x y : Value) → (two_values x y).encode x ≡ some (0 ∷ [])
first_encoded x y = go (Value-discrete x x) (Value-discrete x y)
  where
    go : (p : Dec (x ≡ x)) (q : Dec (x ≡ y)) → code_of p q ≡ some (0 ∷ [])
    go (yes e) q = refl
    go (no n) q = absurd (n refl)

pub second_encoded : (x y : Value) → y ≢ x → (two_values x y).encode y ≡ some (1 ∷ [])
second_encoded x y ne = go (Value-discrete y x) (Value-discrete y y)
  where
    go : (p : Dec (y ≡ x)) (q : Dec (y ≡ y)) → code_of p q ≡ some (1 ∷ [])
    go (yes e) q = absurd (ne e)
    go (no n) (yes e) = refl
    go (no n) (no m) = absurd (m refl)

-- Everything is encoded, nothing decoded.
abbrev pub encode_only : Codec
encode_only = record { encode = λ v. some (7 ∷ []); decode = λ b. none; decode_other = λ v. none }

-- All bytes decode to one value.
abbrev pub always : Value → Codec
always v = record { encode = λ u. none; decode = λ b. some v; decode_other = λ u. none }
