-- ===== src/Examples/Postfix.antt =====
-- A codec that encodes every value and loses nothing: the operations of a stack machine, each a
-- number with one argument, that build the value.
use Prim.Native.Char.{char, code, IsLt}
use Prim.Native.Nat.{Ordering, compare}
use Prim.Native.String.{String}
use try_o_rama.Prelude.{
  ℕ, ◌≡◌, refl, ap, ◌∙◌, true, false, List, [], ◌∷◌, Option, none, some, get_elem?, sym,
}
use try_o_rama.Js.Value.{
  Value, Fields, Items, undefined, null, bool, str, num, bin, obj, arr, end, field, nil, cons,
  Bytes,
}
use try_o_rama.Trycp.Codec.{Codec, IsLossless}

-- The two helpers of `IsScalar`, with their clauses, and a decision of it.
abbrev IsBoth : Ordering → Ordering → Type 0
IsBoth Ordering.lt o = IsLt o
IsBoth Ordering.eq o = ⊥
IsBoth Ordering.gt o = ⊥

abbrev IsCoded : Ordering → Ordering → Ordering → Type 0
IsCoded Ordering.lt o p = Unit
IsCoded Ordering.eq o p = IsBoth o p
IsCoded Ordering.gt o p = IsBoth o p

abbrev is_lt? : (o : Ordering) → Option (IsLt o)
is_lt? Ordering.lt = some tt
is_lt? Ordering.eq = none
is_lt? Ordering.gt = none

abbrev both? : (o p : Ordering) → Option (IsBoth o p)
both? Ordering.lt p = is_lt? p
both? Ordering.eq p = none
both? Ordering.gt p = none

abbrev scalar? : (o p q : Ordering) → Option (IsCoded o p q)
scalar? Ordering.lt p q = some tt
scalar? Ordering.eq p q = both? p q
scalar? Ordering.gt p q = both? p q

is_lt?-eq : (o : Ordering) (x : IsLt o) → is_lt? o ≡ some x
is_lt?-eq Ordering.lt x = refl
is_lt?-eq Ordering.eq x = absurd x
is_lt?-eq Ordering.gt x = absurd x

both?-eq : (o p : Ordering) (x : IsBoth o p) → both? o p ≡ some x
both?-eq Ordering.lt p x = is_lt?-eq p x
both?-eq Ordering.eq p x = absurd x
both?-eq Ordering.gt p x = absurd x

scalar?-eq : (o p q : Ordering) (x : IsCoded o p q) → scalar? o p q ≡ some x
scalar?-eq Ordering.lt p q x = refl
scalar?-eq Ordering.eq p q x = both?-eq p q x
scalar?-eq Ordering.gt p q x = both?-eq p q x

abbrev Stack : Type 0
Stack = List Value

-- A character put in front of the text on top.
abbrev put_char :
    (n : ℕ)
    → Option (IsCoded (compare n 55296) (compare 57343 n) (compare n 1114112))
    → Stack
    → Option Stack
put_char n (some p) (str s ∷ st) = some (str (String.◌∷◌ (char n p) s) ∷ st)
put_char n p st = none

abbrev put_byte : ℕ → Stack → Option Stack
put_byte n (bin b ∷ st) = some (bin (n ∷ b) ∷ st)
put_byte n st = none

abbrev put_field : Stack → Option Stack
put_field (v ∷ str k ∷ obj fs ∷ st) = some (obj (field k v fs) ∷ st)
put_field st = none

abbrev put_item : Stack → Option Stack
put_item (v ∷ arr xs ∷ st) = some (arr (cons v xs) ∷ st)
put_item st = none

abbrev machine : List (ℕ → Stack → Option Stack)
machine =
    (λ n st. some (undefined ∷ st))
    ∷ (λ n st. some (null ∷ st))
    ∷ (λ n st. some (bool false ∷ st))
    ∷ (λ n st. some (bool true ∷ st))
    ∷ (λ n st. some (num n ∷ st))
    ∷ (λ n st. some (str "" ∷ st))
    ∷ (λ n st. put_char n (scalar? (compare n 55296) (compare 57343 n) (compare n 1114112)) st)
    ∷ (λ n st. some (bin [] ∷ st))
    ∷ put_byte
    ∷ (λ n st. some (obj end ∷ st))
    ∷ (λ n st. put_field st)
    ∷ (λ n st. some (arr nil ∷ st))
    ∷ (λ n st. put_item st)
    ∷ []

abbrev act : Option (ℕ → Stack → Option Stack) → ℕ → Stack → Option Stack
act none n st = none
act (some f) n st = f n st

abbrev top : Stack → Option Value
top (v ∷ []) = some v
top st = none

unfoldable pub read : Bytes → Stack → Option Value
read [] st = top st
read (o ∷ []) st = none
read (o ∷ n ∷ r) st = elim (act (get_elem? machine o) n st) [ none ↦ none | some st' ↦ read r st' ]

abbrev emit_text : String → Bytes → Bytes
emit_text String.[] r = 5 ∷ 0 ∷ r
emit_text (String.◌∷◌ c s) r = emit_text s (6 ∷ code c ∷ r)

abbrev emit_octets : Bytes → Bytes → Bytes
emit_octets [] r = 7 ∷ 0 ∷ r
emit_octets (n ∷ b) r = emit_octets b (8 ∷ n ∷ r)

unfoldable mutual
  pub emit : Value → Bytes → Bytes
  emit undefined r = 0 ∷ 0 ∷ r
  emit null r = 1 ∷ 0 ∷ r
  emit (bool false) r = 2 ∷ 0 ∷ r
  emit (bool true) r = 3 ∷ 0 ∷ r
  emit (num n) r = 4 ∷ n ∷ r
  emit (str s) r = emit_text s r
  emit (bin b) r = emit_octets b r
  emit (obj fs) r = emit_fields fs r
  emit (arr xs) r = emit_items xs r

  pub emit_fields : Fields → Bytes → Bytes
  emit_fields end r = 9 ∷ 0 ∷ r
  emit_fields (field k v fs) r = emit_fields fs (emit_text k (emit v (10 ∷ 0 ∷ r)))

  pub emit_items : Items → Bytes → Bytes
  emit_items nil r = 11 ∷ 0 ∷ r
  emit_items (cons v xs) r = emit_items xs (emit v (12 ∷ 0 ∷ r))

read-emit_text :
    (s : String) (r : Bytes) (st : Stack) → read (emit_text s r) st ≡ read r (str s ∷ st)
unfolding read
read-emit_text String.[] r st = refl
read-emit_text (String.◌∷◌ (char n p) s) r st =
    read-emit_text s (6 ∷ n ∷ r) st
    ∙ ap (λ x. elim (put_char n x (str s ∷ st)) [ none ↦ none | some st' ↦ read r st' ])
        (scalar?-eq (compare n 55296) (compare 57343 n) (compare n 1114112) p)

read-emit_octets : (b r : Bytes) (st : Stack) → read (emit_octets b r) st ≡ read r (bin b ∷ st)
unfolding read
read-emit_octets [] r st = refl
read-emit_octets (n ∷ b) r st = read-emit_octets b (8 ∷ n ∷ r) st

mutual
  unfolding read emit emit_fields emit_items

  read-emit : (v : Value) (r : Bytes) (st : Stack) → read (emit v r) st ≡ read r (v ∷ st)
  read-emit undefined r st = refl
  read-emit null r st = refl
  read-emit (bool false) r st = refl
  read-emit (bool true) r st = refl
  read-emit (num n) r st = refl
  read-emit (str s) r st = read-emit_text s r st
  read-emit (bin b) r st = read-emit_octets b r st
  read-emit (obj fs) r st = read-emit_fields fs r st
  read-emit (arr xs) r st = read-emit_items xs r st

  read-emit_fields :
      (fs : Fields) (r : Bytes) (st : Stack) → read (emit_fields fs r) st ≡ read r (obj fs ∷ st)
  read-emit_fields end r st = refl
  read-emit_fields (field k v fs) r st =
      read-emit_fields fs (emit_text k (emit v (10 ∷ 0 ∷ r))) st
      ∙ (read-emit_text k (emit v (10 ∷ 0 ∷ r)) (obj fs ∷ st)
          ∙ read-emit v (10 ∷ 0 ∷ r) (str k ∷ obj fs ∷ st))

  read-emit_items :
      (xs : Items) (r : Bytes) (st : Stack) → read (emit_items xs r) st ≡ read r (arr xs ∷ st)
  read-emit_items nil r st = refl
  read-emit_items (cons v xs) r st =
      read-emit_items xs (emit v (12 ∷ 0 ∷ r)) st ∙ read-emit v (12 ∷ 0 ∷ r) (arr xs ∷ st)

abbrev pub postfix : Codec
postfix = record {
  encode = λ v. some (emit v []);
  decode = λ b. read b [];
  decode_other = λ v. none;
}

some_inj : {b c : Bytes} → some b ≡ some c → b ≡ c
some_inj h = cc

pub postfix-IsLossless : IsLossless postfix
postfix-IsLossless = record {
  decode-encode =
      λ v b h. ap (λ b. read b []) (sym (some_inj h)) ∙ unfold read in read-emit v [] [];
}
