-- ===== src/Js/Exn.antt =====
-- What a JavaScript function throws, and results that may be exceptions.
use try_o_rama.Prelude.{ℕ, String, Bool, true, false, ◌≡◌, refl, ◌⊎◌, inl, inr, if◌then◌else◌}
use try_o_rama.Js.Value.{Value, is_nullish, get, is_object, has_key}

pub data Exn : Type 0 where
  -- `assert` of `node:assert`, with its message if it has one
  assertion_error : String → Exn
  -- a property of `null` or `undefined`, or `in` on what is no object
  type_error : Exn
  -- `throw new Error(text)`
  error : String → Exn
  -- the error that an admin or app response of type "error" turns into, with the response's value
  api_error : Value → Exn
  -- thrown inside `@msgpack/msgpack` or by `JSON.parse`, and inside `WebSocket.send`
  codec_error : Exn
  send_error : Exn
  -- the error of `conductorCellsDhtSync` with its timeout in the text
  sync_timeout : ℕ → Exn
  -- the error of `callZome` with the cell in the text
  no_credentials : Value → Exn
  -- the error of `enableAndGetAgentApp` with the errors of the response in the text
  enable_failed : Value → Exn
  -- no exception: a promise that is awaited and never settles
  never : Exn
  -- a promise rejected with a value that is no `Error`
  refused : Value → Exn

pub data Result {ℓ} (A : Type ℓ) : Type ℓ where
  ok : A → Result A
  err : Exn → Result A

infixl 5 ◌>>=◌ ◌>>◌
abbrev pub ◌>>=◌ : {A B : Type 0} → Result A → (A → Result B) → Result B
err x >>= next = err x
ok v >>= next = next v

abbrev pub ◌>>◌ : {B : Type 0} → Result (Unit {0}) → Result B → Result B
first >> second = first >>= λ done. second

abbrev pub assert_that : Bool → Result (Unit {0})
assert_that true = ok tt
assert_that false = err (assertion_error "")

-- `v.k`
abbrev pub read : String → Value → Result Value
read k v = if is_nullish v then err type_error else ok (get k v)

-- `k in v`
abbrev pub in_object : String → Value → Result Bool
in_object k v = if is_object v then ok (has_key k v) else err type_error

pub Result-cases {ℓ} :
    {A : Type ℓ} (r : Result A) → ((a : A) × (r ≡ ok a)) ⊎ ((e : Exn) × (r ≡ err e))
Result-cases (ok a) = inl (a, refl)
Result-cases (err e) = inr (e, refl)
