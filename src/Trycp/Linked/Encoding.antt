-- ===== src/Trycp/Linked/Encoding.antt =====
-- Calls that throw, and the values that the codec refuses.
use try_o_rama.Prelude.{ℕ, ◌≡◌, refl, inl, inr, none, true, arith, Option-cases}
use try_o_rama.Js.Value.{bin, Value, Bytes}
use try_o_rama.Js.Exn.{Result, Result-cases, Exn, ok, err, ◌>>=◌}
use try_o_rama.Trycp.Protocol.{
  TryCpRequest, call_object, call_app_interface, call_app_interface_encoded, call_admin_interface,
  app_message, admin_message,
}
use try_o_rama.Trycp.Codec.{Codec, encoded}
use try_o_rama.Trycp.Client.{World, call, serialize_call, serialize_request}

-- A value that the codec cannot encode.
abbrev pub Unencodable : Codec → Type 0
Unencodable codec = (v : Value) × (codec.encode v ≡ none)

encoded-Unencodable :
    (codec : Codec) (v : Value) (e : Exn) → encoded codec v ≡ err e → Unencodable codec
encoded-Unencodable codec v e h = elim (Option-cases (codec.encode v)) [
  | inl n ↦ (v, n)
  | inr (b, n) ↦ absurd (ground (arith, n, h))
]

-- A request that cannot be encoded for the message in it.
message-Unencodable :
    (codec : Codec) (m : Value) (f : Bytes → Result Value) (e : Exn)
    → ((b : Bytes) → (v : Value) × (f b ≡ ok v))
    → (encoded codec m >>= f) ≡ err e
    → Unencodable codec
message-Unencodable codec m f e k h = elim (Result-cases (encoded codec m)) [
  | inl (b, g) ↦ absurd (ground (arith, g, h, (k b).1))
  | inr (x, g) ↦ encoded-Unencodable codec m x g
]

serialize_request-Unencodable :
    (codec : Codec) (r : TryCpRequest) (e : Exn)
    → serialize_request codec r ≡ err e
    → Unencodable codec
unfolding serialize_request
serialize_request-Unencodable codec (call_app_interface port m) e h =
    message-Unencodable codec (app_message m) _ e (λ b. (_, refl)) h
serialize_request-Unencodable codec (call_app_interface_encoded port m) e h =
    message-Unencodable codec (bin m) _ e (λ b. (_, refl)) h
serialize_request-Unencodable codec (call_admin_interface id m) e h =
    message-Unencodable codec (admin_message m) _ e (λ b. (_, refl)) h
serialize_request-Unencodable codec r e h = absurd cc

serialize_call-Unencodable :
    (codec : Codec) (id : ℕ) (r : TryCpRequest) (e : Exn)
    → serialize_call codec id r ≡ err e
    → Unencodable codec
unfolding serialize_call
serialize_call-Unencodable codec id r e h = elim (Result-cases (serialize_request codec r)) [
  | inl (v, g) ↦ encoded-Unencodable codec (call_object id v) e (ground (arith, g, h))
  | inr (x, g) ↦ serialize_request-Unencodable codec r x g
]

pub call-Unencodable :
    (codec : Codec) (c : ℕ) (r : TryCpRequest) (w w' : World) (e : Exn)
    → call codec c r true w ≡ (err e, w')
    → Unencodable codec
unfolding call
call-Unencodable codec c r w w' e h = elim (Result-cases (serialize_call codec w.request_id r)) [
  | inl (frame, g) ↦ absurd (ground (arith, g, h))
  | inr (x, g) ↦ serialize_call-Unencodable codec w.request_id r x g
]
