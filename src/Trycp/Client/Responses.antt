-- ===== src/Trycp/Client/Responses.antt =====
-- What the client makes of the inner response of an `Ok` (`processSuccessResponse`).
use try_o_rama.Prelude.{
  ◌≡◌, ◌↔◌, Bool, true, false, not, ◌||◌, some, arith, Option-cases, Bool-cases, inl, inr, ◌⊎◌,
}
use try_o_rama.Js.Value.{Value, Bytes, bin, get, has_key, is_str, is_string, is_object, truthy}
use try_o_rama.Js.Exn.{ok, err, api_error}
use try_o_rama.Trycp.Codec.{Codec, is_api_response, deserialize_api_response}
use try_o_rama.Trycp.Client.{process_success_response, process_api_response, formatted_response_log}

-- The values that `getFormattedResponseLog` can print: what is falsy, a text or an object. It asks
-- for `BYTES_PER_ELEMENT` in every other one.
abbrev pub is_printable : Value → Bool
is_printable v = is_object v || (is_string v || not (truthy v))

abbrev pub IsLogged : Value → Type 0
IsLogged v = (has_key "value" v ≡ false) ⊎ (is_printable (get "value" v) ≡ true)

process_api_response-ok :
    (v : Value) → is_str "error" (get "type" v) ≡ false → IsLogged v → process_api_response v ≡ ok v
unfolding process_api_response formatted_response_log
process_api_response-ok v e h = ground arith

process_api_response-eq_ok :
    (v u : Value)
    → process_api_response v ≡ ok u
    → (u ≡ v) × (is_str "error" (get "type" v) ≡ false) × IsLogged v
unfolding process_api_response formatted_response_log
process_api_response-eq_ok v u h = ground arith

module _ (codec : Codec) (b : Bytes) where
  -- An encoded response fulfils its promise with a value exactly if it decodes to that value, the
  -- value is an object with a type, the type is not "error", and the value's own `value` is absent
  -- or can be printed in the log.
  pub process_success_response-ok_iff :
      (u : Value)
      → (process_success_response codec (bin b) ≡ ok u) ↔ (
          (codec.decode b ≡ some u)
          × (is_api_response u ≡ true)
          × (is_str "error" (get "type" u) ≡ false)
          × IsLogged u)
  unfolding process_success_response deserialize_api_response
  process_success_response-ok_iff u = (forth, back)
    where
      forth :
          process_success_response codec (bin b) ≡ ok u
          → (codec.decode b ≡ some u)
            × (is_api_response u ≡ true)
            × (is_str "error" (get "type" u) ≡ false)
            × IsLogged u
      forth h = elim (Option-cases (codec.decode b)) [
        | inl e ↦ absurd (ground arith)
        | inr (v, e) ↦ elim (Bool-cases (is_api_response v)) [
          | inl i ↦
              let (same, no_error, logged) = process_api_response-eq_ok v u (ground arith) in
              rw same (e, i, no_error, logged)
          | inr i ↦ absurd (ground arith)
        ]
      ]

      back :
          (codec.decode b ≡ some u)
            × (is_api_response u ≡ true)
            × (is_str "error" (get "type" u) ≡ false)
            × IsLogged u
          → process_success_response codec (bin b) ≡ ok u
      back (d, i, e, l) = ground (arith, process_api_response-ok u e l)

  -- A response whose type is "error" rejects its promise with an error that carries its value.
  pub process_success_response-error :
      (u : Value)
      → codec.decode b ≡ some u
      → is_api_response u ≡ true
      → is_str "error" (get "type" u) ≡ true
      → process_success_response codec (bin b) ≡ err (api_error (get "value" u))
  unfolding process_success_response deserialize_api_response process_api_response
  process_success_response-error u d i e = ground arith
