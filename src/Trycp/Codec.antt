-- ===== src/Trycp/Codec.antt =====
-- ts/src/trycp/util.ts: decoding of what the TryCP server sends. `@msgpack/msgpack` is a parameter.
use try_o_rama.Prelude.{Bool, ◌&&◌, ◌||◌, ◌≡◌, Option, none, some, [], ◌∷◌, ◌%◌, if◌then◌else◌}
use try_o_rama.Js.Value.{
  Value, Items, Bytes, bin, arr, num, nil, cons, str, pair, triple, is_object, has_key, get, is_str,
}
use try_o_rama.Js.Exn.{Result, ok, err, error, codec_error, ◌>>=◌, ◌>>◌, assert_that, read}

-- `encode` and `decode` of `@msgpack/msgpack`; `none` stands for an exception. `decode_other` is
-- what `decode` gives for a value that is neither a byte array nor an array of numbers.
pub record Codec : Type 0 where
  pub encode : Value → Option Bytes
  pub decode : Bytes → Option Value
  pub decode_other : Value → Option Value

-- The bytes of an array of numbers, as `Uint8Array.from` takes them.
unfoldable pub bytes_of : Items → Option Bytes
bytes_of nil = some []
bytes_of (cons (num n) xs) = elim (bytes_of xs) [
  | none ↦ none
  | some bytes ↦ some (n % 256 ∷ bytes)
]
bytes_of (cons v xs) = none

-- What is decoded is what was encoded. msgpack decodes an `undefined` as `null`, so this is a codec
-- that encodes no value with an `undefined` in it: the messages of the server, which has no
-- `undefined`, are all covered, the requests of the client only where no field is `undefined`.
pub record IsLossless (c : Codec) : Type 0 where
  pub decode-encode : (v : Value) (b : Bytes) → c.encode v ≡ some b → c.decode b ≡ some v

unfoldable pub is_response_wrapper : Value → Bool
unfolding has_key
is_response_wrapper v =
    is_object v
    && (has_key "type" v
        && ((has_key "id" v && has_key "response" v) || (has_key "port" v && has_key "data" v)))

unfoldable pub is_api_response : Value → Bool
unfolding has_key
is_api_response v = is_object v && has_key "type" v

unfoldable pub is_raw_signal : Value → Bool
unfolding has_key get is_str
is_raw_signal v =
    is_object v
    && (has_key "type" v
        && (has_key "value" v && (is_str "app" (get "type" v) || is_str "signal" (get "type" v))))

abbrev pub or_codec_error : Option Value → Result Value
or_codec_error none = err codec_error
or_codec_error (some v) = ok v

module _ (codec : Codec) where
  abbrev pub encoded : Value → Result Bytes
  encoded v = elim (codec.encode v) [ none ↦ err codec_error | some b ↦ ok b ]

  -- `msgpack.decode(v)` of an `ArrayLike<number> | BufferSource`: a byte array, or an array of
  -- numbers, as which the TryCP server sends its bytes.
  abbrev pub decoded : Value → Result Value
  decoded (bin b) = or_codec_error (codec.decode b)
  decoded (arr xs) = elim (bytes_of xs) [
    | none ↦ or_codec_error (codec.decode_other (arr xs))
    | some b ↦ or_codec_error (codec.decode b)
  ]
  decoded v = or_codec_error (codec.decode_other v)

  unfoldable pub deserialize_try_cp_response : Bytes → Result Value
  unfolding is_response_wrapper
  deserialize_try_cp_response frame = do
    v ← decoded (bin frame)
    assert_that (is_response_wrapper v)
    ok v

  -- The branch of an app signal, on the signal's value.
  app_signal : Value → Result Value
  unfolding get
  app_signal value = do
    raw ← read "signal" value
    payload ← decoded raw
    ok (
        pair "type" (str "app") "value" (
          triple "cell_id" (get "cell_id" value) "zome_name" (get "zome_name" value) "payload"
            payload))

  unfoldable pub deserialize_try_cp_signal : Value → Result Value
  unfolding is_raw_signal get is_str app_signal
  deserialize_try_cp_signal signal = do
    v ← decoded signal
    assert_that (is_raw_signal v)
    if is_str "app" (get "type" v)
        then app_signal (get "value" v)
        else err (error "Receiving system signals is not implemented yet")

  unfoldable pub deserialize_api_response : Value → Result Value
  unfolding is_api_response
  deserialize_api_response response = do v ← decoded response; assert_that (is_api_response v); ok v

  unfoldable pub deserialize_zome_response_payload : Value → Result Value
  deserialize_zome_response_payload payload = decoded payload
