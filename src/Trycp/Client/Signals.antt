-- ===== src/Trycp/Client/Signals.antt =====
-- The way of a signal of an app from the server's frame to the handler of its port.
use try_o_rama.Prelude.{ℕ, ◌≡◌, Option, none, some, ◌∷◌, arith}
use try_o_rama.Js.Value.{Value, Bytes, str, bin, pair, triple, get, find_field, has_key, is_str}
use try_o_rama.Js.Exn.{ok}
use try_o_rama.Trycp.Protocol.{signal_message}
use try_o_rama.Trycp.Codec.{
  Codec, IsLossless, deserialize_try_cp_response, deserialize_try_cp_signal, is_response_wrapper,
  is_raw_signal,
}
use try_o_rama.Trycp.Client.{World, put, handler, on_message, on_wrapper, on_signal}
use try_o_rama.Prelude.Dict.{lookup}

-- A signal of an app, as a conductor's zome emits it.
pub record AppSignal : Type 0 where
  pub cell_id : Value
  pub zome_name : Value
  pub payload : Value

-- What a handler gets of it.
abbrev pub app_signal_object : AppSignal → Value
app_signal_object s =
    pair "type" (str "app") "value"
      (triple "cell_id" s.cell_id "zome_name" s.zome_name "payload" s.payload)

-- What travels: the payload is encoded, and then the signal around it.
abbrev pub raw_signal_object : AppSignal → Bytes → Value
raw_signal_object s payload =
    pair "type" (str "app") "value"
      (triple "cell_id" s.cell_id "zome_name" s.zome_name "signal" (bin payload))

-- The handler of a port of a client.
abbrev pub handler_at : World → ℕ → ℕ → Option ℕ
handler_at w c port = handler (lookup port (w.client c).signal_handlers)

-- A handler, if there is one, is called with a signal.
abbrev pub called_with : ℕ → Option ℕ → Value → World → World
called_with c none v w = w
called_with c (some h) v w =
    put c (record (w.client c) { signals = (h, v) ∷ (w.client c).signals }) w

module _ (codec : Codec) (good : IsLossless codec) (s : AppSignal) (payload raw frame : Bytes)
    (c port : ℕ) (w : World) where
  deserialize_signal :
      codec.encode s.payload ≡ some payload
      → codec.encode (raw_signal_object s payload) ≡ some raw
      → deserialize_try_cp_signal codec (bin raw) ≡ ok (app_signal_object s)
  unfolding deserialize_try_cp_signal is_raw_signal has_key get find_field is_str
  deserialize_signal p r = ground (
    arith,
    good.decode-encode s.payload payload p,
    good.decode-encode (raw_signal_object s payload) raw r,
  )

  -- If the codec loses nothing, then the frame of an app's signal for a port calls the handler that is
  -- set for that port of that client, and no other, once, with the signal and its payload decoded;
  -- without a handler it does nothing. Nothing else changes.
  pub on_message-signal :
      codec.encode s.payload ≡ some payload
      → codec.encode (raw_signal_object s payload) ≡ some raw
      → codec.encode (signal_message port raw) ≡ some frame
      → on_message codec c frame w
        ≡ (ok tt, called_with c (handler_at w c port) (app_signal_object s) w)
  unfolding on_message on_wrapper on_signal deserialize_try_cp_response is_response_wrapper
      signal_message has_key get find_field is_str
  on_message-signal p r f =
      ground (arith, good.decode-encode (signal_message port raw) frame f, deserialize_signal p r)
