-- ===== src/Trycp/Linked.antt =====
-- A conductor on a client (ts/src/trycp/trycp-client.ts) on a server: each call of the conductor is a
-- frame on the wire, and its promise settles when the reply to that frame arrives.
pub mod Encoding
pub mod Calls
pub mod Faithful
pub mod Scenarios
pub mod Waiting
use try_o_rama.Prelude.{ℕ, ◌≡◌, List, [], ◌∷◌, Option, none, some, true, get_elem?}
use try_o_rama.Js.Value.{Value, Bytes}
use try_o_rama.Js.Exn.{Result, ok, err, never, refused}
use try_o_rama.Js.Action.{Action}
use try_o_rama.Trycp.Protocol.{TryCpRequest, TryCpResponse, success, failure, response_message}
use try_o_rama.Trycp.Codec.{Codec}
use try_o_rama.Trycp.Services.{Services}
use try_o_rama.Trycp.Client.{
  Promise, pending, resolved, rejected, World, call, on_message, process_success_response,
  set_signal_handler, unset_signal_handler,
}
use try_o_rama.Trycp.Client.Invariant.{Event, run}
use try_o_rama.Trycp.Client.Reader.{read_call}

-- What a server answers to a request, and its state after that.
abbrev pub Handler : Type 0 → Type 0
Handler X = TryCpRequest → X → TryCpResponse × X

-- What the caller of a response gets.
unfoldable pub meaning : Codec → TryCpResponse → Result Value
meaning codec (success v) = process_success_response codec v
meaning codec (failure v) = err (refused v)

-- `await promise`
abbrev pub awaited : Option Promise → Result Value
awaited none = err never
awaited (some pending) = err never
awaited (some (resolved v)) = ok v
awaited (some (rejected e)) = err e

-- What does not go through a client.
abbrev pub aside : {X A : Type 0} → Action X A → Action (World × X) A
aside m (w, x) = let (r, x') = m x in (r, (w, x'))

-- `X` is the state of the server and of all else that the services use.
module _ {X : Type 0} (s : Services X) (c : ℕ) (handler : Handler X)
    (traffic : World → List Event) where
  abbrev replied : TryCpResponse × X → ℕ → Option Bytes × X
  replied (r, x) id = (s.codec.encode (response_message id r), x)

  -- The server on a frame: the reply, if there is one.
  unfoldable pub serve_frame : Bytes → X → Option Bytes × X
  serve_frame frame x = elim (read_call s.codec frame) [
    | none ↦ (none, x)
    | some (id, request) ↦ replied (handler request x) id
  ]

  abbrev pub deliver : Option Bytes → World → World
  deliver none w = w
  deliver (some reply) w = (on_message s.codec c reply w).1

  -- The frame goes to the server; `traffic` is what else happens to the clients of the process until
  -- the reply comes.
  unfoldable pub answered : ℕ → List Bytes → Action (World × X) Value
  answered p [] (w, x) = (err never, (w, x))
  answered p (frame ∷ frames) (w, x) =
      let (reply, x') = serve_frame frame x in
      let w' = deliver reply (run s.codec w (traffic w)) in
      (awaited (get_elem? w'.promises p), (w', x'))

  -- What the caller gets behind the call: its exception, or what its promise comes to.
  abbrev pub behind : X → Result ℕ × World → Result Value × (World × X)
  behind x (err e, w) = (err e, (w, x))
  behind x (ok p, w) = answered p (w.client c).sent (w, x)

  -- `await this.tryCpClient.call(request)` on a client that is connected.
  unfoldable pub call_over : TryCpRequest → Action (World × X) Value
  unfolding answered
  call_over request (w, x) = behind x (call s.codec c request true w)

  -- The services of a conductor whose client is client `c`.
  unfoldable pub linked : Services (World × X)
  linked = record {
    call = call_over;
    close = aside s.close;
    set_signal_handler =
        λ port h (w, x). (set_signal_handler c port h w, s.set_signal_handler port h x);
    unset_signal_handler =
        λ port (w, x). (unset_signal_handler c port w, s.unset_signal_handler port x);
    bootstrap_server_url = λ (w, x). s.bootstrap_server_url x;
    signaling_server_url = λ (w, x). s.signaling_server_url x;
    uuid = aside s.uuid;
    get_port = λ from to. aside (s.get_port from to);
    signing_credentials = λ cell (w, x). s.signing_credentials cell x;
    set_signing_credentials = λ cell k (w, x). (w, s.set_signing_credentials cell k x);
    generate_signing_key_pair = aside s.generate_signing_key_pair;
    random_cap_secret = aside s.random_cap_secret;
    sign_zome_call = λ request. aside (s.sign_zome_call request);
    codec = s.codec;
    parse_json = s.parse_json;
  }

  -- A call without client and wire: the server's answer as the caller gets it.
  unfoldable pub direct_call : TryCpRequest → Action X Value
  direct_call request x = let (r, x') = handler request x in (meaning s.codec r, x')

  unfoldable pub direct : Services X
  direct = record s { call = direct_call }
