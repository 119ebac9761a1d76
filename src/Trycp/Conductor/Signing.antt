-- ===== src/Trycp/Conductor/Signing.antt =====
-- When a zome call of a TryCP conductor is signed, and what an installation sends.
use try_o_rama.Prelude.{◌≡◌, refl, sym, ap, ◌∙◌, String, ℕ, length, Option, none, some, arith, not}
use try_o_rama.Js.Value.{Value, get, triple, is_null, is_string, truthy, undefined}
use try_o_rama.Js.Exn.{Result, ok, err, no_credentials, in_object}
use try_o_rama.Js.Action.{
  Action, lift, gets, require, modify, pure, ◌>>=◌, ◌>>◌, bind-eq_ok, IsSized, promise_all-IsSized,
}
use try_o_rama.Types.{AgentApps, AgentsAppsOptions}
use try_o_rama.Trycp.Protocol.{call_app_interface}
use try_o_rama.Trycp.Protocol.Tags.{AppRequest}
use try_o_rama.Trycp.Services.{Services}
use try_o_rama.Trycp.Codec.{deserialize_zome_response_payload}
use try_o_rama.Trycp.Conductor.{failed}
use try_o_rama.Trycp.Conductor.Admin.{grant_signing_key, or_all, authorize_signing_credentials}
use try_o_rama.Trycp.Conductor.App.{
  call_app_api, ensure_credentials, checked_credentials, call_zome,
}
use try_o_rama.Trycp.Conductor.Install.{install_app, install_agent_app, install_agents_apps}

-- `getSigningCredentials` after `setSigningCredentials` for the same cell.
pub record RemembersCredentials {W : Type 0} (s : Services W) : Type 0 where
  pub remembers :
      (cell v : Value) (w : W)
      → s.signing_credentials cell (s.set_signing_credentials cell v w) ≡ some v

module _ {W : Type 0} (s : Services W) (id : String) where
  -- Where the store of credentials remembers what is set, a cell for which credentials have been
  -- authorized has some.
  authorized_present :
      (cell functions : Value) (w w' : W)
      → RemembersCredentials s
      → authorize_signing_credentials s id cell functions w ≡ (ok tt, w')
      → (v : Value) × (s.signing_credentials cell w' ≡ some v)
  unfolding authorize_signing_credentials
  authorized_present cell functions w w' law h =
      let (keys, w1, _, h1) = bind-eq_ok s.generate_signing_key_pair with_keys h in
      let (secret, w2, _, h2) = bind-eq_ok (granted keys) (with_secret keys) h1 in
      (_, ap (λ x. s.signing_credentials cell x.1) (sym h2) ∙ law.remembers cell _ w2)
    where
      granted : Value × Value → Action W Value
      granted keys = grant_signing_key s id cell (or_all functions) keys.1

      with_secret : Value × Value → Value → Action W (Unit {0})
      with_secret keys secret = modify (
          s.set_signing_credentials cell
            (triple "capSecret" secret "keyPair" keys.0 "signingKey" keys.1))

      with_keys : Value × Value → Action W (Unit {0})
      with_keys keys = granted keys >>= with_secret keys

  ensured_present :
      (port : ℕ) (cell : Value) (before : Option Value) (w w' : W)
      → RemembersCredentials s
      → s.signing_credentials cell w ≡ before
      → ensure_credentials s id port cell before w ≡ (ok tt, w')
      → (v : Value) × (s.signing_credentials cell w' ≡ some v)
  unfolding ensure_credentials
  ensured_present port cell none w w' law e h = authorized_present cell undefined w w' law h
  ensured_present port cell (some v) w w' law e h =
      (v, ap (λ x. s.signing_credentials cell x.1) (sym h) ∙ e)

  module _ (port : ℕ) (request : Value) where
    abbrev pub cell : Value
    cell = get "cell_id" request

    -- What a zome call that returns `v` has done.
    pub record Signed (w w' : W) (v : Value) : Type 0 where
      pub before : W
      pub credentials : Value
      pub present : s.signing_credentials cell before ≡ some credentials
      pub signed : Value
      pub after : W
      pub signs : s.sign_zome_call request before ≡ (ok signed, after)
      pub response : Value
      pub sends :
          s.call
            (call_app_interface port (record { type = AppRequest.call_zome; value = some signed }))
            after
          ≡ (ok response, w')
      pub decodes : deserialize_zome_response_payload s.codec (get "value" response) ≡ ok v

    checked_present :
        (c : Option Value) (w w' : W)
        → checked_credentials cell c w ≡ (ok tt, w')
        → (v : Value) × (c ≡ some v) × (w' ≡ w)
    unfolding checked_credentials
    checked_present none w w' h = cc
    checked_present (some v) w w' h = (v, refl, ap (λ x. x.1) (sym h))

    -- What is done with the response to a signed call.
    abbrev decoding : Value → Action W Value
    decoding response = do
      present ← lift (in_object "value" response)
      require present failed
      require (truthy (get "value" response)) failed
      bytes ← lift (in_object "BYTES_PER_ELEMENT" (get "value" response))
      require bytes failed
      lift (deserialize_zome_response_payload s.codec (get "value" response))

    abbrev sending : Value → Action W Value
    sending signed = call_app_api s id port AppRequest.call_zome (some signed) >>= decoding

    abbrev signing : Option Value → Action W Value
    signing c = checked_credentials cell c >> (s.sign_zome_call request >>= sending)

    abbrev checking : Action W Value
    checking = gets (s.signing_credentials cell) >>= signing

    abbrev ensuring : Option Value → Action W Value
    ensuring before = ensure_credentials s id port cell before >> checking

    abbrev posting : Value → Action W Value
    posting signed =
        s.call
          (call_app_interface port (record { type = AppRequest.call_zome; value = some signed }))

    abbrev accepting : Value → Action W Value
    accepting r = require (not (is_null r)) failed >> (require (not (is_string r)) failed >> pure r)

    accepting_ok :
        (r response : Value) (w w' : W)
        → accepting r w ≡ (ok response, w')
        → (r ≡ response) × (w ≡ w')
    accepting_ok r response w w' h = ground arith

    decoding_ok :
        (response : Value) (w w' : W) (v : Value)
        → decoding response w ≡ (ok v, w')
        → (w ≡ w') × (deserialize_zome_response_payload s.codec (get "value" response) ≡ ok v)
    decoding_ok response w w' v h = ground arith

    got :
        (w1 w2 w3 : W) (c : Option Value) (v : Value)
        → gets (s.signing_credentials cell) w1 ≡ (ok c, w2)
        → w3 ≡ w2
        → c ≡ some v
        → s.signing_credentials cell w3 ≡ some v
    got w1 w2 w3 c v e f g = ground arith

    reached :
        (raw response : Value) (w5 w6 w' : W)
        → raw ≡ response
        → w6 ≡ w5
        → w5 ≡ w'
        → ◌≡◌ {A = Result Value × W} (ok raw, w6) (ok response, w')
    reached raw response w5 w6 w' e f g = cc

    -- A zome call that returns a value has signed the request while the cell had credentials, sent
    -- the signed request to the app interface of the port as its last request, and returns what the
    -- bytes of the response's value decode to.
    pub call_zome_Signed :
        (w w' : W) (v : Value) → call_zome s id port request w ≡ (ok v, w') → Signed w w' v
    unfolding call_zome call_app_api
    call_zome_Signed w w' v h =
        let (before, w0, e0, h0) = bind-eq_ok (gets (s.signing_credentials cell)) ensuring h in
        let (_, w1, _, h1) =
          bind-eq_ok (ensure_credentials s id port cell before) (λ _. checking) h0 in
        let (c, w2, e2, h2) = bind-eq_ok (gets (s.signing_credentials cell)) signing h1 in
        let (_, w3, e3, h3) =
          bind-eq_ok (checked_credentials cell c) (λ _. s.sign_zome_call request >>= sending) h2 in
        let (credentials, present, same) = checked_present c w2 w3 e3 in
        let (signed, w4, e4, h4) = bind-eq_ok (s.sign_zome_call request) sending h3 in
        let (response, w5, e5, h5) =
          bind-eq_ok (call_app_api s id port AppRequest.call_zome (some signed)) decoding h4 in
        let (raw, w6, e6, h6) = bind-eq_ok (posting signed) accepting e5 in
        let (same4, d) = decoding_ok response w5 w' v h5 in
        let (same5, same6) = accepting_ok raw response w6 w5 h6 in
        record {
          before = w3;
          credentials = credentials;
          present = got w1 w2 w3 c credentials e2 same present;
          signed = signed;
          after = w4;
          signs = e4;
          response = response;
          sends = e6 ∙ reached raw response w5 w6 w' same5 same6 same4;
          decodes = d;
        }

    -- A cell that has no credentials, and has none either after they were authorized, is not
    -- called: the call throws, and nothing is signed or sent.
    call_zome_without_credentials :
        (w w' : W)
        → s.signing_credentials cell w ≡ none
        → authorize_signing_credentials s id cell undefined w ≡ (ok tt, w')
        → s.signing_credentials cell w' ≡ none
        → call_zome s id port request w ≡ (err (no_credentials cell), w')
    unfolding call_zome ensure_credentials checked_credentials
    call_zome_without_credentials w w' e a f = ground arith

  -- Installing an app for one of several agents is installing it with that agent's key and role
  -- settings, and with the app id and the network seed that are common to all the agents: those of
  -- the agent's own options are not read.
  install_agent_app-eq :
      (options : AgentsAppsOptions) (a : AgentApps)
      → install_agent_app s id options a
        ≡ install_app s id a.app (record {
          agent_pub_key = a.options.agent_pub_key;
          installed_app_id = options.installed_app_id;
          network_seed = options.network_seed;
          roles_settings = a.options.roles_settings;
          signal_handler = none;
        })
  unfolding install_agent_app install_app
  install_agent_app-eq options a = refl

  -- Installing apps for several agents gives one result for each agent, if every installation
  -- succeeds.
  pub install_agents_apps-IsSized :
      (options : AgentsAppsOptions) (w : W)
      → IsSized (length options.agents_apps) (install_agents_apps s id options w).0
  unfolding install_agents_apps
  install_agents_apps-IsSized options w =
      promise_all-IsSized (install_agent_app s id options) options.agents_apps w
