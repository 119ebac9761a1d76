-- ===== src/Local/Signing.antt =====
-- Zome calls through the app websocket of a local conductor are signed.
use try_o_rama.Prelude.{ℕ, ◌≡◌, refl, sym, ap, ◌∙◌, true, Option, none, some}
use try_o_rama.Js.Value.{Value, Fields, is_some}
use try_o_rama.Js.Exn.{ok}
use try_o_rama.Js.Action.{Action, ◌>>=◌, ◌>>◌, gets, bind-eq_ok}
use try_o_rama.Local.Conductor.{Conductor}
use try_o_rama.Local.Apps.{
  Api, call_outside, get_admin_ws, cell_of_request, ensure_signing_credentials, call_zome,
}

module _ {W : Type 0} (a : Api W) where
  -- What is documented of `authorizeSigningCredentials`: when it returns, the store of
  -- `@holochain/client` has credentials for the cell.
  pub record Authorizes : Type 0 where
    pub provides :
        (ws : ℕ) (cell : Value) (w w' : W)
        → a.authorize_signing_credentials ws cell w ≡ (ok tt, w')
        → is_some (a.signing_credentials cell w') ≡ true

  -- A zome call that returned `v`: the cell, and the states before the credentials are looked for
  -- and before the call is passed on.
  pub record IsSigned (ws : ℕ) (request : Fields) (timeout : Option ℕ) (v : Value)
      (s s' : Conductor × W) : Type 0 where
    pub cell : Value
    pub found : Conductor × W
    pub signing : Conductor × W
    pub cell_found : cell_of_request a ws request s ≡ (ok cell, found)
    pub has_credentials : is_some (a.signing_credentials cell signing.1) ≡ true
    pub passed_on : call_outside a (a.call_zome ws request timeout) signing ≡ (ok v, s')

  outside-eq :
      {A : Type 0} (f : Action W A) (s s' : Conductor × W) {v : A}
      → call_outside a f s ≡ (ok v, s')
      → f s.1 ≡ (ok v, s'.1)
  outside-eq f s s' h = ap (λ x. (x.0, x.1.1)) h

  ensure-has_credentials :
      Authorizes
      → (cell : Value) (o : Option Value) (s s' : Conductor × W)
      → a.signing_credentials cell s.1 ≡ o
      → ensure_signing_credentials a cell o s ≡ (ok tt, s')
      → is_some (a.signing_credentials cell s'.1) ≡ true
  unfolding ensure_signing_credentials
  ensure-has_credentials auth cell none s s' e h =
      let (ws, t, f, g) =
        bind-eq_ok (get_admin_ws a) (λ ws. call_outside a (a.authorize_signing_credentials ws cell))
          h in
      auth.provides ws cell t.1 s'.1 (outside-eq (a.authorize_signing_credentials ws cell) t s' g)
  ensure-has_credentials auth cell (some c) s s' e h =
      ap (λ x. is_some (a.signing_credentials cell x.1.1)) (sym h) ∙ ap is_some e

  -- Whenever `callZome` of a local conductor's app websocket returns, it was passed on, unchanged, in
  -- a state in which the cell that its request names has signing credentials, given that authorizing
  -- credentials provides them.
  pub call_zome-IsSigned :
      (auth : Authorizes) (ws : ℕ) (request : Fields) (timeout : Option ℕ) (s s' : Conductor × W)
      (v : Value)
      → call_zome a ws request timeout s ≡ (ok v, s')
      → IsSigned ws request timeout v s s'
  unfolding call_zome
  call_zome-IsSigned auth ws request timeout s s' v h =
      let last = call_outside a (a.call_zome ws request timeout) in
      let (cell, t, e, g) =
        bind-eq_ok (cell_of_request a ws request)
          (λ cell. call_outside a (gets (a.signing_credentials cell)) >>= λ o.
            ensure_signing_credentials a cell o >> last)
          h in
      let (u, x, f, k) =
        bind-eq_ok (ensure_signing_credentials a cell (a.signing_credentials cell t.1)) (λ u. last)
          g in
      record {
        cell = cell;
        found = t;
        signing = x;
        cell_found = e;
        has_credentials =
            ensure-has_credentials auth cell (a.signing_credentials cell t.1) t x refl f;
        passed_on = k;
      }
