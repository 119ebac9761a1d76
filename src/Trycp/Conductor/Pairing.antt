-- ===== src/Trycp/Conductor/Pairing.antt =====
-- Each admin method of a TryCP conductor against the table of answers: which response answers which
-- request, and what the method makes of any response.
use try_o_rama.Prelude.{
  ◌≡◌, refl, sym, ap, ◌∙◌, not, String, List, [], ◌∷◌, Option, none, some, arith, All,
  if◌then◌else◌,
}
use try_o_rama.Js.Value.{Value, undefined, get, is_str, find_field, is_null, is_string}
use try_o_rama.Js.Exn.{Exn, Result, ok, err, type_error}
use try_o_rama.Js.Action.{Action, pure, ◌>>=◌, ◌>>◌, require}
use try_o_rama.Trycp.Protocol.{call_admin_interface}
use try_o_rama.Trycp.Protocol.Tags.{AdminRequest, AdminResponse, admin_response_tag}
use try_o_rama.Trycp.Services.{Services}
use try_o_rama.Trycp.Conductor.{failed}
use try_o_rama.Trycp.Conductor.Admin.{
  call_admin_api, expect, request_value, request_nothing, register_dna, get_dna_definition,
  get_compatible_cells, revoke_agent_key, install_app, enable_app, disable_app, start_app,
  uninstall_app, update_coordinators, list_apps, dump_full_state, dump_network_stats, storage_info,
  issue_app_authentication_token, generate_agent_pub_key, list_cell_ids, list_dnas,
  list_app_interfaces, grant_zome_call_capability, add_agent_info, delete_clone_cell,
}

-- The response that answers a request; no method sends the request that has none.
abbrev pub answer : AdminRequest → Option AdminResponse
answer AdminRequest.add_agent_info = some AdminResponse.agent_info_added
answer AdminRequest.agent_info = some AdminResponse.agent_info
answer AdminRequest.attach_app_interface = some AdminResponse.app_interface_attached
answer AdminRequest.delete_clone_cell = some AdminResponse.clone_cell_deleted
answer AdminRequest.disable_app = some AdminResponse.app_disabled
answer AdminRequest.dump_full_state = some AdminResponse.full_state_dumped
answer AdminRequest.dump_network_stats = some AdminResponse.network_stats_dumped
answer AdminRequest.dump_state = some AdminResponse.state_dumped
answer AdminRequest.enable_app = some AdminResponse.app_enabled
answer AdminRequest.generate_agent_pub_key = some AdminResponse.agent_pub_key_generated
answer AdminRequest.get_compatible_cells = some AdminResponse.compatible_cells
answer AdminRequest.get_dna_definition = some AdminResponse.dna_definition_returned
answer AdminRequest.grant_zome_call_capability = some AdminResponse.zome_call_capability_granted
answer AdminRequest.install_app = some AdminResponse.app_installed
answer AdminRequest.list_apps = some AdminResponse.apps_listed
answer AdminRequest.list_app_interfaces = some AdminResponse.app_interfaces_listed
answer AdminRequest.list_cell_ids = some AdminResponse.cell_ids_listed
answer AdminRequest.list_dnas = some AdminResponse.dnas_listed
answer AdminRequest.register_dna = some AdminResponse.dna_registered
answer AdminRequest.revoke_agent_key = some AdminResponse.agent_key_revoked
answer AdminRequest.start_app = some AdminResponse.app_started
answer AdminRequest.storage_info = some AdminResponse.storage_info
answer AdminRequest.uninstall_app = some AdminResponse.app_uninstalled
answer AdminRequest.update_coordinators = some AdminResponse.coordinators_updated
answer AdminRequest.issue_app_authentication_token =
    some AdminResponse.app_authentication_token_issued
answer AdminRequest.connect_app_interface = none

-- A response of the right type gives `good` of it; any other one is an exception.
abbrev pub typed {ℓ} : {A : Type ℓ} → Option AdminResponse → Value → A → Result A
typed none response good = err failed
typed (some tag) undefined good = err type_error
typed (some tag) response good =
    if is_str (admin_response_tag tag) (get "type" response) then ok good else err failed

module _ {W : Type 0} (s : Services W) (id : String) where
  -- The method sends one request of this type and with this value, throws what the call throws,
  -- and otherwise returns `good` of the response exactly if that is of the type that answers the
  -- request.
  pub record Conforms {A : Type 0} (good : Value → A) (type : AdminRequest) (value : Option Value)
      (run : Action W A) : Type 0 where
    pub responds :
        (w w' : W) (response : Value)
        → s.call (call_admin_interface id (record { type = type; value = value })) w
          ≡ (ok response, w')
        → run w ≡ (typed (answer type) response (good response), w')
    pub throws :
        (w w' : W) (e : Exn)
        → s.call (call_admin_interface id (record { type = type; value = value })) w ≡ (err e, w')
        → run w ≡ (err e, w')

  -- The two checks behind a call and then the check of the type, for each form of response.
  value_checked :
      (tag : AdminResponse) (response : Value) (w : W)
      → ((require (not (is_null response)) failed
              >> (require (not (is_string response)) failed >> pure response))
            >>= (λ r. expect tag r >> pure (get "value" r)))
          w
        ≡ (typed (some tag) response (get "value" response), w)
  unfolding get is_str find_field
  value_checked tag Value.undefined w = refl
  value_checked tag Value.null w = refl
  value_checked tag (Value.bool b) w = refl
  value_checked tag (Value.num n) w = refl
  value_checked tag (Value.str t) w = refl
  value_checked tag (Value.bin b) w = refl
  value_checked tag (Value.arr xs) w = refl
  value_checked tag (Value.obj fs) w = ground arith

  nothing_checked :
      (tag : AdminResponse) (response : Value) (w : W)
      → ((require (not (is_null response)) failed
              >> (require (not (is_string response)) failed >> pure response))
            >>= expect tag)
          w
        ≡ (typed (some tag) response tt, w)
  unfolding get is_str find_field
  nothing_checked tag Value.undefined w = refl
  nothing_checked tag Value.null w = refl
  nothing_checked tag (Value.bool b) w = refl
  nothing_checked tag (Value.num n) w = refl
  nothing_checked tag (Value.str t) w = refl
  nothing_checked tag (Value.bin b) w = refl
  nothing_checked tag (Value.arr xs) w = refl
  nothing_checked tag (Value.obj fs) w = ground arith

  module _ (type : AdminRequest) (value : Option Value) where
    abbrev sends : Action W Value
    sends = s.call (call_admin_interface id (record { type = type; value = value }))

    request_value-Conforms :
        (tag : AdminResponse)
        → answer type ≡ some tag
        → Conforms (get "value") type value (request_value s id type value tag)
    unfolding request_value call_admin_api
    request_value-Conforms tag e = record {
      responds = λ w w' response c.
          after_call w w' response c
          ∙ (value_checked tag response w'
              ∙ ap (λ t. (typed t response (get "value" response), w')) (sym e));
      throws = λ w w' x c. ground (arith, c);
    }
      where
        rest : Value → Action W Value
        rest r = expect tag r >> pure (get "value" r)

        after_call :
            (w w' : W) (response : Value)
            → sends w ≡ (ok response, w')
            → request_value s id type value tag w
              ≡ ((require (not (is_null response)) failed
                      >> (require (not (is_string response)) failed >> pure response))
                    >>= rest)
                  w'
        after_call w w' response c = ground (arith, c)

    request_nothing-Conforms :
        (tag : AdminResponse)
        → answer type ≡ some tag
        → Conforms (λ _. tt) type value (request_nothing s id type value tag)
    unfolding request_nothing call_admin_api
    request_nothing-Conforms tag e = record {
      responds = λ w w' response c.
          after_call w w' response c
          ∙ (nothing_checked tag response w' ∙ ap (λ t. (typed t response tt, w')) (sym e));
      throws = λ w w' x c. ground (arith, c);
    }
      where
        after_call :
            (w w' : W) (response : Value)
            → sends w ≡ (ok response, w')
            → request_nothing s id type value tag w
              ≡ ((require (not (is_null response)) failed
                      >> (require (not (is_string response)) failed >> pure response))
                    >>= expect tag)
                  w'
        after_call w w' response c = ground (arith, c)

  -- A method, by the request that it sends and its value.
  pub record Method (A : Type 0) : Type 0 where
    pub type : AdminRequest
    pub value : Option Value
    pub run : Action W A

  -- The methods that return the response's value, on any request.
  unfoldable pub value_methods : Value → List (Method Value)
  value_methods v =
      (record { type = AdminRequest.register_dna; value = some v; run = register_dna s id v })
      ∷ (record {
        type = AdminRequest.get_dna_definition;
        value = some v;
        run = get_dna_definition s id v;
      })
      ∷ (record {
        type = AdminRequest.get_compatible_cells;
        value = some v;
        run = get_compatible_cells s id v;
      })
      ∷ (record {
        type = AdminRequest.revoke_agent_key;
        value = some v;
        run = revoke_agent_key s id v;
      })
      ∷ (record { type = AdminRequest.install_app; value = some v; run = install_app s id v })
      ∷ (record { type = AdminRequest.enable_app; value = some v; run = enable_app s id v })
      ∷ (record { type = AdminRequest.disable_app; value = some v; run = disable_app s id v })
      ∷ (record { type = AdminRequest.start_app; value = some v; run = start_app s id v })
      ∷ (record { type = AdminRequest.uninstall_app; value = some v; run = uninstall_app s id v })
      ∷ (record {
        type = AdminRequest.update_coordinators;
        value = some v;
        run = update_coordinators s id v;
      })
      ∷ (record { type = AdminRequest.list_apps; value = some v; run = list_apps s id v })
      ∷ (record {
        type = AdminRequest.dump_full_state;
        value = some v;
        run = dump_full_state s id v;
      })
      ∷ (record {
        type = AdminRequest.dump_network_stats;
        value = some v;
        run = dump_network_stats s id v;
      })
      ∷ (record { type = AdminRequest.storage_info; value = some v; run = storage_info s id v })
      ∷ (record {
        type = AdminRequest.issue_app_authentication_token;
        value = some v;
        run = issue_app_authentication_token s id v;
      })
      ∷ (record {
        type = AdminRequest.generate_agent_pub_key;
        value = none;
        run = generate_agent_pub_key s id;
      })
      ∷ (record { type = AdminRequest.list_cell_ids; value = none; run = list_cell_ids s id })
      ∷ (record { type = AdminRequest.list_dnas; value = none; run = list_dnas s id })
      ∷ (record {
        type = AdminRequest.list_app_interfaces;
        value = none;
        run = list_app_interfaces s id;
      })
      ∷ []

  -- The methods that return nothing.
  unfoldable pub nothing_methods : Value → List (Method (Unit {0}))
  nothing_methods v =
      (record {
        type = AdminRequest.grant_zome_call_capability;
        value = some v;
        run = grant_zome_call_capability s id v;
      })
      ∷ (record { type = AdminRequest.add_agent_info; value = some v; run = add_agent_info s id v })
      ∷ (record {
        type = AdminRequest.delete_clone_cell;
        value = some v;
        run = delete_clone_cell s id v;
      })
      ∷ []

  -- Each of the nineteen methods that return the response's value, and of the three that return
  -- nothing, makes exactly one call, of the request that it is named after; it throws what the call
  -- throws, and otherwise succeeds exactly if the response has the type that the table of answers
  -- gives for the request.
  pub methods_Conform :
      (v : Value)
      → All (λ (m : Method Value). Conforms (get "value") m.type m.value m.run) (value_methods v)
        × All
            (λ (m : Method (Unit {0})). Conforms (λ _. tt) m.type m.value m.run)
            (nothing_methods v)
  unfolding value_methods nothing_methods register_dna get_dna_definition get_compatible_cells
      revoke_agent_key install_app enable_app disable_app start_app uninstall_app
      update_coordinators list_apps dump_full_state dump_network_stats storage_info
      issue_app_authentication_token generate_agent_pub_key list_cell_ids list_dnas
      list_app_interfaces grant_zome_call_capability add_agent_info delete_clone_cell
  methods_Conform v =
      (search (request_value-Conforms, tt) depth 30, search (request_nothing-Conforms, tt))
