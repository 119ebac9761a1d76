-- ===== src/Trycp/Client/Typed.antt =====
-- What the client makes of responses and signals of the types that the protocol declares.
use try_o_rama.Prelude.{◌≡◌, refl, subst, true, false, none, some, arith, Option-cases, inl, inr}
use try_o_rama.Js.Value.{Value, Bytes, null, str, bin, get, find_field, has_key, is_str}
use try_o_rama.Js.Exn.{Result, ok, err, api_error}
use try_o_rama.Trycp.Protocol.Tags.{
  AdminResponse, AppResponse, admin_response_tag, app_response_tag,
}
use try_o_rama.Trycp.Protocol.Responses.{
  TryCpApiResponse, TryCpSuccessResponse, admin, app, download_logs, failed, empty, text, api,
  api_response_object, api_error_object, serialized_response,
}
use try_o_rama.Trycp.Codec.{Codec, IsLossless, is_api_response}
use try_o_rama.Trycp.Client.{process_success_response}
use try_o_rama.Trycp.Client.Responses.{
  is_printable, IsLogged, process_success_response-ok_iff, process_success_response-error,
}

-- The value of a response, if it has one, can be printed in the log.
abbrev pub IsPrintable : TryCpSuccessResponse → Type 0
IsPrintable (api (admin tag (some v))) = is_printable v ≡ true
IsPrintable (api (app tag (some v))) = is_printable v ≡ true
IsPrintable r = Unit

-- What a caller gets of a response.
abbrev pub received : TryCpSuccessResponse → Result Value
received empty = ok null
received (text t) = ok (str t)
received (api (failed e)) = err (api_error (api_error_object e))
received (api r) = ok (api_response_object r)

some_inj : {v w : Value} → some v ≡ some w → v ≡ w
some_inj h = cc

admin_tag-ne_error : (t : AdminResponse) → is_str "error" (str (admin_response_tag t)) ≡ false
unfolding is_str
admin_tag-ne_error AdminResponse.agent_info = refl
admin_tag-ne_error AdminResponse.agent_info_added = refl
admin_tag-ne_error AdminResponse.agent_pub_key_generated = refl
admin_tag-ne_error AdminResponse.app_disabled = refl
admin_tag-ne_error AdminResponse.app_enabled = refl
admin_tag-ne_error AdminResponse.app_installed = refl
admin_tag-ne_error AdminResponse.app_interface_attached = refl
admin_tag-ne_error AdminResponse.app_interfaces_listed = refl
admin_tag-ne_error AdminResponse.app_started = refl
admin_tag-ne_error AdminResponse.app_uninstalled = refl
admin_tag-ne_error AdminResponse.apps_listed = refl
admin_tag-ne_error AdminResponse.cell_ids_listed = refl
admin_tag-ne_error AdminResponse.clone_cell_deleted = refl
admin_tag-ne_error AdminResponse.coordinators_updated = refl
admin_tag-ne_error AdminResponse.dna_definition_returned = refl
admin_tag-ne_error AdminResponse.compatible_cells = refl
admin_tag-ne_error AdminResponse.dnas_listed = refl
admin_tag-ne_error AdminResponse.dna_registered = refl
admin_tag-ne_error AdminResponse.full_state_dumped = refl
admin_tag-ne_error AdminResponse.network_stats_dumped = refl
admin_tag-ne_error AdminResponse.agent_key_revoked = refl
admin_tag-ne_error AdminResponse.state_dumped = refl
admin_tag-ne_error AdminResponse.storage_info = refl
admin_tag-ne_error AdminResponse.app_authentication_token_issued = refl
admin_tag-ne_error AdminResponse.zome_call_capability_granted = refl

app_tag-ne_error : (t : AppResponse) → is_str "error" (str (app_response_tag t)) ≡ false
unfolding is_str
app_tag-ne_error AppResponse.app_info = refl
app_tag-ne_error AppResponse.ok = refl
app_tag-ne_error AppResponse.zome_call = refl
app_tag-ne_error AppResponse.clone_cell_created = refl
app_tag-ne_error AppResponse.clone_cell_enabled = refl
app_tag-ne_error AppResponse.clone_cell_disabled = refl
app_tag-ne_error AppResponse.network_info = refl

module _ (codec : Codec) (good : IsLossless codec) where
  tagged :
      {u : Value} (b : Bytes)
      → codec.decode b ≡ some u
      → is_api_response u ≡ true
      → is_str "error" (get "type" u) ≡ false
      → IsLogged u
      → process_success_response codec (bin b) ≡ ok u
  tagged {u} b d i e l = (process_success_response-ok_iff codec b u).1 (d, i, e, l)

  -- An API response on the wire, if it can be encoded.
  api-received :
      (r : TryCpApiResponse) (b : Bytes)
      → codec.encode (api_response_object r) ≡ some b
      → IsPrintable (api r)
      → process_success_response codec (bin b) ≡ received (api r)
  unfolding api_response_object is_api_response has_key get find_field is_str
  api-received (admin t none) b e p =
      tagged b (good.decode-encode _ b e) refl (admin_tag-ne_error t) (inl refl)
  api-received (admin t (some v)) b e p =
      tagged b (good.decode-encode _ b e) refl (admin_tag-ne_error t) (inr p)
  api-received (app t none) b e p =
      tagged b (good.decode-encode _ b e) refl (app_tag-ne_error t) (inl refl)
  api-received (app t (some v)) b e p =
      tagged b (good.decode-encode _ b e) refl (app_tag-ne_error t) (inr p)
  api-received (download_logs logs) b e p = tagged b (good.decode-encode _ b e) refl refl (inl refl)
  api-received (failed x) b e p =
      process_success_response-error codec b (api_response_object (failed x))
        (good.decode-encode _ b e) refl refl

  -- For a codec that loses nothing: of every successful response of a type that the protocol declares
  -- and that can be encoded, whose value can be printed if it is an admin or app response, the
  -- caller of a request gets the response itself, `null` for an empty one, and a rejection with the
  -- error's type and value for an error response.
  pub process_success_response-received :
      (r : TryCpSuccessResponse) (v : Value)
      → serialized_response codec r ≡ some v
      → IsPrintable r
      → process_success_response codec v ≡ received r
  unfolding serialized_response process_success_response
  process_success_response-received empty v h p =
      subst (λ v. process_success_response codec v ≡ ok null) (some_inj h) refl
  process_success_response-received (text t) v h p =
      subst (λ v. process_success_response codec v ≡ ok (str t)) (some_inj h) refl
  process_success_response-received (api r) v h p =
      elim (Option-cases (codec.encode (api_response_object r))) [
        | inl e ↦ absurd (ground (arith, e, h))
        | inr (b, e) ↦
            subst (λ v. process_success_response codec v ≡ received (api r))
              (some_inj {v = bin b} (ground (arith, e, h))) (api-received r b e p)
      ]
