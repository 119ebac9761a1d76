-- ===== src/Trycp/Client/Frames.antt =====
-- The frames that the client sends can be read: the reader gives back every call.
use try_o_rama.Prelude.{ℕ, ◌≡◌, refl, ap, ◌∙◌, String, Option, none, some, arith, subst, inl, inr}
use try_o_rama.Js.Value.{Value, Bytes, num, str, bin, triple, get, find_field}
use try_o_rama.Js.Exn.{Result, ok, err, codec_error, Result-cases}
use try_o_rama.Trycp.Protocol.{
  AdminMessage, AppMessage, TryCpRequest, download_dna, save_dna, configure_player, startup,
  shutdown, reset, connect_app_interface, disconnect_app_interface, call_app_interface,
  call_app_interface_encoded, tagged, call_admin_interface, download_logs, admin_message,
  app_message, request_object, call_object,
}
use try_o_rama.Trycp.Protocol.Tags.{
  AdminRequest, AppRequest, LogLevel, admin_request_tag, app_request_tag, log_level_tag,
}
use try_o_rama.Trycp.Codec.{Codec, IsLossless, encoded}
use try_o_rama.Trycp.Client.{serialize_request, serialize_call}
use try_o_rama.Trycp.Client.Reader.{
  ◌>>=◌, number, tagged_as, app_requests, admin_requests, log_level, read_message, read_request,
  read_call, read_app_call,
}

encoded-eq_ok :
    (codec : Codec) (v : Value) (b : Bytes) → encoded codec v ≡ ok b → codec.encode v ≡ some b
encoded-eq_ok codec v b h = ground arith

log_level-tag : (l : LogLevel) → log_level (str (log_level_tag l)) ≡ some (some l)
log_level-tag LogLevel.error = refl
log_level-tag LogLevel.warn = refl
log_level-tag LogLevel.info = refl
log_level-tag LogLevel.debug = refl
log_level-tag LogLevel.trace = refl

app_request-tag :
    (t : AppRequest) → tagged_as app_request_tag app_requests (app_request_tag t) ≡ some t
app_request-tag AppRequest.call_zome = refl
app_request-tag AppRequest.app_info = refl
app_request-tag AppRequest.provide_memproofs = refl
app_request-tag AppRequest.enable_app = refl
app_request-tag AppRequest.create_clone_cell = refl
app_request-tag AppRequest.enable_clone_cell = refl
app_request-tag AppRequest.disable_clone_cell = refl
app_request-tag AppRequest.network_info = refl

admin_request-tag :
    (t : AdminRequest) → tagged_as admin_request_tag admin_requests (admin_request_tag t) ≡ some t
admin_request-tag AdminRequest.add_agent_info = refl
admin_request-tag AdminRequest.agent_info = refl
admin_request-tag AdminRequest.attach_app_interface = refl
admin_request-tag AdminRequest.connect_app_interface = refl
admin_request-tag AdminRequest.delete_clone_cell = refl
admin_request-tag AdminRequest.disable_app = refl
admin_request-tag AdminRequest.dump_full_state = refl
admin_request-tag AdminRequest.dump_network_stats = refl
admin_request-tag AdminRequest.dump_state = refl
admin_request-tag AdminRequest.enable_app = refl
admin_request-tag AdminRequest.generate_agent_pub_key = refl
admin_request-tag AdminRequest.get_compatible_cells = refl
admin_request-tag AdminRequest.get_dna_definition = refl
admin_request-tag AdminRequest.grant_zome_call_capability = refl
admin_request-tag AdminRequest.install_app = refl
admin_request-tag AdminRequest.list_apps = refl
admin_request-tag AdminRequest.list_app_interfaces = refl
admin_request-tag AdminRequest.list_cell_ids = refl
admin_request-tag AdminRequest.list_dnas = refl
admin_request-tag AdminRequest.register_dna = refl
admin_request-tag AdminRequest.revoke_agent_key = refl
admin_request-tag AdminRequest.start_app = refl
admin_request-tag AdminRequest.storage_info = refl
admin_request-tag AdminRequest.uninstall_app = refl
admin_request-tag AdminRequest.update_coordinators = refl
admin_request-tag AdminRequest.issue_app_authentication_token = refl

app_message-read :
    (t : AppRequest) (v : Option Value)
    → read_message
        (tagged_as app_request_tag app_requests)
        (app_message (record { type = t; value = v }))
      ≡ some (t, v)
unfolding read_message app_message find_field
app_message-read t none = ap (λ o. o >>= λ a. some (a, none)) (app_request-tag t)
app_message-read t (some v) = ap (λ o. o >>= λ a. some (a, some v)) (app_request-tag t)

admin_message-read :
    (t : AdminRequest) (v : Option Value)
    → read_message
        (tagged_as admin_request_tag admin_requests)
        (admin_message (record { type = t; value = v }))
      ≡ some (t, v)
unfolding read_message admin_message find_field
admin_message-read t none = ap (λ o. o >>= λ a. some (a, none)) (admin_request-tag t)
admin_message-read t (some v) = ap (λ o. o >>= λ a. some (a, some v)) (admin_request-tag t)

ok-injective : {A : Type 0} {a b : A} → ok a ≡ ok b → a ≡ b
ok-injective h = cc

-- A message encoded, or not, and put into its call.
abbrev octets_of : Option Bytes → Result Bytes
octets_of none = err codec_error
octets_of (some b) = ok b

abbrev wrapped : Result Bytes → (Bytes → Result Value) → Result Value
wrapped (err e) f = err e
wrapped (ok b) f = f b

read_app_call-message :
    (p : ℕ) (t : AppRequest) (v : Option Value)
    → read_app_call p (app_message (record { type = t; value = v }))
      ≡ some (call_app_interface p (record { type = t; value = v }))
unfolding app_message tagged
read_app_call-message p t none =
    ap (λ o. o >>= λ r. some (call_app_interface p (record { type = r.0; value = r.1 })))
      (app_message-read t none)
read_app_call-message p t (some v) =
    ap (λ o. o >>= λ r. some (call_app_interface p (record { type = r.0; value = r.1 })))
      (app_message-read t (some v))

module _ (codec : Codec) (good : IsLossless codec) where
  -- What a request is turned into is read as the request.
  abbrev IsRead : TryCpRequest → Value → Type 0
  IsRead r v = read_request codec v ≡ some r

  plain-IsRead : (r : TryCpRequest) {o v : Value} → IsRead r o → ok o ≡ ok v → IsRead r v
  plain-IsRead r i h = subst (IsRead r) (ok-injective h) i

  app_call-IsRead :
      (p : ℕ) (m : AppMessage) {v : Value} (o : Option Bytes)
      → codec.encode (app_message m) ≡ o
      → wrapped
          (octets_of o)
          (λ b. ok (triple "type" (str "call_app_interface") "port" (num p) "message" (bin b)))
        ≡ ok v
      → IsRead (call_app_interface p m) v
  unfolding read_request get find_field
  app_call-IsRead p m none e h = absurd (cc)
  app_call-IsRead p m (some b) e h =
      plain-IsRead (call_app_interface p m)
        (ap (λ o. o >>= λ x. read_app_call p x) (good.decode-encode (app_message m) b e)
          ∙ read_app_call-message p m.type m.value)
        h

  encoded_call-IsRead :
      (p : ℕ) (m : Bytes) {v : Value} (o : Option Bytes)
      → codec.encode (bin m) ≡ o
      → wrapped
          (octets_of o)
          (λ b. ok (triple "type" (str "call_app_interface") "port" (num p) "message" (bin b)))
        ≡ ok v
      → IsRead (call_app_interface_encoded p m) v
  unfolding read_request get find_field
  encoded_call-IsRead p m none e h = absurd (cc)
  encoded_call-IsRead p m (some b) e h =
      plain-IsRead (call_app_interface_encoded p m)
        (ap (λ o. o >>= λ x. read_app_call p x) (good.decode-encode (bin m) b e)) h

  admin_call-IsRead :
      (i : String) (m : AdminMessage) {v : Value} (o : Option Bytes)
      → codec.encode (admin_message m) ≡ o
      → wrapped
          (octets_of o)
          (λ b. ok (triple "type" (str "call_admin_interface") "id" (str i) "message" (bin b)))
        ≡ ok v
      → IsRead (call_admin_interface i m) v
  unfolding read_request get find_field
  admin_call-IsRead i m none e h = absurd (cc)
  admin_call-IsRead i m (some b) e h =
      plain-IsRead (call_admin_interface i m)
        (ap
            (λ o. o >>= λ x. read_message (tagged_as admin_request_tag admin_requests) x >>= λ r.
              some (call_admin_interface i (record { type = r.0; value = r.1 })))
            (good.decode-encode (admin_message m) b e)
          ∙ ap (λ o. o >>= λ r. some (call_admin_interface i (record { type = r.0; value = r.1 })))
              (admin_message-read m.type m.value))
        h

  request-IsRead : (r : TryCpRequest) {v : Value} → serialize_request codec r ≡ ok v → IsRead r v
  unfolding serialize_request request_object read_request get find_field
  request-IsRead (download_dna url) h = plain-IsRead (download_dna url) refl h
  request-IsRead (save_dna i b) h = plain-IsRead (save_dna i b) refl h
  request-IsRead (configure_player i c) h = plain-IsRead (configure_player i c) refl h
  request-IsRead (startup i none) h = plain-IsRead (startup i none) refl h
  request-IsRead (startup i (some l)) h =
      plain-IsRead (startup i (some l)) (ap (λ o. o >>= λ x. some (startup i x)) (log_level-tag l))
        h
  request-IsRead (shutdown i none) h = plain-IsRead (shutdown i none) refl h
  request-IsRead (shutdown i (some s)) h = plain-IsRead (shutdown i (some s)) refl h
  request-IsRead reset h = plain-IsRead reset refl h
  request-IsRead (connect_app_interface t p) h = plain-IsRead (connect_app_interface t p) refl h
  request-IsRead (disconnect_app_interface p) h = plain-IsRead (disconnect_app_interface p) refl h
  request-IsRead (download_logs i) h = plain-IsRead (download_logs i) refl h
  request-IsRead (call_app_interface p m) h = app_call-IsRead p m _ refl h
  request-IsRead (call_app_interface_encoded p m) h = encoded_call-IsRead p m _ refl h
  request-IsRead (call_admin_interface i m) h = admin_call-IsRead i m _ refl h

  -- Every call that the client can send is read back by a server: from the frame, if the codec loses
  -- nothing, the reader gets the request id and the request, the message inside a call of the admin
  -- or the app interface included.
  pub serialize_call-read_call :
      (id : ℕ) (r : TryCpRequest) (frame : Bytes)
      → serialize_call codec id r ≡ ok frame
      → read_call codec frame ≡ some (id, r)
  unfolding serialize_call read_call call_object get find_field
  serialize_call-read_call id r frame h = elim (Result-cases (serialize_request codec r)) [
    | inr (x, e) ↦ absurd (ground arith)
    | inl (v, e) ↦
        let sent : codec.encode (call_object id v) ≡ some frame =
          encoded-eq_ok codec (call_object id v) frame (sent_call id v h e) in
        ap
          (λ o. o >>= λ x.
            number (get "id" x) >>= λ i. read_request codec (get "request" x) >>= λ q. some (i, q))
          (good.decode-encode (call_object id v) frame sent)
        ∙ ap (λ o. o >>= λ q. some (id, q)) (request-IsRead r e)
  ]
    where
      sent_call :
          (id : ℕ) (v : Value)
          → serialize_call codec id r ≡ ok frame
          → serialize_request codec r ≡ ok v
          → encoded codec (call_object id v) ≡ ok frame
      sent_call id v h e = ground (arith, h, e)
