-- ===== src/Trycp/Client/Reader.antt =====
-- What a server can read from a frame: a reader of calls that owes nothing to the client.
use try_o_rama.Prelude.{ℕ, String, Option, none, some, List, [], ◌∷◌, str_eq, if◌then◌else◌}
use try_o_rama.Js.Value.{Value, Fields, Bytes, undefined, num, str, bin, obj, get, find_field}
use try_o_rama.Trycp.Protocol.{
  TryCpRequest, download_dna, save_dna, configure_player, startup, shutdown, reset,
  connect_app_interface, disconnect_app_interface, call_app_interface, call_app_interface_encoded,
  call_admin_interface, download_logs,
}
use try_o_rama.Trycp.Protocol.Tags.{
  AdminRequest, AppRequest, LogLevel, admin_request_tag, app_request_tag, log_level_tag,
}
use try_o_rama.Trycp.Codec.{Codec}

infixl 5 ◌>>=◌
abbrev pub ◌>>=◌ : {A B : Type 0} → Option A → (A → Option B) → Option B
none >>= f = none
some a >>= f = f a

abbrev pub text : Value → Option String
text (str s) = some s
text v = none

abbrev pub number : Value → Option ℕ
number (num n) = some n
number v = none

abbrev pub octets : Value → Option Bytes
octets (bin b) = some b
octets v = none

abbrev pub optional_text : Value → Option (Option String)
optional_text undefined = some none
optional_text (str s) = some (some s)
optional_text v = none

abbrev pub fields : Value → Option Fields
fields (obj fs) = some fs
fields v = none

-- The value whose tag a text is.
abbrev pub tagged_as : {A : Type 0} → (A → String) → List A → String → Option A
tagged_as tag [] s = none
tagged_as tag (a ∷ xs) s = if str_eq (tag a) s then some a else tagged_as tag xs s

abbrev pub log_levels : List LogLevel
log_levels = LogLevel.error ∷ LogLevel.warn ∷ LogLevel.info ∷ LogLevel.debug ∷ LogLevel.trace ∷ []

abbrev pub app_requests : List AppRequest
app_requests =
    AppRequest.call_zome ∷ AppRequest.app_info ∷ AppRequest.provide_memproofs
    ∷ AppRequest.enable_app ∷ AppRequest.create_clone_cell ∷ AppRequest.enable_clone_cell
    ∷ AppRequest.disable_clone_cell ∷ AppRequest.network_info ∷ []

abbrev pub admin_requests : List AdminRequest
admin_requests =
    AdminRequest.add_agent_info ∷ AdminRequest.agent_info ∷ AdminRequest.attach_app_interface
    ∷ AdminRequest.connect_app_interface ∷ AdminRequest.delete_clone_cell ∷ AdminRequest.disable_app
    ∷ AdminRequest.dump_full_state ∷ AdminRequest.dump_network_stats ∷ AdminRequest.dump_state
    ∷ AdminRequest.enable_app ∷ AdminRequest.generate_agent_pub_key
    ∷ AdminRequest.get_compatible_cells ∷ AdminRequest.get_dna_definition
    ∷ AdminRequest.grant_zome_call_capability ∷ AdminRequest.install_app ∷ AdminRequest.list_apps
    ∷ AdminRequest.list_app_interfaces ∷ AdminRequest.list_cell_ids ∷ AdminRequest.list_dnas
    ∷ AdminRequest.register_dna ∷ AdminRequest.revoke_agent_key ∷ AdminRequest.start_app
    ∷ AdminRequest.storage_info ∷ AdminRequest.uninstall_app ∷ AdminRequest.update_coordinators
    ∷ AdminRequest.issue_app_authentication_token ∷ []

abbrev pub log_level : Value → Option (Option LogLevel)
log_level undefined = some none
log_level (str s) = tagged_as log_level_tag log_levels s >>= λ l. some (some l)
log_level v = none

-- The type and the value of the message inside a call of the admin or of the app interface.
unfoldable pub read_message : {A : Type 0} → (String → Option A) → Value → Option (A × Option Value)
unfolding find_field
read_message of_tag v = fields v >>= λ fs.
    find_field "type" fs >>= λ t. text t >>= λ s. of_tag s >>= λ a. some (a, find_field "value" fs)

-- The message of an app call, which may have been encoded twice.
abbrev pub read_app_call : ℕ → Value → Option TryCpRequest
read_app_call port (bin b) = some (call_app_interface_encoded port b)
read_app_call port v = read_message (tagged_as app_request_tag app_requests) v >>= λ r.
    some (call_app_interface port (record { type = r.0; value = r.1 }))

-- What a server can read a request from, by its type.
abbrev pub read_typed : Codec → String → (String → Value) → Option TryCpRequest
read_typed codec t part =
    if str_eq t "download_dna"
    then (text (part "url") >>= λ u. some (download_dna u))
    else if str_eq t "save_dna"
    then (text (part "id") >>= λ i. octets (part "content") >>= λ b. some (save_dna i b))
    else if str_eq t "configure_player"
    then (text (part "id") >>= λ i.
        text (part "partial_config") >>= λ c. some (configure_player i c))
    else if str_eq t "startup"
    then (text (part "id") >>= λ i. log_level (part "log_level") >>= λ l. some (startup i l))
    else if str_eq t "shutdown"
    then (text (part "id") >>= λ i. optional_text (part "signal") >>= λ s. some (shutdown i s))
    else if str_eq t "reset"
    then some reset
    else if str_eq t "connect_app_interface"
    then (number (part "port") >>= λ p. some (connect_app_interface (part "token") p))
    else if str_eq t "disconnect_app_interface"
    then (number (part "port") >>= λ p. some (disconnect_app_interface p))
    else if str_eq t "call_app_interface"
    then (number (part "port") >>= λ p.
        octets (part "message") >>= λ b. codec.decode b >>= λ m. read_app_call p m)
    else if str_eq t "call_admin_interface"
    then (text (part "id") >>= λ i. octets (part "message") >>= λ b. codec.decode b >>= λ m.
        read_message (tagged_as admin_request_tag admin_requests) m >>= λ r.
        some (call_admin_interface i (record { type = r.0; value = r.1 })))
    else if str_eq t "download_logs"
    then (text (part "id") >>= λ i. some (download_logs i))
    else none

unfoldable pub read_request : Codec → Value → Option TryCpRequest
unfolding get
read_request codec v = text (get "type" v) >>= λ t. read_typed codec t (λ k. get k v)

-- The request id and the request of a frame.
unfoldable pub read_call : Codec → Bytes → Option (ℕ × TryCpRequest)
unfolding read_request get
read_call codec frame = codec.decode frame >>= λ v.
    number (get "id" v) >>= λ id. read_request codec (get "request" v) >>= λ r. some (id, r)
