-- ===== src/Trycp/Protocol/Responses.antt =====
-- What ts/src/trycp/types.ts declares of the responses and signals of a TryCP server, and the values
-- that they are on the wire. A payload whose type comes from `@holochain/client` is a JavaScript
-- value.
use try_o_rama.Prelude.{ℕ, String, Option, none, some}
use try_o_rama.Js.Value.{Value, Bytes, null, str, bin, obj, field, end, pair, triple}
use try_o_rama.Trycp.Protocol.Tags.{
  AdminResponse, AppResponse, admin_response_tag, app_response_tag,
}
use try_o_rama.Trycp.Protocol.{TryCpResponse, response_message, signal_message}
use try_o_rama.Trycp.Codec.{Codec}

-- `DownloadLogsResponse`
pub record DownloadLogsResponse : Type 0 where
  pub lair_stderr : Bytes
  pub conductor_stdout : Bytes
  pub conductor_stderr : Bytes

-- The value of `ApiErrorResponse`
pub record ApiErrorValue : Type 0 where
  pub type : String
  pub value : String

-- `TryCpApiResponse`, its one `TryCpControlResponse` among them
pub data TryCpApiResponse : Type 0 where
  admin : AdminResponse → Option Value → TryCpApiResponse
  app : AppResponse → Option Value → TryCpApiResponse
  download_logs : DownloadLogsResponse → TryCpApiResponse
  failed : ApiErrorValue → TryCpApiResponse

-- `TryCpSuccessResponse`
pub data TryCpSuccessResponse : Type 0 where
  empty : TryCpSuccessResponse
  text : String → TryCpSuccessResponse
  api : TryCpApiResponse → TryCpSuccessResponse

-- `_TryCpResponseWrapper`
pub data ResponseWrapper : Type 0 where
  response : ℕ → TryCpResponse → ResponseWrapper
  signal : ℕ → Bytes → ResponseWrapper

abbrev with_value : String → Option Value → Value
with_value t none = obj (field "type" (str t) end)
with_value t (some v) = pair "type" (str t) "value" v

unfoldable pub logs_object : DownloadLogsResponse → Value
logs_object logs =
    triple "lair_stderr" (bin logs.lair_stderr) "conductor_stdout" (bin logs.conductor_stdout)
      "conductor_stderr" (bin logs.conductor_stderr)

unfoldable pub api_error_object : ApiErrorValue → Value
api_error_object e = pair "type" (str e.type) "value" (str e.value)

-- The objects that the responses are once decoded.
unfoldable pub api_response_object : TryCpApiResponse → Value
unfolding logs_object api_error_object
api_response_object (admin tag v) = with_value (admin_response_tag tag) v
api_response_object (app tag v) = with_value (app_response_tag tag) v
api_response_object (download_logs logs) =
    pair "type" (str "download_logs") "data" (logs_object logs)
api_response_object (failed e) = pair "type" (str "error") "value" (api_error_object e)

-- `_TryCpSuccessResponseSeralized`: an API response travels encoded.
unfoldable pub serialized_response : Codec → TryCpSuccessResponse → Option Value
serialized_response codec empty = some null
serialized_response codec (text t) = some (str t)
serialized_response codec (api r) = elim (codec.encode (api_response_object r)) [
  | none ↦ none
  | some b ↦ some (bin b)
]

unfoldable pub wrapper_object : ResponseWrapper → Value
wrapper_object (response id r) = response_message id r
wrapper_object (signal port payload) = signal_message port payload
