-- ===== src/Types.antt =====
-- ts/src/types.ts: what scenarios, players and conductors exchange. What `@holochain/client`
-- declares is a JavaScript value, but for the parts that the program reads.
use try_o_rama.Prelude.{ℕ, String, List, Option}
use try_o_rama.Js.Value.{Value, obj, field, str, end, or_undefined, optional_str}

-- `AppOptions`; a signal handler is named by a number.
pub record AppOptions : Type 0 where
  pub agent_pub_key : Option Value
  pub installed_app_id : Option String
  pub network_seed : Option String
  pub roles_settings : Option Value
  pub signal_handler : Option ℕ

-- One entry of `AgentsAppsOptions.agentsApps`.
pub record AgentApps : Type 0 where
  pub app : Value
  pub options : AppOptions
  pub open options use *

-- `AgentsAppsOptions`
pub record AgentsAppsOptions : Type 0 where
  pub agents_apps : List AgentApps
  pub network_seed : Option String
  pub installed_app_id : Option String

-- A cell of an app: the parts of `ProvisionedCell` and `ClonedCell` that the program reads, and the
-- rest. A clone without an id has an empty one.
pub record Cell : Type 0 where
  pub cell_id : Value
  pub clone_id : String
  pub other : Value

-- `CellInfo`
pub data CellInfo : Type 0 where
  provisioned cloned : Cell → CellInfo
  stem : Value → CellInfo

-- `AppInfo`, with the properties of `cell_info` in their order.
pub record AppInfo : Type 0 where
  pub installed_app_id : String
  pub agent_pub_key : Value
  pub cell_info : List (String × List CellInfo)

-- `InstallAppRequest`
unfoldable pub install_app_request : Value → Value → Option Value → String → Option String → Value
install_app_request source agent_key roles_settings installed_app_id network_seed = obj (
    field "source" source (
      field "agent_key" agent_key (
        field "roles_settings" (or_undefined roles_settings) (
          field "installed_app_id" (str installed_app_id)
            (field "network_seed" (optional_str network_seed) end)))))
