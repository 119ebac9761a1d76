-- ===== src/Trycp/Conductor/Install.antt =====
-- `installApp` and `installAgentsApps` of a TryCP conductor.
use Prim.Native.String.{String}
use try_o_rama.Prelude.{List, Option, none, some}
use try_o_rama.Js.Text.{◌++◌}
use try_o_rama.Js.Value.{Value}
use try_o_rama.Js.Action.{Action, pure, ◌>>=◌, promise_all}
use try_o_rama.Types.{AppOptions, AgentApps, AgentsAppsOptions, install_app_request}
use try_o_rama.Trycp.Services.{Services}
use try_o_rama.Trycp.Conductor.Admin.{generate_agent_pub_key}
use try_o_rama.Trycp.Conductor.Admin

module _ {W : Type 0} (s : Services W) (id : String) where
  unfoldable pub agent_key_or_new : Option Value → Action W Value
  agent_key_or_new (some k) = pure k
  agent_key_or_new none = generate_agent_pub_key s id

  unfoldable pub app_id_or_new : Option String → Action W String
  app_id_or_new (some a) = pure a
  app_id_or_new none = do u ← s.uuid; pure ("app-" ++ u)

  unfoldable pub install_app : Value → AppOptions → Action W Value
  install_app source options = do
    agent_key ← agent_key_or_new options.agent_pub_key
    installed_app_id ← app_id_or_new options.installed_app_id
    Admin.install_app s id (
        install_app_request source agent_key options.roles_settings installed_app_id
          options.network_seed)

  -- The app id and the network seed are those of all the agents; the options of one agent add its
  -- key and the settings of roles.
  unfoldable pub install_agent_app : AgentsAppsOptions → AgentApps → Action W Value
  install_agent_app options a = do
    agent_key ← agent_key_or_new a.agent_pub_key
    installed_app_id ← app_id_or_new options.installed_app_id
    Admin.install_app s id
        (install_app_request a.app agent_key a.roles_settings installed_app_id options.network_seed)

  unfoldable pub install_agents_apps : AgentsAppsOptions → Action W (List Value)
  install_agents_apps options = promise_all (install_agent_app options) options.agents_apps
