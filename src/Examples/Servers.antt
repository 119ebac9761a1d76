-- ===== src/Examples/Servers.antt =====
-- A TryCP server process, and a TryCP scenario whose server answers every request.
use try_o_rama.Prelude.{ℕ, ◌≡◌, ap, ◌↔◌, refl, List, [], ◌∷◌, none, some, All, length}
use try_o_rama.Js.Value.{
  Value, null, arr, nil, str, num, obj, field, end, pair, undefined, get, find_field, is_str,
}
use try_o_rama.Js.Text.{◌++◌}
use try_o_rama.Js.Exn.{ok}
use try_o_rama.Js.Action.{pure, for_each, promise_all}
use try_o_rama.Common.{agent_app_of, add_roles, enable_and_get_agent_app}
use try_o_rama.Trycp.Protocol.{TryCpRequest, call_admin_interface}
use try_o_rama.Trycp.Protocol.Tags.{AdminRequest, AdminResponse, admin_response_tag}
use try_o_rama.Trycp.Services.{Services}
use try_o_rama.Trycp.Conductor.{
  configure, start_up, new_id, create_try_cp_conductor, connect_app_interface,
}
use try_o_rama.Trycp.Conductor.Admin.{
  call_admin_api, request_value, attach_app_interface, issue_app_authentication_token, enable_app,
  generate_agent_pub_key,
}
use try_o_rama.Trycp.Conductor.Install.{
  agent_key_or_new, app_id_or_new, install_agent_app, install_agents_apps,
}
use try_o_rama.Trycp.Conductor.Admin
use try_o_rama.Trycp.Scenario.{
  World, Surroundings, opened, new_scenario, create, add_client, add_conductor,
}
use try_o_rama.Trycp.Scenario.Players.{
  ClientsPlayersOptions, ClientPlayers, TryCpPlayer, agents_apps, repeat, connect_interface,
  player_of, add_player, add_conductor_players, add_client_players, add_clients_players,
}
use try_o_rama.Trycp.Scenario.Sizes.{IsFull, add_clients_players-IsFull}
use try_o_rama.Trycp.Scenario.Listing.{AreListed, add_clients_players-AreListed}
use try_o_rama.Trycp.Server.{Processes, start}
use try_o_rama.Trycp.Server.Listening.{Listens, start-Listens}
use try_o_rama.Examples.Codecs.{always}

-- A server that writes two lines.
abbrev processes : Processes ℕ
processes = record {
  spawn_cargo = λ args w. ((5, "starting" ∷ "Listening on 0.0.0.0:9000" ∷ []), w);
  number_to_string = λ n. "9000";
  kill = λ server w. w;
}

start-Listens_example :
    (start processes none 0 ≡ (ok 5, 0)) ↔ Listens ("starting" ∷ "Listening on 0.0.0.0:9000" ∷ [])
start-Listens_example =
    start-Listens processes none 0 5 ("starting" ∷ "Listening on 0.0.0.0:9000" ∷ []) 0 refl

abbrev admin_answer : AdminRequest → Value
admin_answer AdminRequest.generate_agent_pub_key =
    pair "type" (str (admin_response_tag AdminResponse.agent_pub_key_generated)) "value" (str "key")
admin_answer AdminRequest.install_app =
    pair "type" (str (admin_response_tag AdminResponse.app_installed)) "value" (obj end)
admin_answer AdminRequest.attach_app_interface =
    pair "type" (str (admin_response_tag AdminResponse.app_interface_attached)) "value"
      (obj (field "port" (num 30000) end))
admin_answer AdminRequest.issue_app_authentication_token =
    pair "type" (str (admin_response_tag AdminResponse.app_authentication_token_issued)) "value"
      (obj (field "token" (str "token") end))
admin_answer AdminRequest.enable_app =
    pair "type" (str (admin_response_tag AdminResponse.app_enabled)) "value"
      (obj (field "errors" (arr nil) end))
admin_answer type = undefined

abbrev answer_to : TryCpRequest → Value
answer_to (call_admin_interface id message) = admin_answer message.type
answer_to request = null

abbrev services : Services ℕ
services = record {
  call = λ request. pure (answer_to request);
  close = pure 1000;
  set_signal_handler = λ port h w. w;
  unset_signal_handler = λ port w. w;
  bootstrap_server_url = λ w. none;
  signaling_server_url = λ w. none;
  uuid = pure "1";
  get_port = λ from to. pure from;
  signing_credentials = λ cell w. none;
  set_signing_credentials = λ cell v w. w;
  generate_signing_key_pair = pure (str "pair", str "key");
  random_cap_secret = pure (str "secret");
  sign_zome_call = λ request. pure request;
  codec = always (str "hello");
  parse_json = λ text. none;
}

abbrev surroundings : Surroundings ℕ
surroundings = record {
  open_socket = λ url timeout. pure (1, opened ∷ []);
  close_socket = λ ws code. pure code;
  services = λ ws. services;
  kill = λ pid. pure (some 0);
  as_app_info = λ v. record { installed_app_id = "app"; agent_pub_key = str "key"; cell_info = [] };
  as_port = λ v. 30000;
}

abbrev empty : World ℕ
empty = record { scenario = new_scenario "dpki" "seed"; store = []; exited = []; host = 0 }

-- Two conductors with one agent each, by default.
abbrev options : ClientsPlayersOptions
options = record {
  app = str "app.happ";
  client_timeout = none;
  agent_pub_keys = none;
  number_of_conductors_per_client = some 2;
  number_of_agents_per_conductor = none;
  partial_config = none;
  signal_handler = none;
}

abbrev player : TryCpPlayer ℕ
player = record {
  client = 0;
  conductor = "conductor-1";
  app_ws = 30000;
  agent_app = record {
    app_id = "app";
    agent_pub_key = str "key";
    collected = record { cells = []; named_cells = [] };
  };
}

abbrev added : List (ClientPlayers ℕ)
added = record { client = 0; players = player ∷ player ∷ [] } ∷ []

abbrev full : World ℕ
full = (add_clients_players surroundings ("ws://a" ∷ []) options empty).1

returned : add_clients_players surroundings ("ws://a" ∷ []) options empty ≡ (ok added, full)
unfolding add_clients_players add_client_players add_conductor_players add_player player_of
    connect_interface repeat agents_apps add_client create add_conductor promise_all for_each
    create_try_cp_conductor new_id configure start_up connect_app_interface call_admin_api
    request_value attach_app_interface issue_app_authentication_token enable_app
    generate_agent_pub_key agent_key_or_new app_id_or_new install_agent_app install_agents_apps
    Admin.install_app enable_and_get_agent_app agent_app_of add_roles get find_field is_str ◌++◌
returned = refl

add_clients_players-IsFull_example : All (IsFull options) added × (length added ≡ 1)
add_clients_players-IsFull_example =
    add_clients_players-IsFull surroundings ("ws://a" ∷ []) options empty added
      (ap (λ x. x.0) returned)

add_clients_players-AreListed_example : All (λ c. AreListed surroundings c full) added
add_clients_players-AreListed_example =
    add_clients_players-AreListed surroundings ("ws://a" ∷ []) options empty full added returned
