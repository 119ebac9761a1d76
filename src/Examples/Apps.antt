-- ===== src/Examples/Apps.antt =====
-- An app with a provisioned and a cloned cell, agents that are exchanged, and services that start.
use try_o_rama.Prelude.{
  ℕ, String, ◌≡◌, refl, List, [], ◌∷◌, none, some, not, ◌&&◌, if◌then◌else◌, ltb, ◌==◌,
}
use try_o_rama.Js.Value.{Value, str, obj, arr, nil, field, end, undefined, find_field}
use try_o_rama.Js.Exn.{Result, ok, err, codec_error, type_error}
use try_o_rama.Js.Action.{Action, pure}
use try_o_rama.Types.{Cell, provisioned, cloned, AppInfo}
use try_o_rama.Common.{CallZome}
use try_o_rama.Common.Peers.{
  add_all_agents_to_all_conductors, count_told, is_ok, add_all_agents_to_all_conductors-count,
}
use try_o_rama.Common.LocalServices.{
  announce, run_local_services, bootstrap_server_startup_string, signaling_server_startup_string,
  run_local_services-announce,
}
use try_o_rama.Trycp.Conductor.ConfigShape.{lacks}

abbrev cell_of : String → Cell
cell_of clone = record { cell_id = str "id"; clone_id = clone; other = undefined }

abbrev app : AppInfo
app = record {
  installed_app_id = "app";
  agent_pub_key = str "alice";
  cell_info = ("forum", provisioned (cell_of "") ∷ cloned (cell_of "forum.0") ∷ []) ∷ [];
}

abbrev app_ws : CallZome ℕ
app_ws request timeout n = (ok (obj request), n)

-- The answer to the request that enables the app.
abbrev enabled : Value → Action ℕ Value
enabled request = pure (obj (field "errors" (arr nil) end))

no_errors : find_field "errors" (field "errors" (arr nil) end) ≡ some (arr nil)
unfolding find_field
no_errors = refl

abbrev named_cells : List (String × Cell)
named_cells = ("forum", cell_of "") ∷ ("forum", cell_of "forum.0") ∷ []

-- The conductor at 2 does not answer.
abbrev infos : ℕ → Result Value
infos n = if n == 2 then err codec_error else ok (arr nil)

-- The conductor at 1 has no admin websocket.
abbrev admin_wss : ℕ → Result (Unit {0})
admin_wss n = if n == 1 then err type_error else ok tt

abbrev conductors : List ℕ
conductors = 5 ∷ 6 ∷ 7 ∷ []

add_all_agents_to_all_conductors-count_example :
    count_told 0 1 (add_all_agents_to_all_conductors admin_wss infos conductors []).1 ≡ (
      if ltb 0 3 && ltb 1 3 && not (0 == 1) && is_ok (admin_wss 0) && is_ok (infos 1) then 1 else 0)
add_all_agents_to_all_conductors-count_example =
    add_all_agents_to_all_conductors-count admin_wss infos conductors 0 1

run_local_services-announce_example :
    run_local_services
      (λ s. some s)
      (announce bootstrap_server_startup_string "http://b"
        ∷ announce signaling_server_startup_string "ws://s"
        ∷ [])
      (record { bootstrap_server_url = none; started = none })
    ≡ ok (record {
      bootstrap_server_url = some "http://b";
      started =
          some (record { bootstrap_server_url = some "http://b"; signaling_server_url = "ws://s" });
    })
unfolding lacks
run_local_services-announce_example =
    run_local_services-announce (λ s. some s) "http://b" "ws://s" refl refl refl refl refl refl
