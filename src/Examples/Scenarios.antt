-- ===== src/Examples/Scenarios.antt =====
-- Local scenarios with a conductor, where every call to what is outside returns.
use try_o_rama.Prelude.{
  ℕ, ◌+◌, arith, List, length, ◌≡◌, refl, ap, sym, [], ◌∷◌, Option, none, some, true,
}
use try_o_rama.Js.Value.{Value, is_some, Fields, str, num, end, field, find_field, undefined}
use try_o_rama.Js.Exn.{ok, err, never, assertion_error}
use try_o_rama.Js.Action.{pure, promise_all}
use try_o_rama.Types.{AppInfo}
use try_o_rama.Common.Stopping.{ServicesProcess, stop_local_services}
use try_o_rama.Local.Conductor.{Conductor, with_process, shut_down, stop, admin_ws}
use try_o_rama.Local.Apps.{Api, call_zome, cell_of_request, ensure_signing_credentials}
use try_o_rama.Local.Scenario.{
  World, Surroundings, new_scenario, add_conductor, method_of, shut_down_all, clean_up,
  clean_all_conductors, cleared, run_scenario,
}
use try_o_rama.Local.Shutdown.{IsShut}
use try_o_rama.Local.Cleanup.{
  run_scenario-IsShut, run_scenario-keeps_services, run_scenario-never_settles,
}
use try_o_rama.Local.Soundness.{
  IsSound, Reachable, begins, adds_conductor, cleans_up, Reachable-IsSound,
}
use try_o_rama.Common.LocalServices.{Started}
use try_o_rama.Local.Overlap.{
  Launching, Moment, enters, returns, remove_at, before_launch, advance, proceed, entering,
  overlapping_calls,
}
use try_o_rama.Local.Signing.{Authorizes, IsSigned, call_zome-IsSigned}
use try_o_rama.Examples.Hosts.{working, running, stopped}

abbrev app_info : AppInfo
app_info = record { installed_app_id = "app"; agent_pub_key = str "key"; cell_info = [] }

-- Credentials are there once they have been authorized, which the state counts.
abbrev credentials : ℕ → Option Value
credentials ℕ.zero = none
credentials (ℕ.suc n) = some (str "credentials")

abbrev api : Api ℕ
api = record {
  generate_agent_pub_key = λ ws. pure (str "key");
  install_app = λ ws request. pure app_info;
  attach_app_interface = λ ws request. pure 30000;
  issue_app_authentication_token = λ ws id. pure (str "token");
  enable_app = λ ws request. pure undefined;
  agent_info = λ ws. pure undefined;
  authorize_signing_credentials = λ ws cell n. (ok tt, ℕ.suc n);
  connect_app = λ token port timeout. pure 8;
  call_zome = λ ws request timeout. pure (str "called");
  cached_app_info = λ ws n. none;
  cell_id_from_role_name = λ role info. ok undefined;
  signing_credentials = λ cell n. credentials n;
  uuid = pure "1";
  get_port = λ from to. pure from;
}

abbrev services_process : ServicesProcess
services_process = record { process = 1; pid = some 50 }

abbrev surroundings : Surroundings ℕ
surroundings = record {
  hc = working;
  api = api;
  hc_services = λ w. ((services_process, "HC SIGNAL - ADDR: ws://s\n" ∷ []), w);
  new_url = λ text. some text;
  kill = λ pid. pure (some 0);
  hc_clean = λ w. (true, w);
}

-- A scenario with its services and one conductor.
abbrev world_with : Conductor → World ℕ
world_with c = record {
  scenario = record (new_scenario none "dpki" "seed") {
    service_process = some services_process;
    signaling_server_url = some "ws://s";
    conductors = 0 ∷ [];
  };
  store = c ∷ [];
  exited = [];
  host = 0;
}

abbrev begun : World ℕ
begun = world_with running

abbrev cleaned : World ℕ
cleaned = (clean_up surroundings begun).1

clean_up-begun : clean_up surroundings begun ≡ (ok tt, cleaned)
unfolding clean_up clean_all_conductors shut_down_all promise_all shut_down stop stop_local_services
clean_up-begun = refl

run_scenario-IsShut_example :
    (run_scenario surroundings (pure tt) true begun ≡ (ok tt, cleaned))
    × IsShut begun cleaned
    × (cleaned.scenario ≡ cleared surroundings begun.scenario)
run_scenario-IsShut_example =
    run_scenario-IsShut surroundings (pure tt) begun begun cleaned (ok tt) refl (cc) clean_up-begun

-- A conductor that has a process and no admin websocket.
abbrev stuck : World ℕ
stuck = world_with (with_process 77 (num 9) stopped)

stuck_fails :
    promise_all (λ i. method_of surroundings i (shut_down working)) (0 ∷ []) stuck
    ≡ (err (assertion_error "admin websocket is not connected"), stuck)
unfolding promise_all shut_down
stuck_fails = refl

run_scenario-keeps_services_example :
    (run_scenario surroundings (pure tt) true stuck
      ≡ (err (assertion_error "admin websocket is not connected"), stuck))
    × (stuck.scenario ≡ stuck.scenario)
    × (stuck.exited ≡ stuck.exited)
run_scenario-keeps_services_example =
    run_scenario-keeps_services surroundings (pure tt) stuck stuck stuck (ok tt) true
      (assertion_error "admin websocket is not connected") refl (cc) stuck_fails

abbrev shut : World ℕ
shut = (shut_down_all surroundings begun).1

shut_down_all-begun : shut_down_all surroundings begun ≡ (ok tt, shut)
unfolding shut_down_all promise_all shut_down stop stop_local_services
shut_down_all-begun = refl

run_scenario-never_settles_example :
    run_scenario surroundings (shut_down_all surroundings) true begun ≡ (err never, shut)
run_scenario-never_settles_example =
    run_scenario-never_settles surroundings (shut_down_all surroundings) begun begun shut (ok tt)
      true services_process 50 shut_down_all-begun (cc) shut_down_all-begun refl refl

api-Authorizes : Authorizes api
api-Authorizes = record { provides = λ ws cell n m h. ap (λ x. is_some (credentials x.1)) (sym h) }

abbrev request : Fields
request = field "cell_id" (str "cell") end

signed_call : call_zome api 8 request none (running, 0) ≡ (ok (str "called"), (running, 1))
unfolding call_zome cell_of_request ensure_signing_credentials admin_ws find_field
signed_call = refl

call_zome-IsSigned_example : IsSigned api 8 request none (str "called") (running, 0) (running, 1)
call_zome-IsSigned_example =
    call_zome-IsSigned api api-Authorizes 8 request none (running, 0) (running, 1) (str "called")
      signed_call

-- A scenario that has got a conductor and is cleaned up.
abbrev fresh : World ℕ
fresh = record { scenario = new_scenario none "dpki" "seed"; store = []; exited = []; host = 0 }

abbrev life : Reachable surroundings (clean_up surroundings (add_conductor surroundings fresh).1).1
life = cleans_up (adds_conductor (begins none "dpki" "seed" 0))

Reachable-IsSound_example : IsSound (clean_up surroundings (add_conductor surroundings fresh).1).1
Reachable-IsSound_example = Reachable-IsSound surroundings _ life

abbrev announces : ℕ → ServicesProcess × Started
announces n = (
  record { process = n; pid = some (50 + n) },
  record { bootstrap_server_url = none; signaling_server_url = "ws://s" },
)

-- Two calls at once; the second process is the first to announce itself, and a third call follows.
abbrev at_once : List Moment
at_once = entering surroundings announces 2 (returns 1 ∷ returns 0 ∷ enters ∷ [])

abbrev launched : Launching
launched = proceed surroundings announces at_once (before_launch (new_scenario none "dpki" "seed"))

all_announced : launched.waiting ≡ []
unfolding proceed advance remove_at
all_announced = refl

overlapping_calls_example :
    (launched.spawned ≡ 2)
    × (length launched.assigned ≡ 2)
    × ((m : ℕ) × (ns : List ℕ) × (launched.assigned ≡ m ∷ ns)
        × (launched.scenario.service_process ≡ some (announces m).0))
overlapping_calls_example =
    overlapping_calls surroundings announces (new_scenario none "dpki" "seed") 2 1
      (returns 0 ∷ enters ∷ []) refl (omega arith) all_announced
