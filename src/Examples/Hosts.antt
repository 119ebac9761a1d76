-- ===== src/Examples/Hosts.antt =====
-- A local conductor on a host where the admin websocket connects, and on one where it does not.
use try_o_rama.Prelude.{ℕ, ◌≡◌, refl, [], ◌∷◌, none, some}
use try_o_rama.Js.Value.{num, obj, field, end, get, find_field}
use try_o_rama.Js.Exn.{Result, ok, err, codec_error, assertion_error}
use try_o_rama.Js.Action.{pure, throw}
use try_o_rama.Js.Text.{strip_prefix}
use try_o_rama.Local.Output.{conductor_launched, braced}
use try_o_rama.Local.Conductor.{
  Conductor, Host, stdout, stdout_end, new_conductor, with_dir, with_process, with_admin_ws,
  start_up, shut_down, await_launch,
}
use try_o_rama.Local.Lifecycle.{
  IsConsistent, Reachable, creates, starts_up, shuts_down, Reachable-IsConsistent,
  connect_fails-is_stuck,
}

abbrev pub host : (ℕ → Result ℕ × ℕ) → Host ℕ
host connect = record {
  hc_create = λ args w. (stdout "ConfigRootPath(\"/tmp/c\")" ∷ stdout_end ∷ [], w);
  hc_run = λ dir w. ((77, "Conductor launched #!0 {\"admin_port\":9}" ∷ []), w);
  parse_json = λ text. some (obj (field "admin_port" (num 9) end));
  connect_admin = λ port timeout. connect;
  close = λ ws. pure 1000;
  interrupt = λ pid. pure (some 0);
}

abbrev pub working : Host ℕ
working = host (pure 5)

abbrev pub failing : Host ℕ
failing = host (throw codec_error)

abbrev pub stopped : Conductor
stopped = with_dir (some "/tmp/c") (new_conductor none)

abbrev pub running : Conductor
running = with_admin_ws (some 5) (with_process 77 (num 9) stopped)

abbrev life : Reachable working (shut_down working (start_up working (stopped, 0)).1).1
life = shuts_down (starts_up (creates (some "/tmp/c") none 0))

Reachable-IsConsistent_example :
    IsConsistent (shut_down working (start_up working (stopped, 0)).1).1.0
Reachable-IsConsistent_example = Reachable-IsConsistent working _ life

launched : await_launch failing ("Conductor launched #!0 {\"admin_port\":9}" ∷ []) ≡ ok (num 9)
unfolding await_launch conductor_launched strip_prefix braced get find_field
launched = refl

connect_fails-is_stuck_example :
    (start_up failing (stopped, 0) ≡ (err codec_error, (with_process 77 (num 9) stopped, 0)))
    × (shut_down failing (with_process 77 (num 9) stopped, 0) ≡ (
      err (assertion_error "admin websocket is not connected"),
      (with_process 77 (num 9) stopped, 0),
    ))
    × (start_up failing (with_process 77 (num 9) stopped, 0)
        ≡ (ok tt, (with_process 77 (num 9) stopped, 0)))
connect_fails-is_stuck_example =
    connect_fails-is_stuck failing stopped "/tmp/c" 0 0 (num 9) codec_error refl refl refl launched
      refl
