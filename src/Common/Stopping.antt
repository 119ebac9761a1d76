-- ===== src/Common/Stopping.antt =====
-- ts/src/common.ts: `stopLocalServices`.
pub mod Refinement
use try_o_rama.Prelude.{
  ℕ, Bool, false, ◌||◌, if◌then◌else◌, Option, none, some, List, [], ◌∷◌, ◌==◌,
}
use try_o_rama.Js.Action.{Action}
use try_o_rama.Js.Exn.{never, ok, err}

-- A service process: which one, and its process id, if it has one.
pub record ServicesProcess : Type 0 where
  pub process : ℕ
  pub pid : Option ℕ

abbrev pub listed : ℕ → List ℕ → Bool
listed n [] = false
listed n (m ∷ ms) = n == m || listed n ms

-- `stopLocalServices`. The state holds the processes that have exited; `kill` is the signal to a
-- process, with the code of the exit that it brings about. A process that has exited does so no
-- second time, so that its listener is never called.
module _ {W : Type 0} (kill : ℕ → Action W (Option ℕ)) where
  abbrev pub kill_and_wait : ServicesProcess → ℕ → Action (List ℕ × W) (Option ℕ)
  kill_and_wait p pid (exited, w) =
      let (r, w') = kill pid w in
      elim r [ ok code ↦ (ok code, (p.process ∷ exited, w')) | err e ↦ (err e, (exited, w')) ]

  abbrev pub stop_pid : ServicesProcess → Option ℕ → Action (List ℕ × W) (Option ℕ)
  stop_pid p none s = (ok none, s)
  stop_pid p (some pid) s = if listed p.process s.0 then (err never, s) else kill_and_wait p pid s

  unfoldable pub stop_local_services : ServicesProcess → Action (List ℕ × W) (Option ℕ)
  stop_local_services p = stop_pid p p.pid
