-- ===== src/Local/Lifecycle.antt =====
-- The life of a local conductor: created, started up, shut down.
use try_o_rama.Prelude.{
  ℕ, ◌≡◌, refl, sym, ap, subst, ◌∙◌, String, true, Option, none, some, if_intro, if◌then◌else◌,
}
use try_o_rama.Js.Value.{Value, is_some}
use try_o_rama.Js.Exn.{Exn, Result, ok, err, assertion_error}
use try_o_rama.Js.Action.{Action, pure, lift, ◌>>=◌, ◌>>◌, bind_ok, bind_err}
use try_o_rama.Local.Conductor.{
  Conductor, Host, new_conductor, with_dir, start_up, shut_down, launch, stop, connect_admin_ws,
  await_launch, dir_of, start_in, shut_down_with, outside, update, with_admin_ws, with_process,
  without_process, close_app_ws,
}

-- No app websocket is kept, and an admin websocket only with a process.
pub IsConsistent : Conductor → Type 0
IsConsistent c = (c.app_ws_field ≡ none) × ((c.conductor_process ≡ none) → c.admin_ws_field ≡ none)

IsRunning : Conductor → Type 0
IsRunning c = (c.app_ws_field ≡ none) × (is_some c.conductor_process ≡ true)

IsStopping : Conductor → Type 0
IsStopping c = (c.app_ws_field ≡ none) × (c.admin_ws_field ≡ none)

module _ {W : Type 0} (h : Host W) where
  -- What a program can do with a conductor: create it, with or without a directory, start it up and
  -- shut it down, whether these calls return or throw.
  pub data Reachable : Conductor × W → Type 0 where
    creates :
        (dir : Option String) (t : Option ℕ) (w : W) → Reachable (with_dir dir (new_conductor t), w)
    starts_up : {s : Conductor × W} → Reachable s → Reachable (start_up h s).1
    shuts_down : {s : Conductor × W} → Reachable s → Reachable (shut_down h s).1

  abbrev Step : Type 0 → Type 0
  Step A = Action (Conductor × W) A

  bind_keeps :
      {A B : Type 0} (P Q : Conductor → Type 0) (m : Step A) (f : A → Step B) (s : Conductor × W)
      → P (m s).1.0
      → ((a : A) (t : Conductor × W) → P t.0 → Q (f a t).1.0)
      → ((c : Conductor) → P c → Q c)
      → Q ((m >>= f) s).1.0
  bind_keeps {A} {B} P Q m f s p q r = go (m s) refl p
    where
      go : (x : Result A × (Conductor × W)) → m s ≡ x → P x.1.0 → Q ((m >>= f) s).1.0
      go (ok a, t) e p = subst (λ x. Q x.1.0) (sym (bind_ok m f e)) (q a t p)
      go (err x, t) e p = subst (λ y. Q y.1.0) (sym (bind_err m f e)) (r t.0 p)

  Running-IsConsistent : (c : Conductor) → IsRunning c → IsConsistent c
  unfolding IsConsistent IsRunning
  Running-IsConsistent c (e, f) = (e, λ g. cc)

  Stopping-IsConsistent : (c : Conductor) → IsStopping c → IsConsistent c
  unfolding IsConsistent IsStopping
  Stopping-IsConsistent c (e, f) = (e, λ g. f)

  -- `stop` from the kill of the process on.
  abbrev end_process : ℕ → Step (Option ℕ)
  end_process pid = outside h (h.interrupt pid) >>= λ code. update h without_process >> pure code

  connect_admin_ws-IsConsistent :
      (s : Conductor × W) → IsRunning s.0 → IsConsistent (connect_admin_ws h s).1.0
  unfolding connect_admin_ws IsRunning
  connect_admin_ws-IsConsistent s r =
      bind_keeps IsRunning IsConsistent (outside h (h.connect_admin (s.0).admin_port (s.0).timeout))
        (λ ws. update h (with_admin_ws (some ws))) s r
        (λ a t p. Running-IsConsistent (with_admin_ws (some a) t.0) p) Running-IsConsistent

  launch-IsConsistent :
      (dir : String) (s : Conductor × W) → IsConsistent s.0 → IsConsistent (launch h dir s).1.0
  unfolding launch IsConsistent IsRunning
  launch-IsConsistent dir (c, w) i =
      bind_keeps IsConsistent IsConsistent (lift (await_launch h (h.hc_run dir w).0.1))
        (λ port. update h (with_process (h.hc_run dir w).0.0 port) >> connect_admin_ws h) (c, _) i
        (λ port s i.
          connect_admin_ws-IsConsistent (with_process (h.hc_run dir w).0.0 port s.0, s.1)
            (i.0, refl))
        (λ c i. i)

  start_in-IsConsistent :
      (dir : Result String) (s : Conductor × W)
      → IsConsistent s.0
      → IsConsistent (start_in h dir s).1.0
  start_in-IsConsistent (err e) s i = i
  start_in-IsConsistent (ok dir) s i =
      if_intro {A = Result (Unit {0}) × (Conductor × W)} (λ x. IsConsistent x.1.0)
        (is_some (s.0).conductor_process) (λ e. i) (λ e. launch-IsConsistent dir s i)

  start_up-IsConsistent : (s : Conductor × W) → IsConsistent s.0 → IsConsistent (start_up h s).1.0
  unfolding start_up
  start_up-IsConsistent s i = start_in-IsConsistent (dir_of (s.0).conductor_dir) s i

  stop-IsConsistent :
      (pid admin : ℕ) (s : Conductor × W)
      → IsConsistent s.0
      → IsConsistent (stop h pid admin none s).1.0
  unfolding stop IsStopping IsConsistent
  stop-IsConsistent pid admin s i =
      bind_keeps IsConsistent IsConsistent (outside h (h.close admin))
        (λ code. update h (with_admin_ws none) >> (close_app_ws h none >> end_process pid)) s i
        (λ code t i.
          bind_keeps IsStopping IsConsistent (outside h (h.interrupt pid))
            (λ code. update h without_process >> pure code) (with_admin_ws none t.0, t.1)
            (i.0, refl) (λ code t p. Stopping-IsConsistent (without_process t.0) p)
            Stopping-IsConsistent)
        (λ c i. i)

  shut_down_with-IsConsistent :
      (process admin : Option ℕ) (s : Conductor × W)
      → IsConsistent s.0
      → IsConsistent (shut_down_with h process admin none s).1.0
  shut_down_with-IsConsistent none admin s i = i
  shut_down_with-IsConsistent (some pid) none s i = i
  shut_down_with-IsConsistent (some pid) (some admin) s i = stop-IsConsistent pid admin s i

  shut_down-IsConsistent : (s : Conductor × W) → IsConsistent s.0 → IsConsistent (shut_down h s).1.0
  unfolding shut_down IsConsistent
  shut_down-IsConsistent s i =
      subst
        (λ app.
          IsConsistent (shut_down_with h (s.0).conductor_process (s.0).admin_ws_field app s).1.0)
        (sym i.0) (shut_down_with-IsConsistent (s.0).conductor_process (s.0).admin_ws_field s i)

  -- Whatever a program does with a local conductor, it never holds an app websocket, and it holds
  -- an admin websocket only while it has a process.
  pub Reachable-IsConsistent : (s : Conductor × W) → Reachable s → IsConsistent s.0
  unfolding IsConsistent
  Reachable-IsConsistent _ (creates none t w) = (refl, λ g. refl)
  Reachable-IsConsistent _ (creates (some d) t w) = (refl, λ g. refl)
  Reachable-IsConsistent _ (starts_up {s} r) = start_up-IsConsistent s (Reachable-IsConsistent s r)
  Reachable-IsConsistent _ (shuts_down {s} r) =
      shut_down-IsConsistent s (Reachable-IsConsistent s r)

  -- A conductor whose admin websocket could not be connected cannot be shut down any more: when
  -- the launched process prints its ports and the connection fails, `start_up` throws, and from
  -- then on `shut_down` throws an assertion error, `start_up` returns, and both leave everything as
  -- it is, the running process included.
  pub connect_fails-is_stuck :
      (c : Conductor) (dir : String) (w w' : W) (port : Value) (x : Exn)
      → c.admin_ws_field ≡ none
      → c.conductor_process ≡ none
      → dir_of c.conductor_dir ≡ ok dir
      → await_launch h (h.hc_run dir w).0.1 ≡ ok port
      → h.connect_admin (some port) c.timeout (h.hc_run dir w).1 ≡ (err x, w')
      → let pid = (h.hc_run dir w).0.0 in
        let stuck : Conductor × W = (with_process pid port c, w') in
        (start_up h (c, w) ≡ (err x, stuck))
        × (shut_down h stuck ≡ (err (assertion_error "admin websocket is not connected"), stuck))
        × (start_up h stuck ≡ (ok tt, stuck))
  unfolding start_up shut_down launch connect_admin_ws
  connect_fails-is_stuck c dir w w' port x a p d l e =
      let c' = with_process (h.hc_run dir w).0.0 port c in
      (
        ap (λ r. start_in h r (c, w)) d
            ∙ ap (λ b. if is_some b then (ok tt, (c, w)) else launch h dir (c, w)) p
            ∙ bind_ok (lift (await_launch h (h.hc_run dir w).0.1))
                (λ port. update h (with_process (h.hc_run dir w).0.0 port) >> connect_admin_ws h)
                (ap (λ r. (r, (c, (h.hc_run dir w).1))) l)
            ∙ bind_err (outside h (h.connect_admin (some port) c.timeout))
                (λ ws. update h (with_admin_ws (some ws)))
                (ap (λ (r : Result ℕ × W). (r.0, (c', r.1))) e),
        ap (λ ws. shut_down_with h (some (h.hc_run dir w).0.0) ws c.app_ws_field (c', w')) a,
        ap (λ r. start_in h r (c', w')) d,
      )

  -- Shutting down a running conductor that holds no app websocket closes its admin websocket, kills
  -- its process and returns the exit code; the conductor keeps its directory and has no process and
  -- no websocket left.
  shut_down_Stops :
      (c : Conductor) (pid admin : ℕ) (closed : ℕ) (exit : Option ℕ) (w w' w'' : W)
      → c.conductor_process ≡ some pid
      → c.admin_ws_field ≡ some admin
      → c.app_ws_field ≡ none
      → h.close admin w ≡ (ok closed, w')
      → h.interrupt pid w' ≡ (ok exit, w'')
      → shut_down h (c, w) ≡ (ok exit, (without_process (with_admin_ws none c), w''))
  unfolding shut_down stop
  shut_down_Stops c pid admin closed exit w w' w'' p a n e f =
      ap (λ o. shut_down_with h o c.admin_ws_field c.app_ws_field (c, w)) p
      ∙ ap (λ o. shut_down_with h (some pid) o c.app_ws_field (c, w)) a
      ∙ ap (λ o. stop h pid admin o (c, w)) n
      ∙ bind_ok (outside h (h.close admin))
          (λ code. update h (with_admin_ws none) >> (close_app_ws h none >> end_process pid))
          (ap (λ (r : Result ℕ × W). (r.0, (c, r.1))) e)
      ∙ bind_ok (outside h (h.interrupt pid)) (λ code. update h without_process >> pure code)
          (ap (λ (r : Result (Option ℕ) × W). (r.0, (with_admin_ws none c, r.1))) f)
