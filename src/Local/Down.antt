-- ===== src/Local/Down.antt =====
-- Shutting down the conductors of a local scenario, one by one.
use try_o_rama.Prelude.{
  ℕ, ◌≡◌, refl, sym, ap, subst, ◌∙◌, ◌≢◌, ◌==◌, List, [], ◌∷◌, Option, none, some, Option-cases,
  Bool-cases, inl, inr, get_elem?, arith,
}
use try_o_rama.Js.Exn.{Result, ok, err, type_error}
use try_o_rama.Js.Action.{Action, pure, ◌>>=◌, ◌>>◌, bind_ends}
use try_o_rama.Local.Conductor.{
  Conductor, Host, shut_down, shut_down_with, stop, outside, update, with_admin_ws, close_app_ws,
  without_process,
}
use try_o_rama.Local.Scenario.{World, Surroundings, M, method_of, write_at}

module _ {W : Type 0} (h : Host W) where
  -- `stop` from the kill of the process on, and from the app websocket on.
  abbrev end_process : ℕ → Action (Conductor × W) (Option ℕ)
  end_process pid = outside h (h.interrupt pid) >>= λ code. update h without_process >> pure code

  abbrev close_app : ℕ → Option ℕ → Action (Conductor × W) (Option ℕ)
  close_app pid app = close_app_ws h app >> end_process pid

  abbrev HasNoProcess : Conductor × W → Type 0
  HasNoProcess s = s.0.conductor_process ≡ none

  stop_ends :
      (pid admin : ℕ) (app : Option ℕ) (s : Conductor × W) (code : Option ℕ)
      → (stop h pid admin app s).0 ≡ ok code
      → HasNoProcess (stop h pid admin app s).1
  unfolding stop
  stop_ends pid admin app s code =
      bind_ends HasNoProcess (outside h (h.close admin))
        (λ a. update h (with_admin_ws none) >> close_app pid app) s
        (λ a v.
          bind_ends HasNoProcess (close_app_ws h app) (λ u. end_process pid)
            (with_admin_ws none v.0, v.1)
            (λ u v.
              bind_ends HasNoProcess (outside h (h.interrupt pid))
                (λ code. update h without_process >> pure code) v (λ a v e. refl)))

  shut_down_with_ends :
      (process admin app : Option ℕ) (s : Conductor × W) (code : Option ℕ)
      → s.0.conductor_process ≡ process
      → (shut_down_with h process admin app s).0 ≡ ok code
      → HasNoProcess (shut_down_with h process admin app s).1
  shut_down_with_ends none admin app s code e g = e
  shut_down_with_ends (some pid) none app s code e g = absurd cc
  shut_down_with_ends (some pid) (some admin) app s code e g = stop_ends pid admin app s code g

  shut_down_ends :
      (s : Conductor × W) (code : Option ℕ)
      → (shut_down h s).0 ≡ ok code
      → HasNoProcess (shut_down h s).1
  unfolding shut_down
  shut_down_ends s code =
      shut_down_with_ends s.0.conductor_process s.0.admin_ws_field s.0.app_ws_field s code refl

  -- Without a process there is nothing to shut down.
  shut_down_still :
      (s : Conductor × W) → s.0.conductor_process ≡ none → shut_down h s ≡ (ok none, s)
  unfolding shut_down
  shut_down_still s e = ap (λ o. shut_down_with h o s.0.admin_ws_field s.0.app_ws_field s) e

-- At a place of the store there is a conductor that has no process.
pub IsDown : {W : Type 0} → ℕ → World W → Type 0
IsDown i w = (c : Conductor) × (get_elem? w.store i ≡ some c) × (c.conductor_process ≡ none)

pub IsDown-store :
    {W : Type 0} (i : ℕ) (v w : World W) → w.store ≡ v.store → IsDown i v → IsDown i w
unfolding IsDown
IsDown-store i v w e (c, f, d) = (c, ap (λ cs. get_elem? cs i) e ∙ f, d)

write_at_here :
    {c : Conductor} (cs : List Conductor) (i : ℕ) (d : Conductor)
    → get_elem? cs i ≡ some c
    → get_elem? (write_at cs i d) i ≡ some d
write_at_here [] i d e = absurd cc
write_at_here (c ∷ cs) ℕ.zero d e = refl
write_at_here (c ∷ cs) (ℕ.suc i) d e = write_at_here cs i d e

write_at_there :
    (cs : List Conductor) (i j : ℕ) (d : Conductor)
    → i ≢ j
    → get_elem? (write_at cs i d) j ≡ get_elem? cs j
write_at_there [] i j d n = refl
write_at_there (c ∷ cs) ℕ.zero ℕ.zero d n = absurd (n refl)
write_at_there (c ∷ cs) ℕ.zero (ℕ.suc j) d n = refl
write_at_there (c ∷ cs) (ℕ.suc i) ℕ.zero d n = refl
write_at_there (c ∷ cs) (ℕ.suc i) (ℕ.suc j) d n = write_at_there cs i j d (λ e. n (ap ℕ.suc e))

write_at_still :
    {c : Conductor} (cs : List Conductor) (i : ℕ) → get_elem? cs i ≡ some c → write_at cs i c ≡ cs
write_at_still [] i e = refl
write_at_still (c ∷ cs) ℕ.zero e = cc
write_at_still (c ∷ cs) (ℕ.suc i) e = ap (λ cs. c ∷ cs) (write_at_still cs i e)

module _ {W : Type 0} (s : Surroundings W) where
  -- What a method leaves, with the result and the conductor that it comes to.
  abbrev pub written : {A : Type 0} → ℕ → World W → Result A × (Conductor × W) → Result A × World W
  written i w (r, (c, h)) = (r, record w { store = write_at w.store i c; host = h })

  abbrev pub at_place :
      {A : Type 0} → ℕ → Action (Conductor × W) A → World W → Option Conductor → Result A × World W
  at_place i f w none = (err type_error, w)
  at_place i f w (some c) = written i w (f (c, w.host))

  pub method_of-eq :
      {A : Type 0} (i : ℕ) (f : Action (Conductor × W) A) (w : World W) {o : Option Conductor}
      → get_elem? w.store i ≡ o
      → method_of s i f w ≡ at_place i f w o
  method_of-eq i f w {o = none} e = ground (arith, e)
  method_of-eq i f w {o = some c} e = ground (arith, e)

  abbrev pub shut_down_at : ℕ → M s (Option ℕ)
  shut_down_at i = method_of s i (shut_down s.hc)

  -- A conductor that is down is left as it is.
  pub shut_down_at_still : (i : ℕ) (w : World W) → IsDown i w → shut_down_at i w ≡ (ok none, w)
  unfolding IsDown
  shut_down_at_still i w (c, e, d) =
      method_of-eq i (shut_down s.hc) w e
      ∙ ap (written i w) (shut_down_still s.hc (c, w.host) d)
      ∙ ap (λ cs. (ok none, record w { store = cs })) (write_at_still w.store i e)

  pub shut_down_at_keeps : (i j : ℕ) (w : World W) → IsDown j w → IsDown j (shut_down_at i w).1
  unfolding IsDown
  shut_down_at_keeps i j w (c, e, d) = elim (Bool-cases (i == j)) [
    | inl g ↦
        subst (λ x. IsDown j x.1)
          (sym (
            shut_down_at_still i w
              (c, subst (λ k. get_elem? w.store k ≡ some c) (ground (arith, g)) e, d)))
          (c, e, d)
    | inr g ↦ elim (Option-cases (get_elem? w.store i)) [
      | inl n ↦ subst (λ x. IsDown j x.1) (sym (method_of-eq i (shut_down s.hc) w n)) (c, e, d)
      | inr (b, n) ↦
          subst (λ x. IsDown j x.1) (sym (method_of-eq i (shut_down s.hc) w n))
            (
              c,
              write_at_there w.store i j (shut_down s.hc (b, w.host)).1.0
                    (λ h. ground (arith, g, h))
                  ∙ e,
              d,
            )
    ]
  ]

  pub shut_down_at_ends :
      (i : ℕ) (w : World W) (code : Option ℕ)
      → (shut_down_at i w).0 ≡ ok code
      → IsDown i (shut_down_at i w).1
  unfolding IsDown
  shut_down_at_ends i w code e = elim (Option-cases (get_elem? w.store i)) [
    | inl n ↦ absurd (ground (arith, e, method_of-eq i (shut_down s.hc) w n))
    | inr (b, n) ↦
        let m = method_of-eq i (shut_down s.hc) w n in
        subst (λ x. IsDown i x.1) (sym m)
          (
            (shut_down s.hc (b, w.host)).1.0,
            write_at_here w.store i (shut_down s.hc (b, w.host)).1.0 n,
            shut_down_ends s.hc (b, w.host) code (ap (λ x. x.0) (sym m) ∙ e),
          )
  ]

  pub shut_down_at-scenario :
      (i : ℕ) (w : World W)
      → ((shut_down_at i w).1.scenario ≡ w.scenario) × ((shut_down_at i w).1.exited ≡ w.exited)
  shut_down_at-scenario i w = elim (Option-cases (get_elem? w.store i)) [
    | inl n ↦
        let m = method_of-eq i (shut_down s.hc) w n in
        (ap (λ x. x.1.scenario) m, ap (λ x. x.1.exited) m)
    | inr (b, n) ↦
        let m = method_of-eq i (shut_down s.hc) w n in
        (ap (λ x. x.1.scenario) m, ap (λ x. x.1.exited) m)
  ]
