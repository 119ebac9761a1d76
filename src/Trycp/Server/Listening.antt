-- ===== src/Trycp/Server/Listening.antt =====
-- When the start of a TryCP server is over: what is found in the server's output.
use Prim.Native.Char.{Char, code}
use text.Mathlib.TextEquality.{Char-path}
use try_o_rama.Prelude.{
  ℕ, ◌≡◌, ◌↔◌, refl, sym, ap, subst, ◌∙◌, inl, inr, Bool, true, false, String, List, [], ◌∷◌,
  Option, some, Option-cases, Bool-cases, ==_refl, ==_iff, ◌==◌, arith,
}
use try_o_rama.Js.Text.{◌++◌, strip_prefix}
use try_o_rama.Js.Value.{is_some}
use try_o_rama.Js.Exn.{ok}
use try_o_rama.Common.LocalServices.{after_first}
use try_o_rama.Trycp.Server.{
  server_error, server_started, on_stdout, on_outputs, start, Processes, resolved_with, cargo_args,
  or_default_port,
}

strip_prefix-append : (p b : String) → strip_prefix p (p ++ b) ≡ some b
unfolding strip_prefix ◌++◌
strip_prefix-append String.[] b = refl
strip_prefix-append (String.◌∷◌ c p) b = ground (arith, ==_refl (code c), strip_prefix-append p b)

-- A prefix that is found is there.
strip_prefix-eq : (p s t : String) → strip_prefix p s ≡ some t → s ≡ p ++ t
unfolding strip_prefix ◌++◌
strip_prefix-eq String.[] s t h = ground (arith, h)
strip_prefix-eq (String.◌∷◌ c p) String.[] t h = absurd cc
strip_prefix-eq (String.◌∷◌ c p) (String.◌∷◌ d s) t h = elim (Bool-cases (code c == code d)) [
  | inl e ↦
      ap (λ x. String.◌∷◌ x s) (sym (Char-path c d ((==_iff (code c) (code d)).0 e)))
      ∙ ap (String.◌∷◌ c) (strip_prefix-eq p s t (ground (arith, h, e)))
  | inr e ↦ absurd (ground (arith, h, e))
]

after_first_here :
    (p s : String) {t : String} → strip_prefix p s ≡ some t → is_some (after_first p s) ≡ true
unfolding after_first
after_first_here p String.[] h = ap is_some h
after_first_here p (String.◌∷◌ c s) h = ground (arith, h)

after_first_later :
    (c : Char) (p s : String)
    → is_some (after_first p s) ≡ true
    → is_some (after_first p (String.◌∷◌ c s)) ≡ true
unfolding after_first
after_first_later c p s h = elim (Option-cases (strip_prefix p (String.◌∷◌ c s))) [
  | inl e ↦ ground (arith, h, e)
  | inr (t, e) ↦ ground (arith, e)
]

after_first-append : (p a b : String) → is_some (after_first p (a ++ (p ++ b))) ≡ true
unfolding ◌++◌
after_first-append p String.[] b = after_first_here p (p ++ b) (strip_prefix-append p b)
after_first-append p (String.◌∷◌ c a) b =
    after_first_later c p (a ++ (p ++ b)) (after_first-append p a b)

-- A pattern stands in a text.
pub record IsIn (p s : String) : Type 0 where
  pub before : String
  pub behind : String
  pub parts : s ≡ before ++ (p ++ behind)

prefix-IsIn : (p s t : String) → strip_prefix p s ≡ some t → IsIn p s
unfolding ◌++◌
prefix-IsIn p s t e = record { before = ""; behind = t; parts = strip_prefix-eq p s t e }

IsIn-cons : (c : Char) (p s : String) → IsIn p s → IsIn p (String.◌∷◌ c s)
unfolding ◌++◌
IsIn-cons c p s i = record {
  before = String.◌∷◌ c i.before;
  behind = i.behind;
  parts = ap (String.◌∷◌ c) i.parts;
}

after_first-IsIn : (p s : String) → is_some (after_first p s) ≡ true → IsIn p s
unfolding after_first
after_first-IsIn p String.[] h = elim (Option-cases (strip_prefix p "")) [
  | inl e ↦ absurd (ground (arith, h, e))
  | inr (t, e) ↦ prefix-IsIn p "" t e
]
after_first-IsIn p (String.◌∷◌ c s) h = elim (Option-cases (strip_prefix p (String.◌∷◌ c s))) [
  | inl e ↦ IsIn-cons c p s (after_first-IsIn p s (ground (arith, h, e)))
  | inr (t, e) ↦ prefix-IsIn p (String.◌∷◌ c s) t e
]

-- Among the pieces of output there is one that says that the server listens, and has no server error.
pub data Listens : List String → Type 0 where
  now :
      {t : String} {ts : List String}
      → server_error t ≡ false
      → IsIn "Listening on" t
      → Listens (t ∷ ts)
  later : {t : String} {ts : List String} → Listens ts → Listens (t ∷ ts)

on_stdout_resolved : (t : String) → on_stdout t true ≡ true
unfolding on_stdout
on_stdout_resolved t = ground arith

on_stdout-listening :
    (t : String) (b : Bool) → server_error t ≡ false → IsIn "Listening on" t → on_stdout t b ≡ true
unfolding on_stdout server_started
on_stdout-listening t b e i =
    let found =
      subst (λ s. is_some (after_first "Listening on" s) ≡ true) (sym i.parts)
        (after_first-append "Listening on" i.before i.behind) in
    ground (arith, e, found)

on_stdout-eq_true :
    (t : String) → on_stdout t false ≡ true → (server_error t ≡ false) × IsIn "Listening on" t
unfolding on_stdout server_started
on_stdout-eq_true t h = (ground (arith, h), after_first-IsIn "Listening on" t (ground (arith, h)))

on_outputs_resolved : (ts : List String) → on_outputs ts true ≡ true
unfolding on_outputs
on_outputs_resolved [] = refl
on_outputs_resolved (t ∷ ts) = ap (on_outputs ts) (on_stdout_resolved t) ∙ on_outputs_resolved ts

on_outputs-Listens : (ts : List String) → Listens ts → (b : Bool) → on_outputs ts b ≡ true
unfolding on_outputs
on_outputs-Listens [] l b = elim l [ ]
on_outputs-Listens (t ∷ ts) (now e i) b =
    ap (on_outputs ts) (on_stdout-listening t b e i) ∙ on_outputs_resolved ts
on_outputs-Listens (t ∷ ts) (later l) b = on_outputs-Listens ts l (on_stdout t b)

Listens-of_outputs : (ts : List String) → on_outputs ts false ≡ true → Listens ts
unfolding on_outputs
Listens-of_outputs [] h = absurd cc
Listens-of_outputs (t ∷ ts) h = elim (Bool-cases (on_stdout t false)) [
  | inl e ↦ let (f, i) = on_stdout-eq_true t e in now f i
  | inr e ↦ later (Listens-of_outputs ts (sym (ap (on_outputs ts) e) ∙ h))
]

resolved_with-eq_ok : (server : ℕ) (b : Bool) → resolved_with server b ≡ ok server → b ≡ true
resolved_with-eq_ok server true h = refl
resolved_with-eq_ok server false h = absurd cc

-- The start of a server, on any port, is over with its process if and only if a piece of the
-- process's output has "Listening on" in it and none of the two server errors, in any letters' case.
pub start-Listens :
    {W : Type 0} (p : Processes W) (port : Option ℕ) (w : W) (server : ℕ) (ts : List String)
    (w' : W)
    → p.spawn_cargo (cargo_args (p.number_to_string (or_default_port port))) w ≡ ((server, ts), w')
    → (start p port w ≡ (ok server, w')) ↔ Listens ts
unfolding start
start-Listens {W} p port w server ts w' e =
    let f =
      ap (λ (x : (ℕ × List String) × W). (resolved_with x.0.0 (on_outputs x.0.1 false), x.1)) e in
    (
      λ h.
          Listens-of_outputs ts
            (resolved_with-eq_ok server (on_outputs ts false) (ap (λ x. x.0) (sym f ∙ h))),
      λ l. f ∙ ap (λ b. (resolved_with server b, w')) (on_outputs-Listens ts l false),
    )
