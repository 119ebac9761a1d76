-- ===== src/Trycp/Server.antt =====
-- ts/src/trycp/trycp-server.ts: the process of a local TryCP server.
pub mod Listening
use Prim.Native.Char.{Char, code}
use text.Mathlib.TextEquality.{Char-path}
use try_o_rama.Prelude.{
  ℕ, ◌+◌, ◌≡◌, ◌↔◌, refl, sym, ap, ◌∙◌, ◌⊎◌, inl, inr, Bool, true, false, not, ◌&&◌, ◌||◌, String,
  List, [], ◌∷◌, Option, none, some, Option-cases, Bool-cases, ◌==◌, ==_refl, leb, if◌then◌else◌,
  arith,
}
use try_o_rama.Js.Text.{◌++◌, strip_prefix}
use try_o_rama.Js.Value.{is_some}
use try_o_rama.Js.Exn.{Result, ok, err, never}
use try_o_rama.Js.Action.{Action, pure, ◌>>=◌, ◌>>◌, lift, promise_all}
use try_o_rama.Common.LocalServices.{after_first}
use try_o_rama.Common.Stopping.{listed}

abbrev pub try_cp_server_port : ℕ
try_cp_server_port = 9000

-- A letter without its case, as the flag `i` compares them.
abbrev lower : ℕ → ℕ
lower n = if leb 65 n && leb n 90 then n + 32 else n

unfoldable pub starts_without_case : String → String → Bool
starts_without_case String.[] s = true
starts_without_case (String.◌∷◌ c p) String.[] = false
starts_without_case (String.◌∷◌ c p) (String.◌∷◌ d s) =
    (lower (code c) == lower (code d)) && starts_without_case p s

unfoldable pub includes_without_case : String → String → Bool
unfolding starts_without_case
includes_without_case p String.[] = starts_without_case p ""
includes_without_case p (String.◌∷◌ c s) =
    starts_without_case p (String.◌∷◌ c s) || includes_without_case p s

-- `serverError.test(data)`
unfoldable pub server_error : String → Bool
unfolding includes_without_case
server_error text =
    includes_without_case "internal_error" text
    || includes_without_case "Error serving client from address" text

-- `regexServerStarted.test(data)`
unfoldable pub server_started : String → Bool
server_started text = is_some (after_first "Listening on" text)

-- The listener of the output, on whether the promise is resolved.
unfoldable pub on_stdout : String → Bool → Bool
unfolding server_error server_started
on_stdout text resolved =
    if server_error text then resolved else (if server_started text then true else resolved)

unfoldable pub on_outputs : List String → Bool → Bool
unfolding on_stdout
on_outputs [] resolved = resolved
on_outputs (t ∷ ts) resolved = on_outputs ts (on_stdout t resolved)

-- The arguments of `cargo`, with the port's text.
abbrev pub cargo_args : String → List String
cargo_args port = "run" ∷ "-p" ∷ "trycp_server" ∷ "--release" ∷ "--" ∷ "-p" ∷ port ∷ []

-- The processes: what `spawn` starts, with all the output that it writes, and what `kill` brings
-- about. A server is its process.
pub record Processes (W : Type 0) : Type 0 where
  pub spawn_cargo : List String → W → (ℕ × List String) × W
  pub number_to_string : ℕ → String
  pub kill : ℕ → W → W

abbrev pub or_default_port : Option ℕ → ℕ
or_default_port none = try_cp_server_port
or_default_port (some n) = n

abbrev pub resolved_with : ℕ → Bool → Result ℕ
resolved_with server true = ok server
resolved_with server false = err never

module _ {W : Type 0} (p : Processes W) where
  unfoldable pub start : Option ℕ → Action W ℕ
  unfolding on_outputs
  start port w =
      let ((server, outputs), w') =
        p.spawn_cargo (cargo_args (p.number_to_string (or_default_port port))) w in
      (resolved_with server (on_outputs outputs false), w')

  -- The state holds the servers that have exited. A server that has exited does so no second time.
  unfoldable pub stop : ℕ → Action (List ℕ × W) (Unit {0})
  stop server (exited, w) =
      if listed server exited
      then (err never, (exited, p.kill server w))
      else (ok tt, (server ∷ exited, p.kill server w))

  -- The servers are different ones.
  unfoldable pub stop_all_try_cp_servers : List ℕ → Action (List ℕ × W) (List (Unit {0}))
  unfolding stop
  stop_all_try_cp_servers servers = promise_all stop servers
