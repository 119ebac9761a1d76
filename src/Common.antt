-- ===== src/Common.antt =====
-- ts/src/common.ts: callable cells, the app of an agent, the exchange of agents among conductors,
-- and the local services.
pub mod Cells
pub mod Peers
pub mod LocalServices
pub mod Stopping
use Prim.Native.String.{String}
use try_o_rama.Prelude.{
  ℕ, Bool, true, false, not, List, [], ◌∷◌, ◌++◌, Option, none, some, str_eq, if◌then◌else◌,
}
use try_o_rama.Js.Value.{
  Value, Fields, null, str, arr, obj, nil, cons, field, end, find_field, or_undefined, set_field,
  or_else,
}
use try_o_rama.Js.Exn.{Exn, Result, ok, err, error, enable_failed, type_error}
use try_o_rama.Js.Action.{Action, pure, throw, ◌>>=◌, ◌>>◌, lift}
use try_o_rama.Types.{Cell, CellInfo, provisioned, cloned, stem, AppInfo}

-- `IAppWebsocket`: `callZome` with a request and a timeout.
abbrev pub CallZome : Type 0 → Type 0
CallZome W = Fields → Option ℕ → Action W Value

-- `CallableCell`
pub record CallableCell (W : Type 0) : Type 0 where
  pub cell : Cell
  pub call_zome : CallZome W

-- `request.payload ?? null`
unfoldable pub payload_or_null : Fields → Value
payload_or_null request = or_else (or_undefined (find_field "payload" request)) null

-- The request that a cell's `callZome` passes on.
unfoldable pub bound_request : Value → Fields → Fields
bound_request cell_id request =
    set_field "payload" (payload_or_null request) (set_field "cell_id" cell_id request)

unfoldable pub get_callable_cell : {W : Type 0} → CallZome W → Cell → CallableCell W
get_callable_cell app_ws cell = record {
  cell = cell;
  call_zome = λ request timeout. app_ws (bound_request cell.cell_id request) timeout;
}

-- The function that `getZomeCaller` returns, on a function's name, a payload and a timeout.
unfoldable pub get_zome_caller :
    {W : Type 0} → CallableCell W → String → String → Value → Option ℕ → Action W Value
get_zome_caller cell zome_name fn_name payload timeout =
    cell.call_zome
      (field "zome_name" (str zome_name)
        (field "fn_name" (str fn_name) (field "payload" payload end)))
      timeout

-- `Map.set`: an entry keeps its place.
unfoldable pub map_set {ℓ} : {V : Type ℓ} → String → V → List (String × V) → List (String × V)
map_set k v [] = (k, v) ∷ []
map_set k v ((j, u) ∷ m) = if str_eq j k then (j, v) ∷ m else (j, u) ∷ map_set k v m

-- `cells` and `namedCells`
pub record Collected (W : Type 0) : Type 0 where
  pub cells : List (CallableCell W)
  pub named_cells : List (String × CallableCell W)

-- The name and the cell of an entry of an app's cells; `none` for a stem cell, and for a clone
-- without an id, which the code takes for one.
abbrev pub named_cell : String → CellInfo → Option (String × Cell)
named_cell role (provisioned c) = some (role, c)
named_cell role (cloned c) = if str_eq c.clone_id "" then none else some (c.clone_id, c)
named_cell role (stem v) = none

unfoldable pub add_named :
    {W : Type 0} → CallZome W → Option (String × Cell) → Collected W → Result (Collected W)
unfolding map_set get_callable_cell
add_named app_ws none acc = err (error "Stem cells are not implemented")
add_named app_ws (some (name, cell)) acc = ok (record {
  cells = acc.cells ++ get_callable_cell app_ws cell ∷ [];
  named_cells = map_set name (get_callable_cell app_ws cell) acc.named_cells;
})

abbrev pub add_cell :
    {W : Type 0} → CallZome W → String → CellInfo → Collected W → Result (Collected W)
add_cell app_ws role info acc = add_named app_ws (named_cell role info) acc

abbrev pub and_then {ℓ} : {A : Type ℓ} → Result A → (A → Result A) → Result A
and_then (ok a) f = f a
and_then (err e) f = err e

-- The cells of one role.
unfoldable pub add_cells :
    {W : Type 0} → CallZome W → String → List CellInfo → Collected W → Result (Collected W)
add_cells app_ws role [] acc = ok acc
add_cells app_ws role (info ∷ infos) acc =
    and_then (add_cell app_ws role info acc) (add_cells app_ws role infos)

unfoldable pub add_roles :
    {W : Type 0} → CallZome W → List (String × List CellInfo) → Collected W → Result (Collected W)
add_roles app_ws [] acc = ok acc
add_roles app_ws ((role, infos) ∷ roles) acc =
    and_then (add_cells app_ws role infos acc) (add_roles app_ws roles)

-- `AgentApp`
pub record AgentApp (W : Type 0) : Type 0 where
  pub app_id : String
  pub agent_pub_key : Value
  pub collected : Collected W
  pub open collected use *

-- `enableAppResponse.errors.length`
abbrev pub has_errors : Option Value → Result Bool
has_errors (some (arr nil)) = ok false
has_errors (some (arr (cons v vs))) = ok true
has_errors (some Value.undefined) = err type_error
has_errors (some null) = err type_error
has_errors (some (str s)) = ok (not (str_eq s ""))
has_errors (some (Value.bin (b ∷ bs))) = ok true
has_errors (some v) = ok false
has_errors none = err type_error

abbrev pub enable_errors : Value → Option Value
enable_errors (obj fs) = find_field "errors" fs
enable_errors v = none

-- The `agentApp` object that is returned.
abbrev pub with_cells : {W : Type 0} → AppInfo → Result (Collected W) → Result (AgentApp W)
with_cells info (err e) = err e
with_cells info (ok c) =
    ok
      (record { app_id = info.installed_app_id; agent_pub_key = info.agent_pub_key; collected = c })

-- The app once its enabling is answered.
unfoldable pub agent_app_of :
    {W : Type 0} → CallZome W → AppInfo → Value → Bool → Result (AgentApp W)
agent_app_of app_ws info response true = err (enable_failed (or_undefined (enable_errors response)))
agent_app_of app_ws info response false =
    with_cells info (add_roles app_ws info.cell_info (record { cells = []; named_cells = [] }))

unfoldable pub enable_and_get_agent_app :
    {W : Type 0} → (Value → Action W Value) → CallZome W → AppInfo → Action W (AgentApp W)
enable_and_get_agent_app enable_app app_ws info = do
  response ← enable_app (obj (field "installed_app_id" (str info.installed_app_id) end))
  errors ← lift (has_errors (enable_errors response))
  lift (agent_app_of app_ws info response errors)
