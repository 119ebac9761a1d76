-- ===== src/Common/Cells.antt =====
-- `getCallableCell` and `enableAndGetAgentApp`: which request a cell passes on, and which cells an
-- app is given.
use try_o_rama.Prelude.{
  ◌≡◌, refl, sym, ap, ◌∙◌, String, Bool, true, false, Option, none, some, List, [], ◌∷◌, ◌++◌, map,
  str_eq, eq_iff, if◌then◌else◌, arith, fun_ext, inl, inr, ◌⊎◌, ◌&&◌, Bool-cases,
}
use try_o_rama.Js.Value.{Value, Fields, field, end, obj, str, find_field, set_field}
use try_o_rama.Js.Exn.{Result, ok, err, error}
use try_o_rama.Js.Action.{Action, lift, ◌>>=◌, bind_ok}
use try_o_rama.Types.{Cell, CellInfo, AppInfo}
use try_o_rama.Common.{
  CallZome, CallableCell, add_named, and_then, Collected, AgentApp, payload_or_null, bound_request,
  get_callable_cell, map_set, named_cell, add_cell, add_cells, add_roles, with_cells, agent_app_of,
  enable_errors, has_errors, enable_and_get_agent_app,
}

str_eq-sym : (s t : String) → str_eq s t ≡ str_eq t s
str_eq-sym s t = ground (arith, eq_iff s t, eq_iff t s)

-- The test of a map that has an entry for `i` against a key `k` when `j` is written.
str_eq-cases :
    (i j k : String)
    → ((str_eq i j ≡ true) × (str_eq i k ≡ str_eq j k))
      ⊎ ((str_eq i j ≡ false) × (str_eq i k && str_eq j k ≡ false))
str_eq-cases i j k = elim (Bool-cases (str_eq i j)) [
  | inl e ↦ inl (e, ap (λ x. str_eq x k) ((eq_iff i j).0 e))
  | inr e ↦ elim (Bool-cases (str_eq i k)) [
    | inl f ↦
        inr (e, (ground (arith, f, sym (ap (λ x. str_eq j x) ((eq_iff i k).0 f)) ∙ str_eq-sym j i)))
    | inr f ↦ inr (e, (ground (arith, f)))
  ]
]

find_field-set_field :
    (k j : String) (v : Value) (fs : Fields)
    → find_field k (set_field j v fs) ≡ (if str_eq j k then some v else find_field k fs)
unfolding find_field set_field
find_field-set_field k j v end = refl
find_field-set_field k j v (field i w fs) = elim (str_eq-cases i j k) [
  | inl (e, f) ↦ ground (arith, f)
  | inr (e, f) ↦ ground (arith, f, find_field-set_field k j v fs)
]

-- The request that a callable cell passes on has the cell's id for `cell_id`, the payload or `null`
-- for `payload`, and every other property as the caller has it.
bound_request-fields :
    (cell_id : Value) (request : Fields) (k : String)
    → find_field k (bound_request cell_id request) ≡ (
        if str_eq "payload" k
        then some (payload_or_null request)
        else if str_eq "cell_id" k
        then some cell_id
        else find_field k request)
unfolding bound_request
bound_request-fields cell_id request k = ground (
  arith,
  find_field-set_field k "payload" (payload_or_null request) (set_field "cell_id" cell_id request),
  find_field-set_field k "cell_id" cell_id request,
)

-- The cells of an app with the roles they stand under, in the order in which they are listed.
pub entries : List (String × List CellInfo) → List (String × CellInfo)
entries [] = []
entries ((role, infos) ∷ roles) = map (λ info. (role, info)) infos ++ entries roles

abbrev pub cons_named : {A : Type 0} → Option A → Option (List A) → Option (List A)
cons_named none cs = none
cons_named (some c) none = none
cons_named (some c) (some cs) = some (c ∷ cs)

-- The cells with their names; `none` if one of them is a stem cell or a clone without an id.
pub named : List (String × CellInfo) → Option (List (String × Cell))
named [] = some []
named ((role, info) ∷ es) = cons_named (named_cell role info) (named es)

-- The last of the cells with a name.
pub last_named : String → List (String × Cell) → Option Cell
last_named name [] = none
last_named name ((n, c) ∷ cs) =
    let later = last_named name cs in
    elim later [ some d ↦ some d | none ↦ (if str_eq n name then some c else none) ]

abbrev pub map_option {ℓ κ} : {A : Type ℓ} {B : Type κ} → (A → B) → Option A → Option B
map_option f none = none
map_option f (some a) = some (f a)

abbrev or_option {ℓ} : {A : Type ℓ} → Option A → Option A → Option A
or_option none o = o
or_option (some a) o = some a

or_none {ℓ} : {A : Type ℓ} (o : Option A) → or_option o none ≡ o
or_none none = refl
or_none (some a) = refl

append-nil {ℓ} : {A : Type ℓ} (xs : List A) → xs ++ [] ≡ xs
append-nil [] = refl
append-nil (x ∷ xs) = ap (λ ys. x ∷ ys) (append-nil xs)

append_assoc {ℓ} : {A : Type ℓ} (xs ys zs : List A) → (xs ++ ys) ++ zs ≡ xs ++ (ys ++ zs)
append_assoc [] ys zs = refl
append_assoc (x ∷ xs) ys zs = ap (λ as'. x ∷ as') (append_assoc xs ys zs)

-- `Map.get`
pub map_get {ℓ} : {V : Type ℓ} → String → List (String × V) → Option V
map_get k [] = none
map_get k ((j, v) ∷ m) = if str_eq j k then some v else map_get k m

map_get-map_set :
    {V : Type 0} (k j : String) (v : V) (m : List (String × V))
    → map_get k (map_set j v m) ≡ (if str_eq j k then some v else map_get k m)
unfolding map_get map_set
map_get-map_set k j v [] = refl
map_get-map_set k j v ((i, u) ∷ m) = elim (str_eq-cases i j k) [
  | inl (e, f) ↦ ground (arith, f)
  | inr (e, f) ↦ ground (arith, f, map_get-map_set k j v m)
]

and_then_assoc :
    {A : Type 0} (r : Result A) (f g : A → Result A)
    → and_then (and_then r f) g ≡ and_then r (λ a. and_then (f a) g)
and_then_assoc (ok a) f g = refl
and_then_assoc (err e) f g = refl

module _ {W : Type 0} (app_ws : CallZome W) where
  abbrev put : String → Cell → Collected W → Collected W
  put name c acc = record {
    cells = acc.cells ++ get_callable_cell app_ws c ∷ [];
    named_cells = map_set name (get_callable_cell app_ws c) acc.named_cells;
  }

  -- What the code has collected once it has gone through the named cells.
  pub collect : List (String × Cell) → Collected W → Collected W
  collect [] acc = acc
  collect ((name, c) ∷ cs) acc = collect cs (put name c acc)

  -- The result of going through named cells, or through some that cannot be named.
  abbrev pub collected_from : Option (List (String × Cell)) → Collected W → Result (Collected W)
  collected_from none acc = err (error "Stem cells are not implemented")
  collected_from (some cs) acc = ok (collect cs acc)

  -- `enable_and_get_agent_app` from its second line on.
  abbrev check_errors : AppInfo → Value → Action W (AgentApp W)
  check_errors info response = lift (has_errors (enable_errors response)) >>= λ errors.
      lift (agent_app_of app_ws info response errors)

  later :
      (o : Option Cell) (b : Bool) (c : Cell) (rest : Option (CallableCell W))
      → or_option
          (map_option (get_callable_cell app_ws) o)
          (if b then some (get_callable_cell app_ws c) else rest)
        ≡ or_option
            (map_option
              (get_callable_cell app_ws)
              (elim o [ some d ↦ some d | none ↦ (if b then some c else none) ]))
            rest
  later (some d) b c rest = refl
  later none true c rest = refl
  later none false c rest = refl

  collected_from-cons :
      (c : Option (String × Cell)) (cs : Option (List (String × Cell))) (acc : Collected W)
      → and_then (add_named app_ws c acc) (collected_from cs) ≡ collected_from (cons_named c cs) acc
  unfolding add_named collect
  collected_from-cons none cs acc = refl
  collected_from-cons (some c) none acc = refl
  collected_from-cons (some c) (some cs) acc = refl

  add_cells-eq :
      (role : String) (infos : List CellInfo) (es : List (String × CellInfo)) (acc : Collected W)
      → and_then (add_cells app_ws role infos acc) (collected_from (named es))
        ≡ collected_from (named (map (λ info. (role, info)) infos ++ es)) acc
  unfolding add_cells named
  add_cells-eq role [] es acc = refl
  add_cells-eq role (info ∷ infos) es acc =
      and_then_assoc (add_cell app_ws role info acc) (add_cells app_ws role infos)
        (collected_from (named es))
      ∙ ap (and_then (add_cell app_ws role info acc)) (fun_ext λ a. add_cells-eq role infos es a)
      ∙ collected_from-cons (named_cell role info) (named (map (λ info. (role, info)) infos ++ es))
          acc

  pub add_roles-eq :
      (roles : List (String × List CellInfo)) (acc : Collected W)
      → add_roles app_ws roles acc ≡ collected_from (named (entries roles)) acc
  unfolding add_roles entries named collect
  add_roles-eq [] acc = refl
  add_roles-eq ((role, infos) ∷ roles) acc =
      ap (and_then (add_cells app_ws role infos acc)) (fun_ext λ a. add_roles-eq roles a)
      ∙ add_cells-eq role infos (entries roles) acc

  -- Once the request to enable the app is answered without errors, `enable_and_get_agent_app`
  -- returns the app with what it collects from all the named cells of the app, in their order, if
  -- no cell of the app is a stem cell or a clone without an id, and throws if one is.
  enable_and_get_agent_app-eq :
      (enable_app : Value → Action W Value) (info : AppInfo) (response : Value) (w w' : W)
      → enable_app (obj (field "installed_app_id" (str info.installed_app_id) end)) w
        ≡ (ok response, w')
      → has_errors (enable_errors response) ≡ ok false
      → enable_and_get_agent_app enable_app app_ws info w ≡ (
        with_cells info (
            collected_from
              (named (entries info.cell_info))
              (record { cells = []; named_cells = [] })),
        w',
      )
  unfolding enable_and_get_agent_app agent_app_of
  enable_and_get_agent_app-eq enable_app info response w w' h k =
      bind_ok (enable_app (obj (field "installed_app_id" (str info.installed_app_id) end)))
        (check_errors info) h
      ∙ bind_ok (lift (has_errors (enable_errors response)))
          (λ errors. lift (agent_app_of app_ws info response errors)) (ap (λ r. (r, w')) k)
      ∙ ap (λ r. (with_cells info r, w'))
          (add_roles-eq info.cell_info (record { cells = []; named_cells = [] }))

  cells-collect :
      (cs : List (String × Cell)) (acc : Collected W)
      → (collect cs acc).cells
        ≡ acc.cells ++ map (λ (c : String × Cell). get_callable_cell app_ws c.1) cs
  unfolding collect
  cells-collect [] acc = sym (append-nil acc.cells)
  cells-collect ((name, c) ∷ cs) acc =
      cells-collect cs (put name c acc) ∙ append_assoc acc.cells _ _

  named_cells-collect :
      (cs : List (String × Cell)) (name : String) (acc : Collected W)
      → map_get name (collect cs acc).named_cells
        ≡ or_option
            (map_option (get_callable_cell app_ws) (last_named name cs))
            (map_get name acc.named_cells)
  unfolding collect last_named
  named_cells-collect [] name acc = refl
  named_cells-collect ((n, c) ∷ cs) name acc =
      named_cells-collect cs name (put n c acc)
      ∙ ap (or_option (map_option (get_callable_cell app_ws) (last_named name cs)))
          (map_get-map_set name n (get_callable_cell app_ws c) acc.named_cells)
      ∙ later (last_named name cs) (str_eq n name) c (map_get name acc.named_cells)

  -- What a name stands for is the callable cell of the last named cell with that name, and the
  -- cells are the callable cells of all the named ones, in order.
  collect-eq :
      (cs : List (String × Cell)) (name : String)
      → let app = collect cs (record { cells = []; named_cells = [] }) in
        (app.cells ≡ map (λ (c : String × Cell). get_callable_cell app_ws c.1) cs)
        × (map_get name app.named_cells
            ≡ map_option (get_callable_cell app_ws) (last_named name cs))
  unfolding map_get
  collect-eq cs name = (
    cells-collect cs (record { cells = []; named_cells = [] }),
    named_cells-collect cs name (record { cells = []; named_cells = [] })
        ∙ or_none (map_option (get_callable_cell app_ws) (last_named name cs)),
  )
