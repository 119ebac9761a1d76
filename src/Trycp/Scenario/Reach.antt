-- ===== src/Trycp/Scenario/Reach.antt =====
-- What a TryCP scenario has in its reach: the clients of its list, and the conductors of their lists.
use try_o_rama.Prelude.{
  ℕ, suc, ◌≡◌, sym, ap, subst, String, List, [], ◌∷◌, ◌++◌, Option, none, some, All, All-map,
  length, get_elem?, get_elem?-append_left, arith,
}
use try_o_rama.Js.Value.{Value}
use try_o_rama.Js.Action.{Action}
use try_o_rama.Js.Keeps.{
  Keeps, Brings, Always, lift-Keeps, pure-Keeps, bind-Keeps, bind-Brings, step-Brings, pure-Brings,
  Always-Keeps, for_each-Keeps, for_each-Brings, promise_all-Brings, All-Keeps,
}
use try_o_rama.Common.{enable_and_get_agent_app}
use try_o_rama.Trycp.Conductor.{TryCpConductorOptions}
use try_o_rama.Trycp.Scenario.{
  World, Surroundings, M, TryCpClient, change_at, on_host, client_at, push_client, push_conductor,
  add_client, add_conductor,
}
use try_o_rama.Trycp.Scenario.Players.{
  ClientsPlayersOptions, repeat, connect_interface, player_of, add_player, add_conductor_players,
  add_client_players,
}

-- An element stands on a list.
abbrev pub IsOn : {A : Type 0} → A → List A → Type 0
IsOn a xs = (k : ℕ) × (get_elem? xs k ≡ some a)

-- The client at a place is on the scenario's list, and some conductors are on the client's list.
pub record Holds {W : Type 0} (i : ℕ) (ids : List String) (w : World W) : Type 0 where
  pub listed : IsOn i w.scenario.clients
  pub client : TryCpClient
  pub found : get_elem? w.store i ≡ some client
  pub conductors : All (λ id. IsOn id client.conductors) ids

IsOn-append : {A : Type 0} {a : A} (xs ys : List A) → IsOn a xs → IsOn a (xs ++ ys)
IsOn-append xs ys (k, e) = (k, get_elem?-append_left xs ys k e)

-- A client once more conductors are on its list.
abbrev pub with_more : String → TryCpClient → TryCpClient
with_more id c = record c { conductors = c.conductors ++ id ∷ [] }

pub change_at-here :
    {c : TryCpClient} (cs : List TryCpClient) (i : ℕ) (f : TryCpClient → TryCpClient)
    → get_elem? cs i ≡ some c
    → get_elem? (change_at cs i f) i ≡ some (f c)
change_at-here [] i f e = absurd cc
change_at-here (d ∷ cs) ℕ.zero f e = ap (λ o. elim o [ none ↦ none | some x ↦ some (f x) ]) e
change_at-here (d ∷ cs) (suc i) f e = change_at-here cs i f e

-- The client at a place of the changed store, with the same conductors at least.
change_at-found :
    {c : TryCpClient} (cs : List TryCpClient) (i j : ℕ) (id : String) (ids : List String)
    → get_elem? cs i ≡ some c
    → All (λ id. IsOn id c.conductors) ids
    → (d : TryCpClient) × (get_elem? (change_at cs j (with_more id)) i ≡ some d)
      × All (λ id. IsOn id d.conductors) ids
change_at-found [] i j id ids e h = absurd cc
change_at-found {c} (d ∷ cs) ℕ.zero ℕ.zero id ids e h = (
  with_more id c,
  change_at-here (d ∷ cs) 0 (with_more id) e,
  All-map ids (λ i p. IsOn-append c.conductors (id ∷ []) p) h,
)
change_at-found {c} (d ∷ cs) ℕ.zero (suc j) id ids e h = (c, e, h)
change_at-found {c} (d ∷ cs) (suc i) ℕ.zero id ids e h = (c, e, h)
change_at-found (d ∷ cs) (suc i) (suc j) id ids e h = change_at-found cs i j id ids e h

module _ {W : Type 0} (s : Surroundings W) where
  client_at-state : (j : ℕ) (w : World W) → (client_at s j w).1 ≡ w
  client_at-state j w = ground arith

  module _ {i : ℕ} {ids : List String} where
    pub on_host-Keeps : {A : Type 0} (f : Action W A) → Keeps (Holds i ids) (on_host s f)
    on_host-Keeps f = record {
      keep = λ w p. record {
        listed = p.listed;
        client = p.client;
        found = p.found;
        conductors = p.conductors;
      };
    }

    pub client_at-Keeps : (j : ℕ) → Keeps (Holds i ids) (client_at s j)
    client_at-Keeps j = record { keep = λ w p. subst (Holds i ids) (sym (client_at-state j w)) p }

    pub push_client-Keeps : (c : TryCpClient) → Keeps (Holds i ids) (push_client s c)
    push_client-Keeps c = record {
      keep = λ w p. record {
        listed = IsOn-append w.scenario.clients (length w.store ∷ []) p.listed;
        client = p.client;
        found = get_elem?-append_left w.store _ i p.found;
        conductors = p.conductors;
      };
    }

    pub push_conductor-Keeps : (j : ℕ) (id : String) → Keeps (Holds i ids) (push_conductor s j id)
    push_conductor-Keeps j id = record {
      keep = λ w p.
          let (d, e, h) = change_at-found w.store i j id ids p.found p.conductors in
          record { listed = p.listed; client = d; found = e; conductors = h };
    }

    pub ruleset calls = (
      bind-Keeps, on_host-Keeps, client_at-Keeps, push_client-Keeps, push_conductor-Keeps,
      lift-Keeps, pure-Keeps,
    )

    pub add_client-Keeps :
        (url : String) (timeout : Option ℕ) → Keeps (Holds i ids) (add_client s url timeout)
    unfolding add_client
    add_client-Keeps url timeout = search calls depth 40

    pub add_conductor-Keeps :
        (j : ℕ) (o : TryCpConductorOptions) → Keeps (Holds i ids) (add_conductor s j o)
    unfolding add_conductor
    add_conductor-Keeps j o = search calls depth 40

    pub add_player-Keeps :
        (j : ℕ) (id : String) (v : Value) → Keeps (Holds i ids) (add_player s j id v)
    unfolding add_player connect_interface player_of enable_and_get_agent_app
    add_player-Keeps j id v = search calls depth 60

    pub add_conductor_players-Keeps :
        (o : ClientsPlayersOptions) (j : ℕ) → Keeps (Holds i ids) (add_conductor_players s o j)
    unfolding add_conductor_players
    add_conductor_players-Keeps o j =
        search (calls, add_conductor-Keeps, for_each-Keeps, add_player-Keeps) depth 40

    repeat-Keeps :
        {A : Type 0} (n : ℕ) (body : M s A)
        → Keeps (Holds i ids) body
        → Keeps (Holds i ids) (repeat s n body)
    unfolding repeat
    repeat-Keeps ℕ.zero body k = pure-Keeps []
    repeat-Keeps (suc n) body k =
        bind-Keeps k (λ x. bind-Keeps (repeat-Keeps n body k) (λ xs. pure-Keeps (x ∷ xs)))

    pub add_client_players-Keeps :
        (o : ClientsPlayersOptions) (url : String)
        → Keeps (Holds i ids) (add_client_players s o url)
    unfolding add_client_players
    add_client_players-Keeps o url =
        search (calls, add_client-Keeps, repeat-Keeps, add_conductor_players-Keeps) depth 40
