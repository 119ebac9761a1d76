-- ===== src/Trycp/Scenario/Sizes.antt =====
-- How many clients and players `add_clients_players` makes.
use try_o_rama.Prelude.{
  ℕ, suc, ◌*◌, ◌≡◌, refl, ap, ◌∙◌, String, List, [], ◌∷◌, ◌++◌, Option, none, some, All, All-map,
  length, length-append, map, arith,
}
use try_o_rama.Js.Value.{Value, obj}
use try_o_rama.Js.Exn.{ok}
use try_o_rama.Js.Action.{Action, pure, ◌>>=◌, lift, for_each}
use try_o_rama.Js.Yields.{
  Yields, Each, bind-Yields, rest-Yields, pure-Yields, lift-Yields, for_each-Yields,
  promise_all-Yields,
}
use try_o_rama.Types.{AgentApps}
use try_o_rama.Common.Peers.{suc-mul}
use try_o_rama.Common.{AgentApp, enable_and_get_agent_app}
use try_o_rama.Trycp.Conductor.Admin.{enable_app}
use try_o_rama.Trycp.Conductor.App.{call_zome}
use try_o_rama.Trycp.Conductor.Install.{install_agents_apps, install_agent_app}
use try_o_rama.Trycp.Scenario.{
  World, Surroundings, M, TryCpClient, on_host, client_at, services_of, add_client, add_conductor,
}
use try_o_rama.Trycp.Scenario.Players.{
  ClientsPlayersOptions, ClientPlayers, TryCpPlayer, copies, spread_array, agents_apps, apps_for,
  or_one, flat, app_for, repeat, connect_interface, player_of, add_player, add_conductor_players,
  add_client_players, add_clients_players,
}

length-copies : {A : Type 0} (n : ℕ) (a : A) → length (copies n a) ≡ n
length-copies ℕ.zero a = refl
length-copies (suc n) a = ap suc (length-copies n a)

length-map : {A B : Type 0} (f : A → B) (xs : List A) → length (map f xs) ≡ length xs
length-map f [] = refl
length-map f (x ∷ xs) = ap suc (length-map f xs)

abbrev agents_of : Option ℕ → Option (List Value) → ℕ
agents_of number none = or_one number
agents_of number (some keys) = length keys

-- How many agents each conductor gets.
unfoldable pub agents_per_conductor : ClientsPlayersOptions → ℕ
agents_per_conductor o = agents_of o.number_of_agents_per_conductor o.agent_pub_keys

length-spread_array :
    (o : Option ℕ) (a : AgentApps) (apps : List AgentApps)
    → spread_array o a ≡ ok apps
    → length apps ≡ or_one o
length-spread_array none a apps h = ground arith
length-spread_array (some n) a apps h = ground (arith, length-copies n a)

length-apps_for :
    (app : Value) (number : Option ℕ) (keys : Option (List Value)) (apps : List AgentApps)
    → apps_for app number keys ≡ ok apps
    → length apps ≡ agents_of number keys
length-apps_for app number none apps h = length-spread_array number (app_for app none) apps h
length-apps_for app number (some keys) apps h =
    ground (arith, length-map (λ k. app_for app (some k)) keys)

length-agents_apps :
    (o : ClientsPlayersOptions) (apps : List AgentApps)
    → agents_apps o ≡ ok apps
    → length apps ≡ agents_per_conductor o
unfolding agents_apps agents_per_conductor
length-agents_apps o apps h =
    length-apps_for o.app o.number_of_agents_per_conductor o.agent_pub_keys apps h

length-flat :
    {A : Type 0} (n : ℕ) (xss : List (List A))
    → All (λ xs. length xs ≡ n) xss
    → length (flat xss) ≡ length xss * n
length-flat n [] h = omega arith
length-flat n (xs ∷ xss) (e, h) =
    omega (arith, length-append xs (flat xss), length-flat n xss h, suc-mul (length xss) n)

All-append : {A : Type 0} (P : A → Type 0) (xs ys : List A) → All P xs → All P ys → All P (xs ++ ys)
All-append P [] ys p q = q
All-append P (x ∷ xs) ys (h, p) q = (h, All-append P xs ys p q)

pub All-flat :
    {A : Type 0} (P : A → Type 0) (xss : List (List A)) → All (All P) xss → All P (flat xss)
All-flat P [] h = tt
All-flat P (xs ∷ xss) (p, h) = All-append P xs (flat xss) p (All-flat P xss h)

-- A client has as many players as all its conductors have agents, and they are its own.
pub record IsFull {W : Type 0} (o : ClientsPlayersOptions) (c : ClientPlayers W) : Type 0 where
  pub number : length c.players ≡ or_one o.number_of_conductors_per_client * agents_per_conductor o
  pub own : All (λ p. p.client ≡ c.client) c.players

module _ {W : Type 0} (s : Surroundings W) where
  on_host-Yields :
      {A : Type 0} (P : A → Type 0) (f : Action W A) → Yields P f → Yields P (on_host s f)
  on_host-Yields P f p w a h = p w.host a h

  repeat-Yields :
      {A : Type 0} (P : A → Type 0) (n : ℕ) (body : M s A)
      → Yields P body
      → Yields (Each P n) (repeat s n body)
  unfolding repeat
  repeat-Yields P ℕ.zero body p = pure-Yields (Each P 0) [] (tt, refl)
  repeat-Yields P (suc n) body p =
      bind-Yields P (Each P (suc n)) body (λ x. repeat s n body >>= λ xs. pure (x ∷ xs)) p
        (λ x q.
          bind-Yields (Each P n) (Each P (suc n)) (repeat s n body) (λ xs. pure (x ∷ xs))
            (repeat-Yields P n body p)
            (λ xs (qs, e). pure-Yields (Each P (suc n)) (x ∷ xs) ((q, qs), ap suc e)))

  -- The player is one of the client at a place.
  abbrev IsOf : ℕ → TryCpPlayer W → Type 0
  IsOf i p = p.client ≡ i

  add_player-IsOf :
      (i : ℕ) (id : String) (installed : Value) → Yields (IsOf i) (add_player s i id installed)
  unfolding add_player player_of
  add_player-IsOf i id installed =
      rest-Yields (IsOf i) (connect_interface s i id (s.as_app_info installed))
        (player_of s i id (s.as_app_info installed))
        (λ port.
          rest-Yields (IsOf i) (client_at s i)
            (λ c. agent_app_at c port >>= λ a. pure (made port a))
            (λ c.
              rest-Yields (IsOf i) (agent_app_at c port) (λ a. pure (made port a))
                (λ a. pure-Yields (IsOf i) (made port a) refl)))
    where
      agent_app_at : TryCpClient → ℕ → M s (AgentApp (World W))
      agent_app_at c port =
          enable_and_get_agent_app (λ request. on_host s (enable_app (services_of s c) id request))
            (λ request timeout. on_host s (call_zome (services_of s c) id port (obj request)))
            (s.as_app_info installed)

      made : ℕ → AgentApp (World W) → TryCpPlayer W
      made port a = record { client = i; conductor = id; app_ws = port; agent_app = a }

  -- The rest of `add_conductor_players` behind each of its calls.
  abbrev pub installing : TryCpClient → String → List AgentApps → M s (List Value)
  installing c id apps = on_host s (
      install_agents_apps (services_of s c) id
        (record { agents_apps = apps; network_seed = none; installed_app_id = none }))

  abbrev pub with_client : ℕ → String → List AgentApps → TryCpClient → M s (List (TryCpPlayer W))
  with_client i id apps c = installing c id apps >>= λ infos. for_each (add_player s i id) infos

  abbrev pub with_apps : ℕ → String → List AgentApps → M s (List (TryCpPlayer W))
  with_apps i id apps = client_at s i >>= with_client i id apps

  installing-length :
      (c : TryCpClient) (id : String) (apps : List AgentApps)
      → Yields (λ infos. length infos ≡ length apps) (installing c id apps)
  unfolding install_agents_apps
  installing-length c id apps w infos h =
      (promise_all-Yields (λ v. Unit {0})
        (install_agent_app (services_of s c) id
          (record { agents_apps = apps; network_seed = none; installed_app_id = none }))
        apps (λ x w v h. tt) w.host infos h).1

  with_apps-Each :
      (i : ℕ) (id : String) (n : ℕ) (apps : List AgentApps)
      → length apps ≡ n
      → Yields (Each (IsOf i) n) (with_apps i id apps)
  with_apps-Each i id n apps e =
      rest-Yields (Each (IsOf i) n) (client_at s i) (with_client i id apps) (λ c.
        bind-Yields (λ infos. length infos ≡ length apps) (Each (IsOf i) n) (installing c id apps)
          (for_each (add_player s i id)) (installing-length c id apps)
          (λ infos f w ps h.
            let (all, g) =
              for_each-Yields (IsOf i) (add_player s i id) infos (add_player-IsOf i id) w ps h in
            (all, g ∙ f ∙ e)))

  abbrev P : ClientsPlayersOptions → ℕ → List (TryCpPlayer W) → Type 0
  P o i = Each (IsOf i) (agents_per_conductor o)

  add_conductor_players-Each :
      (o : ClientsPlayersOptions) (i : ℕ) → Yields (P o i) (add_conductor_players s o i)
  unfolding add_conductor_players
  add_conductor_players-Each o i =
      rest-Yields (P o i)
        (add_conductor s i (record {
          id = none;
          partial_config = o.partial_config;
          startup = none;
          log_level = none;
        }))
        (λ id. lift (agents_apps o) >>= with_apps i id)
        (λ id.
          bind-Yields (λ apps. length apps ≡ agents_per_conductor o) (P o i) (lift (agents_apps o))
            (with_apps i id)
            (lift-Yields (λ apps. length apps ≡ agents_per_conductor o) (agents_apps o)
              (length-agents_apps o))
            (λ apps e. with_apps-Each i id (agents_per_conductor o) apps e))

  IsFull-of_conductors :
      (o : ClientsPlayersOptions) (i : ℕ) (xss : List (List (TryCpPlayer W)))
      → Each (P o i) (or_one o.number_of_conductors_per_client) xss
      → IsFull o (record { client = i; players = flat xss })
  IsFull-of_conductors o i xss (all, e) = record {
    number =
        length-flat (agents_per_conductor o) xss (All-map xss (λ xs p. p.1) all)
        ∙ ap (λ n. n * agents_per_conductor o) e;
    own = All-flat (IsOf i) xss (All-map xss (λ xs p. p.0) all);
  }

  add_client_players-IsFull :
      (o : ClientsPlayersOptions) (url : String) → Yields (IsFull o) (add_client_players s o url)
  unfolding add_client_players
  add_client_players-IsFull o url =
      let n = or_one o.number_of_conductors_per_client in
      rest-Yields (IsFull o) (add_client s url o.client_timeout)
        (λ i. repeat s n (add_conductor_players s o i) >>= λ xss.
          pure (record { client = i; players = flat xss }))
        (λ i.
          bind-Yields (Each (P o i) n) (IsFull o) (repeat s n (add_conductor_players s o i))
            (λ xss. pure (record { client = i; players = flat xss }))
            (repeat-Yields (P o i) n (add_conductor_players s o i) (add_conductor_players-Each o i))
            (λ xss p.
              pure-Yields (IsFull o) (record { client = i; players = flat xss })
                (IsFull-of_conductors o i xss p)))

  -- When `add_clients_players` returns, it returns one client for each URL, and with each client as
  -- many players of that client as conductors are asked for per client times agents per conductor:
  -- one conductor if no number is given, and as many agents as there are keys, or else the number
  -- asked for, or else one.
  pub add_clients_players-IsFull :
      (urls : List String) (o : ClientsPlayersOptions) (w : World W) (cs : List (ClientPlayers W))
      → (add_clients_players s urls o w).0 ≡ ok cs
      → All (IsFull o) cs × (length cs ≡ length urls)
  unfolding add_clients_players
  add_clients_players-IsFull urls o w cs h =
      promise_all-Yields (IsFull o) (add_client_players s o) urls (add_client_players-IsFull o) w cs
        h
