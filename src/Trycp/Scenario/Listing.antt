-- ===== src/Trycp/Scenario/Listing.antt =====
-- The players of a TryCP scenario are in its reach: `shut_down_all` and `clean_up` go through the list
-- of clients and through each client's list of conductors.
use try_o_rama.Prelude.{
  ℕ, suc, ◌≡◌, refl, sym, ap, subst, String, List, [], ◌∷◌, Option, All, length,
  get_elem?-append_last,
}
use try_o_rama.Js.Value.{Value}
use try_o_rama.Js.Exn.{ok}
use try_o_rama.Js.Action.{pure, ◌>>=◌, lift, for_each}
use try_o_rama.Js.Yields.{ok_inj}
use try_o_rama.Js.Keeps.{
  Brings, Always, bind-Brings, step-Brings, pure-Brings, Always-Keeps, for_each-Brings,
  promise_all-Brings, All-Keeps,
}
use try_o_rama.Common.{AgentApp, enable_and_get_agent_app}
use try_o_rama.Trycp.Conductor.{TryCpConductorOptions, create_try_cp_conductor}
use try_o_rama.Trycp.Scenario.{
  World, Surroundings, M, TryCpClient, on_host, services_of, push_client, push_conductor, with_urls,
  add_client, add_conductor, create,
}
use try_o_rama.Trycp.Scenario.Players.{
  ClientsPlayersOptions, ClientPlayers, TryCpPlayer, copies, agents_apps, or_one, flat, repeat,
  connect_interface, player_of, add_player, add_conductor_players, add_client_players,
  add_clients_players,
}
use try_o_rama.Trycp.Scenario.Sizes.{All-flat, with_apps}
use try_o_rama.Trycp.Scenario.Reach.{
  Holds, with_more, change_at-here, on_host-Keeps, client_at-Keeps, add_player-Keeps,
  add_conductor_players-Keeps, add_client_players-Keeps, calls,
}

module _ {W : Type 0} (s : Surroundings W) where
  push_client-Brings : (c : TryCpClient) → Brings Always (λ i. Holds i []) (push_client s c)
  push_client-Brings c = record {
    bring = λ w i p h.
        subst (λ i. Holds i [] (push_client s c w).1) (ok_inj h)
          (record {
            listed = (
              length w.scenario.clients,
              get_elem?-append_last w.scenario.clients (length w.store),
            );
            client = with_urls s w.scenario c;
            found = get_elem?-append_last w.store (with_urls s w.scenario c);
            conductors = tt;
          });
  }

  push_conductor-Brings :
      (i : ℕ) (id : String) → Brings (Holds i []) (λ u. Holds i (id ∷ [])) (push_conductor s i id)
  push_conductor-Brings i id = record {
    bring = λ w u p h. record {
      listed = p.listed;
      client = with_more id p.client;
      found = change_at-here w.store i (with_more id) p.found;
      conductors = ((length p.client.conductors, get_elem?-append_last p.client.conductors id), tt);
    };
  }

  add_client-Brings :
      (url : String) (timeout : Option ℕ)
      → Brings Always (λ i. Holds i []) (add_client s url timeout)
  unfolding add_client
  add_client-Brings url timeout =
      step-Brings (Always-Keeps (on_host s (create s url timeout))) push_client-Brings

  add_conductor-Brings :
      (i : ℕ) (o : TryCpConductorOptions)
      → Brings (Holds i []) (λ id. Holds i (id ∷ [])) (add_conductor s i o)
  unfolding add_conductor
  add_conductor-Brings i o = step-Brings (client_at-Keeps s i) (λ c.
      step-Brings (on_host-Keeps s (create_try_cp_conductor (services_of s c) o)) (λ id.
        bind-Brings (λ u. Holds i (id ∷ [])) (push_conductor-Brings i id)
          (λ u. pure-Brings id (λ w p. p))))

  -- The client and the conductor of a player are in the scenario's reach.
  abbrev pub IsListed : TryCpPlayer W → World W → Type 0
  IsListed p = Holds p.client (p.conductor ∷ [])

  made-Brings :
      (i : ℕ) (id : String) (port : ℕ) (a : AgentApp (World W))
      → Brings
          (Holds i (id ∷ []))
          IsListed
          (pure (record { client = i; conductor = id; app_ws = port; agent_app = a }))
  made-Brings i id port a =
      pure-Brings (record { client = i; conductor = id; app_ws = port; agent_app = a }) (λ w p. p)

  add_player-Brings :
      (i : ℕ) (id : String) (v : Value) → Brings (Holds i (id ∷ [])) IsListed (add_player s i id v)
  unfolding add_player connect_interface player_of enable_and_get_agent_app
  add_player-Brings i id v = search (step-Brings, calls, made-Brings) depth 60

  abbrev AllListed : List (TryCpPlayer W) → World W → Type 0
  AllListed ps w = All (λ p. IsListed p w) ps

  players-Brings :
      (i : ℕ) (id : String) (installed : List Value)
      → Brings (Holds i (id ∷ [])) AllListed (for_each (add_player s i id) installed)
  players-Brings i id installed =
      for_each-Brings IsListed (add_player s i id) installed (add_player-Brings i id)
        (add_player-Keeps s i id) (λ v p. add_player-Keeps s i id v)

  add_conductor_players-Brings :
      (o : ClientsPlayersOptions) (i : ℕ)
      → Brings (Holds i []) AllListed (add_conductor_players s o i)
  unfolding add_conductor_players
  add_conductor_players-Brings o i =
      bind-Brings (λ id. Holds i (id ∷ [])) {f = λ id. lift (agents_apps o) >>= with_apps s i id}
        (add_conductor-Brings i _) (λ id. search (step-Brings, calls, players-Brings) depth 40)

  repeat-eq :
      {A : Type 0} (n : ℕ) (body : M s A) → repeat s n body ≡ for_each (λ u. body) (copies n tt)
  unfolding repeat for_each
  repeat-eq ℕ.zero body = refl
  repeat-eq (suc n) body = ap (λ m. body >>= λ x. m >>= λ xs. pure (x ∷ xs)) (repeat-eq n body)

  repeat-Brings :
      (o : ClientsPlayersOptions) (i n : ℕ)
      → Brings
          (Holds i [])
          (λ xss w. All (λ ps. AllListed ps w) xss)
          (repeat s n (add_conductor_players s o i))
  repeat-Brings o i n =
      subst (Brings (Holds i []) (λ xss w. All (λ ps. AllListed ps w) xss))
        (sym (repeat-eq n (add_conductor_players s o i)))
        (for_each-Brings AllListed (λ u. add_conductor_players s o i) (copies n tt)
          (λ u. add_conductor_players-Brings o i) (λ u. add_conductor_players-Keeps s o i)
          (λ u ps. All-Keeps ps (λ p. add_conductor_players-Keeps s o i)))

  -- All the players of a client are in reach.
  abbrev pub AreListed : ClientPlayers W → World W → Type 0
  AreListed c w = All (λ p. IsListed p w) c.players

  add_client_players-Brings :
      (o : ClientsPlayersOptions) (url : String)
      → Brings Always AreListed (add_client_players s o url)
  unfolding add_client_players
  add_client_players-Brings o url =
      bind-Brings (λ i. Holds i []) (add_client-Brings url o.client_timeout)
        (λ i.
          bind-Brings (λ xss w. All (λ ps. AllListed ps w) xss)
            (repeat-Brings o i (or_one o.number_of_conductors_per_client))
            (λ xss.
              pure-Brings (record { client = i; players = flat xss })
                (λ w h. All-flat (λ p. IsListed p w) xss h)))

  -- When `add_clients_players` returns, every player that it returns is in the scenario's reach: its
  -- client is on the scenario's list of clients, and its conductor on that client's list of
  -- conductors, which shutting down and cleaning up go through.
  pub add_clients_players-AreListed :
      (urls : List String) (o : ClientsPlayersOptions) (w w' : World W)
      (cs : List (ClientPlayers W))
      → add_clients_players s urls o w ≡ (ok cs, w')
      → All (λ c. AreListed c w') cs
  unfolding add_clients_players
  add_clients_players-AreListed urls o w w' cs h =
      subst (λ x. All (λ c. AreListed c x.1) cs) h
        ((promise_all-Brings AreListed (add_client_players s o) urls (add_client_players-Brings o)
            (λ url. Always-Keeps (add_client_players s o url))
            (λ url c. All-Keeps c.players (λ p. add_client_players-Keeps s o url))).bring
          w cs tt (ap (λ x. x.0) h))
