-- ===== src/Trycp/Linked/Scenarios.antt =====
-- A TryCP scenario whose clients share one process: each on its own socket, with its own server, and
-- all with one counter of request ids.
use try_o_rama.Prelude.{ℕ, List}
use try_o_rama.Trycp.Codec.{Codec, IsLossless}
use try_o_rama.Trycp.Services.{Services}
use try_o_rama.Trycp.Client.{World}
use try_o_rama.Trycp.Client.Invariant.{Event}
use try_o_rama.Trycp.Scenario.{Surroundings}
use try_o_rama.Trycp.Scenario.Refinement.{SurroundingsRefine, ScenarioRefines}
use try_o_rama.Trycp.Scenario.Refinement.Methods.{methods-Refine}
use try_o_rama.Trycp.Linked.{Handler, linked, direct, aside}
use try_o_rama.Trycp.Linked.Encoding.{Unencodable}
use try_o_rama.Trycp.Linked.Calls.{IsQuiet, Linked}
use try_o_rama.Trycp.Linked.Faithful.{linked-ServicesRefine, aside-Refines}

module _ {X : Type 0} (base : Surroundings X) (codec : Codec) (handler : ℕ → Handler X)
    (traffic : ℕ → World → List Event) where
  -- What the conductors of the client on a socket use, with the codec of all of them.
  abbrev pub services_on : ℕ → Services X
  services_on ws = record (base.services ws) { codec = codec }

  -- The client on a socket is the client of that number.
  unfoldable pub over_clients : Surroundings (World × X)
  over_clients = record {
    open_socket = λ url timeout. aside (base.open_socket url timeout);
    close_socket = λ ws code. aside (base.close_socket ws code);
    services = λ ws. linked (services_on ws) ws (handler ws) (traffic ws);
    kill = λ pid. aside (base.kill pid);
    as_app_info = base.as_app_info;
    as_port = base.as_port;
  }

  -- The same scenario with every call going to the server of the socket itself.
  unfoldable pub over_servers : Surroundings X
  over_servers = record base {
    services = λ ws. direct (services_on ws) ws (handler ws) (traffic ws);
  }

  module _ (good : IsLossless codec) (quiet : (c : ℕ) → IsQuiet codec c (traffic c)) where
    surroundings-Refine : SurroundingsRefine Linked (Unencodable codec) over_clients over_servers
    unfolding over_clients over_servers
    surroundings-Refine = record {
      open_socket = λ url timeout. aside-Refines (base.open_socket url timeout);
      close_socket = λ ws code. aside-Refines (base.close_socket ws code);
      services =
          λ ws. linked-ServicesRefine (services_on ws) good ws (handler ws) (traffic ws) (quiet ws);
      kill = λ pid. aside-Refines (base.kill pid);
    }

    -- If the codec loses nothing and what happens between a call and its reply answers no other
    -- request of its client, then a TryCP scenario with any number of clients that share the counter
    -- of request ids adds clients and conductors, shuts conductors down and cleans up as it does when
    -- every call goes to the server of its client itself: with the same values and exceptions, the same
    -- scenario and clients, and the same state of the servers; or there is a value that the codec
    -- cannot encode.
    scenario-Refines : ScenarioRefines Linked (Unencodable codec) over_clients over_servers
    scenario-Refines = methods-Refine surroundings-Refine
