-- ===== src/Trycp/Linked/Waiting.antt =====
-- Waiting for the DHTs of TryCP conductors (ts/src/util.ts): the dumps are requests to the conductors,
-- each on its client.
use try_o_rama.Prelude.{ℕ, String, Option, List, ◌⊎◌, refl, ap}
use try_o_rama.Js.Value.{Value, bin, arr, cons, nil, pair, undefined}
use try_o_rama.Js.Exn.{Result}
use try_o_rama.Js.Action.{Action, ◌>>=◌, lift}
use try_o_rama.Js.Refines.{Refines, bind-Refines, lift-Refines}
use try_o_rama.Dht.{DhtOp, Library, ConductorCell}
use try_o_rama.Dht.Live.{Site, wait_for_sync}
use try_o_rama.Dht.Live.Refinement.{SiteRefines, EndAlike, wait_for_sync-Same}
use try_o_rama.Trycp.Codec.{Codec, IsLossless}
use try_o_rama.Trycp.Services.{Services}
use try_o_rama.Trycp.Conductor.Admin.{dump_full_state}
use try_o_rama.Trycp.Conductor.Methods.{admin_ws}
use try_o_rama.Trycp.Conductor.Refinement.AdminMethods.{admin_ws-Refines}
use try_o_rama.Trycp.Client.{World}
use try_o_rama.Trycp.Client.Invariant.{Event, IsConsistent}
use try_o_rama.Trycp.Linked.{Handler, linked, direct, aside}
use try_o_rama.Trycp.Linked.Encoding.{Unencodable}
use try_o_rama.Trycp.Linked.Calls.{IsQuiet, Linked}
use try_o_rama.Trycp.Linked.Faithful.{linked-ServicesRefine, aside-Refines}

-- `{ cell_id: cellId, dht_ops_cursor: undefined }`
abbrev pub dump_request : ConductorCell → Value
dump_request c =
    pair "cell_id" (arr (cons (bin c.dna_hash.bytes) (cons (bin c.agent_pub_key) nil)))
      "dht_ops_cursor" undefined

-- The conductors by their numbers: what each uses of its client, and its id. `integrated` reads
-- `integration_dump.integrated` of a dump.
module _ {W : Type 0} (services : ℕ → Services W) (id : ℕ → String) (now : W → ℕ)
    (set_timeout : ℕ → Action W (Unit {0})) (integrated : Value → Result (List DhtOp)) where
  unfoldable pub site_of : Site W
  site_of = record {
    now = now;
    dump_full_state = λ c.
        dump_full_state (services c.conductor) (id c.conductor) (dump_request c) >>= λ v.
        lift (integrated v);
    set_timeout = set_timeout;
  }

module _ {X : Type 0} (base : ℕ → Services X) (codec : Codec) (client : ℕ → ℕ)
    (handler : ℕ → Handler X) (traffic : ℕ → World → List Event) (id : ℕ → String) (now : X → ℕ)
    (set_timeout : ℕ → Action X (Unit {0})) (integrated : Value → Result (List DhtOp)) where
  abbrev services_at : ℕ → Services X
  services_at n = record (base n) { codec = codec }

  -- Conductor `n` is on the client `client n`.
  unfoldable pub over_clients : Site (World × X)
  unfolding site_of
  over_clients =
      site_of (λ n. linked (services_at n) (client n) (handler (client n)) (traffic (client n))) id
        (λ (w, x). now x) (λ ms. aside (set_timeout ms)) integrated

  unfoldable pub over_servers : Site X
  unfolding site_of
  over_servers =
      site_of (λ n. direct (services_at n) (client n) (handler (client n)) (traffic (client n))) id
        now set_timeout integrated

  module _ (good : IsLossless codec) (quiet : (c : ℕ) → IsQuiet codec c (traffic c)) where
    dump-Refines :
        (n : ℕ) (v : Value)
        → Refines Linked
            (Unencodable codec)
            (dump_full_state
              (linked (services_at n) (client n) (handler (client n)) (traffic (client n)))
              (id n)
              v)
            (dump_full_state
              (direct (services_at n) (client n) (handler (client n)) (traffic (client n)))
              (id n)
              v)
    dump-Refines n =
        unfold admin_ws in
        (admin_ws-Refines
          (linked-ServicesRefine (services_at n) good (client n) (handler (client n))
            (traffic (client n)) (quiet (client n)))
          (id n)).dump_full_state

    sites-Refine : SiteRefines Linked (Unencodable codec) over_clients over_servers
    unfolding over_clients over_servers site_of
    sites-Refine = record {
      now = λ (w, x) y (v, e). ap now e;
      dump_full_state =
          λ c. bind-Refines (dump-Refines c.conductor (dump_request c)) (λ v. lift-Refines refl);
      set_timeout = λ ms. aside-Refines (set_timeout ms);
    }

    -- If the codec loses nothing and what happens between a call and its reply answers no other
    -- request of its client, then the waiting for the DHTs of conductors on any clients of a process,
    -- from a consistent state and with any number of rounds, ends as it does when every dump is asked of
    -- the server itself, and does not end in these rounds if that does not; or there is a value that
    -- the codec cannot encode.
    waiting-Refines :
        (l : Library) (cells : List ConductorCell) (interval : ℕ) (timeout : Option ℕ) (fuel : ℕ)
        (w : World) (x : X)
        → IsConsistent w
        → EndAlike Linked
            (wait_for_sync over_clients l cells interval timeout fuel (w, x))
            (wait_for_sync over_servers l cells interval timeout fuel x)
          ⊎ Unencodable codec
    waiting-Refines l cells interval timeout fuel w x v =
        wait_for_sync-Same sites-Refine l cells interval timeout fuel (w, x) x (v, refl)
