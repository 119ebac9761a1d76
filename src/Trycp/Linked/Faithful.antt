-- ===== src/Trycp/Linked/Faithful.antt =====
-- A conductor on a client and a server, against one that asks the server itself.
use try_o_rama.Prelude.{ℕ, refl, ap, subst, inl, List, String}
use try_o_rama.Js.Value.{Value}
use try_o_rama.Js.Action.{Action}
use try_o_rama.Js.Refines.{Alike, Refines}
use try_o_rama.Trycp.Codec.{IsLossless}
use try_o_rama.Trycp.Services.{Services}
use try_o_rama.Trycp.Client.{World}
use try_o_rama.Trycp.Client.Invariant.{Event, sets_handler, unsets_handler, step, step-IsConsistent}
use try_o_rama.Trycp.Conductor.Refinement.{ServicesRefine}
use try_o_rama.Trycp.Linked.Encoding.{Unencodable}
use try_o_rama.Trycp.Linked.Calls.{IsQuiet, Linked, call_over-Refines}
use try_o_rama.Trycp.Conductor.Refinement.{ConductorRefines, AdminRefines, AppRefines}
use try_o_rama.Trycp.Conductor.Refinement.Whole.{methods-Refine}
use try_o_rama.Trycp.Conductor.Methods.{try_cp_conductor, admin_ws, connect_app_ws}
use try_o_rama.Trycp.Linked.{aside, Handler, linked, direct}

pub aside-Refines : {X A Failure : Type 0} (m : Action X A) → Refines Linked Failure (aside m) m
aside-Refines m = record {
  refine =
      λ (w, x) y (v, e). inl (subst (λ y. Alike Linked (aside m (w, x)) (m y)) e (refl, (v, refl)));
}

module _ {X : Type 0} (s : Services X) (good : IsLossless s.codec) (c : ℕ) (handler : Handler X)
    (traffic : World → List Event) (quiet : IsQuiet s.codec c traffic) where
  pub linked-ServicesRefine :
      ServicesRefine Linked
        (Unencodable s.codec)
        (linked s c handler traffic)
        (direct s c handler traffic)
  unfolding linked direct step
  linked-ServicesRefine = record {
    call = call_over-Refines s good c handler traffic quiet;
    close = aside-Refines s.close;
    set_signal_handler = λ port h (w, x) y (v, e).
        (step-IsConsistent s.codec w (sets_handler c port h) v, ap (s.set_signal_handler port h) e);
    unset_signal_handler = λ port (w, x) y (v, e).
        (step-IsConsistent s.codec w (unsets_handler c port) v, ap (s.unset_signal_handler port) e);
    bootstrap_server_url = λ (w, x) y (v, e). ap s.bootstrap_server_url e;
    signaling_server_url = λ (w, x) y (v, e). ap s.signaling_server_url e;
    uuid = aside-Refines s.uuid;
    get_port = λ from to. aside-Refines (s.get_port from to);
    signing_credentials = λ cell (w, x) y (v, e). ap (s.signing_credentials cell) e;
    set_signing_credentials =
        λ cell k (w, x) y (v, e). (v, ap (s.set_signing_credentials cell k) e);
    generate_signing_key_pair = aside-Refines s.generate_signing_key_pair;
    random_cap_secret = aside-Refines s.random_cap_secret;
    sign_zome_call = λ request. aside-Refines (s.sign_zome_call request);
    codec = refl;
    parse_json = refl;
  }

  -- If the codec loses nothing and what happens between a call and its reply answers no other request
  -- of the client, then a conductor on a client and the wire, its admin methods and its app websockets
  -- behave, method by method, as if every call went to the server itself and returned what the answer
  -- means: from a consistent client they come to the same value or exception and to the same state of
  -- the server and of all else, and leave the client consistent; or there is a value that the codec
  -- cannot encode.
  conductor-Refines :
      (id : String)
      → ConductorRefines Linked
          (Unencodable s.codec)
          (try_cp_conductor (linked s c handler traffic) id)
          (try_cp_conductor (direct s c handler traffic) id)
        × AdminRefines Linked
            (Unencodable s.codec)
            (admin_ws (linked s c handler traffic) id)
            (admin_ws (direct s c handler traffic) id)
        × ((token : Value) (port : ℕ)
            → AppRefines Linked
                (Unencodable s.codec)
                (connect_app_ws (linked s c handler traffic) id token port)
                (connect_app_ws (direct s c handler traffic) id token port))
  conductor-Refines = methods-Refine linked-ServicesRefine
