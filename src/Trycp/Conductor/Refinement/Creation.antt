-- ===== src/Trycp/Conductor/Refinement/Creation.antt =====
-- The creation and the shutdown of a conductor over two sets of services that behave alike.
use try_o_rama.Prelude.{String, Bool, true, false, Option, none, some}
use try_o_rama.Js.Refines.{Refines, runs, bind-Refines, pure-Refines}
use try_o_rama.Trycp.Protocol.Tags.{LogLevel}
use try_o_rama.Trycp.Services.{Services}
use try_o_rama.Trycp.Conductor.{
  TryCpConductorOptions, given, starts, started, configure, start_up, shut_down, new_id,
  create_try_cp_conductor,
}
use try_o_rama.Trycp.Conductor.Methods.{try_cp_conductor}
use try_o_rama.Trycp.Conductor.Refinement.{ServicesRefine}
use try_o_rama.Trycp.Conductor.Refinement.Whole.{methods-Refine}

module _ {V W : Type 0} {R : V → W → Type 0} {Failure : Type 0} {s : Services V} {t : Services W}
    (h : ServicesRefine R Failure s t) where
  new_id-Refines : (i : Option String) → Refines R Failure (new_id s i) (new_id t i)
  unfolding new_id
  new_id-Refines none = search (runs, h.uuid) depth 40
  new_id-Refines (some i) = pure-Refines i

  configure-Refines :
      (i : String) (c : Option String) (no_dpki : Bool) (seed : String)
      → Refines R Failure (configure s i c no_dpki seed) (configure t i c no_dpki seed)
  configure-Refines i = unfold try_cp_conductor in (methods-Refine h i).0.configure

  start_up-Refines :
      (i : String) (level : Option LogLevel)
      → Refines R Failure (start_up s i level) (start_up t i level)
  start_up-Refines i = unfold try_cp_conductor in (methods-Refine h i).0.start_up

  pub shut_down-Refines : (i : String) → Refines R Failure (shut_down s i) (shut_down t i)
  shut_down-Refines i = unfold try_cp_conductor in (methods-Refine h i).0.shut_down

  started-Refines :
      (o : TryCpConductorOptions) (i : String) (b : Bool)
      → Refines R Failure (started s o i b) (started t o i b)
  started-Refines o i false = pure-Refines tt
  started-Refines o i true = search (runs, configure-Refines, start_up-Refines) depth 40

  pub create_try_cp_conductor-Refines :
      (o : TryCpConductorOptions)
      → Refines R Failure (create_try_cp_conductor s o) (create_try_cp_conductor t o)
  unfolding create_try_cp_conductor
  create_try_cp_conductor-Refines o =
      bind-Refines (new_id-Refines (given o.id))
        (λ i. bind-Refines (started-Refines o i (starts o.startup)) (λ u. pure-Refines i))
