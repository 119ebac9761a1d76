-- ===== src/Trycp/Scenario/Refinement.antt =====
-- Two TryCP scenarios, in two surroundings, method by method.
pub mod Methods
use try_o_rama.Prelude.{
  ℕ, String, ◌≡◌, refl, ap, ◌⊎◌, inl, inr, List, [], ◌∷◌, Option, none, some, get_elem?, length,
  ◌++◌,
}
use try_o_rama.Js.Exn.{Result, ok, err, type_error}
use try_o_rama.Js.Action.{Action}
use try_o_rama.Js.Refines.{
  Alike, Refines, runs, bind-Refines, pure-Refines, gets-Refines, promise_all-Refines,
  require-Refines, modify-Refines,
}
use try_o_rama.Common.Stopping.{ServicesProcess, stop_local_services}
use try_o_rama.Common.Stopping.Refinement.{SameExits, stop_local_services-Refines}
use try_o_rama.Trycp.Protocol.{reset}
use try_o_rama.Trycp.Conductor.{failed, TryCpConductorOptions}
use try_o_rama.Trycp.Conductor.Refinement.{ServicesRefine}
use try_o_rama.Trycp.Conductor.Refinement.Creation.{
  create_try_cp_conductor-Refines, shut_down-Refines,
}
use try_o_rama.Trycp.Scenario
use try_o_rama.Trycp.Scenario.{
  done, push_conductor, push_client, change_at, with_urls, World, Surroundings, TryCpScenario,
  TryCpClient, M, on_host, reading, setting, client_at, services_of, create, close, add_conductor,
  shut_down_conductors, clean_all_conductors, clean_up_client, add_client, stop_services,
  shut_down_all, clean_up,
}

-- The same scenario, clients and exited processes, around states that stand for each other.
pub record SameScenario {V W : Type 0} (R : V → W → Type 0) (v : World V) (w : World W)
    : Type 0 where
  pub scenario : v.scenario ≡ w.scenario
  pub store : v.store ≡ w.store
  pub exited : v.exited ≡ w.exited
  pub host : R v.host w.host

pub record SurroundingsRefine {V W : Type 0} (R : V → W → Type 0) (Failure : Type 0)
    (s : Surroundings V) (t : Surroundings W) : Type 0 where
  pub open_socket :
      (url : String) (timeout : ℕ)
      → Refines R Failure (s.open_socket url timeout) (t.open_socket url timeout)
  pub close_socket :
      (ws code : ℕ) → Refines R Failure (s.close_socket ws code) (t.close_socket ws code)
  pub services : (ws : ℕ) → ServicesRefine R Failure (s.services ws) (t.services ws)
  pub kill : (pid : ℕ) → Refines R Failure (s.kill pid) (t.kill pid)

-- The client at a place of the store, if there is one.
abbrev found : {W : Type 0} → Option TryCpClient → World W → Result TryCpClient × World W
found o w = elim o [ none ↦ (err type_error, w) | some c ↦ (ok c, w) ]

found-Alike :
    {V W : Type 0} {R : V → W → Type 0} (o p : Option TryCpClient) (v : World V) (w : World W)
    → o ≡ p
    → SameScenario R v w
    → Alike (SameScenario R) (found o v) (found p w)
found-Alike none none v w q e = (refl, e)
found-Alike none (some c) v w q e = absurd cc
found-Alike (some c) none v w q e = absurd cc
found-Alike (some c) (some d) v w q e = (cc, e)

-- The methods of two scenarios, and of their clients, one by one.
pub record ScenarioRefines {V W : Type 0} (R : V → W → Type 0) (Failure : Type 0)
    (s : Surroundings V) (t : Surroundings W) : Type 0 where
  pub add_client :
      (url : String) (timeout : Option ℕ)
      → Refines
          (SameScenario R)
          Failure
          (Scenario.add_client s url timeout)
          (Scenario.add_client t url timeout)
  pub add_conductor :
      (i : ℕ) (o : TryCpConductorOptions)
      → Refines
          (SameScenario R)
          Failure
          (Scenario.add_conductor s i o)
          (Scenario.add_conductor t i o)
  pub shut_down_conductors :
      (i : ℕ)
      → Refines
          (SameScenario R)
          Failure
          (Scenario.shut_down_conductors s i)
          (Scenario.shut_down_conductors t i)
  pub clean_up_client :
      (i : ℕ)
      → Refines
          (SameScenario R)
          Failure
          (Scenario.clean_up_client s i)
          (Scenario.clean_up_client t i)
  pub shut_down_all :
      Refines (SameScenario R) Failure (Scenario.shut_down_all s) (Scenario.shut_down_all t)
  pub clean_up : Refines (SameScenario R) Failure (Scenario.clean_up s) (Scenario.clean_up t)

module _ {V W : Type 0} {R : V → W → Type 0} {Failure : Type 0} {s : Surroundings V}
    {t : Surroundings W} (h : SurroundingsRefine R Failure s t) where
  pub on_host-Refines :
      {A : Type 0} {m : Action V A} {n : Action W A}
      → Refines R Failure m n
      → Refines (SameScenario R) Failure (on_host s m) (on_host t n)
  on_host-Refines {A} {m = m} {n = n} k = record {
    refine = λ v w e. go v w e (m v.host) (n w.host) (k.refine v.host w.host e.host);
  }
    where
      go :
          (v : World V) (w : World W)
          → SameScenario R v w
          → (x : Result A × V) (y : Result A × W) → Alike R x y ⊎ Failure
          → Alike (SameScenario R) (x.0, record v { host = x.1 }) (y.0, record w { host = y.1 })
            ⊎ Failure
      go v w e x y (inl (f, g)) =
          inl (f, record { scenario = e.scenario; store = e.store; exited = e.exited; host = g })
      go v w e x y (inr f) = inr f

  pub client_at-Refines : (i : ℕ) → Refines (SameScenario R) Failure (client_at s i) (client_at t i)
  client_at-Refines i = record {
    refine = λ v w e. inl (found-Alike _ _ v w (ap (λ cs. get_elem? cs i) e.store) e);
  }

  pub services_of-Refine :
      (c : TryCpClient) → ServicesRefine R Failure (services_of s c) (services_of t c)
  services_of-Refine c =
      let k = h.services c.ws in
      record {
        call = k.call;
        close = h.close_socket c.ws 1000;
        set_signal_handler = k.set_signal_handler;
        unset_signal_handler = k.unset_signal_handler;
        bootstrap_server_url = λ v w e. refl;
        signaling_server_url = λ v w e. refl;
        uuid = k.uuid;
        get_port = k.get_port;
        signing_credentials = k.signing_credentials;
        set_signing_credentials = k.set_signing_credentials;
        generate_signing_key_pair = k.generate_signing_key_pair;
        random_cap_secret = k.random_cap_secret;
        sign_zome_call = k.sign_zome_call;
        codec = k.codec;
        parse_json = k.parse_json;
      }

  pub push_conductor-Refines :
      (i : ℕ) (id : String)
      → Refines (SameScenario R) Failure (push_conductor s i id) (push_conductor t i id)
  push_conductor-Refines i id = modify-Refines (λ v w e. record {
    scenario = e.scenario;
    store =
        ap (λ cs. change_at cs i (λ c. record c { conductors = c.conductors ++ id ∷ [] })) e.store;
    exited = e.exited;
    host = e.host;
  })

  pub push_client-Refines :
      (c : TryCpClient) → Refines (SameScenario R) Failure (push_client s c) (push_client t c)
  push_client-Refines c = record {
    refine = λ v w e. inl (
      ap (λ cs. ok (length cs)) e.store,
      record {
        scenario =
            ap
              (λ (x : TryCpScenario × List TryCpClient). record (x.0) {
                clients = (x.0).clients ++ length x.1 ∷ [];
              })
              (both v w e);
        store =
            ap (λ (x : TryCpScenario × List TryCpClient). x.1 ++ with_urls s x.0 c ∷ [])
              (both v w e);
        exited = e.exited;
        host = e.host;
      },
    );
  }
    where
      both :
          (v : World V) (w : World W)
          → SameScenario R v w
          → ◌≡◌ {A = TryCpScenario × List TryCpClient} (v.scenario, v.store) (w.scenario, w.store)
      both v w e = λ i. (e.scenario i, e.store i)

  pub reading-Refines :
      {A : Type 0} (f : TryCpScenario → A)
      → Refines (SameScenario R) Failure (reading s f) (reading t f)
  reading-Refines f = gets-Refines (λ v w e. ap f e.scenario)

  pub setting-Refines :
      (f : TryCpScenario → TryCpScenario)
      → Refines (SameScenario R) Failure (setting s f) (setting t f)
  setting-Refines f = modify-Refines (λ v w e. record {
    scenario = ap f e.scenario;
    store = e.store;
    exited = e.exited;
    host = e.host;
  })
