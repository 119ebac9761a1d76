-- ===== src/Local/Overlap.antt =====
-- Calls of `ensureLocalServices` (ts/src/local/scenario.ts) that overlap: the guard of a call runs at
-- once, and its assignment when the process that it has started announces its addresses.
use try_o_rama.Prelude.{
  ℕ, suc, ◌+◌, ◌<◌, ◌≡◌, refl, sym, ap, subst, List, [], ◌∷◌, ◌++◌, Option, none, some, length,
  length-append, get_elem?, arith,
}
use try_o_rama.Common.LocalServices.{Started}
use try_o_rama.Common.Stopping.{ServicesProcess}
use try_o_rama.Js.Exn.{ok}
use try_o_rama.Local.Scenario.{
  Scenario, World, Surroundings, with_services, ensure_local_services, launch_services,
}

-- Processes are numbered in the order in which they are started.
pub record Launching : Type 0 where
  pub scenario : Scenario
  pub spawned : ℕ
  -- the processes whose addresses are awaited, the oldest first
  pub waiting : List ℕ
  -- the processes that were assigned to the scenario, the last one first
  pub assigned : List ℕ

-- A call is made; the process at a position of the waiting ones announces its addresses.
pub data Moment : Type 0 where
  enters : Moment
  returns : ℕ → Moment

unfoldable pub remove_at : ℕ → List ℕ → List ℕ
remove_at i [] = []
remove_at ℕ.zero (x ∷ xs) = xs
remove_at (suc i) (x ∷ xs) = x ∷ remove_at i xs

abbrev pub before_launch : Scenario → Launching
before_launch c = record { scenario = c; spawned = 0; waiting = []; assigned = [] }

-- The guard: a process is started where the scenario has none.
abbrev pub guarded : Option ServicesProcess → Launching → Launching
guarded (some p) l = l
guarded none l = record l { spawned = suc l.spawned; waiting = l.waiting ++ l.spawned ∷ [] }

module _ {W : Type 0} (s : Surroundings W) (announced : ℕ → ServicesProcess × Started) where
  abbrev pub assign : Option ℕ → ℕ → Launching → Launching
  assign none i l = l
  assign (some n) i l = record l {
    scenario = with_services s (announced n) l.scenario;
    waiting = remove_at i l.waiting;
    assigned = n ∷ l.assigned;
  }

  unfoldable pub advance : Moment → Launching → Launching
  advance enters l = guarded l.scenario.service_process l
  advance (returns i) l = assign (get_elem? l.waiting i) i l

  unfoldable pub proceed : List Moment → Launching → Launching
  proceed [] l = l
  proceed (m ∷ ms) l = proceed ms (advance m l)

  -- A call that nothing overlaps does what `ensure_local_services` does.
  undisturbed :
      (w : World W) (h : W)
      → w.scenario.service_process ≡ none
      → launch_services s w.host ≡ (ok (announced 0), h)
      → (ensure_local_services s w).1.scenario
        ≡ (proceed (enters ∷ returns 0 ∷ []) (before_launch w.scenario)).scenario
  unfolding ensure_local_services proceed advance
  undisturbed w h e f = ground (arith, e, f)

  abbrev IsCurrent : List ℕ → Option ServicesProcess → Type 0
  IsCurrent [] p = p ≡ none
  IsCurrent (n ∷ ns) p = p ≡ some (announced n).0

  -- Every process started is awaited or was assigned, and the scenario has the one assigned last.
  record IsLaunching (l : Launching) : Type 0 where
    total : l.spawned ≡ length l.waiting + length l.assigned
    current : IsCurrent l.assigned l.scenario.service_process

  length-remove_at :
      (xs : List ℕ) (i : ℕ) {n : ℕ}
      → get_elem? xs i ≡ some n
      → length xs ≡ suc (length (remove_at i xs))
  unfolding remove_at
  length-remove_at [] i h = absurd cc
  length-remove_at (x ∷ xs) ℕ.zero h = refl
  length-remove_at (x ∷ xs) (suc i) h = ap suc (length-remove_at xs i h)

  guarded-IsLaunching :
      (l : Launching) (p : Option ServicesProcess)
      → l.scenario.service_process ≡ p
      → IsLaunching l
      → IsLaunching (guarded p l)
  guarded-IsLaunching l none e v = record {
    total = omega (arith, v.total, length-append l.waiting (l.spawned ∷ []));
    current = v.current;
  }
  guarded-IsLaunching l (some p) e v = v

  assign-IsLaunching :
      (l : Launching) (i : ℕ) (o : Option ℕ)
      → get_elem? l.waiting i ≡ o
      → IsLaunching l
      → IsLaunching (assign o i l)
  assign-IsLaunching l i none e v = v
  assign-IsLaunching l i (some n) e v = record {
    total = omega (arith, v.total, length-remove_at l.waiting i e);
    current = refl;
  }

  proceed-IsLaunching :
      (ms : List Moment) (l : Launching) → IsLaunching l → IsLaunching (proceed ms l)
  unfolding proceed advance
  proceed-IsLaunching [] l v = v
  proceed-IsLaunching (enters ∷ ms) l v =
      proceed-IsLaunching ms (advance enters l) (guarded-IsLaunching l _ refl v)
  proceed-IsLaunching (returns i ∷ ms) l v =
      proceed-IsLaunching ms (advance (returns i) l) (assign-IsLaunching l i _ refl v)

  -- A scenario that was assigned a process keeps one, and starts no other.
  abbrev IsServed : ℕ → Launching → Type 0
  IsServed n l = (l.spawned ≡ n) × ((p : ServicesProcess) × (l.scenario.service_process ≡ some p))

  assign-IsServed :
      (n i : ℕ) (l : Launching) (o : Option ℕ) → IsServed n l → IsServed n (assign o i l)
  assign-IsServed n i l none v = v
  assign-IsServed n i l (some m) (e, v) = (e, ((announced m).0, refl))

  guarded-IsServed :
      (n : ℕ) (l : Launching) (p : Option ServicesProcess)
      → l.scenario.service_process ≡ p
      → IsServed n l
      → IsServed n (guarded p l)
  guarded-IsServed n l none e (f, (p, g)) = absurd cc
  guarded-IsServed n l (some p) e v = v

  proceed-IsServed :
      (n : ℕ) (ms : List Moment) (l : Launching) → IsServed n l → IsServed n (proceed ms l)
  unfolding proceed advance
  proceed-IsServed n [] l v = v
  proceed-IsServed n (enters ∷ ms) l v =
      proceed-IsServed n ms (advance enters l) (guarded-IsServed n l _ refl v)
  proceed-IsServed n (returns i ∷ ms) l v =
      proceed-IsServed n ms (advance (returns i) l) (assign-IsServed n i l _ v)

  -- So many calls, before any of them returns.
  abbrev pub entering : ℕ → List Moment → List Moment
  entering ℕ.zero ms = ms
  entering (suc n) ms = enters ∷ entering n ms

  -- Nothing has been assigned, and so many processes are awaited.
  abbrev IsWaiting : ℕ → Launching → Type 0
  IsWaiting n l = (l.spawned ≡ n) × (length l.waiting ≡ n) × (l.scenario.service_process ≡ none)

  guarded-IsWaiting :
      (n : ℕ) (l : Launching) (p : Option ServicesProcess)
      → l.scenario.service_process ≡ p
      → IsWaiting n l
      → IsWaiting (suc n) (guarded p l)
  guarded-IsWaiting n l none e (f, g, h) =
      (ap suc f, omega (arith, g, length-append l.waiting (l.spawned ∷ [])), h)
  guarded-IsWaiting n l (some p) e (f, g, h) = absurd cc

  get_elem?-below : (xs : List ℕ) (k : ℕ) → k < length xs → (x : ℕ) × (get_elem? xs k ≡ some x)
  get_elem?-below [] k h = absurd (omega arith)
  get_elem?-below (x ∷ xs) ℕ.zero h = (x, refl)
  get_elem?-below (x ∷ xs) (suc k) h = get_elem?-below xs k (omega arith)

  entering-IsServed :
      (m n k : ℕ) (es : List Moment) (l : Launching)
      → k < m + n
      → IsWaiting m l
      → IsServed (m + n) (proceed (entering n (returns k ∷ es)) l)
  unfolding proceed advance
  entering-IsServed m ℕ.zero k es l h (e, f, g) =
      let (x, y) = get_elem?-below l.waiting k (omega (arith, f, h)) in
      proceed-IsServed (m + 0) es (advance (returns k) l) (
        subst (λ o. IsServed (m + 0) (assign o k l)) (sym y)
          (omega (arith, e), ((announced x).0, refl)))
  entering-IsServed m (suc n) k es l h v =
      let eq : suc m + n ≡ m + suc n = omega arith in
      subst (λ q. IsServed q (proceed (entering n (returns k ∷ es)) (advance enters l))) eq
        (entering-IsServed (suc m) n k es (advance enters l) (omega arith)
          (guarded-IsWaiting m l _ refl v))

  last :
      (xs : List ℕ) (p : Option ServicesProcess)
      → IsCurrent xs p
      → 0 < length xs
      → (m : ℕ) × (ns : List ℕ) × (xs ≡ m ∷ ns) × (p ≡ some (announced m).0)
  last [] p e h = absurd (omega arith)
  last (x ∷ xs) p e h = (x, xs, refl, e)

  -- If `n` calls are made on a scenario without services before the first of them goes on, then `n`
  -- processes are started, however many calls follow. When all have announced their addresses, all
  -- `n` were assigned to the scenario, one after the other, and it has the one assigned last; so it
  -- has the only one if no two calls overlap, and otherwise none of the others is known to it.
  pub overlapping_calls :
      (c : Scenario) (n k : ℕ) (ms : List Moment)
      → c.service_process ≡ none
      → k < n
      → (proceed (entering n (returns k ∷ ms)) (before_launch c)).waiting ≡ []
      → let l = proceed (entering n (returns k ∷ ms)) (before_launch c) in
        (l.spawned ≡ n)
        × (length l.assigned ≡ n)
        × ((m : ℕ) × (ns : List ℕ) × (l.assigned ≡ m ∷ ns)
            × (l.scenario.service_process ≡ some (announced m).0))
  overlapping_calls c n k ms e h done =
      let l = proceed (entering n (returns k ∷ ms)) (before_launch c) in
      let (counted, _) =
        entering-IsServed 0 n k ms (before_launch c) (omega arith) (refl, refl, e) in
      let v =
        proceed-IsLaunching (entering n (returns k ∷ ms)) (before_launch c)
          (record { total = refl; current = e }) in
      let all : length l.assigned ≡ n = omega (arith, counted, v.total, ap length done) in
      (
        omega (arith, counted),
        all,
        last l.assigned l.scenario.service_process v.current (omega (arith, all, h)),
      )
