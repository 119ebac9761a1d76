-- ===== src/Examples/Waiting.antt =====
-- Two cells that a caller waits for: they disagree in round 0, and from round 1 on they agree.
use try_o_rama.Prelude.{
  ℕ, ◌+◌, ◌*◌, ◌≡◌, refl, List, [], ◌∷◌, none, some, true, ◌==◌, length, arith,
}
use try_o_rama.Js.Value.{undefined}
use try_o_rama.Js.Exn.{Result, ok}
use try_o_rama.Dht.{
  DhtOp, warrant_op, DnaHash, ConductorCell, DhtPlayer, Library, collect,
  is_conductor_cell_dna_hash_equal, are_conductor_cells_dhts_synced, timed_out,
  conductor_cells_dht_sync,
}
use try_o_rama.Dht.Loop.{Unsettled, Ends, agrees, sync_result, sync_sound}
use try_o_rama.Dht.Live.{Site, IsTimed, Ended, wait_for_sync, wait_for_sync-Ends}

-- Lists of one length are held to be equal, which is what the dumps here need.
abbrev library : Library
library = record {
  sort_by = λ keys ops. ops;
  is_equal = λ xs ys. length xs == length ys;
  encode_hash_to_base64 = λ b. "";
  to_base64 = λ b. "";
}

abbrev hash : DnaHash
hash = record { ref = 1; bytes = [] }

abbrev cell : ℕ → ConductorCell
cell n = record { conductor = n; dna_hash = hash; agent_pub_key = [] }

abbrev cells : List ConductorCell
cells = cell 0 ∷ cell 1 ∷ []

abbrev ops_of : ℕ → ℕ → List DhtOp
ops_of ℕ.zero ℕ.zero = []
ops_of n c = warrant_op [] undefined ∷ []

abbrev dump : ℕ → ConductorCell → Result (List DhtOp)
dump n c = ok (ops_of n c.conductor)

-- A round takes a millisecond.
abbrev clock : ℕ → ℕ
clock n = n * 1000000

one_dna : is_conductor_cell_dna_hash_equal cells ≡ true
unfolding is_conductor_cell_dna_hash_equal
one_dna = refl

first_round : Unsettled library 0 clock dump cells none 0 1
unfolding timed_out are_conductor_cells_dhts_synced is_conductor_cell_dna_hash_equal collect
first_round = (refl, refl, tt)

second_round : Ends library 0 clock dump cells none 1 (ok tt)
unfolding timed_out are_conductor_cells_dhts_synced is_conductor_cell_dna_hash_equal collect
second_round = agrees refl refl refl

sync_result_example : conductor_cells_dht_sync library 0 clock dump cells none 2 ≡ some (ok tt)
sync_result_example =
    sync_result library 0 clock dump cells none one_dna 1 2 (ok tt) first_round second_round
      (omega arith)

sync_sound_example :
    (k : ℕ) × Unsettled library 0 clock dump cells none 0 k
    × Ends library 0 clock dump cells none k (ok tt)
sync_sound_example =
    sync_sound library 0 clock dump cells none one_dna 2 (ok tt) sync_result_example

abbrev players : List DhtPlayer
players =
    record { conductor = 0; agent_pub_key = [] } ∷ record { conductor = 1; agent_pub_key = [] } ∷ []

-- A clock that only the dumps and the pauses move, and dumps that never agree.
abbrev slow_site : Site ℕ
slow_site = record {
  now = λ w. w;
  dump_full_state = λ c w. (ok (ops_of 0 c.conductor), w + 1000);
  set_timeout = λ ms w. (ok tt, w + ms * 1000000);
}

slow_site-IsTimed : IsTimed slow_site
slow_site-IsTimed = record {
  dump_forward = λ c w. omega arith;
  timer_rings = λ ms w. refl;
  timer_waits = λ ms w. omega arith;
}

wait_for_sync-Ends_example :
    (r : Result (Unit {0})) × (v : ℕ) × (wait_for_sync slow_site library cells 50 (some 20) 21 7
      ≡ some (r, v))
    × Ended slow_site library cells 7 50 (some 20) r v
wait_for_sync-Ends_example =
    wait_for_sync-Ends slow_site slow_site-IsTimed library cells 50 20 7 (omega arith) (omega arith)
      one_dna
