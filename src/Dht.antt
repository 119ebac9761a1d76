-- ===== src/Dht.antt =====
-- ts/src/util.ts: comparing and awaiting the DHT states of conductors. `lodash`, the encodings of
-- signatures and the conductors' admin interfaces are parameters.
pub mod Order
pub mod Agreement
pub mod Loop
pub mod Live
use text.Mathlib.TextEquality.{IsScalar-prop}
use try_o_rama.Prelude.{
  ℕ, suc, ◌-◌, ◌/◌, String, Bool, true, false, not, ◌&&◌, List, [], ◌∷◌, map, Option, none, some,
  ◌==◌, leb, every, if◌then◌else◌,
}
use try_o_rama.Js.Value.{Value, Bytes}
use try_o_rama.Js.Exn.{Exn, Result, ok, err, error, sync_timeout, ◌>>=◌, ◌>>◌}

-- An integrated operation: a chain op with its type and signature or a warrant op with its
-- signature, and the rest of it.
pub data DhtOp : Type 0 where
  chain_op : String → Bytes → Value → DhtOp
  warrant_op : Bytes → Value → DhtOp

pub DhtOp-set : IsSet DhtOp
DhtOp-set = hlevel IsScalar-prop

-- A `DnaHash` is a `Uint8Array`, and `===` on such values compares which array they are.
pub record DnaHash : Type 0 where
  pub ref : ℕ
  pub bytes : Bytes

-- `IConductorCell`: a conductor, by number, and the two parts of its `CellId`.
pub record ConductorCell : Type 0 where
  pub conductor : ℕ
  pub dna_hash : DnaHash
  pub agent_pub_key : Bytes

-- What the comparison needs of an `IPlayer`.
pub record DhtPlayer : Type 0 where
  pub conductor : ℕ
  pub agent_pub_key : Bytes

-- A sort key: a text, or `undefined`.
abbrev pub SortKey : Type 0
SortKey = Option String

-- `sortBy` and `isEqual` of `lodash`, `encodeHashToBase64` of `@holochain/client` and the base64
-- text of a `Buffer`.
pub record Library : Type 0 where
  pub sort_by : List (DhtOp → SortKey) → List DhtOp → List DhtOp
  pub is_equal : List DhtOp → List DhtOp → Bool
  pub encode_hash_to_base64 : Bytes → String
  pub to_base64 : Bytes → String

unfoldable pub players_to_conductor_cells : List DhtPlayer → DnaHash → List ConductorCell
players_to_conductor_cells players hash =
    map
      (λ (p : DhtPlayer). record {
        conductor = p.conductor;
        dna_hash = hash;
        agent_pub_key = p.agent_pub_key;
      })
      players

abbrev same_array : DnaHash → DnaHash → Bool
same_array a b = a.ref == b.ref

-- Every hash is held against the first one.
abbrev pub all_first : List DnaHash → Bool
all_first [] = true
all_first (h ∷ hs) = every (λ k. same_array k h) (h ∷ hs)

unfoldable pub is_conductor_cell_dna_hash_equal : List ConductorCell → Bool
is_conductor_cell_dna_hash_equal cells = all_first (map (λ (c : ConductorCell). c.dna_hash) cells)

-- `Promise.all` over dumps that were all requested: the first failure, or all the states.
unfoldable pub collect : {A B : Type 0} → (A → Result B) → List A → Result (List B)
collect f [] = ok []
collect f (x ∷ xs) = let rest = collect f xs in do y ← f x; ys ← rest; ok (y ∷ ys)

-- `timeout && Math.floor((currentTime - startTime) * 1000) >= timeout`, of the nanoseconds passed.
-- The source's times are in milliseconds, so its product is in microseconds.
unfoldable pub timed_out : Option ℕ → ℕ → Bool
timed_out none elapsed = false
timed_out (some t) elapsed = not (t == 0) && leb t (elapsed / 1000)

-- The timeout that the error's text names.
abbrev pub timeout_value : Option ℕ → ℕ
timeout_value none = 0
timeout_value (some t) = t

module _ (l : Library) where
  -- The two iteratees of `sortBy`.
  abbrev pub first_key : DhtOp → SortKey
  first_key (chain_op kind signature rest) = some kind
  first_key (warrant_op signature rest) = some (l.encode_hash_to_base64 signature)

  abbrev pub second_key : DhtOp → SortKey
  second_key (chain_op kind signature rest) = some (l.to_base64 signature)
  second_key (warrant_op signature rest) = none

  abbrev pub sorted : List DhtOp → List DhtOp
  sorted ops = l.sort_by (first_key ∷ second_key ∷ []) ops

  abbrev pub all_equal : List (List DhtOp) → Bool
  all_equal [] = true
  all_equal (s ∷ ss) = every (λ t. l.is_equal t s) (s ∷ ss)

  -- `dump` is what the conductor of a cell answers to `dumpFullState`: its integrated operations,
  -- or the exception of the request.
  unfoldable pub are_conductor_cells_dhts_synced :
      (ConductorCell → Result (List DhtOp)) → List ConductorCell → Result Bool
  are_conductor_cells_dhts_synced dump cells =
      if is_conductor_cell_dna_hash_equal cells
      then (collect dump cells >>= λ states. ok (all_equal (map sorted states)))
      else err (error "Cannot compare DHT state of different DNAs")

  unfoldable pub are_dhts_synced :
      (ConductorCell → Result (List DhtOp)) → List DhtPlayer → DnaHash → Result Bool
  are_dhts_synced dump players hash =
      are_conductor_cells_dhts_synced dump (players_to_conductor_cells players hash)

  -- The surroundings of the waiting loop: the clock, in nanoseconds, when the loop starts and in
  -- each round, and the dumps that a round gets.
  module _ (start : ℕ) (now : ℕ → ℕ) (dump : ℕ → ConductorCell → Result (List DhtOp))
      (cells : List ConductorCell) where
    -- The rounds of the loop from round `n` on, at most `fuel` of them; `none` if more are needed.
    unfoldable pub sync_loop : Option ℕ → ℕ → ℕ → Option (Result (Unit {0}))
    sync_loop timeout ℕ.zero n = none
    sync_loop timeout (ℕ.suc fuel) n =
        let again = sync_loop timeout fuel (suc n) in
        if timed_out timeout (now n - start)
        then some (err (sync_timeout (timeout_value timeout)))
        else (elim (are_conductor_cells_dhts_synced (dump n) cells) [
          | err e ↦ some (err e)
          | ok completed ↦ if completed then some (ok tt) else again
        ])

    unfoldable pub conductor_cells_dht_sync : Option ℕ → ℕ → Option (Result (Unit {0}))
    conductor_cells_dht_sync timeout fuel =
        if is_conductor_cell_dna_hash_equal cells
        then sync_loop timeout fuel 0
        else some (err (error "Cannot compare DHT state of different DNAs"))

  unfoldable pub dht_sync :
      ℕ
      → (ℕ → ℕ)
      → (ℕ → ConductorCell → Result (List DhtOp))
      → List DhtPlayer
      → DnaHash
      → Option ℕ
      → ℕ
      → Option (Result (Unit {0}))
  dht_sync start now dump players hash timeout fuel =
      conductor_cells_dht_sync start now dump (players_to_conductor_cells players hash) timeout fuel
