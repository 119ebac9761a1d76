-- ===== src/Dht/Agreement.antt =====
-- When `areConductorCellsDhtsSynced` says that DHT states agree.
use mathlib.Core.List.{Mem, Perm}
use mathlib.Core.List.Perm
use try_o_rama.Prelude.{
  ◌≡◌, ◌↔◌, refl, sym, ◌∙◌, subst, List, [], ◌∷◌, map, true, arith, every, All, ==_refl,
  All-of_every, every_of_All, All-map, every-map,
}
use try_o_rama.Js.Exn.{Result, ok}
use try_o_rama.Dht.{
  DhtOp, Library, DnaHash, ConductorCell, DhtPlayer, first_key, second_key, sorted, all_equal,
  same_array, is_conductor_cell_dna_hash_equal, collect, are_conductor_cells_dhts_synced,
  players_to_conductor_cells,
}
use try_o_rama.Dht.Order.{IsDocumented, sorted_unique}

-- Every two states hold the same operations, each as often.
abbrev pub SameOps : List (List DhtOp) → Type 0
SameOps states = All (λ s. All (λ t. Perm s t) states) states

-- Within each state the sort keys tell operations apart.
abbrev pub Separated : Library → List (List DhtOp) → Type 0
Separated l states =
    All
      (λ s.
        (a b : DhtOp)
        → Mem a s
        → Mem b s
        → first_key l a ≡ first_key l b
        → second_key l a ≡ second_key l b
        → a ≡ b)
      states

module _ (l : Library) (doc : IsDocumented l) where
  open doc use {Le, le_antisymm, sort_by-perm, sort_by-ordered, is_equal_iff}

  sorted-perm : (s t : List DhtOp) → sorted l s ≡ sorted l t → Perm s t
  sorted-perm s t e =
      Perm.trans (Perm.symm (sort_by-perm _ _ s))
        (subst (λ u. Perm u t) (sym e) (sort_by-perm _ _ t))

  perm-sorted :
      (s t : List DhtOp)
      → ((a b : DhtOp)
          → Mem a s
          → Mem b s
          → first_key l a ≡ first_key l b
          → second_key l a ≡ second_key l b
          → a ≡ b)
      → Perm s t
      → sorted l s ≡ sorted l t
  perm-sorted s t apart h =
      sorted_unique
        (λ a b.
          Le (first_key l a) (first_key l b)
          × (first_key l a ≡ first_key l b → Le (second_key l a) (second_key l b)))
        (sorted l s) (sorted l t)
        (λ a b ma mb p q.
          let e = le_antisymm (first_key l a) (first_key l b) p.0 q.0 in
          apart a b (Perm.subset (sort_by-perm _ _ s) a ma) (Perm.subset (sort_by-perm _ _ s) b mb)
            e (le_antisymm (second_key l a) (second_key l b) (p.1 e) (q.1 (sym e))))
        (sort_by-ordered _ _ s) (sort_by-ordered _ _ t)
        (Perm.trans (sort_by-perm _ _ s) (Perm.trans h (Perm.symm (sort_by-perm _ _ t))))

  all_equal-SameOps :
      (states : List (List DhtOp)) → all_equal l (map (sorted l) states) ≡ true → SameOps states
  all_equal-SameOps [] h = tt
  all_equal-SameOps (s ∷ ss) h =
      let like =
        All-of_every (λ t. l.is_equal (sorted l t) (sorted l s)) (λ t. Perm t s) (s ∷ ss)
          (λ t e. sorted-perm t s ((is_equal_iff _ _).0 e))
          (sym (every-map (λ t. l.is_equal t (sorted l s)) (sorted l) (s ∷ ss)) ∙ h) in
      All-map (s ∷ ss) (λ t p. All-map (s ∷ ss) (λ u q. Perm.trans p (Perm.symm q)) like) like

  SameOps-all_equal :
      (states : List (List DhtOp))
      → Separated l states
      → SameOps states
      → all_equal l (map (sorted l) states) ≡ true
  SameOps-all_equal [] apart h = refl
  SameOps-all_equal (s ∷ ss) apart h =
      every-map (λ t. l.is_equal t (sorted l s)) (sorted l) (s ∷ ss)
      ∙ every_of_All (λ t. l.is_equal (sorted l t) (sorted l s)) (λ t. Perm s t) (s ∷ ss)
          (λ t p. (is_equal_iff _ _).1 (sym (perm-sorted s t apart.0 p))) h.0

  -- For cells of one DNA hash whose dumps succeed, and whose operations the two sort keys tell
  -- apart within each dump, the comparison answers `true` exactly if every two of the conductors
  -- have integrated the same operations, whatever the order of the dumps.
  pub synced_iff-SameOps :
      (dump : ConductorCell → Result (List DhtOp)) (cells : List ConductorCell)
      (states : List (List DhtOp))
      → is_conductor_cell_dna_hash_equal cells ≡ true
      → collect dump cells ≡ ok states
      → Separated l states
      → (are_conductor_cells_dhts_synced l dump cells ≡ ok true) ↔ SameOps states
  unfolding are_conductor_cells_dhts_synced
  synced_iff-SameOps dump cells states same got apart = (
    λ h. all_equal-SameOps states (ground arith),
    λ h. ground (arith, SameOps-all_equal states apart h),
  )

-- Cells made from players for one DNA hash pass the comparison of hashes.
pub players_hash_equal :
    (players : List DhtPlayer) (hash : DnaHash)
    → is_conductor_cell_dna_hash_equal (players_to_conductor_cells players hash) ≡ true
unfolding is_conductor_cell_dna_hash_equal players_to_conductor_cells
players_hash_equal [] hash = refl
players_hash_equal (p ∷ ps) hash = rw (==_refl hash.ref) (go ps)
  where
    go :
        (qs : List DhtPlayer)
        → every
            (λ k. same_array k hash)
            (map
              (λ (c : ConductorCell). c.dna_hash)
              (map
                (λ (p : DhtPlayer). record {
                  conductor = p.conductor;
                  dna_hash = hash;
                  agent_pub_key = p.agent_pub_key;
                })
                qs))
          ≡ true
    go [] = refl
    go (q ∷ qs) = rw (==_refl hash.ref) (go qs)
