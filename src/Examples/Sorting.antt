-- ===== src/Examples/Sorting.antt =====
-- A library that does what is documented of `lodash`: texts have ranks, and an insertion sort goes by
-- the ranks of the two keys.
use Prim.Native.Char.{Char, code, char}
use mathlib.Core.List.{Mem, not-mem-nil, Perm, Pairwise, mem-cons, Pairwise-cons}
use mathlib.Core.List.Perm
use mathlib.Core.Logic.Or
use native.Mathlib.Bridge.{le_prop}
use native.Mathlib.Decide.{ℕ_discrete}
use text.Mathlib.TextEquality.{Char-path}
use try_o_rama.Prelude.{
  ℕ, ◌+◌, ◌*◌, ◌≤◌, ◌<◌, ◌≡◌, refl, sym, ap, subst, ◌∙◌, String, Bool, true, false, none, some,
  List, [], ◌∷◌, arith, leb, ltb, ◌==◌, ◌&&◌, ◌||◌, if◌then◌else◌, if_intro, ◌≢◌, ◌↔◌,
}
use try_o_rama.Js.Value.{undefined}
use try_o_rama.Js.Exn.{Result, ok}
use try_o_rama.Dht.{
  DhtOp, DhtOp-set, chain_op, SortKey, Library, ConductorCell, collect,
  is_conductor_cell_dna_hash_equal, are_conductor_cells_dhts_synced, first_key,
}
use try_o_rama.Dht.Agreement.{SameOps, synced_iff-SameOps}
use try_o_rama.Examples.Codecs.{String-discrete, Value-discrete}
use try_o_rama.Dht.Order.{IsDocumented}

code_bound : (c : Char) → code c < 1114112
code_bound (char n s) = ground arith

-- A number for each text, and for `undefined`.
rank : String → ℕ
rank String.[] = 0
rank (String.◌∷◌ c s) = 1 + code c + 1114112 * rank s

rank_injective : (s t : String) → rank s ≡ rank t → s ≡ t
unfolding rank
rank_injective String.[] String.[] h = refl
rank_injective String.[] (String.◌∷◌ d t) h = absurd (omega arith)
rank_injective (String.◌∷◌ c s) String.[] h = absurd (omega arith)
rank_injective (String.◌∷◌ c s) (String.◌∷◌ d t) h =
    let e : code c ≡ code d = omega (arith, code_bound c, code_bound d) in
    let f : rank s ≡ rank t = omega (arith, code_bound c, code_bound d) in
    ap (λ x. String.◌∷◌ x s) (Char-path c d e) ∙ ap (String.◌∷◌ d) (rank_injective s t f)

key_rank : SortKey → ℕ
key_rank none = 0
key_rank (some s) = 1 + rank s

key_rank_injective : (a b : SortKey) → key_rank a ≡ key_rank b → a ≡ b
unfolding key_rank
key_rank_injective none none h = refl
key_rank_injective none (some t) h = absurd (omega arith)
key_rank_injective (some s) none h = absurd (omega arith)
key_rank_injective (some s) (some t) h = ap some (rank_injective s t (omega arith))

module _ (f g : DhtOp → SortKey) where
  abbrev fr : DhtOp → ℕ
  fr a = key_rank (f a)

  abbrev gr : DhtOp → ℕ
  gr a = key_rank (g a)

  before : DhtOp → DhtOp → Bool
  before a b = ltb (fr a) (fr b) || ((fr a == fr b) && leb (gr a) (gr b))

  abbrev Before : DhtOp → DhtOp → Type 0
  Before a b = (fr a ≤ fr b) × (f a ≡ f b → gr a ≤ gr b)

  Before-prop : (a b : DhtOp) → IsProp (Before a b)
  Before-prop a b = hlevel le_prop

  before_true : (a b : DhtOp) → before a b ≡ true → Before a b
  unfolding before
  before_true a b h = (ground arith, λ e. ground (arith, ap key_rank e))

  before_false : (a b : DhtOp) → before a b ≡ false → Before b a
  unfolding before
  before_false a b h = (ground arith, λ e. ground (arith, ap key_rank e))

  Before-trans : (a b c : DhtOp) → Before a b → Before b c → Before a c
  Before-trans a b c (h, k) (i, j) = (
    omega arith,
    λ e.
        let r = ap key_rank e in
        let p = key_rank_injective (f a) (f b) (omega (arith, r)) in
        let q = key_rank_injective (f b) (f c) (omega (arith, r)) in omega (arith, k p, j q),
  )

  insert_op : DhtOp → List DhtOp → List DhtOp
  insert_op x [] = x ∷ []
  insert_op x (y ∷ ys) = if before x y then x ∷ y ∷ ys else y ∷ insert_op x ys

  sort_ops : List DhtOp → List DhtOp
  sort_ops [] = []
  sort_ops (x ∷ xs) = insert_op x (sort_ops xs)

  insert_op-perm : (x : DhtOp) (ys : List DhtOp) → Perm (insert_op x ys) (x ∷ ys)
  unfolding insert_op
  insert_op-perm x [] = Perm.refl (x ∷ [])
  insert_op-perm x (y ∷ ys) =
      if_intro (λ zs. Perm zs (x ∷ y ∷ ys)) (before x y) (λ e. Perm.refl (x ∷ y ∷ ys))
        (λ e. Perm.trans (Perm.cons y (insert_op-perm x ys)) (Perm.swap x y ys))

  sort_ops-perm : (xs : List DhtOp) → Perm (sort_ops xs) xs
  unfolding sort_ops
  sort_ops-perm [] = Perm.refl []
  sort_ops-perm (x ∷ xs) =
      Perm.trans (insert_op-perm x (sort_ops xs)) (Perm.cons x (sort_ops-perm xs))

  -- What comes before the head of an ordered list comes before all of it.
  Before-cons :
      (z x : DhtOp) (xs : List DhtOp)
      → Before z x
      → ((b : DhtOp) → Mem b xs → Before z b)
      → (b : DhtOp) → Mem b (x ∷ xs)
      → Before z b
  Before-cons z x xs h k b m =
      Or.elim (Before-prop z b) (mem-cons.0 m) (λ e. subst (Before z) (sym e) h) (k b)

  insert_op-ordered :
      (x : DhtOp) (ys : List DhtOp) → Pairwise Before ys → Pairwise Before (insert_op x ys)
  unfolding insert_op
  insert_op-ordered x [] p = Pairwise-cons.1 ((λ b m. absurd (not-mem-nil m)), p)
  insert_op-ordered x (y ∷ ys) p =
      let (rest, q) = Pairwise-cons.0 p in
      if_intro (λ zs. Pairwise Before zs) (before x y)
        (λ e.
          let h = before_true x y e in
          Pairwise-cons.1 (Before-cons x y ys h (λ b m. Before-trans x y b h (rest b m)), p))
        (λ e. Pairwise-cons.1 (
          (λ b m.
              Before-cons y x ys (before_false x y e) rest b
                (Perm.subset (insert_op-perm x ys) b m)),
          insert_op-ordered x ys q,
        ))

  sort_ops-ordered : (xs : List DhtOp) → Pairwise Before (sort_ops xs)
  unfolding sort_ops
  sort_ops-ordered [] = Pairwise.nil
  sort_ops-ordered (x ∷ xs) = insert_op-ordered x (sort_ops xs) (sort_ops-ordered xs)

DhtOps-discrete : Discrete (List DhtOp)
DhtOps-discrete = hlevel (ℕ_discrete, String-discrete, Value-discrete)

abbrev holds {ℓ} : {A : Type ℓ} → Dec A → Bool
holds (yes a) = true
holds (no n) = false

holds_iff : {xs ys : List DhtOp} (d : Dec (xs ≡ ys)) → (holds d ≡ true) ↔ (xs ≡ ys)
holds_iff (yes e) = (λ h. e, λ h. refl)
holds_iff (no n) = (λ h. cc, λ e. absurd (n e))

sort_by_two : List (DhtOp → SortKey) → List DhtOp → List DhtOp
sort_by_two (f ∷ g ∷ []) ops = sort_ops f g ops
sort_by_two keys ops = ops

library : Library
library = record {
  sort_by = sort_by_two;
  is_equal = λ xs ys. holds (DhtOps-discrete xs ys);
  encode_hash_to_base64 = λ b. "hash";
  to_base64 = λ b. "signature";
}

library-IsDocumented : IsDocumented library
unfolding library sort_by_two
library-IsDocumented = record {
  Le = λ a b. key_rank a ≤ key_rank b;
  le_antisymm = λ a b h k. key_rank_injective a b (omega arith);
  sort_by-perm = λ f g ops. sort_ops-perm f g ops;
  sort_by-ordered = λ f g ops. sort_ops-ordered f g ops;
  is_equal_iff = λ xs ys. holds_iff (DhtOps-discrete xs ys);
}

abbrev store_op : DhtOp
store_op = chain_op "StoreEntry" [] undefined

abbrev link_op : DhtOp
link_op = chain_op "RegisterAddLink" [] undefined

abbrev cells : List ConductorCell
cells =
    record { conductor = 0; dna_hash = record { ref = 1; bytes = [] }; agent_pub_key = [] }
    ∷ record { conductor = 1; dna_hash = record { ref = 1; bytes = [] }; agent_pub_key = [] }
    ∷ []

-- The two conductors have integrated the operations in different orders.
abbrev dump : ConductorCell → Result (List DhtOp)
dump c = if c.conductor == 0 then ok (store_op ∷ link_op ∷ []) else ok (link_op ∷ store_op ∷ [])

abbrev states : List (List DhtOp)
states = (store_op ∷ link_op ∷ []) ∷ (link_op ∷ store_op ∷ []) ∷ []

one_of_two :
    {a b : DhtOp} (x y : DhtOp)
    → first_key library a ≢ first_key library b
    → Mem x (a ∷ b ∷ [])
    → Mem y (a ∷ b ∷ [])
    → first_key library x ≡ first_key library y
    → x ≡ y
one_of_two {a} {b} x y ne m n e =
    which x m (λ p. which y n (λ q. p ∙ sym q) (λ q. absurd (ne (ap key (sym p) ∙ e ∙ ap key q))))
      (λ p. which y n (λ q. absurd (ne (ap key (sym q) ∙ sym e ∙ ap key p))) (λ q. p ∙ sym q))
  where
    key : DhtOp → SortKey
    key = first_key library

    which : (z : DhtOp) → Mem z (a ∷ b ∷ []) → (z ≡ a → x ≡ y) → (z ≡ b → x ≡ y) → x ≡ y
    which z m f g =
        Or.elim (DhtOp-set x y) (mem-cons.0 m) f
          (λ k. Or.elim (DhtOp-set x y) (mem-cons.0 k) g (λ j. absurd (not-mem-nil j)))

one_dna : is_conductor_cell_dna_hash_equal cells ≡ true
unfolding is_conductor_cell_dna_hash_equal
one_dna = refl

dumped : collect dump cells ≡ ok states
unfolding collect
dumped = refl

synced_iff-SameOps_example :
    (are_conductor_cells_dhts_synced library dump cells ≡ ok true) ↔ SameOps states
synced_iff-SameOps_example =
    synced_iff-SameOps library library-IsDocumented dump cells states one_dna dumped (
      λ a b m n e f. one_of_two a b (λ h. cc) m n e,
      (λ a b m n e f. one_of_two a b (λ h. cc) m n e, tt),
    )
