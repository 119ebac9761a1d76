-- ===== src/Dht/Order.antt =====
-- What is documented of `lodash`, and why sorted lists of the same operations are equal.
use mathlib.Core.List.{
  Mem, Perm, Pairwise, mem-cons, mem-cons_self, mem-cons_of_mem, rel_of_Pairwise-cons,
  Pairwise-cons,
}
use mathlib.Core.List.Perm
use mathlib.Core.Logic.Or
use mathlib.Core.Path.{ap₂}
use try_o_rama.Prelude.{◌≡◌, sym, subst, List, [], ◌∷◌, ◌↔◌, true}
use try_o_rama.Dht.{DhtOp, DhtOp-set, SortKey, Library}

-- `sortBy` rearranges its list so that the first keys ascend, and the second keys where the first
-- ones agree; `isEqual` on plain data is equality.
pub record IsDocumented (l : Library) : Type 1 where
  pub Le : SortKey → SortKey → Type 0
  pub le_antisymm : (a b : SortKey) → Le a b → Le b a → a ≡ b
  pub sort_by-perm :
      (f g : DhtOp → SortKey) (ops : List DhtOp) → Perm (l.sort_by (f ∷ g ∷ []) ops) ops
  pub sort_by-ordered :
      (f g : DhtOp → SortKey) (ops : List DhtOp)
      → Pairwise (λ a b. Le (f a) (f b) × (f a ≡ f b → Le (g a) (g b))) (l.sort_by (f ∷ g ∷ []) ops)
  pub is_equal_iff : (xs ys : List DhtOp) → (l.is_equal xs ys ≡ true) ↔ (xs ≡ ys)

-- Two lists in order that hold the same operations are equal, if the order tells these apart.
pub sorted_unique :
    (R : DhtOp → DhtOp → Type 0) (xs ys : List DhtOp)
    → ((a b : DhtOp) → Mem a xs → Mem b xs → R a b → R b a → a ≡ b)
    → Pairwise R xs
    → Pairwise R ys
    → Perm xs ys
    → xs ≡ ys
sorted_unique R [] ys apart p q h = Perm.nil-eq h
sorted_unique R (x ∷ xs) [] apart p q h = Perm.eq-nil h
sorted_unique R (x ∷ xs) (y ∷ ys) apart p q h =
    let e : x ≡ y =
      Or.elim (DhtOp-set x y) (mem-cons.0 (Perm.subset h x mem-cons_self)) (λ a. a)
        (λ mx.
          Or.elim (DhtOp-set x y) (mem-cons.0 (Perm.subset (Perm.symm h) y mem-cons_self))
            (λ a. sym a)
            (λ my.
              apart x y mem-cons_self (mem-cons_of_mem x my) (rel_of_Pairwise-cons p my)
                (rel_of_Pairwise-cons q mx))) in
    ap₂ (λ a as'. a ∷ as') e
      (sorted_unique R xs ys (λ a b ma mb. apart a b (mem-cons_of_mem x ma) (mem-cons_of_mem x mb))
        (Pairwise-cons.0 p).1 (Pairwise-cons.0 q).1
        (Perm.cons_inv (subst (λ z. Perm (x ∷ xs) (z ∷ ys)) (sym e) h)))
