-- ===== src/Btree/Insert/Node.antt =====
-- `BTInsert` of kernel/lib/klibc/btree.c in an internal page, after the call for a child.
use mungi.Common.{
  ℕ, ◌+◌, ◌≤◌, ◌<◌, ◌≡◌, sym, ap, ◌∙◌, true, false, arith, ◌==◌, Bool-cases, inl, inr, ◌⊎◌,
}
use mathlib.Core.Path.{subst}
use mungi.Common.Arrays.{update}
use mungi.Btree.{Item, Page}
use mungi.Btree.Search.{Between, Stored, in_node}
use mungi.Btree.Insert.{Body, Inserted, max_key, node_of}
use mungi.Btree.Insert.Grow.{Separated}
use mungi.Btree.Insert.Split.{Cut}
use mungi.Btree.Insert.Members.{Within, Every, Cut-Every-left, Cut-Every-right}
use mungi.Btree.Insert.Find.{Placed}
use mungi.Btree.Insert.Halves.{PutIn-Gives}
use mungi.Btree.Insert.Good.{
  Holds, Good, PutIn, Adds, Gives, Cut-Separated_left, Cut-Separated_right,
}

-- An internal page in order, but for its size.
pub record GoodNode (b : Body Page) : Type 0 where
  pub separated : Separated Holds b
  pub children : Every Good b

pub Within-Stored : (b : Body Page) (o : Item) → Within (λ x. Holds x o) b → Stored o (node_of b)
Within-Stored b o (i, le, st) = in_node i le st

pub Stored-Within : (b : Body Page) (o : Item) → Stored o (node_of b) → Within (λ x. Holds x o) b
Stored-Within b o (in_node i le st) = (i, le, st)

pub Cut-GoodNode_left : (c l r : Body Page) (m k : ℕ) → Cut c l r m k → GoodNode c → GoodNode l
Cut-GoodNode_left c l r m k t g = record {
  separated = Cut-Separated_left Holds c l r m k t g.separated;
  children = Cut-Every-left Good c l r m k t g.children;
}

pub Cut-GoodNode_right : (c l r : Body Page) (m k : ℕ) → Cut c l r m k → GoodNode c → GoodNode r
Cut-GoodNode_right c l r m k t g = record {
  separated = Cut-Separated_right Holds c l r m k t g.separated;
  children = Cut-Every-right Good c l r m k t g.children;
}

pub node-Gives :
    (p : Page) (c : Body Page) (obj : Item) (x : Inserted)
    → c.count ≤ max_key + 1
    → GoodNode c
    → Adds (λ o. Stored o p) (λ o. Stored o (node_of c)) obj
    → PutIn node_of c x
    → Gives p obj x
node-Gives =
    PutIn-Gives node_of Holds Within-Stored Stored-Within GoodNode
      (λ b h g. (h, g.separated, g.children)) (λ b g. g.separated) Cut-GoodNode_left
      Cut-GoodNode_right

abbrev pub set_child : Body Page → ℕ → Page → Body Page
set_child b hi q = record b { child = update b.child hi q }

pub set_child_self : (b : Body Page) (hi : ℕ) (q : Page) → (set_child b hi q).child hi ≡ q
unfolding update
set_child_self b hi q = let e : (hi == hi) ≡ true = ground arith in rw e

pub set_child_other :
    (b : Body Page) (hi : ℕ) (q : Page) (i : ℕ)
    → (i == hi) ≡ false
    → (set_child b hi q).child i ≡ b.child i
unfolding update
set_child_other b hi q i e = rw e

-- The child at the place of an object is replaced by a page that holds nothing but the child's objects
-- and perhaps that one.
module _ (b : Body Page) (hi : ℕ) (obj : Item) (q : Page) (g : GoodNode b)
    (w : Placed b.key b.count obj.base hi)
    (end : (j : ℕ) → hi ≤ j → j < b.count → obj.limit ≤ b.key j) where
  obj-Between : Between b.key b.count hi obj
  obj-Between = record { from = λ j h. omega (arith, w.before j h); to = end }

  pub either-Between : (o : Item) → Stored o (b.child hi) ⊎ (o ≡ obj) → Between b.key b.count hi o
  either-Between o (inl st) = g.separated.between hi w.inside o st
  either-Between o (inr e) = rw e obj-Between

  pub set_child-GoodNode :
      Good q
      → ((o : Item) → Stored o q → Stored o (b.child hi) ⊎ (o ≡ obj))
      → GoodNode (set_child b hi q)
  set_child-GoodNode gq from = record {
    separated = record {
      sorted = g.separated.sorted;
      between = λ i le o st. elim (Bool-cases (i == hi)) [
        | inl same ↦
            let z : i ≡ hi = ground arith in
            let at_hi : Stored o q =
              subst (λ p. Stored o p) (ap (set_child b hi q).child z ∙ set_child_self b hi q) st in
            rw z (either-Between o (from o at_hi))
        | inr other ↦
            g.separated.between i le o (subst (λ p. Stored o p) (set_child_other b hi q i other) st)
      ];
    };
    children = λ i le. elim (Bool-cases (i == hi)) [
      | inl same ↦
          let z : i ≡ hi = ground arith in rw z (subst Good (sym (set_child_self b hi q)) gq)
      | inr other ↦ subst Good (sym (set_child_other b hi q i other)) (g.children i le)
    ];
  }

  pub set_child-from :
      (o : Item) → Stored o (node_of (set_child b hi q)) → Stored o (node_of b) ⊎ Stored o q
  set_child-from o (in_node i le st) = elim (Bool-cases (i == hi)) [
    | inl same ↦
        let z : i ≡ hi = ground arith in
        inr (subst (λ p. Stored o p) (ap (set_child b hi q).child z ∙ set_child_self b hi q) st)
    | inr other ↦ inl (in_node i le (subst (λ p. Stored o p) (set_child_other b hi q i other) st))
  ]

  pub set_child-new : (o : Item) → Stored o q → Stored o (node_of (set_child b hi q))
  set_child-new o st =
      in_node hi w.inside (subst (λ p. Stored o p) (sym (set_child_self b hi q)) st)

  -- An object of the page stands in the child, or stays where it is.
  pub set_child-old :
      (o : Item)
      → Stored o (node_of b)
      → Stored o (b.child hi) ⊎ Stored o (node_of (set_child b hi q))
  set_child-old o (in_node i le st) = elim (Bool-cases (i == hi)) [
    | inl same ↦ let z : i ≡ hi = ground arith in inl (subst (λ p. Stored o p) (ap b.child z) st)
    | inr other ↦
        inr (in_node i le (subst (λ p. Stored o p) (sym (set_child_other b hi q i other)) st))
  ]
