-- ===== src/Btree/Insert/Halves.antt =====
-- A page of kernel/lib/klibc/btree.c with one more entry, in one page or in two.
use mungi.Common.{ℕ, ◌+◌, ◌≤◌, ◌<◌, ◌≡◌, sym, ap, ◌∙◌, arith, inl, inr, ◌⊎◌}
use mungi.Btree.{Item, Page}
use mungi.Btree.Search.{Stored, in_leaf}
use mungi.Btree.Insert.{Body, Inserted, max_key, min_key, leaf_of}
use mungi.Btree.Insert.Grow.{Separated}
use mungi.Btree.Insert.Split.{Cut}
use mungi.Btree.Insert.Members.{
  Within, Cut-Every-left, Cut-Every-right, Cut-from, Cut-left, Cut-right,
}
use mungi.Btree.Insert.Good.{
  Is, GoodLeaf, Good, Cut-Separated_left, Cut-Separated_right, Cut-below, Cut-above, PutIn, in_page,
  in_two, in_none, Adds, Gives, grown, halved, no_memory,
}

pub Within-Stored : (b : Body Item) (o : Item) → Within (λ x. Is x o) b → Stored o (leaf_of b)
Within-Stored b o (i, le, e) = in_leaf i le e

pub Stored-Within : (b : Body Item) (o : Item) → Stored o (leaf_of b) → Within (λ x. Is x o) b
Stored-Within b o (in_leaf i le e) = (i, le, e)

pub Cut-GoodLeaf_left : (c l r : Body Item) (m k : ℕ) → Cut c l r m k → GoodLeaf c → GoodLeaf l
Cut-GoodLeaf_left c l r m k t g = record {
  separated = Cut-Separated_left Is c l r m k t g.separated;
  exact = λ i h.
      let inside : i < m = ground (arith, t.left_count) in
      t.left_key i inside
      ∙ g.exact i (omega (arith, inside, t.inside))
      ∙ ap (λ o. o.base) (sym (t.left_child (i + 1) (omega (arith, inside))));
  extents = Cut-Every-left (λ o. o.base < o.limit) c l r m k t g.extents;
}

pub Cut-GoodLeaf_right : (c l r : Body Item) (m k : ℕ) → Cut c l r m k → GoodLeaf c → GoodLeaf r
Cut-GoodLeaf_right c l r m k t g = record {
  separated = Cut-Separated_right Is c l r m k t g.separated;
  exact = λ i h.
      let next : m + 1 + i + 1 ≡ m + 1 + (i + 1) = omega arith in
      t.right_key i h
      ∙ g.exact (m + 1 + i) (omega (arith, t.right_count, h))
      ∙ ap (λ n. (c.child n).base) next
      ∙ ap (λ o. o.base) (sym (t.right_child (i + 1) (omega (arith, h))));
  extents = Cut-Every-right (λ o. o.base < o.limit) c l r m k t g.extents;
}

-- A page with one more entry, in one page or in two, for leaves and for internal pages: `to` and `of`
-- say what it holds, `good` when it is in order, and `left` and `right` that its halves are.
module _ {A : Type 0} (page : Body A → Page) (In : A → Item → Type 0)
    (to : (b : Body A) (o : Item) → Within (λ x. In x o) b → Stored o (page b))
    (of : (b : Body A) (o : Item) → Stored o (page b) → Within (λ x. In x o) b)
    (GoodBody : Body A → Type 0)
    (good : (b : Body A) → b.count ≤ max_key → GoodBody b → Good (page b))
    (separated : (b : Body A) → GoodBody b → Separated In b)
    (left : (c l r : Body A) (m k : ℕ) → Cut c l r m k → GoodBody c → GoodBody l)
    (right : (c l r : Body A) (m k : ℕ) → Cut c l r m k → GoodBody c → GoodBody r) where
  whole :
      (c l r : Body A) (m k : ℕ) (o : Item)
      → Cut c l r m k
      → Stored o (page l) ⊎ Stored o (page r)
      → Stored o (page c)
  whole c l r m k o t (inl st) = to c o (Cut-left (λ x. In x o) c l r m k t (of l o st))
  whole c l r m k o t (inr st) = to c o (Cut-right (λ x. In x o) c l r m k t (of r o st))

  parts :
      (c l r : Body A) (m k : ℕ) (o : Item)
      → Cut c l r m k
      → Stored o (page c)
      → Stored o (page l) ⊎ Stored o (page r)
  parts c l r m k o t st = elim (Cut-from (λ x. In x o) c l r m k t (of c o st)) [
    | inl w ↦ inl (to l o w)
    | inr w ↦ inr (to r o w)
  ]

  pub PutIn-Gives :
      (p : Page) (c : Body A) (obj : Item) (x : Inserted)
      → c.count ≤ max_key + 1
      → GoodBody c
      → Adds (λ o. Stored o p) (λ o. Stored o (page c)) obj
      → PutIn page c x
      → Gives p obj x
  PutIn-Gives p c obj x le g a (in_page h) = grown (good c h g) a
  PutIn-Gives p c obj x le g a in_none = no_memory
  PutIn-Gives p c obj x le g a (in_two l r k n t) =
      halved (good l (omega (arith, t.left_count)) (left c l r min_key k t g))
        (good r (omega (arith, t.right_count, le)) (right c l r min_key k t g))
        (λ o st. Cut-below In c l r min_key k o t (separated c g) (of l o st))
        (λ o st. Cut-above In c l r min_key k o t (separated c g) (of r o st))
        (record {
          from = λ o st. a.from o (whole c l r min_key k o t st);
          keeps = λ o st. parts c l r min_key k o t (a.keeps o st);
          holds = parts c l r min_key k obj t a.holds;
        })

-- The case of a leaf.
pub leaf-Gives :
    (p : Page) (c : Body Item) (obj : Item) (x : Inserted)
    → c.count ≤ max_key + 1
    → GoodLeaf c
    → Adds (λ o. Stored o p) (λ o. Stored o (leaf_of c)) obj
    → PutIn leaf_of c x
    → Gives p obj x
leaf-Gives =
    PutIn-Gives leaf_of Is Within-Stored Stored-Within GoodLeaf (λ b h g. (h, g))
      (λ b g. g.separated) Cut-GoodLeaf_left Cut-GoodLeaf_right
