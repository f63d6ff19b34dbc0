-- ===== src/Btree/Insert/Child.antt =====
-- `BTInsert` of kernel/lib/klibc/btree.c in an internal page: what the call for the child gives, the page
-- gives.
use mungi.Common.{ℕ, ◌≤◌, ◌<◌, ◌≡◌, arith, inl, inr, ◌⊎◌}
use mathlib.Core.Path.{subst}
use mungi.Btree.{Item, Page}
use mungi.Btree.Search.{Between, Stored, in_node}
use mungi.Btree.Insert.{Body, node_of}
use mungi.Btree.Insert.Grow.{Grown, Fits}
use mungi.Btree.Insert.Members.{Grown-from, Grown-old, Grown-new}
use mungi.Btree.Insert.Find.{Placed}
use mungi.Btree.Insert.Good.{Holds, Good, some_item, extent-Good, Adds}
use mungi.Btree.Insert.Node.{
  GoodNode, Within-Stored, Stored-Within, set_child, set_child_self, either-Between, set_child-from,
  set_child-new, set_child-old,
}

module _ (b : Body Page) (hi : ℕ) (obj : Item) (g : GoodNode b)
    (w : Placed b.key b.count obj.base hi)
    (end : (j : ℕ) → hi ≤ j → j < b.count → obj.limit ≤ b.key j) where
  pub child-Adds :
      (q : Page)
      → Adds (λ o. Stored o (b.child hi)) (λ o. Stored o q) obj
      → Adds (λ o. Stored o (node_of b)) (λ o. Stored o (node_of (set_child b hi q))) obj
  child-Adds q a = record {
    from = λ o st. elim (set_child-from b hi obj q g w end o st) [
      | inl old ↦ inl old
      | inr new ↦ elim (a.from o new) [
        | inl below ↦ inl (in_node hi w.inside below)
        | inr e ↦ inr e
      ]
    ];
    keeps = λ o st. elim (set_child-old b hi obj q g w end o st) [
      | inl below ↦ set_child-new b hi obj q g w end o (a.keeps o below)
      | inr same ↦ same
    ];
    holds = set_child-new b hi obj q g w end obj a.holds;
  }

  pub same_objects :
      (q : Page)
      → ((o : Item) → Stored o q → Stored o (b.child hi))
      → ((o : Item) → Stored o (b.child hi) → Stored o q)
      → ((o : Item) → Stored o (node_of (set_child b hi q)) → Stored o (node_of b))
        × ((o : Item) → Stored o (node_of b) → Stored o (node_of (set_child b hi q)))
  same_objects q sub sup = (
    (λ o st. elim (set_child-from b hi obj q g w end o st) [
      | inl old ↦ old
      | inr new ↦ in_node hi w.inside (sub o new)
    ]),
    λ o st. elim (set_child-old b hi obj q g w end o st) [
      | inl below ↦ set_child-new b hi obj q g w end o (sup o below)
      | inr same ↦ same
    ],
  )

  module _ (l r : Page) (k : ℕ) (gl : Good l) (gr : Good r)
      (below : (o : Item) → Stored o l → o.limit ≤ k) (above : (o : Item) → Stored o r → k ≤ o.base)
      (a : Adds (λ o. Stored o (b.child hi)) (λ o. Stored o l ⊎ Stored o r) obj) where
    halves-Between : (o : Item) → Stored o l ⊎ Stored o r → Between b.key b.count hi o
    halves-Between o st = either-Between b hi obj l g w end o (a.from o st)

    pub halves-Fits : Fits Holds (set_child b hi l) hi k r
    halves-Fits =
        let (x, in_l) = some_item l in
        let (y, in_r) = some_item r in
        let x_between = halves-Between x (inl in_l) in
        let y_between = halves-Between y (inr in_r) in
        record {
          inside = w.inside;
          before = λ j h. omega (arith, x_between.from j h, extent-Good l x gl in_l, below x in_l);
          behind =
              λ j h m. omega (arith, y_between.to j h m, extent-Good r y gr in_r, above y in_r);
          left = λ o st. below o (subst (λ p. Stored o p) (set_child_self b hi l) st);
          right = above;
          right_end = λ o st j h m. let z = halves-Between o (inr st) in z.to j h m;
        }

    pub halves-Adds :
        (c : Body Page)
        → Grown (set_child b hi l) c hi k r
        → Adds (λ o. Stored o (node_of b)) (λ o. Stored o (node_of c)) obj
    halves-Adds c n = record {
      from = λ o st.
          elim (Grown-from (λ x. Holds x o) (set_child b hi l) c hi k r w.inside n
            (Stored-Within c o st)) [
              | inl v ↦
                  elim (set_child-from b hi obj l g w end o
                    (Within-Stored (set_child b hi l) o v)) [
                      | inl old ↦ inl old
                      | inr new ↦ origin o (inl new)
                    ]
              | inr new ↦ origin o (inr new)
            ];
      keeps = λ o st. elim (set_child-old b hi obj l g w end o st) [
        | inl inner ↦ half o (a.keeps o inner)
        | inr same ↦ other o same
      ];
      holds = half obj a.holds;
    }
      where
        origin : (o : Item) → Stored o l ⊎ Stored o r → Stored o (node_of b) ⊎ (o ≡ obj)
        origin o st = elim (a.from o st) [ inl old ↦ inl (in_node hi w.inside old) | inr e ↦ inr e ]

        other : (o : Item) → Stored o (node_of (set_child b hi l)) → Stored o (node_of c)
        other o st = Within-Stored c o (
            Grown-old (λ x. Holds x o) (set_child b hi l) c hi k r n
              (Stored-Within (set_child b hi l) o st))

        half : (o : Item) → Stored o l ⊎ Stored o r → Stored o (node_of c)
        half o (inl st) = Within-Stored c o (
            Grown-old (λ x. Holds x o) (set_child b hi l) c hi k r n
              (Stored-Within (set_child b hi l) o (set_child-new b hi obj l g w end o st)))
        half o (inr st) =
            Within-Stored c o (Grown-new (λ x. Holds x o) (set_child b hi l) c hi k r w.inside n st)
