-- ===== src/Btree/Insert/Front.antt =====
-- `BTInsert` of kernel/lib/klibc/btree.c in front of the first object of a leaf, and in a leaf at all.
use mungi.Common.{
  ℕ, zero, suc, ◌+◌, ◌≤◌, ◌<◌, ◌≡◌, refl, ap, ◌∙◌, Bool, false, ◌&&◌, ◌||◌, Option, arith, ◌==◌,
  ltb, Bool-cases, inl, inr, ◌⊎◌,
}
use mathlib.Core.Path.{subst}
use mungi.Common.Arrays.{Array, update}
use mungi.Common.Int.{negsuc}
use mungi.Btree.{Item, obj_match}
use mungi.Btree.Keys.{Sorted, le_of_Sorted}
use mungi.Btree.Search.{Stored, in_leaf}
use mungi.Btree.Insert.{
  Body, insert_page, split_page, put_in, max_key, min_key, leaf_of, item_key, insert_leaf, overlaps,
}
use mungi.Btree.Insert.Grow.{Separated, Grown, Fits, insert_page-front}
use mungi.Btree.Insert.Split.{Parts, split_page-front}
use mungi.Btree.Insert.Members.{Within, Grown-from, Grown-old, Grown-new}
use mungi.Btree.Insert.Find.{Placed}
use mungi.Btree.Insert.Halves.{leaf-Gives, Within-Stored, Stored-Within}
use mungi.Btree.Insert.Good.{Is, GoodLeaf, put_in-PutIn, Adds, Gives, refused}
use mungi.Btree.Insert.Leaf.{Grown-GoodLeaf, behind-Gives, behind-Fits}

-- The leaf with the object in the place of the first one.
abbrev in_place : Body Item → Item → Body Item
in_place b obj = record b { child = update b.child 0 obj }

module _ (b : Body Item) (obj : Item) (g : GoodLeaf b) (l : obj.limit ≤ (b.child 0).base) where
  -- The first object lies below every key.
  first_below : (j : ℕ) → j < b.count → (b.child 0).limit ≤ b.key j
  first_below j h = (g.separated.between 0 (omega arith) (b.child 0) refl).to j (omega arith) h

  first_extent : (b.child 0).base < (b.child 0).limit
  first_extent = g.extents 0 (omega arith)

  in_place-Separated : Separated Is (in_place b obj)
  unfolding update
  in_place-Separated = record {
    sorted = g.separated.sorted;
    between = λ i le o e. elim (Bool-cases (i == 0)) [
      | inl first ↦
          let z : i ≡ 0 = ground arith in
          let same : obj ≡ o = ground (arith, e, first) in
          rw (z, ← same)
            (record {
              from = λ j h. absurd (omega arith);
              to = λ j h m. omega (arith, l, first_extent, first_below j m);
            })
      | inr later ↦ g.separated.between i le o (ground (arith, e, later))
    ];
  }

  in_place-GoodLeaf : obj.base < obj.limit → GoodLeaf (in_place b obj)
  unfolding update
  in_place-GoodLeaf e = record {
    separated = in_place-Separated;
    exact = λ i h. let behind : (i + 1 == 0) ≡ false = ground arith in rw behind (g.exact i h);
    extents = λ i h. elim (Bool-cases (i == 0)) [
      | inl first ↦ rw first e
      | inr later ↦ rw later (g.extents i h)
    ];
  }

  in_place-Fits : Fits Is (in_place b obj) 0 (b.child 0).base (b.child 0)
  unfolding update
  in_place-Fits = record {
    inside = omega arith;
    before = λ j h. absurd (omega arith);
    behind = λ j h m. omega (arith, first_extent, first_below j m);
    left = λ o e. rw (← e) l;
    right = λ o e. rw e (omega arith);
    right_end = λ o e j h m. rw (← e) (first_below j m);
  }

  in_place-from :
      (o : Item) → Within (λ x. Is x o) (in_place b obj) → Stored o (leaf_of b) ⊎ (o ≡ obj)
  unfolding update
  in_place-from o (i, le, e) = elim (Bool-cases (i == 0)) [
    | inl first ↦ inr (ground (arith, e, first))
    | inr later ↦ inl (in_leaf i le (ground (arith, e, later)))
  ]

  in_place-Adds :
      (c : Body Item)
      → Grown (in_place b obj) c 0 (b.child 0).base (b.child 0)
      → Adds (λ o. Stored o (leaf_of b)) (λ o. Stored o (leaf_of c)) obj
  unfolding update
  in_place-Adds c n = record {
    from = λ o st.
        elim (Grown-from (λ x. Is x o) (in_place b obj) c 0 (b.child 0).base (b.child 0)
          (omega arith) n (Stored-Within c o st)) [
            | inl w ↦ in_place-from o w
            | inr e ↦ inl (in_leaf 0 (omega arith) e)
          ];
    keeps = λ o st. kept o (Stored-Within b o st);
    holds = Within-Stored c obj (
        Grown-old (λ x. Is x obj) (in_place b obj) c 0 (b.child 0).base (b.child 0) n
          (0, omega arith, refl));
  }
    where
      kept : (o : Item) → Within (λ x. Is x o) b → Stored o (leaf_of c)
      kept o (i, le, e) = elim (Bool-cases (i == 0)) [
        | inl first ↦ Within-Stored c o (
            Grown-new (λ x. Is x o) (in_place b obj) c 0 (b.child 0).base (b.child 0) (omega arith)
              n (ground (arith, e, first)))
        | inr later ↦ Within-Stored c o (
            Grown-old (λ x. Is x o) (in_place b obj) c 0 (b.child 0).base (b.child 0) n
              (i, le, ground (arith, e, later)))
      ]

  front-Gives :
      (memory : Bool) (ngb : Option Item)
      → b.count ≤ max_key
      → obj.base < obj.limit
      → Gives (leaf_of b) obj (put_in leaf_of item_key memory b (negsuc 0) obj.base obj ngb)
  front-Gives memory ngb le e =
      let c = insert_page item_key b (negsuc 0) obj.base obj in
      let n = insert_page-front item_key b 0 obj.base obj in
      leaf-Gives (leaf_of b) c obj _ (omega (arith, n.count, le))
        (Grown-GoodLeaf (in_place b obj) c 0 (b.child 0) (in_place-GoodLeaf e) n in_place-Fits
          first_extent)
        (in_place-Adds c n)
        (put_in-PutIn leaf_of item_key memory b (negsuc 0) obj.base obj ngb le n.count λ full.
          subst
            (λ most. Parts c min_key (split_page most min_key item_key b (negsuc 0) obj.base obj))
            full
            (split_page-front min_key 0 item_key b obj.base obj (omega arith)
              (omega (arith, full))))

-- The object does not reach the keys behind its place.
pub end_below_keys :
    (key : Array ℕ) (count : ℕ) (obj : Item) (hi : ℕ)
    → Sorted key count
    → Placed key count obj.base hi
    → (ltb hi count && obj_match obj (key hi)) ≡ false
    → (j : ℕ) → hi ≤ j
    → j < count
    → obj.limit ≤ key j
end_below_keys key count obj hi s w o j h m =
    let next : key hi ≤ key j = le_of_Sorted hi j s h m in
    ground (arith, next, w.behind hi (omega arith) (omega (arith, h, m)), o)

-- The child at the place ends in front of the object, or the object lies in front of it.
ends_in_front :
    (b : Body Item) (obj : Item) (hi : ℕ)
    → GoodLeaf b
    → Placed b.key b.count obj.base hi
    → obj_match (b.child hi) obj.base ≡ false
    → (hi == 0 && ltb obj.base (b.child 0).base) ≡ false
    → (b.child hi).limit ≤ obj.base
ends_in_front b obj zero g w o f = ground arith
ends_in_front b obj (suc i) g w o f =
    let near : b.key i ≡ (b.child (i + 1)).base = g.exact i (omega (arith, w.inside)) in
    let next : i + 1 ≡ suc i = omega arith in
    let base : b.key i ≡ (b.child (suc i)).base = near ∙ ap (λ n. (b.child n).base) next in
    ground (arith, base, w.before i (omega arith), o)

pub insert_leaf-Gives :
    (memory : Bool) (b : Body Item) (obj : Item) (hi : ℕ)
    → b.count ≤ max_key
    → GoodLeaf b
    → obj.base < obj.limit
    → Placed b.key b.count obj.base hi
    → Gives (leaf_of b) obj (insert_leaf memory b obj hi)
unfolding insert_leaf
insert_leaf-Gives memory b obj hi le g e w =
    elim (Bool-cases (ltb hi b.count && obj_match obj (b.key hi))) [
      | inl over ↦ rw (insert_leaf, over) (refused (inr refl) (le, g) (λ o st. st) (λ o st. st))
      | inr free ↦
          elim (Bool-cases
            (obj_match (b.child hi) obj.base || hi == 0 && overlaps obj (b.child 0))) [
              | inl over ↦
                  rw (insert_leaf, free, over)
                    (refused (inr refl) (le, g) (λ o st. st) (λ o st. st))
              | inr clear ↦ elim (Bool-cases (hi == 0 && ltb obj.base (b.child 0).base)) [
                | inl front ↦
                    rw (insert_leaf, free, clear, front)
                      (front-Gives b obj g (ground (arith, front, clear, e)) memory _ le e)
                | inr behind ↦
                    let match : obj_match (b.child hi) obj.base ≡ false = ground (arith, clear) in
                    rw (insert_leaf, free, clear, behind)
                      (behind-Gives memory b obj hi _ le g e (
                        behind-Fits b hi obj w (ends_in_front b obj hi g w match behind)
                          (end_below_keys b.key b.count obj hi g.separated.sorted w free)))
              ]
            ]
    ]
