-- ===== src/Btree/Insert/Tree.antt =====
-- `BTInsert` and `BTIns` of kernel/lib/klibc/btree.c.
use mungi.Common.{
  ℕ, suc, ◌+◌, ◌≤◌, ◌<◌, ◌≡◌, refl, ap, ◌∙◌, Bool, false, ◌&&◌, arith, ◌==◌, ltb, Bool-cases, inl,
  inr,
}
use mathlib.Core.Path.{subst}
use mungi.Common.Int.{pos}
use mungi.Btree.{Item, obj_match, Page, node, leaf}
use mungi.Btree.Insert.{
  Body, Place, insert_place, insert_from, insert_page, split_page, Inserted, max_key, min_key,
  node_of, insert_node,
}
use mungi.Btree.Insert.Grow.{Grown-Separated, insert_page-Grown}
use mungi.Btree.Insert.Split.{Parts, split_page-Parts}
use mungi.Btree.Insert.Members.{Grown-Every}
use mungi.Btree.Insert.Find.{Placed, Found, equal, placed, insert_place-Found}
use mungi.Btree.Insert.Good.{Holds, Good, put_in-PutIn, Gives, grown, halved, refused, no_memory}
use mungi.Btree.Insert.Node.{GoodNode, node-Gives, set_child, set_child_other, set_child-GoodNode}
use mungi.Btree.Insert.Child.{child-Adds, same_objects, halves-Fits, halves-Adds}
use mungi.Btree.Insert.Front.{insert_leaf-Gives, end_below_keys}

-- In a full page the first word of the child behind the middle one, read as an object's base, is the
-- key in front of it.
abbrev pub ReadsBody : (Page → ℕ) → Body Page → Type 0
ReadsBody page_key b = b.count ≡ max_key → page_key (b.child (min_key + 1)) ≡ b.key min_key

module _ (page_key : Page → ℕ) (memory : Bool) (b : Body Page) (hi : ℕ) (obj : Item)
    (le : b.count ≤ max_key) (g : GoodNode b) (w : Placed b.key b.count obj.base hi)
    (end : (j : ℕ) → hi ≤ j → j < b.count → obj.limit ≤ b.key j)
    (reads : ReadsBody page_key b) where
  split_key :
      (l : Page)
      → b.count ≡ max_key
      → hi ≡ min_key
      → page_key ((set_child b hi l).child (min_key + 1)) ≡ b.key min_key
  split_key l full e =
      let other : (min_key + 1 == hi) ≡ false = rw e refl in
      ap page_key (set_child_other b hi l (min_key + 1) other) ∙ reads full

  pub insert_node-Gives :
      (x : Inserted)
      → Gives (b.child hi) obj x
      → Gives (node_of b) obj (insert_node page_key memory b hi x)
  unfolding insert_node
  insert_node-Gives _ (grown {q} gq a) =
      let h = set_child-GoodNode b hi obj q g w end gq a.from in
      grown (le, h.separated, h.children) (child-Adds b hi obj g w end q a)
  insert_node-Gives _ (refused {r} {q} why gq sub sup) =
      let h = set_child-GoodNode b hi obj q g w end gq (λ o st. inl (sub o st)) in
      let (from, to) = same_objects b hi obj g w end q sub sup in
      refused why (le, h.separated, h.children) from to
  insert_node-Gives _ no_memory = no_memory
  insert_node-Gives _ (halved {l} {r} {k} {ngb} gl gr below above a) =
      let b' = set_child b hi l in
      let c = insert_page page_key b' (pos hi) k r in
      let n = insert_page-Grown page_key b' hi k r w.inside in
      let h = set_child-GoodNode b hi obj l g w end gl (λ o st. a.from o (inl st)) in
      let f = halves-Fits b hi obj g w end l r k gl gr below above a in
      let gc : GoodNode c = record {
        separated = Grown-Separated Holds b' c hi k r h.separated n f;
        children = Grown-Every Good b' c hi k r w.inside n h.children gr;
      } in
      node-Gives (node_of b) c obj _ (omega (arith, n.count, le)) gc
        (halves-Adds b hi obj g w end l r k gl gr below above a c n)
        (put_in-PutIn node_of page_key memory b' (pos hi) k r ngb le n.count λ full.
          subst (λ most. Parts c min_key (split_page most min_key page_key b' (pos hi) k r)) full
            (split_page-Parts min_key page_key b' hi k r (omega arith) (omega (arith, full))
              w.inside (split_key l full)))

-- Every internal page below the page is like this.
abbrev pub Reads : (Page → ℕ) → Page → Type 0
Reads page_key (leaf count key child) = Unit {0}
Reads page_key (node count key child) =
    ReadsBody page_key (record { count = count; key = key; child = child })
    × ((i : ℕ) → i ≤ count → Reads page_key (child i))

pub insert_from-Gives :
    (page_key : Page → ℕ) (memory : ℕ → Bool) (d : ℕ) (p : Page) (obj : Item)
    → Good p
    → Reads page_key p
    → obj.base < obj.limit
    → Gives p obj (insert_from page_key memory d p obj)
unfolding insert_from
insert_from-Gives page_key memory d (leaf count key child) obj (le, g) reads e =
    go (insert_place count key obj.base 0 count) refl
      (insert_place-Found key count obj.base g.separated.sorted)
  where
    go :
        (x : Place)
        → insert_place count key obj.base 0 count ≡ x
        → Found key count obj.base x
        → Gives
            (leaf count key child)
            obj
            (insert_from page_key memory d (leaf count key child) obj)
    go _ z equal = rw (insert_from, z) (refused (inl refl) (le, g) (λ o st. st) (λ o st. st))
    go _ z (placed hi w) =
        rw (insert_from, z)
          (insert_leaf-Gives (memory d) (record { count = count; key = key; child = child }) obj hi
            le g e w)
insert_from-Gives page_key memory d (node count key child) obj (le, s, g) (reads, below) e =
    go (insert_place count key obj.base 0 count) refl
      (insert_place-Found key count obj.base s.sorted)
      (λ i h. insert_from-Gives page_key memory (suc d) (child i) obj (g i h) (below i h) e)
  where
    go :
        (x : Place)
        → insert_place count key obj.base 0 count ≡ x
        → Found key count obj.base x
        → ((i : ℕ)
            → i ≤ count
            → Gives (child i) obj (insert_from page_key memory (suc d) (child i) obj))
        → Gives
            (node count key child)
            obj
            (insert_from page_key memory d (node count key child) obj)
    go _ z equal later =
        rw (insert_from, z) (refused (inl refl) (le, s, g) (λ o st. st) (λ o st. st))
    go _ z (placed hi w) later = elim (Bool-cases (ltb hi count && obj_match obj (key hi))) [
      | inl over ↦
          rw (insert_from, z, over) (refused (inr refl) (le, s, g) (λ o st. st) (λ o st. st))
      | inr free ↦
          rw (insert_from, z, free)
            (insert_node-Gives page_key (memory d)
              (record { count = count; key = key; child = child }) hi obj le
              (record { separated = s; children = g }) w
              (end_below_keys key count obj hi s.sorted w free) reads
              (insert_from page_key memory (suc d) (child hi) obj) (later hi w.inside))
    ]
