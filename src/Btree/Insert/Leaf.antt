-- ===== src/Btree/Insert/Leaf.antt =====
-- `BTInsert` of kernel/lib/klibc/btree.c in a leaf.
use mungi.Common.{
  ℕ, ◌+◌, ◌-◌, ◌≤◌, ◌<◌, ◌≡◌, refl, sym, ap, ◌∙◌, Bool, Option, arith, ◌==◌, ltb, Bool-cases, inl,
  inr,
}
use mathlib.Core.Path.{subst}
use mungi.Common.Int.{pos}
use mungi.Btree.{Item}
use mungi.Btree.Search.{Stored}
use mungi.Btree.Insert.{Body, insert_page, split_page, put_in, max_key, min_key, leaf_of, item_key}
use mungi.Btree.Insert.Grow.{Grown, Fits, Grown-Separated, insert_page-Grown}
use mungi.Btree.Insert.Split.{Parts, split_page-Parts}
use mungi.Btree.Insert.Members.{Grown-from, Grown-old, Grown-new, Grown-Every}
use mungi.Btree.Insert.Find.{Placed}
use mungi.Btree.Insert.Halves.{leaf-Gives, Within-Stored, Stored-Within}
use mungi.Btree.Insert.Good.{Is, GoodLeaf, put_in-PutIn, Adds, Gives}

-- A leaf that has grown by an object behind its base.
pub Grown-GoodLeaf :
    (b c : Body Item) (hi : ℕ) (p : Item)
    → GoodLeaf b
    → Grown b c hi p.base p
    → Fits Is b hi p.base p
    → p.base < p.limit
    → GoodLeaf c
Grown-GoodLeaf b c hi p g n f e = record {
  separated = Grown-Separated Is b c hi p.base p g.separated n f;
  exact = λ i h. elim (Bool-cases (ltb i hi)) [
    | inl before ↦
        n.key_before i (ground arith)
        ∙ g.exact i (ground (arith, f.inside))
        ∙ ap (λ o. o.base) (sym (n.child_before (i + 1) (ground arith)))
    | inr not_before ↦ elim (Bool-cases (i == hi)) [
      | inl same ↦
          let z : i ≡ hi = ground arith in rw z (n.key_new ∙ ap (λ o. o.base) (sym n.child_new))
      | inr behind ↦
          let past : hi < i = ground arith in
          let inside : i ≤ b.count = omega (arith, h, n.count) in
          let back : i - 1 + 1 ≡ i + 1 - 1 = omega (arith, past) in
          n.key_behind i past inside
          ∙ g.exact (i - 1) (omega (arith, past, inside))
          ∙ ap (λ m. (b.child m).base) back
          ∙ ap (λ o. o.base)
              (sym (n.child_behind (i + 1) (omega (arith, past)) (omega (arith, inside))))
    ]
  ];
  extents = Grown-Every (λ o. o.base < o.limit) b c hi p.base p f.inside n g.extents e;
}

-- The object goes behind the child at its place.
pub behind-Fits :
    (b : Body Item) (hi : ℕ) (obj : Item)
    → Placed b.key b.count obj.base hi
    → (b.child hi).limit ≤ obj.base
    → ((j : ℕ) → hi ≤ j → j < b.count → obj.limit ≤ b.key j)
    → Fits Is b hi obj.base obj
behind-Fits b hi obj w l end = record {
  inside = w.inside;
  before = w.before;
  behind = w.behind;
  left = λ o e. rw (← e) l;
  right = λ o e. rw e (omega arith);
  right_end = λ o e j h m. rw (← e) (end j h m);
}

behind-Adds :
    (b c : Body Item) (hi k : ℕ) (obj : Item)
    → hi ≤ b.count
    → Grown b c hi k obj
    → Adds (λ o. Stored o (leaf_of b)) (λ o. Stored o (leaf_of c)) obj
behind-Adds b c hi k obj h n = record {
  from = λ o st. elim (Grown-from (λ x. Is x o) b c hi k obj h n (Stored-Within c o st)) [
    | inl w ↦ inl (Within-Stored b o w)
    | inr e ↦ inr (sym e)
  ];
  keeps = λ o st. Within-Stored c o (Grown-old (λ x. Is x o) b c hi k obj n (Stored-Within b o st));
  holds = Within-Stored c obj (Grown-new (λ x. Is x obj) b c hi k obj h n refl);
}

pub behind-Gives :
    (memory : Bool) (b : Body Item) (obj : Item) (hi : ℕ) (ngb : Option Item)
    → b.count ≤ max_key
    → GoodLeaf b
    → obj.base < obj.limit
    → Fits Is b hi obj.base obj
    → Gives (leaf_of b) obj (put_in leaf_of item_key memory b (pos hi) obj.base obj ngb)
behind-Gives memory b obj hi ngb le g e f =
    let c = insert_page item_key b (pos hi) obj.base obj in
    let n = insert_page-Grown item_key b hi obj.base obj f.inside in
    leaf-Gives (leaf_of b) c obj _ (omega (arith, n.count, le)) (Grown-GoodLeaf b c hi obj g n f e)
      (behind-Adds b c hi obj.base obj f.inside n)
      (put_in-PutIn leaf_of item_key memory b (pos hi) obj.base obj ngb le n.count λ full.
        subst (λ most. Parts c min_key (split_page most min_key item_key b (pos hi) obj.base obj))
          full
          (split_page-Parts min_key item_key b hi obj.base obj (omega arith) (omega (arith, full))
            f.inside λ _. sym (g.exact min_key (omega (arith, full)))))
