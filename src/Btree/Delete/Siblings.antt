-- ===== src/Btree/Delete/Siblings.antt =====
-- `BTCollapse` and `BTRedistribute` of kernel/lib/klibc/btree.c on two siblings in order.
use mungi.Common.{
  ℕ, suc, ◌+◌, ◌-◌, ◌<◌, ◌≡◌, refl, sym, ap, ◌∙◌, arith, ◌==◌, ltb, Bool-cases, inl, inr,
}
use mathlib.Core.Path.{subst}
use mungi.Btree.{Item, Page}
use mungi.Btree.Insert.{Body, min_key}
use mungi.Btree.Insert.Split.{Cut}
use mungi.Btree.Insert.Members.{Every, Cut-Every-left, Cut-Every-right}
use mungi.Btree.Insert.Good.{Is, GoodLeaf, Holds, Good}
use mungi.Btree.Insert.Node.{GoodNode, Cut-GoodNode_left, Cut-GoodNode_right}
use mungi.Btree.Insert.Halves.{Cut-GoodLeaf_left, Cut-GoodLeaf_right}
use mungi.Btree.Delete.{least_key}
use mungi.Btree.Delete.Joined.{Cut-Every}
use mungi.Btree.Delete.Least.{least_item, Good-Inhabited, leaf_low, node_low}
use mungi.Btree.Delete.Shape.{Shape}
use mungi.Btree.Delete.Pages.{Kind}

-- Leaves at a level.
abbrev pub FineLeaf : ℕ → Body Item → Type 0
FineLeaf d b = GoodLeaf b × (d ≡ 0)

-- Internal pages at a level.
abbrev pub FineNode : ℕ → Body Page → Type 0
FineNode d b = GoodNode b × ((below : ℕ) × (d ≡ suc below) × Every (Shape below min_key) b)

joined_exact :
    (c l r : Body Item) (m k : ℕ)
    → Cut c l r m k
    → GoodLeaf l
    → GoodLeaf r
    → k ≡ (r.child 0).base
    → (i : ℕ) → i < c.count
    → c.key i ≡ (c.child (i + 1)).base
joined_exact c l r m k t gl gr e i h = elim (Bool-cases (ltb i m)) [
  | inl left ↦
      sym (t.left_key i (ground arith))
      ∙ gl.exact i (ground (arith, t.left_count))
      ∙ ap (λ x. x.base) (t.left_child (i + 1) (ground arith))
  | inr not_left ↦ elim (Bool-cases (i == m)) [
    | inl middle ↦
        let z : i ≡ m = ground arith in
        let n : m + 1 + 0 ≡ i + 1 = omega (arith, z) in
        ap c.key z
        ∙ sym t.middle
        ∙ e
        ∙ ap (λ x. x.base) (t.right_child 0 (omega arith) ∙ ap c.child n)
    | inr right ↦
        let j = i - (m + 1) in
        let n : m + 1 + j ≡ i = ground arith in
        let n1 : m + 1 + (j + 1) ≡ i + 1 = ground arith in
        let inside : j < r.count = ground (arith, t.right_count) in
        sym (t.right_key j inside ∙ ap c.key n)
        ∙ gr.exact j inside
        ∙ ap (λ x. x.base) (t.right_child (j + 1) (omega (arith, inside)) ∙ ap c.child n1)
  ]
]

pub leaf_kind : (d : ℕ) → Kind Is (λ o. o.base) (FineLeaf d)
unfolding least_key
leaf_kind d = record {
  separated = λ b (g, level). g.separated;
  inhabited = λ b (g, level) i le. (b.child i, refl, g.extents i le);
  lowest = λ b o (g, level) w. leaf_low b o g w;
  reached = λ b (g, level). (b.child 0, refl, refl);
  joined = λ c l r m k t (gl, level) (gr, _) s e. (
    record {
      separated = s;
      exact = joined_exact c l r m k t gl gr e;
      extents = Cut-Every (λ o. o.base < o.limit) c l r m k t gl.extents gr.extents;
    },
    level,
  );
  cut_left = λ c l r m k t (g, level). (Cut-GoodLeaf_left c l r m k t g, level);
  cut_right = λ c l r m k t (g, level). (Cut-GoodLeaf_right c l r m k t g, level);
}

pub node_kind : (d : ℕ) → Kind Holds least_key (FineNode d)
node_kind d = record {
  separated = λ b (g, level). g.separated;
  inhabited = λ b (g, level) i le. Good-Inhabited (b.child i) (g.children i le);
  lowest = λ b o (g, level) w. node_low b o g w;
  reached = λ b (g, level). least_item (b.child 0);
  joined = λ c l r m k t (gl, (below, e, sl)) (gr, (below', e', sr)) s _.
      let same : below' ≡ below = omega (arith, e, e') in
      (
        record { separated = s; children = Cut-Every Good c l r m k t gl.children gr.children },
        (
          below,
          e,
          Cut-Every (Shape below min_key) c l r m k t sl
              (subst (λ n. Every (Shape n min_key) r) same sr),
        ),
      );
  cut_left = λ c l r m k t (g, (below, e, s)). (
    Cut-GoodNode_left c l r m k t g,
    (below, e, Cut-Every-left (Shape below min_key) c l r m k t s),
  );
  cut_right = λ c l r m k t (g, (below, e, s)). (
    Cut-GoodNode_right c l r m k t g,
    (below, e, Cut-Every-right (Shape below min_key) c l r m k t s),
  );
}
