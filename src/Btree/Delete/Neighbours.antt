-- ===== src/Btree/Delete/Neighbours.antt =====
-- `BTCollapse` and `BTRedistribute` of kernel/lib/klibc/btree.c on two neighbouring pages of a tree.
use mungi.Common.{ℕ, ◌+◌, ◌-◌, ◌≤◌, refl, arith}
use mungi.Btree.{Item, Page, node, leaf}
use mungi.Btree.Search.{Stored}
use mungi.Btree.Insert.{Body, max_key, min_key, leaf_of, node_of}
use mungi.Btree.Insert.Good.{Is, Holds, Good}
use mungi.Btree.Insert.Node.{Within-Stored, Stored-Within}
use mungi.Btree.Insert.Halves as LeafMembers
use mungi.Btree.Delete.{least_key, redistribute_pages, collapse_pages, page_count, body}
use mungi.Btree.Delete.Shape.{Shape}
use mungi.Btree.Delete.Siblings.{FineLeaf, FineNode, leaf_kind, node_kind}
use mungi.Btree.Delete.Moves.{Halved, Merged, Uneven, merge, halve}

-- What is asked of two neighbours for `BTCollapse` and `BTRedistribute`.
pub record Neighbours (d : ℕ) (p q : Page) (k : ℕ) : Type 0 where
  pub left_good : Good p
  pub right_good : Good q
  pub left_shape : Shape d (min_key - 1) p
  pub right_shape : Shape d (min_key - 1) q
  pub below : (o : Item) → Stored o p → o.limit ≤ k
  pub above : (o : Item) → Stored o q → k ≤ o.base

module _ (d : ℕ) where
  leaf-Good : (b : Body Item) → b.count ≤ max_key → FineLeaf d b → Good (leaf_of b)
  leaf-Good b le (g, level) = (le, g)

  leaf-Shape : (b : Body Item) → min_key ≤ b.count → FineLeaf d b → Shape d min_key (leaf_of b)
  leaf-Shape b size (g, level) = (level, size)

  node-Good : (b : Body Page) → b.count ≤ max_key → FineNode d b → Good (node_of b)
  node-Good b le (g, level) = (le, g.separated, g.children)

  node-Shape : (b : Body Page) → min_key ≤ b.count → FineNode d b → Shape d min_key (node_of b)
  node-Shape b size (g, (below, e, s)) = (below, e, size, s)

pub collapse_pages-Merged :
    (d : ℕ) (p q : Page) (k : ℕ)
    → Neighbours d p q k
    → page_count p + page_count q + 1 ≤ max_key
    → min_key ≤ page_count p + page_count q + 1
    → Merged d p q (collapse_pages p q)
unfolding collapse_pages
collapse_pages-Merged d (leaf n key child) (leaf m key' child') k w le big =
    merge Is (λ o. o.base) (FineLeaf d) (leaf_kind d) leaf_of d (leaf-Good d) (leaf-Shape d)
      (λ b. refl) LeafMembers.Stored-Within LeafMembers.Within-Stored (body n key child)
      (body m key' child') (w.left_good.1, w.left_shape.0) (w.right_good.1, w.right_shape.0) k
      w.below w.above le big
collapse_pages-Merged d (node n key child) (node m key' child') k w le big =
    let (ll, ls, lg) = w.left_good in
    let (rl, rs, rg) = w.right_good in
    let (lb, le', lz, lc) = w.left_shape in
    let (rb, re', rz, rc) = w.right_shape in
    merge Holds least_key (FineNode d) (node_kind d) node_of d (node-Good d) (node-Shape d)
      (λ b. refl) Stored-Within Within-Stored (body n key child) (body m key' child')
      (record { separated = ls; children = lg }, (lb, le', lc))
      (record { separated = rs; children = rg }, (rb, re', rc)) k w.below w.above le big
collapse_pages-Merged d (leaf n key child) (node m key' child') k w le big =
    absurd (omega (arith, w.left_shape.0, w.right_shape.1))
collapse_pages-Merged d (node n key child) (leaf m key' child') k w le big =
    absurd (omega (arith, w.right_shape.0, w.left_shape.1))

pub redistribute_pages-Halved :
    (d : ℕ) (p q : Page) (k : ℕ)
    → Neighbours d p q k
    → page_count p ≤ max_key
    → page_count q ≤ max_key
    → Uneven (page_count p) (page_count q)
    → Halved d p q (redistribute_pages p q)
unfolding redistribute_pages
redistribute_pages-Halved d (leaf n key child) (leaf m key' child') k w lm rm v =
    halve Is (λ o. o.base) (FineLeaf d) (leaf_kind d) leaf_of d (leaf-Good d) (leaf-Shape d)
      (λ b. refl) LeafMembers.Stored-Within LeafMembers.Within-Stored (body n key child)
      (body m key' child') (w.left_good.1, w.left_shape.0) (w.right_good.1, w.right_shape.0) k
      w.below w.above rm lm (omega (arith, w.left_shape.1)) (omega (arith, w.right_shape.1)) v
redistribute_pages-Halved d (node n key child) (node m key' child') k w lm rm v =
    let (ll, ls, lg) = w.left_good in
    let (rl, rs, rg) = w.right_good in
    let (lb, le', lz, lc) = w.left_shape in
    let (rb, re', rz, rc) = w.right_shape in
    halve Holds least_key (FineNode d) (node_kind d) node_of d (node-Good d) (node-Shape d)
      (λ b. refl) Stored-Within Within-Stored (body n key child) (body m key' child')
      (record { separated = ls; children = lg }, (lb, le', lc))
      (record { separated = rs; children = rg }, (rb, re', rc)) k w.below w.above rm lm
      (omega (arith, lz)) (omega (arith, rz)) v
redistribute_pages-Halved d (leaf n key child) (node m key' child') k w lm rm v =
    absurd (omega (arith, w.left_shape.0, w.right_shape.1))
redistribute_pages-Halved d (node n key child) (leaf m key' child') k w lm rm v =
    absurd (omega (arith, w.right_shape.0, w.left_shape.1))
