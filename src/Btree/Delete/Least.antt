-- ===== src/Btree/Delete/Least.antt =====
-- `GetLeastKey` of kernel/lib/klibc/btree.c.
use mungi.Common.{◌≤◌, ◌≡◌, refl, arith, ◌==◌, Bool-cases, inl, inr}
use mathlib.Core.Path.{subst}
use mungi.Btree.{Item, Page, node, leaf}
use mungi.Btree.Search.{Stored, in_leaf, in_node}
use mungi.Btree.Insert.Good.{Good, GoodLeaf, some_item, extent-Good}
use mungi.Btree.Insert.{Body}
use mungi.Btree.Insert.Members.{Within}
use mungi.Btree.Insert.Node.{GoodNode}
use mungi.Btree.Delete.{least_key, body}
use mungi.Btree.Delete.Joined.{Inhabited}
use mungi.Btree.Insert.Good.{Holds}

-- The object of the page that has the least key.
pub least_item : (p : Page) → (o : Item) × Stored o p × (o.base ≡ least_key p)
unfolding least_key
least_item (leaf count key child) = (child 0, in_leaf 0 (omega arith) refl, refl)
least_item (node count key child) =
    let (o, st, e) = least_item (child 0) in (o, in_node 0 (omega arith) st, e)

pub Good-Inhabited : (p : Page) → Good p → Inhabited Holds p
Good-Inhabited p g = let (o, st) = some_item p in (o, st, extent-Good p o g st)

-- No object of a leaf has a lesser one than the first.
pub leaf_low :
    (b : Body Item) (o : Item) → GoodLeaf b → Within (λ x. x ≡ o) b → (b.child 0).base ≤ o.base
leaf_low b o g (i, h, e) = elim (Bool-cases (i == 0)) [
  | inl first ↦
      let z : i ≡ 0 = ground arith in
      subst (λ x. (b.child 0).base ≤ x.base) (subst (λ n. b.child n ≡ o) z e) (omega arith)
  | inr later ↦
      let w = g.separated.between 0 (omega arith) (b.child 0) refl in
      let v = g.separated.between i h o e in
      ground (
        arith,
        g.extents 0 (omega arith),
        w.to 0 (omega arith) (ground (arith, h)),
        v.from 0 (ground arith),
      )
]

node_low_from :
    (b : Body Page) (o : Item)
    → GoodNode b
    → ((x : Item) → Stored x (b.child 0) → least_key (b.child 0) ≤ x.base)
    → Within (λ p. Stored o p) b
    → least_key (b.child 0) ≤ o.base
node_low_from b o g low (i, h, st) = elim (Bool-cases (i == 0)) [
  | inl first ↦ let z : i ≡ 0 = ground arith in low o (subst (λ n. Stored o (b.child n)) z st)
  | inr later ↦
      let (x, sx, e) = Good-Inhabited (b.child 0) (g.children 0 (omega arith)) in
      let w = g.separated.between 0 (omega arith) x sx in
      let v = g.separated.between i h o st in
      ground (arith, low x sx, e, w.to 0 (omega arith) (ground (arith, h)), v.from 0 (ground arith))
]

-- No object of the page has a lesser one.
pub least_key-least : (p : Page) (o : Item) → Good p → Stored o p → least_key p ≤ o.base
unfolding least_key
least_key-least (leaf count key child) o (le, g) (in_leaf i h e) =
    leaf_low (body count key child) o g (i, h, e)
least_key-least (node count key child) o (le, s, g) (in_node i h st) =
    node_low_from (body count key child) o (record { separated = s; children = g })
      (λ x. least_key-least (child 0) x (g 0 (omega arith))) (i, h, st)

pub node_low :
    (b : Body Page) (o : Item)
    → GoodNode b
    → Within (λ p. Stored o p) b
    → least_key (b.child 0) ≤ o.base
node_low b o g =
    node_low_from b o g (λ x. least_key-least (b.child 0) x (g.children 0 (omega arith)))
