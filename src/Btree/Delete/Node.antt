-- ===== src/Btree/Delete/Node.antt =====
-- `BTDelete` of kernel/lib/klibc/btree.c.
use mungi.Common.{ℕ, suc, ◌-◌, ◌≤◌, ◌<◌, ◌≡◌, sym, false, arith, ◌==◌, Bool-cases, inl, inr}
use mathlib.Core.Path.{subst}
use mungi.Btree.{Item, Page, node, leaf}
use mungi.Btree.Keys.{Split, page_search-Split}
use mungi.Btree.Search.{Stored, in_node}
use mungi.Btree.Insert.{Body, node_of, max_key, min_key}
use mungi.Btree.Insert.Members.{Every}
use mungi.Btree.Insert.Good.{Good, extent-Good}
use mungi.Btree.Insert.Node.{GoodNode, set_child}
use mungi.Btree.Delete.{
  Deleted, deleted, too_few, rekey, delete_node, delete_from, page_count, body,
}
use mungi.Btree.Delete.Leaf.{other_side, delete_leaf-Leaves}
use mungi.Btree.Delete.Shape.{
  Shape, SomeFull, full_below, page_count-SomeFull, Removes, Leaves, enough, fewer, last_one,
  not_there, clash,
}
use mungi.Btree.Delete.Rekey.{at_child, less-GoodNode, less-Removes, Rekeyed, rekey-Rekeyed}
use mungi.Btree.Delete.Lacking.{Removes-same}
use mungi.Btree.Delete.Repair.{repair-Leaves}

Rekeyed-Stored :
    (b c : Body Page) (o : Item) → Rekeyed b c → Stored o (node_of c) → Stored o (node_of b)
Rekeyed-Stored b c o x (in_node i le st) =
    in_node i (omega (arith, le, x.count)) (subst (λ f. Stored o (f i)) x.child st)

Stored-Rekeyed :
    (b c : Body Page) (o : Item) → Rekeyed b c → Stored o (node_of b) → Stored o (node_of c)
Stored-Rekeyed b c o x (in_node i le st) =
    in_node i (omega (arith, le, x.count)) (subst (λ f. Stored o (f i)) (sym x.child) st)

module _ (d below least : ℕ) (b : Body Page) (k hi : ℕ) (room : b.count ≤ max_key) (g : GoodNode b)
    (level : d ≡ suc below) (bound : least ≤ min_key) (size : least ≤ b.count)
    (some_key : 0 < b.count) (shapes : Every (Shape below min_key) b)
    (t : Split b.key k 0 b.count hi) where
  module _ (q : Page) (obj : Item) (gq : Good q)
      (r : Removes (λ o. Stored o (b.child hi)) (λ o. Stored o q) k obj) where
    abbrev after : Body Page
    after = rekey (set_child b hi q) hi k

    after-Rekeyed : Rekeyed (set_child b hi q) after
    after-Rekeyed =
        rekey-Rekeyed (set_child b hi q) hi k (less-GoodNode b hi q g t.below gq r.from) t.below

    after-Removes : Removes (λ o. Stored o (node_of b)) (λ o. Stored o (node_of after)) k obj
    after-Removes =
        Removes-same (λ o. Stored o (node_of b)) (λ o. Stored o (node_of (set_child b hi q)))
          (λ o. Stored o (node_of after)) k obj (less-Removes b hi q g t.below k obj t r)
          (λ o. Rekeyed-Stored (set_child b hi q) after o after-Rekeyed)
          (λ o. Stored-Rekeyed (set_child b hi q) after o after-Rekeyed)

    after_child :
        (P : Page → Type 0) (i : ℕ)
        → (i ≡ hi → P q)
        → ((i == hi) ≡ false → P (b.child i))
        → P (after.child i)
    after_child P i here other =
        subst (λ f. P (f i)) (sym after-Rekeyed.child) (at_child b hi q g t.below P i here other)

    deleted-Leaves :
        Shape below min_key q → Leaves d least (node_of b) k (delete_node b k hi (deleted q obj))
    unfolding delete_node
    deleted-Leaves sq =
        enough
          (
            omega (arith, room, after-Rekeyed.count),
            after-Rekeyed.good.separated,
            after-Rekeyed.good.children,
          )
          (
            below,
            level,
            omega (arith, size, after-Rekeyed.count),
            λ i le.
                after_child (Shape below min_key) i (λ z. sq)
                  λ apart. shapes i (omega (arith, le, after-Rekeyed.count)),
          )
          after-Removes

    too_few-Leaves :
        Shape below (min_key - 1) q
        → page_count q < min_key
        → Leaves d least (node_of b) k (delete_node b k hi (too_few q obj))
    unfolding delete_node
    too_few-Leaves sq few = repair-Leaves (node_of b) after d below least k hi obj (record {
      good = after-Rekeyed.good;
      room = omega (arith, room, after-Rekeyed.count);
      level = level;
      bound = bound;
      size = omega (arith, size, after-Rekeyed.count);
      some_key = omega (arith, some_key, after-Rekeyed.count);
      place = omega (arith, t.below, after-Rekeyed.count);
      removes = after-Removes;
      few = after_child (λ p. page_count p < min_key) hi (λ z. few) λ apart. absurd (ground arith);
      few_shape =
          after_child (Shape below (min_key - 1)) hi (λ z. sq) λ apart. absurd (ground arith);
      others = λ i le apart.
          after_child (Shape below min_key) i (λ z. absurd (ground arith))
            λ _. shapes i (omega (arith, le, after-Rekeyed.count));
      full = λ i le apart.
          after_child (λ p. page_count p ≡ max_key → SomeFull (node_of b)) i
            (λ z. absurd (ground arith))
            λ _ e.
              full_below i (omega (arith, le, after-Rekeyed.count))
                (page_count-SomeFull (b.child i) e);
    })

  delete_node-Leaves :
      (x : Deleted)
      → Leaves below min_key (b.child hi) k x
      → Leaves d least (node_of b) k (delete_node b k hi x)
  unfolding delete_node
  delete_node-Leaves _ (enough {q} {obj} gq sq r) = deleted-Leaves q obj gq r sq
  delete_node-Leaves _ (fewer {q} {obj} gq sq few r) = too_few-Leaves q obj gq r sq few
  delete_node-Leaves _ (last_one z level' base st only) = absurd (omega (arith, z))
  delete_node-Leaves _ (not_there others) = not_there λ o st. elim st [
    | in_node i le s ↦ elim (Bool-cases (i == hi)) [
      | inl same ↦ let z : i ≡ hi = ground arith in others o (subst (λ n. Stored o (b.child n)) z s)
      | inr apart ↦
          other_side b.key b.count k hi i o t le apart (g.separated.between i le o s)
            (extent-Good (b.child i) o (g.children i le) s)
    ]
  ]
  delete_node-Leaves _ (clash full) = clash (full_below hi t.below full)

-- In a tree in order BTDelete ends.
pub delete_from-Leaves :
    (d least : ℕ) (p : Page) (k : ℕ)
    → Good p
    → Shape d least p
    → least ≤ min_key
    → (least ≡ 0 → d ≡ 0)
    → Leaves d least p k (delete_from p k)
unfolding delete_from
delete_from-Leaves d least (leaf count key child) k (le, g) s bound root =
    let (hi, e, t) =
      page_search-Split count key k 0 count count g.separated.sorted (omega arith) (omega arith)
        (omega arith) in
    rw (delete_from, e) (delete_leaf-Leaves d least (body count key child) k hi bound le g s t)
delete_from-Leaves d least (node count key child) k (le, s, g) (below, level, size, shapes) bound
      root =
    let (hi, e, t) =
      page_search-Split count key k 0 count count s.sorted (omega arith) (omega arith)
        (omega arith) in
    rw (delete_from, e)
      (delete_node-Leaves d below least (body count key child) k hi le
        (record { separated = s; children = g }) level bound size
        (ground (arith, root, level, size)) shapes t (delete_from (child hi) k)
        (delete_from-Leaves below min_key (child hi) k (g hi t.below) (shapes hi t.below)
          (omega arith) λ z. absurd (omega (arith, z))))
