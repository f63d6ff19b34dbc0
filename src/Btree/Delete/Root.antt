-- ===== src/Btree/Delete/Root.antt =====
-- `BTDel` of kernel/lib/klibc/btree.c.
use mungi.Common.{
  ℕ, ◌+◌, ◌-◌, ◌≤◌, ◌≡◌, refl, Option, none, some, arith, ◌==◌, Bool-cases, inl, inr,
}
use mathlib.Core.Path.{subst}
use mungi.Btree.{Item, Page, node, leaf}
use mungi.Btree.Search.{Stored, in_node}
use mungi.Btree.Insert.{min_key}
use mungi.Btree.Insert.Good.{Good}
use mungi.Btree.Insert.Root.{Contains}
use mungi.Btree.Delete.{
  Deleted, delete_from, Tree, Deletion, del_ok, del_not_found, shrink_root, del_root,
}
use mungi.Btree.Given.{Place, bt_del, Ends, bt_del-Ends}
use mungi.Btree.Pool.{PagePool}
use mungi.Btree.Delete.Shape.{
  Shape, Shape-weaken, SomeFull, Removes, Leaves, enough, fewer, last_one, not_there, clash,
}
use mungi.Btree.Delete.Lacking.{Removes-same}
use mungi.Btree.Delete.Node.{delete_from-Leaves}

-- A root that is no leaf has a key.
abbrev pub root_least : Page → ℕ
root_least (leaf count key child) = 0
root_least (node count key child) = 1

-- A tree in order, all of whose leaves are on the level that the depth says.
abbrev pub LevelRoot : Option Page → ℕ → Type 0
LevelRoot none depth = depth ≡ 0
LevelRoot (some p) depth = (d : ℕ) × (depth ≡ d + 1) × Good p × Shape d (root_least p) p

abbrev pub LevelTree : Tree → Type 0
LevelTree t = LevelRoot t.root t.depth

-- What `BTDel` may leave: the tree without the object that has the key, the same tree if there is
-- none, or a page has lost a child.
pub data Deletes (t : Tree) (k : ℕ) : Option (Deletion × Tree × Option Item) → Type 0 where
  taken :
      {u : Tree} {obj : Item}
      → LevelTree u
      → Removes (Contains t.root) (Contains u.root) k obj
      → Deletes t k (some (del_ok, u, some obj))
  absent :
      ((o : Item) → Contains t.root o → ¬ (o.base ≡ k))
      → Deletes t k (some (del_not_found, t, none))
  damaged : {p : Page} → t.root ≡ some p → SomeFull p → Deletes t k none

root_small : (d : ℕ) (p : Page) → Shape d (root_least p) p → root_least p ≡ 0 → d ≡ 0
root_small d (leaf count key child) (level, size) z = level
root_small d (node count key child) s z = absurd (omega (arith, z))

pub root_bound : (p : Page) → root_least p ≤ min_key
root_bound (leaf count key child) = omega arith
root_bound (node count key child) = omega arith

-- A page at the root, and what is left of it.
pub same_kind :
    (d least : ℕ) (p q : Page)
    → Shape d (root_least p) p
    → Shape d least q
    → root_least p ≡ root_least q
same_kind d least (leaf n key child) (leaf m key' child') s s' = refl
same_kind d least (node n key child) (node m key' child') s s' = refl
same_kind d least (leaf n key child) (node m key' child') (level, size)
      (below, level', size', shapes) =
    absurd (omega (arith, level, level'))
same_kind d least (node n key child) (leaf m key' child') (below, level, size, shapes)
      (level', size') =
    absurd (omega (arith, level, level'))

-- The tree that is left after `BT_LESS_THAN_MIN`.
shrink_root-LevelTree :
    (d depth : ℕ) (q : Page)
    → depth ≡ d + 1
    → Good q
    → Shape d (root_least q - 1) q
    → LevelTree (shrink_root q depth)
unfolding shrink_root
shrink_root-LevelTree d depth (leaf count key child) e g s = (d, e, g, s)
shrink_root-LevelTree d depth (node count key child) e (le, sep, g) (below, level, size, shapes) =
    elim (Bool-cases (count == 0)) [
      | inl no_key ↦ rw no_key (
        below,
        omega (arith, e, level),
        g 0 (omega arith),
        Shape-weaken below min_key (root_least (child 0)) (child 0) (root_bound (child 0))
            (shapes 0 (omega arith)),
      )
      | inr some_key ↦ rw some_key (d, e, (le, sep, g), (below, level, ground arith, shapes))
    ]

-- It holds the same objects.
shrink_root-from :
    (depth : ℕ) (q : Page) (o : Item) → Contains (shrink_root q depth).root o → Stored o q
unfolding shrink_root
shrink_root-from depth (leaf count key child) o st = st
shrink_root-from depth (node count key child) o st = elim (Bool-cases (count == 0)) [
  | inl no_key ↦ in_node 0 (omega arith) (rw no_key at st)
  | inr some_key ↦ rw some_key at st
]

shrink_root-keeps :
    (depth : ℕ) (q : Page) (o : Item) → Stored o q → Contains (shrink_root q depth).root o
unfolding shrink_root
shrink_root-keeps depth (leaf count key child) o st = st
shrink_root-keeps depth (node count key child) o (in_node i le st) =
    elim (Bool-cases (count == 0)) [
      | inl no_key ↦
          let z : i ≡ 0 = ground (arith, le) in rw no_key (subst (λ n. Stored o (child n)) z st)
      | inr some_key ↦ rw some_key (in_node i le st)
    ]

deletes_at :
    (root : Option Page) (depth k : ℕ)
    → LevelRoot root depth
    → Deletes
        (record { root = root; depth = depth })
        k
        (del_root (record { root = root; depth = depth }) k)
unfolding del_root
deletes_at none depth k l = absent λ o st. elim st [ ]
deletes_at (some p) depth k (d, e, g, s) =
    go (delete_from p k) refl
      (delete_from-Leaves d (root_least p) p k g s (root_bound p) (root_small d p s))
  where
    go :
        (x : Deleted)
        → delete_from p k ≡ x
        → Leaves d (root_least p) p k x
        → Deletes
            (record { root = some p; depth = depth })
            k
            (del_root (record { root = some p; depth = depth }) k)
    go _ z (enough {q} gq sq r) =
        let same = same_kind d (root_least p) p q s sq in
        rw (del_root, z) (taken (d, e, gq, subst (λ n. Shape d n q) same sq) r)
    go _ z (fewer {q} {obj} gq sq few r) =
        let same = same_kind d (root_least p - 1) p q s sq in
        rw (del_root, z)
          (taken (shrink_root-LevelTree d depth q e gq (subst (λ n. Shape d (n - 1) q) same sq)) (
            Removes-same (λ o. Stored o p) (λ o. Stored o q) (Contains (shrink_root q depth).root) k
              obj r (shrink_root-from depth q) (shrink_root-keeps depth q)))
    go _ z (last_one {obj} small level base st only) =
        rw (del_root, z)
          (taken refl (record {
            base = base;
            held = st;
            from = λ o x. elim x [ ];
            gone = λ o x. elim x [ ];
            keeps = λ o x. inl (only o x);
          }))
    go _ z (not_there others) = rw (del_root, z) (absent others)
    go _ z (clash full) = rw (del_root, z) (damaged refl full)

pub del_root-Deletes : (t : Tree) (k : ℕ) → LevelTree t → Deletes t k (del_root t k)
del_root-Deletes t k l = deletes_at t.root t.depth k l

-- In a tree in order whose leaves are all on the level that its depth says, and whose pages below
-- the root have at least 127 keys, wherever its pages are: either BTDel panics, as free_page
-- panics or reads behind its bitmap for one of the pages that BTDel gives back, or it ends.
-- Without an object that has the key as its base it then leaves the tree as it is. Else it takes
-- that object out and no other, and the tree is again in order, with its leaves on the level that
-- the new depth says and its pages filled; or some page is full and the tree is damaged.
pub bt_del-Deletes :
    (address : Place → ℕ) (pool : PagePool) (t : Tree) (k : ℕ)
    → LevelTree t
    → Ends address pool t k (Deletes t k) (bt_del address pool t k)
bt_del-Deletes address pool t k l =
    bt_del-Ends address pool t k (Deletes t k) (del_root-Deletes t k l)
