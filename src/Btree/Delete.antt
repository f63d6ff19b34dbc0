-- ===== src/Btree/Delete.antt =====
-- Deletion from the B+ tree of kernel/lib/klibc/btree.c, but for the pages given back to the pool, which
-- Btree/Given adds.
pub mod Joined
pub mod Changed
pub mod Least
pub mod Shape
pub mod Leaf
pub mod Pages
pub mod Siblings
pub mod Moves
pub mod Neighbours
pub mod Shares
pub mod Merges
pub mod Lacking
pub mod Repair
pub mod Rekey
pub mod Node
pub mod Root
pub mod Lookup
use mungi.Common.{
  ℕ, zero, suc, ◌+◌, ◌-◌, ◌/◌, Bool, true, false, not, Option, none, some, ◌==◌, leb, ltb,
  if◌then◌else◌,
}
use mungi.Common.Arrays.{Array, update}
use mungi.Common.Int.{pos, ◌-ℤ◌}
use mungi.Btree.{Item, Page, node, leaf, page_search}
use mungi.Btree.Insert.{Body, max_key, min_key, leaf_of, node_of}
use mungi.Btree.Share.{delete_page, collapse, Shared, redistribute}

-- `GetLeastKey`.
pub least_key : Page → ℕ
least_key (leaf count key child) = (child 0).base
least_key (node count key child) = least_key (child 0)

abbrev pub page_count : Page → ℕ
page_count (leaf count key child) = count
page_count (node count key child) = count

-- What a call of `BTDelete` leaves. `deleted` is `BT_OK`, `too_few` is `BT_LESS_THAN_MIN`, both with
-- the page and the object; `emptied` is `BT_LESS_THAN_MIN` for a leaf without an object. `broken`: a
-- page has lost its first child. `unread`: a child is not there, or is of another kind than its
-- sibling, or is an empty leaf.
pub data Deleted : Type 0 where
  deleted too_few : Page → Item → Deleted
  emptied broken : Item → Deleted
  missing unread : Deleted

-- `BTDelete` in a leaf, at the index that the search gave.
unfoldable pub delete_leaf : Body Item → ℕ → ℕ → Deleted
delete_leaf b k hi =
    if not ((b.child hi).base == k)
    then missing
    else if b.count == 0
    then emptied (b.child hi)
    else if ltb (b.count - 1) min_key
    then too_few (leaf_of (delete_page b (pos hi -ℤ pos 1))) (b.child hi)
    else deleted (leaf_of (delete_page b (pos hi -ℤ pos 1))) (b.child hi)

-- The key in front of the child is set anew if it is the one that is deleted.
unfoldable pub rekey : Body Page → ℕ → ℕ → Body Page
rekey b zero k = b
rekey b (suc h) k = record b {
  key = if b.key h == k then update b.key h (least_key (b.child (suc h))) else b.key;
}

-- The sibling with more keys.
unfoldable pub fat_sibling : Body Page → ℕ → ℕ
fat_sibling b zero = 1
fat_sibling b (suc h) =
    if suc h == b.count
    then h
    else if ltb (page_count (b.child (suc h + 1))) (page_count (b.child h))
    then h
    else suc h + 1

abbrev pub body : {A : Type 0} → ℕ → Array ℕ → (ℕ → A) → Body A
body count key child = record { count = count; key = key; child = child }

abbrev pub shared_pages : {A : Type 0} → (Body A → Page) → Shared A → Bool × Page × ℕ × Page
shared_pages page s = (s.lost, page s.left, s.median, page s.right)

-- `BTRedistribute` on two pages: whether a child is lost, and what it leaves.
unfoldable pub redistribute_pages : Page → Page → Option (Bool × Page × ℕ × Page)
redistribute_pages (leaf n key child) (leaf m key' child') = some (
    shared_pages leaf_of
      (redistribute max_key (child' 0).base (body n key child) (body m key' child')))
redistribute_pages (node n key child) (node m key' child') = some (
    shared_pages node_of
      (redistribute max_key (least_key (child' 0)) (body n key child) (body m key' child')))
redistribute_pages (leaf n key child) (node m key' child') = none
redistribute_pages (node n key child) (leaf m key' child') = none

-- `BTCollapse` on two pages.
unfoldable pub collapse_pages : Page → Page → Option Page
collapse_pages (leaf n key child) (leaf m key' child') =
    some (leaf_of (collapse (child' 0).base (body n key child) (body m key' child')))
collapse_pages (node n key child) (node m key' child') =
    some (node_of (collapse (least_key (child' 0)) (body n key child) (body m key' child')))
collapse_pages (leaf n key child) (node m key' child') = none
collapse_pages (node n key child) (leaf m key' child') = none

unfoldable pub shared_in : Body Page → ℕ → ℕ → ℕ → Item → Option (Bool × Page × ℕ × Page) → Deleted
shared_in b med lo up obj none = unread
shared_in b med lo up obj (some (true, l, k, r)) = broken obj
shared_in b med lo up obj (some (false, l, k, r)) =
    deleted (node b.count (update b.key med k) (update (update b.child lo l) up r)) obj

unfoldable pub collapsed_in : Body Page → ℕ → ℕ → Item → Option Page → Deleted
collapsed_in b med lo obj none = unread
collapsed_in b med lo obj (some q) =
    let page = node_of (delete_page (record b { child = update b.child lo q }) (pos med)) in
    if ltb (b.count - 1) min_key then too_few page obj else deleted page obj

-- `BTDelete` after the call for a child has left too few keys in it. A page without a key has no
-- sibling for the child.
unfoldable pub repair : Body Page → ℕ → Item → Deleted
repair b hi obj =
    let sibling = fat_sibling b hi in
    let lo = if ltb hi sibling then hi else sibling in
    let up = if ltb hi sibling then sibling else hi in
    let med = (hi + sibling) / 2 in
    if ltb b.count sibling
    then unread
    else if ltb min_key (page_count (b.child sibling))
    then shared_in b med lo up obj (redistribute_pages (b.child lo) (b.child up))
    else collapsed_in b med lo obj (collapse_pages (b.child lo) (b.child up))

-- `BTDelete` in an internal page after the call for the child at the index.
unfoldable pub delete_node : Body Page → ℕ → ℕ → Deleted → Deleted
delete_node b k hi (deleted q obj) =
    deleted (node_of (rekey (record b { child = update b.child hi q }) hi k)) obj
delete_node b k hi (too_few q obj) =
    repair (rekey (record b { child = update b.child hi q }) hi k) hi obj
delete_node b k hi missing = missing
delete_node b k hi (broken obj) = broken obj
delete_node b k hi (emptied obj) = unread
delete_node b k hi unread = unread

-- `BTDelete`.
unfoldable pub delete_from : Page → ℕ → Deleted
unfolding page_search
delete_from (leaf count key child) k = elim (page_search count key k 0 count) [
  | none ↦ unread
  | some hi ↦ delete_leaf (body count key child) k hi
]
delete_from (node count key child) k = elim (page_search count key k 0 count) [
  | none ↦ unread
  | some hi ↦ delete_node (body count key child) k hi (delete_from (child hi) k)
]

-- A `GBTree`: the root, if there is one, and the number of levels.
pub record Tree : Type 0 where
  pub root : Option Page
  pub depth : ℕ

-- The code of `BTDel`.
pub data Deletion : Type 0 where
  del_ok del_not_found : Deletion

-- The root after `BT_LESS_THAN_MIN`: an internal page without a key gives way to its child.
unfoldable pub shrink_root : Page → ℕ → Tree
shrink_root (leaf count key child) depth = record {
  root = some (leaf count key child);
  depth = depth;
}
shrink_root (node count key child) depth =
    if count == 0
    then record { root = some (child 0); depth = depth - 1 }
    else record { root = some (node count key child); depth = depth }

-- `BTDel` but for its calls of `free_page`: the code, the tree, and `*obj`, if it was written. `none`
-- where a page is broken or what was read was not a page.
unfoldable pub del_root : Tree → ℕ → Option (Deletion × Tree × Option Item)
del_root t k = elim t.root [
  | none ↦ some (del_not_found, t, none)
  | some root ↦ elim (delete_from root k) [
    | deleted p obj ↦ some (del_ok, record { root = some p; depth = t.depth }, some obj)
    | too_few p obj ↦ some (del_ok, shrink_root p t.depth, some obj)
    | emptied obj ↦ some (del_ok, record { root = none; depth = 0 }, some obj)
    | missing ↦ some (del_not_found, t, none)
    | broken obj ↦ none
    | unread ↦ none
  ]
]
