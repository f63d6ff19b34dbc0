-- ===== src/Btree/Delete/Shape.antt =====
-- The shape of a tree of kernel/lib/klibc/btree.c that deletions rely on, and what they are to give.
use mungi.Common.{ℕ, suc, ◌-◌, ◌≤◌, ◌<◌, ◌≡◌, sym, arith, ◌⊎◌}
use mathlib.Core.Path.{subst}
use mungi.Btree.{Item, Page, node, leaf}
use mungi.Btree.Search.{Stored}
use mungi.Btree.Insert.{max_key, min_key}
use mungi.Btree.Insert.Good.{Good}
use mungi.Btree.Delete.{Deleted, deleted, too_few, emptied, broken, missing, page_count}

-- All leaves stand so many levels below the page, which has at least so many keys; the pages below it
-- have the least number of keys or more.
abbrev pub Shape : ℕ → ℕ → Page → Type 0
Shape d least (leaf count key child) = (d ≡ 0) × (least ≤ count)
Shape d least (node count key child) =
    (below : ℕ) × (d ≡ suc below)
    × (least ≤ count)
    × ((i : ℕ) → i ≤ count → Shape below min_key (child i))

-- Some page has no room for a key.
pub data SomeFull : Page → Type 0 where
  full_leaf : {key : ℕ → ℕ} {child : ℕ → Item} → SomeFull (leaf max_key key child)
  full_node : {key : ℕ → ℕ} {child : ℕ → Page} → SomeFull (node max_key key child)
  full_below :
      {count : ℕ} {key : ℕ → ℕ} {child : ℕ → Page} (i : ℕ)
      → i ≤ count
      → SomeFull (child i)
      → SomeFull (node count key child)

-- Afterwards the object with the key is gone, and no other.
pub record Removes (old new : Item → Type 0) (k : ℕ) (obj : Item) : Type 0 where
  pub base : obj.base ≡ k
  pub held : old obj
  pub from : (o : Item) → new o → old o
  pub gone : (o : Item) → new o → ¬ (o.base ≡ k)
  pub keeps : (o : Item) → old o → (o ≡ obj) ⊎ new o

-- What a call of `BTDelete` for the page may leave.
pub data Leaves (d least : ℕ) (p : Page) (k : ℕ) : Deleted → Type 0 where
  enough :
      {q : Page} {obj : Item}
      → Good q
      → Shape d least q
      → Removes (λ o. Stored o p) (λ o. Stored o q) k obj
      → Leaves d least p k (deleted q obj)
  fewer :
      {q : Page} {obj : Item}
      → Good q
      → Shape d (least - 1) q
      → page_count q < min_key
      → Removes (λ o. Stored o p) (λ o. Stored o q) k obj
      → Leaves d least p k (too_few q obj)
  last_one :
      {obj : Item}
      → least ≡ 0
      → d ≡ 0
      → obj.base ≡ k
      → Stored obj p
      → ((o : Item) → Stored o p → o ≡ obj)
      → Leaves d least p k (emptied obj)
  not_there : ((o : Item) → Stored o p → ¬ (o.base ≡ k)) → Leaves d least p k missing
  clash : {obj : Item} → SomeFull p → Leaves d least p k (broken obj)

pub Shape-weaken : (d least less : ℕ) (p : Page) → less ≤ least → Shape d least p → Shape d less p
Shape-weaken d least less (leaf count key child) h (level, size) = (level, omega (arith, h, size))
Shape-weaken d least less (node count key child) h (below, level, size, s) =
    (below, level, omega (arith, h, size), s)

pub page_count-Shape : (d least : ℕ) (p : Page) → Shape d least p → least ≤ page_count p
page_count-Shape d least (leaf count key child) (level, size) = size
page_count-Shape d least (node count key child) (below, level, size, s) = size

pub page_count-Good : (p : Page) → Good p → page_count p ≤ max_key
page_count-Good (leaf count key child) (le, g) = le
page_count-Good (node count key child) (le, s, g) = le

pub page_count-SomeFull : (p : Page) → page_count p ≡ max_key → SomeFull p
page_count-SomeFull (leaf count key child) e =
    subst (λ n. SomeFull (leaf n key child)) (sym e) full_leaf
page_count-SomeFull (node count key child) e =
    subst (λ n. SomeFull (node n key child)) (sym e) full_node
