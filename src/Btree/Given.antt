-- ===== src/Btree/Given.antt =====
-- The pages that `BTDel` of kernel/lib/klibc/btree.c gives back to the pool, and `BTDel` with the pool.
use mungi.Common.{
  ℕ, arith, ◌≡◌, refl, Option, none, some, List, [], ◌∷◌, ◌++◌, ◌==◌, ltb, if◌then◌else◌,
}
use mungi.Common.Arrays.{update}
use mungi.Common.Checked.{Checked, done, panic, ◌>>=◌}
use mungi.Btree.{Item, Page, node, leaf, page_search}
use mungi.Btree.Insert.{Body, min_key}
use mungi.Btree.Pool.{PagePool, free_page}
use mungi.Btree.Delete.{
  page_count, Deleted, deleted, too_few, emptied, broken, missing, unread, rekey, fat_sibling, body,
  delete_from, Tree, Deletion, del_root,
}

-- Where a page is in the tree: the indices of the children from the root on.
abbrev pub Place : Type 0
Place = List ℕ

abbrev each : {A B : Type 0} → (A → B) → List A → List B
each f [] = []
each f (x ∷ xs) = f x ∷ each f xs

-- The call of `free_page` in `BTCollapse`, where `repair` comes to it: the right page.
unfoldable pub given_repair : Body Page → ℕ → List Place
given_repair b hi =
    let sibling = fat_sibling b hi in
    if ltb b.count sibling
    then []
    else if ltb min_key (page_count (b.child sibling))
    then []
    else ((if ltb hi sibling then sibling else hi) ∷ []) ∷ []

-- The pages given back in an internal page, with those given back below the child at the index.
unfoldable pub given_node : Body Page → ℕ → ℕ → List Place → Deleted → List Place
given_node b k hi below (too_few q obj) =
    each (λ place. hi ∷ place) below
    ++ given_repair (rekey (record b { child = update b.child hi q }) hi k) hi
given_node b k hi below (deleted q obj) = each (λ place. hi ∷ place) below
given_node b k hi below (emptied obj) = each (λ place. hi ∷ place) below
given_node b k hi below (broken obj) = each (λ place. hi ∷ place) below
given_node b k hi below missing = each (λ place. hi ∷ place) below
given_node b k hi below unread = each (λ place. hi ∷ place) below

-- The pages that `BTDelete` gives back, the first one first.
unfoldable pub given_from : Page → ℕ → List Place
unfolding page_search
given_from (leaf count key child) k = []
given_from (node count key child) k = elim (page_search count key k 0 count) [
  | none ↦ []
  | some hi ↦
      given_node (body count key child) k hi (given_from (child hi) k) (delete_from (child hi) k)
]

-- `BTDel` gives the root back if it has no object, or no key and one child.
unfoldable pub given_root : Deleted → List Place
given_root (too_few (node count key child) obj) = if count == 0 then [] ∷ [] else []
given_root (too_few (leaf count key child) obj) = []
given_root (emptied obj) = [] ∷ []
given_root (deleted q obj) = []
given_root (broken obj) = []
given_root missing = []
given_root unread = []

unfoldable pub given : Tree → ℕ → List Place
given t k = elim t.root [
  | none ↦ []
  | some root ↦ given_from root k ++ given_root (delete_from root k)
]

-- The calls of `free_page` for the pages, which are at the addresses.
unfoldable pub free_pages : (Place → ℕ) → PagePool → List Place → Checked PagePool
free_pages address pool [] = done pool
free_pages address pool (place ∷ places) =
    free_page pool (address place) >>= λ rest. free_pages address rest places

-- `BTDel`, for a tree whose pages are at the addresses: the pool, and what it leaves; `panic` if a call
-- of `free_page` panics. What it leaves is `none` where it returns, but a page has lost a child or what
-- it read was not a page. The source gives a page back between its writes into other pages; it does not
-- read the page again.
unfoldable pub bt_del :
    (Place → ℕ) → PagePool → Tree → ℕ → Checked (PagePool × Option (Deletion × Tree × Option Item))
bt_del address pool t k = free_pages address pool (given t k) >>= λ rest. done (rest, del_root t k)

-- How `BTDel` ends: a call of `free_page` for one of the pages that it gives back panics, or all of them
-- return, and what it leaves is as the predicate says.
pub data Ends (address : Place → ℕ) (pool : PagePool) (t : Tree) (k : ℕ)
    (P : Option (Deletion × Tree × Option Item) → Type 0)
    : Checked (PagePool × Option (Deletion × Tree × Option Item)) → Type 0 where
  page_panic : free_pages address pool (given t k) ≡ panic → Ends address pool t k P panic
  returned :
      {rest : PagePool} {x : Option (Deletion × Tree × Option Item)}
      → free_pages address pool (given t k) ≡ done rest
      → P x
      → Ends address pool t k P (done (rest, x))

pub bt_del-Ends :
    (address : Place → ℕ) (pool : PagePool) (t : Tree) (k : ℕ)
    (P : Option (Deletion × Tree × Option Item) → Type 0)
    → P (del_root t k)
    → Ends address pool t k P (bt_del address pool t k)
unfolding bt_del
bt_del-Ends address pool t k P h = go (free_pages address pool (given t k)) refl
  where
    go :
        (m : Checked PagePool)
        → free_pages address pool (given t k) ≡ m
        → Ends address pool t k P (
            ◌>>=◌ {B = PagePool × Option (Deletion × Tree × Option Item)} m
              (λ rest. done (rest, del_root t k)))
    go (done rest) e = returned e h
    go panic e = page_panic e

-- What `BTDel` leaves where it returns.
pub bt_del-done :
    (address : Place → ℕ) (pool rest : PagePool) (t : Tree) (k : ℕ)
    (x : Option (Deletion × Tree × Option Item))
    → bt_del address pool t k ≡ done (rest, x)
    → del_root t k ≡ x
unfolding bt_del
bt_del-done address pool rest t k x h = go (free_pages address pool (given t k)) h
  where
    go :
        (m : Checked PagePool)
        → ◌>>=◌ {B = PagePool × Option (Deletion × Tree × Option Item)} m
            (λ u. done (u, del_root t k))
          ≡ done (rest, x)
        → del_root t k ≡ x
    go (done u) e = ground (arith, e)
    go panic e = ground (arith, e)
