-- ===== src/Btree.antt =====
-- kernel/lib/klibc/btree.c, the B+ tree of intervals behind the object table: the search in a page and
-- in the tree, and the changes of one page.
pub mod Keys
pub mod Search
pub mod Insert
pub mod Share
pub mod Delete
pub mod Given
pub mod Levels
pub mod Undo
pub mod Pool
use mungi.Common.{
  ℕ, zero, suc, ◌+◌, ◌-◌, ◌/◌, Bool, true, false, not, ◌&&◌, Option, none, some, List, [], ◌∷◌,
  ◌==◌, leb, ltb, if◌then◌else◌,
}
use mungi.Common.Arrays.{Array, update}

-- What the tree sees of an object: its extent.
pub record Item : Type 0 where
  pub obj : ℕ
  pub base : ℕ
  pub limit : ℕ

-- `BTObjMatch`.
abbrev pub obj_match : Item → ℕ → Bool
obj_match o key = leb o.base key && ltb key o.limit

-- A `BTPage` with its `count` keys: its children are pages, or objects in a leaf.
pub data Page : Type 0 where
  node : (count : ℕ) → Array ℕ → (ℕ → Page) → Page
  leaf : (count : ℕ) → Array ℕ → (ℕ → Item) → Page

-- The binary search in a page, between `lo` and `hi`: the index of the child to go to.
unfoldable pub page_search : ℕ → Array ℕ → ℕ → ℕ → ℕ → Option ℕ
page_search zero key k lo hi = if ltb lo hi then none else some hi
page_search (suc fuel) key k lo hi = elim (ltb lo hi) [
  | false ↦ some hi
  | true ↦
      let mid = (lo + hi) / 2 in
      elim (key mid == k) [
        | true ↦ some (mid + 1)
        | false ↦ elim (ltb k (key mid)) [
          | true ↦ page_search fuel key k lo mid
          | false ↦ page_search fuel key k (mid + 1) hi
        ]
      ]
]

-- Whether `BTSearch` returns `BT_FOUND` or `BT_NOT_FOUND`; `no_fuel` if a page's search ran out.
pub data Outcome : Type 0 where
  found not_found : Item → Outcome
  no_fuel : Outcome

-- The descent from the page to a leaf. The search in a page has fuel for its number of keys.
pub search_from : Page → ℕ → Outcome
unfolding page_search
search_from (leaf count key child) k = elim (page_search count key k 0 count) [
  | none ↦ no_fuel
  | some i ↦ if obj_match (child i) k then found (child i) else not_found (child i)
]
search_from (node count key child) k = elim (page_search count key k 0 count) [
  | none ↦ no_fuel
  | some i ↦ search_from (child i) k
]

-- The status code, and `*obj` if it was written. `none` is the empty tree.
pub data Status : Type 0 where
  bt_found bt_not_found : Status

pub bt_search : Option Page → ℕ → Option (Status × Option Item)
unfolding search_from
bt_search none k = some (bt_not_found, none)
bt_search (some root) k = elim (search_from root k) [
  | no_fuel ↦ none
  | found o ↦ some (bt_found, some o)
  | not_found o ↦ some (bt_not_found, some o)
]

-- What `BTModify` hands back: the way to the object's pointer, as the child's index on every page.
pub modify_from : Page → ℕ → Option (Status × List ℕ)
unfolding page_search
modify_from (leaf count key child) k = elim (page_search count key k 0 count) [
  | none ↦ none
  | some i ↦ some (if obj_match (child i) k then bt_found else bt_not_found, i ∷ [])
]
modify_from (node count key child) k = elim (page_search count key k 0 count) [
  | none ↦ none
  | some i ↦ elim (modify_from (child i) k) [ none ↦ none | some (s, way) ↦ some (s, i ∷ way) ]
]

-- `none` is the empty tree, for which no handle is written. Out of fuel the result is `none`.
unfoldable pub bt_modify : Option Page → ℕ → Option (Status × List ℕ)
unfolding modify_from
bt_modify none k = some (bt_not_found, [])
bt_modify (some root) k = modify_from root k
