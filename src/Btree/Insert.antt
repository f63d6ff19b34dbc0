-- ===== src/Btree/Insert.antt =====
-- Insertion into the B+ tree of kernel/lib/klibc/btree.c. What a page holds behind its `count` keys is
-- not read again; the source clears it.
pub mod Grow
pub mod Split
pub mod Members
pub mod Good
pub mod Halves
pub mod Leaf
pub mod Front
pub mod Node
pub mod Child
pub mod Find
pub mod Tree
pub mod Short
pub mod Root
pub mod Lookup
use mungi.Common.{
  ℕ, zero, suc, ◌+◌, ◌-◌, ◌/◌, Bool, true, false, not, ◌&&◌, ◌||◌, Option, none, some, ◌==◌, leb,
  ltb, if◌then◌else◌,
}
use mungi.Common.Arrays.{Array, update}
use mungi.Common.Int.{ℤ, pos, negsuc, ltb_ℤ, eqb_ℤ, ◌-ℤ◌}
use mungi.Btree.{Item, Page, node, leaf, obj_match}

abbrev pub max_key : ℕ
max_key = 254

abbrev pub min_key : ℕ
min_key = 127

-- The keys and children of a page, pages or objects.
pub record Body (A : Type 0) : Type 0 where
  pub count : ℕ
  pub key : Array ℕ
  pub child : ℕ → A

-- What `BTInsert` returns.
pub data Retval : Type 0 where
  bt_ok bt_duplicate bt_overlap bt_alloc_fail : Retval

-- `BTOverlaps`.
abbrev pub overlaps : Item → Item → Bool
overlaps o p = leb o.base p.base && ltb p.base o.limit || leb p.base o.base && ltb o.base p.limit

-- The binary search of `BTInsert`, which stops at a key that is equal.
pub data Place : Type 0 where
  duplicate : Place
  at : ℕ → Place
  no_fuel : Place

unfoldable pub insert_place : ℕ → Array ℕ → ℕ → ℕ → ℕ → Place
insert_place zero key k lo hi = if ltb lo hi then no_fuel else at hi
insert_place (suc fuel) key k lo hi = elim (ltb lo hi) [
  | false ↦ at hi
  | true ↦
      let mid = (lo + hi) / 2 in
      elim (key mid == k) [
        | true ↦ duplicate
        | false ↦ elim (ltb k (key mid)) [
          | true ↦ insert_place fuel key k lo mid
          | false ↦ insert_place fuel key k (mid + 1) hi
        ]
      ]
]

-- The entries from `lo` on, so many of them, move up by one, the last one first.
unfoldable pub move_up : {A : Type 0} → ℕ → ℕ → Array A → Array A
move_up zero lo f = f
move_up (suc n) lo f = move_up n lo (update f (lo + n + 1) (f (lo + n)))

-- `BTInsertPage`. At the front it reads the key of the first child as of an object (`key_of`).
unfoldable pub insert_page : {A : Type 0} → (A → ℕ) → Body A → ℤ → ℕ → A → Body A
insert_page key_of b (pos hi) k p = record {
  count = b.count + 1;
  key = update (move_up (b.count - hi) hi b.key) hi k;
  child = update (move_up (b.count - hi) (hi + 1) b.child) (hi + 1) p;
}
insert_page key_of b (negsuc n) k p = record {
  count = b.count + 1;
  key = update (move_up b.count 0 b.key) 0 (key_of (b.child 0));
  child = update (update (move_up b.count 1 b.child) 1 (b.child 0)) 0 p;
}

-- The new page: `n` keys, and the children, from the index on.
unfoldable pub tail_from : {A : Type 0} → ℕ → ℕ → Body A → Body A
tail_from from n b = record {
  count = n;
  key = λ i. b.key (from + i);
  child = λ i. b.child (from + i);
}

-- A full page is split and the key inserted into one of the two halves: the left page, the key
-- between them, the right page. `most` and `least` are `BT_MAXKEY` and `BT_MINKEY`.
unfoldable pub split_page :
    {A : Type 0} → ℕ → ℕ → (A → ℕ) → Body A → ℤ → ℕ → A → Body A × ℕ × Body A
split_page most least key_of b hi k p =
    if ltb_ℤ hi (pos least)
    then (
      insert_page key_of (record b { count = least - 1 }) hi k p,
      b.key (least - 1),
      tail_from least (most - least) b,
    )
    else (
      record b { count = least },
      if eqb_ℤ hi (pos least) then k else b.key least,
      insert_page key_of (tail_from (least + 1) (most - least - 1) b) (hi -ℤ pos (least + 1)) k p,
    )

-- What a call of `BTInsert` leaves: the page and the code, or on `BT_PROMOTION` the two pages and the
-- key between them; and `*ngb`, if it was written.
pub data Inserted : Type 0 where
  ended : Retval → Page → Option Item → Inserted
  promoted : Page → ℕ → Page → Option Item → Inserted
  out_of_fuel : Inserted

abbrev pub leaf_of : Body Item → Page
leaf_of b = leaf b.count b.key b.child

abbrev pub node_of : Body Page → Page
node_of b = node b.count b.key b.child

abbrev pub promotion : {A : Type 0} → (Body A → Page) → Option Item → Body A × ℕ × Body A → Inserted
promotion page ngb (l, median, r) = promoted (page l) median (page r) ngb

-- The end of `BTInsert`: the key and the child go into the page, which is split if it is full.
-- `memory` says whether `alloc_page` finds a page.
unfoldable pub put_in :
    {A : Type 0} → (Body A → Page) → (A → ℕ) → Bool → Body A → ℤ → ℕ → A → Option Item → Inserted
put_in page key_of memory b hi k p ngb =
    if ltb b.count max_key
    then ended bt_ok (page (insert_page key_of b hi k p)) ngb
    else if memory
    then promotion page ngb (split_page max_key min_key key_of b hi k p)
    else ended bt_alloc_fail (page b) ngb

abbrev pub item_key : Item → ℕ
item_key o = o.base

-- `BTInsert` in a leaf, at the place that the search gave.
unfoldable pub insert_leaf : Bool → Body Item → Item → ℕ → Inserted
insert_leaf memory b obj hi =
    if ltb hi b.count && obj_match obj (b.key hi)
    then ended bt_overlap (leaf_of b) none
    else if obj_match (b.child hi) obj.base || hi == 0 && overlaps obj (b.child 0)
    then ended bt_overlap (leaf_of b) none
    else let place = if hi == 0 && ltb obj.base (b.child 0).base then negsuc 0 else pos hi in
      put_in leaf_of item_key memory b place obj.base obj (some (b.child hi))

-- `BTInsert` in an internal page after the call for the child at the index.
unfoldable pub insert_node : (Page → ℕ) → Bool → Body Page → ℕ → Inserted → Inserted
insert_node page_key memory b hi (ended r p ngb) =
    ended r (node b.count b.key (update b.child hi p)) ngb
insert_node page_key memory b hi (promoted l k r ngb) =
    put_in node_of page_key memory (record b { child = update b.child hi l }) (pos hi) k r ngb
insert_node page_key memory b hi out_of_fuel = out_of_fuel

-- `BTInsert`. `memory d` says whether a page is found for the split of the page at depth `d`, and
-- `page_key` what the first word of a page is, read as an object's base.
unfoldable pub insert_from : (Page → ℕ) → (ℕ → Bool) → ℕ → Page → Item → Inserted
insert_from page_key memory d (leaf count key child) obj =
    elim (insert_place count key obj.base 0 count) [
      | no_fuel ↦ out_of_fuel
      | duplicate ↦ ended bt_duplicate (leaf count key child) none
      | at hi ↦ insert_leaf (memory d) (record { count = count; key = key; child = child }) obj hi
    ]
insert_from page_key memory d (node count key child) obj =
    elim (insert_place count key obj.base 0 count) [
      | no_fuel ↦ out_of_fuel
      | duplicate ↦ ended bt_duplicate (node count key child) none
      | at hi ↦
          if ltb hi count && obj_match obj (key hi)
          then ended bt_overlap (node count key child) none
          else insert_node page_key (memory d) (record { count = count; key = key; child = child })
              hi (insert_from page_key memory (suc d) (child hi) obj)
    ]

-- `BTIns` on a tree that is there: the code and the tree, `none` the empty one, and `*ngb`. `root_memory` says whether a page
-- is found for a new root; out of fuel there is no result.
unfoldable pub bt_ins :
    (Page → ℕ)
    → (ℕ → Bool)
    → Bool
    → Option Page
    → Item
    → Option (Retval × Option Page × Option Item)
bt_ins page_key memory root_memory none obj =
    if root_memory
    then some (bt_ok, some (leaf 0 (λ i. 0) (λ i. obj)), none)
    else some (bt_alloc_fail, none, none)
bt_ins page_key memory root_memory (some root) obj = elim (insert_from page_key memory 0 root obj) [
  | out_of_fuel ↦ none
  | ended r p ngb ↦ some (r, some p, ngb)
  | promoted l k r ngb ↦
      if root_memory
      then some (bt_ok, some (node 1 (λ i. k) (update (λ i. r) 0 l)), ngb)
      else some (bt_alloc_fail, some l, ngb)
]
