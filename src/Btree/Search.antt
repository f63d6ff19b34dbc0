-- ===== src/Btree/Search.antt =====
-- `BTSearch` of kernel/lib/klibc/btree.c finds what the tree holds.
use mungi.Common.{
  ℕ, ◌≤◌, ◌<◌, ◌≡◌, refl, true, false, Option, some, ltb, arith, Bool-cases, inl, inr,
}
use mungi.Common.Arrays.{Array}
use mungi.Btree.{
  Item, obj_match, Page, node, leaf, search_from, found, not_found, Outcome, Status, bt_not_found,
  bt_search, bt_found,
}
use mungi.Btree.Keys.{Sorted, Split, page_search-Split}

-- The object stands in a leaf below the page.
pub data Stored (o : Item) : Page → Type 0 where
  in_leaf :
      {count : ℕ} {key : Array ℕ} {child : ℕ → Item} (i : ℕ)
      → i ≤ count
      → child i ≡ o
      → Stored o (leaf count key child)
  in_node :
      {count : ℕ} {key : Array ℕ} {child : ℕ → Page} (i : ℕ)
      → i ≤ count
      → Stored o (child i)
      → Stored o (node count key child)

-- "All key values in child[j] are >= key[i], for j>i" and below it for j <= i; an object's extent
-- ends before the next key.
pub record Between (key : Array ℕ) (count i : ℕ) (o : Item) : Type 0 where
  pub from : (j : ℕ) → j < i → key j ≤ o.base
  pub to : (j : ℕ) → i ≤ j → j < count → o.limit ≤ key j

abbrev pub Keyed : Page → Type 0
Keyed (leaf count key child) =
    Sorted key count × ((i : ℕ) → i ≤ count → Between key count i (child i))
Keyed (node count key child) =
    Sorted key count
    × ((i : ℕ) → i ≤ count → Keyed (child i))
    × ((i : ℕ) → i ≤ count → (o : Item) → Stored o (child i) → Between key count i o)

-- The search in a page goes to the child that holds the key's object.
same_child :
    (key : Array ℕ) (count k i r : ℕ) (o : Item)
    → i ≤ count
    → Between key count i o
    → o.base ≤ k
    → k < o.limit
    → Split key k 0 count r
    → i ≡ r
same_child key count k i r o le w lo hi t = elim (Bool-cases (ltb i r)) [
  | inl less ↦ absurd (
      omega (
        arith,
        w.to i (omega arith) (ground (arith, t.below)),
        t.left i (omega arith) (ground arith),
      ))
  | inr more ↦ elim (Bool-cases (ltb r i)) [
    | inl greater ↦
        absurd (omega (arith, w.from r (ground arith), t.right r (omega arith) (ground arith)))
    | inr same ↦ ground arith
  ]
]

search_from-finds :
    {o : Item} {p : Page} (k : ℕ)
    → Keyed p
    → Stored o p
    → o.base ≤ k
    → k < o.limit
    → search_from p k ≡ found o
unfolding search_from
search_from-finds k w (in_leaf {count} {key} {child} i le e) lo hi =
    let (r, q, t) =
      page_search-Split count key k 0 count count w.0 (omega arith) (omega arith) (omega arith) in
    let inside : obj_match (child i) k ≡ true = rw e (ground arith) in
    let same = same_child key count k i r (child i) le (w.1 i le) (rw e lo) (rw e hi) t in
    rw (search_from, q, ← same, inside, e)
search_from-finds {o} k w (in_node {count} {key} {child} i le st) lo hi =
    let (r, q, t) =
      page_search-Split count key k 0 count count w.0 (omega arith) (omega arith) (omega arith) in
    let same = same_child key count k i r o le (w.2 i le o st) lo hi t in
    rw (search_from, q, ← same) (search_from-finds k (w.1 i le) st lo hi)

-- In a tree whose keys separate its children, BTSearch finds for an address the object whose
-- extent holds it, if there is one in the tree.
pub bt_search-finds :
    {o : Item} {root : Page} (k : ℕ)
    → Keyed root
    → Stored o root
    → o.base ≤ k
    → k < o.limit
    → bt_search (some root) k ≡ some (bt_found, some o)
unfolding bt_search
bt_search-finds k w st lo hi = rw (bt_search, search_from-finds k w st lo hi)

-- How a descent ends: at an object of the tree, which matches or not.
data Ends (p : Page) (k : ℕ) : Outcome → Type 0 where
  hit : (o : Item) → Stored o p → obj_match o k ≡ true → Ends p k (found o)
  miss : (o : Item) → Ends p k (not_found o)

search_from-Ends : (k : ℕ) (p : Page) → Keyed p → Ends p k (search_from p k)
unfolding search_from
search_from-Ends k (leaf count key child) w =
    let (r, q, t) =
      page_search-Split count key k 0 count count w.0 (omega arith) (omega arith) (omega arith) in
    elim (Bool-cases (obj_match (child r) k)) [
      | inl here ↦ rw (search_from, q, here) (hit (child r) (in_leaf r t.below refl) here)
      | inr other ↦ rw (search_from, q, other) (miss (child r))
    ]
search_from-Ends k (node count key child) w =
    let (r, q, t) =
      page_search-Split count key k 0 count count w.0 (omega arith) (omega arith) (omega arith) in
    rw (search_from, q) (in_child r t.below (search_from-Ends k (child r) (w.1 r t.below)))
  where
    in_child :
        (i : ℕ) {x : Outcome} → i ≤ count → Ends (child i) k x → Ends (node count key child) k x
    in_child i le (hit o st m) = hit o (in_node i le st) m
    in_child i le (miss o) = miss o

-- What `BTSearch` may answer: an object of the tree whose extent holds the address, or that there is
-- none.
pub data Answers (root : Page) (k : ℕ) : Option (Status × Option Item) → Type 0 where
  yes : (o : Item) → Stored o root → obj_match o k ≡ true → Answers root k (some (bt_found, some o))
  no :
      (o : Item)
      → ((x : Item) → Stored x root → obj_match x k ≡ false)
      → Answers root k (some (bt_not_found, some o))

answer :
    (k : ℕ) (root : Page) (x : Outcome)
    → Keyed root
    → search_from root k ≡ x
    → Ends root k x
    → Answers root k (bt_search (some root) k)
unfolding bt_search
answer k root x w e (hit o st m) = rw (bt_search, e) (yes o st m)
answer k root x w e (miss o) =
    rw (bt_search, e)
      (no o λ y st. elim (Bool-cases (obj_match y k)) [
        | inr out ↦ out
        | inl here ↦
            absurd (ground (arith, e, search_from-finds k w st (ground arith) (ground arith)))
      ])

-- In a tree whose keys separate its children, BTSearch ends, and answers with an object of the
-- tree whose extent holds the address or, only if there is none, that it found none.
pub bt_search-Answers :
    (k : ℕ) (root : Page) → Keyed root → Answers root k (bt_search (some root) k)
bt_search-Answers k root w = answer k root (search_from root k) w refl (search_from-Ends k root w)
