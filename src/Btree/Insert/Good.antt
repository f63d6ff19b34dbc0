-- ===== src/Btree/Insert/Good.antt =====
-- The order of a tree of kernel/lib/klibc/btree.c, and what an insertion is to give.
use mungi.Common.{ℕ, ◌+◌, ◌≤◌, ◌<◌, ◌≡◌, refl, Bool, Option, arith, ltb, Bool-cases, inl, inr, ◌⊎◌}
use mathlib.Core.Path.{subst}
use mungi.Common.Int.{ℤ}
use mungi.Btree.{Item, Page, node, leaf}
use mungi.Btree.Search.{Stored, in_leaf, in_node, Keyed}
use mungi.Btree.Insert.{
  Body, insert_page, split_page, put_in, Inserted, ended, promoted, Retval, bt_ok, bt_duplicate,
  bt_overlap, bt_alloc_fail, max_key, min_key,
}
use mungi.Btree.Insert.Grow.{Separated}
use mungi.Btree.Insert.Split.{Cut, Parts}
use mungi.Btree.Insert.Members.{Within, Every}

abbrev pub Is : Item → Item → Type 0
Is x o = x ≡ o

abbrev pub Holds : Page → Item → Type 0
Holds p o = Stored o p

-- A leaf in order: each key is the base of the object behind it, and no extent is empty.
pub record GoodLeaf (b : Body Item) : Type 0 where
  pub separated : Separated Is b
  pub exact : (i : ℕ) → i < b.count → b.key i ≡ (b.child (i + 1)).base
  pub extents : Every (λ o. o.base < o.limit) b

-- A tree in order. No page has more keys than it has room for.
abbrev pub Good : Page → Type 0
Good (leaf count key child) =
    (count ≤ max_key) × GoodLeaf (record { count = count; key = key; child = child })
Good (node count key child) =
    (count ≤ max_key)
    × Separated Holds (record { count = count; key = key; child = child })
    × ((i : ℕ) → i ≤ count → Good (child i))

pub Good-Keyed : (p : Page) → Good p → Keyed p
Good-Keyed (leaf count key child) (le, g) =
    (g.separated.sorted, λ i h. g.separated.between i h (child i) refl)
Good-Keyed (node count key child) (le, s, g) =
    (s.sorted, (λ i h. Good-Keyed (child i) (g i h)), λ i h o st. s.between i h o st)

-- Some object of a page.
pub some_item : (p : Page) → (o : Item) × Stored o p
some_item (leaf count key child) = (child 0, in_leaf 0 (omega arith) refl)
some_item (node count key child) =
    let (o, st) = some_item (child 0) in (o, in_node 0 (omega arith) st)

pub extent-Good : (p : Page) (o : Item) → Good p → Stored o p → o.base < o.limit
extent-Good (leaf count key child) o (le, g) (in_leaf i h e) =
    subst (λ x. x.base < x.limit) e (g.extents i h)
extent-Good (node count key child) o (le, s, g) (in_node i h st) =
    extent-Good (child i) o (g i h) st

-- The three parts that a page is cut into are in order.
module _ {A : Type 0} (In : A → Item → Type 0) where
  pub Cut-Separated_left :
      (c l r : Body A) (m k : ℕ) → Cut c l r m k → Separated In c → Separated In l
  Cut-Separated_left c l r m k t s = record {
    sorted = λ i j h le.
        ground (arith, t.left_count, t.inside, t.left_key i, t.left_key j, s.sorted i j h);
    between = λ i le o q.
        let inside : i ≤ m = ground (arith, t.left_count) in
        let w =
          s.between i (omega (arith, inside, t.inside)) o
            (subst (λ x. In x o) (t.left_child i inside) q) in
        record {
          from = λ j h. ground (arith, t.left_key j, w.from j h);
          to = λ j h e. ground (arith, t.left_count, t.inside, t.left_key j, w.to j h);
        };
  }

  pub Cut-Separated_right :
      (c l r : Body A) (m k : ℕ) → Cut c l r m k → Separated In c → Separated In r
  Cut-Separated_right c l r m k t s = record {
    sorted = λ i j h le.
        ground
          (arith, t.right_count, t.right_key i, t.right_key j le, s.sorted (m + 1 + i) (m + 1 + j));
    between = λ i le o q.
        let w =
          s.between (m + 1 + i) (omega (arith, t.right_count, le)) o
            (subst (λ x. In x o) (t.right_child i le) q) in
        record {
          from = λ j h. ground (arith, t.right_key j, w.from (m + 1 + j));
          to = λ j h e. ground (arith, t.right_count, t.right_key j e, w.to (m + 1 + j));
        };
  }

  pub Cut-below :
      (c l r : Body A) (m k : ℕ) (o : Item)
      → Cut c l r m k
      → Separated In c
      → Within (λ x. In x o) l
      → o.limit ≤ k
  Cut-below c l r m k o t s (i, le, q) =
      let inside : i ≤ m = ground (arith, t.left_count) in
      let w =
        s.between i (omega (arith, inside, t.inside)) o
          (subst (λ x. In x o) (t.left_child i inside) q) in
      ground (arith, t.middle, w.to m inside t.inside)

  pub Cut-above :
      (c l r : Body A) (m k : ℕ) (o : Item)
      → Cut c l r m k
      → Separated In c
      → Within (λ x. In x o) r
      → k ≤ o.base
  Cut-above c l r m k o t s (i, le, q) =
      let w =
        s.between (m + 1 + i) (omega (arith, t.right_count, le)) o
          (subst (λ x. In x o) (t.right_child i le) q) in
      ground (arith, t.middle, w.from m)

-- The two ways in which `put_in` ends, and the lack of a page.
pub data PutIn {A : Type 0} (page : Body A → Page) (c : Body A) : Inserted → Type 0 where
  in_page : {ngb : Option Item} → c.count ≤ max_key → PutIn page c (ended bt_ok (page c) ngb)
  in_two :
      {ngb : Option Item} (l r : Body A) (k : ℕ)
      → c.count ≡ max_key + 1
      → Cut c l r min_key k
      → PutIn page c (promoted (page l) k (page r) ngb)
  in_none : {q : Page} {ngb : Option Item} → PutIn page c (ended bt_alloc_fail q ngb)

pub put_in-PutIn :
    {A : Type 0} (page : Body A → Page) (key_of : A → ℕ) (memory : Bool) (b : Body A) (place : ℤ)
    (k : ℕ) (p : A) (ngb : Option Item)
    → b.count ≤ max_key
    → (insert_page key_of b place k p).count ≡ b.count + 1
    → (b.count ≡ max_key
        → Parts
            (insert_page key_of b place k p)
            min_key
            (split_page max_key min_key key_of b place k p))
    → PutIn page (insert_page key_of b place k p) (put_in page key_of memory b place k p ngb)
unfolding put_in
put_in-PutIn page key_of memory b place k p ngb le grown parts =
    elim (Bool-cases (ltb b.count max_key)) [
      | inl room ↦ rw (put_in, room) (in_page (ground (arith, grown)))
      | inr full ↦ elim (Bool-cases memory) [
        | inl some_page ↦
            let (l, median, r) = split_page max_key min_key key_of b place k p in
            rw (put_in, full, some_page)
              (in_two l r median (ground (arith, grown)) (parts (ground arith)))
        | inr no_page ↦ rw (put_in, full, no_page) in_none
      ]
    ]

-- Afterwards there are the objects from before, and the new one.
pub record Adds (old new : Item → Type 0) (obj : Item) : Type 0 where
  pub from : (o : Item) → new o → old o ⊎ (o ≡ obj)
  pub keeps : (o : Item) → old o → new o
  pub holds : new obj

abbrev pub Refusal : Retval → Type 0
Refusal r = (r ≡ bt_duplicate) ⊎ (r ≡ bt_overlap)

-- What a call of `BTInsert` for the page may leave.
pub data Gives (p : Page) (obj : Item) : Inserted → Type 0 where
  grown :
      {q : Page} {ngb : Option Item}
      → Good q
      → Adds (λ o. Stored o p) (λ o. Stored o q) obj
      → Gives p obj (ended bt_ok q ngb)
  halved :
      {l r : Page} {k : ℕ} {ngb : Option Item}
      → Good l
      → Good r
      → ((o : Item) → Stored o l → o.limit ≤ k)
      → ((o : Item) → Stored o r → k ≤ o.base)
      → Adds (λ o. Stored o p) (λ o. Stored o l ⊎ Stored o r) obj
      → Gives p obj (promoted l k r ngb)
  refused :
      {r : Retval} {q : Page} {ngb : Option Item}
      → Refusal r
      → Good q
      → ((o : Item) → Stored o q → Stored o p)
      → ((o : Item) → Stored o p → Stored o q)
      → Gives p obj (ended r q ngb)
  no_memory : {q : Page} {ngb : Option Item} → Gives p obj (ended bt_alloc_fail q ngb)
