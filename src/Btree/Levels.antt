-- ===== src/Btree/Levels.antt =====
-- The shape of a tree of kernel/lib/klibc/btree.c after `BTIns`.
use mungi.Common.{
  ℕ, suc, ◌+◌, ◌-◌, ◌≤◌, ◌<◌, ◌≡◌, refl, sym, ap, ◌∙◌, Bool, false, ◌&&◌, ◌||◌, Option, arith, ◌==◌,
  ltb, Bool-cases, inl, inr,
}
use mathlib.Core.Path.{subst}
use mungi.Common.Int.{ℤ, pos, negsuc, ltb_ℤ, ◌-ℤ◌}
use mungi.Btree.{Item, obj_match, Page, node, leaf}
use mungi.Btree.Insert.{
  Body, Place, insert_place, insert_leaf, insert_from, insert_node, insert_page, split_page,
  tail_from, out_of_fuel, put_in, overlaps, item_key, leaf_of, node_of, Inserted, ended, promoted,
  max_key, min_key, bt_ok, bt_duplicate, bt_overlap, bt_alloc_fail,
}
use mungi.Btree.Insert.Grow.{insert_page-Grown}
use mungi.Btree.Insert.Split.{Parts, split_page-Parts}
use mungi.Btree.Insert.Members.{Every, Grown-Every, Cut-Every-left, Cut-Every-right}
use mungi.Btree.Insert.Find.{Found, equal, placed, insert_place-Found}
use mungi.Btree.Insert.Good.{Good, PutIn, in_page, in_two, in_none, put_in-PutIn}
use mungi.Btree.Insert.Node.{set_child, set_child_self, set_child_other}
use mungi.Btree.Insert.Tree.{ReadsBody, Reads}
use mungi.Btree.Delete.Shape.{Shape}

-- The shape of what a call of `BTInsert` leaves, if it did not lack a page.
abbrev pub Shapes : ℕ → ℕ → Inserted → Type 0
Shapes d least (ended bt_ok p ngb) = Shape d least p
Shapes d least (ended bt_duplicate p ngb) = Shape d least p
Shapes d least (ended bt_overlap p ngb) = Shape d least p
Shapes d least (ended bt_alloc_fail p ngb) = Unit {0}
Shapes d least (promoted l k r ngb) = Shape d min_key l × Shape d min_key r
Shapes d least out_of_fuel = Unit {0}

insert_page-count :
    {A : Type 0} (key_of : A → ℕ) (b : Body A) (place : ℤ) (k : ℕ) (p : A)
    → (insert_page key_of b place k p).count ≡ b.count + 1
unfolding insert_page
insert_page-count key_of b (pos hi) k p = refl
insert_page-count key_of b (negsuc n) k p = refl

split_page-counts :
    {A : Type 0} (most least : ℕ) (key_of : A → ℕ) (b : Body A) (place : ℤ) (k : ℕ) (p : A)
    → 0 < least
    → least < most
    → ((split_page most least key_of b place k p).0.count ≡ least)
      × ((split_page most least key_of b place k p).2.count ≡ most - least)
unfolding split_page tail_from
split_page-counts most least key_of b place k p z h = elim (Bool-cases (ltb_ℤ place (pos least))) [
  | inl left ↦
      let n = insert_page-count key_of (record b { count = least - 1 }) place k p in
      rw (split_page, left) (omega (arith, n, z), refl)
  | inr right ↦
      rw (split_page, right)
        (
          refl,
          omega (
            arith,
            insert_page-count key_of (tail_from (least + 1) (most - least - 1) b)
                (place -ℤ pos (least + 1)) k p,
            h,
          ),
        )
]

put_in_leaf-Shapes :
    (d least : ℕ) (memory : Bool) (b : Body Item) (place : ℤ) (obj : Item) (ngb : Option Item)
    → Shape d least (leaf_of b)
    → Shapes d least (put_in leaf_of item_key memory b place obj.base obj ngb)
unfolding put_in
put_in_leaf-Shapes d least memory b place obj ngb (level, size) =
    let n = insert_page-count item_key b place obj.base obj in
    let (l, r) =
      split_page-counts max_key min_key item_key b place obj.base obj (omega arith) (omega arith) in
    elim (Bool-cases (ltb b.count max_key)) [
      | inl room ↦ rw (put_in, room) (level, omega (arith, size, n))
      | inr full ↦ elim (Bool-cases memory) [
        | inl some_page ↦
            rw (put_in, full, some_page) ((level, omega (arith, l)), (level, omega (arith, r)))
        | inr no_page ↦ rw (put_in, full, no_page) tt
      ]
    ]

insert_leaf-Shapes :
    (d least : ℕ) (memory : Bool) (b : Body Item) (obj : Item) (hi : ℕ)
    → Shape d least (leaf_of b)
    → Shapes d least (insert_leaf memory b obj hi)
unfolding insert_leaf
insert_leaf-Shapes d least memory b obj hi s =
    elim (Bool-cases (ltb hi b.count && obj_match obj (b.key hi))) [
      | inl over ↦ rw (insert_leaf, over) s
      | inr free ↦
          elim (Bool-cases
            (obj_match (b.child hi) obj.base || hi == 0 && overlaps obj (b.child 0))) [
              | inl over ↦ rw (insert_leaf, free, over) s
              | inr clear ↦
                  rw (insert_leaf, free, clear) (put_in_leaf-Shapes d least memory b _ obj _ s)
            ]
    ]

-- A page that a child went into, with its children on one level.
PutIn-Shapes :
    (d below least : ℕ) (c : Body Page) (x : Inserted)
    → d ≡ suc below
    → least ≤ c.count
    → Every (Shape below min_key) c
    → PutIn node_of c x
    → Shapes d least x
PutIn-Shapes d below least c _ level size s (in_page h) = (below, level, size, s)
PutIn-Shapes d below least c _ level size s (in_two l r k n t) = (
  (
    below,
    level,
    omega (arith, t.left_count),
    Cut-Every-left (Shape below min_key) c l r min_key k t s,
  ),
  (
    below,
    level,
    omega (arith, n, t.right_count),
    Cut-Every-right (Shape below min_key) c l r min_key k t s,
  ),
)
PutIn-Shapes d below least c _ level size s in_none = tt

module _ (page_key : Page → ℕ) (memory : Bool) (d below least : ℕ) (b : Body Page) (hi : ℕ)
    (inside : hi ≤ b.count) (room : b.count ≤ max_key) (reads : ReadsBody page_key b)
    (level : d ≡ suc below) (size : least ≤ b.count) (shapes : Every (Shape below min_key) b) where
  set_child-Every :
      (q : Page) → Shape below min_key q → Every (Shape below min_key) (set_child b hi q)
  set_child-Every q s i le = elim (Bool-cases (i == hi)) [
    | inl same ↦
        let z : i ≡ hi = ground arith in
        subst (Shape below min_key) (sym (ap (set_child b hi q).child z ∙ set_child_self b hi q)) s
    | inr other ↦ subst (Shape below min_key) (sym (set_child_other b hi q i other)) (shapes i le)
  ]

  kept : (q : Page) → Shape below min_key q → Shape d least (node_of (set_child b hi q))
  kept q s = (below, level, size, set_child-Every q s)

  insert_node-Shapes :
      (x : Inserted) → Shapes below min_key x → Shapes d least (insert_node page_key memory b hi x)
  unfolding insert_node
  insert_node-Shapes (ended bt_ok q ngb) s = kept q s
  insert_node-Shapes (ended bt_duplicate q ngb) s = kept q s
  insert_node-Shapes (ended bt_overlap q ngb) s = kept q s
  insert_node-Shapes (ended bt_alloc_fail q ngb) s = tt
  insert_node-Shapes out_of_fuel s = tt
  insert_node-Shapes (promoted l k r ngb) (sl, sr) =
      let b' = set_child b hi l in
      let c = insert_page page_key b' (pos hi) k r in
      let n = insert_page-Grown page_key b' hi k r inside in
      PutIn-Shapes d below least c _ level (omega (arith, n.count, size))
        (Grown-Every (Shape below min_key) b' c hi k r inside n (set_child-Every l sl) sr)
        (put_in-PutIn node_of page_key memory b' (pos hi) k r ngb room n.count λ full.
          subst (λ most. Parts c min_key (split_page most min_key page_key b' (pos hi) k r)) full
            (split_page-Parts min_key page_key b' hi k r (omega arith) (omega (arith, full)) inside
              (read_split l full)))
    where
      read_split :
          (l : Page)
          → b.count ≡ max_key
          → hi ≡ min_key
          → page_key ((set_child b hi l).child (min_key + 1)) ≡ b.key min_key
      read_split l full e =
          let other : (min_key + 1 == hi) ≡ false = rw e refl in
          ap page_key (set_child_other b hi l (min_key + 1) other) ∙ reads full

pub insert_from-Shapes :
    (page_key : Page → ℕ) (memory : ℕ → Bool) (n d least : ℕ) (p : Page) (obj : Item)
    → Good p
    → Reads page_key p
    → Shape d least p
    → Shapes d least (insert_from page_key memory n p obj)
unfolding insert_from
insert_from-Shapes page_key memory n d least (leaf count key child) obj (le, g) reads s =
    go (insert_place count key obj.base 0 count) refl
      (insert_place-Found key count obj.base g.separated.sorted)
  where
    go :
        (x : Place)
        → insert_place count key obj.base 0 count ≡ x
        → Found key count obj.base x
        → Shapes d least (insert_from page_key memory n (leaf count key child) obj)
    go _ z equal = rw (insert_from, z) s
    go _ z (placed hi w) =
        rw (insert_from, z)
          (insert_leaf-Shapes d least (memory n)
            (record { count = count; key = key; child = child }) obj hi s)
insert_from-Shapes page_key memory n d least (node count key child) obj (le, sep, g) (reads, rs)
      (below, level, size, shapes) =
    go (insert_place count key obj.base 0 count) refl
      (insert_place-Found key count obj.base sep.sorted)
      (λ i h.
        insert_from-Shapes page_key memory (suc n) below min_key (child i) obj (g i h) (rs i h)
          (shapes i h))
  where
    go :
        (x : Place)
        → insert_place count key obj.base 0 count ≡ x
        → Found key count obj.base x
        → ((i : ℕ)
            → i ≤ count
            → Shapes below min_key (insert_from page_key memory (suc n) (child i) obj))
        → Shapes d least (insert_from page_key memory n (node count key child) obj)
    go _ z equal later = rw (insert_from, z) (below, level, size, shapes)
    go _ z (placed hi w) later = elim (Bool-cases (ltb hi count && obj_match obj (key hi))) [
      | inl over ↦ rw (insert_from, z, over) (below, level, size, shapes)
      | inr free ↦
          rw (insert_from, z, free)
            (insert_node-Shapes page_key (memory n) d below least
              (record { count = count; key = key; child = child }) hi w.inside le reads level size
              shapes (insert_from page_key memory (suc n) (child hi) obj) (later hi w.inside))
    ]
