-- ===== src/Btree/Insert/Short.antt =====
-- `BTInsert` of kernel/lib/klibc/btree.c reports a lack of pages only where there is one.
use mungi.Common.{
  ℕ, suc, ◌≡◌, refl, Bool, false, ◌&&◌, ◌||◌, Option, ◌==◌, ltb, Bool-cases, inl, inr,
}
use mungi.Common.Int.{ℤ}
use mungi.Btree.{Item, obj_match, Page, node, leaf}
use mungi.Btree.Insert.{
  Body, Place, duplicate, at, no_fuel, insert_place, insert_leaf, insert_from, insert_node,
  out_of_fuel, put_in, overlaps, item_key, leaf_of, node_of, Inserted, ended, promoted, bt_ok,
  bt_duplicate, bt_overlap, bt_alloc_fail, max_key,
}

-- Where the call ends for want of a page, none was found at some depth.
abbrev pub Short : (ℕ → Bool) → Inserted → Type 0
Short memory (ended bt_alloc_fail p ngb) = (d : ℕ) × (memory d ≡ false)
Short memory (ended bt_ok p ngb) = Unit {0}
Short memory (ended bt_duplicate p ngb) = Unit {0}
Short memory (ended bt_overlap p ngb) = Unit {0}
Short memory (promoted l k r ngb) = Unit {0}
Short memory out_of_fuel = Unit {0}

put_in-Short :
    {A : Type 0} (page : Body A → Page) (key_of : A → ℕ) (memory : ℕ → Bool) (d : ℕ) (b : Body A)
    (place : ℤ) (k : ℕ) (p : A) (ngb : Option Item)
    → Short memory (put_in page key_of (memory d) b place k p ngb)
unfolding put_in
put_in-Short page key_of memory d b place k p ngb = elim (Bool-cases (ltb b.count max_key)) [
  | inl room ↦ rw (put_in, room) tt
  | inr full ↦ elim (Bool-cases (memory d)) [
    | inl some_page ↦ rw (put_in, full, some_page) tt
    | inr no_page ↦ rw (put_in, full, no_page) (d, no_page)
  ]
]

insert_leaf-Short :
    (memory : ℕ → Bool) (d : ℕ) (b : Body Item) (obj : Item) (hi : ℕ)
    → Short memory (insert_leaf (memory d) b obj hi)
unfolding insert_leaf
insert_leaf-Short memory d b obj hi =
    elim (Bool-cases (ltb hi b.count && obj_match obj (b.key hi))) [
      | inl over ↦ rw (insert_leaf, over) tt
      | inr free ↦
          elim (Bool-cases
            (obj_match (b.child hi) obj.base || hi == 0 && overlaps obj (b.child 0))) [
              | inl over ↦ rw (insert_leaf, free, over) tt
              | inr clear ↦
                  rw (insert_leaf, free, clear)
                    (put_in-Short leaf_of item_key memory d b _ obj.base obj _)
            ]
    ]

insert_node-Short :
    (page_key : Page → ℕ) (memory : ℕ → Bool) (d : ℕ) (b : Body Page) (hi : ℕ) (x : Inserted)
    → Short memory x
    → Short memory (insert_node page_key (memory d) b hi x)
unfolding insert_node
insert_node-Short page_key memory d b hi (ended bt_ok p ngb) s = tt
insert_node-Short page_key memory d b hi (ended bt_duplicate p ngb) s = tt
insert_node-Short page_key memory d b hi (ended bt_overlap p ngb) s = tt
insert_node-Short page_key memory d b hi (ended bt_alloc_fail p ngb) s = s
insert_node-Short page_key memory d b hi (promoted l k r ngb) s =
    put_in-Short node_of page_key memory d _ _ k r ngb
insert_node-Short page_key memory d b hi out_of_fuel s = tt

pub insert_from-Short :
    (page_key : Page → ℕ) (memory : ℕ → Bool) (d : ℕ) (p : Page) (obj : Item)
    → Short memory (insert_from page_key memory d p obj)
unfolding insert_from
insert_from-Short page_key memory d (leaf count key child) obj =
    go (insert_place count key obj.base 0 count) refl
  where
    go :
        (x : Place)
        → insert_place count key obj.base 0 count ≡ x
        → Short memory (insert_from page_key memory d (leaf count key child) obj)
    go duplicate z = rw (insert_from, z) tt
    go no_fuel z = rw (insert_from, z) tt
    go (at hi) z =
        rw (insert_from, z)
          (insert_leaf-Short memory d (record { count = count; key = key; child = child }) obj hi)
insert_from-Short page_key memory d (node count key child) obj =
    go (insert_place count key obj.base 0 count) refl
      (λ i. insert_from-Short page_key memory (suc d) (child i) obj)
  where
    go :
        (x : Place)
        → insert_place count key obj.base 0 count ≡ x
        → ((i : ℕ) → Short memory (insert_from page_key memory (suc d) (child i) obj))
        → Short memory (insert_from page_key memory d (node count key child) obj)
    go duplicate z later = rw (insert_from, z) tt
    go no_fuel z later = rw (insert_from, z) tt
    go (at hi) z later = elim (Bool-cases (ltb hi count && obj_match obj (key hi))) [
      | inl over ↦ rw (insert_from, z, over) tt
      | inr free ↦
          rw (insert_from, z, free)
            (insert_node-Short page_key memory d
              (record { count = count; key = key; child = child }) hi
              (insert_from page_key memory (suc d) (child hi) obj) (later hi))
    ]
