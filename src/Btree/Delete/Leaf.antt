-- ===== src/Btree/Delete/Leaf.antt =====
-- `BTDelete` of kernel/lib/klibc/btree.c in a leaf.
use mungi.Common.{
  ℕ, ◌+◌, ◌-◌, ◌≤◌, ◌<◌, ◌≡◌, refl, sym, ap, false, arith, ◌==◌, ltb, Bool-cases, inl, inr, ◌⊎◌,
}
use mathlib.Core.Path.{subst}
use mungi.Common.Int.{pos, ◌-ℤ◌}
use mungi.Btree.{Item}
use mungi.Btree.Keys.{Split}
use mungi.Btree.Search.{Between, Stored, in_leaf}
use mungi.Btree.Insert.{Body, max_key, min_key, leaf_of}
use mungi.Btree.Insert.Good.{Is, GoodLeaf, Good}
use mungi.Btree.Share.{delete_page}
use mungi.Btree.Share.Shrunk.{
  Shrunk, delete_child-Shrunk, Shrunk-from, Shrunk-keeps, Shrunk-Every, Between-But,
  Shrunk-Separated,
}
use mungi.Btree.Delete.{delete_leaf}
use mungi.Btree.Delete.Shape.{Shape, Removes, Leaves, enough, fewer, last_one, not_there}

-- The objects on either side of the place that the search gives do not have the key.
pub other_side :
    (key : ℕ → ℕ) (count k hi i : ℕ) (o : Item)
    → Split key k 0 count hi
    → i ≤ count
    → (i == hi) ≡ false
    → Between key count i o
    → o.base < o.limit
    → ¬ (o.base ≡ k)
other_side key count k hi i o t le apart w e same = elim (Bool-cases (ltb i hi)) [
  | inl less ↦
      ground
        (arith, same, e, w.to i (omega arith) (ground (arith, t.below)), t.left i (omega arith))
  | inr more ↦
      ground (arith, same, w.from hi (ground arith), t.right hi (omega arith) (ground arith))
]

Shrunk-GoodLeaf : (b c : Body Item) (hi : ℕ) → Shrunk b c hi → GoodLeaf b → GoodLeaf c
Shrunk-GoodLeaf b c hi s g = record {
  separated =
      Shrunk-Separated Is b c hi s g.separated.sorted
        λ i le apart o q. Between-But (hi - 1) o (g.separated.between i le o q);
  exact = λ i h. elim (Bool-cases (ltb (i + 1) hi)) [
    | inl before ↦
        rw (s.key_before i (ground arith), s.child_before (i + 1) (ground arith))
          (g.exact i (omega (arith, h, s.count)))
    | inr behind ↦
        rw
          (
            s.key_behind i (ground arith) h,
            s.child_behind (i + 1) (ground arith) (omega (arith, h)),
          )
          (g.exact (i + 1) (omega (arith, h, s.count)))
  ];
  extents = Shrunk-Every (λ o. o.base < o.limit) b c hi s λ i le apart. g.extents i le;
}

pub Shrunk-Removes :
    (b c : Body Item) (k hi : ℕ)
    → GoodLeaf b
    → Split b.key k 0 b.count hi
    → (b.child hi).base ≡ k
    → Shrunk b c hi
    → Removes (λ o. Stored o (leaf_of b)) (λ o. Stored o (leaf_of c)) k (b.child hi)
Shrunk-Removes b c k hi g t e s = record {
  base = e;
  held = in_leaf hi t.below refl;
  from = λ o st. let (i, le, apart, q) = old o st in in_leaf i le q;
  gone = λ o st.
      let (i, le, apart, q) = old o st in
      let lies = g.separated.between i le o q in
      other_side b.key b.count k hi i o t le apart lies
        (subst (λ x. x.base < x.limit) q (g.extents i le));
  keeps = kept;
}
  where
    old :
        (o : Item)
        → Stored o (leaf_of c)
        → (i : ℕ) × (i ≤ b.count) × ((i == hi) ≡ false) × (b.child i ≡ o)
    old o (in_leaf i le q) = Shrunk-from (λ x. x ≡ o) b c hi s (i, le, q)

    kept : (o : Item) → Stored o (leaf_of b) → (o ≡ b.child hi) ⊎ Stored o (leaf_of c)
    kept o (in_leaf i le q) = elim (Bool-cases (i == hi)) [
      | inl same ↦ let z : i ≡ hi = ground arith in inl (sym (subst (λ n. b.child n ≡ o) z q))
      | inr apart ↦
          let (j, l, r) = Shrunk-keeps (λ x. x ≡ o) b c hi i s le apart q in inr (in_leaf j l r)
    ]

only_one : (b : Body Item) (o : Item) → b.count ≡ 0 → Stored o (leaf_of b) → o ≡ b.child 0
only_one b o z (in_leaf i le q) =
    let e : i ≡ 0 = omega (arith, le, z) in sym (subst (λ n. b.child n ≡ o) e q)

pub delete_leaf-Leaves :
    (d least : ℕ) (b : Body Item) (k hi : ℕ)
    → least ≤ min_key
    → b.count ≤ max_key
    → GoodLeaf b
    → Shape d least (leaf_of b)
    → Split b.key k 0 b.count hi
    → Leaves d least (leaf_of b) k (delete_leaf b k hi)
unfolding delete_leaf
delete_leaf-Leaves d least b k hi bound le g (level, size) t =
    elim (Bool-cases ((b.child hi).base == k)) [
      | inr other ↦
          rw (delete_leaf, other)
            (not_there λ o st. elim st [
              | in_leaf i h q ↦ elim (Bool-cases (i == hi)) [
                | inl same ↦
                    let z : i ≡ hi = ground arith in
                    let w = subst (λ n. b.child n ≡ o) z q in
                    λ e. ground (arith, other, ap (λ x. x.base) w, e)
                | inr apart ↦
                    other_side b.key b.count k hi i o t h apart (g.separated.between i h o q)
                      (subst (λ x. x.base < x.limit) q (g.extents i h))
              ]
            ])
      | inl same ↦ elim (Bool-cases (b.count == 0)) [
        | inl last ↦
            let z : b.count ≡ 0 = ground arith in
            let first : hi ≡ 0 = omega (arith, z, t.below) in
            rw (delete_leaf, same, last)
              (last_one (omega (arith, size, z)) level (ground arith) (in_leaf hi t.below refl)
                λ o st. rw first (only_one b o z st))
        | inr some_left ↦
            let c = delete_page b (pos hi -ℤ pos 1) in
            let s = delete_child-Shrunk b hi (ground arith) t.below in
            let good : Good (leaf_of c) =
              (omega (arith, le, s.count), Shrunk-GoodLeaf b c hi s g) in
            let r = Shrunk-Removes b c k hi g t (ground arith) s in
            elim (Bool-cases (ltb (b.count - 1) min_key)) [
              | inl few ↦
                  rw (delete_leaf, same, some_left, few)
                    (fewer good (level, omega (arith, size, s.count)) (ground (arith, s.count)) r)
              | inr many ↦
                  rw (delete_leaf, same, some_left, many)
                    (enough good (level, ground (arith, bound, s.count)) r)
            ]
      ]
    ]
