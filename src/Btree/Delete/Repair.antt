-- ===== src/Btree/Delete/Repair.antt =====
-- `BTDelete` of kernel/lib/klibc/btree.c in a page whose child has too few keys.
use mungi.Common.{
  ℕ, zero, suc, ◌+◌, ◌-◌, ◌/◌, ◌≤◌, ◌<◌, ◌≡◌, refl, sym, ap, true, false, arith, ◌==◌, ltb,
  Bool-cases, inl, inr, ◌⊎◌, if◌then◌else◌,
}
use mungi.Btree.Delete.Lacking.{Lacking, shared_in-Leaves, collapsed_in-Leaves}
use mathlib.Core.Path.{subst}
use mungi.Btree.{Item, Page}
use mungi.Btree.Insert.{Body, max_key, min_key}
use mungi.Btree.Delete.{
  Deleted, shared_in, collapsed_in, repair, fat_sibling, page_count, redistribute_pages,
  collapse_pages,
}
use mungi.Btree.Delete.Shape.{Shape, Shape-weaken, page_count-Shape, page_count-Good, Leaves}
use mungi.Btree.Delete.Moves.{Uneven}
use mungi.Btree.Delete.Neighbours.{Neighbours, collapse_pages-Merged, redistribute_pages-Halved}

-- The sibling is next to the child.
fat_sibling-Next :
    (c : Body Page) (hi : ℕ)
    → 0 < c.count
    → hi ≤ c.count
    → (fat_sibling c hi ≡ hi + 1) × (hi < c.count) ⊎ (fat_sibling c hi + 1 ≡ hi)
unfolding fat_sibling
fat_sibling-Next c zero z le = inl (omega arith, z)
fat_sibling-Next c (suc n) z le = ground arith

module _ (p : Page) (c : Body Page) (d below least k hi : ℕ) (obj : Item)
    (w : Lacking p c d below least k hi obj) where
  child-Shape : (i : ℕ) → i ≤ c.count → Shape below (min_key - 1) (c.child i)
  child-Shape i le = elim (Bool-cases (i == hi)) [
    | inl same ↦
        let z : i ≡ hi = ground arith in
        subst (λ n. Shape below (min_key - 1) (c.child n)) (sym z) w.few_shape
    | inr apart ↦
        Shape-weaken below min_key (min_key - 1) (c.child i) (omega arith) (w.others i le apart)
  ]

  -- Two neighbours, one of them the child.
  neighbours : (lo : ℕ) → lo < c.count → Neighbours below (c.child lo) (c.child (lo + 1)) (c.key lo)
  neighbours lo h = record {
    left_good = w.good.children lo (omega (arith, h));
    right_good = w.good.children (lo + 1) (omega (arith, h));
    left_shape = child-Shape lo (omega (arith, h));
    right_shape = child-Shape (lo + 1) (omega (arith, h));
    below = λ o st. (w.good.separated.between lo (omega (arith, h)) o st).to lo (omega arith) h;
    above =
        λ o st. (w.good.separated.between (lo + 1) (omega (arith, h)) o st).from lo (omega arith);
  }

  counts :
      (sibling lo : ℕ)
      → (hi ≡ lo) × (sibling ≡ lo + 1) ⊎ (hi ≡ lo + 1) × (sibling ≡ lo)
      → min_key ≤ page_count (c.child sibling)
      → (min_key < page_count (c.child sibling)
          → Uneven (page_count (c.child lo)) (page_count (c.child (lo + 1))))
        × ((page_count (c.child sibling) ≤ min_key
              → page_count (c.child lo) + page_count (c.child (lo + 1)) + 1 ≤ max_key)
            × (min_key ≤ page_count (c.child lo) + page_count (c.child (lo + 1)) + 1))
  counts sibling lo (inl (e, e')) its =
      let a = ap (λ n. page_count (c.child n)) e in
      let b = ap (λ n. page_count (c.child n)) e' in
      (
        (λ fat. inl (omega (arith, a, w.few), omega (arith, b, fat))),
        ((λ thin. omega (arith, a, b, thin, w.few)), omega (arith, b, its)),
      )
  counts sibling lo (inr (e, e')) its =
      let a = ap (λ n. page_count (c.child n)) e in
      let b = ap (λ n. page_count (c.child n)) e' in
      (
        (λ fat. inr (omega (arith, a, w.few), omega (arith, b, fat))),
        ((λ thin. omega (arith, a, b, thin, w.few)), omega (arith, b, its)),
      )

  -- With the sibling, and the two pages at the indices.
  abbrev choice : ℕ → ℕ → ℕ → Deleted
  choice sibling lo up =
      if ltb min_key (page_count (c.child sibling))
      then shared_in c lo lo up obj (redistribute_pages (c.child lo) (c.child up))
      else collapsed_in c lo lo obj (collapse_pages (c.child lo) (c.child up))

  choice-Leaves :
      (sibling lo : ℕ)
      → lo < c.count
      → (hi ≡ lo) × (sibling ≡ lo + 1) ⊎ (hi ≡ lo + 1) × (sibling ≡ lo)
      → Leaves d least p k (choice sibling lo (lo + 1))
  choice-Leaves sibling lo h v =
      let here : (hi ≡ lo) ⊎ (hi ≡ lo + 1) = ground (arith, v) in
      let n = neighbours lo h in
      let its =
        page_count-Shape below min_key (c.child sibling)
          (w.others sibling (ground (arith, v)) (ground (arith, v))) in
      let sizes = counts sibling lo v its in
      let most_left = page_count-Good (c.child lo) n.left_good in
      let most_right = page_count-Good (c.child (lo + 1)) n.right_good in
      elim (Bool-cases (ltb min_key (page_count (c.child sibling)))) [
        | inl fat ↦ rw fat (
            shared_in-Leaves p c d below least k hi obj w lo h here
              (redistribute_pages (c.child lo) (c.child (lo + 1)))
              (redistribute_pages-Halved below (c.child lo) (c.child (lo + 1)) (c.key lo) n
                most_left most_right (sizes.0 (ground arith))))
        | inr thin ↦ rw thin (
            collapsed_in-Leaves p c d below least k hi obj w lo h here
              (collapse_pages (c.child lo) (c.child (lo + 1)))
              (collapse_pages-Merged below (c.child lo) (c.child (lo + 1)) (c.key lo) n
                (sizes.1.0 (ground arith)) sizes.1.1))
      ]

  pub repair-Leaves : Leaves d least p k (repair c hi obj)
  unfolding repair
  repair-Leaves = elim (fat_sibling-Next c hi w.some_key w.place) [
    | inl (e, h) ↦
        let t : ltb hi (hi + 1) ≡ true = ground arith in
        let u : ltb c.count (hi + 1) ≡ false = ground arith in
        let v : (hi + (hi + 1)) / 2 ≡ hi = omega arith in
        rw (repair, e, t, u, v) (choice-Leaves (hi + 1) hi h (inl (refl, refl)))
    | inr e ↦
        let s = fat_sibling c hi in
        let t : ltb hi s ≡ false = ground arith in
        let u : ltb c.count s ≡ false = ground (arith, w.place) in
        let v : (hi + s) / 2 ≡ s = omega (arith, e) in
        rw (repair, t, u, v)
          (subst (λ n. Leaves d least p k (choice s s n)) e
            (choice-Leaves s s (omega (arith, e, w.place)) (inr (sym e, refl))))
  ]
