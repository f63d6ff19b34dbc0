-- ===== src/Btree/Insert/Members.antt =====
-- What the pages of kernel/lib/klibc/btree.c hold before and after an insertion.
use mungi.Common.{ℕ, ◌+◌, ◌-◌, ◌≤◌, ◌≡◌, sym, ap, ◌∙◌, arith, ◌==◌, leb, Bool-cases, inl, inr, ◌⊎◌}
use mathlib.Core.Path.{subst}
use mungi.Btree.Insert.{Body}
use mungi.Btree.Insert.Grow.{Grown}
use mungi.Btree.Insert.Split.{Cut}

-- Below one of the children.
abbrev pub Within : {A : Type 0} → (A → Type 0) → Body A → Type 0
Within P b = (i : ℕ) × (i ≤ b.count) × P (b.child i)

abbrev pub Every : {A : Type 0} → (A → Type 0) → Body A → Type 0
Every P b = (i : ℕ) → i ≤ b.count → P (b.child i)

module _ {A : Type 0} (P : A → Type 0) where
  pub Grown-from :
      (b c : Body A) (hi k : ℕ) (p : A)
      → hi ≤ b.count
      → Grown b c hi k p
      → Within P c
      → Within P b ⊎ P p
  Grown-from b c hi k p h g (i, le, q) = elim (Bool-cases (leb i hi)) [
    | inl before ↦ inl (i, ground arith, subst P (g.child_before i (ground arith)) q)
    | inr not_before ↦ elim (Bool-cases (i == hi + 1)) [
      | inl next ↦ let e : i ≡ hi + 1 = ground arith in inr (subst P (ap c.child e ∙ g.child_new) q)
      | inr not_next ↦ inl (
        i - 1,
        ground (arith, g.count),
        subst P (g.child_behind i (ground arith) (ground (arith, g.count))) q,
      )
    ]
  ]

  pub Grown-old : (b c : Body A) (hi k : ℕ) (p : A) → Grown b c hi k p → Within P b → Within P c
  Grown-old b c hi k p g (i, le, q) = elim (Bool-cases (leb i hi)) [
    | inl before ↦ (i, ground (arith, g.count), subst P (sym (g.child_before i (ground arith))) q)
    | inr behind ↦
        let e : b.child (i + 1 - 1) ≡ b.child i =
          let n : i + 1 - 1 ≡ i = omega arith in ap b.child n in
        (
          i + 1,
          ground (arith, g.count),
          subst P (sym (g.child_behind (i + 1) (ground arith) (omega (arith, le)) ∙ e)) q,
        )
  ]

  pub Grown-new :
      (b c : Body A) (hi k : ℕ) (p : A) → hi ≤ b.count → Grown b c hi k p → P p → Within P c
  Grown-new b c hi k p h g q = (hi + 1, ground (arith, g.count), subst P (sym g.child_new) q)

  pub Grown-Every :
      (b c : Body A) (hi k : ℕ) (p : A)
      → hi ≤ b.count
      → Grown b c hi k p
      → Every P b
      → P p
      → Every P c
  Grown-Every b c hi k p h g all new i le = elim (Bool-cases (leb i hi)) [
    | inl before ↦ subst P (sym (g.child_before i (ground arith))) (all i (ground arith))
    | inr not_before ↦ elim (Bool-cases (i == hi + 1)) [
      | inl next ↦
          let e : i ≡ hi + 1 = ground arith in subst P (sym (ap c.child e ∙ g.child_new)) new
      | inr not_next ↦
          subst P (sym (g.child_behind i (ground arith) (ground (arith, g.count))))
            (all (i - 1) (ground (arith, g.count)))
    ]
  ]

  pub Cut-Every-left : (c l r : Body A) (m k : ℕ) → Cut c l r m k → Every P c → Every P l
  Cut-Every-left c l r m k t all i le =
      subst P (sym (t.left_child i (ground (arith, t.left_count))))
        (all i (ground (arith, t.left_count, t.inside)))

  pub Cut-Every-right : (c l r : Body A) (m k : ℕ) → Cut c l r m k → Every P c → Every P r
  Cut-Every-right c l r m k t all i le =
      subst P (sym (t.right_child i le)) (all (m + 1 + i) (ground (arith, t.right_count)))

  pub Cut-from : (c l r : Body A) (m k : ℕ) → Cut c l r m k → Within P c → Within P l ⊎ Within P r
  Cut-from c l r m k t (i, le, q) = elim (Bool-cases (leb i m)) [
    | inl left ↦
        inl (i, ground (arith, t.left_count), subst P (sym (t.left_child i (ground arith))) q)
    | inr right ↦
        let n : m + 1 + (i - (m + 1)) ≡ i = ground arith in
        let inside : i - (m + 1) ≤ r.count = ground (arith, t.right_count) in
        inr
          (i - (m + 1), inside, subst P (sym (t.right_child (i - (m + 1)) inside ∙ ap c.child n)) q)
  ]

  pub Cut-left : (c l r : Body A) (m k : ℕ) → Cut c l r m k → Within P l → Within P c
  Cut-left c l r m k t (i, le, q) = (
    i,
    ground (arith, t.left_count, t.inside),
    subst P (t.left_child i (ground (arith, t.left_count))) q,
  )

  pub Cut-right : (c l r : Body A) (m k : ℕ) → Cut c l r m k → Within P r → Within P c
  Cut-right c l r m k t (i, le, q) =
      (m + 1 + i, ground (arith, t.right_count), subst P (t.right_child i le) q)
