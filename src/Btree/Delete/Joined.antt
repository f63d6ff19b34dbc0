-- ===== src/Btree/Delete/Joined.antt =====
-- Two siblings in order of kernel/lib/klibc/btree.c and the key between them, as one page.
use mungi.Common.{ℕ, ◌+◌, ◌-◌, ◌≤◌, ◌<◌, ◌≡◌, ap, sym, ◌∙◌, arith, leb, Bool-cases, inl, inr}
use mathlib.Core.Path.{subst}
use mungi.Btree.{Item}
use mungi.Btree.Insert.{Body}
use mungi.Btree.Insert.Grow.{Separated}
use mungi.Btree.Insert.Split.{Cut}
use mungi.Btree.Insert.Members.{Within, Every}

-- Some object with an extent that is not empty.
abbrev pub Inhabited : {A : Type 0} → (A → Item → Type 0) → A → Type 0
Inhabited In x = (o : Item) × In x o × (o.base < o.limit)

pub Cut-Every :
    {A : Type 0} (P : A → Type 0) (c l r : Body A) (m k : ℕ)
    → Cut c l r m k
    → Every P l
    → Every P r
    → Every P c
Cut-Every P c l r m k t el er i le = elim (Bool-cases (leb i m)) [
  | inl left ↦ subst P (t.left_child i (ground arith)) (el i (ground (arith, t.left_count)))
  | inr right ↦
      let n : m + 1 + (i - (m + 1)) ≡ i = ground arith in
      let inside : i - (m + 1) ≤ r.count = ground (arith, t.right_count) in
      subst P (t.right_child (i - (m + 1)) inside ∙ ap c.child n) (er (i - (m + 1)) inside)
]

-- The key separates what lies below the one page from what lies below the other.
pub record Apart {A : Type 0} (In : A → Item → Type 0) (l r : Body A) (k : ℕ) : Type 0 where
  pub below : (o : Item) → Within (λ x. In x o) l → o.limit ≤ k
  pub above : (o : Item) → Within (λ x. In x o) r → k ≤ o.base

module _ {A : Type 0} (In : A → Item → Type 0) (c l r : Body A) (m k : ℕ) (t : Cut c l r m k)
    (sl : Separated In l) (sr : Separated In r) (a : Apart In l r k) (il : Every (Inhabited In) l)
    (ir : Every (Inhabited In) r) where
  left_less : (i : ℕ) → i < m → l.key i < k
  left_less i h =
      let inside : i + 1 ≤ l.count = omega (arith, t.left_count, h) in
      let (o, st, e) = il (i + 1) inside in
      omega (
        arith,
        e,
        (sl.between (i + 1) inside o st).from i (omega arith),
        a.below o (i + 1, inside, st),
      )

  right_more : (j : ℕ) → j < r.count → k < r.key j
  right_more j h =
      let (o, st, e) = ir 0 (omega arith) in
      omega (
        arith,
        e,
        (sr.between 0 (omega arith) o st).to j (omega arith) h,
        a.above o (0, omega arith, st),
      )

  pub Cut-Separated : Separated In c
  Cut-Separated = record {
    sorted = λ i j h e. ground (
      arith,
      t.middle,
      t.left_count,
      t.right_count,
      t.left_key i,
      t.left_key j,
      t.right_key (i - (m + 1)),
      t.right_key (j - (m + 1)),
      left_less i,
      right_more (j - (m + 1)),
      sl.sorted i j,
      sr.sorted (i - (m + 1)) (j - (m + 1)),
    );
    between = λ i le o q. elim (Bool-cases (leb i m)) [
      | inl left ↦
          let inside : i ≤ l.count = ground (arith, t.left_count) in
          let st : In (l.child i) o = subst (λ x. In x o) (sym (t.left_child i (ground arith))) q in
          let w = sl.between i inside o st in
          record {
            from = λ j h. ground (arith, t.left_key j, w.from j h);
            to = λ j h e. ground (
              arith,
              t.middle,
              t.left_count,
              t.right_count,
              t.left_key j,
              t.right_key (j - (m + 1)),
              right_more (j - (m + 1)),
              a.below o (i, inside, st),
              w.to j h,
            );
          }
      | inr right ↦
          let n : m + 1 + (i - (m + 1)) ≡ i = ground arith in
          let inside : i - (m + 1) ≤ r.count = ground (arith, t.right_count) in
          let st : In (r.child (i - (m + 1))) o =
            subst (λ x. In x o) (sym (t.right_child (i - (m + 1)) inside ∙ ap c.child n)) q in
          let w = sr.between (i - (m + 1)) inside o st in
          record {
            from = λ j h. ground (
              arith,
              t.middle,
              t.left_count,
              t.right_count,
              t.left_key j,
              t.right_key (j - (m + 1)),
              left_less j,
              a.above o (i - (m + 1), inside, st),
              w.from (j - (m + 1)),
            );
            to = λ j h e.
                ground (arith, t.right_count, t.right_key (j - (m + 1)), w.to (j - (m + 1)));
          }
    ];
  }
