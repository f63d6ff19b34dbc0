-- ===== src/Btree/Delete/Changed.antt =====
-- A page of kernel/lib/klibc/btree.c after a deletion has set a key and the children around it anew.
use mungi.Common.{ℕ, ◌+◌, ◌≤◌, ◌<◌, ◌≡◌, false, sym, arith, ◌==◌, Bool-cases, inl, inr, ◌⊎◌}
use mathlib.Core.Path.{subst}
use mungi.Btree.{Item}
use mungi.Btree.Search.{Between}
use mungi.Btree.Insert.{Body}
use mungi.Btree.Insert.Grow.{Separated}
use mungi.Btree.Insert.Members.{Within, Every}
use mungi.Btree.Delete.Joined.{Inhabited}

-- The key at the index is new, and the children on its sides, which hold nothing that did not lie
-- below one of the two before.
pub record Changed {A : Type 0} (In : A → Item → Type 0) (b c : Body A) (m k : ℕ) : Type 0 where
  pub inside : m < b.count
  pub count : c.count ≡ b.count
  pub key_new : c.key m ≡ k
  pub key_other : (j : ℕ) → (j == m) ≡ false → c.key j ≡ b.key j
  pub child_other : (j : ℕ) → (j == m) ≡ false → (j == m + 1) ≡ false → c.child j ≡ b.child j
  pub left : (o : Item) → In (c.child m) o → o.limit ≤ k
  pub right : (o : Item) → In (c.child (m + 1)) o → k ≤ o.base
  pub from_left : (o : Item) → In (c.child m) o → In (b.child m) o ⊎ In (b.child (m + 1)) o
  pub from_right : (o : Item) → In (c.child (m + 1)) o → In (b.child m) o ⊎ In (b.child (m + 1)) o
  pub some_left : Inhabited In (c.child m)
  pub some_right : Inhabited In (c.child (m + 1))

module _ {A : Type 0} (In : A → Item → Type 0) (b c : Body A) (m k : ℕ) (t : Changed In b c m k)
    (s : Separated In b) where
  -- What lay on a side of the key.
  record Near (o : Item) : Type 0 where
    from : (j : ℕ) → j < m → b.key j ≤ o.base
    to : (j : ℕ) → m < j → j < b.count → o.limit ≤ b.key j

  near : (o : Item) → In (b.child m) o ⊎ In (b.child (m + 1)) o → Near o
  near o (inl st) =
      let w = s.between m (omega (arith, t.inside)) o st in
      record { from = λ j h. w.from j h; to = λ j h e. w.to j (omega (arith, h)) e }
  near o (inr st) =
      let w = s.between (m + 1) (omega (arith, t.inside)) o st in
      record {
        from = λ j h. w.from j (omega (arith, h));
        to = λ j h e. w.to j (omega (arith, h)) e;
      }

  less : (j : ℕ) → j < m → b.key j < k
  less j h =
      let (o, st, e) = t.some_left in
      omega (arith, e, (near o (t.from_left o st)).from j h, t.left o st)

  more : (j : ℕ) → m < j → j < b.count → k < b.key j
  more j h l =
      let (o, st, e) = t.some_right in
      omega (arith, e, (near o (t.from_right o st)).to j h l, t.right o st)

  left_Between : (o : Item) → Near o → o.limit ≤ k → Between c.key c.count m o
  left_Between o w l = record {
    from = λ j h. ground (arith, t.key_other j, w.from j h);
    to = λ j h e. ground (arith, t.count, t.key_new, t.key_other j, w.to j);
  }

  right_Between : (o : Item) → Near o → k ≤ o.base → Between c.key c.count (m + 1) o
  right_Between o w l = record {
    from = λ j h. ground (arith, t.key_new, t.key_other j, w.from j);
    to = λ j h e. ground (arith, t.count, t.key_other j, w.to j);
  }

  other_Between :
      (i : ℕ) (o : Item)
      → i ≤ b.count
      → (i == m) ≡ false
      → (i == m + 1) ≡ false
      → Between b.key b.count i o
      → Between c.key c.count i o
  other_Between i o le x y w = record {
    from = λ j h.
        ground
          (arith, t.inside, t.key_new, t.key_other j, w.from j h, w.from (m + 1), more (m + 1));
    to = λ j h e.
        ground (arith, t.inside, t.count, t.key_new, t.key_other j, w.to j h, w.to i, less i);
  }

  pub Changed-Separated : Separated In c
  Changed-Separated = record {
    sorted = λ i j h e.
        ground
          (arith, t.count, t.key_new, t.key_other i, t.key_other j, s.sorted i j h, less i, more j);
    between = λ i le o q. elim (Bool-cases (i == m)) [
      | inl same ↦
          let z : i ≡ m = ground arith in
          let st = subst (λ n. In (c.child n) o) z q in
          rw z (left_Between o (near o (t.from_left o st)) (t.left o st))
      | inr apart ↦ elim (Bool-cases (i == m + 1)) [
        | inl next ↦
            let z : i ≡ m + 1 = ground arith in
            let st = subst (λ n. In (c.child n) o) z q in
            rw z (right_Between o (near o (t.from_right o st)) (t.right o st))
        | inr far ↦
            let inside : i ≤ b.count = omega (arith, le, t.count) in
            other_Between i o inside apart far
              (s.between i inside o (subst (λ x. In x o) (t.child_other i apart far) q))
      ]
    ];
  }

  pub Changed-Every : (P : A → Type 0) → Every P b → P (c.child m) → P (c.child (m + 1)) → Every P c
  Changed-Every P all pl pr i le = elim (Bool-cases (i == m)) [
    | inl same ↦ let z : i ≡ m = ground arith in rw z pl
    | inr apart ↦ elim (Bool-cases (i == m + 1)) [
      | inl next ↦ let z : i ≡ m + 1 = ground arith in rw z pr
      | inr far ↦ subst P (sym (t.child_other i apart far)) (all i (omega (arith, le, t.count)))
    ]
  ]

  pub Changed-from : (o : Item) → Within (λ x. In x o) c → Within (λ x. In x o) b
  Changed-from o (i, le, q) = elim (Bool-cases (i == m)) [
    | inl same ↦
        let z : i ≡ m = ground arith in either (t.from_left o (subst (λ n. In (c.child n) o) z q))
    | inr apart ↦ elim (Bool-cases (i == m + 1)) [
      | inl next ↦
          let z : i ≡ m + 1 = ground arith in
          either (t.from_right o (subst (λ n. In (c.child n) o) z q))
      | inr far ↦ (i, omega (arith, le, t.count), subst (λ x. In x o) (t.child_other i apart far) q)
    ]
  ]
    where
      either : In (b.child m) o ⊎ In (b.child (m + 1)) o → Within (λ x. In x o) b
      either (inl st) = (m, omega (arith, t.inside), st)
      either (inr st) = (m + 1, omega (arith, t.inside), st)

  pub Changed-keeps :
      (o : Item)
      → (In (b.child m) o ⊎ In (b.child (m + 1)) o → In (c.child m) o ⊎ In (c.child (m + 1)) o)
      → Within (λ x. In x o) b
      → Within (λ x. In x o) c
  Changed-keeps o moves (i, le, q) = elim (Bool-cases (i == m)) [
    | inl same ↦
        let z : i ≡ m = ground arith in either (moves (inl (subst (λ n. In (b.child n) o) z q)))
    | inr apart ↦ elim (Bool-cases (i == m + 1)) [
      | inl next ↦
          let z : i ≡ m + 1 = ground arith in
          either (moves (inr (subst (λ n. In (b.child n) o) z q)))
      | inr far ↦
          (i, omega (arith, le, t.count), subst (λ x. In x o) (sym (t.child_other i apart far)) q)
    ]
  ]
    where
      either : In (c.child m) o ⊎ In (c.child (m + 1)) o → Within (λ x. In x o) c
      either (inl st) = (m, omega (arith, t.inside, t.count), st)
      either (inr st) = (m + 1, omega (arith, t.inside, t.count), st)
