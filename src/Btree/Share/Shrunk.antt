-- ===== src/Btree/Share/Shrunk.antt =====
-- `BTDeletePage` of kernel/lib/klibc/btree.c takes a child and a key out of a page.
use mungi.Common.{
  ℕ, zero, suc, ◌+◌, ◌-◌, ◌≤◌, ◌<◌, ◌≡◌, sym, ap, ◌∙◌, false, ◌&&◌, arith, ◌==◌, leb, ltb,
  if◌then◌else◌, Bool-cases, inl, inr,
}
use mathlib.Core.Path.{subst}
use mungi.Common.Arrays.{Array, update}
use mungi.Common.Int.{pos, negsuc, ◌-ℤ◌}
use mungi.Btree.{Item}
use mungi.Btree.Keys.{Sorted}
use mungi.Btree.Search.{Between}
use mungi.Btree.Insert.{Body}
use mungi.Btree.Insert.Grow.{Separated}
use mungi.Btree.Insert.Members.{Within, Every}
use mungi.Btree.Share.{move_down, delete_page}

move_down_lem :
    {A : Type 0} (n lo : ℕ) (f : Array A) (j : ℕ)
    → move_down n lo f j ≡ (if leb lo j && ltb j (lo + n) then f (j + 1) else f j)
unfolding move_down update
move_down_lem zero lo f j = ground arith
move_down_lem (suc n) lo f j = ground (arith, move_down_lem n (suc lo) (update f lo (f (lo + 1))) j)

-- A page without the child at the index, and without the key in front of that, or behind the first
-- child.
pub record Shrunk {A : Type 0} (b c : Body A) (hi : ℕ) : Type 0 where
  pub inside : hi ≤ b.count
  pub count : c.count + 1 ≡ b.count
  pub key_before : (j : ℕ) → j + 1 < hi → c.key j ≡ b.key j
  pub key_behind : (j : ℕ) → hi ≤ j + 1 → j < c.count → c.key j ≡ b.key (j + 1)
  pub child_before : (j : ℕ) → j < hi → c.child j ≡ b.child j
  pub child_behind : (j : ℕ) → hi ≤ j → j ≤ c.count → c.child j ≡ b.child (j + 1)

pub delete_page-Shrunk :
    {A : Type 0} (b : Body A) (idx : ℕ)
    → idx < b.count
    → Shrunk b (delete_page b (pos idx)) (idx + 1)
unfolding delete_page
delete_page-Shrunk b idx h = record {
  inside = omega (arith, h);
  count = omega (arith, h);
  key_before = λ j l. ground (arith, move_down_lem (b.count - (idx + 1)) idx b.key j);
  key_behind = λ j l m. ground (arith, move_down_lem (b.count - (idx + 1)) idx b.key j);
  child_before = λ j l. ground (arith, move_down_lem (b.count - (idx + 1)) (idx + 1) b.child j);
  child_behind = λ j l m. ground (arith, move_down_lem (b.count - (idx + 1)) (idx + 1) b.child j);
}

delete_page-front :
    {A : Type 0} (b : Body A) (n : ℕ) → 0 < b.count → Shrunk b (delete_page b (negsuc n)) 0
unfolding delete_page update
delete_page-front b n h = record {
  inside = omega arith;
  count = omega (arith, h);
  key_before = λ j l. absurd (omega (arith, l));
  key_behind = λ j l m. ground (arith, move_down_lem (b.count - 1) 0 b.key j);
  child_before = λ j l. absurd (omega (arith, l));
  child_behind =
      λ j l m. ground (arith, move_down_lem (b.count - 1) 1 (update b.child 0 (b.child 1)) j);
}

-- The child at the index is taken out of a page that has a key.
pub delete_child-Shrunk :
    {A : Type 0} (b : Body A) (hi : ℕ)
    → 0 < b.count
    → hi ≤ b.count
    → Shrunk b (delete_page b (pos hi -ℤ pos 1)) hi
unfolding ◌-ℤ◌
delete_child-Shrunk b zero z h = delete_page-front b 0 z
delete_child-Shrunk b (suc idx) z h =
    let e : (pos (suc idx) -ℤ pos 1) ≡ pos idx = ground arith in
    let n : suc idx ≡ idx + 1 = omega arith in
    rw (e, n) (delete_page-Shrunk b idx (omega (arith, h)))

module _ {A : Type 0} (P : A → Type 0) where
  pub Shrunk-from :
      (b c : Body A) (hi : ℕ)
      → Shrunk b c hi
      → Within P c
      → (i : ℕ) × (i ≤ b.count) × ((i == hi) ≡ false) × P (b.child i)
  Shrunk-from b c hi s (i, le, q) = elim (Bool-cases (ltb i hi)) [
    | inl before ↦
        (i, ground (arith, s.count), ground arith, subst P (s.child_before i (ground arith)) q)
    | inr behind ↦ (
      i + 1,
      ground (arith, s.count),
      ground arith,
      subst P (s.child_behind i (ground arith) le) q,
    )
  ]

  pub Shrunk-keeps :
      (b c : Body A) (hi i : ℕ)
      → Shrunk b c hi
      → i ≤ b.count
      → (i == hi) ≡ false
      → P (b.child i)
      → Within P c
  Shrunk-keeps b c hi i s le apart q = elim (Bool-cases (ltb i hi)) [
    | inl before ↦
        (i, ground (arith, s.count, s.inside), subst P (sym (s.child_before i (ground arith))) q)
    | inr behind ↦
        let n : i - 1 + 1 ≡ i = ground arith in
        let inside : i - 1 ≤ c.count = ground (arith, s.count) in
        (
          i - 1,
          inside,
          subst P (sym (s.child_behind (i - 1) (ground arith) inside ∙ ap b.child n)) q,
        )
  ]

  pub Shrunk-Every :
      (b c : Body A) (hi : ℕ)
      → Shrunk b c hi
      → ((i : ℕ) → i ≤ b.count → (i == hi) ≡ false → P (b.child i))
      → Every P c
  Shrunk-Every b c hi s all i le = elim (Bool-cases (ltb i hi)) [
    | inl before ↦
        subst P (sym (s.child_before i (ground arith)))
          (all i (ground (arith, s.count)) (ground arith))
    | inr behind ↦
        subst P (sym (s.child_behind i (ground arith) le))
          (all (i + 1) (ground (arith, s.count)) (ground arith))
  ]

-- What lies below a child lies between the keys around it, but perhaps for one of them.
pub record BetweenBut (key : Array ℕ) (count i but : ℕ) (o : Item) : Type 0 where
  pub from : (j : ℕ) → j < i → (j == but) ≡ false → key j ≤ o.base
  pub to : (j : ℕ) → i ≤ j → (j == but) ≡ false → j < count → o.limit ≤ key j

pub Between-But :
    {key : Array ℕ} {count i : ℕ} (but : ℕ) (o : Item)
    → Between key count i o
    → BetweenBut key count i but o
Between-But but o w = record { from = λ j l n. w.from j l; to = λ j l n h. w.to j l h }

module _ {A : Type 0} (In : A → Item → Type 0) where
  -- Only the children that stay need to lie between the keys that stay.
  pub Shrunk-Separated :
      (b c : Body A) (hi : ℕ)
      → Shrunk b c hi
      → Sorted b.key b.count
      → ((i : ℕ)
          → i ≤ b.count
          → (i == hi) ≡ false
          → (o : Item) → In (b.child i) o
          → BetweenBut b.key b.count i (hi - 1) o)
      → Separated In c
  Shrunk-Separated b c hi s sorted between = record {
    sorted = λ i j l h. ground (
      arith,
      s.count,
      s.key_before i,
      s.key_before j,
      s.key_behind i,
      s.key_behind j,
      sorted i j,
      sorted i (j + 1),
      sorted (i + 1) (j + 1),
    );
    between = λ i le o q. elim (Bool-cases (ltb i hi)) [
      | inl before ↦
          let w =
            between i (ground (arith, s.count)) (ground arith) o
              (subst (λ x. In x o) (s.child_before i (ground arith)) q) in
          record {
            from = λ j h. ground (arith, s.key_before j, w.from j h);
            to = λ j h m.
                ground (arith, s.count, s.key_before j, s.key_behind j, w.to j h, w.to (j + 1));
          }
      | inr behind ↦
          let w =
            between (i + 1) (ground (arith, s.count)) (ground arith) o
              (subst (λ x. In x o) (s.child_behind i (ground arith) le) q) in
          record {
            from = λ j h.
                ground (arith, s.count, s.key_before j, s.key_behind j, w.from j, w.from (j + 1));
            to = λ j h m. ground (arith, s.count, s.key_behind j, w.to (j + 1));
          }
    ];
  }
