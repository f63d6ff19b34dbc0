-- ===== src/Btree/Insert/Grow.antt =====
-- `BTInsertPage` of kernel/lib/klibc/btree.c keeps the keys of a page between its children.
use mungi.Common.{
  ℕ, zero, suc, ◌+◌, ◌-◌, ◌≤◌, ◌<◌, ◌≡◌, refl, ap, ◌∙◌, ◌&&◌, arith, ◌==◌, leb, ltb, if◌then◌else◌,
  Bool-cases, inl, inr,
}
use mathlib.Core.Path.{subst}
use mungi.Common.Arrays.{Array, update}
use mungi.Common.Int.{pos, negsuc}
use mungi.Btree.{Item}
use mungi.Btree.Keys.{Sorted}
use mungi.Btree.Search.{Between}
use mungi.Btree.Insert.{Body, move_up, insert_page}

pub move_up_lem :
    {A : Type 0} (n lo : ℕ) (f : Array A) (j : ℕ)
    → move_up n lo f j ≡ (if ltb lo j && leb j (lo + n) then f (j - 1) else f j)
unfolding move_up update
move_up_lem zero lo f j = ground arith
move_up_lem (suc n) lo f j = ground (arith, move_up_lem n lo (update f (lo + n + 1) (f (lo + n))) j)

-- What lies below a child, for pages and for objects.
module _ {A : Type 0} (In : A → Item → Type 0) where
  -- The keys of a page are in order, and what lies below a child between the keys around it.
  pub record Separated (b : Body A) : Type 0 where
    pub sorted : Sorted b.key b.count
    pub between : (i : ℕ) → i ≤ b.count → (o : Item) → In (b.child i) o → Between b.key b.count i o

-- A page with one more key, and a child behind it.
pub record Grown {A : Type 0} (b c : Body A) (hi k : ℕ) (p : A) : Type 0 where
  pub count : c.count ≡ b.count + 1
  pub key_before : (j : ℕ) → j < hi → c.key j ≡ b.key j
  pub key_new : c.key hi ≡ k
  pub key_behind : (j : ℕ) → hi < j → j ≤ b.count → c.key j ≡ b.key (j - 1)
  pub child_before : (j : ℕ) → j ≤ hi → c.child j ≡ b.child j
  pub child_new : c.child (hi + 1) ≡ p
  pub child_behind : (j : ℕ) → hi + 1 < j → j ≤ b.count + 1 → c.child j ≡ b.child (j - 1)

pub insert_page-Grown :
    {A : Type 0} (key_of : A → ℕ) (b : Body A) (hi k : ℕ) (p : A)
    → hi ≤ b.count
    → Grown b (insert_page key_of b (pos hi) k p) hi k p
unfolding insert_page update
insert_page-Grown key_of b hi k p h = record {
  count = refl;
  key_before = λ j l. ground (arith, move_up_lem (b.count - hi) hi b.key j);
  key_new = ground arith;
  key_behind = λ j l m. ground (arith, move_up_lem (b.count - hi) hi b.key j);
  child_before = λ j l. ground (arith, move_up_lem (b.count - hi) (hi + 1) b.child j);
  child_new = ground arith;
  child_behind = λ j l m. ground (arith, move_up_lem (b.count - hi) (hi + 1) b.child j);
}

pub insert_page-front :
    {A : Type 0} (key_of : A → ℕ) (b : Body A) (n k : ℕ) (p : A)
    → Grown
        (record b { child = update b.child 0 p })
        (insert_page key_of b (negsuc n) k p)
        0
        (key_of (b.child 0))
        (b.child 0)
unfolding insert_page update
insert_page-front key_of b n k p = record {
  count = refl;
  key_before = λ j l. ground arith;
  key_new = ground arith;
  key_behind = λ j l m. ground (arith, move_up_lem b.count 0 b.key j);
  child_before = λ j l. ground arith;
  child_new = ground arith;
  child_behind = λ j l m. ground (arith, move_up_lem b.count 1 b.child j);
}

-- The key separates what lies below the child at the index and the new child from each other.
module _ {A : Type 0} (In : A → Item → Type 0) where
  pub record Fits (b : Body A) (hi k : ℕ) (p : A) : Type 0 where
    pub inside : hi ≤ b.count
    pub before : (j : ℕ) → j < hi → b.key j < k
    pub behind : (j : ℕ) → hi ≤ j → j < b.count → k < b.key j
    pub left : (o : Item) → In (b.child hi) o → o.limit ≤ k
    pub right : (o : Item) → In p o → k ≤ o.base
    pub right_end : (o : Item) → In p o → (j : ℕ) → hi ≤ j → j < b.count → o.limit ≤ b.key j

  Grown-Sorted :
      (b c : Body A) (hi k : ℕ) (p : A)
      → Sorted b.key b.count
      → Grown b c hi k p
      → Fits b hi k p
      → Sorted c.key c.count
  Grown-Sorted b c hi k p s g f i j l h = ground (
    arith,
    g.count,
    f.inside,
    s i j,
    s i (j - 1),
    s (i - 1) (j - 1),
    f.before i,
    f.behind (j - 1),
    g.key_before i,
    g.key_before j,
    g.key_new,
    g.key_behind i,
    g.key_behind j,
  )

  between_before :
      (b c : Body A) (hi k : ℕ) (p : A) (i : ℕ) (o : Item)
      → Grown b c hi k p
      → Fits b hi k p
      → i ≤ hi
      → o.limit ≤ k
      → Between b.key b.count i o
      → Between c.key c.count i o
  between_before b c hi k p i o g f l m w = record {
    from = λ j h. ground (arith, w.from j h, g.key_before j);
    to = λ j h e. ground (
      arith,
      g.count,
      w.to j h,
      w.to (j - 1),
      f.behind (j - 1),
      g.key_before j,
      g.key_new,
      g.key_behind j,
      f.inside,
    );
  }

  between_new :
      (b c : Body A) (hi k : ℕ) (p : A) (o : Item)
      → Grown b c hi k p
      → Fits b hi k p
      → In p o
      → Between c.key c.count (hi + 1) o
  between_new b c hi k p o g f q = record {
    from = λ j h. ground (arith, f.right o q, f.before j, g.key_before j, g.key_new);
    to = λ j h e. ground (arith, g.count, g.key_behind j, f.right_end o q (j - 1));
  }

  between_behind :
      (b c : Body A) (hi k : ℕ) (p : A) (i : ℕ) (o : Item)
      → Grown b c hi k p
      → Fits b hi k p
      → hi + 1 < i
      → i ≤ c.count
      → Between b.key b.count (i - 1) o
      → Between c.key c.count i o
  between_behind b c hi k p i o g f l m w = record {
    from = λ j h. ground (
      arith,
      g.count,
      w.from j,
      w.from hi,
      w.from (j - 1),
      f.behind hi,
      g.key_before j,
      g.key_new,
      g.key_behind j,
    );
    to = λ j h e. ground (arith, g.count, w.to (j - 1), g.key_behind j);
  }

  -- A page that has grown by a key that fits is in order.
  pub Grown-Separated :
      (b c : Body A) (hi k : ℕ) (p : A)
      → Separated In b
      → Grown b c hi k p
      → Fits b hi k p
      → Separated In c
  Grown-Separated b c hi k p s g f = record {
    sorted = Grown-Sorted b c hi k p s.sorted g f;
    between = λ i le o q. elim (Bool-cases (ltb i hi)) [
      | inl less ↦
          let old : In (b.child i) o = subst (λ x. In x o) (g.child_before i (ground arith)) q in
          let w = s.between i (ground (arith, f.inside)) o old in
          between_before b c hi k p i o g f (ground arith)
            (ground (arith, w.to i, f.before i, f.inside)) w
      | inr not_less ↦ elim (Bool-cases (i == hi)) [
        | inl same ↦
            let e : i ≡ hi = ground arith in
            let old : In (b.child hi) o =
              subst (λ x. In x o) (ap c.child e ∙ g.child_before hi (omega arith)) q in
            rw e (
              between_before b c hi k p hi o g f (omega arith) (f.left o old)
                (s.between hi f.inside o old))
        | inr apart ↦ elim (Bool-cases (i == hi + 1)) [
          | inl next ↦
              let e : i ≡ hi + 1 = ground arith in
              rw e
                (between_new b c hi k p o g f (subst (λ x. In x o) (ap c.child e ∙ g.child_new) q))
          | inr not_next ↦
              let far : hi + 1 < i = ground arith in
              let old : In (b.child (i - 1)) o =
                subst (λ x. In x o) (g.child_behind i far (ground (arith, g.count))) q in
              between_behind b c hi k p i o g f far le
                (s.between (i - 1) (ground (arith, g.count)) o old)
        ]
      ]
    ];
  }
