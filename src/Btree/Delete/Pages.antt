-- ===== src/Btree/Delete/Pages.antt =====
-- Two siblings of kernel/lib/klibc/btree.c that become one page, or share what they have: for leaves and
-- internal pages alike.
use mungi.Common.{ℕ, ◌+◌, ◌/◌, ◌≤◌, ◌<◌, ◌≡◌, refl, arith, inl, inr, ◌⊎◌}
use mungi.Btree.{Item}
use mungi.Btree.Insert.{Body}
use mungi.Btree.Insert.Grow.{Separated}
use mungi.Btree.Insert.Split.{Cut}
use mungi.Btree.Insert.Members.{Within, Every, Cut-from, Cut-left, Cut-right}
use mungi.Btree.Insert.Good.{Cut-below, Cut-above}
use mungi.Btree.Share.{Shared, collapse, redistribute}
use mungi.Btree.Share.Cuts.{collapse-Cut}
use mungi.Btree.Share.Middle.{redistribute-CutAt}
use mungi.Btree.Delete.Joined.{Inhabited, Apart, Cut-Separated}

-- What is asked of the pages of a kind; `least` is the least key below a child.
pub record Kind {A : Type 0} (In : A → Item → Type 0) (least : A → ℕ) (Fine : Body A → Type 0)
    : Type 0 where
  pub separated : (b : Body A) → Fine b → Separated In b
  pub inhabited : (b : Body A) → Fine b → Every (Inhabited In) b
  pub lowest :
      (b : Body A) (o : Item) → Fine b → Within (λ x. In x o) b → least (b.child 0) ≤ o.base
  pub reached : (b : Body A) → Fine b → (o : Item) × In (b.child 0) o × (o.base ≡ least (b.child 0))
  pub joined :
      (c l r : Body A) (m k : ℕ)
      → Cut c l r m k
      → Fine l
      → Fine r
      → Separated In c
      → k ≡ least (r.child 0)
      → Fine c
  pub cut_left : (c l r : Body A) (m k : ℕ) → Cut c l r m k → Fine c → Fine l
  pub cut_right : (c l r : Body A) (m k : ℕ) → Cut c l r m k → Fine c → Fine r

module _ {A : Type 0} (In : A → Item → Type 0) (least : A → ℕ) (Fine : Body A → Type 0)
    (kind : Kind In least Fine) (l r : Body A) (fl : Fine l) (fr : Fine r) (k : ℕ)
    (a : Apart In l r k) where
  -- The least key of the right page is as good as any key between the pages.
  least-Apart : Apart In l r (least (r.child 0))
  least-Apart = record {
    below = λ o w.
        let (x, st, e) = kind.reached r fr in
        omega (arith, a.below o w, a.above x (0, omega arith, st), e);
    above = λ o w. kind.lowest r o fr w;
  }

  abbrev kmed : ℕ
  kmed = least (r.child 0)

  pub collapse-Fine : Fine (collapse kmed l r)
  collapse-Fine =
      let t = collapse-Cut kmed l r in
      kind.joined (collapse kmed l r) l r l.count kmed t fl fr
        (Cut-Separated In (collapse kmed l r) l r l.count kmed t (kind.separated l fl)
          (kind.separated r fr) least-Apart (kind.inhabited l fl) (kind.inhabited r fr))
        refl

  abbrev pub Below : Body A → Item → Type 0
  Below b o = Within (λ x. In x o) b

  -- Two pages with a key between them that have what the two had.
  pub record Rearranged (s : Shared A) : Type 0 where
    pub left : Fine s.left
    pub right : Fine s.right
    pub apart : Apart In s.left s.right s.median
    pub left_count : s.left.count ≡ (l.count + r.count) / 2
    pub right_count : s.left.count + 1 + s.right.count ≡ l.count + r.count + 1
    pub from : (o : Item) → Below s.left o ⊎ Below s.right o → Below l o ⊎ Below r o
    pub keeps : (o : Item) → Below l o ⊎ Below r o → Below s.left o ⊎ Below s.right o

  pub redistribute-Rearranged :
      (most : ℕ)
      → l.count + 1 < r.count ⊎ r.count < l.count
      → Rearranged (redistribute most kmed l r)
  redistribute-Rearranged most w =
      let c = collapse kmed l r in
      let t = collapse-Cut kmed l r in
      let s = redistribute most kmed l r in
      let half = (l.count + r.count) / 2 in
      let u = redistribute-CutAt most kmed c l r t w in
      let fc = collapse-Fine in
      let sc = kind.separated c fc in
      record {
        left = kind.cut_left c s.left s.right half s.median u fc;
        right = kind.cut_right c s.left s.right half s.median u fc;
        apart = record {
          below = λ o. Cut-below In c s.left s.right half s.median o u sc;
          above = λ o. Cut-above In c s.left s.right half s.median o u sc;
        };
        left_count = u.left_count;
        right_count = omega (arith, u.left_count, u.right_count, t.right_count);
        from = λ o v. elim v [
          | inl x ↦
              Cut-from (λ y. In y o) c l r l.count kmed t
                (Cut-left (λ y. In y o) c s.left s.right half s.median u x)
          | inr x ↦
              Cut-from (λ y. In y o) c l r l.count kmed t
                (Cut-right (λ y. In y o) c s.left s.right half s.median u x)
        ];
        keeps = λ o v. elim v [
          | inl x ↦
              Cut-from (λ y. In y o) c s.left s.right half s.median u
                (Cut-left (λ y. In y o) c l r l.count kmed t x)
          | inr x ↦
              Cut-from (λ y. In y o) c s.left s.right half s.median u
                (Cut-right (λ y. In y o) c l r l.count kmed t x)
        ];
      }
