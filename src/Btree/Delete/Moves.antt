-- ===== src/Btree/Delete/Moves.antt =====
-- What a page of kernel/lib/klibc/btree.c gets for two of its children that are collapsed, or share
-- what they have.
use mungi.Common.{
  ℕ, ◌+◌, ◌≤◌, ◌<◌, ◌≡◌, ◌∙◌, Bool, true, false, Option, some, arith, Bool-cases, inl, inr, ◌⊎◌,
}
use mungi.Btree.{Item, Page}
use mungi.Btree.Search.{Stored}
use mungi.Btree.Insert.{Body, max_key, min_key}
use mungi.Btree.Insert.Members.{Within, Cut-from, Cut-left, Cut-right}
use mungi.Btree.Insert.Good.{Good}
use mungi.Btree.Share.{collapse, redistribute}
use mungi.Btree.Share.Cuts.{collapse-Cut}
use mungi.Btree.Share.Middle.{redistribute-lost}
use mungi.Btree.Delete.{shared_pages, page_count}
use mungi.Btree.Delete.Joined.{Apart}
use mungi.Btree.Delete.Shape.{Shape}
use mungi.Btree.Delete.Pages.{Kind, collapse-Fine, redistribute-Rearranged}

-- What `BTRedistribute` leaves of two pages: two with the same objects, or the right one was full.
pub data Halved (d : ℕ) (p q : Page) : Option (Bool × Page × ℕ × Page) → Type 0 where
  halves :
      {l r : Page} {k : ℕ}
      → Good l
      → Good r
      → Shape d min_key l
      → Shape d min_key r
      → ((o : Item) → Stored o l → o.limit ≤ k)
      → ((o : Item) → Stored o r → k ≤ o.base)
      → ((o : Item) → Stored o l ⊎ Stored o r → Stored o p ⊎ Stored o q)
      → ((o : Item) → Stored o p ⊎ Stored o q → Stored o l ⊎ Stored o r)
      → Halved d p q (some (false, l, k, r))
  cleared : {l r : Page} {k : ℕ} → page_count q ≡ max_key → Halved d p q (some (true, l, k, r))

-- What `BTCollapse` leaves of two pages: one with the same objects.
pub data Merged (d : ℕ) (p q : Page) : Option Page → Type 0 where
  merged :
      {c : Page}
      → Good c
      → Shape d min_key c
      → ((o : Item) → Stored o c → Stored o p ⊎ Stored o q)
      → ((o : Item) → Stored o p ⊎ Stored o q → Stored o c)
      → Merged d p q (some c)

-- One of the two has too few keys, the other one to spare.
abbrev pub Uneven : ℕ → ℕ → Type 0
Uneven n m = (n < min_key) × (min_key < m) ⊎ (m < min_key) × (min_key < n)

module _ {A : Type 0} (In : A → Item → Type 0) (least : A → ℕ) (Fine : Body A → Type 0)
    (kind : Kind In least Fine) (page : Body A → Page) (d : ℕ)
    (good : (b : Body A) → b.count ≤ max_key → Fine b → Good (page b))
    (shape : (b : Body A) → min_key ≤ b.count → Fine b → Shape d min_key (page b))
    (size : (b : Body A) → page_count (page b) ≡ b.count)
    (within : (b : Body A) (o : Item) → Stored o (page b) → Within (λ x. In x o) b)
    (stored : (b : Body A) (o : Item) → Within (λ x. In x o) b → Stored o (page b)) (l r : Body A)
    (fl : Fine l) (fr : Fine r) (k : ℕ) (below : (o : Item) → Stored o (page l) → o.limit ≤ k)
    (above : (o : Item) → Stored o (page r) → k ≤ o.base) where
  apart : Apart In l r k
  apart = record { below = λ o w. below o (stored l o w); above = λ o w. above o (stored r o w) }

  stored_either :
      (b c : Body A) (o : Item)
      → Within (λ x. In x o) b ⊎ Within (λ x. In x o) c
      → Stored o (page b) ⊎ Stored o (page c)
  stored_either b c o (inl w) = inl (stored b o w)
  stored_either b c o (inr w) = inr (stored c o w)

  in_either :
      (b c : Body A) (o : Item)
      → Stored o (page b) ⊎ Stored o (page c)
      → Within (λ x. In x o) b ⊎ Within (λ x. In x o) c
  in_either b c o (inl st) = inl (within b o st)
  in_either b c o (inr st) = inr (within c o st)

  pub merge :
      l.count + r.count + 1 ≤ max_key
      → min_key ≤ l.count + r.count + 1
      → Merged d (page l) (page r) (some (page (collapse (least (r.child 0)) l r)))
  merge le big =
      let kmed = least (r.child 0) in
      let c = collapse kmed l r in
      let t = collapse-Cut kmed l r in
      let f = collapse-Fine In least Fine kind l r fl fr k apart in
      let n : c.count ≡ l.count + r.count + 1 = omega (arith, t.right_count) in
      merged (good c (rw n le) f) (shape c (rw n big) f)
        (λ o st. stored_either l r o (Cut-from (λ x. In x o) c l r l.count kmed t (within c o st)))
        (λ o st. stored c o (elim (in_either l r o st) [
          | inl w ↦ Cut-left (λ x. In x o) c l r l.count kmed t w
          | inr w ↦ Cut-right (λ x. In x o) c l r l.count kmed t w
        ]))

  pub halve :
      r.count ≤ max_key
      → l.count ≤ max_key
      → min_key ≤ l.count + 1
      → min_key ≤ r.count + 1
      → Uneven l.count r.count
      → Halved d
          (page l)
          (page r)
          (some (shared_pages page (redistribute max_key (least (r.child 0)) l r)))
  halve rm lm ls rs w =
      let kmed = least (r.child 0) in
      let s = redistribute max_key kmed l r in
      let x =
        redistribute-Rearranged In least Fine kind l r fl fr k apart max_key (ground (arith, w)) in
      elim (Bool-cases s.lost) [
        | inl gone ↦
            rw gone (cleared (size r ∙ ground (arith, gone, redistribute-lost max_key kmed l r rm)))
        | inr whole ↦ rw whole (
            halves (good s.left (ground (arith, x.left_count)) x.left)
              (good s.right (ground (arith, x.left_count, x.right_count)) x.right)
              (shape s.left (ground (arith, x.left_count, w)) x.left)
              (shape s.right (ground (arith, x.left_count, x.right_count, w)) x.right)
              (λ o st. x.apart.below o (within s.left o st))
              (λ o st. x.apart.above o (within s.right o st))
              (λ o st. stored_either l r o (x.from o (in_either s.left s.right o st)))
              (λ o st. stored_either s.left s.right o (x.keeps o (in_either l r o st))))
      ]
