-- ===== src/Btree/Delete/Lacking.antt =====
-- `BTDelete` of kernel/lib/klibc/btree.c in a page whose child has too few keys: what sharing or
-- collapsing leaves.
use mungi.Common.{
  ℕ, suc, ◌+◌, ◌-◌, ◌≤◌, ◌<◌, ◌≡◌, false, Bool, Option, arith, ◌==◌, ltb, Bool-cases, inl, inr, ◌⊎◌,
}
use mathlib.Core.Path.{subst}
use mungi.Btree.{Item, Page}
use mungi.Btree.Search.{Stored}
use mungi.Btree.Insert.{Body, node_of, max_key, min_key}
use mungi.Btree.Insert.Good.{Good}
use mungi.Btree.Insert.Node.{GoodNode}
use mungi.Btree.Delete.{shared_in, collapsed_in, page_count}
use mungi.Btree.Delete.Shape.{Shape, SomeFull, Removes, Leaves, enough, fewer, clash}
use mungi.Btree.Delete.Moves.{Halved, halves, cleared, Merged, merged}
use mungi.Btree.Delete.Shares.{
  with_halves, halves-GoodNode, halves-Every, halves-from, halves-keeps,
}
use mungi.Btree.Delete.Merges.{
  with_whole, whole-Shrunk, whole-GoodNode, whole-Every, whole-from, whole-keeps,
}

-- The same objects as before.
pub Removes-same :
    (old mid new : Item → Type 0) (k : ℕ) (obj : Item)
    → Removes old mid k obj
    → ((o : Item) → new o → mid o)
    → ((o : Item) → mid o → new o)
    → Removes old new k obj
Removes-same old mid new k obj r sub sup = record {
  base = r.base;
  held = r.held;
  from = λ o n. r.from o (sub o n);
  gone = λ o n. r.gone o (sub o n);
  keeps = λ o x. elim (r.keeps o x) [ inl e ↦ inl e | inr m ↦ inr (sup o m) ];
}

-- A page that an object was taken from, but for a child that has too few keys.
pub record Lacking (p : Page) (c : Body Page) (d below least k hi : ℕ) (obj : Item) : Type 0 where
  pub good : GoodNode c
  pub room : c.count ≤ max_key
  pub level : d ≡ suc below
  pub bound : least ≤ min_key
  pub size : least ≤ c.count
  pub some_key : 0 < c.count
  pub place : hi ≤ c.count
  pub removes : Removes (λ o. Stored o p) (λ o. Stored o (node_of c)) k obj
  pub few : page_count (c.child hi) < min_key
  pub few_shape : Shape below (min_key - 1) (c.child hi)
  pub others : (i : ℕ) → i ≤ c.count → (i == hi) ≡ false → Shape below min_key (c.child i)
  pub full :
      (i : ℕ) → i ≤ c.count → (i == hi) ≡ false → page_count (c.child i) ≡ max_key → SomeFull p

module _ (p : Page) (c : Body Page) (d below least k hi : ℕ) (obj : Item)
    (w : Lacking p c d below least k hi obj) (lo : ℕ) (h : lo < c.count)
    (here : (hi ≡ lo) ⊎ (hi ≡ lo + 1)) where
  outside :
      (i : ℕ)
      → i ≤ c.count
      → (i == lo) ≡ false
      → (i == lo + 1) ≡ false
      → Shape below min_key (c.child i)
  outside i le x y = w.others i le (ground (arith, here))

  pub shared_in-Leaves :
      (x : Option (Bool × Page × ℕ × Page))
      → Halved below (c.child lo) (c.child (lo + 1)) x
      → Leaves d least p k (shared_in c lo lo (lo + 1) obj x)
  unfolding shared_in
  shared_in-Leaves _ (halves {l} {r} {k = m} gl gr sl sr left right from keeps) =
      let n = halves-GoodNode c lo h w.good l r m gl gr left right from keeps in
      let f = halves-from c lo h w.good l r m gl gr left right from keeps in
      let u = halves-keeps c lo h w.good l r m gl gr left right from keeps in
      enough (w.room, n.separated, n.children)
        (
          below,
          w.level,
          w.size,
          halves-Every c lo h w.good l r m gl gr left right from keeps (Shape below min_key) outside
              sl sr,
        )
        (Removes-same (λ o. Stored o p) (λ o. Stored o (node_of c))
          (λ o. Stored o (node_of (with_halves c lo h w.good l m r))) k obj w.removes f u)
  shared_in-Leaves _ (cleared full) = clash (right_full full)
    where
      right_full : page_count (c.child (lo + 1)) ≡ max_key → SomeFull p
      right_full e = elim (Bool-cases (lo + 1 == hi)) [
        | inl same ↦
            let z : lo + 1 ≡ hi = ground arith in
            absurd (omega (arith, w.few, (subst (λ n. page_count (c.child n) ≡ max_key) z e)))
        | inr apart ↦ w.full (lo + 1) (omega (arith, h)) apart e
      ]

  pub collapsed_in-Leaves :
      (x : Option Page)
      → Merged below (c.child lo) (c.child (lo + 1)) x
      → Leaves d least p k (collapsed_in c lo lo obj x)
  unfolding collapsed_in
  collapsed_in-Leaves _ (merged {c = q} gq sq from keeps) =
      let b = with_whole c lo h w.good q in
      let s = whole-Shrunk c lo h w.good q gq from keeps in
      let n = whole-GoodNode c lo h w.good q gq from keeps in
      let good : Good (node_of b) = (omega (arith, w.room, s.count), n.separated, n.children) in
      let e = whole-Every c lo h w.good q gq from keeps (Shape below min_key) sq outside in
      let r =
        Removes-same (λ o. Stored o p) (λ o. Stored o (node_of c)) (λ o. Stored o (node_of b)) k obj
          w.removes (whole-from c lo h w.good q gq from keeps)
          (whole-keeps c lo h w.good q gq from keeps) in
      elim (Bool-cases (ltb (c.count - 1) min_key)) [
        | inl few ↦
            rw (collapsed_in, few)
              (fewer good (below, w.level, omega (arith, w.size, s.count), e)
                (ground (arith, s.count)) r)
        | inr many ↦
            rw (collapsed_in, many)
              (enough good (below, w.level, ground (arith, w.bound, s.count), e) r)
      ]
