-- ===== src/Btree/Delete/Shares.antt =====
-- `BTDelete` of kernel/lib/klibc/btree.c: the page above two children that share what
-- they have.
use mungi.Common.{
  ℕ, ◌+◌, ◌≤◌, ◌<◌, ◌≡◌, refl, sym, ap, ◌∙◌, false, arith, ◌==◌, Bool-cases, inl, inr, ◌⊎◌,
}
use mathlib.Core.Path.{subst}
use mungi.Common.Arrays.{update}
use mungi.Btree.{Item, Page}
use mungi.Btree.Search.{Stored}
use mungi.Btree.Insert.{Body, node_of}
use mungi.Btree.Insert.Members.{Every}
use mungi.Btree.Insert.Good.{Holds, Good}
use mungi.Btree.Insert.Node.{GoodNode, Within-Stored, Stored-Within}
use mungi.Btree.Delete.{body}
use mungi.Btree.Delete.Least.{Good-Inhabited}
use mungi.Btree.Delete.Changed.{
  Changed, Changed-Separated, Changed-Every, Changed-from, Changed-keeps,
}

module _ (c : Body Page) (lo : ℕ) (h : lo < c.count) (g : GoodNode c) where
  -- With two children and the key between them set anew.
  abbrev pub with_halves : Page → ℕ → Page → Body Page
  with_halves l k r = body c.count (update c.key lo k) (update (update c.child lo l) (lo + 1) r)

  module _ (l r : Page) (k : ℕ) (gl : Good l) (gr : Good r)
      (left : (o : Item) → Stored o l → o.limit ≤ k) (right : (o : Item) → Stored o r → k ≤ o.base)
      (from : (o : Item)
        → Stored o l ⊎ Stored o r
        → Stored o (c.child lo) ⊎ Stored o (c.child (lo + 1)))
      (keeps : (o : Item)
        → Stored o (c.child lo) ⊎ Stored o (c.child (lo + 1))
        → Stored o l ⊎ Stored o r) where
    new_left : (with_halves l k r).child lo ≡ l
    unfolding update
    new_left = ground arith

    new_right : (with_halves l k r).child (lo + 1) ≡ r
    unfolding update
    new_right = ground arith

    halves-Changed : Changed Holds c (with_halves l k r) lo k
    unfolding update
    halves-Changed = record {
      inside = h;
      count = refl;
      key_new = ground arith;
      key_other = λ j x. ground arith;
      child_other = λ j x y. ground arith;
      left = λ o st. left o (subst (λ p. Stored o p) new_left st);
      right = λ o st. right o (subst (λ p. Stored o p) new_right st);
      from_left = λ o st. from o (inl (subst (λ p. Stored o p) new_left st));
      from_right = λ o st. from o (inr (subst (λ p. Stored o p) new_right st));
      some_left = rw new_left (Good-Inhabited l gl);
      some_right = rw new_right (Good-Inhabited r gr);
    }

    pub halves-GoodNode : GoodNode (with_halves l k r)
    halves-GoodNode =
        let t = halves-Changed in
        record {
          separated = Changed-Separated Holds c (with_halves l k r) lo k t g.separated;
          children =
              Changed-Every Holds c (with_halves l k r) lo k t g.separated Good g.children
                (subst Good (sym new_left) gl) (subst Good (sym new_right) gr);
        }

    pub halves-Every :
        (P : Page → Type 0)
        → ((i : ℕ) → i ≤ c.count → (i == lo) ≡ false → (i == lo + 1) ≡ false → P (c.child i))
        → P l
        → P r
        → Every P (with_halves l k r)
    unfolding update
    halves-Every P other pl pr i le = elim (Bool-cases (i == lo)) [
      | inl same ↦
          let z : i ≡ lo = ground arith in
          subst P (sym (ap (with_halves l k r).child z ∙ new_left)) pl
      | inr apart ↦ elim (Bool-cases (i == lo + 1)) [
        | inl next ↦
            let z : i ≡ lo + 1 = ground arith in
            subst P (sym (ap (with_halves l k r).child z ∙ new_right)) pr
        | inr far ↦ subst P (sym (halves-Changed.child_other i apart far)) (other i le apart far)
      ]
    ]

    pub halves-from : (o : Item) → Stored o (node_of (with_halves l k r)) → Stored o (node_of c)
    halves-from o st = Within-Stored c o (
        Changed-from Holds c (with_halves l k r) lo k halves-Changed g.separated o
          (Stored-Within (with_halves l k r) o st))

    pub halves-keeps : (o : Item) → Stored o (node_of c) → Stored o (node_of (with_halves l k r))
    halves-keeps o st = Within-Stored (with_halves l k r) o (
        Changed-keeps Holds c (with_halves l k r) lo k halves-Changed g.separated o
          (λ w. elim (keeps o w) [
            | inl s ↦ inl (subst (λ p. Stored o p) (sym new_left) s)
            | inr s ↦ inr (subst (λ p. Stored o p) (sym new_right) s)
          ])
          (Stored-Within c o st))
