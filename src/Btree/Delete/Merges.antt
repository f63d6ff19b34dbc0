-- ===== src/Btree/Delete/Merges.antt =====
-- `BTDelete` of kernel/lib/klibc/btree.c: the page above two children that are collapsed.
use mungi.Common.{
  ℕ, ◌+◌, ◌-◌, ◌≤◌, ◌<◌, ◌≡◌, sym, ap, ◌∙◌, false, arith, ◌==◌, Bool-cases, inl, inr, ◌⊎◌,
}
use mathlib.Core.Path.{subst}
use mungi.Common.Int.{pos}
use mungi.Btree.{Item, Page}
use mungi.Btree.Search.{Stored, in_node}
use mungi.Btree.Insert.{Body, node_of}
use mungi.Btree.Insert.Members.{Within, Every}
use mungi.Btree.Insert.Good.{Holds, Good}
use mungi.Btree.Insert.Node.{
  GoodNode, Within-Stored, Stored-Within, set_child, set_child_self, set_child_other,
}
use mungi.Btree.Share.{delete_page}
use mungi.Btree.Share.Shrunk.{
  Shrunk, delete_page-Shrunk, Shrunk-from, Shrunk-keeps, Shrunk-Every, BetweenBut, Shrunk-Separated,
}

module _ (c : Body Page) (lo : ℕ) (h : lo < c.count) (g : GoodNode c) where
  -- With one page for the two children.
  abbrev pub with_whole : Page → Body Page
  with_whole q = delete_page (set_child c lo q) (pos lo)

  module _ (q : Page) (gq : Good q)
      (from : (o : Item) → Stored o q → Stored o (c.child lo) ⊎ Stored o (c.child (lo + 1)))
      (keeps : (o : Item) → Stored o (c.child lo) ⊎ Stored o (c.child (lo + 1)) → Stored o q) where
    pub whole-Shrunk : Shrunk (set_child c lo q) (with_whole q) (lo + 1)
    whole-Shrunk = delete_page-Shrunk (set_child c lo q) lo h

    set-Every :
        (P : Page → Type 0)
        → P q
        → (i : ℕ) → ((i == lo) ≡ false → P (c.child i))
        → P ((set_child c lo q).child i)
    set-Every P pq i other = elim (Bool-cases (i == lo)) [
      | inl same ↦
          let z : i ≡ lo = ground arith in
          subst P (sym (ap (set_child c lo q).child z ∙ set_child_self c lo q)) pq
      | inr apart ↦ subst P (sym (set_child_other c lo q i apart)) (other apart)
    ]

    pub whole-Every :
        (P : Page → Type 0)
        → P q
        → ((i : ℕ) → i ≤ c.count → (i == lo) ≡ false → (i == lo + 1) ≡ false → P (c.child i))
        → Every P (with_whole q)
    whole-Every P pq other =
        Shrunk-Every P (set_child c lo q) (with_whole q) (lo + 1) whole-Shrunk
          λ i le far. set-Every P pq i λ apart. other i le apart far

    merged_between :
        (o : Item)
        → Stored o (c.child lo) ⊎ Stored o (c.child (lo + 1))
        → BetweenBut c.key c.count lo lo o
    merged_between o (inl st) =
        let w = g.separated.between lo (omega (arith, h)) o st in
        record { from = λ j l n. w.from j l; to = λ j l n m. w.to j l m }
    merged_between o (inr st) =
        let w = g.separated.between (lo + 1) (omega (arith, h)) o st in
        record {
          from = λ j l n. w.from j (omega (arith, l));
          to = λ j l n m. ground (arith, w.to j);
        }

    whole_between :
        (i : ℕ)
        → i ≤ c.count
        → (i == lo + 1) ≡ false
        → (o : Item) → Stored o ((set_child c lo q).child i)
        → BetweenBut c.key c.count i (lo + 1 - 1) o
    whole_between i le far o st =
        let n : lo + 1 - 1 ≡ lo = omega arith in
        rw n (elim (Bool-cases (i == lo)) [
          | inl same ↦
              let z : i ≡ lo = ground arith in
              rw z (
                merged_between o (
                  from o (
                    subst (λ p. Stored o p) (ap (set_child c lo q).child z ∙ set_child_self c lo q)
                      st)))
          | inr apart ↦
              let w =
                g.separated.between i le o
                  (subst (λ p. Stored o p) (set_child_other c lo q i apart) st) in
              record { from = λ j l m. w.from j l; to = λ j l m e. w.to j l e }
        ])

    pub whole-GoodNode : GoodNode (with_whole q)
    whole-GoodNode = record {
      separated =
          Shrunk-Separated Holds (set_child c lo q) (with_whole q) (lo + 1) whole-Shrunk
            g.separated.sorted whole_between;
      children = whole-Every Good gq λ i le apart far. g.children i le;
    }

    whole_at : (o : Item) → Stored o q → Within (λ p. Stored o p) (with_whole q)
    whole_at o st =
        Shrunk-keeps (λ p. Stored o p) (set_child c lo q) (with_whole q) (lo + 1) lo whole-Shrunk
          (omega (arith, h)) (ground arith)
          (subst (λ p. Stored o p) (sym (set_child_self c lo q)) st)

    pub whole-from : (o : Item) → Stored o (node_of (with_whole q)) → Stored o (node_of c)
    whole-from o st =
        let (i, le, far, s) =
          Shrunk-from (λ p. Stored o p) (set_child c lo q) (with_whole q) (lo + 1) whole-Shrunk
            (Stored-Within (with_whole q) o st) in
        elim (Bool-cases (i == lo)) [
          | inl same ↦
              let z : i ≡ lo = ground arith in
              either (
                from o (
                  subst (λ p. Stored o p) (ap (set_child c lo q).child z ∙ set_child_self c lo q)
                    s))
          | inr apart ↦ in_node i le (subst (λ p. Stored o p) (set_child_other c lo q i apart) s)
        ]
      where
        either : Stored o (c.child lo) ⊎ Stored o (c.child (lo + 1)) → Stored o (node_of c)
        either (inl s) = in_node lo (omega (arith, h)) s
        either (inr s) = in_node (lo + 1) (omega (arith, h)) s

    pub whole-keeps : (o : Item) → Stored o (node_of c) → Stored o (node_of (with_whole q))
    whole-keeps o (in_node i le st) = elim (Bool-cases (i == lo)) [
      | inl same ↦
          let z : i ≡ lo = ground arith in
          Within-Stored (with_whole q) o
            (whole_at o (keeps o (inl (subst (λ n. Stored o (c.child n)) z st))))
      | inr apart ↦ elim (Bool-cases (i == lo + 1)) [
        | inl next ↦
            let z : i ≡ lo + 1 = ground arith in
            Within-Stored (with_whole q) o
              (whole_at o (keeps o (inr (subst (λ n. Stored o (c.child n)) z st))))
        | inr far ↦ Within-Stored (with_whole q) o (
            Shrunk-keeps (λ p. Stored o p) (set_child c lo q) (with_whole q) (lo + 1) i whole-Shrunk
              le far (subst (λ p. Stored o p) (sym (set_child_other c lo q i apart)) st))
      ]
    ]
