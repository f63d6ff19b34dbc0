-- ===== src/Btree/Delete/Rekey.antt =====
-- `BTDelete` of kernel/lib/klibc/btree.c in an internal page: the child after the deletion, and the key
-- in front of it.
use mungi.Common.{
  ℕ, zero, suc, ◌+◌, ◌≤◌, ◌<◌, ◌≡◌, refl, sym, ap, ◌∙◌, false, arith, ◌==◌, Bool-cases, inl, inr,
  ◌⊎◌,
}
use mathlib.Core.Path.{subst}
use mungi.Common.Arrays.{update}
use mungi.Btree.{Item, Page}
use mungi.Btree.Keys.{Split}
use mungi.Btree.Search.{Stored, in_node}
use mungi.Btree.Insert.{Body, node_of}
use mungi.Btree.Insert.Good.{Holds, Good, extent-Good}
use mungi.Btree.Insert.Node.{GoodNode, set_child, set_child_self, set_child_other}
use mungi.Btree.Delete.{rekey, least_key}
use mungi.Btree.Delete.Least.{Good-Inhabited, least_item, least_key-least}
use mungi.Btree.Delete.Leaf.{other_side}
use mungi.Btree.Delete.Shape.{Removes}
use mungi.Btree.Delete.Changed.{Changed, Changed-Separated}

-- The child is replaced by a page that holds nothing new.
module _ (b : Body Page) (hi : ℕ) (q : Page) (g : GoodNode b) (h : hi ≤ b.count) where
  -- A property of the child at an index, from the new child or from the old one.
  pub at_child :
      (P : Page → Type 0) (i : ℕ)
      → (i ≡ hi → P q)
      → ((i == hi) ≡ false → P (b.child i))
      → P ((set_child b hi q).child i)
  at_child P i here other = elim (Bool-cases (i == hi)) [
    | inl same ↦
        let z : i ≡ hi = ground arith in
        subst P (sym (ap (set_child b hi q).child z ∙ set_child_self b hi q)) (here z)
    | inr apart ↦ subst P (sym (set_child_other b hi q i apart)) (other apart)
  ]

  -- An object below the child at an index.
  pub child_of :
      (o : Item) (i : ℕ)
      → Stored o ((set_child b hi q).child i)
      → (i ≡ hi) × Stored o q ⊎ ((i == hi) ≡ false) × Stored o (b.child i)
  child_of o i st = elim (Bool-cases (i == hi)) [
    | inl same ↦
        let z : i ≡ hi = ground arith in
        inl (z, subst (λ p. Stored o p) (ap (set_child b hi q).child z ∙ set_child_self b hi q) st)
    | inr apart ↦ inr (apart, subst (λ p. Stored o p) (set_child_other b hi q i apart) st)
  ]

  pub less-GoodNode :
      Good q → ((o : Item) → Stored o q → Stored o (b.child hi)) → GoodNode (set_child b hi q)
  less-GoodNode gq sub = record {
    separated = record {
      sorted = g.separated.sorted;
      between = λ i le o st.
          g.separated.between i le o
            (elim (child_of o i st) [ inl (z, s) ↦ rw z (sub o s) | inr (apart, s) ↦ s ]);
    };
    children = λ i le. at_child Good i (λ z. gq) (λ apart. g.children i le);
  }

  pub less-Removes :
      (k : ℕ) (obj : Item)
      → Split b.key k 0 b.count hi
      → Removes (λ o. Stored o (b.child hi)) (λ o. Stored o q) k obj
      → Removes (λ o. Stored o (node_of b)) (λ o. Stored o (node_of (set_child b hi q))) k obj
  less-Removes k obj t r = record {
    base = r.base;
    held = in_node hi h r.held;
    from = λ o st. elim st [
      | in_node i le s ↦ elim (child_of o i s) [
        | inl (z, x) ↦ in_node hi h (r.from o x)
        | inr (apart, x) ↦ in_node i le x
      ]
    ];
    gone = λ o st. elim st [
      | in_node i le s ↦ elim (child_of o i s) [
        | inl (z, x) ↦ r.gone o x
        | inr (apart, x) ↦
            other_side b.key b.count k hi i o t le apart (g.separated.between i le o x)
              (extent-Good (b.child i) o (g.children i le) x)
      ]
    ];
    keeps = kept;
  }
    where
      kept : (o : Item) → Stored o (node_of b) → (o ≡ obj) ⊎ Stored o (node_of (set_child b hi q))
      kept o (in_node i le st) = elim (Bool-cases (i == hi)) [
        | inl same ↦
            let z : i ≡ hi = ground arith in
            elim (r.keeps o (subst (λ n. Stored o (b.child n)) z st)) [
              | inl e ↦ inl e
              | inr s ↦ inr (in_node hi h (subst (λ p. Stored o p) (sym (set_child_self b hi q)) s))
            ]
        | inr apart ↦
            inr (in_node i le (subst (λ p. Stored o p) (sym (set_child_other b hi q i apart)) st))
      ]

-- Only a key has changed.
pub record Rekeyed (b c : Body Page) : Type 0 where
  pub count : c.count ≡ b.count
  pub child : c.child ≡ b.child
  pub good : GoodNode c

set_key-Changed :
    (b : Body Page) (n : ℕ)
    → GoodNode b
    → n < b.count
    → Changed Holds b
        (record b { key = update b.key n (least_key (b.child (suc n))) })
        n
        (least_key (b.child (suc n)))
unfolding update
set_key-Changed b n g h =
    let e : suc n ≡ n + 1 = omega arith in
    let (x, sx, low) = least_item (b.child (suc n)) in
    let inside : suc n ≤ b.count = omega (arith, h) in
    record {
      inside = h;
      count = refl;
      key_new = ground arith;
      key_other = λ j y. ground arith;
      child_other = λ j y z. refl;
      left = λ o st. omega (
        arith,
        low,
        (g.separated.between n (omega (arith, h)) o st).to n (omega arith) h,
        (g.separated.between (suc n) inside x sx).from n (omega arith),
      );
      right = λ o st.
          least_key-least (b.child (suc n)) o (g.children (suc n) inside)
            (subst (λ m. Stored o (b.child m)) (sym e) st);
      from_left = λ o st. inl st;
      from_right = λ o st. inr st;
      some_left = Good-Inhabited (b.child n) (g.children n (omega (arith, h)));
      some_right = Good-Inhabited (b.child (n + 1)) (g.children (n + 1) (omega (arith, h)));
    }

pub rekey-Rekeyed :
    (b : Body Page) (hi k : ℕ) → GoodNode b → hi ≤ b.count → Rekeyed b (rekey b hi k)
unfolding rekey
rekey-Rekeyed b zero k g h = record { count = refl; child = refl; good = g }
rekey-Rekeyed b (suc n) k g h = elim (Bool-cases (b.key n == k)) [
  | inl same ↦
      let c = record b { key = update b.key n (least_key (b.child (suc n))) } in
      let t = set_key-Changed b n g (omega (arith, h)) in
      rw same (record {
        count = refl;
        child = refl;
        good = record {
          separated = Changed-Separated Holds b c n (least_key (b.child (suc n))) t g.separated;
          children = g.children;
        };
      })
  | inr apart ↦ rw apart (record { count = refl; child = refl; good = g })
]
