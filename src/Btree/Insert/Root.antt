-- ===== src/Btree/Insert/Root.antt =====
-- `BTIns` of kernel/lib/klibc/btree.c.
use mungi.Common.{
  ℕ, ◌≤◌, ◌<◌, ◌≡◌, refl, sym, Bool, true, false, Option, some, none, arith, ◌==◌, Bool-cases, inl,
  inr, ◌⊎◌,
}
use mathlib.Core.Path.{subst}
use mungi.Common.Arrays.{update}
use mungi.Btree.{Item, Page, node, leaf}
use mungi.Btree.Search.{Stored, in_leaf, in_node}
use mungi.Btree.Insert.{insert_from, bt_ins, Inserted, Retval, bt_ok, bt_alloc_fail}
use mungi.Btree.Insert.Good.{Good, Adds, Refusal, Gives, grown, halved, refused, no_memory}
use mungi.Btree.Insert.Short.{Short, insert_from-Short}
use mungi.Btree.Insert.Tree.{Reads, insert_from-Gives}

-- A tree that may be empty.
abbrev pub GoodTree : Option Page → Type 0
GoodTree none = Unit {0}
GoodTree (some p) = Good p

abbrev pub ReadsTree : (Page → ℕ) → Option Page → Type 0
ReadsTree page_key none = Unit {0}
ReadsTree page_key (some p) = Reads page_key p

abbrev pub Contains : Option Page → Item → Type 0
Contains none o = ⊥
Contains (some p) o = Stored o p

-- What `BTIns` may leave of the tree: one more object, the same objects, or no page was found.
pub data Result (memory : ℕ → Bool) (root_memory : Bool) (root : Option Page) (obj : Item)
    : Option (Retval × Option Page × Option Item) → Type 0 where
  added :
      {q : Page} {ngb : Option Item}
      → Good q
      → Adds (Contains root) (λ o. Stored o q) obj
      → Result memory root_memory root obj (some (bt_ok, some q, ngb))
  same_tree :
      {r : Retval} {q : Page} {ngb : Option Item}
      → Refusal r
      → Good q
      → ((o : Item) → Stored o q → Contains root o)
      → ((o : Item) → Contains root o → Stored o q)
      → Result memory root_memory root obj (some (r, some q, ngb))
  no_page :
      {t : Option Page} {ngb : Option Item}
      → ((d : ℕ) × (memory d ≡ false)) ⊎ (root_memory ≡ false)
      → Result memory root_memory root obj (some (bt_alloc_fail, t, ngb))

-- The first leaf.
pub first_leaf-Good : (obj : Item) → obj.base < obj.limit → Good (leaf 0 (λ i. 0) (λ i. obj))
first_leaf-Good obj e = (
  omega arith,
  record {
    separated = record {
      sorted = λ i j h l. absurd (omega (arith, l));
      between = λ i le o s. record {
        from = λ j h. absurd (omega (arith, h, le));
        to = λ j h l. absurd (omega (arith, l));
      };
    };
    exact = λ i h. absurd (omega (arith, h));
    extents = λ i h. e;
  },
)

-- The new root above two pages.
abbrev pub above : Page → ℕ → Page → Page
above l k r = node 1 (λ i. k) (update (λ i. r) 0 l)

pub above-Good :
    (l r : Page) (k : ℕ)
    → Good l
    → Good r
    → ((o : Item) → Stored o l → o.limit ≤ k)
    → ((o : Item) → Stored o r → k ≤ o.base)
    → Good (above l k r)
unfolding update
above-Good l r k gl gr below behind = (
  omega arith,
  record {
    sorted = λ i j h m. absurd (omega (arith, h, m));
    between = λ i le o st. elim (Bool-cases (i == 0)) [
      | inl first ↦ record {
        from = λ j h. absurd (ground (arith, first));
        to = λ j h m. below o (rw first at st);
      }
      | inr second ↦ record {
        from = λ j h. behind o (rw second at st);
        to = λ j h m. absurd (ground (arith, second));
      }
    ];
  },
  λ i le. elim (Bool-cases (i == 0)) [ inl first ↦ rw first gl | inr second ↦ rw second gr ],
)

above-Adds :
    (root : Option Page) (l r : Page) (k : ℕ) (obj : Item)
    → Adds (Contains root) (λ o. Stored o l ⊎ Stored o r) obj
    → Adds (Contains root) (λ o. Stored o (above l k r)) obj
unfolding update
above-Adds root l r k obj a = record {
  from = λ o st. a.from o (below o st);
  keeps = λ o st. up o (a.keeps o st);
  holds = up obj a.holds;
}
  where
    up : (o : Item) → Stored o l ⊎ Stored o r → Stored o (above l k r)
    up o (inl st) = in_node 0 (omega arith) st
    up o (inr st) = in_node 1 (omega arith) st

    below : (o : Item) → Stored o (above l k r) → Stored o l ⊎ Stored o r
    below o (in_node i le st) = elim (Bool-cases (i == 0)) [
      | inl first ↦ inl (rw first at st)
      | inr second ↦ inr (rw second at st)
    ]

-- In a tree in order BTIns ends for an object whose extent is not empty: either the tree, in order
-- again, has the objects from before and the new one, or the object was refused as a duplicate or
-- an overlap and the tree has the objects from before, or some page that was needed was not found.
-- Full internal pages, if there are any, are asked to be such that the first word of the child
-- behind the middle key, read as an object's base, is that key.
pub bt_ins-Result :
    (page_key : Page → ℕ) (memory : ℕ → Bool) (root_memory : Bool) (root : Option Page) (obj : Item)
    → GoodTree root
    → ReadsTree page_key root
    → obj.base < obj.limit
    → Result memory root_memory root obj (bt_ins page_key memory root_memory root obj)
unfolding bt_ins
bt_ins-Result page_key memory true none obj g reads e = added (first_leaf-Good obj e) (record {
  from = λ o st. inr (only o st);
  keeps = λ o st. elim st [ ];
  holds = in_leaf 0 (omega arith) refl;
})
  where
    only : (o : Item) → Stored o (leaf 0 (λ i. 0) (λ i. obj)) → o ≡ obj
    only o (in_leaf i le s) = sym s
bt_ins-Result page_key memory false none obj g reads e = no_page (inr refl)
bt_ins-Result page_key memory root_memory (some p) obj g reads e =
    go (insert_from page_key memory 0 p obj) refl
      (insert_from-Gives page_key memory 0 p obj g reads e)
  where
    go :
        (x : Inserted)
        → insert_from page_key memory 0 p obj ≡ x
        → Gives p obj x
        → Result memory root_memory (some p) obj (bt_ins page_key memory root_memory (some p) obj)
    go _ z (grown gq a) = rw (bt_ins, z) (added gq a)
    go _ z (refused why gq sub sup) = rw (bt_ins, z) (same_tree why gq sub sup)
    go _ z no_memory =
        rw (bt_ins, z)
          (no_page (inl (subst (Short memory) z (insert_from-Short page_key memory 0 p obj))))
    go _ z (halved {l} {r} {k} gl gr below behind a) = elim (Bool-cases root_memory) [
      | inl some_page ↦
          rw (bt_ins, z, some_page)
            (added (above-Good l r k gl gr below behind) (above-Adds (some p) l r k obj a))
      | inr none_left ↦ rw (bt_ins, z, none_left) (no_page (inr refl))
    ]
