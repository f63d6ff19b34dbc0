-- ===== src/Tests/Trees.antt =====
-- Insertions into a small tree, and into a full internal page.
use mungi.Common.{ℕ, ◌≤◌, ◌≡◌, refl, true, Bool, some, arith, ◌==◌, Bool-cases, inl, inr}
use mungi.Common.Arrays.{update}
use mungi.Common.Int.{pos}
use mungi.Btree.{Item, Page, node, leaf, bt_search, bt_found}
use mungi.Btree.Search.{Stored, in_leaf}
use mungi.Btree.Insert.{
  bt_ins, bt_ok, insert_from, insert_place, insert_leaf, insert_node, insert_page, put_in, leaf_of,
  item_key,
}
use mungi.Btree.Insert.Good.{Good}
use mungi.Btree.Insert.Tree.{Reads}
use mungi.Btree.Insert.Root.{first_leaf-Good, above, above-Good, Result, bt_ins-Result}
use mungi.Btree.Insert.Lookup.{bt_search-bt_ins}

abbrev low : Item
low = record { obj = 1; base = 4096; limit = 8192 }

abbrev high : Item
high = record { obj = 2; base = 16384; limit = 20480 }

abbrev between : Item
between = record { obj = 3; base = 8192; limit = 16384 }

abbrev one_leaf : Item → Page
one_leaf o = leaf 0 (λ i. 0) (λ i. o)

abbrev two_leaves : Page
two_leaves = above (one_leaf low) 16384 (one_leaf high)

below_root : (o : Item) → Stored o (one_leaf low) → o.limit ≤ 16384
below_root o (in_leaf i le e) = ground (arith, e)

behind_root : (o : Item) → Stored o (one_leaf high) → 16384 ≤ o.base
behind_root o (in_leaf i le e) = ground (arith, e)

two_leaves-Good : Good two_leaves
two_leaves-Good =
    above-Good (one_leaf low) (one_leaf high) 16384 (first_leaf-Good low (omega arith))
      (first_leaf-Good high (omega arith)) below_root behind_root

abbrev first_word : Page → ℕ
first_word p = 0

abbrev pages : ℕ → Bool
pages d = true

leaves-Reads : (i : ℕ) → i ≤ 1 → Reads first_word (update (λ j. one_leaf high) 0 (one_leaf low) i)
unfolding update
leaves-Reads i le = elim (Bool-cases (i == 0)) [ inl e ↦ rw e tt | inr e ↦ rw e tt ]

two_leaves-Reads : Reads first_word two_leaves
two_leaves-Reads = ((λ h. absurd (omega (arith, h))), leaves-Reads)

bt_ins-Result_example :
    Result pages true
      (some two_leaves)
      between
      (bt_ins first_word pages true (some two_leaves) between)
bt_ins-Result_example =
    bt_ins-Result first_word pages true (some two_leaves) between two_leaves-Good two_leaves-Reads
      (omega arith)

abbrev grown_leaf : Page
grown_leaf = leaf_of (
    insert_page item_key (record { count = 0; key = λ i. 0; child = λ i. low }) (pos 0) 8192
      between)

abbrev grown_tree : Page
grown_tree =
    node 1 (λ i. 16384) (update (update (λ j. one_leaf high) 0 (one_leaf low)) 0 grown_leaf)

insert_between :
    bt_ins first_word pages true (some two_leaves) between ≡ some (bt_ok, some grown_tree, some low)
unfolding bt_ins insert_from insert_place insert_leaf insert_node put_in update
insert_between = refl

bt_search-bt_ins_example : bt_search (some grown_tree) 12288 ≡ some (bt_found, some between)
bt_search-bt_ins_example =
    bt_search-bt_ins first_word pages true (some two_leaves) between grown_tree (some low) between
      12288 two_leaves-Good two_leaves-Reads (omega arith) insert_between (inr refl) (omega arith)
      (omega arith)
