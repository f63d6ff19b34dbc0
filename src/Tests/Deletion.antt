-- ===== src/Tests/Deletion.antt =====
-- Deletions from small trees.
use mungi.Common.{
  ℕ, [], ◌∷◌, ◌+◌, ◌*◌, ◌/◌, ◌≤◌, ◌≡◌, refl, true, Bool, some, arith, ◌&&◌, ◌==◌, ltb, Bool-cases,
  inl, inr,
}
use mathlib.Core.Path.{subst}
use mungi.Common.Arrays.{update}
use mungi.Common.Checked.{done, panic}
use mungi.Common.Int.{pos, ◌-ℤ◌}
use mungi.Btree.{Item, Page, page_search, bt_search}
use mungi.Btree.Search.{Between, Stored, in_leaf}
use mungi.Btree.Insert.{
  Body, bt_ins, bt_ok, leaf_of, item_key, insert_page, insert_from, insert_place, insert_leaf,
  put_in, min_key,
}
use mungi.Btree.Insert.Good.{Good}
use mungi.Btree.Insert.Root.{above, above-Good}
use mungi.Btree.Share.{delete_page, redistribute}
use mungi.Btree.Share.Middle.{redistribute-lost}
use mungi.Btree.Pool.{PagePool, free_page, freed_bit}
use mungi.Btree.Given.{
  Place, given_repair, given_node, given_from, given_root, given, free_pages, bt_del, Ends,
}
use mungi.Btree.Delete.{
  Tree, del_ok, del_root, rekey, fat_sibling, delete_node, repair, body, delete_from, delete_leaf,
  shrink_root,
}
use mungi.Btree.Delete.Shape.{Shape}
use mungi.Btree.Delete.Root.{LevelRoot, LevelTree, Deletes, bt_del-Deletes}
use mungi.Btree.Delete.Lookup.{Kept, bt_search-bt_del}
use mungi.Btree.Undo.{bt_ins-LevelRoot, Undone, bt_del-bt_ins}

abbrev item : ℕ → Item
item i = record { obj = i; base = 8192 * i; limit = 8192 * i + 4096 }

-- A leaf with so many keys, and the objects from the one on.
abbrev run : ℕ → ℕ → Body Item
run n from = body n (λ i. 8192 * (from + (i + 1))) (λ i. item (from + i))

run-Good : (n from : ℕ) → n ≤ 254 → Good (leaf_of (run n from))
run-Good n from h = (
  h,
  record {
    separated = record {
      sorted = λ i j l m. omega (arith, l);
      between = λ i le o e.
          subst (λ x. Between (run n from).key n i x) e
            (record { from = λ j l. omega (arith, l); to = λ j l m. omega (arith, l) });
    };
    exact = λ i l. refl;
    extents = λ i l. omega arith;
  },
)

below_run : (o : Item) → Stored o (leaf_of (run 127 0)) → o.limit ≤ 1048576
below_run o (in_leaf i le e) = subst (λ x. x.limit ≤ 1048576) e (omega (arith, le))

behind_run : (o : Item) → Stored o (leaf_of (run 127 128)) → 1048576 ≤ o.base
behind_run o (in_leaf i le e) = subst (λ x. 1048576 ≤ x.base) e (omega (arith, le))

-- A root with two leaves that have as few keys as they may.
abbrev two_runs : Tree
two_runs = record {
  root = some (above (leaf_of (run 127 0)) 1048576 (leaf_of (run 127 128)));
  depth = 2;
}

runs-Shape :
    (i : ℕ)
    → i ≤ 1
    → Shape 0 min_key (update (λ j. leaf_of (run 127 128)) 0 (leaf_of (run 127 0)) i)
unfolding update
runs-Shape i le = elim (Bool-cases (i == 0)) [
  | inl e ↦ rw e (refl, omega arith)
  | inr e ↦ rw e (refl, omega arith)
]

two_runs-LevelTree : LevelTree two_runs
two_runs-LevelTree = (
  1,
  refl,
  above-Good (leaf_of (run 127 0)) (leaf_of (run 127 128)) 1048576 (run-Good 127 0 (omega arith))
      (run-Good 127 128 (omega arith)) below_run behind_run,
  (0, refl, omega arith, runs-Shape),
)

-- A pool of 64 pages, and where the pages of a tree of two levels are in it.
abbrev some_used : ℕ → PagePool
some_used n = record { base = 1048576; size = 64; n_allocs = n; n_frees = 0; bitmap = λ i. ltb i n }

abbrev in_a_row : Place → ℕ
in_a_row [] = 1048576
in_a_row (i ∷ place) = 1048576 + 4096 * (i + 1)

bt_del-Deletes_example :
    Ends in_a_row
      (some_used 3)
      two_runs
      24576
      (Deletes two_runs 24576)
      (bt_del in_a_row (some_used 3) two_runs 24576)
bt_del-Deletes_example = bt_del-Deletes in_a_row (some_used 3) two_runs 24576 two_runs-LevelTree

-- The leaves are collapsed: the right one and the root are given back.
two_given : given two_runs 24576 ≡ (1 ∷ []) ∷ [] ∷ []
unfolding given given_from given_node given_repair given_root rekey fat_sibling delete_from
    delete_leaf delete_node repair page_search update mungi.Btree.Delete.collapsed_in
    mungi.Btree.Delete.collapse_pages delete_page
two_given = refl

-- With the leaves in the second and the third page of the pool, `free_page` panics.
two_panic : free_pages in_a_row (some_used 3) ((1 ∷ []) ∷ [] ∷ []) ≡ panic
unfolding free_pages free_page freed_bit
two_panic = refl

abbrev one_run : Tree
one_run = record { root = some (leaf_of (run 2 0)); depth = 1 }

one_run-LevelTree : LevelTree one_run
one_run-LevelTree = (0, refl, run-Good 2 0 (omega arith), (refl, omega arith))

abbrev shorter_run : Tree
shorter_run = record { root = some (leaf_of (delete_page (run 2 0) (pos 1 -ℤ pos 1))); depth = 1 }

delete_second :
    bt_del in_a_row (some_used 1) one_run 8192
    ≡ done (some_used 1, some (del_ok, shorter_run, some (item 1)))
unfolding bt_del del_root given given_from given_root free_pages delete_from delete_leaf shrink_root
delete_second = refl

bt_search-bt_del_example : Kept (item 2) 8192 (bt_search shorter_run.root 16400)
bt_search-bt_del_example =
    bt_search-bt_del in_a_row (some_used 1) (some_used 1) one_run shorter_run 8192 16400 (item 1)
      (item 2) one_run-LevelTree delete_second (in_leaf 2 (omega arith) refl) (omega arith)
      (omega arith)

abbrev first_word : Page → ℕ
first_word p = 0

abbrev pages : ℕ → Bool
pages d = true

abbrev longer_run : Page
longer_run = leaf_of (insert_page item_key (run 2 0) (pos 2) 24576 (item 3))

insert_last :
    bt_ins first_word pages true one_run.root (item 3)
    ≡ some (bt_ok, some longer_run, some (item 2))
unfolding bt_ins insert_from insert_place insert_leaf put_in
insert_last = refl

bt_ins-LevelRoot_example : (n : ℕ) × LevelRoot (some longer_run) n
bt_ins-LevelRoot_example =
    bt_ins-LevelRoot first_word pages true one_run.root 1 (item 3) longer_run (some (item 2))
      one_run-LevelTree tt (omega arith) insert_last

longer_run-LevelRoot : (n : ℕ) × LevelRoot (some longer_run) n
longer_run-LevelRoot =
    bt_ins-LevelRoot first_word pages true one_run.root 1 (item 3) longer_run (some (item 2))
      one_run-LevelTree tt (omega arith) insert_last

no_such_base : (o : Item) → Stored o (leaf_of (run 2 0)) → ¬ (o.base ≡ 24576)
no_such_base o (in_leaf i le e) = subst (λ x. ¬ (x.base ≡ 24576)) e λ z. omega (arith, le, z)

bt_del-bt_ins_example :
    Ends in_a_row
      (some_used 1)
      (record { root = some longer_run; depth = longer_run-LevelRoot.0 })
      24576
      (Undone one_run.root longer_run (item 3))
      (bt_del in_a_row
        (some_used 1)
        (record { root = some longer_run; depth = longer_run-LevelRoot.0 })
        24576)
bt_del-bt_ins_example =
    bt_del-bt_ins first_word pages true one_run.root 1 longer_run-LevelRoot.0 (item 3) longer_run
      (some (item 2)) in_a_row (some_used 1) one_run-LevelTree tt (omega arith) no_such_base
      insert_last longer_run-LevelRoot.1

redistribute-lost_example :
    (redistribute 254 1040384 (run 126 0) (run 254 127)).lost
    ≡ (ltb 126 ((126 + 254) / 2) && 254 == 254)
redistribute-lost_example = redistribute-lost 254 1040384 (run 126 0) (run 254 127) (omega arith)
