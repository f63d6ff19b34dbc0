-- ===== src/Tests/Tables.antt =====
-- A tree of two leaves, a PDX cache, a number's text, and a table of pending requests.
use mungi.Common.{ℕ, zero, suc, ◌≤◌, ◌≡◌, ◌≢◌, some, arith}
use mungi.Common.{Bool, ltb}
use mungi.Atob.{atob_long, llbtoa}
use mungi.Atob.Roundtrip.{atob_long-llbtoa}
use mungi.Common.Arrays.{Array}
use mungi.Common.Checked.{Checked, done}
use mungi.Common.Int.{pos}
use mungi.Btree.{Item, Page, node, leaf, bt_search}
use mungi.Btree.Keys.{Sorted}
use mungi.Btree.Search.{Stored, in_leaf, Between, Keyed, Answers, bt_search-Answers}
use mungi.Pdxcache.{
  CacheId, ApdEntry, Entry, zero_entry, pdxcache_lookup, apd_pdx_cache_check_id,
  apd_pdx_cache_remove,
}
use mungi.Pdxcache.Lookup.{apd_pdx_cache_remove-unfound}

-- Objects at 4096 and 8192 in the left leaf, at 16384 in the right one.
abbrev left_items : ℕ → Item
left_items zero = record { obj = 1; base = 4096; limit = 8192 }
left_items (suc i) = record { obj = 2; base = 8192; limit = 12288 }

abbrev right_items : ℕ → Item
right_items i = record { obj = 3; base = 16384; limit = 20480 }

abbrev left_keys : Array ℕ
left_keys i = 8192

abbrev root_keys : Array ℕ
root_keys i = 16384

abbrev left_leaf : Page
left_leaf = leaf 1 left_keys left_items

abbrev right_leaf : Page
right_leaf = leaf 0 left_keys right_items

abbrev leaves : ℕ → Page
leaves zero = left_leaf
leaves (suc i) = right_leaf

abbrev tree : Page
tree = node 1 root_keys leaves

one_key-Sorted : (key : Array ℕ) → Sorted key 1
one_key-Sorted key i j l h = absurd (omega arith)

left_Between : (i : ℕ) → i ≤ 1 → Between left_keys 1 i (left_items i)
left_Between zero le = record { from = λ j h. omega arith; to = λ j l h. omega arith }
left_Between (suc i) le = record { from = λ j h. omega arith; to = λ j l h. absurd (omega arith) }

left-Keyed : Keyed left_leaf
left-Keyed = (one_key-Sorted left_keys, left_Between)

right-Keyed : Keyed right_leaf
right-Keyed = (
  (λ i j l h. absurd (omega arith)),
  λ i le. record { from = λ j h. absurd (omega arith); to = λ j l h. absurd (omega arith) },
)

leaves-Keyed : (i : ℕ) → i ≤ 1 → Keyed (leaves i)
leaves-Keyed zero le = left-Keyed
leaves-Keyed (suc i) le = right-Keyed

left_limit : (i : ℕ) → (left_items i).limit ≤ 16384
left_limit zero = omega arith
left_limit (suc i) = omega arith

leaves-Between : (i : ℕ) → i ≤ 1 → (o : Item) → Stored o (leaves i) → Between root_keys 1 i o
leaves-Between zero le o (in_leaf k h e) = record {
  from = λ j h. absurd (omega arith);
  to = λ j l h. rw (← e) (left_limit k);
}
leaves-Between (suc i) le o (in_leaf k h e) = record {
  from = λ j h. rw (← e) (omega arith);
  to = λ j l h. absurd (omega arith);
}

tree-Keyed : Keyed tree
tree-Keyed = (one_key-Sorted root_keys, leaves-Keyed, leaves-Between)

bt_search-Answers_example : Answers tree 13000 (bt_search (some tree) 13000)
bt_search-Answers_example = bt_search-Answers 13000 tree tree-Keyed

abbrev id : CacheId
id = record { position = pos 2; serial = 5 }

abbrev empty_cache : Array Entry
empty_cache i = zero_entry

abbrev apds : Array ApdEntry
apds i = record {
  orig = 40960;
  clist = record { address = 262144; passwd = 1 };
  apd = 45056;
  timestamp = 1000;
}

abbrev check_id : CacheId → Checked ℕ
check_id i = apd_pdx_cache_check_id (λ _. 5) 6 apds i 1010

apd_pdx_cache_remove-unfound_example :
    pdxcache_lookup
      (λ i. apd_pdx_cache_check_id (λ _. 5) 6 (apd_pdx_cache_remove apds 45056) i 1010)
      (some empty_cache)
      40960
      65600
      0
    ≢ done 45056
apd_pdx_cache_remove-unfound_example =
    apd_pdx_cache_remove-unfound (λ _. 5) 6 1010 45056 apds (some empty_cache) 40960 65600 0
      (omega arith)

-- The text of 48879 is `beef`.
atob_long-llbtoa_example : atob_long 16 (llbtoa 48879 (pos 16)) ≡ some 48879
atob_long-llbtoa_example = atob_long-llbtoa 16 (omega arith) (omega arith) 48879 (omega arith)

abbrev two_used : Array Bool
two_used i = ltb i 2
