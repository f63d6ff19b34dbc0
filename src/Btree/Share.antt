-- ===== src/Btree/Share.antt =====
-- `BTDeletePage`, `BTCollapse` and `BTRedistribute` of kernel/lib/klibc/btree.c: what a deletion does
-- with one page and with two siblings. What a page holds behind its `count` keys is not read again; the
-- source clears it.
pub mod Shrunk
pub mod Cuts
pub mod Middle
use mungi.Common.{
  ℕ, zero, suc, ◌+◌, ◌-◌, ◌/◌, Bool, true, false, ◌||◌, ◌==◌, leb, ltb, if◌then◌else◌,
}
use mungi.Common.Arrays.{Array, update}
use mungi.Common.Int.{ℤ, pos, negsuc}
use mungi.Btree.Insert.{Body}

-- So many entries from the index on are overwritten by the entry behind, the first one first.
unfoldable pub move_down : {A : Type 0} → ℕ → ℕ → Array A → Array A
move_down zero lo f = f
move_down (suc n) lo f = move_down n (suc lo) (update f lo (f (lo + 1)))

-- `BTDeletePage` where the page has a key. With the index -1 the first child goes.
unfoldable pub delete_page : {A : Type 0} → Body A → ℤ → Body A
delete_page b (pos idx) = record {
  count = b.count - 1;
  key = move_down (b.count - (idx + 1)) idx b.key;
  child = move_down (b.count - (idx + 1)) (idx + 1) b.child;
}
delete_page b (negsuc n) = record {
  count = b.count - 1;
  key = move_down (b.count - 1) 0 b.key;
  child = move_down (b.count - 1) 1 (update b.child 0 (b.child 1));
}

-- So many entries of the one array, from an index on, written into the other, the first one first.
unfoldable pub copy : {A : Type 0} → ℕ → Array A → ℕ → Array A → ℕ → Array A
copy zero src from dst to = dst
copy (suc n) src from dst to = copy n src (suc from) (update dst to (src from)) (suc to)

-- `BTCollapse` up to its call of `free_page`, which Btree/Given adds, with the key that goes between
-- the pages.
unfoldable pub collapse : {A : Type 0} → ℕ → Body A → Body A → Body A
collapse kmed left right = record {
  count = left.count + right.count + 1;
  key = copy right.count right.key 0 (update left.key left.count kmed) (left.count + 1);
  child =
      copy right.count right.child 1 (update left.child (left.count + 1) (right.child 0))
        (left.count + 2);
}

-- Two pages with the key between them; `lost` if the first child of the right page was cleared.
pub record Shared (A : Type 0) : Type 0 where
  pub left : Body A
  pub median : ℕ
  pub right : Body A
  pub lost : Bool

-- The loop that moves the entries of the right page to its front. It clears the key that it moved;
-- behind the last of the `most` keys of a page that is the pointer to its first child.
unfoldable pub shift_front : {A : Type 0} → ℕ → ℕ → ℕ → ℕ → Body A → Bool → Body A × Bool
shift_front most zero i j b lost = (b, lost)
shift_front most (suc n) i j b lost =
    shift_front most n (suc i) (suc j)
      (record b {
        key = update b.key i (b.key j);
        child = update b.child (i + 1) (b.child (j + 1));
      })
      (lost || (j == most))

abbrev pub shared_of : {A : Type 0} → Body A → ℕ → ℕ → Body A × Bool → Shared A
shared_of left median count (right, lost) = record {
  left = left;
  median = median;
  right = record right { count = count };
  lost = lost;
}

-- `BTRedistribute` where the left page has less than half.
unfoldable pub share_left : {A : Type 0} → ℕ → ℕ → ℕ → Body A → Body A → Shared A
share_left most half kmed left right =
    let delta = half - left.count in
    shared_of
      (record {
        count = half;
        key = copy (delta - 1) right.key 0 (update left.key left.count kmed) (left.count + 1);
        child =
            update (copy (delta - 1) right.child 0 left.child (left.count + 1)) half
              (right.child (delta - 1));
      })
      (right.key (delta - 1)) (right.count - delta)
      (shift_front most (right.count + 1 - delta) 0 delta
        (record right { child = update right.child 0 (right.child delta) }) false)

-- So many entries move up by the distance, the last one first.
unfoldable pub make_space : {A : Type 0} → ℕ → ℕ → Array A → Array A
make_space zero by f = f
make_space (suc n) by f = make_space n by (update f (n + by) (f n))

-- So many entries of the one array, from an index on, to the front of the other, the last one first.
unfoldable pub copy_back : {A : Type 0} → ℕ → Array A → ℕ → Array A → Array A
copy_back zero src from dst = dst
copy_back (suc n) src from dst = copy_back n src from (update dst n (src (from + n)))

-- `BTRedistribute` where the left page has more than half.
unfoldable pub share_right : {A : Type 0} → ℕ → ℕ → Body A → Body A → Shared A
share_right half kmed left right =
    let delta = left.count - half in
    record {
      left = record left { count = half };
      median = left.key half;
      right = record {
        count = right.count + delta;
        key =
            copy_back (delta - 1) left.key (half + 1)
              (update (make_space right.count delta right.key) (delta - 1) kmed);
        child = copy_back (delta - 1) left.child (half + 1) (
            update
              (make_space right.count delta
                (update right.child (right.count + delta) (right.child right.count)))
              (delta - 1) (left.child left.count));
      };
      lost = false;
    }

-- `BTRedistribute`, for pages with room for `most` keys.
unfoldable pub redistribute : {A : Type 0} → ℕ → ℕ → Body A → Body A → Shared A
redistribute most kmed left right =
    let half = (left.count + right.count) / 2 in
    if ltb left.count half
    then share_left most half kmed left right
    else share_right half kmed left right
