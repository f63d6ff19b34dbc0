-- ===== src/Btree/Share/Cuts.antt =====
-- `BTCollapse` and `BTRedistribute` of kernel/lib/klibc/btree.c: two siblings and the key between them
-- are one page that is cut at that key, or anew at the middle.
use mungi.Common.{
  ℕ, zero, suc, ◌+◌, ◌-◌, ◌<◌, ◌≡◌, refl, Bool, ◌&&◌, ◌||◌, arith, ◌==◌, leb, ltb, if◌then◌else◌,
}
use mungi.Common.Arrays.{Array, update}
use mungi.Btree.Insert.{Body}
use mungi.Btree.Insert.Split.{Cut}
use mungi.Btree.Share.{copy, collapse, shift_front, make_space, copy_back}

pub copy_lem :
    {A : Type 0} (n : ℕ) (src : Array A) (from : ℕ) (dst : Array A) (to j : ℕ)
    → copy n src from dst to j
      ≡ (if leb to j && ltb j (to + n) then src (from + (j - to)) else dst j)
unfolding copy update
copy_lem zero src from dst to j = ground arith
copy_lem (suc n) src from dst to j =
    ground (arith, copy_lem n src (suc from) (update dst to (src from)) (suc to) j)

pub copy_back_lem :
    {A : Type 0} (n : ℕ) (src : Array A) (from : ℕ) (dst : Array A) (j : ℕ)
    → copy_back n src from dst j ≡ (if ltb j n then src (from + j) else dst j)
unfolding copy_back update
copy_back_lem zero src from dst j = ground arith
copy_back_lem (suc n) src from dst j =
    ground (arith, copy_back_lem n src from (update dst n (src (from + n))) j)

pub make_space_lem :
    {A : Type 0} (n by : ℕ) (f : Array A) (j : ℕ)
    → 0 < by
    → make_space n by f j ≡ (if leb by j && ltb j (by + n) then f (j - by) else f j)
unfolding make_space update
make_space_lem zero by f j h = ground arith
make_space_lem (suc n) by f j h = ground (arith, make_space_lem n by (update f (n + by) (f n)) j h)

pub shift_front-key :
    {A : Type 0} (most n i j : ℕ) (b : Body A) (lost : Bool) (t : ℕ)
    → i < j
    → (shift_front most n i j b lost).0.key t
      ≡ (if leb i t && ltb t (i + n) then b.key (j + (t - i)) else b.key t)
unfolding shift_front update
shift_front-key most zero i j b lost t h = ground arith
shift_front-key most (suc n) i j b lost t h = ground (
  arith,
  shift_front-key most n (suc i) (suc j)
      (record b {
        key = update b.key i (b.key j);
        child = update b.child (i + 1) (b.child (j + 1));
      })
      (lost || (j == most)) t,
)

pub shift_front-child :
    {A : Type 0} (most n i j : ℕ) (b : Body A) (lost : Bool) (t : ℕ)
    → i < j
    → (shift_front most n i j b lost).0.child t
      ≡ (if ltb i t && leb t (i + n) then b.child (j + (t - i)) else b.child t)
unfolding shift_front update
shift_front-child most zero i j b lost t h = ground arith
shift_front-child most (suc n) i j b lost t h = ground (
  arith,
  shift_front-child most n (suc i) (suc j)
      (record b {
        key = update b.key i (b.key j);
        child = update b.child (i + 1) (b.child (j + 1));
      })
      (lost || (j == most)) t,
)

pub shift_front-lost :
    {A : Type 0} (most n i j : ℕ) (b : Body A) (lost : Bool)
    → (shift_front most n i j b lost).1 ≡ (lost || leb j most && ltb most (j + n))
unfolding shift_front
shift_front-lost most zero i j b lost = ground arith
shift_front-lost most (suc n) i j b lost = ground (
  arith,
  shift_front-lost most n (suc i) (suc j)
      (record b {
        key = update b.key i (b.key j);
        child = update b.child (i + 1) (b.child (j + 1));
      })
      (lost || (j == most)),
)

-- Two siblings and a key between them are one page that is cut at the key.
pub collapse-Cut :
    {A : Type 0} (kmed : ℕ) (left right : Body A)
    → Cut (collapse kmed left right) left right left.count kmed
unfolding collapse update
collapse-Cut kmed left right = record {
  inside = omega arith;
  middle = ground (
    arith,
    copy_lem right.count right.key 0 (update left.key left.count kmed) (left.count + 1) left.count,
  );
  left_count = refl;
  left_key = λ j l. ground (
    arith,
    copy_lem right.count right.key 0 (update left.key left.count kmed) (left.count + 1) j,
  );
  left_child = λ j l. ground (
    arith,
    copy_lem right.count right.child 1 (update left.child (left.count + 1) (right.child 0))
        (left.count + 2) j,
  );
  right_count = omega arith;
  right_key = λ j l. ground (
    arith,
    copy_lem right.count right.key 0 (update left.key left.count kmed) (left.count + 1)
        (left.count + 1 + j),
  );
  right_child = λ j l. ground (
    arith,
    copy_lem right.count right.child 1 (update left.child (left.count + 1) (right.child 0))
        (left.count + 2) (left.count + 1 + j),
  );
}
