-- ===== src/Btree/Keys.antt =====
-- The binary search in a page of kernel/lib/klibc/btree.c.
use mungi.Common.{
  ℕ, zero, suc, ◌+◌, ◌/◌, ◌≤◌, ◌<◌, ◌≡◌, false, some, ◌==◌, leb, ltb, arith, Bool-cases, inl, inr,
}
use mungi.Common.Arrays.{Array}
use mungi.Btree.{page_search}

abbrev pub Sorted : Array ℕ → ℕ → Type 0
Sorted key n = (i j : ℕ) → i < j → j < n → key i < key j

pub le_of_Sorted : {key : Array ℕ} {n : ℕ} (i j : ℕ) → Sorted key n → i ≤ j → j < n → key i ≤ key j
le_of_Sorted {key} i j s l h = elim (Bool-cases (i == j)) [
  | inl same ↦ let z : i ≡ j = ground arith in rw z (omega arith)
  | inr apart ↦ omega (arith, s i j (ground arith) h)
]

-- The keys from `lo` up to `r` are at most `k`, those from `r` up to `hi` are greater.
pub record Split (key : Array ℕ) (k lo hi r : ℕ) : Type 0 where
  pub above : lo ≤ r
  pub below : r ≤ hi
  pub left : (j : ℕ) → lo ≤ j → j < r → key j ≤ k
  pub right : (j : ℕ) → r ≤ j → j < hi → k < key j

later_greater :
    (key : Array ℕ) (k mid hi n r : ℕ)
    → Sorted key n
    → k < key mid
    → mid < hi
    → hi ≤ n
    → ((j : ℕ) → r ≤ j → j < mid → k < key j)
    → (j : ℕ) → r ≤ j
    → j < hi
    → k < key j
later_greater key k mid hi n r s low m b right j l h = elim (Bool-cases (ltb j mid)) [
  | inl near ↦ right j l (ground arith)
  | inr far ↦ omega (arith, le_of_Sorted mid j s (ground arith) (omega arith))
]

earlier_less :
    (key : Array ℕ) (k lo mid n r : ℕ)
    → Sorted key n
    → key mid ≤ k
    → mid < n
    → ((j : ℕ) → mid + 1 ≤ j → j < r → key j ≤ k)
    → (j : ℕ) → lo ≤ j
    → j < r
    → key j ≤ k
earlier_less key k lo mid n r s high m left j l h = elim (Bool-cases (leb (mid + 1) j)) [
  | inl far ↦ left j (ground arith) h
  | inr near ↦ omega (arith, le_of_Sorted j mid s (ground arith) m)
]

pub page_search-Split :
    (fuel : ℕ) (key : Array ℕ) (k lo hi n : ℕ)
    → Sorted key n
    → lo ≤ hi
    → hi ≤ n
    → hi ≤ lo + fuel
    → (r : ℕ) × (page_search fuel key k lo hi ≡ some r) × Split key k lo hi r
unfolding page_search
page_search-Split zero key k lo hi n s le b f =
    let over : ltb lo hi ≡ false = ground arith in
    (
      hi,
      rw over,
      record {
        above = le;
        below = omega arith;
        left = λ j l h. absurd (omega arith);
        right = λ j l h. absurd (omega arith);
      },
    )
page_search-Split (suc fuel) key k lo hi n s le b f = elim (Bool-cases (ltb lo hi)) [
  | inr over ↦ (
    hi,
    rw (page_search, over),
    record {
      above = le;
      below = omega arith;
      left = λ j l h. ground arith;
      right = λ j l h. ground arith;
    },
  )
  | inl more ↦
      let mid = (lo + hi) / 2 in
      let lower : mid < hi = ground arith in
      let upper : lo ≤ mid = ground arith in
      elim (Bool-cases (key mid == k)) [
        | inl hit ↦ (
          mid + 1,
          rw (page_search, more, hit),
          record {
            above = omega arith;
            below = omega arith;
            left = λ j l h. ground (arith, le_of_Sorted j mid s (omega arith) (omega arith));
            right = λ j l h. ground (arith, s mid j (omega arith) (omega arith));
          },
        )
        | inr miss ↦ elim (Bool-cases (ltb k (key mid))) [
          | inl low ↦
              let (r, e, t) =
                page_search-Split fuel key k lo mid n s (omega arith) (omega arith) (omega arith) in
              (
                r,
                rw (page_search, more, miss, low) e,
                record {
                  above = t.above;
                  below = omega (arith, t.below);
                  left = t.left;
                  right = λ j l h.
                      later_greater key k mid hi n r s (ground arith) lower b t.right j l h;
                },
              )
          | inr high ↦
              let (r, e, t) =
                page_search-Split fuel key k (mid + 1) hi n s (omega arith) (omega arith)
                  (omega arith) in
              (
                r,
                rw (page_search, more, miss, high) e,
                record {
                  above = omega (arith, t.above);
                  below = t.below;
                  left = λ j l h.
                      earlier_less key k lo mid n r s (ground arith) (omega arith) t.left j l h;
                  right = t.right;
                },
              )
        ]
      ]
]
