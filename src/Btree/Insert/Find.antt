-- ===== src/Btree/Insert/Find.antt =====
-- The binary search of `BTInsert` in a page of kernel/lib/klibc/btree.c.
use mungi.Common.{
  ℕ, zero, suc, ◌+◌, ◌-◌, ◌/◌, ◌≤◌, ◌<◌, ◌≡◌, false, some, arith, ◌==◌, ltb, Bool-cases, inl, inr,
  ◌⊎◌,
}
use mungi.Common.Arrays.{Array}
use mungi.Btree.{page_search}
use mungi.Btree.Keys.{Sorted, page_search-Split, le_of_Sorted}
use mungi.Btree.Insert.{Place, duplicate, at, insert_place}

-- The keys in front of the place are less, those from it on are greater.
pub record Placed (key : Array ℕ) (count k hi : ℕ) : Type 0 where
  pub inside : hi ≤ count
  pub before : (j : ℕ) → j < hi → key j < k
  pub behind : (j : ℕ) → hi ≤ j → j < count → k < key j

-- How the search ends, against the search of `BTSearch`.
data Ends (key : Array ℕ) (k fuel lo hi : ℕ) : Place → Type 0 where
  twice : Ends key k fuel lo hi duplicate
  here :
      (r : ℕ)
      → page_search fuel key k lo hi ≡ some r
      → (r ≡ lo) ⊎ (key (r - 1) < k)
      → Ends key k fuel lo hi (at r)

wider :
    (fuel : ℕ) (key : Array ℕ) (k lo' hi' lo hi : ℕ) {x : Place}
    → ((r : ℕ)
        → page_search fuel key k lo' hi' ≡ some r
        → page_search (suc fuel) key k lo hi ≡ some r)
    → ((r : ℕ) → (r ≡ lo') ⊎ (key (r - 1) < k) → (r ≡ lo) ⊎ (key (r - 1) < k))
    → Ends key k fuel lo' hi' x
    → Ends key k (suc fuel) lo hi x
wider fuel key k lo' hi' lo hi f g twice = twice
wider fuel key k lo' hi' lo hi f g (here r e q) = here r (f r e) (g r q)

past :
    (key : Array ℕ) (k mid r : ℕ)
    → key mid < k
    → (r ≡ mid + 1) ⊎ (key (r - 1) < k)
    → key (r - 1) < k
past key k mid r h (inl e) = let z : r - 1 ≡ mid = omega (arith, e) in rw z h
past key k mid r h (inr l) = l

insert_place-Ends :
    (fuel : ℕ) (key : Array ℕ) (k lo hi : ℕ)
    → lo ≤ hi
    → hi ≤ lo + fuel
    → Ends key k fuel lo hi (insert_place fuel key k lo hi)
unfolding insert_place page_search
insert_place-Ends zero key k lo hi le f =
    let over : ltb lo hi ≡ false = ground arith in
    rw over (here hi (rw (page_search, over)) (inl (omega arith)))
insert_place-Ends (suc fuel) key k lo hi le f = elim (Bool-cases (ltb lo hi)) [
  | inr over ↦ rw (insert_place, over) (here hi (rw (page_search, over)) (inl (ground arith)))
  | inl more ↦
      let mid = (lo + hi) / 2 in
      let lower : mid < hi = ground arith in
      let upper : lo ≤ mid = ground arith in
      elim (Bool-cases (key mid == k)) [
        | inl hit ↦ rw (insert_place, more, hit) twice
        | inr miss ↦ elim (Bool-cases (ltb k (key mid))) [
          | inl low ↦
              rw (insert_place, more, miss, low)
                (wider fuel key k lo mid lo hi (λ r e. rw (page_search, more, miss, low) e)
                  (λ r q. q) (insert_place-Ends fuel key k lo mid (omega arith) (omega arith)))
          | inr high ↦
              rw (insert_place, more, miss, high)
                (wider fuel key k (mid + 1) hi lo hi (λ r e. rw (page_search, more, miss, high) e)
                  (λ r q. inr (past key k mid r (ground arith) q))
                  (insert_place-Ends fuel key k (mid + 1) hi (omega arith) (omega arith)))
        ]
      ]
]

in_front :
    (key : Array ℕ) (count k j r : ℕ)
    → Sorted key count
    → (r ≡ 0) ⊎ (key (r - 1) < k)
    → j < r
    → r ≤ count
    → key j < k
in_front key count k j r s (inl e) h l = absurd (omega (arith, e, h))
in_front key count k j r s (inr m) h l =
    omega (arith, m, le_of_Sorted j (r - 1) s (omega (arith, h)) (omega (arith, h, l)))

-- The search of `BTInsert` in a page of `count` keys in order: it stops at an equal key, or it gives
-- the place of the key.
pub data Found (key : Array ℕ) (count k : ℕ) : Place → Type 0 where
  equal : Found key count k duplicate
  placed : (hi : ℕ) → Placed key count k hi → Found key count k (at hi)

pub insert_place-Found :
    (key : Array ℕ) (count k : ℕ)
    → Sorted key count
    → Found key count k (insert_place count key k 0 count)
insert_place-Found key count k s =
    go (insert_place-Ends count key k 0 count (omega arith) (omega arith))
  where
    go : {x : Place} → Ends key k count 0 count x → Found key count k x
    go twice = equal
    go (here r e q) =
        let (t, z, w) =
          page_search-Split count key k 0 count count s (omega arith) (omega arith) (omega arith) in
        let same : t ≡ r = ground (arith, e, z) in
        placed r (record {
          inside = omega (arith, same, w.below);
          before = λ j h. in_front key count k j r s q h (omega (arith, same, w.below));
          behind = λ j h l. w.right j (omega (arith, same, h)) l;
        })
