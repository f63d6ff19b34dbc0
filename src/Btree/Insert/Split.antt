-- ===== src/Btree/Insert/Split.antt =====
-- The split of a full page in `BTInsert` of kernel/lib/klibc/btree.c.
use mungi.Common.{
  ℕ, suc, ◌+◌, ◌-◌, ◌≤◌, ◌<◌, ◌≡◌, refl, true, false, arith, ◌==◌, ltb, Bool-cases, inl, inr,
}
use mungi.Common.Arrays.{update}
use mungi.Common.Int.{pos, negsuc, ◌-ℤ◌}
use mungi.Btree.Insert.{Body, insert_page, tail_from, split_page}
use mungi.Btree.Insert.Grow.{move_up_lem}

-- The page is cut at the key with the index `m`.
pub record Cut {A : Type 0} (c l r : Body A) (m k : ℕ) : Type 0 where
  pub inside : m < c.count
  pub middle : k ≡ c.key m
  pub left_count : l.count ≡ m
  pub left_key : (j : ℕ) → j < m → l.key j ≡ c.key j
  pub left_child : (j : ℕ) → j ≤ m → l.child j ≡ c.child j
  pub right_count : m + 1 + r.count ≡ c.count
  pub right_key : (j : ℕ) → j < r.count → r.key j ≡ c.key (m + 1 + j)
  pub right_child : (j : ℕ) → j ≤ r.count → r.child j ≡ c.child (m + 1 + j)

-- The three parts of a split: what is inserted into the page and then cut is the same.
abbrev pub Parts : {A : Type 0} → Body A → ℕ → Body A × ℕ × Body A → Type 0
Parts c m (l, k, r) = Cut c l r m k

insert_left :
    {A : Type 0} (key_of : A → ℕ) (b : Body A) (least hi k : ℕ) (p : A)
    → 0 < least
    → least < b.count
    → hi < least
    → Cut
        (insert_page key_of b (pos hi) k p)
        (insert_page key_of (record b { count = least - 1 }) (pos hi) k p)
        (tail_from least (b.count - least) b)
        least
        (b.key (least - 1))
unfolding insert_page tail_from update
insert_left key_of b least hi k p z h l = record {
  inside = omega (arith, h);
  middle = ground (arith, move_up_lem (b.count - hi) hi b.key least);
  left_count = omega (arith, z);
  left_key = λ j m.
      ground
        (arith, move_up_lem (b.count - hi) hi b.key j, move_up_lem (least - 1 - hi) hi b.key j);
  left_child = λ j m. ground (
    arith,
    move_up_lem (b.count - hi) (hi + 1) b.child j,
    move_up_lem (least - 1 - hi) (hi + 1) b.child j,
  );
  right_count = omega (arith, h);
  right_key = λ j m. ground (arith, move_up_lem (b.count - hi) hi b.key (least + 1 + j));
  right_child = λ j m. ground (arith, move_up_lem (b.count - hi) (hi + 1) b.child (least + 1 + j));
}

insert_front :
    {A : Type 0} (key_of : A → ℕ) (b : Body A) (least n k : ℕ) (p : A)
    → 0 < least
    → least < b.count
    → Cut
        (insert_page key_of b (negsuc n) k p)
        (insert_page key_of (record b { count = least - 1 }) (negsuc n) k p)
        (tail_from least (b.count - least) b)
        least
        (b.key (least - 1))
unfolding insert_page tail_from update
insert_front key_of b least n k p z h = record {
  inside = omega (arith, h);
  middle = ground (arith, move_up_lem b.count 0 b.key least);
  left_count = omega (arith, z);
  left_key =
      λ j m. ground (arith, move_up_lem b.count 0 b.key j, move_up_lem (least - 1) 0 b.key j);
  left_child =
      λ j m. ground (arith, move_up_lem b.count 1 b.child j, move_up_lem (least - 1) 1 b.child j);
  right_count = omega (arith, h);
  right_key = λ j m. ground (arith, move_up_lem b.count 0 b.key (least + 1 + j));
  right_child = λ j m. ground (arith, move_up_lem b.count 1 b.child (least + 1 + j));
}

-- The key that goes up is the new one.
insert_middle :
    {A : Type 0} (key_of : A → ℕ) (b : Body A) (least n k : ℕ) (p : A)
    → least < b.count
    → key_of (b.child (least + 1)) ≡ b.key least
    → Cut
        (insert_page key_of b (pos least) k p)
        (record b { count = least })
        (insert_page key_of (tail_from (least + 1) (b.count - least - 1) b) (negsuc n) k p)
        least
        k
unfolding insert_page tail_from update
insert_middle key_of b least n k p h e = record {
  inside = omega (arith, h);
  middle = ground arith;
  left_count = refl;
  left_key = λ j m. ground (arith, move_up_lem (b.count - least) least b.key j);
  left_child = λ j m. ground (arith, move_up_lem (b.count - least) (least + 1) b.child j);
  right_count = omega (arith, h);
  right_key = λ j m. ground (
    arith,
    e,
    move_up_lem (b.count - least) least b.key (least + 1 + j),
    move_up_lem (b.count - least - 1) 0 (λ i. b.key (least + 1 + i)) j,
  );
  right_child = λ j m. ground (
    arith,
    move_up_lem (b.count - least) (least + 1) b.child (least + 1 + j),
    move_up_lem (b.count - least - 1) 1 (λ i. b.child (least + 1 + i)) j,
  );
}

insert_right :
    {A : Type 0} (key_of : A → ℕ) (b : Body A) (least hi k : ℕ) (p : A)
    → least < hi
    → hi ≤ b.count
    → Cut
        (insert_page key_of b (pos hi) k p)
        (record b { count = least })
        (insert_page key_of
          (tail_from (least + 1) (b.count - least - 1) b)
          (pos (hi - (least + 1)))
          k
          p)
        least
        (b.key least)
unfolding insert_page tail_from update
insert_right key_of b least hi k p h l = record {
  inside = omega (arith, h, l);
  middle = ground (arith, move_up_lem (b.count - hi) hi b.key least);
  left_count = refl;
  left_key = λ j m. ground (arith, move_up_lem (b.count - hi) hi b.key j);
  left_child = λ j m. ground (arith, move_up_lem (b.count - hi) (hi + 1) b.child j);
  right_count = omega (arith, h, l);
  right_key = λ j m. ground (
    arith,
    move_up_lem (b.count - hi) hi b.key (least + 1 + j),
    move_up_lem (b.count - least - 1 - (hi - (least + 1))) (hi - (least + 1))
        (λ i. b.key (least + 1 + i)) j,
  );
  right_child = λ j m. ground (
    arith,
    move_up_lem (b.count - hi) (hi + 1) b.child (least + 1 + j),
    move_up_lem (b.count - least - 1 - (hi - (least + 1))) (hi - (least + 1) + 1)
        (λ i. b.child (least + 1 + i)) j,
  );
}

sub_past : (hi m : ℕ) → m ≤ hi → (pos hi -ℤ pos m) ≡ pos (hi - m)
unfolding ◌-ℤ◌
sub_past hi m h = ground arith

sub_short : (hi : ℕ) → (pos hi -ℤ pos (hi + 1)) ≡ negsuc 0
unfolding ◌-ℤ◌
sub_short hi = ground arith

-- A full page that is split is cut at the key `least`, once the new key is in. Where that is the new
-- key, the key behind it is read from the child behind that one.
pub split_page-Parts :
    {A : Type 0} (least : ℕ) (key_of : A → ℕ) (b : Body A) (hi k : ℕ) (p : A)
    → 0 < least
    → least < b.count
    → hi ≤ b.count
    → (hi ≡ least → key_of (b.child (least + 1)) ≡ b.key least)
    → Parts
        (insert_page key_of b (pos hi) k p)
        least
        (split_page b.count least key_of b (pos hi) k p)
unfolding split_page
split_page-Parts least key_of b hi k p z h l e = elim (Bool-cases (ltb hi least)) [
  | inl near ↦
      let t : ltb (hi + 0) (least + 0) ≡ true = ground arith in
      rw (split_page, t) (insert_left key_of b least hi k p z h (ground arith))
  | inr not_near ↦
      let t : ltb (hi + 0) (least + 0) ≡ false = ground arith in
      elim (Bool-cases (hi == least)) [
        | inl same ↦
            let s : hi ≡ least = ground arith in
            let u : ltb (least + 0) (least + 0) ≡ false = ground arith in
            let q : (least + 0 == least + 0) ≡ true = ground arith in
            rw (s, split_page, u, q, sub_short least) (insert_middle key_of b least 0 k p h (e s))
        | inr far ↦
            let q : (hi + 0 == least + 0) ≡ false = ground arith in
            rw (split_page, t, q, sub_past hi (least + 1) (ground arith))
              (insert_right key_of b least hi k p (ground arith) l)
      ]
]

pub split_page-front :
    {A : Type 0} (least n : ℕ) (key_of : A → ℕ) (b : Body A) (k : ℕ) (p : A)
    → 0 < least
    → least < b.count
    → Parts
        (insert_page key_of b (negsuc n) k p)
        least
        (split_page b.count least key_of b (negsuc n) k p)
unfolding split_page
split_page-front least n key_of b k p z h =
    let t : ltb 0 (least + suc n) ≡ true = ground arith in
    rw (split_page, t) (insert_front key_of b least n k p z h)
