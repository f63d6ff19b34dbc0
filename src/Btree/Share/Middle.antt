-- ===== src/Btree/Share/Middle.antt =====
-- `BTRedistribute` of kernel/lib/klibc/btree.c cuts two siblings anew at the middle.
use mungi.Common.{
  ℕ, ◌+◌, ◌-◌, ◌/◌, ◌≤◌, ◌<◌, ◌≡◌, refl, false, ◌&&◌, arith, ◌==◌, ltb, Bool-cases, inl, inr, ◌⊎◌,
}
use mungi.Common.Arrays.{update}
use mungi.Btree.Insert.{Body}
use mungi.Btree.Insert.Split.{Cut}
use mungi.Btree.Share.{Shared, share_left, share_right, redistribute, make_space}
use mungi.Btree.Share.Cuts.{
  copy_lem, copy_back_lem, make_space_lem, shift_front-key, shift_front-child, shift_front-lost,
}

-- The page is cut at the index.
abbrev pub CutAt : {A : Type 0} → Body A → ℕ → Shared A → Type 0
CutAt c m s = Cut c s.left s.right m s.median

share_left-CutAt :
    {A : Type 0} (most half kmed : ℕ) (c left right : Body A)
    → Cut c left right left.count kmed
    → left.count < half
    → half < left.count + right.count
    → CutAt c half (share_left most half kmed left right)
unfolding share_left update
share_left-CutAt {A} most half kmed c left right t h l =
    let delta = half - left.count in
    let b : Body A = record right { child = update right.child 0 (right.child delta) } in
    let n = right.count + 1 - delta in
    record {
      inside = ground (arith, t.right_count);
      middle = ground (arith, t.right_count, t.right_key (delta - 1));
      left_count = refl;
      left_key = λ j m. ground (
        arith,
        t.right_count,
        t.middle,
        t.left_key j,
        t.right_key (j - (left.count + 1)),
        copy_lem (delta - 1) right.key 0 (update left.key left.count kmed) (left.count + 1) j,
      );
      left_child = λ j m. ground (
        arith,
        t.right_count,
        t.left_child j,
        t.right_child (j - (left.count + 1)),
        t.right_child (delta - 1),
        copy_lem (delta - 1) right.child 0 left.child (left.count + 1) j,
      );
      right_count = ground (arith, t.right_count);
      right_key = λ j m.
          ground (
            arith,
            t.right_count,
            t.right_key (delta + j),
            shift_front-key most n 0 delta b false j,
          );
      right_child = λ j m. ground (
        arith,
        t.right_count,
        t.right_child (delta + j),
        shift_front-child most n 0 delta b false j,
      );
    }

share_right-CutAt :
    {A : Type 0} (half kmed : ℕ) (c left right : Body A)
    → Cut c left right left.count kmed
    → half < left.count
    → CutAt c half (share_right half kmed left right)
unfolding share_right update
share_right-CutAt {A} half kmed c left right t h =
    let delta = left.count - half in
    let key = update (make_space right.count delta right.key) (delta - 1) kmed in
    let last = update right.child (right.count + delta) (right.child right.count) in
    let child = update (make_space right.count delta last) (delta - 1) (left.child left.count) in
    record {
      inside = ground (arith, t.right_count);
      middle = ground (arith, t.left_key half);
      left_count = refl;
      left_key = λ j m. ground (arith, t.left_key j);
      left_child = λ j m. ground (arith, t.left_child j);
      right_count = ground (arith, t.right_count);
      right_key = λ j m. ground (
        arith,
        t.left_key (half + 1 + j),
        t.middle,
        t.right_key (j - delta),
        copy_back_lem (delta - 1) left.key (half + 1) key j,
        make_space_lem right.count delta right.key j (omega (arith, h)),
      );
      right_child = λ j m. ground (
        arith,
        t.left_child (half + 1 + j),
        t.right_child (j - delta),
        copy_back_lem (delta - 1) left.child (half + 1) child j,
        make_space_lem right.count delta last j (omega (arith, h)),
      );
    }

-- BTRedistribute leaves of two pages, whose numbers of keys differ by more than one or of which
-- the left one has more, what is left of them as one page, with the key between them, that is cut
-- at the middle.
pub redistribute-CutAt :
    {A : Type 0} (most kmed : ℕ) (c left right : Body A)
    → Cut c left right left.count kmed
    → left.count + 1 < right.count ⊎ right.count < left.count
    → CutAt c ((left.count + right.count) / 2) (redistribute most kmed left right)
unfolding redistribute
redistribute-CutAt most kmed c left right t w =
    let half = (left.count + right.count) / 2 in
    elim (Bool-cases (ltb left.count half)) [
      | inl less ↦
          rw (redistribute, less)
            (share_left-CutAt most half kmed c left right t (ground arith) (ground (arith, w)))
      | inr more ↦
          rw (redistribute, more) (share_right-CutAt half kmed c left right t (ground (arith, w)))
    ]

-- BTRedistribute clears the first child of the right page exactly if it takes keys from that page
-- and the page is full.
pub redistribute-lost :
    {A : Type 0} (most kmed : ℕ) (left right : Body A)
    → right.count ≤ most
    → (redistribute most kmed left right).lost
      ≡ ltb left.count ((left.count + right.count) / 2) && right.count == most
unfolding redistribute share_left share_right
redistribute-lost {A} most kmed left right le =
    let half = (left.count + right.count) / 2 in
    let delta = half - left.count in
    let b : Body A = record right { child = update right.child 0 (right.child delta) } in
    elim (Bool-cases (ltb left.count half)) [
      | inl less ↦
          rw (redistribute, less)
            (ground (arith, shift_front-lost most (right.count + 1 - delta) 0 delta b false))
      | inr more ↦ rw (redistribute, more) refl
    ]
