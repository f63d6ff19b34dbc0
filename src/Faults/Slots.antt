-- ===== src/Faults/Slots.antt =====
-- `save_state` of kernel/src/vm/vm.c.
use mungi.Common.{
  ℕ, zero, suc, ◌+◌, ◌%◌, ◌≤◌, ◌<◌, ◌≡◌, refl, sym, Bool, true, false, ◌||◌, Option, some, ◌==◌,
  arith, Bool-cases, inl, inr, ◌⊎◌,
}
use mathlib.Core.Path.{subst}
use mungi.Common.Arrays.{Array, update}
use mungi.Faults.{
  max_pf, PendingFault, unused_entry, SavedAt, index, already_requested, set_collision, new_fault,
  save_behind, save_state,
}

-- How the search ends: at the first free entry, with the flag set only for a fault of that page.
record FreeAt (table : Array PendingFault) (page from most : ℕ) (seen : Bool) (i : ℕ) (flag : Bool)
    : Type 0 where
  here : from ≤ i
  inside : i < most
  free : (table i).valid ≡ false
  passed : (j : ℕ) → from ≤ j → j < i → (table j).valid ≡ true
  why :
      flag ≡ true → (seen ≡ true) ⊎ ((a : ℕ) × (from ≤ a) × (a < i) × ((table a).fault_page ≡ page))

unused_entry-FreeAt :
    (fuel : ℕ) (table : Array PendingFault) (page from free : ℕ) (seen : Bool)
    → from ≤ free
    → free < from + fuel
    → (table free).valid ≡ false
    → (i : ℕ) × (flag : Bool) × (unused_entry fuel table page from seen ≡ some (i, flag))
      × FreeAt table page from (from + fuel) seen i flag
unfolding unused_entry
unused_entry-FreeAt zero table page from free seen le h e = absurd (omega (arith, le, h))
unused_entry-FreeAt (suc fuel) table page from free seen le h e =
    elim (Bool-cases (table from).valid) [
      | inr empty ↦ (
        from,
        seen,
        rw (unused_entry, empty),
        record {
          here = omega arith;
          inside = omega arith;
          free = empty;
          passed = λ j l m. absurd (omega (arith, l, m));
          why = λ f. inl f;
        },
      )
      | inl taken ↦
          let later : from + 1 ≤ free = elim (Bool-cases (from == free)) [
            | inl same ↦
                let z : from ≡ free = ground arith in
                absurd (ground (arith, taken, subst (λ n. (table n).valid ≡ false) (sym z) e))
            | inr apart ↦ ground arith
          ] in
          let (i, flag, f, w) =
            unused_entry-FreeAt fuel table page (from + 1) free
              (seen || ((table from).fault_page == page)) later (omega (arith, h)) e in
          (
            i,
            flag,
            rw (unused_entry, taken) f,
            record {
              here = omega (arith, w.here);
              inside = omega (arith, w.inside);
              free = w.free;
              passed = λ j l m. elim (Bool-cases (j == from)) [
                | inl same ↦ let z : j ≡ from = ground arith in rw z taken
                | inr apart ↦ w.passed j (ground arith) m
              ];
              why = λ g. seen_before i w.here (w.why g);
            },
          )
    ]
  where
    seen_before :
        (i : ℕ)
        → from + 1 ≤ i
        → ((seen || ((table from).fault_page == page)) ≡ true)
          ⊎ ((a : ℕ) × (from + 1 ≤ a) × (a < i) × ((table a).fault_page ≡ page))
        → (seen ≡ true) ⊎ ((a : ℕ) × (from ≤ a) × (a < i) × ((table a).fault_page ≡ page))
    seen_before i l (inr (a, le', m, p)) = inr (a, omega (arith, le'), m, p)
    seen_before i l (inl s) = elim (Bool-cases seen) [
      | inl old ↦ inl old
      | inr new ↦ inr (from, omega arith, omega (arith, l), ground (arith, s, new))
    ]

-- The fault is in an entry that was free, and only the entry at its place may lead there as well.
pub record Saved (table t : Array PendingFault) (home i : ℕ) (fault : PendingFault) : Type 0 where
  pub inside : i < max_pf + max_pf
  pub free : (table i).valid ≡ false
  pub new : t i ≡ fault
  pub head : (i ≡ home) ⊎ (t home ≡ record (table home) { collision = some i })
  pub others : (j : ℕ) → (j == i) ≡ false → (j == home) ≡ false → t j ≡ table j

-- What `save_state` may give: the entry's index, or that the page was asked for, if an entry in the
-- second half is for that page.
pub data Saves (table : Array PendingFault) (page : ℕ) (fault : PendingFault)
    : Option (SavedAt × Array PendingFault) → Type 0 where
  asks :
      {t : Array PendingFault} {i : ℕ}
      → Saved table t (page % max_pf) i fault
      → Saves table page fault (some (index i, t))
  waits :
      {t : Array PendingFault} {i : ℕ} (a : ℕ)
      → max_pf ≤ a
      → a < i
      → (table a).valid ≡ true
      → (table a).fault_page ≡ page
      → Saved table t (page % max_pf) i fault
      → Saves table page fault (some (already_requested, t))

behind-Saved :
    (table : Array PendingFault) (home i : ℕ) (fault : PendingFault)
    → home < i
    → i < max_pf + max_pf
    → (table i).valid ≡ false
    → Saved table (set_collision (update (set_collision table home i) i fault) home i) home i fault
unfolding update
behind-Saved table home i fault h inside free =
    let a : (home == i) ≡ false = ground arith in
    let b : (i == home) ≡ false = ground arith in
    let c : (home == home) ≡ true = ground arith in
    let d : (i == i) ≡ true = ground arith in
    record {
      inside = inside;
      free = free;
      new = rw (b, d);
      head = inr (rw (c, a));
      others = λ j x y. rw (y, x);
    }

-- Where some entry in the second half is free, save_state ends and puts the fault into an entry
-- that was free, to which the entry at the page's place leads if it was in use; no other entry
-- changes. It answers with the entry's index, or that the page was asked for, then only if an
-- entry in the second half is for that page.
pub save_state-Saves :
    (table : Array PendingFault) (faulter faultfor page access free : ℕ)
    → max_pf ≤ free
    → free < max_pf + max_pf
    → (table free).valid ≡ false
    → Saves table page
        (new_fault faulter faultfor page access)
        (save_state table faulter faultfor page access)
unfolding save_state save_behind update
save_state-Saves table faulter faultfor page access free le h e =
    let home = page % max_pf in
    let fault = new_fault faulter faultfor page access in
    elim (Bool-cases (table home).valid) [
      | inr empty ↦
          rw (save_state, empty)
            (asks (record {
              inside = omega arith;
              free = empty;
              new = let d : (home == home) ≡ true = ground arith in rw d;
              head = inl refl;
              others = λ j x y. rw x;
            }))
      | inl taken ↦
          let (i, flag, f, w) = unused_entry-FreeAt max_pf table page max_pf free false le h e in
          let s = behind-Saved table home i fault (omega (arith, w.here)) w.inside w.free in
          rw (save_state, taken, save_behind, f)
            (elim (Bool-cases flag) [
              | inl seen ↦ rw seen (elim (w.why seen) [
                | inl never ↦ ground (arith, never)
                | inr (a, l, m, p) ↦ waits a l m (w.passed a l m) p s
              ])
              | inr unseen ↦ rw unseen (asks s)
            ])
    ]
