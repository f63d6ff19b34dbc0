-- ===== src/Ptable/Lookup.antt =====
-- `add_pte` and then `find_pte` of kernel/src/vm/ptable.c.
use mungi.Common.{ℕ, zero, suc, ◌%◌, ◌^◌, ◌<◌, ◌≡◌, ◌≢◌, refl, true, false, ◌==◌, arith}
use mungi.Common.Arrays.{update}
use mungi.Common.Checked.{done}
use mungi.Ptable.{
  is_valid, UsedPage, Tables, in_ptable, not_found, find_chain, find_page, find_pte, add_pte,
  goes_on, pindex, filled, set_dirty,
}

-- The page table after a page is put into an entry that is not valid.
abbrev stored : Tables → ℕ → ℕ → ℕ → Tables
stored t vpno pfno mode = record t {
  ptable = update t.ptable (pindex t vpno) (filled t vpno pfno);
  dirty = set_dirty t pfno mode;
}

-- The search ends at an entry that no longer goes on.
find_chain-stops :
    (fuel : ℕ) (t : Tables) (vpno : ℕ) (page : UsedPage)
    → goes_on t vpno page ≡ false
    → find_chain fuel t vpno page ≡ not_found
unfolding find_chain
find_chain-stops zero t vpno page e = rw e
find_chain-stops (suc fuel) t vpno page e = rw (find_chain, e)

-- Where a page's entry of the page table is not valid, add_pte puts the page there, and find_pte
-- finds it; any other page of that entry is no longer found, also one that stood in a chain behind
-- it. The numbers of both pages are below 2^32, as find_pte takes an unsigned int, and the
-- collision table has fewer than 2^15 entries, as a chain has 15 bits.
pub find_pte-add_pte :
    (fuel : ℕ) (t : Tables) (vpno pfno mode other : ℕ)
    → (t.max_ptable == 0) ≡ false
    → t.max_ctable < 2 ^ 15
    → vpno < 2 ^ 32
    → other < 2 ^ 32
    → is_valid (t.ptable (pindex t vpno)).validity ≡ false
    → pindex t other ≡ pindex t vpno
    → other ≢ vpno
    → (t' : Tables) × (add_pte fuel t vpno pfno mode ≡ done t')
      × (find_pte fuel t' vpno ≡ in_ptable (pindex t vpno))
      × (find_pte fuel t' other ≡ not_found)
unfolding add_pte find_pte find_page update
find_pte-add_pte fuel t vpno pfno mode other some few small small' free same apart =
    let i = pindex t vpno in
    let self : (i == i) ≡ true = ground arith in
    let whole : vpno % 2 ^ 32 ≡ vpno = omega (arith, small) in
    let whole' : other % 2 ^ 32 ≡ other = omega (arith, small') in
    let number : vpno % 2 ^ 36 ≡ vpno = omega (arith, small) in
    let hit : (vpno % 2 ^ 36 == vpno) ≡ true = ground (arith, number) in
    let miss : (vpno % 2 ^ 36 == other) ≡ false = ground (arith, apart, number) in
    (
      stored t vpno pfno mode,
      rw free refl,
      rw (whole, some, self, hit) refl,
      rw (whole', some, same, self, miss)
          (find_chain-stops fuel (stored t vpno pfno mode) other _ (ground (arith, few))),
    )
