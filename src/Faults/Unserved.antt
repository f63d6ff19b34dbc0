-- ===== src/Faults/Unserved.antt =====
-- `save_state` of kernel/src/vm/vm.c, and `ppf_map` of kernel/src/vm/rpager.c after it.
use mungi.Common.{
  ℕ, zero, suc, ◌+◌, ◌*◌, ◌%◌, ◌≤◌, ◌<◌, ◌≡◌, refl, true, false, Option, none, some, [], ◌∷◌, ◌==◌,
  ltb, arith, Bool-cases, inl, inr,
}
use mungi.Faults.Slots.{Saved, Saves, asks, waits, save_state-Saves}
use mathlib.Core.Path.{subst}
use mungi.Common.Arrays.{Array}
use mungi.Common.Int.{pos}
use mungi.Faults.{
  max_pf, PendingFault, SavedAt, already_requested, new_fault, save_state, map_chain, ppf_map,
}

-- No entry in the second half leads to another one.
abbrev pub Flat : Array PendingFault → Type 0
Flat table = (j : ℕ) → max_pf ≤ j → (table j).collision ≡ none

-- That stays so.
pub save_state-Flat :
    (table t : Array PendingFault) (page i : ℕ) (fault : PendingFault)
    → fault.collision ≡ none
    → Saved table t (page % max_pf) i fault
    → Flat table
    → Flat t
save_state-Flat table t page i fault e s flat j h = elim (Bool-cases (j == i)) [
  | inl same ↦ let z : j ≡ i = ground arith in rw (z, s.new) e
  | inr apart ↦
      let other : (j == page % max_pf) ≡ false = ground (arith, h) in
      rw (s.others j apart other) (flat j h)
]

map_chain-none : (fuel : ℕ) (t : Array PendingFault) (page : ℕ) → map_chain fuel t page none ≡ []
unfolding map_chain
map_chain-none zero t page = refl
map_chain-none (suc fuel) t page = refl

map_chain_one :
    (fuel : ℕ) (t : Array PendingFault) (page a : ℕ)
    → (t a).collision ≡ none
    → (t a).fault_page ≡ page
    → map_chain (suc fuel) t page (some a) ≡ a ∷ []
unfolding map_chain
map_chain_one fuel t page a e p =
    let same : ((t a).fault_page == page) ≡ true = ground (arith, p) in
    rw (map_chain, e, map_chain-none fuel t page, same)

-- After a fault is saved at `i`, and one at `a` before it that has asked for the page. `alone`: the page
-- that comes for a fault in the second half that is for it goes to that fault's thread only.
pub record Unserved (t : Array PendingFault) (fuel page a i : ℕ) (fault : PendingFault)
    : Type 0 where
  pub second_half : max_pf ≤ a
  pub behind : a < i
  pub saved : t i ≡ fault
  pub asked : ((t a).valid ≡ true) × ((t a).fault_page ≡ page)
  pub first_half : ((t (page % max_pf)).fault_page == page) ≡ false
  pub flat : Flat t
  pub alone :
      (b : ℕ)
      → max_pf ≤ b
      → b ≤ 2 * max_pf
      → (t b).fault_page ≡ page
      → ppf_map (suc fuel) t (pos b) page ≡ b ∷ []

served_alone :
    (t : Array PendingFault) (fuel page b : ℕ)
    → Flat t
    → max_pf ≤ b
    → b ≤ 2 * max_pf
    → (t b).fault_page ≡ page
    → ppf_map (suc fuel) t (pos b) page ≡ b ∷ []
unfolding ppf_map
served_alone t fuel page b flat l m p =
    let inside : ltb (2 * max_pf) b ≡ false = ground (arith, m) in
    rw (ppf_map, inside) (map_chain_one fuel t page b (flat b l) p)

other_page :
    (table t : Array PendingFault) (page i : ℕ) (fault : PendingFault)
    → max_pf < i
    → ((table (page % max_pf)).fault_page == page) ≡ false
    → Saved table t (page % max_pf) i fault
    → ((t (page % max_pf)).fault_page == page) ≡ false
other_page table t page i fault l h s = elim s.head [
  | inl same ↦ absurd (omega (arith, same, l))
  | inr linked ↦ rw linked h
]

unserved :
    (table t : Array PendingFault) (fuel page : ℕ) (fault : PendingFault)
    (y : Option (SavedAt × Array PendingFault))
    → fault.collision ≡ none
    → Flat table
    → ((table (page % max_pf)).fault_page == page) ≡ false
    → Saves table page fault y
    → y ≡ some (already_requested, t)
    → (a : ℕ) × (i : ℕ) × Unserved t fuel page a i fault
unserved table t fuel page fault _ none_behind flat home (asks s) e = ground (arith, e)
unserved table t fuel page fault _ none_behind flat home (waits {t = u} {i} a l m valid p s) e =
    let z : u ≡ t = ground (arith, e) in
    let same : t a ≡ table a =
      subst (λ x. x a ≡ table a) z (s.others a (ground arith) (ground (arith, l))) in
    let still : Flat t = subst Flat z (save_state-Flat table u page i fault none_behind s flat) in
    (
      a,
      i,
      record {
        second_half = l;
        behind = m;
        saved = subst (λ x. x i ≡ fault) z s.new;
        asked = (rw same valid, rw same p);
        first_half =
            subst (λ x. ((x (page % max_pf)).fault_page == page) ≡ false) z
              (other_page table u page i fault (omega (arith, l, m)) home s);
        flat = still;
        alone = λ b l' m' p'. served_alone t fuel page b still l' m' p';
      },
    )

-- Where the entry at the page's hash place is for another page, and the second half leads nowhere
-- and has a free entry: if save_state answers that the page was asked for, the fault is saved
-- behind an entry of the second half that has asked for the page, the hash place is still for
-- another page, and ppf_map for any entry of the second half that is for the page gives it to that
-- entry's thread alone.
pub save_state-Unserved :
    (table t : Array PendingFault) (faulter faultfor page access free fuel : ℕ)
    → Flat table
    → ((table (page % max_pf)).fault_page == page) ≡ false
    → max_pf ≤ free
    → free < max_pf + max_pf
    → (table free).valid ≡ false
    → save_state table faulter faultfor page access ≡ some (already_requested, t)
    → (a : ℕ) × (i : ℕ) × Unserved t fuel page a i (new_fault faulter faultfor page access)
save_state-Unserved table t faulter faultfor page access free fuel flat home le h e =
    unserved table t fuel page (new_fault faulter faultfor page access)
      (save_state table faulter faultfor page access) refl flat home
      (save_state-Saves table faulter faultfor page access free le h e)
