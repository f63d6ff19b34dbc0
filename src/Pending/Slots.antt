-- ===== src/Pending/Slots.antt =====
-- `pending_requests_get_slot` of kernel/src/pending_requests.c hands out slots that nobody has.
use mungi.Common.{
  ℕ, zero, suc, ◌+◌, ◌<◌, ◌≤◌, ◌≡◌, ◌≢◌, Bool, true, false, some, arith, Bool-cases, inl, inr,
}
use mungi.Common.Arrays.{Array, update}
use mungi.Common.Checked.{done}
use mungi.Pending.{first_free, pending_requests_get_slot, max_pending_requests}

first_free-found :
    (used : Array Bool) (rounds i j : ℕ)
    → i ≤ j
    → j < i + rounds
    → used j ≡ false
    → (k : ℕ) × (first_free used rounds i ≡ some k) × (used k ≡ false) × (k < i + rounds)
unfolding first_free
first_free-found used zero i j lo hi free = absurd (omega arith)
first_free-found used (suc rounds) i j lo hi free = elim (Bool-cases (used i)) [
  | inr here ↦ (i, rw (first_free, here), here, omega arith)
  | inl taken ↦
      let later : i ≢ j = λ e. ground (arith, rw e at taken) in
      let (m, e, u, b) = first_free-found used rounds (suc i) j (omega arith) (omega arith) free in
      (m, rw (first_free, taken) e, u, omega (arith, b))
]

-- A slot that was free and is in use now, and no other slot changed.
pub record Handed (used : Array Bool) (i : ℕ) (used' : Array Bool) : Type 0 where
  pub below : i < max_pending_requests
  pub was_free : used i ≡ false
  pub in_use : used' i ≡ true
  pub others : (j : ℕ) → j ≢ i → used' j ≡ used j

handed :
    (used : Array Bool) (i : ℕ)
    → i < max_pending_requests
    → used i ≡ false
    → Handed used i (update used i true)
unfolding update
handed used i h e = record {
  below = h;
  was_free = e;
  in_use = ground arith;
  others = λ j ne. ground arith;
}

-- While some slot is free, pending_requests_get_slot hands out a free one and changes no other.
pending_requests_get_slot-Handed :
    (used : Array Bool) (j : ℕ)
    → j < max_pending_requests
    → used j ≡ false
    → (i : ℕ) × (used' : Array Bool) × (pending_requests_get_slot used ≡ done (i, used'))
      × Handed used i used'
unfolding pending_requests_get_slot
pending_requests_get_slot-Handed used j h free =
    let (i, e, u, b) = first_free-found used max_pending_requests 0 j (omega arith) h free in
    (i, update used i true, rw (pending_requests_get_slot, e), handed used i b u)
