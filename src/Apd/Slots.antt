-- ===== src/Apd/Slots.antt =====
-- The C-list slots of kernel/src/apd.c under insertion, deletion, locking and copying.
use mungi.Common.{
  ℕ, zero, suc, ◌+◌, ◌-◌, ◌≤◌, ◌<◌, ◌≡◌, refl, ◌≢◌, true, false, ◌&&◌, List, [], ◌∷◌, ◌==◌, leb,
  ltb, if◌then◌else◌, arith,
}
use mungi.Common.Arrays.{Array, update}
use mungi.Common.Int.{ℤ, pos}
use mungi.Object.{Cap}
use mungi.Security.Validate.{Clist, is_not_clist}
use mungi.Apd.{
  Apddesc, apd_max_entry, null_cap, st_lock, shift_up, shift_down, insert_at, apd_slot_insert,
  apd_slot_delete, apd_slot_lock, copy_slots, apd_get,
}

shift_up_lem :
    (f : Array Cap) (p rounds j : ℕ)
    → shift_up f p rounds j ≡ (if ltb p j && leb j (p + rounds) then f (j - 1) else f j)
unfolding shift_up update
shift_up_lem f p zero j = ground arith
shift_up_lem f p (suc rounds) j =
    ground (arith, shift_up_lem (update f (p + rounds + 1) (f (p + rounds))) p rounds j)

shift_down_lem :
    (f : Array Cap) (i rounds j : ℕ)
    → shift_down f i rounds j ≡ (if leb i j && ltb j (i + rounds) then f (j + 1) else f j)
unfolding shift_down update
shift_down_lem f i zero j = ground arith
shift_down_lem f i (suc rounds) j =
    ground (arith, shift_down_lem (update f i (f (i + 1))) (i + 1) rounds j)

-- The counts of a domain stay within its table.
pub record InTable (d : Apddesc) : Type 0 where
  pub used : d.n_apd ≤ apd_max_entry
  pub locked : d.n_locked ≤ apd_max_entry

apd_slot_insert-InTable :
    (d : Apddesc) (address passwd : ℕ) (c : Clist) (position : ℤ)
    → InTable d
    → InTable (apd_slot_insert d address c passwd position).0
unfolding apd_slot_insert insert_at
apd_slot_insert-InTable d address passwd c position w = ground arith

apd_slot_delete-InTable :
    (d : Apddesc) (position : ℤ) → InTable d → InTable (apd_slot_delete d position).0
unfolding apd_slot_delete
apd_slot_delete-InTable d position w = ground arith

apd_slot_lock-InTable :
    (d : Apddesc) (position : ℤ) → InTable d → InTable (apd_slot_lock d position).0
unfolding apd_slot_lock
apd_slot_lock-InTable d position w = ground arith

-- One call of a slot operation, and the domain after a sequence of them.
pub data SlotCall : Type 0 where
  insert : ℕ → Clist → ℕ → ℤ → SlotCall
  delete lock : ℤ → SlotCall

abbrev after_call : Apddesc → SlotCall → Apddesc
after_call d (insert address c passwd position) = (apd_slot_insert d address c passwd position).0
after_call d (delete position) = (apd_slot_delete d position).0
after_call d (lock position) = (apd_slot_lock d position).0

abbrev pub after_calls : Apddesc → List SlotCall → Apddesc
after_calls d [] = d
after_calls d (c ∷ cs) = after_calls (after_call d c) cs

after_call-InTable : (d : Apddesc) (c : SlotCall) → InTable d → InTable (after_call d c)
after_call-InTable d (insert address c passwd position) w =
    apd_slot_insert-InTable d address passwd c position w
after_call-InTable d (delete position) w = apd_slot_delete-InTable d position w
after_call-InTable d (lock position) w = apd_slot_lock-InTable d position w

-- No sequence of slot operations, at whatever positions, takes the number of C-lists or the number
-- of locked slots out of the table of 16.
after_calls-InTable : (d : Apddesc) (cs : List SlotCall) → InTable d → InTable (after_calls d cs)
after_calls-InTable d [] w = w
after_calls-InTable d (c ∷ cs) w =
    after_calls-InTable (after_call d c) cs (after_call-InTable d c w)

-- The C-list stands at the address, and the position is one that `apd_slot_insert` accepts.
pub record CanInsert (d : Apddesc) (address : ℕ) (c : Clist) (p : ℕ) : Type 0 where
  pub proper : is_not_clist address c ≡ false
  pub inside : p < apd_max_entry
  pub room : d.n_apd < apd_max_entry
  pub unlocked : d.n_locked ≤ p

module _ (d : Apddesc) (address passwd : ℕ) (c : Clist) (p : ℕ) (w : CanInsert d address c p) where
  insert_runs : apd_slot_insert d address c passwd (pos p) ≡ (
    record d {
      clist =
          update
            (shift_up d.clist p (d.n_apd - p))
            p
            (record { address = address; passwd = passwd });
      n_apd = if leb (p + 1) d.n_apd then d.n_apd else p + 1;
    },
    0,
  )
  unfolding apd_slot_insert insert_at
  insert_runs =
      let full : (d.n_apd == apd_max_entry) ≡ false = ground (arith, w.room) in
      let free : ltb p d.n_locked ≡ false = ground (arith, w.unlocked) in
      let small : ltb p apd_max_entry ≡ true = ground (arith, w.inside) in
      let whole : ltb (p + 0) (apd_max_entry + 0) ≡ true = ground (arith, w.inside) in
      ground (arith, w.proper, full, free, small, whole)

  -- Inserting a C-list behind the slots in use, at a position that is not locked, puts the C-list
  -- there if the table is not full, counts every slot up to it, and changes no other slot.
  apd_slot_insert-end :
      d.n_apd ≤ p
      → ((apd_slot_insert d address c passwd (pos p)).1 ≡ 0)
        × ((apd_slot_insert d address c passwd (pos p)).0.n_apd ≡ p + 1)
        × ((apd_slot_insert d address c passwd (pos p)).0.clist p
            ≡ record { address = address; passwd = passwd })
        × ((j : ℕ) → j ≢ p → (apd_slot_insert d address c passwd (pos p)).0.clist j ≡ d.clist j)
  unfolding update
  apd_slot_insert-end behind =
      let none_above : d.n_apd - p ≡ 0 = omega arith in
      rw insert_runs (
        refl,
        ground arith,
        ground arith,
        λ j ne. ground (arith, shift_up_lem d.clist p (d.n_apd - p) j),
      )

  -- In a table that is not full, inserting a C-list at a slot in use that is not locked moves that
  -- slot and those behind it up by one, and leaves the count as it was: the C-list that was last
  -- is in a slot that no longer counts.
  apd_slot_insert-drops_last :
      p < d.n_apd
      → let d' = (apd_slot_insert d address c passwd (pos p)).0 in
        (d'.n_apd ≡ d.n_apd)
        × (d'.clist d.n_apd ≡ d.clist (d.n_apd - 1))
        × (d'.clist p ≡ record { address = address; passwd = passwd })
        × ((j : ℕ) → j < p → d'.clist j ≡ d.clist j)
        × ((j : ℕ) → p ≤ j → j < d.n_apd → d'.clist (j + 1) ≡ d.clist j)
  unfolding update
  apd_slot_insert-drops_last before = rw insert_runs (
    ground arith,
    ground (arith, shift_up_lem d.clist p (d.n_apd - p) d.n_apd),
    ground arith,
    (λ j lo. ground (arith, shift_up_lem d.clist p (d.n_apd - p) j)),
    λ j lo hi. ground (arith, shift_up_lem d.clist p (d.n_apd - p) (j + 1)),
  )

-- Deleting a slot in use that is not locked moves the slots behind it down by one, clears the last
-- one, and counts one less.
apd_slot_delete-shifts :
    (d : Apddesc) (p : ℕ)
    → d.n_locked ≤ p
    → p < d.n_apd
    → let d' = (apd_slot_delete d (pos p)).0 in
      ((apd_slot_delete d (pos p)).1 ≡ 0)
      × (d'.n_apd + 1 ≡ d.n_apd)
      × ((j : ℕ) → j < p → d'.clist j ≡ d.clist j)
      × ((j : ℕ) → p ≤ j → j + 1 < d.n_apd → d'.clist j ≡ d.clist (j + 1))
      × (d'.clist d'.n_apd ≡ null_cap)
unfolding apd_slot_delete update
apd_slot_delete-shifts d p unlocked used =
    let free : ltb (p + 0) (d.n_locked + 0) ≡ false = ground arith in
    let small : ltb (p + 0) (d.n_apd + 0) ≡ true = ground arith in
    rw (free, small)
      (
        refl,
        omega arith,
        (λ j lo. ground (arith, shift_down_lem d.clist p (d.n_apd - 1 - p) j)),
        (λ j lo hi. ground (arith, shift_down_lem d.clist p (d.n_apd - 1 - p) j)),
        ground arith,
      )

-- After apd_slot_lock of one of the 16 slots no insertion or deletion at it or in front of it
-- changes the domain.
pub apd_slot_lock-protects :
    (d : Apddesc) (p q : ℕ) (address passwd : ℕ) (c : Clist)
    → p < apd_max_entry
    → q ≤ p
    → let d' = (apd_slot_lock d (pos p)).0 in
      ((apd_slot_delete d' (pos q)).0 ≡ d')
      × ((apd_slot_delete d' (pos q)).1 ≡ st_lock)
      × ((apd_slot_insert d' address c passwd (pos q)).0 ≡ d')
unfolding apd_slot_lock apd_slot_delete apd_slot_insert insert_at
apd_slot_lock-protects d p q address passwd c h le = (ground arith, ground arith, ground arith)

copy_slots_lem :
    (f buffer : Array Cap) (n j : ℕ)
    → copy_slots f buffer n j
      ≡ (if ltb j n then record { address = (f j).address; passwd = 0 } else buffer j)
unfolding copy_slots update
copy_slots_lem f buffer zero j = ground arith
copy_slots_lem f buffer (suc n) j = ground (arith, copy_slots_lem f buffer n j)

-- `apd_get` hands out the address of every slot and the counts, and no password.
apd_get-hides :
    (d buffer : Apddesc) (j : ℕ)
    → j < apd_max_entry
    → ((apd_get d buffer).clist j ≡ record { address = (d.clist j).address; passwd = 0 })
      × ((apd_get d buffer).n_apd ≡ d.n_apd)
      × ((apd_get d buffer).n_locked ≡ d.n_locked)
unfolding apd_get
apd_get-hides d buffer j h =
    (ground (arith, copy_slots_lem d.clist buffer.clist apd_max_entry j), refl, refl)
