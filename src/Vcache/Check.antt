-- ===== src/Vcache/Check.antt =====
-- `vcache_check` of kernel/src/vcache.c: what a hit means.
use mungi.Common.{
  ℕ, zero, suc, ◌≡◌, refl, ◌≢◌, Bool, true, false, Option, none, some, List, [], ◌∷◌, arith,
  get_elem?, set, ◌==◌, Bool-cases, Option-cases, inl, inr, ◌⊎◌,
}
use mungi.Common.Bits.{meets, within, m_not}
use mungi.Common.Checked.{Checked, done, >>=-eq-done}
use mungi.Vcache.{
  Vcache, Slot, vcache_check, check_slots, check_entry, covers, cleared, Hit, next_slot,
  or_check_all, hit_of, expired, check_all, shift,
}

-- The entry covers the address, is at most a minute old, and holds every right asked for and no
-- negative one.
record Grants (s : Slot) (addr access now : ℕ) : Type 0 where
  pub covering : covers s addr access ≡ true
  pub fresh : expired s now ≡ false
  pub positive : meets s.rights m_not ≡ false
  pub enough : within access s.rights ≡ true

check_entry-Grants :
    (s s' : Slot) (addr access now : ℕ)
    → check_entry s addr access now ≡ done (s', true)
    → (s' ≡ s) × Grants s addr access now
unfolding check_entry
check_entry-Grants s s' addr access now h = ground arith

-- The entry after the check: as it was, or cleared.
check_entry-after :
    (s s' : Slot) (b : Bool) (addr access now : ℕ)
    → check_entry s addr access now ≡ done (s', b)
    → (s' ≡ s) ⊎ (s' ≡ cleared s)
unfolding check_entry
check_entry-after s s' b addr access now h = ground arith

-- A granting entry stands at the index.
pub Granted : List Slot → ℕ → Slot → ℕ → ℕ → ℕ → Type 0
Granted ss i s addr access now = (get_elem? ss i ≡ some s) × Grants s addr access now

shifted :
    (found : Option (ℕ × Slot)) (i : ℕ) (t : Slot)
    → shift found ≡ some (i, t)
    → (j : ℕ) × (i ≡ suc j) × (found ≡ some (j, t))
shifted none i t h = cc
shifted (some (j, u)) i t h = (j, ground arith, ground arith)

next_slot-Granted :
    (addr access now : ℕ) (s : Slot) (ss ss' : List Slot) (i : ℕ) (t : Slot) (a : Slot × Bool)
    → check_entry s addr access now ≡ done a
    → next_slot ss (check_slots addr access now ss) a ≡ done (ss', some (i, t))
    → ((ss' : List Slot) (i : ℕ) (t : Slot)
        → check_slots addr access now ss ≡ done (ss', some (i, t))
        → Granted ss i t addr access now)
    → Granted (s ∷ ss) i t addr access now
unfolding next_slot Granted
next_slot-Granted addr access now s ss ss' i t (s', true) e h ih =
    let (same, g) = check_entry-Grants s s' addr access now e in
    let z : i ≡ 0 = ground arith in let q : s' ≡ t = ground arith in rw (z, ← q, same) (refl, g)
next_slot-Granted addr access now s ss ss' i t (s', false) e h ih =
    let (b, e', h') = >>=-eq-done (check_slots addr access now ss) _ h in
    let (j, z, f) = shifted b.1 i t (ground arith) in rw z (ih b.0 j t (rw (← f) e'))

check_slots-Granted :
    (addr access now : ℕ) (ss ss' : List Slot) (i : ℕ) (t : Slot)
    → check_slots addr access now ss ≡ done (ss', some (i, t))
    → Granted ss i t addr access now
unfolding check_slots Granted
check_slots-Granted addr access now [] ss' i t h = ground arith
check_slots-Granted addr access now (s ∷ ss) ss' i t h =
    let (a, e, h') = >>=-eq-done (check_entry s addr access now) _ h in
    next_slot-Granted addr access now s ss ss' i t a e h' (check_slots-Granted addr access now ss)

-- A cleared entry covers no address but 0.
cleared-covers :
    (s : Slot) (addr access now : ℕ) → addr ≢ 0 → ¬ (Grants (cleared s) addr access now)
cleared-covers s addr access now ne g = ground (arith, g.covering)

-- An entry that grants in the cache after a check of one entry granted before it.
Granted-set :
    (ss : List Slot) (j i : ℕ) (s s' t : Slot) (addr access now : ℕ)
    → addr ≢ 0
    → get_elem? ss j ≡ some s
    → (s' ≡ s) ⊎ (s' ≡ cleared s)
    → Granted (set ss j s') i t addr access now
    → Granted ss i t addr access now
unfolding Granted
Granted-set [] j i s s' t addr access now ne e c g = cc
Granted-set (u ∷ ss) zero zero s s' t addr access now ne e c g =
    (ground (arith, c, cleared-covers s addr access now ne))
Granted-set (u ∷ ss) zero (suc i) s s' t addr access now ne e c g = g
Granted-set (u ∷ ss) (suc j) zero s s' t addr access now ne e c g = g
Granted-set (u ∷ ss) (suc j) (suc i) s s' t addr access now ne e c g =
    Granted-set ss j i s s' t addr access now ne e c g

check_all-hit :
    (c c' : Vcache) (addr access now : ℕ) (hit : Hit)
    → check_all c addr access now ≡ done (c', some hit)
    → (s : Slot) × Granted c.slots c'.last s addr access now × (hit ≡ hit_of s)
unfolding check_all
check_all-hit c c' addr access now hit h =
    let (a, e, h') = >>=-eq-done (check_slots addr access now c.slots) _ h in found a.0 a.1 e h'
  where
    found :
        (ss : List Slot) (r : Option (ℕ × Slot))
        → check_slots addr access now c.slots ≡ done (ss, r)
        → ◌≡◌ {A = Checked (Vcache × Option Hit)}
            (elim r [
              | none ↦ done (record c { slots = ss }, none)
              | some (i, s) ↦ done (record { last = i; slots = ss }, some (hit_of s))
            ])
            (done (c', some hit))
        → (s : Slot) × Granted c.slots c'.last s addr access now × (hit ≡ hit_of s)
    found ss none e h = ground arith
    found ss (some (i, s)) e h =
        let z : i ≡ c'.last = ground arith in
        (s, rw (← z) (check_slots-Granted addr access now c.slots ss i s e), ground arith)

or_check_all-hit :
    (c c' : Vcache) (addr access now : ℕ) (hit : Hit) (s : Slot) (a : Slot × Bool)
    → addr ≢ 0
    → get_elem? c.slots c.last ≡ some s
    → check_entry s addr access now ≡ done a
    → or_check_all c addr access now a ≡ done (c', some hit)
    → (s : Slot) × Granted c.slots c'.last s addr access now × (hit ≡ hit_of s)
unfolding or_check_all Granted
or_check_all-hit c c' addr access now hit s (s', true) ne e k h =
    let (same, g) = check_entry-Grants s s' addr access now k in
    let z : c.last ≡ c'.last = ground arith in (s, (rw (← z) e, g), ground arith)
or_check_all-hit c c' addr access now hit s (s', false) ne e k h =
    let (t, g, q) = check_all-hit _ c' addr access now hit h in
    (
      t,
      Granted-set c.slots c.last c'.last s s' t addr access now ne e
          (check_entry-after s s' false addr access now k) g,
      q,
    )

-- A hit comes from an entry of the cache that grants the access, and that entry is the one to be
-- tried first next time.
pub vcache_check-hit :
    (c c' : Vcache) (addr access now : ℕ) (hit : Hit)
    → vcache_check c addr access now ≡ done (c', some hit)
    → (s : Slot) × Granted c.slots c'.last s addr access now × (hit ≡ hit_of s)
unfolding vcache_check
vcache_check-hit c c' addr access now hit h = elim (Bool-cases (addr == 0)) [
  | inl z ↦ ground arith
  | inr nz ↦ elim (Option-cases (get_elem? c.slots c.last)) [
    | inl out ↦ ground (arith, out)
    | inr (s, e) ↦
        let h' = rw (nz, e) at h in
        let (a, k, h'') = >>=-eq-done (check_entry s addr access now) _ h' in
        or_check_all-hit c c' addr access now hit s a (ground arith) e k h''
  ]
]
