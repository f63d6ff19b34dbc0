-- ===== src/Vcache/Add.antt =====
-- `vcache_add` of kernel/src/vcache.c, and the check that follows it.
use mungi.Common.{
  ℕ, suc, ◌+◌, ◌<◌, ◌≤◌, ◌≡◌, refl, ◌∙◌, ◌≢◌, true, false, some, List, [], ◌∷◌, arith, length, set,
  get_elem?-set_self, set-set, set_at, ◌++◌, ◌==◌, ltb, ◌^◌, ◌%◌, inl, ◌⊎◌,
}
use native.Mathlib.Nat.{zero-add}
use mungi.Common.Int.{ℤ}
use mungi.Common.Bits.{meets, within, m_not, m_pdx, sub64}
use mungi.Common.Checked.{done}
use mungi.Vcache.{
  Vcache, Slot, vcache_check, vcache_add, victim, check_entry, Extent, CapRef, in_range,
  vcache_timeout,
}

-- The slot chosen lies in the cache, unless it is the default.
victim_bound :
    (i slot oldest : ℕ) (ss : List Slot)
    → (victim i slot oldest ss ≡ slot)
      ⊎ ((i ≤ victim i slot oldest ss) × (victim i slot oldest ss < i + length ss))
unfolding victim
victim_bound i slot oldest [] = inl refl
victim_bound i slot oldest (s ∷ ss) =
    ground (arith, victim_bound (suc i) i s.timestamp ss, victim_bound (suc i) slot oldest ss)

victim-lt : (oldest : ℕ) (ss : List Slot) → 0 < length ss → victim 0 0 oldest ss < length ss
victim-lt oldest ss h = ground (arith, victim_bound 0 0 oldest ss)

-- No entry is empty.
abbrev Full : List Slot → Type 0
Full [] = Unit {0}
Full (s ∷ ss) = (s.base ≢ 0) × Full ss

-- Where some slot is empty, the first empty one is taken.
victim_empty :
    (i slot oldest : ℕ) (ss : List Slot) (e : Slot) (ts : List Slot)
    → Full ss
    → e.base ≡ 0
    → victim i slot oldest (ss ++ e ∷ ts) ≡ i + length ss
unfolding victim
victim_empty i slot oldest [] e ts f z = ground arith
victim_empty i slot oldest (s ∷ ss) e ts f z = ground (
  arith,
  victim_empty (suc i) i s.timestamp ss e ts f.1 z,
  victim_empty (suc i) slot oldest ss e ts f.1 z,
)

-- The entry that `vcache_add` writes for a right to a whole object.
abbrev object_slot : Extent → ℕ → CapRef → ℤ → ℕ → Slot
object_slot o rights cap pdx_slot later = record {
  base = o.base;
  limit = o.limit;
  timestamp = later;
  rights = rights;
  obj = o.obj;
  cap = cap;
  pdx_slot = pdx_slot;
}

module _ (c : Vcache) (o : Extent) (rights : ℕ) (cap : CapRef) (cap_address : ℕ) (pdx_slot : ℤ)
    (now later : ℕ) where
  added : Vcache
  added =
      let slot = victim 0 0 ((now + 1) % 2 ^ 64) c.slots in
      record { last = slot; slots = set c.slots slot (object_slot o rights cap pdx_slot later) }

  add_done :
      meets rights m_not ≡ false
      → meets rights m_pdx ≡ false
      → vcache_add c o rights cap cap_address pdx_slot now later ≡ done added
  unfolding vcache_add added
  add_done positive np = rw (positive, np)

  -- In a cache that has entries, a right to a whole object, not negative and without M_PDX, that
  -- vcache_add records is found by the next check of an address of the object, other than 0,
  -- within a minute, for any part of the rights, and by the entry that is tried first.
  pub vcache_check-add :
      (addr access t : ℕ)
      → 0 < length c.slots
      → meets rights m_not ≡ false
      → meets rights m_pdx ≡ false
      → meets access m_pdx ≡ false
      → within access rights ≡ true
      → 0 < addr
      → o.base ≤ addr
      → addr < o.limit
      → sub64 t later ≤ vcache_timeout
      → (c' : Vcache) × (vcache_add c o rights cap cap_address pdx_slot now later ≡ done c')
        × (vcache_check c' addr access t
            ≡ done (c', some (record { obj = o.obj; cap = cap; pdx_slot = pdx_slot })))
  unfolding vcache_check check_entry added
  vcache_check-add addr access t full positive np np' enough nz lo hi fresh =
      let slot = victim 0 0 ((now + 1) % 2 ^ 64) c.slots in
      let s = object_slot o rights cap pdx_slot later in
      let there = get_elem?-set_self c.slots slot s (victim-lt _ c.slots full) in
      let nz' : (addr == 0) ≡ false = ground arith in
      let inside : in_range addr o.base o.limit ≡ true = ground arith in
      let young : ltb vcache_timeout (sub64 t later) ≡ false = ground arith in
      (
        added,
        add_done positive np,
        rw (nz', there, np', inside, young, positive, enough, set-set c.slots slot s s),
      )

  -- Where the cache has an empty slot, `vcache_add` fills the first one and keeps every other entry.
  vcache_add-empty_slot :
      (ss : List Slot) (e : Slot) (ts : List Slot)
      → c.slots ≡ ss ++ e ∷ ts
      → Full ss
      → e.base ≡ 0
      → meets rights m_not ≡ false
      → meets rights m_pdx ≡ false
      → vcache_add c o rights cap cap_address pdx_slot now later
        ≡ done (record {
          last = length ss;
          slots = ss ++ object_slot o rights cap pdx_slot later ∷ ts;
        })
  unfolding added
  vcache_add-empty_slot ss e ts q f z positive np =
      add_done positive np
      ∙ rw (
        q,
        victim_empty 0 0 ((now + 1) % 2 ^ 64) ss e ts f z,
        zero-add,
        set_at ss e (object_slot o rights cap pdx_slot later) ts,
      )
