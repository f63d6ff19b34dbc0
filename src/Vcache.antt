-- ===== src/Vcache.antt =====
-- kernel/src/vcache.c: the validation cache of an APD. The cache's lock is held for the whole of each
-- operation and is left out; the time is an argument.
pub mod Flush
pub mod Check
pub mod Add
use mungi.Common.{
  ℕ, zero, suc, ◌+◌, Bool, true, false, not, ◌&&◌, ◌||◌, Option, none, some, List, [], ◌∷◌, ◌==◌,
  leb, ltb, if◌then◌else◌, get_elem?, set, ◌%◌, ◌^◌, ◌≡◌, refl,
}
use mungi.Common.Checked.{Checked, done, panic, ◌>>=◌}
use mungi.Common.Int.{ℤ}
use mungi.Common.Bits.{m_pdx, m_not, m_owner, meets, within, sub64}

-- Where a capability stands: the address of its C-list, and its index there.
pub record CapRef : Type 0 where
  pub clist : ℕ
  pub index : ℕ

-- A `vcache_entry` and the `vcache_info` of the same index.
pub record Slot : Type 0 where
  pub base : ℕ
  pub limit : ℕ
  pub timestamp : ℕ
  pub rights : ℕ
  pub obj : ℕ
  pub cap : CapRef
  pub pdx_slot : ℤ

pub record Vcache : Type 0 where
  pub last : ℕ
  pub slots : List Slot

abbrev pub vcache_timeout : ℕ
vcache_timeout = 60

abbrev pub in_range : ℕ → ℕ → ℕ → Bool
in_range addr base limit = leb base addr && ltb addr limit

abbrev pub cleared : Slot → Slot
cleared s = record s { base = 0; limit = 0 }

clear_all : List Slot → List Slot
clear_all [] = []
clear_all (s ∷ ss) = cleared s ∷ clear_all ss

pub vcache_flush : Vcache → Vcache
unfolding clear_all
vcache_flush c = record { last = 0; slots = clear_all c.slots }

flush_slots : ℕ → List Slot → List Slot
flush_slots addr [] = []
flush_slots addr (s ∷ ss) =
    (if in_range addr s.base s.limit then cleared s else s) ∷ flush_slots addr ss

pub vcache_flush_addr : Vcache → ℕ → Vcache
unfolding flush_slots
vcache_flush_addr c addr = record c { slots = flush_slots addr c.slots }

-- Whether the entry covers the address: the whole object, or the one entry point of a PDX.
abbrev pub covers : Slot → ℕ → ℕ → Bool
covers s addr access =
    if meets access m_pdx then addr == s.base && addr == s.limit else in_range addr s.base s.limit

abbrev pub expired : Slot → ℕ → Bool
expired s now = ltb vcache_timeout (sub64 now s.timestamp)

-- The entry afterwards (an expired one is cleared) and the verdict.
unfoldable pub check_entry : Slot → ℕ → ℕ → ℕ → Checked (Slot × Bool)
check_entry s addr access now =
    if not (covers s addr access)
    then done (s, false)
    else if expired s now
    then done (cleared s, false)
    else if meets s.rights m_not
    then panic
    else done (s, within access s.rights)

pub record Hit : Type 0 where
  pub obj : ℕ
  pub cap : CapRef
  pub pdx_slot : ℤ

abbrev pub hit_of : Slot → Hit
hit_of s = record { obj = s.obj; cap = s.cap; pdx_slot = s.pdx_slot }

abbrev pub shift : Option (ℕ × Slot) → Option (ℕ × Slot)
shift none = none
shift (some (i, t)) = some (suc i, t)

-- One round of the loop over the cache; `rest` is what the later rounds find.
pub next_slot :
    List Slot
    → Checked (List Slot × Option (ℕ × Slot))
    → Slot × Bool
    → Checked (List Slot × Option (ℕ × Slot))
next_slot ss rest (s, true) = done (s ∷ ss, some (0, s))
next_slot ss rest (s, false) = do (ss', found) ← rest; done (s ∷ ss', shift found)

-- The loop over the whole cache: the slots afterwards, and the index and entry that matched.
unfoldable pub check_slots : ℕ → ℕ → ℕ → List Slot → Checked (List Slot × Option (ℕ × Slot))
unfolding next_slot
check_slots addr access now [] = done ([], none)
check_slots addr access now (s ∷ ss) =
    check_entry s addr access now >>= next_slot ss (check_slots addr access now ss)

check_all : Vcache → ℕ → ℕ → ℕ → Checked (Vcache × Option Hit)
check_all c addr access now = do
  (ss, found) ← check_slots addr access now c.slots
  elim found [
    | none ↦ done (record c { slots = ss }, none)
    | some (i, s) ↦ done (record { last = i; slots = ss }, some (hit_of s))
  ]

-- What follows the check of the entry that matched last.
pub or_check_all : Vcache → ℕ → ℕ → ℕ → Slot × Bool → Checked (Vcache × Option Hit)
unfolding check_all
or_check_all c addr access now (s, true) =
    done (record c { slots = set c.slots c.last s }, some (hit_of s))
or_check_all c addr access now (s, false) =
    check_all (record c { slots = set c.slots c.last s }) addr access now

-- The entry that matched last is tried first. An index behind the cache's end is a memory fault.
unfoldable pub vcache_check : Vcache → ℕ → ℕ → ℕ → Checked (Vcache × Option Hit)
unfolding or_check_all
vcache_check c addr access now =
    if addr == 0 then done (c, none) else elim (get_elem? c.slots c.last) [
      | none ↦ panic
      | some s ↦ check_entry s addr access now >>= or_check_all c addr access now
    ]

-- The first empty slot, or the one with the oldest time stamp below `oldest`, or `slot`.
pub victim : ℕ → ℕ → ℕ → List Slot → ℕ
victim i slot oldest [] = slot
victim i slot oldest (s ∷ ss) = elim (s.base == 0) [
  | true ↦ i
  | false ↦ elim (ltb s.timestamp oldest) [
    | true ↦ victim (suc i) i s.timestamp ss
    | false ↦ victim (suc i) slot oldest ss
  ]
]

-- What `vcache_add` takes from the object: its bounds.
pub record Extent : Type 0 where
  pub obj : ℕ
  pub base : ℕ
  pub limit : ℕ

-- `now` and `later` are the two readings of the clock.
unfoldable pub vcache_add : Vcache → Extent → ℕ → CapRef → ℕ → ℤ → ℕ → ℕ → Checked Vcache
unfolding victim
vcache_add c o access cap cap_address pdx_slot now later =
    if meets access m_not || meets access m_pdx && meets access m_owner
    then panic
    else let slot = victim 0 0 ((now + 1) % 2 ^ 64) c.slots in
      let s : Slot = record {
        base = if meets access m_pdx then cap_address else o.base;
        limit = if meets access m_pdx then cap_address else o.limit;
        timestamp = later;
        rights = access;
        obj = o.obj;
        cap = cap;
        pdx_slot = pdx_slot;
      } in
      done (record { last = slot; slots = set c.slots slot s })
