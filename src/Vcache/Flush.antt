-- ===== src/Vcache/Flush.antt =====
-- `vcache_flush` and `vcache_flush_addr` of kernel/src/vcache.c.
use mungi.Common.{
  ℕ, zero, suc, ◌<◌, ◌≡◌, refl, sym, ap, ◌≢◌, false, none, some, List, [], ◌∷◌, arith, length,
  get_elem?, set, ◌==◌, Bool-cases, inl, inr, get_elem?_of_lt,
}
use mathlib.Core.Path.{subst}
use mathlib.Core.Option.{some-injective}
use mungi.Common.Bits.{meets, m_pdx}
use mungi.Common.Checked.{done}
use mungi.Vcache.{
  Vcache, Slot, vcache_flush, vcache_flush_addr, vcache_check, check_slots, check_entry, covers,
  flush_slots, clear_all, in_range, check_all,
}

-- No entry of the list covers the address for the access.
abbrev Uncovered : ℕ → ℕ → List Slot → Type 0
Uncovered addr access [] = Unit {0}
Uncovered addr access (s ∷ ss) = (covers s addr access ≡ false) × Uncovered addr access ss

check_slots-Uncovered :
    (addr access now : ℕ) (ss : List Slot)
    → Uncovered addr access ss
    → check_slots addr access now ss ≡ done (ss, none)
unfolding check_slots check_entry
check_slots-Uncovered addr access now [] u = refl
check_slots-Uncovered addr access now (s ∷ ss) u =
    rw (u.0, check_slots-Uncovered addr access now ss u.1)

Uncovered-get :
    (addr access i : ℕ) (ss : List Slot) (s : Slot)
    → Uncovered addr access ss
    → get_elem? ss i ≡ some s
    → (covers s addr access ≡ false) × (set ss i s ≡ ss)
Uncovered-get addr access i [] s u e = cc
Uncovered-get addr access zero (t ∷ ss) s u e =
    let q = some-injective t s e in
    (subst (λ x. covers x addr access ≡ false) q u.0, ap (λ x. x ∷ ss) (sym q))
Uncovered-get addr access (suc i) (t ∷ ss) s u e =
    let ih = Uncovered-get addr access i ss s u.1 e in (ih.0, rw ih.1)

-- A cache in which no entry covers the address answers no, and stays as it is.
vcache_check-Uncovered :
    (c : Vcache) (addr access now : ℕ) (s : Slot)
    → get_elem? c.slots c.last ≡ some s
    → Uncovered addr access c.slots
    → vcache_check c addr access now ≡ done (c, none)
unfolding vcache_check check_entry
vcache_check-Uncovered c addr access now s e u = elim (Bool-cases (addr == 0)) [
  | inl z ↦ rw z
  | inr nz ↦ rw (
    nz,
    e,
    (Uncovered-get addr access c.last c.slots s u e).0,
    (Uncovered-get addr access c.last c.slots s u e).1,
    check_all,
    check_slots-Uncovered addr access now c.slots u,
  )
]

clear_all-Uncovered :
    (addr access : ℕ) (ss : List Slot) → addr ≢ 0 → Uncovered addr access (clear_all ss)
unfolding clear_all
clear_all-Uncovered addr access [] ne = tt
clear_all-Uncovered addr access (s ∷ ss) ne = (ground arith, clear_all-Uncovered addr access ss ne)

length-clear_all : (ss : List Slot) → length (clear_all ss) ≡ length ss
unfolding clear_all
length-clear_all [] = refl
length-clear_all (s ∷ ss) = omega (arith, length-clear_all ss)

-- After vcache_flush no access to any address is found in a cache that has entries.
vcache_flush-misses :
    (c : Vcache) (addr access now : ℕ)
    → 0 < length c.slots
    → vcache_check (vcache_flush c) addr access now ≡ done (vcache_flush c, none)
unfolding vcache_flush
vcache_flush-misses c addr access now h =
    let (s, e) = get_elem?_of_lt (clear_all c.slots) 0 (omega (arith, length-clear_all c.slots)) in
    elim (Bool-cases (addr == 0)) [
      | inl z ↦ unfold vcache_check in rw z
      | inr nz ↦
          vcache_check-Uncovered (record { last = 0; slots = clear_all c.slots }) addr access now s
            e (clear_all-Uncovered addr access c.slots (ground arith))
    ]

flush_slots-Uncovered :
    (addr access : ℕ) (ss : List Slot)
    → meets access m_pdx ≡ false
    → addr ≢ 0
    → Uncovered addr access (flush_slots addr ss)
unfolding flush_slots
flush_slots-Uncovered addr access [] np ne = tt
flush_slots-Uncovered addr access (s ∷ ss) np ne = (
  elim (Bool-cases (in_range addr s.base s.limit)) [
    | inl i ↦ rw (i, np) (ground arith)
    | inr o ↦ rw (o, np) o
  ],
  flush_slots-Uncovered addr access ss np ne,
)

length-flush_slots : (addr : ℕ) (ss : List Slot) → length (flush_slots addr ss) ≡ length ss
unfolding flush_slots
length-flush_slots addr [] = refl
length-flush_slots addr (s ∷ ss) = omega (arith, length-flush_slots addr ss)

-- After vcache_flush_addr at an address no access to it without M_PDX is found in a cache whose
-- last index is in range.
vcache_flush_addr-misses :
    (c : Vcache) (addr access now : ℕ)
    → c.last < length c.slots
    → meets access m_pdx ≡ false
    → vcache_check (vcache_flush_addr c addr) addr access now
      ≡ done (vcache_flush_addr c addr, none)
unfolding vcache_flush_addr
vcache_flush_addr-misses c addr access now h np =
    let ss = flush_slots addr c.slots in
    let (s, e) = get_elem?_of_lt ss c.last (omega (arith, length-flush_slots addr c.slots)) in
    elim (Bool-cases (addr == 0)) [
      | inl z ↦ unfold vcache_check in rw z
      | inr nz ↦
          vcache_check-Uncovered (record { last = c.last; slots = ss }) addr access now s e
            (flush_slots-Uncovered addr access c.slots np (ground arith))
    ]

-- The entries cover one address each, as `vcache_add` makes them for a PDX.
abbrev PointEntries : List Slot → Type 0
PointEntries [] = Unit {0}
PointEntries (s ∷ ss) = (s.base ≡ s.limit) × PointEntries ss

flush_slots-points : (addr : ℕ) (ss : List Slot) → PointEntries ss → flush_slots addr ss ≡ ss
unfolding flush_slots
flush_slots-points addr [] p = refl
flush_slots-points addr (s ∷ ss) p =
    let out : in_range addr s.base s.limit ≡ false = ground arith in
    rw (out, flush_slots-points addr ss p.1)

-- A cache of PDX entries, whose base and limit are equal, survives vcache_flush_addr at every
-- address, that of an entry included.
vcache_flush_addr-keeps_pdx :
    (c : Vcache) (addr : ℕ) → PointEntries c.slots → vcache_flush_addr c addr ≡ c
unfolding vcache_flush_addr
vcache_flush_addr-keeps_pdx c addr p = rw (flush_slots-points addr c.slots p)
