-- ===== src/Mm/Addr.antt =====
-- `kmalloc_obj_addr` of kernel/src/mm.c: storage at an address that the caller names.
use mungi.Common.{
  ℕ, ◌+◌, ◌-◌, ◌/◌, ◌*◌, ◌%◌, ◌^◌, ◌≤◌, ◌<◌, ◌≡◌, Bool, true, false, Option, none, some, List, [],
  ◌∷◌, ◌==◌, leb, ltb, if◌then◌else◌, arith, Bool-cases, inl, inr,
}
use mungi.Common.Checked.{Checked, done, panic}
use mungi.Mm.{Chunk, add64, page_round_up}
use mungi.Mm.Order.{is_free, Ordered}

-- Subtractions of `size_t`.
abbrev pub sub64 : ℕ → ℕ → ℕ
sub64 a b = (a + 2 ^ 64 - b) % 2 ^ 64

abbrev pub page_round_down : ℕ → ℕ
page_round_down a = a / 4096 * 4096

-- The chunks that were passed, the nearest first, in front of the others.
unfoldable pub back_on : List Chunk → List Chunk → List Chunk
back_on [] cs = cs
back_on (p ∷ older) cs = back_on older (p ∷ cs)

-- A chunk that goes as a whole is unlinked from `prev`, which lags one chunk behind the chunk that was
-- passed last. Where it is `NULL` there is a memory fault, here `panic`; where it is the first chunk,
-- the list's head is set to `NULL`.
unfoldable pub unlink_lagging : List Chunk → List Chunk → Checked (List Chunk)
unlink_lagging [] cs = panic
unlink_lagging (p ∷ []) cs = panic
unlink_lagging (p ∷ q ∷ []) cs = done []
unlink_lagging (p ∷ q ∷ r ∷ older) cs = done (back_on (q ∷ r ∷ older) cs)

-- `address + size <= ptr->address + ptr->size`.
abbrev pub has_room : ℕ → ℕ → Chunk → Bool
has_room a size c = leb (add64 a size) (add64 c.address c.size)

abbrev pub leftover : ℕ → ℕ → Chunk → ℕ
leftover a size c = sub64 (add64 c.address c.size) (add64 a size)

abbrev pub handed : ℕ → Checked (List Chunk) → Checked (Option ℕ × List Chunk)
handed a (done cs) = done (some a, cs)
handed a panic = panic

-- The chunk that starts at the address.
unfoldable pub addr_at : ℕ → ℕ → Chunk → List Chunk → List Chunk → Checked (Option ℕ × List Chunk)
addr_at a size c seen cs =
    if has_room a size c
    then if leftover a size c == 0
      then handed a (unlink_lagging seen cs)
      else done
          (some a, back_on seen (record { address = add64 a size; size = sub64 c.size size } ∷ cs))
    else done (some a, back_on seen (c ∷ cs))

-- The chunk that starts in front of the address. `node` says whether `_kmalloc` has memory; without,
-- the write to the new node is a memory fault.
unfoldable pub addr_in :
    Bool → ℕ → ℕ → Chunk → List Chunk → List Chunk → Checked (Option ℕ × List Chunk)
addr_in node a size c older cs =
    let front : Chunk = record c { size = sub64 a c.address } in
    let rest : Chunk = record { address = add64 a size; size = leftover a size c } in
    if has_room a size c
    then if leftover a size c == 0
      then done (some a, back_on older (front ∷ cs))
      else if node
      then done (some a, back_on older (front ∷ rest ∷ cs))
      else panic
    else done (some a, back_on older (c ∷ cs))

-- The walk to the last chunk in front of the address, which is `p` so far.
unfoldable pub addr_behind :
    Bool → ℕ → ℕ → Chunk → List Chunk → List Chunk → Checked (Option ℕ × List Chunk)
addr_behind node a size p older [] = addr_in node a size p older []
addr_behind node a size p older (c ∷ cs) =
    let later = addr_behind node a size c (p ∷ older) cs in
    if ltb c.address a
    then later
    else if c.address == a
    then addr_at a size c (p ∷ older) cs
    else addr_in node a size p older (c ∷ cs)

unfoldable pub addr_from : Bool → ℕ → ℕ → List Chunk → Checked (Option ℕ × List Chunk)
addr_from node a size [] = done (none, [])
addr_from node a size (c ∷ cs) =
    if ltb c.address a
    then addr_behind node a size c [] cs
    else if c.address == a
    then addr_at a size c [] cs
    else done (none, c ∷ cs)

-- `kmalloc_obj_addr`.
unfoldable pub kmalloc_obj_addr : Bool → ℕ → ℕ → List Chunk → Checked (Option ℕ × List Chunk)
kmalloc_obj_addr node address size cs =
    addr_from node (page_round_down address) (page_round_up size) cs

addr_behind-handed :
    (node : Bool) (a size : ℕ) (p : Chunk) (older cs : List Chunk)
    → p.address + p.size ≤ a
    → a + size < 2 ^ 64
    → 0 < size
    → Ordered (p.address + p.size) cs
    → is_free cs a ≡ false
    → addr_behind node a size p older cs ≡ done (some a, back_on (p ∷ older) cs)
unfolding addr_behind addr_in back_on is_free
addr_behind-handed node a size p older [] end fits z w e =
    let no_room : has_room a size p ≡ false = ground (arith, end, fits, z) in
    rw (addr_behind, addr_in, no_room)
addr_behind-handed node a size p older (c ∷ cs) end fits z w e =
    elim (Bool-cases (ltb c.address a)) [
      | inl below ↦
          rw (addr_behind, below)
            (addr_behind-handed node a size c (p ∷ older) cs (ground (arith, e)) fits z w.3
              (ground (arith, e)))
      | inr not_below ↦
          let apart : (c.address == a) ≡ false = ground (arith, e, w.1) in
          let no_room : has_room a size p ≡ false = ground (arith, end, fits, z) in
          rw (addr_behind, not_below, apart, addr_in, no_room)
    ]

-- Where the page's address lies behind the start of the first chunk of an ordered list and is not
-- free, kmalloc_obj_addr for a size that is not 0 and ends in the address space returns it all the
-- same, and leaves the list as it is.
pub kmalloc_obj_addr-handed :
    (node : Bool) (lo address size : ℕ) (c : Chunk) (cs : List Chunk)
    → Ordered lo (c ∷ cs)
    → c.address < page_round_down address
    → 0 < page_round_up size
    → page_round_down address + page_round_up size < 2 ^ 64
    → is_free (c ∷ cs) (page_round_down address) ≡ false
    → kmalloc_obj_addr node address size (c ∷ cs) ≡ done (some (page_round_down address), c ∷ cs)
unfolding kmalloc_obj_addr addr_from back_on is_free
kmalloc_obj_addr-handed node lo address size c cs w h z fits e =
    let a = page_round_down address in
    let below : ltb c.address a ≡ true = ground arith in
    rw (kmalloc_obj_addr, addr_from, below)
      (addr_behind-handed node a (page_round_up size) c [] cs (ground (arith, e)) fits z w.3
        (ground (arith, e)))

-- Where the third chunk of an ordered list starts at the page of the address and is as long as the
-- rounded size, kmalloc_obj_addr returns it, and the free list is empty afterwards.
pub kmalloc_obj_addr-whole :
    (node : Bool) (lo address size : ℕ) (b c d : Chunk) (cs : List Chunk)
    → Ordered lo (b ∷ c ∷ d ∷ cs)
    → d.address ≡ page_round_down address
    → d.size ≡ page_round_up size
    → kmalloc_obj_addr node address size (b ∷ c ∷ d ∷ cs)
      ≡ done (some (page_round_down address), [])
unfolding kmalloc_obj_addr addr_from addr_behind addr_at unlink_lagging
kmalloc_obj_addr-whole node lo address size b c d cs w at_page whole =
    let a = page_round_down address in
    let n = page_round_up size in
    let first : ltb b.address a ≡ true = ground (arith, w.3.0, w.3.1, w.3.3.0, at_page) in
    let second : ltb c.address a ≡ true = ground (arith, w.3.1, w.3.3.0, at_page) in
    let past : ltb d.address a ≡ false = ground (arith, at_page) in
    let third : (d.address == a) ≡ true = ground (arith, at_page) in
    let room : has_room a n d ≡ true = ground (arith, at_page, whole) in
    let all : (leftover a n d == 0) ≡ true = ground (arith, at_page, whole) in
    rw (kmalloc_obj_addr, addr_from, first, addr_behind, second, past, third, addr_at, room, all)
