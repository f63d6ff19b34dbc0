-- ===== src/Mm/Inside.antt =====
-- `kmalloc_obj_addr` of kernel/src/mm.c where a chunk has room at the address.
use mungi.Common.{
  ℕ, ◌+◌, ◌-◌, ◌≤◌, ◌<◌, ◌≡◌, true, false, Option, some, List, [], ◌∷◌, ◌==◌, ltb, arith,
  Bool-cases, inl, inr,
}
use mathlib.Core.Path.{subst}
use mungi.Common.Checked.{Checked, done}
use mungi.Mm.{Chunk, add64, page_round_up}
use mungi.Mm.Order.{is_free, Ordered, is_free-below, Ordered-mono}
use mungi.Mm.Alloc.{Took, Took-front, Took-later}
use mungi.Mm.Addr.{
  sub64, page_round_down, back_on, has_room, leftover, addr_at, addr_in, addr_behind, addr_from,
  kmalloc_obj_addr,
}

-- Some chunk has the run of `size` bytes at `a`, and starts in front of it or ends behind it.
pub data Room (a size : ℕ) : List Chunk → Type 0 where
  behind_start :
      {c : Chunk} {cs : List Chunk}
      → c.address < a
      → a + size ≤ c.address + c.size
      → Room a size (c ∷ cs)
  at_start : {c : Chunk} {cs : List Chunk} → c.address ≡ a → size < c.size → Room a size (c ∷ cs)
  later : {c : Chunk} {cs : List Chunk} → Room a size cs → Room a size (c ∷ cs)

Room-above : (a size lo : ℕ) (cs : List Chunk) → Ordered lo cs → Room a size cs → lo ≤ a
Room-above a size lo _ w (behind_start {c} {cs} l e) = omega (arith, w.0, l)
Room-above a size lo _ w (at_start {c} {cs} e m) = omega (arith, w.0, e)
Room-above a size lo _ w (later {c} {cs} r) =
    let h = Room-above a size (c.address + c.size) cs w.3 r in omega (arith, w.0, h)

-- What is left of a chunk in front of the run, and behind it.
abbrev front : ℕ → Chunk → Chunk
front a c = record c { size = a - c.address }

Took-end :
    (lo size a : ℕ) (c : Chunk) (cs : List Chunk)
    → Ordered lo (c ∷ cs)
    → c.address < a
    → a + size ≡ c.address + c.size
    → Took lo size a (c ∷ cs) (front a c ∷ cs)
unfolding is_free
Took-end lo size a c cs w h e = record {
  above = omega (arith, w.0);
  was_free = λ x i. ground arith;
  left = λ x. ground (arith, is_free-below (c.address + c.size) x cs w.3);
  ordered = (
    w.0,
    omega arith,
    omega (arith, w.2),
    Ordered-mono _ (c.address + c.size) cs (omega arith) w.3,
  );
}

Took-middle :
    (lo size a : ℕ) (c : Chunk) (cs : List Chunk)
    → Ordered lo (c ∷ cs)
    → c.address < a
    → a + size < c.address + c.size
    → Took lo size a
        (c ∷ cs)
        (front a c ∷ record { address = a + size; size = c.address + c.size - (a + size) } ∷ cs)
unfolding is_free
Took-middle lo size a c cs w h e = record {
  above = omega (arith, w.0);
  was_free = λ x i. ground arith;
  left = λ x. ground (arith, is_free-below (c.address + c.size) x cs w.3);
  ordered = (
    w.0,
    omega arith,
    omega (arith, w.2),
    (
      omega arith,
      omega arith,
      omega (arith, w.2),
      Ordered-mono _ (c.address + c.size) cs (omega arith) w.3,
    ),
  );
}

-- A call that hands out the run and leaves the chunks `older` in front.
abbrev Takes : ℕ → ℕ → ℕ → List Chunk → List Chunk → Checked (Option ℕ × List Chunk) → Type 0
Takes lo a size older cs x =
    (ds : List Chunk) × (x ≡ done (some a, back_on older ds)) × Took lo size a cs ds

addr_in-Takes :
    (lo a size : ℕ) (c : Chunk) (older cs : List Chunk)
    → Ordered lo (c ∷ cs)
    → c.address < a
    → a + size ≤ c.address + c.size
    → Takes lo a size older (c ∷ cs) (addr_in true a size c older cs)
unfolding addr_in
addr_in-Takes lo a size c older cs w h e =
    let room : has_room a size c ≡ true = ground (arith, w.2) in
    let first : sub64 a c.address ≡ a - c.address = omega (arith, w.2) in
    let sum : add64 a size ≡ a + size = omega (arith, w.2) in
    elim (Bool-cases (leftover a size c == 0)) [
      | inl all ↦ (
        front a c ∷ cs,
        rw (addr_in, room, all, first),
        Took-end lo size a c cs w h (ground (arith, w.2, all)),
      )
      | inr more ↦
          let left : leftover a size c ≡ c.address + c.size - (a + size) = omega (arith, w.2) in
          (
            front a c ∷ record { address = a + size; size = c.address + c.size - (a + size) } ∷ cs,
            rw (addr_in, room, more, first, left, sum),
            Took-middle lo size a c cs w h (ground (arith, w.2, more)),
          )
    ]

addr_at-Takes :
    (lo a size : ℕ) (c : Chunk) (older cs : List Chunk)
    → Ordered lo (c ∷ cs)
    → 0 < size
    → c.address ≡ a
    → size < c.size
    → Takes lo a size older (c ∷ cs) (addr_at a size c older cs)
unfolding addr_at
addr_at-Takes lo a size c older cs w z e h =
    let room : has_room a size c ≡ true = ground (arith, w.2, e, h) in
    let more : (leftover a size c == 0) ≡ false = ground (arith, w.2, e, h) in
    let sum : add64 a size ≡ c.address + size = omega (arith, w.2, e) in
    let less : sub64 c.size size ≡ c.size - size = omega (arith, w.2, h) in
    (
      record { address = c.address + size; size = c.size - size } ∷ cs,
      rw (addr_at, room, more, sum, less),
      subst
          (λ n.
            Took lo size n (c ∷ cs)
              (record { address = c.address + size; size = c.size - size } ∷ cs))
          e (Took-front lo size c cs w z h),
    )

-- One chunk more in front of the walk.
Takes-later :
    (lo a size : ℕ) (p : Chunk) (older cs : List Chunk) (x : Checked (Option ℕ × List Chunk))
    → Ordered lo (p ∷ cs)
    → Takes (p.address + p.size) a size (p ∷ older) cs x
    → Takes lo a size older (p ∷ cs) x
unfolding back_on
Takes-later lo a size p older cs x w (ds, e, t) = (p ∷ ds, e, Took-later lo size a p cs ds w t)

addr_behind-Takes :
    (a size lo : ℕ) (p : Chunk) (older cs : List Chunk)
    → Ordered lo (p ∷ cs)
    → 0 < size
    → p.address < a
    → Room a size (p ∷ cs)
    → Takes lo a size older (p ∷ cs) (addr_behind true a size p older cs)
unfolding addr_behind
addr_behind-Takes a size lo p older cs w z l (at_start e h) = absurd (omega (arith, l, e))
addr_behind-Takes a size lo p older [] w z l (behind_start h e) =
    addr_in-Takes lo a size p older [] w l e
addr_behind-Takes a size lo p older [] w z l (later r) = elim r [ ]
addr_behind-Takes a size lo p older (c ∷ cs) w z l (behind_start h e) =
    let t : ltb c.address a ≡ false = ground (arith, w.3.0, z, e) in
    let u : (c.address == a) ≡ false = ground (arith, w.3.0, z, e) in
    rw (addr_behind, t, u) (addr_in-Takes lo a size p older (c ∷ cs) w l e)
addr_behind-Takes a size lo p older (c ∷ cs) w z l (later (at_start e h)) =
    let t : ltb c.address a ≡ false = ground (arith, e) in
    let u : (c.address == a) ≡ true = ground (arith, e) in
    rw (addr_behind, t, u)
      (Takes-later lo a size p older (c ∷ cs) _ w
        (addr_at-Takes (p.address + p.size) a size c (p ∷ older) cs w.3 z e h))
addr_behind-Takes a size lo p older (c ∷ cs) w z l (later (behind_start h e)) =
    let t : ltb c.address a ≡ true = ground arith in
    rw (addr_behind, t)
      (Takes-later lo a size p older (c ∷ cs) _ w
        (addr_behind-Takes a size (p.address + p.size) c (p ∷ older) cs w.3 z h (behind_start h e)))
addr_behind-Takes a size lo p older (c ∷ cs) w z l (later (later r)) =
    let h = Room-above a size (c.address + c.size) cs w.3.3 r in
    let below : c.address < a = omega (arith, h, w.3.1) in
    let t : ltb c.address a ≡ true = ground arith in
    rw (addr_behind, t)
      (Takes-later lo a size p older (c ∷ cs) _ w
        (addr_behind-Takes a size (p.address + p.size) c (p ∷ older) cs w.3 z below (later r)))

addr_from-Takes :
    (lo a size : ℕ) (cs : List Chunk)
    → Ordered lo cs
    → 0 < size
    → Room a size cs
    → Takes lo a size [] cs (addr_from true a size cs)
unfolding addr_from
addr_from-Takes lo a size [] w z r = elim r [ ]
addr_from-Takes lo a size (c ∷ cs) w z (at_start e h) =
    let t : ltb c.address a ≡ false = ground (arith, e) in
    let u : (c.address == a) ≡ true = ground (arith, e) in
    rw (addr_from, t, u) (addr_at-Takes lo a size c [] cs w z e h)
addr_from-Takes lo a size (c ∷ cs) w z (behind_start h e) =
    let t : ltb c.address a ≡ true = ground arith in
    rw (addr_from, t) (addr_behind-Takes a size lo c [] cs w z h (behind_start h e))
addr_from-Takes lo a size (c ∷ cs) w z (later r) =
    let h = Room-above a size (c.address + c.size) cs w.3 r in
    let below : c.address < a = omega (arith, h, w.1) in
    let t : ltb c.address a ≡ true = ground arith in
    rw (addr_from, t) (addr_behind-Takes a size lo c [] cs w z below (later r))

-- Where a chunk of an ordered list has room for the rounded size at the page of the address, and
-- does not go as a whole, kmalloc_obj_addr returns the page's address, given memory for a node.
-- Afterwards just the addresses of that run, which were free, are no longer free, and the list is
-- in order. The rounded size is not 0.
pub kmalloc_obj_addr-Took :
    (lo address size : ℕ) (cs : List Chunk)
    → Ordered lo cs
    → 0 < page_round_up size
    → Room (page_round_down address) (page_round_up size) cs
    → (ds : List Chunk) × (kmalloc_obj_addr true address size cs
        ≡ done (some (page_round_down address), ds))
      × Took lo (page_round_up size) (page_round_down address) cs ds
unfolding kmalloc_obj_addr back_on
kmalloc_obj_addr-Took lo address size cs w z r =
    addr_from-Takes lo (page_round_down address) (page_round_up size) cs w z r
