-- ===== src/Mm/Alloc.antt =====
-- `kmalloc_obj` of kernel/src/mm.c.
use mungi.Common.{
  ℕ, ◌+◌, ◌-◌, ◌≤◌, ◌<◌, ◌^◌, ◌≡◌, refl, true, false, not, ◌&&◌, Option, none, some, List, [], ◌∷◌,
  arith, leb, ◌==◌, Bool-cases, inl, inr, Elem, here, there,
}
use mathlib.Core.Path.{subst}
use mathlib.Core.Option.{some-injective}
use mungi.Common.Checked.{Checked, done, panic}
use mungi.Mm.{aligned, taken, Chunk, add64, page_round_up, take_fit, kmalloc_obj}
use mungi.Mm.Order.{in_run, is_free, Ordered, is_free-below, Ordered-mono}

pub done-injective : {A : Type 0} {a b : A} → done a ≡ done b → a ≡ b
done-injective e = ground arith

-- What a walk past a small chunk returns.
pub rest_of :
    (size a : ℕ) (c : Chunk) (cs cs' : List Chunk)
    → leb size c.size ≡ false
    → take_fit size (c ∷ cs) ≡ done (some (a, cs'))
    → (ds : List Chunk) × (take_fit size cs ≡ done (some (a, ds))) × ((c ∷ ds) ≡ cs')
unfolding take_fit
rest_of size a c cs cs' small e = go (take_fit size cs) refl
  where
    go :
        (x : Checked (Option (ℕ × List Chunk)))
        → take_fit size cs ≡ x
        → (ds : List Chunk) × (take_fit size cs ≡ done (some (a, ds))) × ((c ∷ ds) ≡ cs')
    go panic z = ground (arith, z)
    go (done none) z = ground (arith, z)
    go (done (some (b, ds))) z = (ds, ground (arith, z), ground (arith, z))

-- The run of `size` bytes at `a` was free in `cs`, and `cs'` is what is left of it.
pub record Took (lo size a : ℕ) (cs cs' : List Chunk) : Type 0 where
  pub above : lo ≤ a
  pub was_free : (x : ℕ) → in_run a size x ≡ true → is_free cs x ≡ true
  pub left : (x : ℕ) → is_free cs' x ≡ (is_free cs x && not (in_run a size x))
  pub ordered : Ordered lo cs'

Took-all :
    (lo : ℕ) (c : Chunk) (cs : List Chunk)
    → Ordered lo (c ∷ cs)
    → Took lo c.size c.address (c ∷ cs) cs
unfolding is_free
Took-all lo c cs w = record {
  above = w.0;
  was_free = λ x i. ground arith;
  left = λ x. ground (arith, is_free-below (c.address + c.size) x cs w.3);
  ordered = Ordered-mono lo (c.address + c.size) cs (omega arith) w.3;
}

pub Took-front :
    (lo size : ℕ) (c : Chunk) (cs : List Chunk)
    → Ordered lo (c ∷ cs)
    → 0 < size
    → size < c.size
    → Took lo size c.address
        (c ∷ cs)
        (record { address = c.address + size; size = c.size - size } ∷ cs)
unfolding is_free
Took-front lo size c cs w h more = record {
  above = w.0;
  was_free = λ x i. ground arith;
  left = λ x. ground (arith, is_free-below (c.address + c.size) x cs w.3);
  ordered = (
    omega (arith, w.0),
    omega arith,
    omega (arith, w.2),
    Ordered-mono _ (c.address + c.size) cs (omega arith) w.3,
  );
}

pub Took-later :
    (lo size a : ℕ) (c : Chunk) (cs ds : List Chunk)
    → Ordered lo (c ∷ cs)
    → Took (c.address + c.size) size a cs ds
    → Took lo size a (c ∷ cs) (c ∷ ds)
unfolding is_free
Took-later lo size a c cs ds w t = record {
  above = omega (arith, w.0, t.above);
  was_free = λ x i. ground (arith, t.was_free x i);
  left = λ x. ground (arith, t.left x, t.above);
  ordered = (w.0, w.1, w.2, t.ordered);
}

Took-same :
    (lo size : ℕ) (cs : List Chunk) (r s : ℕ × List Chunk)
    → Took lo size r.0 cs r.1
    → some r ≡ some s
    → Took lo size s.0 cs s.1
Took-same lo size cs r s t e = subst (λ r. Took lo size r.0 cs r.1) (some-injective r s e) t

add64_lem :
    (c : Chunk) (size : ℕ)
    → size < c.size
    → c.address + c.size < 2 ^ 64
    → add64 c.address size ≡ c.address + size
add64_lem c size h b = omega arith

take_fit-Took :
    (lo size a : ℕ) (cs cs' : List Chunk)
    → Ordered lo cs
    → 0 < size
    → take_fit size cs ≡ done (some (a, cs'))
    → Took lo size a cs cs'
unfolding take_fit
take_fit-Took lo size a [] cs' w h e = ground arith
take_fit-Took lo size a (c ∷ cs) cs' w h e = elim (Bool-cases (leb size c.size)) [
  | inl fits ↦ elim (Bool-cases (c.size == size)) [
    | inl exact ↦
        Took-same lo size (c ∷ cs) (c.address, cs) (a, cs')
          (subst (λ n. Took lo n c.address (c ∷ cs) cs) (ground arith) (Took-all lo c cs w))
          (done-injective (rw (take_fit, fits, exact) at e))
    | inr more ↦
        Took-same lo size (c ∷ cs) _ (a, cs') (Took-front lo size c cs w h (ground arith))
          (done-injective (rw (take_fit, fits, more, add64_lem c size (ground arith) w.2) at e))
  ]
  | inr small ↦
      let (ds, z, same) = rest_of size a c cs cs' small e in
      subst (λ x. Took lo size a (c ∷ cs) x) same
        (Took-later lo size a c cs ds w (take_fit-Took (c.address + c.size) size a cs ds w.3 h z))
]

-- What kmalloc_obj returns for a size that is not 0 and whose round-up fits in 64 bits is a run of
-- that many bytes, rounded up to pages, that was free as a whole; afterwards just these addresses
-- are no longer free, and the list is in order as before.
pub kmalloc_obj-Took :
    (lo size a : ℕ) (cs cs' : List Chunk)
    → Ordered lo cs
    → 0 < size
    → size + 4095 < 2 ^ 64
    → kmalloc_obj size cs ≡ done (some (a, cs'))
    → (size ≤ page_round_up size) × Took lo (page_round_up size) a cs cs'
unfolding kmalloc_obj
kmalloc_obj-Took lo size a [] cs' w h b e = ground arith
kmalloc_obj-Took lo size a (c ∷ cs) cs' w h b e = (
  omega arith,
  take_fit-Took lo (page_round_up size) a (c ∷ cs) cs' w (omega arith) (ground (arith, e)),
)

-- Every chunk starts and ends at a page's boundary.
abbrev pub Aligned : List Chunk → Type 0
Aligned [] = Unit {0}
Aligned (c ∷ cs) = (aligned c.address ≡ true) × (aligned c.size ≡ true) × Aligned cs

take_fit-serves :
    (size : ℕ) (c : Chunk) (cs : List Chunk)
    → Aligned cs
    → Elem c cs
    → size ≤ c.size
    → (r : ℕ × List Chunk) × (take_fit size cs ≡ done (some r))
unfolding take_fit
take_fit-serves size c [] w i h = elim i [ ]
take_fit-serves size c (_ ∷ cs) w here h =
    let fits : leb size c.size ≡ true = ground arith in (taken size c cs, rw (take_fit, fits))
take_fit-serves size c (d ∷ cs) w (there i) h = elim (Bool-cases (leb size d.size)) [
  | inl fits ↦ (taken size d cs, rw (take_fit, fits))
  | inr small ↦
      let ((a, ds), e) = take_fit-serves size c cs w.2 i h in
      ((a, d ∷ ds), rw (take_fit, small, w.0, w.1, e))
]

-- Where the free chunks are aligned to pages, a kmalloc_obj that is not for 0 bytes succeeds if
-- some chunk has room for it, rounded up to pages.
pub kmalloc_obj-serves :
    (size : ℕ) (c : Chunk) (cs : List Chunk)
    → Aligned cs
    → Elem c cs
    → 0 < size
    → page_round_up size ≤ c.size
    → (r : ℕ × List Chunk) × (kmalloc_obj size cs ≡ done (some r))
unfolding kmalloc_obj
kmalloc_obj-serves size c [] w i h b = elim i [ ]
kmalloc_obj-serves size c (d ∷ cs) w i h b =
    let (r, e) = take_fit-serves (page_round_up size) c (d ∷ cs) w i b in
    let some_size : (size == 0) ≡ false = ground arith in (r, rw (some_size, e))

-- A request to kmalloc_obj for at least 2^64 - 4095 bytes is rounded up to 0; it is then granted
-- at the first chunk, whatever its size above 0, and the free list stays as it was.
kmalloc_obj-wraps :
    (size : ℕ) (c : Chunk) (cs : List Chunk)
    → 2 ^ 64 ≤ size + 4095
    → size < 2 ^ 64
    → 0 < c.size
    → c.address < 2 ^ 64
    → kmalloc_obj size (c ∷ cs) ≡ done (some (c.address, c ∷ cs))
unfolding kmalloc_obj take_fit
kmalloc_obj-wraps size c cs h b p q =
    let z : page_round_up size ≡ 0 = omega arith in ground (arith, z)
