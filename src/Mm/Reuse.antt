-- ===== src/Mm/Reuse.antt =====
-- `kmalloc_obj` and then `kfree_obj` of kernel/src/mm.c.
use mungi.Common.{
  ℕ, ◌+◌, ◌-◌, ◌<◌, ◌^◌, ◌≡◌, true, some, List, [], ◌∷◌, arith, false, leb, ◌==◌, Bool-cases, inl,
  inr,
}
use mathlib.Core.Path.{fun_ext}
use mungi.Common.Checked.{done}
use mungi.Mm.{aligned, Chunk, page_round_up, take_fit, kmalloc_obj, kfree_obj}
use mungi.Mm.Order.{is_free, Ordered}
use mungi.Mm.Alloc.{Aligned, Took, kmalloc_obj-Took, rest_of}
use mungi.Mm.Touch.{fills, Run, Apart, Gave}
use mungi.Mm.Free.{kfree_obj-Gave}

free-below : (lo x : ℕ) (cs : List Chunk) → Ordered lo cs → is_free cs x ≡ true → x + 1 < 2 ^ 64
unfolding is_free
free-below lo x [] w h = ground arith
free-below lo x (c ∷ cs) w h = elim (Bool-cases (is_free cs x)) [
  | inl later ↦ free-below (c.address + c.size) x cs w.3 later
  | inr first ↦ ground (arith, w.2)
]

take_fit-aligned :
    (size a : ℕ) (cs cs' : List Chunk)
    → Aligned cs
    → take_fit size cs ≡ done (some (a, cs'))
    → aligned a ≡ true
unfolding take_fit
take_fit-aligned size a [] cs' w e = ground arith
take_fit-aligned size a (c ∷ cs) cs' w e = elim (Bool-cases (leb size c.size)) [
  | inl fits ↦ ground (arith, w.0)
  | inr small ↦
      let (ds, z, same) = rest_of size a c cs cs' small e in take_fit-aligned size a cs ds w.2 z
]

kmalloc_obj-aligned :
    (size a : ℕ) (cs cs' : List Chunk)
    → Aligned cs
    → kmalloc_obj size cs ≡ done (some (a, cs'))
    → aligned a ≡ true
unfolding kmalloc_obj
kmalloc_obj-aligned size a [] cs' w e = ground arith
kmalloc_obj-aligned size a (c ∷ cs) cs' w e = elim (Bool-cases (size == 0)) [
  | inl nothing ↦ ground arith
  | inr some_size ↦
      take_fit-aligned (page_round_up size) a (c ∷ cs) cs' w (rw (kmalloc_obj, some_size) at e)
]

-- What kmalloc_obj takes is a run that kfree_obj can be given.
Took-Run :
    (lo size a : ℕ) (cs cs' : List Chunk)
    → Ordered lo cs
    → 0 < size
    → aligned a ≡ true
    → Took lo size a cs cs'
    → Run lo a size
Took-Run lo size a cs cs' w h p t = record {
  above = t.above;
  some_bytes = h;
  below =
      let end : a + size - 1 + 1 < 2 ^ 64 =
        free-below lo (a + size - 1) cs w (t.was_free (a + size - 1) (ground arith)) in
      omega (arith, h);
  page = p;
}

Took-Apart : (lo size a : ℕ) (cs cs' : List Chunk) → Took lo size a cs cs' → Apart a size cs'
Took-Apart lo size a cs cs' t x = ground (arith, t.left x)

page_round_up_twice :
    (size : ℕ) → size + 4095 < 2 ^ 64 → page_round_up (page_round_up size) ≡ page_round_up size
page_round_up_twice size h = omega arith

same_free :
    (lo size a : ℕ) (cs cs' ds : List Chunk)
    → Took lo size a cs cs'
    → Gave lo a size cs' ds
    → is_free ds ≡ is_free cs
same_free lo size a cs cs' ds t g = fun_ext λ x. ground (arith, g.free x, t.left x, t.was_free x)

-- What kmalloc_obj has taken for a size that is not 0 and whose round-up fits in 64 bits,
-- kfree_obj puts back: given the address and the rounded size, and memory for a node, it succeeds,
-- and the same addresses are free as before the allocation, in an ordered list again. The chunks
-- are in order and aligned to pages at the start. After the allocation the addresses next to the
-- run are not free on both sides.
pub kfree_obj-kmalloc_obj :
    (lo size a : ℕ) (cs cs' : List Chunk)
    → Ordered lo cs
    → Aligned cs
    → 0 < size
    → size + 4095 < 2 ^ 64
    → kmalloc_obj size cs ≡ done (some (a, cs'))
    → fills a (page_round_up size) cs' ≡ false
    → (ds : List Chunk) × (kfree_obj true a (page_round_up size) cs'
        ≡ done (record { success = true; lock_released = true; dangling = false; chunks = ds }))
      × (is_free ds ≡ is_free cs)
      × Ordered lo ds
kfree_obj-kmalloc_obj lo size a cs cs' w al h b e one =
    let (l, t) = kmalloc_obj-Took lo size a cs cs' w h b e in
    let run =
      Took-Run lo (page_round_up size) a cs cs' w (omega (arith, l, h))
        (kmalloc_obj-aligned size a cs cs' al e) t in
    let (ds, z, g) =
      kfree_obj-Gave lo a (page_round_up size) cs' run (page_round_up_twice size b) t.ordered
        (Took-Apart lo (page_round_up size) a cs cs' t) one in
    (ds, z, same_free lo (page_round_up size) a cs cs' ds t g, g.ordered)
