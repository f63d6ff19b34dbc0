-- ===== src/Mm/Gap.antt =====
-- `kfree_obj` of kernel/src/mm.c where the run fills the gap between two chunks.
use mungi.Common.{
  ℕ, ◌+◌, ◌-◌, ◌≤◌, ◌≡◌, true, false, List, [], ◌∷◌, arith, ltb, ◌==◌, Bool-cases, inl, inr,
}
use mungi.Common.Checked.{Checked, done}
use mungi.Mm.{
  Chunk, Placed, dangling_in, add64, page_round_up, put_behind, insert_chunk, place_rounded,
  kfree_obj,
}
use mungi.Mm.Order.{is_free, is_free-below, Ordered}
use mungi.Mm.Touch.{
  Apart, Run, Run-above, Apart-tail, ends_before, starts_behind, add64_small, fills,
}

abbrev Dangles : Checked Placed → Type 0
Dangles r = (ds : List Chunk) × (r ≡ done (dangling_in ds))

from_first :
    {lo : ℕ} (c : Chunk) (cs : List Chunk) → Ordered lo (c ∷ cs) → Ordered c.address (c ∷ cs)
from_first c cs w = (omega arith, w.1, w.2, w.3)

-- The run ends in front of the chunk `c`, and starts behind `b` or later.
put_behind-Dangles :
    (lo a size : ℕ) (b c : Chunk) (cs : List Chunk)
    → Run lo a size
    → Ordered lo (b ∷ c ∷ cs)
    → b.address + b.size ≤ a
    → a + size ≤ c.address
    → fills a size (b ∷ c ∷ cs) ≡ true
    → Dangles (put_behind true a size b (c ∷ cs))
unfolding put_behind is_free
put_behind-Dangles lo a size b c cs r w before after full =
    let o = from_first c cs w.3 in
    let touch : (b.address + b.size == a) ≡ true =
      ground (arith, full, r.some_bytes, is_free-below c.address (a - 1) (c ∷ cs) o) in
    let meet : (c.address == a + size) ≡ true =
      ground (arith, full, is_free-below c.address (a + size) (c ∷ cs) o) in
    (
      record b { size = add64 (add64 b.size size) c.size } ∷ c ∷ cs,
      rw (put_behind, add64_small b.address b.size w.2, touch, add64_small a size r.below, meet),
    )

insert_chunk-Dangles :
    (lo a size : ℕ) (b : Chunk) (cs : List Chunk)
    → Run lo a size
    → Ordered lo (b ∷ cs)
    → Apart a size (b ∷ cs)
    → b.address ≤ a
    → fills a size (b ∷ cs) ≡ true
    → Dangles (insert_chunk true a size b cs)
unfolding insert_chunk is_free
insert_chunk-Dangles lo a size b [] r w d l full =
    absurd (ground (arith, full, r.some_bytes, starts_behind a size b [] r.some_bytes d l))
insert_chunk-Dangles lo a size b (c ∷ cs) r w d l full =
    let past = starts_behind a size b (c ∷ cs) r.some_bytes d l in
    let apart = Apart-tail a size b (c ∷ cs) d in
    elim (Bool-cases (ltb c.address a)) [
      | inl below ↦
          let later : fills a size (c ∷ cs) ≡ true = ground (arith, full, below, past, w.3.0) in
          let (ds, z) =
            insert_chunk-Dangles (b.address + b.size) a size c cs (Run-above r past) w.3 apart
              (ground arith) later in
          (b ∷ ds, rw (insert_chunk, below, z))
      | inr not_below ↦
          let (ds, z) =
            put_behind-Dangles lo a size b c cs r w past
              (ends_before a size c cs w.3.1 apart (ground arith)) full in
          (ds, rw (insert_chunk, not_below, z))
    ]

place_rounded-Dangles :
    (lo a size : ℕ) (c : Chunk) (cs : List Chunk)
    → Run lo a size
    → Ordered lo (c ∷ cs)
    → Apart a size (c ∷ cs)
    → fills a size (c ∷ cs) ≡ true
    → Dangles (place_rounded true a size c cs)
unfolding place_rounded is_free
place_rounded-Dangles lo a size c cs r w d full = elim (Bool-cases (ltb c.address a)) [
  | inl below ↦
      let (ds, z) = insert_chunk-Dangles lo a size c cs r w d (ground arith) full in
      (ds, rw (below, z))
  | inr not_below ↦
      let after = ends_before a size c cs w.1 d (ground arith) in
      absurd (
        ground (
          arith,
          full,
          r.some_bytes,
          after,
          is_free-below c.address (a - 1) (c ∷ cs) (from_first c cs w),
        ))
]

-- Where a run of whole pages, none of which is free, is given back to an ordered list of free
-- chunks, and the addresses next to it on both sides are free, kfree_obj succeeds, but a node that
-- it has given to kfree stays linked in the list.
pub kfree_obj-dangling :
    (lo a size : ℕ) (cs : List Chunk)
    → Run lo a size
    → page_round_up size ≡ size
    → Ordered lo cs
    → Apart a size cs
    → fills a size cs ≡ true
    → (ds : List Chunk) × (kfree_obj true a size cs
        ≡ done (record { success = true; lock_released = true; dangling = true; chunks = ds }))
unfolding kfree_obj is_free
kfree_obj-dangling lo a size [] r pages w d full = absurd (ground (arith, full))
kfree_obj-dangling lo a size (c ∷ cs) r pages w d full =
    let (ds, z) = place_rounded-Dangles lo a size c cs r w d full in
    let some_size : (size == 0) ≡ false = ground (arith, r.some_bytes) in
    (ds, rw (some_size, pages, z))
