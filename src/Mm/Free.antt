-- ===== src/Mm/Free.antt =====
-- `kfree_obj` of kernel/src/mm.c.
use mungi.Common.{
  ℕ, ◌+◌, ◌≤◌, ◌≡◌, refl, true, false, List, [], ◌∷◌, arith, ltb, ◌==◌, Bool-cases, inl, inr,
}
use mungi.Common.Checked.{done}
use mungi.Mm.{Chunk, page_round_up, put_behind, insert_chunk, place_rounded, kfree_obj}
use mungi.Mm.Order.{Ordered}
use mungi.Mm.Touch.{
  Apart, Gave, Run, Run-above, Apart-tail, Gave-later, Gives, ends_before, starts_behind,
  add64_small, new-Gave, put_front-Gives, coalesce-Gives, fills, fills-tail,
}

put_behind-Gives :
    (lo a size : ℕ) (b : Chunk) (cs : List Chunk)
    → Run lo a size
    → Ordered lo (b ∷ cs)
    → b.address + b.size ≤ a
    → Ordered (a + size) cs
    → fills a size (b ∷ cs) ≡ false
    → Gives lo a size (b ∷ cs) (put_behind true a size b cs)
unfolding put_behind
put_behind-Gives lo a size b cs r w l o one =
    let e = add64_small b.address b.size w.2 in
    elim (Bool-cases (b.address + b.size == a)) [
      | inl touch ↦
          let (ds, z, g) = coalesce-Gives lo a size b cs r w (ground arith) o one in
          (ds, rw (put_behind, e, touch, z), g)
      | inr apart ↦
          let (ds, z, g) = put_front-Gives (b.address + b.size) a size cs (Run-above r l) o in
          (b ∷ ds, rw (put_behind, e, apart, z), Gave-later lo a size b cs ds w g)
    ]

insert_chunk-Gives :
    (lo a size : ℕ) (b : Chunk) (cs : List Chunk)
    → Run lo a size
    → Ordered lo (b ∷ cs)
    → Apart a size (b ∷ cs)
    → b.address ≤ a
    → fills a size (b ∷ cs) ≡ false
    → Gives lo a size (b ∷ cs) (insert_chunk true a size b cs)
unfolding insert_chunk
insert_chunk-Gives lo a size b [] r w d l one =
    put_behind-Gives lo a size b [] r w (starts_behind a size b [] r.some_bytes d l) tt one
insert_chunk-Gives lo a size b (c ∷ cs) r w d l one =
    let past = starts_behind a size b (c ∷ cs) r.some_bytes d l in
    let apart = Apart-tail a size b (c ∷ cs) d in
    elim (Bool-cases (ltb c.address a)) [
      | inl below ↦
          let (ds, z, g) =
            insert_chunk-Gives (b.address + b.size) a size c cs (Run-above r past) w.3 apart
              (ground arith) (fills-tail a size b (c ∷ cs) one) in
          (b ∷ ds, rw (insert_chunk, below, z), Gave-later lo a size b (c ∷ cs) ds w g)
      | inr not_below ↦
          let o : Ordered (a + size) (c ∷ cs) =
            (ends_before a size c cs w.3.1 apart (ground arith), w.3.1, w.3.2, w.3.3) in
          let (ds, z, g) = put_behind-Gives lo a size b (c ∷ cs) r w past o one in
          (ds, rw (insert_chunk, not_below, z), g)
    ]

place_rounded-Gives :
    (lo a size : ℕ) (c : Chunk) (cs : List Chunk)
    → Run lo a size
    → Ordered lo (c ∷ cs)
    → Apart a size (c ∷ cs)
    → fills a size (c ∷ cs) ≡ false
    → Gives lo a size (c ∷ cs) (place_rounded true a size c cs)
unfolding place_rounded
place_rounded-Gives lo a size c cs r w d one = elim (Bool-cases (ltb c.address a)) [
  | inl below ↦
      let (ds, z, g) = insert_chunk-Gives lo a size c cs r w d (ground arith) one in
      (ds, rw (below, z), g)
  | inr not_below ↦
      let o : Ordered (a + size) (c ∷ cs) =
        (ends_before a size c cs w.1 d (ground arith), w.1, w.2, w.3) in
      let (ds, z, g) = put_front-Gives lo a size (c ∷ cs) r o in
      let untouched : (c.address + c.size == a) ≡ false = ground (arith, w.1) in
      (ds, rw (not_below, add64_small c.address c.size w.2, untouched, z), g)
]

-- Given back to an ordered list of free chunks, a run of whole pages none of whose addresses is
-- free, and next to which the addresses are not free on both sides, is free afterwards, next to
-- what was free before and nothing else, and the list is in order again, with no freed node in it,
-- provided that there is memory for a node: kfree_obj succeeds and passes no failing assert.
pub kfree_obj-Gave :
    (lo a size : ℕ) (cs : List Chunk)
    → Run lo a size
    → page_round_up size ≡ size
    → Ordered lo cs
    → Apart a size cs
    → fills a size cs ≡ false
    → (ds : List Chunk) × (kfree_obj true a size cs
        ≡ done (record { success = true; lock_released = true; dangling = false; chunks = ds }))
      × Gave lo a size cs ds
unfolding kfree_obj
kfree_obj-Gave lo a size [] r pages w d one =
    (record { address = a; size = size } ∷ [], refl, new-Gave lo a size r)
kfree_obj-Gave lo a size (c ∷ cs) r pages w d one =
    let (ds, z, g) = place_rounded-Gives lo a size c cs r w d one in
    let some_size : (size == 0) ≡ false = ground (arith, r.some_bytes) in
    (ds, rw (some_size, pages, z), g)
