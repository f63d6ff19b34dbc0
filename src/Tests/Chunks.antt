-- ===== src/Tests/Chunks.antt =====
-- Storage at a given address, in small free lists.
use mungi.Common.{ℕ, ◌≡◌, refl, true, false, some, List, [], ◌∷◌, arith}
use mungi.Common.Checked.{done}
use mungi.Mm.{Chunk}
use mungi.Mm.Order.{is_free, Ordered}
use mungi.Mm.Alloc.{Took}
use mungi.Mm.Addr.{kmalloc_obj_addr, kmalloc_obj_addr-handed, kmalloc_obj_addr-whole}
use mungi.Mm.Inside.{behind_start, later, kmalloc_obj_addr-Took}

abbrev chunk : ℕ → ℕ → Chunk
chunk address size = record { address = address; size = size }

abbrev three_chunks : List Chunk
three_chunks = chunk 4096 4096 ∷ chunk 16384 16384 ∷ chunk 65536 4096 ∷ []

three_chunks-Ordered : Ordered 0 three_chunks
three_chunks-Ordered = (
  omega arith,
  omega arith,
  omega arith,
  (omega arith, omega arith, omega arith, (omega arith, omega arith, omega arith, tt)),
)

kmalloc_obj_addr-Took_example :
    (ds : List Chunk) × (kmalloc_obj_addr true 20580 4000 three_chunks ≡ done (some 20480, ds))
    × Took 0 4096 20480 three_chunks ds
kmalloc_obj_addr-Took_example =
    kmalloc_obj_addr-Took 0 20580 4000 three_chunks three_chunks-Ordered (omega arith)
      (later (behind_start (omega arith) (omega arith)))

in_a_gap : is_free three_chunks 40960 ≡ false
unfolding is_free
in_a_gap = refl

kmalloc_obj_addr-handed_example :
    kmalloc_obj_addr true 40960 4096 three_chunks ≡ done (some 40960, three_chunks)
kmalloc_obj_addr-handed_example =
    kmalloc_obj_addr-handed true 0 40960 4096 (chunk 4096 4096)
      (chunk 16384 16384 ∷ chunk 65536 4096 ∷ []) three_chunks-Ordered (omega arith) (omega arith)
      (omega arith) in_a_gap

kmalloc_obj_addr-whole_example :
    kmalloc_obj_addr true 65536 4096 three_chunks ≡ done (some 65536, [])
kmalloc_obj_addr-whole_example =
    kmalloc_obj_addr-whole true 0 65536 4096 (chunk 4096 4096) (chunk 16384 16384)
      (chunk 65536 4096) [] three_chunks-Ordered refl refl
