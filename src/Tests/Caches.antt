-- ===== src/Tests/Caches.antt =====
-- Validation caches, the passwords of an object, and the free list.
use mungi.Common.{ℕ, ◌≤◌, ◌≡◌, refl, some, List, [], ◌∷◌, arith, here, there}
use mungi.Common.Int.{negsuc}
use mungi.Common.Checked.{done}
use mungi.Vcache.{
  CapRef, Slot, Vcache, Extent, vcache_check, vcache_add, hit_of, check_entry, check_slots,
}
use mungi.Vcache.Check.{Granted, vcache_check-hit}
use mungi.Vcache.Add.{vcache_check-add}
use mungi.Mm.{Chunk, kmalloc_obj}
use mungi.Mm.Order.{Ordered}
use mungi.Mm.Alloc.{Took, kmalloc_obj-Took, kmalloc_obj-serves}

abbrev pub ref : CapRef
ref = record { clist = 8192; index = 3 }

-- An entry for the bytes from 65536 up to 69632, readable and writable.
abbrev pub slot : Slot
slot = record {
  base = 65536;
  limit = 69632;
  timestamp = 1000;
  rights = 6;
  obj = 7;
  cap = ref;
  pdx_slot = negsuc 0;
}

-- An entry for the entry point at 65600.
abbrev point_slot : Slot
point_slot = record slot { base = 65600; limit = 65600; rights = 16 }

abbrev no_slot : Slot
no_slot = record slot { base = 0; limit = 0 }

abbrev pub cache : Vcache
cache = record { last = 0; slots = no_slot ∷ slot ∷ [] }

abbrev found : Vcache
found = record { last = 1; slots = no_slot ∷ slot ∷ [] }

vcache_check-hit_example :
    (s : Slot) × Granted (no_slot ∷ slot ∷ []) 1 s 65540 4 1030 × (hit_of slot ≡ hit_of s)
unfolding vcache_check check_entry check_slots
vcache_check-hit_example = vcache_check-hit cache found 65540 4 1030 (hit_of slot) refl

abbrev extent : Extent
extent = record { obj = 9; base = 131072; limit = 135168 }

vcache_check-add_example :
    (c' : Vcache) × (vcache_add cache extent 6 ref 131072 (negsuc 0) 1030 1031 ≡ done c')
    × (vcache_check c' 131080 2 1060
        ≡ done (c', some (record { obj = 9; cap = ref; pdx_slot = negsuc 0 })))
vcache_check-add_example =
    vcache_check-add cache extent 6 ref 131072 (negsuc 0) 1030 1031 131080 2 1060 (omega arith) refl
      refl refl refl (omega arith) (omega arith) (omega arith) (omega arith)

-- Free chunks of one page and of four.
abbrev small_chunk : Chunk
small_chunk = record { address = 4096; size = 4096 }

abbrev big_chunk : Chunk
big_chunk = record { address = 16384; size = 16384 }

abbrev chunks : List Chunk
chunks = small_chunk ∷ big_chunk ∷ []

chunks-Ordered : Ordered 4096 chunks
chunks-Ordered =
    (omega arith, omega arith, omega arith, (omega arith, omega arith, omega arith, tt))

kmalloc_obj-Took_example :
    (5000 ≤ 8192)
    × Took 4096 8192 16384 chunks (small_chunk ∷ record { address = 24576; size = 8192 } ∷ [])
unfolding kmalloc_obj
kmalloc_obj-Took_example =
    kmalloc_obj-Took 4096 5000 16384 chunks
      (small_chunk ∷ record { address = 24576; size = 8192 } ∷ []) chunks-Ordered (omega arith)
      (omega arith) refl

kmalloc_obj-serves_example : (r : ℕ × List Chunk) × (kmalloc_obj 5000 chunks ≡ done (some r))
kmalloc_obj-serves_example =
    kmalloc_obj-serves 5000 big_chunk chunks (refl, refl, (refl, refl, tt)) (there here)
      (omega arith) (omega arith)
