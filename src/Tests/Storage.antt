-- ===== src/Tests/Storage.antt =====
-- Runs of the object storage that are given back.
use mungi.Common.{◌≡◌, refl, true, false, List, [], ◌∷◌, some, arith}
use mungi.Common.Checked.{done}
use mungi.Mm.{Chunk, kmalloc_obj, kfree_obj, take_fit, page_round_up}
use mungi.Mm.Order.{is_free, Ordered}
use mungi.Mm.Alloc.{Aligned}
use mungi.Mm.Touch.{Run, Apart, Gave}
use mungi.Mm.Free.{kfree_obj-Gave}
use mungi.Mm.Gap.{kfree_obj-dangling}
use mungi.Mm.Reuse.{kfree_obj-kmalloc_obj}

-- Free pages in front of the pages from 8192 to 16384, and behind them, with pages in use between.
abbrev around : List Chunk
around = record { address = 4096; size = 4096 } ∷ record { address = 20480; size = 4096 } ∷ []

around-Ordered : Ordered 4096 around
around-Ordered =
    (omega arith, omega arith, omega arith, (omega arith, omega arith, omega arith, tt))

gap-Apart : Apart 8192 8192 around
unfolding is_free
gap-Apart x = ground arith

gap-Run : Run 4096 8192 8192
gap-Run = record { above = omega arith; some_bytes = omega arith; below = omega arith; page = refl }

kfree_obj-Gave_example :
    (ds : List Chunk) × (kfree_obj true 8192 8192 around
      ≡ done (record { success = true; lock_released = true; dangling = false; chunks = ds }))
    × Gave 4096 8192 8192 around ds
unfolding is_free
kfree_obj-Gave_example =
    kfree_obj-Gave 4096 8192 8192 around gap-Run refl around-Ordered gap-Apart refl

-- The pages in use between the free ones of a list, all given back at once.
abbrev split : List Chunk
split = record { address = 4096; size = 4096 } ∷ record { address = 16384; size = 4096 } ∷ []

split-Apart : Apart 8192 8192 split
unfolding is_free
split-Apart x = ground arith

kfree_obj-dangling_example :
    (ds : List Chunk) × (kfree_obj true 8192 8192 split
      ≡ done (record { success = true; lock_released = true; dangling = true; chunks = ds }))
unfolding is_free
kfree_obj-dangling_example =
    kfree_obj-dangling 4096 8192 8192 split gap-Run refl
      (omega arith, omega arith, omega arith, (omega arith, omega arith, omega arith, tt))
      split-Apart refl

abbrev pages : List Chunk
pages = record { address = 8192; size = 12288 } ∷ []

taken_pages :
    kmalloc_obj 5000 pages ≡ done (some (8192, record { address = 16384; size = 4096 } ∷ []))
unfolding kmalloc_obj take_fit
taken_pages = refl

pages-Ordered : Ordered 0 pages
pages-Ordered = (omega arith, omega arith, omega arith, tt)

pages-Aligned : Aligned pages
pages-Aligned = (refl, refl, tt)

kfree_obj-kmalloc_obj_example :
    (ds : List Chunk) × (kfree_obj true 8192
        (page_round_up 5000)
        (record { address = 16384; size = 4096 } ∷ [])
      ≡ done (record { success = true; lock_released = true; dangling = false; chunks = ds }))
    × (is_free ds ≡ is_free pages)
    × Ordered 0 ds
unfolding is_free
kfree_obj-kmalloc_obj_example =
    kfree_obj-kmalloc_obj 0 5000 8192 pages (record { address = 16384; size = 4096 } ∷ [])
      pages-Ordered pages-Aligned (omega arith) (omega arith) taken_pages refl
