-- ===== src/Tests/Pool.antt =====
-- A pool of 64 pages, the first nine of them in use.
use mungi.Common.{◌+◌, ◌*◌, ◌≡◌, refl, false, ltb}
use mungi.Common.Arrays.{update}
use mungi.Common.Checked.{done}
use mungi.Btree.Pool.{PagePool, alloc_page, free_page, freed_bit}
use mungi.Btree.Pool.Pages.{Allocated, alloc_page-Allocated}

abbrev nine_used : PagePool
nine_used = record { base = 1048576; size = 64; n_allocs = 9; n_frees = 0; bitmap = λ i. ltb i 9 }

alloc_page-Allocated_example : Allocated nine_used (alloc_page nine_used)
alloc_page-Allocated_example = alloc_page-Allocated nine_used

abbrev first_freed : PagePool
first_freed = record nine_used { bitmap = update (λ i. ltb i 9) 0 false; n_frees = 1 }

free_ninth : free_page nine_used (1048576 + 4096 * 8) ≡ done first_freed
unfolding free_page freed_bit
free_ninth = refl

abbrev whole_pool : PagePool
whole_pool = record {
  base = 1048576;
  size = 1000;
  n_allocs = 992;
  n_frees = 0;
  bitmap = λ i. ltb i 992;
}

-- With 992 pages in use, the pool of 1000 pages has none left in its bitmap.
whole_pool-behind : Allocated whole_pool (alloc_page whole_pool)
whole_pool-behind = alloc_page-Allocated whole_pool
