-- ===== src/Btree/Pool.antt =====
-- The pool that the pages of kernel/lib/klibc/btree.c come from. The words of its bitmap are the bits of
-- its pages, 32 a word; there are `bitmap_words` of them, however large the pool is.
pub mod Bits
pub mod Pages
use mungi.Common.{
  ℕ, zero, suc, ◌+◌, ◌-◌, ◌*◌, ◌/◌, ◌%◌, ◌^◌, Bool, true, false, not, ◌&&◌, Option, none, some,
  ◌==◌, leb, ltb, if◌then◌else◌,
}
use mungi.Common.Arrays.{Array, update}
use mungi.Common.Checked.{Checked, done, panic}

-- `PagePool`.
pub record PagePool : Type 0 where
  pub base : ℕ
  pub size : ℕ
  pub n_allocs : ℕ
  pub n_frees : ℕ
  pub bitmap : Array Bool

-- `MAX_POOL_SIZE/(8*sizeof(int))`, for 1000 pages.
abbrev pub bitmap_words : ℕ
bitmap_words = 31

-- `== ~0`, on so many bits.
unfoldable pub all_set : ℕ → Array Bool → ℕ → Bool
all_set zero bitmap i = true
all_set (suc n) bitmap i = bitmap i && all_set n bitmap (i + 1)

-- The first word that is not full, or the end of the pool or of the bitmap, with fuel for its words.
unfoldable pub first_word : ℕ → PagePool → ℕ → ℕ
first_word zero pool w = w
first_word (suc fuel) pool w =
    let rest = first_word fuel pool (w + 1) in
    if ltb (w * 32) pool.size && ltb w bitmap_words && all_set 32 pool.bitmap (w * 32)
    then rest
    else w

-- The first bit that is clear, with fuel for a word's bits.
unfoldable pub first_clear : ℕ → Array Bool → ℕ → ℕ
first_clear zero bitmap i = i
first_clear (suc fuel) bitmap i =
    let rest = first_clear fuel bitmap (i + 1) in if bitmap i then rest else i

-- `alloc_page`: the page's address, and the pool. `panic` where it reads behind the bitmap.
unfoldable pub alloc_page : PagePool → Checked (Option (ℕ × PagePool))
alloc_page pool =
    let w = first_word pool.size pool 0 in
    let b = first_clear 32 pool.bitmap (w * 32) in
    if leb pool.size (w * 32)
    then done none
    else if leb bitmap_words w
    then panic
    else done (
        some (
          pool.base + 4096 * b,
          record pool {
            bitmap = update pool.bitmap b true;
            n_allocs = (pool.n_allocs + 1) % 2 ^ 32;
          },
        ))

-- The bit that `free_page` takes for the page's: `1 << (b % 8*sizeof(int))` in the word of the page.
unfoldable pub freed_bit : PagePool → ℕ → ℕ
freed_bit pool p = let b = (p - pool.base) / 4096 in b / 32 * 32 + b % 8 * 4

-- `free_page`: `panic` where the bit is clear, and where it reads behind the bitmap.
unfoldable pub free_page : PagePool → ℕ → Checked PagePool
free_page pool p =
    let b = freed_bit pool p in
    if ltb (b / 32) bitmap_words && pool.bitmap b
    then done
        (record pool { bitmap = update pool.bitmap b false; n_frees = (pool.n_frees + 1) % 2 ^ 32 })
    else panic
