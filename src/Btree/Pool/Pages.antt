-- ===== src/Btree/Pool/Pages.antt =====
-- `alloc_page` and `free_page` of kernel/lib/klibc/btree.c.
use mungi.Common.{
  ℕ, ◌&&◌, ◌+◌, ◌-◌, ◌*◌, ◌/◌, ◌%◌, ◌^◌, ◌<◌, ◌≡◌, ◌≢◌, refl, true, false, Option, none, some,
  arith, ◌==◌, leb, ltb, Bool-cases, inl, inr,
}
use mungi.Common.Arrays.{update}
use mungi.Common.Checked.{Checked, done, panic}
use mungi.Btree.Pool.{PagePool, bitmap_words, all_set, first_word, alloc_page, freed_bit, free_page}
use mungi.Btree.Pool.Bits.{Word, first_word-Word, first_clear-clear}

-- What `alloc_page` may do: nothing if every page of the pool is in use, or else mark the lowest page
-- that is not in use and hand it out. That page's word starts in the pool, and is in the bitmap. In a
-- pool that is larger than its bitmap, with all bits set, it reads behind the bitmap.
pub data Allocated (pool : PagePool) : Checked (Option (ℕ × PagePool)) → Type 0 where
  none_left : ((j : ℕ) → j < pool.size → pool.bitmap j ≡ true) → Allocated pool (done none)
  lowest :
      (b : ℕ)
      → pool.bitmap b ≡ false
      → ((j : ℕ) → j < b → pool.bitmap j ≡ true)
      → b / 32 * 32 < pool.size
      → b < bitmap_words * 32
      → Allocated pool (
          done (
            some (
              pool.base + 4096 * b,
              record pool {
                bitmap = update pool.bitmap b true;
                n_allocs = (pool.n_allocs + 1) % 2 ^ 32;
              },
            )))
  behind :
      ((j : ℕ) → j < bitmap_words * 32 → pool.bitmap j ≡ true)
      → bitmap_words * 32 < pool.size
      → Allocated pool panic

-- alloc_page ends: it hands out the lowest page whose bit in the bitmap of 31 words is clear,
-- marks it and no other, and counts the allocation (that page's word starts inside the pool); it
-- hands out none only if every page of the pool is in use; and it reads behind the bitmap only if
-- all its bits are set and the pool has more pages than that.
pub alloc_page-Allocated : (pool : PagePool) → Allocated pool (alloc_page pool)
unfolding alloc_page
alloc_page-Allocated pool =
    let w = first_word pool.size pool 0 in
    let word : Word pool w =
      first_word-Word pool.size pool 0 (λ j l. absurd (omega (arith, l))) (omega arith) in
    elim (Bool-cases (leb pool.size (w * 32))) [
      | inl over ↦ rw (alloc_page, over) (none_left λ j l. word.used j (ground (arith, over, l)))
      | inr inside ↦ elim (Bool-cases (leb bitmap_words w)) [
        | inl no_word ↦
            rw (alloc_page, inside, no_word)
              (behind (λ j l. word.used j (ground (arith, no_word, l)))
                (ground (arith, inside, no_word)))
        | inr in_bitmap ↦
            let some_clear : all_set 32 pool.bitmap (w * 32) ≡ false =
              ground (arith, word.ends, inside, in_bitmap) in
            let (b, e, l, m, clear, used) = first_clear-clear 32 pool.bitmap (w * 32) some_clear in
            rw (alloc_page, inside, in_bitmap, e)
              (lowest b clear
                (λ j h. elim (Bool-cases (ltb j (w * 32))) [
                  | inl before ↦ word.used j (ground arith)
                  | inr here ↦ used j (ground arith) h
                ])
                (ground (arith, inside, l, m)) (ground (arith, in_bitmap, m)))
      ]
    ]

other_bit : (b : ℕ) → b % 32 ≢ 0 → b / 32 * 32 + b % 8 * 4 ≢ b
other_bit b h e = h (omega (arith, e))

page_number :
    (pool : PagePool) (b : ℕ) → freed_bit pool (pool.base + 4096 * b) ≡ b / 32 * 32 + b % 8 * 4
unfolding freed_bit
page_number pool b = let e : (pool.base + 4096 * b - pool.base) / 4096 ≡ b = omega arith in rw e

-- A page in use whose number is no multiple of 32 stays marked when free_page frees it; if that
-- does not panic, it takes the mark from another page that was in use.
free_page-other :
    (pool pool' : PagePool) (b : ℕ)
    → b % 32 ≢ 0
    → pool.bitmap b ≡ true
    → free_page pool (pool.base + 4096 * b) ≡ done pool'
    → (pool'.bitmap b ≡ true)
      × (c : ℕ) × (c ≢ b)
      × (pool.bitmap c ≡ true)
      × (pool'.bitmap c ≡ false)
unfolding free_page update
free_page-other pool pool' b h used e =
    let n = page_number pool b in
    let c = b / 32 * 32 + b % 8 * 4 in
    elim (Bool-cases (ltb (c / 32) bitmap_words && pool.bitmap c)) [
      | inr clear ↦ ground (arith, e, n, clear)
      | inl set ↦
          let freed : record pool {
            bitmap = update pool.bitmap c false;
            n_frees = (pool.n_frees + 1) % 2 ^ 32;
          }
              ≡ pool' =
            ground (arith, e, n, set) in
          let marked : pool.bitmap c ≡ true = ground (arith, set) in
          let other : c ≢ b = other_bit b h in
          let apart : (b == c) ≡ false = ground (arith, other) in
          let same : (c == c) ≡ true = ground arith in
          rw (← freed) (rw apart used, c, other, marked, rw same refl)
    ]
