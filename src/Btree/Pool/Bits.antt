-- ===== src/Btree/Pool/Bits.antt =====
-- `alloc_page` and `free_page` of kernel/lib/klibc/btree.c.
use mungi.Common.{
  ℕ, zero, suc, ◌+◌, ◌*◌, ◌≤◌, ◌<◌, ◌≡◌, refl, Bool, true, false, ◌&&◌, arith, ◌==◌, ltb,
  Bool-cases, inl, inr,
}
use mungi.Common.Arrays.{Array}
use mungi.Btree.Pool.{PagePool, bitmap_words, all_set, first_word, first_clear}

all_set-true :
    (n : ℕ) (bitmap : Array Bool) (i j : ℕ)
    → all_set n bitmap i ≡ true
    → i ≤ j
    → j < i + n
    → bitmap j ≡ true
unfolding all_set
all_set-true zero bitmap i j h l m = absurd (omega (arith, l, m))
all_set-true (suc n) bitmap i j h l m = elim (Bool-cases (i == j)) [
  | inl same ↦ let e : i ≡ j = ground arith in ground (arith, h, e)
  | inr later ↦
      all_set-true n bitmap (i + 1) j (ground (arith, h)) (ground arith) (omega (arith, m))
]

-- Where the search for a word ends: every page before it is in use, and it is not full or behind the
-- pool's end.
pub record Word (pool : PagePool) (w : ℕ) : Type 0 where
  pub used : (j : ℕ) → j < w * 32 → pool.bitmap j ≡ true
  pub ends :
      (ltb (w * 32) pool.size && ltb w bitmap_words && all_set 32 pool.bitmap (w * 32)) ≡ false

pub first_word-Word :
    (fuel : ℕ) (pool : PagePool) (w : ℕ)
    → ((j : ℕ) → j < w * 32 → pool.bitmap j ≡ true)
    → pool.size ≤ (w + fuel) * 32
    → Word pool (first_word fuel pool w)
unfolding first_word
first_word-Word zero pool w h f =
    let behind : ltb (w * 32) pool.size ≡ false = ground arith in
    record { used = h; ends = rw behind refl }
first_word-Word (suc fuel) pool w h f =
    elim (Bool-cases
      (ltb (w * 32) pool.size && ltb w bitmap_words && all_set 32 pool.bitmap (w * 32))) [
        | inl full ↦
            let set : all_set 32 pool.bitmap (w * 32) ≡ true = ground (arith, full) in
            rw (first_word, full)
              (first_word-Word fuel pool (w + 1)
                (λ j l. elim (Bool-cases (ltb j (w * 32))) [
                  | inl before ↦ h j (ground arith)
                  | inr here ↦
                      all_set-true 32 pool.bitmap (w * 32) j set (ground arith) (omega (arith, l))
                ])
                (omega (arith, f)))
        | inr ends ↦ rw (first_word, ends) (record { used = h; ends = ends })
      ]

-- The first clear bit of some that are not all set.
pub first_clear-clear :
    (n : ℕ) (bitmap : Array Bool) (i : ℕ)
    → all_set n bitmap i ≡ false
    → (b : ℕ) × (first_clear n bitmap i ≡ b)
      × (i ≤ b)
      × (b < i + n)
      × (bitmap b ≡ false)
      × ((j : ℕ) → i ≤ j → j < b → bitmap j ≡ true)
unfolding all_set first_clear
first_clear-clear zero bitmap i h = ground (arith, h)
first_clear-clear (suc n) bitmap i h = elim (Bool-cases (bitmap i)) [
  | inr clear ↦ (
    i,
    rw (first_clear, clear),
    omega arith,
    omega arith,
    clear,
    λ j l m. absurd (omega (arith, l, m)),
  )
  | inl set ↦
      let (b, e, l, m, clear, used) = first_clear-clear n bitmap (i + 1) (rw (all_set, set) at h) in
      (
        b,
        rw (first_clear, set, e),
        omega (arith, l),
        omega (arith, m),
        clear,
        λ j p q. elim (Bool-cases (i == j)) [
          | inl same ↦ let z : i ≡ j = ground arith in ground (arith, set, z)
          | inr later ↦ used j (ground arith) q
        ],
      )
]
