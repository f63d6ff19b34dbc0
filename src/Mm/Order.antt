-- ===== src/Mm/Order.antt =====
-- The free list of kernel/src/mm.c seen as a set of addresses.
use mungi.Common.{
  ℕ, ◌+◌, ◌≤◌, ◌<◌, ◌^◌, ◌≡◌, refl, Bool, false, ◌&&◌, ◌||◌, List, [], ◌∷◌, arith, leb, ltb,
}
use mungi.Mm.{Chunk}

-- The address lies in the `size` bytes from `a` on.
abbrev pub in_run : ℕ → ℕ → ℕ → Bool
in_run a size x = leb a x && ltb x (a + size)

unfoldable pub is_free : List Chunk → ℕ → Bool
is_free [] x = false
is_free (c ∷ cs) x = in_run c.address c.size x || is_free cs x

-- The chunks stand in ascending order from `lo` on, do not overlap, are not empty and end below the
-- end of the address space.
abbrev pub Ordered : ℕ → List Chunk → Type 0
Ordered lo [] = Unit {0}
Ordered lo (c ∷ cs) =
    (lo ≤ c.address)
    × (0 < c.size)
    × (c.address + c.size < 2 ^ 64)
    × Ordered (c.address + c.size) cs

pub is_free-below : (lo x : ℕ) (cs : List Chunk) → Ordered lo cs → x < lo → is_free cs x ≡ false
unfolding is_free
is_free-below lo x [] w h = refl
is_free-below lo x (c ∷ cs) w h = ground (arith, is_free-below (c.address + c.size) x cs w.3)

pub Ordered-mono : (lo hi : ℕ) (cs : List Chunk) → lo ≤ hi → Ordered hi cs → Ordered lo cs
Ordered-mono lo hi [] h w = tt
Ordered-mono lo hi (c ∷ cs) h w = (omega arith, w.1, w.2, w.3)
