-- ===== src/Mm/Touch.antt =====
-- A run that is put next to free chunks, in `kfree_obj` of kernel/src/mm.c.
use mungi.Common.{
  ℕ, Bool, ◌+◌, ◌-◌, ◌≤◌, ◌<◌, ◌^◌, ◌≡◌, true, false, ◌&&◌, ◌||◌, List, [], ◌∷◌, arith, ◌==◌,
  Bool-cases, inl, inr,
}
use mungi.Common.Checked.{Checked, done}
use mungi.Mm.{Chunk, Placed, placed, coalesce, add64, aligned, put_front}
use mungi.Mm.Order.{in_run, is_free, Ordered, Ordered-mono}

-- No address of the run of `size` bytes at `a` is free.
abbrev pub Apart : ℕ → ℕ → List Chunk → Type 0
Apart a size cs = (x : ℕ) → (in_run a size x && is_free cs x) ≡ false

-- The addresses next to the run are free on both sides.
abbrev pub fills : ℕ → ℕ → List Chunk → Bool
fills a size cs = is_free cs (a - 1) && is_free cs (a + size)

pub fills-tail :
    (a size : ℕ) (c : Chunk) (cs : List Chunk)
    → fills a size (c ∷ cs) ≡ false
    → fills a size cs ≡ false
unfolding is_free
fills-tail a size c cs h = ground (arith, h)

-- In `ds` the addresses of `cs` are free and those of the run, and no others.
pub record Gave (lo a size : ℕ) (cs ds : List Chunk) : Type 0 where
  pub free : (x : ℕ) → is_free ds x ≡ (is_free cs x || in_run a size x)
  pub ordered : Ordered lo ds

-- What is asked of a run that is given back.
pub record Run (lo a size : ℕ) : Type 0 where
  pub above : lo ≤ a
  pub some_bytes : 0 < size
  pub below : a + size < 2 ^ 64
  pub page : aligned a ≡ true

pub Run-above : {lo hi a size : ℕ} → Run lo a size → hi ≤ a → Run hi a size
Run-above r h = record { above = h; some_bytes = r.some_bytes; below = r.below; page = r.page }

abbrev pub Gives : ℕ → ℕ → ℕ → List Chunk → Checked Placed → Type 0
Gives lo a size cs r = (ds : List Chunk) × (r ≡ done (placed ds)) × Gave lo a size cs ds

pub Apart-tail :
    (a size : ℕ) (c : Chunk) (cs : List Chunk) → Apart a size (c ∷ cs) → Apart a size cs
unfolding is_free
Apart-tail a size c cs d x = ground (arith, d x)

pub Gave-later :
    (lo a size : ℕ) (c : Chunk) (cs ds : List Chunk)
    → Ordered lo (c ∷ cs)
    → Gave (c.address + c.size) a size cs ds
    → Gave lo a size (c ∷ cs) (c ∷ ds)
unfolding is_free
Gave-later lo a size c cs ds w g = record {
  free = λ x. ground (arith, g.free x);
  ordered = (w.0, w.1, w.2, g.ordered);
}

-- A chunk behind the run starts where the run ends, or later.
pub ends_before :
    (a size : ℕ) (c : Chunk) (cs : List Chunk)
    → 0 < c.size
    → Apart a size (c ∷ cs)
    → a ≤ c.address
    → a + size ≤ c.address
unfolding is_free
ends_before a size c cs h d l = ground (arith, d c.address)

pub starts_behind :
    (a size : ℕ) (c : Chunk) (cs : List Chunk)
    → 0 < size
    → Apart a size (c ∷ cs)
    → c.address ≤ a
    → c.address + c.size ≤ a
unfolding is_free
starts_behind a size c cs h d l = ground (arith, d a)

pub add64_small : (a b : ℕ) → a + b < 2 ^ 64 → add64 a b ≡ a + b
add64_small a b h = omega arith

pub new-Gave :
    (lo a size : ℕ) → Run lo a size → Gave lo a size [] (record { address = a; size = size } ∷ [])
unfolding is_free
new-Gave lo a size r = record {
  free = λ x. ground arith;
  ordered = (r.above, r.some_bytes, r.below, tt);
}

pub put_front-Gives :
    (lo a size : ℕ) (cs : List Chunk)
    → Run lo a size
    → Ordered (a + size) cs
    → Gives lo a size cs (put_front true a size cs)
unfolding put_front is_free
put_front-Gives lo a size [] r w =
    (record { address = a; size = size } ∷ [], rw (put_front, r.page), new-Gave lo a size r)
put_front-Gives lo a size (c ∷ cs) r w =
    let e = add64_small a size r.below in
    elim (Bool-cases (c.address == a + size)) [
      | inl touch ↦ (
        record { address = a; size = c.size + size } ∷ cs,
        rw (put_front, e, touch, add64_small c.size size (omega (arith, w.0, w.2))),
        record {
          free = λ x. ground arith;
          ordered = (
            r.above,
            omega (arith, r.some_bytes),
            ground (arith, w.2),
            Ordered-mono _ (c.address + c.size) cs (ground arith) w.3,
          );
        },
      )
      | inr apart ↦ (
        record { address = a; size = size } ∷ c ∷ cs,
        rw (put_front, e, apart, r.page),
        record { free = λ x. ground arith; ordered = (r.above, r.some_bytes, r.below, w) },
      )
    ]

-- The run grows the chunk `b` that it touches.
grown-Gave :
    (lo a size : ℕ) (b : Chunk) (cs : List Chunk)
    → Run lo a size
    → Ordered lo (b ∷ cs)
    → b.address + b.size ≡ a
    → Ordered (a + size) cs
    → Gave lo a size (b ∷ cs) (record b { size = b.size + size } ∷ cs)
unfolding is_free
grown-Gave lo a size b cs r w touch o = record {
  free = λ x. ground arith;
  ordered = (
    w.0,
    omega (arith, w.1),
    omega (arith, touch, r.below),
    Ordered-mono _ (a + size) cs (omega (arith, touch)) o,
  );
}

pub coalesce-Gives :
    (lo a size : ℕ) (b : Chunk) (cs : List Chunk)
    → Run lo a size
    → Ordered lo (b ∷ cs)
    → b.address + b.size ≡ a
    → Ordered (a + size) cs
    → fills a size (b ∷ cs) ≡ false
    → Gives lo a size (b ∷ cs) (done (coalesce a size b cs))
unfolding is_free
coalesce-Gives lo a size b [] r w touch o one =
    let grow : add64 b.size size ≡ b.size + size =
      add64_small b.size size (omega (arith, touch, r.below)) in
    (record b { size = b.size + size } ∷ [], rw grow, grown-Gave lo a size b [] r w touch o)
coalesce-Gives lo a size b (c ∷ cs) r w touch o one =
    let e = add64_small a size r.below in
    let grow : add64 b.size size ≡ b.size + size =
      add64_small b.size size (omega (arith, touch, r.below)) in
    elim (Bool-cases (c.address == a + size)) [
      | inl meet ↦ ground (arith, touch, one, w.1, w.3.1)
      | inr apart ↦ (
        record b { size = b.size + size } ∷ c ∷ cs,
        rw (e, grow, apart),
        grown-Gave lo a size b (c ∷ cs) r w touch o,
      )
    ]
