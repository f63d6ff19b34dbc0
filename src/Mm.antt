-- ===== src/Mm.antt =====
-- kernel/src/mm.c, the storage of objects: a list of free chunks in ascending order of address. The
-- list's nodes are only reached through it, so the list stands for them. The lock is left out, but for
-- the path of `kfree_obj` that returns with it held.
pub mod Order
pub mod Alloc
pub mod Touch
pub mod Free
pub mod Gap
pub mod Reuse
pub mod Addr
pub mod Inside
use mungi.Common.{
  ℕ, zero, suc, ◌+◌, ◌-◌, ◌/◌, ◌*◌, ◌%◌, ◌^◌, Bool, true, false, not, ◌&&◌, ◌||◌, Option, none,
  some, List, [], ◌∷◌, ◌==◌, leb, ltb, if◌then◌else◌, length,
}
use mungi.Common.Checked.{Checked, done, panic, ◌>>=◌}

-- A `freelist_t`.
pub record Chunk : Type 0 where
  pub address : ℕ
  pub size : ℕ

-- Additions of `uintptr_t`.
abbrev pub add64 : ℕ → ℕ → ℕ
add64 a b = (a + b) % 2 ^ 64

-- `page_round_up` and `page_round_down` of kernel/include/mungi/kernel.h.
abbrev pub page_round_up : ℕ → ℕ
page_round_up a = add64 a 4095 / 4096 * 4096

abbrev pub aligned : ℕ → Bool
aligned a = a % 4096 == 0

-- What is taken from a chunk that is big enough, its front or all of it, and the list afterwards.
abbrev pub taken : ℕ → Chunk → List Chunk → ℕ × List Chunk
taken size c cs = (
  c.address,
  if c.size == size
      then cs
      else record { address = add64 c.address size; size = c.size - size } ∷ cs,
)

abbrev pub keep : Chunk → Option (ℕ × List Chunk) → Option (ℕ × List Chunk)
keep c none = none
keep c (some (a, cs)) = some (a, c ∷ cs)

-- The first chunk that is big enough. The chunks before it are checked to be aligned.
unfoldable pub take_fit : ℕ → List Chunk → Checked (Option (ℕ × List Chunk))
take_fit size [] = done none
take_fit size (c ∷ cs) =
    let rest = take_fit size cs in
    if leb size c.size
    then done (some (taken size c cs))
    else if aligned c.address && aligned c.size
    then rest >>= (λ r. done (keep c r))
    else panic

-- `none` is the `NULL` that is returned; the free list stays as it was.
unfoldable pub kmalloc_obj : ℕ → List Chunk → Checked (Option (ℕ × List Chunk))
unfolding take_fit
kmalloc_obj size [] = done none
kmalloc_obj size (c ∷ cs) = if size == 0 then done none else take_fit (page_round_up size) (c ∷ cs)

-- `kfree_obj`: whether it succeeds, and the free list afterwards. Where it fails the lock is still
-- held. `dangling`: a node of the list has been given to `kfree`, and the chunk that is said to stand
-- there is what the node held.
pub record Freed : Type 0 where
  pub success : Bool
  pub lock_released : Bool
  pub dangling : Bool
  pub chunks : List Chunk

-- The list with the chunk in it: `no_node` if `_kmalloc` has no memory for a node, `dangling_in` if a
-- node of the list has been given to `kfree`.
pub data Placed : Type 0 where
  no_node : Placed
  placed dangling_in : List Chunk → Placed

-- A new node in front of `cs`, if `_kmalloc` has memory for it (`node`).
abbrev new_entry : Bool → ℕ → ℕ → List Chunk → Checked Placed
new_entry node address size cs =
    if not node
    then done no_node
    else if aligned address
    then done (placed (record { address = address; size = size } ∷ cs))
    else panic

-- The chunk is put in front of the list `cs`, whose first chunk it may touch.
pub put_front : Bool → ℕ → ℕ → List Chunk → Checked Placed
put_front node address size [] = new_entry node address size []
put_front node address size (c ∷ cs) =
    if c.address == add64 address size
    then done (placed (record { address = address; size = add64 c.size size } ∷ cs))
    else new_entry node address size (c ∷ cs)

abbrev pub behind : Chunk → Placed → Placed
behind b no_node = no_node
behind b (placed cs) = placed (b ∷ cs)
behind b (dangling_in cs) = dangling_in (b ∷ cs)

-- `ptr2->size += size`, and if the chunk touches that one too, `ptr2->size += ptr->size` and
-- `kfree(ptr)`: `ptr2->next` is not changed.
abbrev pub coalesce : ℕ → ℕ → Chunk → List Chunk → Placed
coalesce address size b [] = placed (record b { size = add64 b.size size } ∷ [])
coalesce address size b (c ∷ cs) =
    if c.address == add64 address size
    then dangling_in (record b { size = add64 (add64 b.size size) c.size } ∷ c ∷ cs)
    else placed (record b { size = add64 b.size size } ∷ c ∷ cs)

-- The chunk is put behind the chunk `b`, which it may touch, in front of `cs`.
pub put_behind : Bool → ℕ → ℕ → Chunk → List Chunk → Checked Placed
unfolding put_front
put_behind node address size b cs =
    if add64 b.address b.size == address
    then done (coalesce address size b cs)
    else put_front node address size cs >>= (λ r. done (behind b r))

-- The walk to the last chunk below the address, which is `b` so far.
pub insert_chunk : Bool → ℕ → ℕ → Chunk → List Chunk → Checked Placed
unfolding put_behind
insert_chunk node address size b [] = put_behind node address size b []
insert_chunk node address size b (c ∷ cs) =
    let rest = insert_chunk node address size c cs in
    if ltb c.address address
    then rest >>= (λ r. done (behind b r))
    else put_behind node address size b (c ∷ cs)

abbrev freed_in : List Chunk → Placed → Freed
freed_in cs no_node = record {
  success = false;
  lock_released = false;
  dangling = false;
  chunks = cs;
}
freed_in cs (placed ds) = record {
  success = true;
  lock_released = true;
  dangling = false;
  chunks = ds;
}
freed_in cs (dangling_in ds) = record {
  success = true;
  lock_released = true;
  dangling = true;
  chunks = ds;
}

-- Where the first chunk is not below the address it is the chunk behind and the chunk in front at
-- once: if the new chunk touches it on both sides its size is added to itself.
pub place_rounded : Bool → ℕ → ℕ → Chunk → List Chunk → Checked Placed
unfolding insert_chunk put_front
place_rounded node address size c cs =
    if ltb c.address address
    then insert_chunk node address size c cs
    else if add64 c.address c.size == address
    then if c.address == add64 address size
      then done
          (dangling_in (record c { size = add64 (add64 c.size size) (add64 c.size size) } ∷ cs))
      else done (placed (record c { size = add64 c.size size } ∷ cs))
    else put_front node address size (c ∷ cs)

-- In an empty list the chunk is not rounded, and no memory for the node is a `panic`.
unfoldable pub kfree_obj : Bool → ℕ → ℕ → List Chunk → Checked Freed
unfolding place_rounded
kfree_obj node address size [] =
    if node
    then done (record {
      success = true;
      lock_released = true;
      dangling = false;
      chunks = record { address = address; size = size } ∷ [];
    })
    else panic
kfree_obj node address size (c ∷ cs) =
    if size == 0
    then done (record { success = true; lock_released = true; dangling = false; chunks = c ∷ cs })
    else place_rounded node address (page_round_up size) c cs >>= (λ r. done (freed_in (c ∷ cs) r))
