-- ===== src/Semaphore/Create.antt =====
-- `sem_create` of kernel/src/semaphore.c.
use mungi.Common.{
  ℕ, suc, ◌+◌, ◌≡◌, refl, ◌≢◌, Option, none, some, List, [], ◌∷◌, ◌++◌, arith, length, inl, inr,
  ◌⊎◌,
}
use mungi.Common.Int.{ℤ, inc}
use native.Mathlib.Nat.{zero-add}
use mungi.Waitq.{Ptr, null}
use mungi.Semaphore.{
  Entry, Sem, State, success, fail, exists, full, free, search_slot, fill, locate, sem_create,
  create_in, returned,
}

-- No entry has the address.
abbrev Unused : Ptr → List Entry → Type 0
Unused a [] = Unit {0}
Unused a (e ∷ es) = (e.address ≢ a) × Unused a es

-- Some entry has it.
abbrev Used : Ptr → List Entry → Type 0
Used a [] = ⊥
Used a (e ∷ es) = (e.address ≡ a) ⊎ Used a es

search_found :
    (a : Ptr) (i k : ℕ) (es : List Entry) → Unused a es → search_slot a i (some k) es ≡ free k
unfolding search_slot
search_found a i k [] u = refl
search_found a i k (e ∷ es) u = ground (arith, search_found a (suc i) k es u.1)

search-Used :
    (a : Ptr) (i : ℕ) (k : Option ℕ) (es : List Entry)
    → a ≢ null
    → Used a es
    → search_slot a i k es ≡ exists
unfolding search_slot
search-Used a i k [] ne u = absurd u
search-Used a i (some k) (e ∷ es) ne u = ground (arith, search-Used a (suc i) (some k) es)
search-Used a i none (e ∷ es) ne u =
    ground (arith, search-Used a (suc i) none es, search-Used a (suc i) (some i) es)

search_full :
    (a : Ptr) (i : ℕ) (es : List Entry)
    → Unused a es
    → Unused null es
    → search_slot a i none es ≡ full
unfolding search_slot
search_full a i [] u v = refl
search_full a i (e ∷ es) u v = ground (arith, search_full a (suc i) es u.1 v.1)

-- The first empty slot.
search_free :
    (a : Ptr) (i : ℕ) (es : List Entry) (e : Entry) (fs : List Entry)
    → Unused a es
    → Unused null es
    → e.address ≡ null
    → Unused a fs
    → search_slot a i none (es ++ e ∷ fs) ≡ free (i + length es)
unfolding search_slot
search_free a i [] e fs u v z w = ground (arith, search_found a (suc i) i fs w)
search_free a i (f ∷ es) e fs u v z w = ground (arith, search_free a (suc i) es e fs u.1 v.1 z w)

fill_at :
    (a : Ptr) (v : ℤ) (es : List Entry) (e : Entry) (fs : List Entry)
    → fill a v (es ++ e ∷ fs) (length es) ≡ es ++ record e { address = a; value = v } ∷ fs
fill_at a v [] e fs = refl
fill_at a v (f ∷ es) e fs = rw (fill_at a v es e fs)

locate_at :
    (a : Ptr) (es : List Entry) (e : Entry) (fs : List Entry)
    → Unused a es
    → e.address ≡ a
    → locate a (es ++ e ∷ fs) ≡ some (length es, e)
unfolding locate
locate_at a [] e fs u z = ground arith
locate_at a (f ∷ es) e fs u z = ground (arith, locate_at a es e fs u.1 z)

module _ (block : Option Sem) (a : Ptr) (v : ℤ) (s : State) where
  -- Where the object has semaphores, none of them under the address, and e is the first empty
  -- slot, sem_create fills that slot with the address and value, leaves its wait queue and every
  -- other slot, counts one more, and the new semaphore is found under its address.
  sem_create-creates :
      (count : ℤ) (es : List Entry) (e : Entry) (fs : List Entry)
      → s.semp ≡ some (record { count = count; semaphores = es ++ e ∷ fs })
      → Unused a es
      → Unused null es
      → e.address ≡ null
      → Unused a fs
      → let e' = record e { address = a; value = v } in
        let sem' : Sem = record { count = inc count; semaphores = es ++ e' ∷ fs } in
        (sem_create block a v s ≡ returned success (record s { semp = some sem' }))
        × (locate a sem'.semaphores ≡ some (length es, e'))
  unfolding sem_create
  sem_create-creates count es e fs p u w z n = (
    rw (p, sem_create, create_in, search_free a 0 es e fs u w z n, zero-add, fill_at a v es e fs),
    locate_at a es _ fs u refl,
  )

  -- A second semaphore under one address, and one more where every slot is taken, are refused and
  -- change nothing, for an address that is not 0.
  sem_create-refuses :
      (sem : Sem)
      → s.semp ≡ some sem
      → a ≢ null
      → Used a sem.semaphores ⊎ (Unused a sem.semaphores × Unused null sem.semaphores)
      → sem_create block a v s ≡ returned fail s
  unfolding sem_create
  sem_create-refuses sem p ne (inl u) =
      rw (p, sem_create, create_in, search-Used a 0 none sem.semaphores ne u)
  sem_create-refuses sem p ne (inr (u, w)) =
      rw (p, sem_create, create_in, search_full a 0 sem.semaphores u w)

  -- The block for an object's first semaphore is not cleared: where no address word of the memory
  -- happens to be zero or the address asked for, the first sem_create of an object, at an address
  -- that is not 0, fails and keeps the block.
  sem_create_uncleared :
      (junk : Sem)
      → s.semp ≡ none
      → block ≡ some junk
      → a ≢ null
      → Unused a junk.semaphores
      → Unused null junk.semaphores
      → sem_create block a v s ≡ returned fail (record s { semp = some junk })
  unfolding sem_create
  sem_create_uncleared junk p q ne u w =
      rw (p, sem_create, q, sem_create, create_in, search_full a 0 junk.semaphores u w)
