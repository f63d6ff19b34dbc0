-- ===== src/Waitq/Remove.antt =====
-- `waitq_remove` of kernel/src/waitq.c.
use mungi.Common.{◌≡◌, refl, none, some, [], ◌∷◌, arith}
use mungi.Waitq.{Ptr, at_head, at_next, Heap, Store, st, write, ok, fault, waitq_remove}
use mungi.Waitq.Chain.{
  Cells, Chain, cons, IsQueue, not_null, read-ok, read-none, frame-write, eq_null, Returns, returns,
  mono,
}

-- What is left after the first cell is taken from the store `s`: its node is freed, the head moves
-- on, and the next node still points back into the freed one.
pub record Removed (s : Store) (p : Ptr) (xs : Cells) (s' : Store) : Type 0 where
  pub freed : s'.heap ≡ write s.heap p none
  pub rest : Chain s'.heap (at_next p) s'.head xs

remove_head :
    {h : Heap} {p : Ptr} {c : Ptr × Ptr} {xs : Cells}
    → Chain h at_head p (c ∷ xs)
    → Returns (λ r s. (r ≡ some c.1) × Removed (st p h) c.0 xs s) (waitq_remove (st p h))
unfolding waitq_remove
remove_head {h} (cons {p} {q} {xs} e out c) =
    rw (not_null e, read-ok e p, read-ok e q)
      (returns (refl, record { freed = refl; rest = frame-write p none c out }))

-- On a well-formed queue waitq_remove returns the thread that has waited longest, frees its node
-- and no other, and keeps the other waiters in their order.
pub waitq_remove-oldest :
    {s : Store} {c : Ptr × Ptr} {xs : Cells}
    → IsQueue s (c ∷ xs)
    → Returns (λ r s'. (r ≡ some c.1) × Removed s c.0 xs s') (waitq_remove s)
waitq_remove-oldest is = remove_head is

pub waitq_remove-empty : {s : Store} → IsQueue s [] → waitq_remove s ≡ ok none s
unfolding waitq_remove
waitq_remove-empty is = rw (eq_null is)

pub broken_head :
    {h : Heap} {p f : Ptr} {c : Ptr × Ptr} {xs : Cells}
    → Chain h (at_next f) p (c ∷ xs)
    → h f ≡ none
    → waitq_remove (st p h) ≡ fault
unfolding waitq_remove
broken_head {h} {f} (cons {p} {q} e out c) gone = rw (not_null e, read-ok e p, read-none p h f gone)

-- Where two or more threads wait, the removal after a removal writes through the pointer back into
-- the node that the first one freed.
waitq_remove-twice :
    {s : Store} {c d : Ptr × Ptr} {xs : Cells}
    → IsQueue s (c ∷ d ∷ xs)
    → Returns (λ _ s'. waitq_remove s' ≡ fault) (waitq_remove s)
unfolding write
waitq_remove-twice is =
    mono (waitq_remove-oldest is)
      λ r s' (_, left). broken_head left.rest (rw left.freed (ground arith))
