-- ===== src/Semaphore/Delete.antt =====
-- `sem_delete` of kernel/src/semaphore.c.
use mungi.Common.{
  ℕ, suc, ◌≡◌, refl, Option, none, some, [], ◌∷◌, arith, set, Bool-cases, inl, inr, if◌then◌else◌,
}
use mungi.Common.Int.{dec, is_zero}
use mungi.Waitq.{Ptr, null, at_head, st, write}
use mungi.Waitq.Chain.{Cells, Chain, eq_null, nil}
use mungi.Waitq.Remove.{waitq_remove-oldest, waitq_remove-empty, broken_head}
use mungi.Semaphore.{
  Entry, Sem, State, Upcall, crashed, Ends, ends, success, fail, drain, sem_delete, returned,
}
use mungi.Semaphore.Queue.{Tracks, Holds, Ends-on_queue, Ends-eq, on_queue_crashed}

abbrev fail_to : Ptr → Upcall
fail_to t = record { thread = t; retval = fail }

-- The block once the semaphore at index `i` is gone: freed with the last one, else with the slot
-- marked empty.
abbrev pub deleted : Sem → ℕ → Entry → Ptr → Option Sem
deleted sem i e head =
    if is_zero (dec sem.count)
    then none
    else some (record {
      count = dec sem.count;
      semaphores = set sem.semaphores i (record e { address = null; waitq = head });
    })

drain_one :
    (fuel : ℕ) (s : State) (head : Ptr) {c : Ptr × Ptr}
    → Chain s.heap at_head head (c ∷ [])
    → Ends
        (λ q t.
          (q ≡ null) × (t ≡ record s { heap = write s.heap c.0 none; sent = fail_to c.1 ∷ s.sent }))
        (drain (suc (suc fuel)) head s)
unfolding drain
drain_one fuel s head ch = Ends-on_queue s _ (waitq_remove-oldest ch) λ r q (got, left).
    rw (got, eq_null left.rest, waitq_remove-empty {s = st null q.heap} nil)
      (ends (refl, rw left.freed))

drain_many :
    (fuel : ℕ) (s : State) (head : Ptr) {c d : Ptr × Ptr} {xs : Cells}
    → Chain s.heap at_head head (c ∷ d ∷ xs)
    → drain (suc (suc fuel)) head s ≡ crashed
unfolding drain write
drain_many fuel s head ch =
    on_queue_crashed s _ (waitq_remove-oldest ch)
      λ r q (got, left). rw (got, broken_head left.rest (rw left.freed (ground arith)))

module _ {s : State} {a : Ptr} {sem : Sem} {i : ℕ} {e : Entry} (held : Holds s a sem i e) where
  -- Deleting a semaphore on which nobody waits frees its slot and sends nothing.
  sem_delete-idle :
      (fuel : ℕ)
      → Tracks s.heap e []
      → sem_delete (suc fuel) a s ≡ returned success (record s { semp = deleted sem i e e.waitq })
  unfolding sem_delete
  sem_delete-idle fuel tracks = elim (Bool-cases (is_zero (dec sem.count))) [
    | inl last ↦
        rw (held.present, sem_delete, held.found, sem_delete, waitq_remove-empty tracks.chain, last)
    | inr more ↦
        rw (held.present, sem_delete, held.found, sem_delete, waitq_remove-empty tracks.chain, more)
  ]

  -- Deleting a semaphore with one waiter sends that thread the value fail, frees its queue node
  -- and the slot.
  sem_delete-fails_waiter :
      (fuel : ℕ) {c : Ptr × Ptr}
      → Tracks s.heap e (c ∷ [])
      → sem_delete (suc (suc fuel)) a s
        ≡ returned success (record {
          semp = deleted sem i e null;
          heap = write s.heap c.0 none;
          sent = fail_to c.1 ∷ s.sent;
        })
  unfolding sem_delete
  sem_delete-fails_waiter fuel tracks = elim (Bool-cases (is_zero (dec sem.count))) [
    | inl last ↦ rw (
      held.present,
      sem_delete,
      held.found,
      sem_delete,
      Ends-eq (drain_one fuel s e.waitq tracks.chain),
      last,
    )
    | inr more ↦ rw (
      held.present,
      sem_delete,
      held.found,
      sem_delete,
      Ends-eq (drain_one fuel s e.waitq tracks.chain),
      more,
    )
  ]

  -- With two or more waiters the second round of sem_delete's loop writes through a pointer into
  -- the node that the first round freed.
  sem_delete-crashes :
      (fuel : ℕ) {c d : Ptr × Ptr} {xs : Cells}
      → Tracks s.heap e (c ∷ d ∷ xs)
      → sem_delete (suc (suc fuel)) a s ≡ crashed
  unfolding sem_delete
  sem_delete-crashes fuel tracks =
      rw (held.present, sem_delete, held.found, sem_delete, drain_many fuel s e.waitq tracks.chain)
