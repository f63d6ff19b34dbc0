-- ===== src/Semaphore/Signal.antt =====
-- `sem_signal` of kernel/src/semaphore.c.
use mungi.Common.{
  ℕ, suc, ◌≡◌, refl, Bool, true, false, none, List, [], ◌∷◌, arith, length, set, Bool-cases, inl,
  inr,
}
use mungi.Common.Int.{ℤ, neg_part, inc}
use mungi.Waitq.{Ptr, Heap, at_next, st, Store, write}
use mungi.Waitq.Chain.{Cells, Chain}
use mungi.Waitq.Remove.{Removed, waitq_remove-oldest, waitq_remove-empty, broken_head}
use mungi.Semaphore.{
  Entry, Sem, State, Upcall, crashed, Ends, ends, success, fail, store_entry, sem_signal,
}
use mungi.Semaphore.Queue.{
  Tracks, Holds, Becomes, stored, neg_part-inc, neg_part-inc_zero, dec-inc, Ends-on_queue,
  Ends-mono, locate_address, locate-set,
}

abbrev success_to : Ptr → Upcall
success_to t = record { thread = t; retval = success }

-- The semaphore after its oldest waiter `c` was taken from the queue: the nodes of the others form
-- a chain, whose first node points back into the freed one.
pub record Served (h : Heap) (log : List Upcall) (a : Ptr) (sem : Sem) (i : ℕ) (c : Ptr × Ptr)
    (xs : Cells) (v : ℤ) (s' : State) : Type 0 where
  pub entry : Entry
  pub value : entry.value ≡ v
  pub holds : Holds s' a (record sem { semaphores = set sem.semaphores i entry }) i entry
  pub rest : Chain s'.heap (at_next c.0) entry.waitq xs
  pub freed : s'.heap ≡ write h c.0 none
  pub sent : s'.sent ≡ success_to c.1 ∷ log

module _ {s : State} {a : Ptr} {sem : Sem} {i : ℕ} {e : Entry} (held : Holds s a sem i e) where
  serve :
      {c : Ptr × Ptr} {xs : Cells} (v : ℤ) (q : Store)
      → Removed (st e.waitq s.heap) c.0 xs q
      → Served s.heap s.sent a sem i c xs v (
          store_entry sem i
            (record e { value = v; waitq = q.head })
            (record s { heap = q.heap; sent = success_to c.1 ∷ s.sent }))
  serve v q left = record {
    entry = record e { value = v; waitq = q.head };
    value = refl;
    holds = record {
      present = refl;
      found =
          locate-set a sem.semaphores i e _ held.found
            (locate_address a sem.semaphores i e held.found);
    };
    rest = left.rest;
    freed = left.freed;
    sent = refl;
  }

module _ (upcall_send : List Upcall → Upcall → Bool) {s : State} {a : Ptr} {sem : Sem} {i : ℕ}
    {e : Entry} (held : Holds s a sem i e) where
  -- With no thread waiting on a semaphore, a signal succeeds and the value grows by one, nothing
  -- is sent, and no queue changes.
  sem_signal-none :
      Tracks s.heap e []
      → Ends
          (λ r s'.
            (r ≡ success)
            × Becomes s' a sem i (inc e.value) []
            × (s'.heap ≡ s.heap)
            × (s'.sent ≡ s.sent))
          (sem_signal upcall_send a s)
  unfolding sem_signal
  sem_signal-none tracks =
      rw (held.present, sem_signal, held.found, sem_signal, waitq_remove-empty tracks.chain)
        (ends (
          refl,
          stored (record e { value = inc e.value }) s [] held refl
              (record { chain = tracks.chain; debt = neg_part-inc_zero e.value tracks.debt }),
          refl,
          refl,
        ))

  -- When the reply can be sent, a signal wakes the thread that has waited longest and no other,
  -- and the value counts the rest.
  pub sem_signal-wakes :
      {c : Ptr × Ptr} {xs : Cells}
      → Tracks s.heap e (c ∷ xs)
      → upcall_send s.sent (success_to c.1) ≡ false
      → Ends
          (λ r s'.
            (r ≡ success)
            × Served s.heap s.sent a sem i c xs (inc e.value) s'
            × (neg_part (inc e.value) ≡ length xs))
          (sem_signal upcall_send a s)
  unfolding sem_signal
  sem_signal-wakes {c} {xs} tracks sends =
      rw (held.present, sem_signal, held.found, sem_signal)
        (Ends-on_queue s _ (waitq_remove-oldest tracks.chain) λ r q (got, left).
          rw (got, sends)
            (ends (
              refl,
              serve held (inc e.value) q left,
              neg_part-inc e.value (length xs) tracks.debt,
            )))

  -- When the reply of a signal cannot be sent, the signal fails, and the thread that has waited
  -- longest is out of the queue all the same, while the value still counts it: one more than the
  -- threads that are left.
  sem_signal-upcall_fails :
      {c : Ptr × Ptr} {xs : Cells}
      → Tracks s.heap e (c ∷ xs)
      → upcall_send s.sent (success_to c.1) ≡ true
      → Ends
          (λ r s'.
            (r ≡ fail)
            × Served s.heap s.sent a sem i c xs e.value s'
            × (neg_part e.value ≡ suc (length xs)))
          (sem_signal upcall_send a s)
  unfolding sem_signal
  sem_signal-upcall_fails {c} {xs} tracks fails =
      rw (held.present, sem_signal, held.found, sem_signal)
        (Ends-on_queue s _ (waitq_remove-oldest tracks.chain) λ r q (got, left).
          rw (got, fails, dec-inc e.value) (ends (refl, serve held e.value q left, tracks.debt)))

  signal_broken :
      {c d : Ptr × Ptr} {xs : Cells} {v : ℤ} {s' : State}
      → Served s.heap s.sent a sem i c (d ∷ xs) v s'
      → sem_signal upcall_send a s' ≡ crashed
  unfolding sem_signal write
  signal_broken {s'} served = rw (
    served.holds.present,
    sem_signal,
    served.holds.found,
    sem_signal,
    broken_head served.rest (rw served.freed (ground arith)),
  )

  -- Where two or more threads wait on a semaphore, a second signal after the first one writes
  -- through a pointer into the queue node that the first one freed.
  sem_signal-twice :
      {c d : Ptr × Ptr} {xs : Cells}
      → Tracks s.heap e (c ∷ d ∷ xs)
      → Ends (λ _ s'. sem_signal upcall_send a s' ≡ crashed) (sem_signal upcall_send a s)
  sem_signal-twice {c} tracks = elim (Bool-cases (upcall_send s.sent (success_to c.1))) [
    | inl fails ↦
        Ends-mono (sem_signal-upcall_fails tracks fails)
          (λ r s' (_, served, _). signal_broken served)
    | inr sends ↦
        Ends-mono (sem_signal-wakes tracks sends) (λ r s' (_, served, _). signal_broken served)
  ]
