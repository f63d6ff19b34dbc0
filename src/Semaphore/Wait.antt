-- ===== src/Semaphore/Wait.antt =====
-- `sem_wait` of kernel/src/semaphore.c.
use mungi.Common.{
  ℕ, ◌<◌, ◌≡◌, refl, ◌≢◌, ◌∙◌, true, false, none, [], ◌∷◌, ◌++◌, arith, length, length-append,
}
use mungi.Common.Int.{dec, nonpos}
use mungi.Waitq.{Ptr, null, Block, st}
use mungi.Waitq.Chain.{Cells}
use mungi.Waitq.Add.{waitq_add-append, waitq_add-null}
use mungi.Semaphore.{Entry, Sem, State, Ends, ends, success, st_prot, sem_wait}
use mungi.Semaphore.Queue.{
  Tracks, Holds, Becomes, stored, neg_part-dec-nonpos, neg_part-dec_pos, inc-dec, Ends-on_queue,
}

module _ {s : State} {a : Ptr} {sem : Sem} {i : ℕ} {e : Entry} {xs : Cells}
    (held : Holds s a sem i e) (tracks : Tracks s.heap e xs) where
  -- At a value that is not positive the caller joins the end of the queue and must wait, given
  -- memory for a queue node and fuel for the queue, and the negative value still is the number of
  -- waiters.
  pub sem_wait-blocks :
      (fuel thread : ℕ) (new : Block)
      → nonpos e.value ≡ true
      → s.heap new.address ≡ none
      → new.address ≢ null
      → length xs < fuel
      → Ends
          (λ w s'.
            (w ≡ record { wait = true; retval = success })
            × Becomes s' a sem i (dec e.value) (xs ++ (new.address, thread) ∷ []))
          (sem_wait fuel new a thread s)
  unfolding sem_wait
  sem_wait-blocks fuel thread new low unused ne f =
      rw (held.present, sem_wait, held.found, sem_wait, low)
        (Ends-on_queue s _ (waitq_add-append fuel new thread tracks.chain unused ne f)
          λ failed q (ok, joined). rw ok (
            ends (
              refl,
              stored (record e { value = dec e.value; waitq = q.head }) (record s { heap = q.heap })
                  (xs ++ (new.address, thread) ∷ []) held refl
                  (record {
                    chain = joined.chain;
                    debt = omega (
                      arith,
                      neg_part-dec-nonpos e.value low,
                      tracks.debt,
                      length-append xs ((new.address, thread) ∷ []),
                    );
                  }),
            )))

  -- At a positive value a thread that calls sem_wait goes on, the value falls by one, and no queue
  -- changes.
  sem_wait-passes :
      (fuel thread : ℕ) (new : Block)
      → nonpos e.value ≡ false
      → Ends
          (λ w s'.
            (w ≡ record { wait = false; retval = success })
            × Becomes s' a sem i (dec e.value) xs
            × (s'.heap ≡ s.heap))
          (sem_wait fuel new a thread s)
  unfolding sem_wait
  sem_wait-passes fuel thread new high =
      rw (held.present, sem_wait, held.found, sem_wait, high)
        (ends (
          refl,
          stored (record e { value = dec e.value }) s xs held refl
              (record { chain = tracks.chain; debt = neg_part-dec_pos e.value high ∙ tracks.debt }),
          refl,
        ))

  -- At a value that is not positive and without memory for a queue node, the caller of sem_wait
  -- does not wait and is told so, and the semaphore is as before.
  sem_wait-no_memory :
      (fuel thread : ℕ) (new : Block)
      → nonpos e.value ≡ true
      → new.address ≡ null
      → Ends
          (λ w s'.
            (w ≡ record { wait = false; retval = st_prot })
            × Becomes s' a sem i e.value xs
            × (s'.heap ≡ s.heap))
          (sem_wait fuel new a thread s)
  unfolding sem_wait
  sem_wait-no_memory fuel thread new low e0 =
      rw
        (
          held.present,
          sem_wait,
          held.found,
          sem_wait,
          low,
          waitq_add-null (st e.waitq s.heap) fuel new thread e0,
          inc-dec e.value,
        )
        (ends (refl, stored e s xs held refl tracks, refl))
