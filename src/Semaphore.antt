-- ===== src/Semaphore.antt =====
-- kernel/src/semaphore.c: the semaphores of one object. The object's lock is held for the whole of
-- each operation, so an operation is one step on the state; the lock itself is left out.
pub mod Queue
pub mod Create
pub mod Wait
pub mod Signal
pub mod Delete
use mungi.Common.{
  ℕ, zero, suc, Bool, true, false, Option, none, some, List, [], ◌∷◌, ◌==◌, if◌then◌else◌, set,
}
use mungi.Common.Int.{ℤ, inc, dec, nonpos, is_zero}
use mungi.Waitq.{
  Ptr, null, Heap, Store, st, Run, ok, fault, out_of_fuel, Block, waitq_add, waitq_remove,
}

pub record Entry : Type 0 where
  pub address : Ptr
  pub value : ℤ
  pub waitq : Ptr

-- The block of `SEM_MAX` semaphores that `obj->semp` points to.
pub record Sem : Type 0 where
  pub count : ℤ
  pub semaphores : List Entry

-- A return value sent to a waiting thread.
pub record Upcall : Type 0 where
  pub thread : Ptr
  pub retval : ℕ

-- `semp` is `none` where the source has `NULL`. `sent` holds the upcalls so far, the latest first.
pub record State : Type 0 where
  pub semp : Option Sem
  pub heap : Heap
  pub sent : List Upcall

-- Return values: `success`, `fail` and the codes of include/status.h.
abbrev pub success : ℕ
success = 0

abbrev pub fail : ℕ
fail = 1

abbrev pub st_prot : ℕ
st_prot = 0x16

abbrev st_sema : ℕ
st_sema = 0x1a

abbrev st_err : ℕ
st_err = 0x1c

pub data Result (A : Type 0) : Type 0 where
  returned : A → State → Result A
  crashed : Result A
  no_fuel : Result A

-- The outcome of an operation that returns.
pub data Ends {A : Type 0} (P : A → State → Type 0) : Result A → Type 0 where
  ends : {a : A} {s : State} → P a s → Ends P (returned a s)

-- An operation on one wait queue, run on its head variable and the state's heap.
abbrev pub on_queue : {A B : Type 0} → State → Run A → (A → Ptr → State → Result B) → Result B
on_queue s (ok a q) k = k a q.head (record s { heap = q.heap })
on_queue s fault k = crashed
on_queue s out_of_fuel k = no_fuel

-- The first entry with the address, and its index.
unfoldable pub locate : Ptr → List Entry → Option (ℕ × Entry)
locate a [] = none
locate a (e ∷ es) =
    if e.address == a
    then some (0, e)
    else elim (locate a es) [ none ↦ none | some (i, f) ↦ some (suc i, f) ]

-- What the loop of `sem_create` finds: the first empty slot if there is one, unless a later slot or
-- one before it has the address.
pub data Search : Type 0 where
  exists : Search
  full : Search
  free : ℕ → Search

pub search_slot : Ptr → ℕ → Option ℕ → List Entry → Search
search_slot a i none [] = full
search_slot a i (some k) [] = free k
search_slot a i none (e ∷ es) = elim (e.address == null) [
  | true ↦ search_slot a (suc i) (some i) es
  | false ↦ elim (e.address == a) [ true ↦ exists | false ↦ search_slot a (suc i) none es ]
]
search_slot a i (some k) (e ∷ es) = elim (e.address == a) [
  | true ↦ exists
  | false ↦ search_slot a (suc i) (some k) es
]

-- The entry that `sem_create` fills in; the wait queue stays as it was.
abbrev pub fill : Ptr → ℤ → List Entry → ℕ → List Entry
fill a v [] k = []
fill a v (e ∷ es) zero = record e { address = a; value = v } ∷ es
fill a v (e ∷ es) (suc k) = e ∷ fill a v es k

pub create_in : Sem → Ptr → ℤ → State → Result ℕ
unfolding search_slot
create_in sem a v s = elim (search_slot a 0 none sem.semaphores) [
  | exists ↦ returned fail (record s { semp = some sem })
  | full ↦ returned fail (record s { semp = some sem })
  | free k ↦ returned success (record s {
    semp = some (record { count = inc sem.count; semaphores = fill a v sem.semaphores k });
  })
]

-- `block` is what `kmalloc` returns, with whatever the memory holds.
pub sem_create : Option Sem → Ptr → ℤ → State → Result ℕ
unfolding create_in
sem_create block a v s = elim s.semp [
  | some sem ↦ create_in sem a v s
  | none ↦ elim block [ none ↦ returned st_err s | some sem ↦ create_in sem a v s ]
]

-- Whether the caller must wait, and the return value.
pub record Waited : Type 0 where
  pub wait : Bool
  pub retval : ℕ

abbrev pub store_entry : Sem → ℕ → Entry → State → State
store_entry sem i e s = record s {
  semp = some (record sem { semaphores = set sem.semaphores i e });
}

pub sem_wait : ℕ → Block → Ptr → Ptr → State → Result Waited
sem_wait fuel new a thread s = elim s.semp [
  | none ↦ returned (record { wait = false; retval = fail }) s
  | some sem ↦ elim (locate a sem.semaphores) [
    | none ↦ returned (record { wait = false; retval = st_prot }) s
    | some (i, e) ↦
        if nonpos e.value
        then on_queue s (waitq_add fuel new thread (st e.waitq s.heap)) (λ failed q t.
          if failed
          then returned (record { wait = false; retval = st_prot })
              (store_entry sem i (record e { value = inc (dec e.value); waitq = q }) t)
          else returned (record { wait = true; retval = success })
              (store_entry sem i (record e { value = dec e.value; waitq = q }) t))
        else returned (record { wait = false; retval = success })
            (store_entry sem i (record e { value = dec e.value }) s)
  ]
]

-- `upcall_send` is an IPC: it fails (`true`) or not, whatever was sent before.
module _ (upcall_send : List Upcall → Upcall → Bool) where
  pub sem_signal : Ptr → State → Result ℕ
  sem_signal a s = elim s.semp [
    | none ↦ returned fail s
    | some sem ↦ elim (locate a sem.semaphores) [
      | none ↦ returned fail s
      | some (i, e) ↦ on_queue s (waitq_remove (st e.waitq s.heap)) (λ woken q t. elim woken [
        | none ↦
            returned success (store_entry sem i (record e { value = inc e.value; waitq = q }) t)
        | some thread ↦
            let u : Upcall = record { thread = thread; retval = success } in
            if upcall_send s.sent u
            then returned fail (
                store_entry sem i (record e { value = dec (inc e.value); waitq = q })
                  (record t { sent = u ∷ t.sent }))
            else returned success (
                store_entry sem i (record e { value = inc e.value; waitq = q })
                  (record t { sent = u ∷ t.sent }))
      ])
    ]
  ]

-- `while ((thread = waitq_remove(...))) upcall_send(L4ID(thread), fail);`, whose result is ignored.
pub drain : ℕ → Ptr → State → Result Ptr
drain zero head s = no_fuel
drain (suc fuel) head s = on_queue s (waitq_remove (st head s.heap)) (λ woken q t. elim woken [
  | none ↦ returned q t
  | some thread ↦
      drain fuel q (record t { sent = record { thread = thread; retval = fail } ∷ t.sent })
])

pub sem_delete : ℕ → Ptr → State → Result ℕ
unfolding drain
sem_delete fuel a s = elim s.semp [
  | none ↦ returned st_sema s
  | some sem ↦ elim (locate a sem.semaphores) [
    | none ↦ returned st_sema s
    | some (i, e) ↦ elim (drain fuel e.waitq s) [
      | crashed ↦ crashed
      | no_fuel ↦ no_fuel
      | returned q t ↦
          if is_zero (dec sem.count)
          then returned success (record t { semp = none })
          else returned success (record t {
            semp = some (record {
              count = dec sem.count;
              semaphores = set sem.semaphores i (record e { address = null; waitq = q });
            });
          })
    ]
  ]
]
