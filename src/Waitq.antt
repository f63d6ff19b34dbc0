-- ===== src/Waitq.antt =====
-- kernel/src/waitq.c: queues of waiting threads, as a singly linked list in kernel memory whose
-- nodes also point back at the pointer that leads to them (`pprev`).
pub mod Chain
pub mod Add
pub mod Remove
pub mod Cancel
use mungi.Common.{ℕ, zero, suc, Bool, true, false, Option, none, some, ◌==◌, ◌||◌, if◌then◌else◌}

abbrev pub Ptr : Type 0
Ptr = ℕ

abbrev pub null : Ptr
null = 0

-- Where a `waitq_t **` points: at the queue's head variable, or at the `next` field of a node.
pub data Back : Type 0 where
  at_head : Back
  at_next : Ptr → Back

pub record Node : Type 0 where
  pub thread : Ptr
  pub next : Ptr
  pub pprev : Back

-- The nodes that are allocated.
abbrev pub Heap : Type 0
Heap = Ptr → Option Node

-- One queue's head variable and the heap.
pub record Store : Type 0 where
  pub head : Ptr
  pub heap : Heap

abbrev pub st : Ptr → Heap → Store
st p h = record { head = p; heap = h }

unfoldable pub write : Heap → Ptr → Option Node → Heap
write h p c a = if a == p then c else h a

-- A read or write through `NULL` or through a freed node is a fault.
pub data Run (A : Type 0) : Type 0 where
  ok : A → Store → Run A
  fault : Run A
  out_of_fuel : Run A

abbrev Cmd : Type 0 → Type 0
Cmd A = Store → Run A

abbrev pure : {A : Type 0} → A → Cmd A
pure = ok

module _ {A B : Type 0} where
  abbrev and_then : Run A → (A → Cmd B) → Run B
  and_then (ok a s) k = k a s
  and_then fault k = fault
  and_then out_of_fuel k = out_of_fuel

  infixl 5 ◌>>=◌ ◌>>◌
  abbrev ◌>>=◌ : Cmd A → (A → Cmd B) → Cmd B
  m >>= k = λ s. and_then (m s) k

  abbrev ◌>>◌ : Cmd A → Cmd B → Cmd B
  m >> n = m >>= λ _. n

abbrev get_head : Cmd Ptr
get_head s = ok s.head s

-- The contents of the node at `p`.
pub read : Ptr → Cmd Node
read p s = if p == null then fault else elim (s.heap p) [ none ↦ fault | some n ↦ ok n s ]

abbrev pub put : Ptr → Option Node → Cmd (Unit {0})
put p c s = ok tt (record s { heap = write s.heap p c })

pub set_next : Ptr → Ptr → Cmd (Unit {0})
unfolding read
set_next p q = do n ← read p; put p (some (record n { next = q }))

pub set_pprev : Ptr → Back → Cmd (Unit {0})
unfolding read
set_pprev p b = do n ← read p; put p (some (record n { pprev = b }))

-- `*back = q`.
pub store : Back → Ptr → Cmd (Unit {0})
unfolding set_next
store at_head q s = ok tt (record s { head = q })
store (at_next p) q s = set_next p q s

pub kfree : Ptr → Cmd (Unit {0})
unfolding read
kfree p = read p >> put p none

-- What `kmalloc` hands out: the address, or `null`, and what the memory holds.
pub record Block : Type 0 where
  pub address : Ptr
  pub junk : Node

-- The last node behind `p`, or `p` itself if that is `null`. `fuel` bounds the length of the walk.
pub last : ℕ → Ptr → Cmd Ptr
unfolding read
last zero p = λ _. out_of_fuel
last (suc fuel) p =
    if p == null then pure p else do n ← read p; if n.next == null then pure p else last fuel n.next

-- `true` is the source's `fail`.
pub waitq_add : ℕ → Block → Ptr → Cmd Bool
unfolding last set_next set_pprev store read
waitq_add fuel new thread = if new.address == null then pure true else do
  put new.address (some new.junk)
  head ← get_head
  ptr ← last fuel head
  n ← read new.address
  put new.address (some (record n { next = null; thread = thread }))
  if ptr == null
      then (do store at_head new.address; set_pprev new.address at_head; pure false)
      else (do set_next ptr new.address; set_pprev new.address (at_next ptr); pure false)

pub waitq_remove : Cmd (Option Ptr)
unfolding read store kfree
waitq_remove = do
  ptr ← get_head
  if ptr == null
      then pure none
      else do n ← read ptr; store n.pprev n.next; kfree ptr; pure (some n.thread)

-- `*ptr->pprev = ptr->next; tmp = ptr; ptr = ptr->next; kfree(tmp)`: the new `ptr`.
unlink : Ptr → Cmd Ptr
unfolding read store kfree
unlink ptr = do n ← read ptr; store n.pprev n.next; m ← read ptr; kfree ptr; pure m.next

-- The loop of `waitq_cancel`. After the `continue` the loop's own step moves on once more.
cancel_loop : ℕ → Ptr → Ptr → Cmd (Unit {0})
unfolding read unlink
cancel_loop zero thread ptr = λ _. out_of_fuel
cancel_loop (suc fuel) thread ptr = if ptr == null then pure tt else do
  n ← read ptr
  next ← if n.thread == thread then unlink ptr else pure ptr
  after ← read next
  cancel_loop fuel thread after.next

pub waitq_cancel : ℕ → Ptr → Cmd (Unit {0})
unfolding cancel_loop
waitq_cancel fuel thread = do head ← get_head; cancel_loop fuel thread head
