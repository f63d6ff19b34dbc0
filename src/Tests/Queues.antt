-- ===== src/Tests/Queues.antt =====
-- Wait queues and semaphores with one or two waiters.
use mungi.Common.{◌≡◌, refl, false, none, some, [], ◌∷◌, arith}
use mungi.Waitq.{Ptr, null, at_head, at_next, Heap, st, write, Block, waitq_add, waitq_remove}
use mungi.Waitq.Chain.{node, Chain, nil, cons, IsQueue, Returns}
use mungi.Waitq.Add.{Joined, waitq_add-append}
use mungi.Waitq.Remove.{Removed, waitq_remove-oldest}

abbrev pub no_nodes : Heap
no_nodes _ = none

abbrev pub one_node : Heap
one_node = write no_nodes 8 (some (node 100 null at_head))

-- The threads 100 and 101 wait, in the nodes at 8 and 16.
abbrev pub two_nodes : Heap
two_nodes =
    write (write no_nodes 8 (some (node 100 16 at_head))) 16 (some (node 101 null (at_next 8)))

abbrev pub cell_100 : Ptr × Ptr
cell_100 = (8, 100)

abbrev pub cell_101 : Ptr × Ptr
cell_101 = (16, 101)

pub one_waits : Chain one_node at_head 8 (cell_100 ∷ [])
unfolding write
one_waits = cons (record { ne_null = omega arith; content = refl }) refl nil

pub two_wait : IsQueue (st 8 two_nodes) (cell_100 ∷ cell_101 ∷ [])
unfolding write
two_wait =
    cons (record { ne_null = omega arith; content = refl }) refl
      (cons (record { ne_null = omega arith; content = refl }) refl nil)

abbrev pub new_block : Block
new_block = record { address = 24; junk = node 7 8 at_head }

waitq_add-append_example :
    Returns
      (λ failed s'. (failed ≡ false) × Joined (st 8 two_nodes) (cell_100 ∷ cell_101 ∷ []) 24 102 s')
      (waitq_add 10 new_block 102 (st 8 two_nodes))
unfolding write
waitq_add-append_example =
    waitq_add-append 10 new_block 102 two_wait refl (omega arith) (omega arith)

waitq_remove-oldest_example :
    Returns
      (λ r s'. (r ≡ some 100) × Removed (st 8 two_nodes) 8 (cell_101 ∷ []) s')
      (waitq_remove (st 8 two_nodes))
waitq_remove-oldest_example = waitq_remove-oldest two_wait
