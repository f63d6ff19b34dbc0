-- ===== src/Tests/Semaphores.antt =====
-- One object's semaphores, with none, one or two threads waiting.
use mungi.Common.{ℕ, ◌≡◌, refl, Bool, true, false, some, List, [], ◌∷◌, arith}
use mungi.Common.Int.{ℤ, pos, negsuc, neg_part}
use mungi.Waitq.{Ptr, null, at_head, Heap, write, Block}
use mungi.Waitq.Chain.{nil}
use mungi.Semaphore.{Entry, Sem, State, Upcall, success, Ends, locate, sem_wait, sem_signal}
use mungi.Semaphore.Queue.{Tracks, Holds, Becomes}
use mungi.Semaphore.Wait.{sem_wait-blocks}
use mungi.Semaphore.Signal.{Served, sem_signal-wakes}
use mungi.Tests.Queues.{
  no_nodes, one_node, two_nodes, cell_100, cell_101, new_block, one_waits, two_wait,
}

abbrev entry : ℤ → Ptr → Entry
entry v q = record { address = 4096; value = v; waitq = q }

abbrev empty_entry : Entry
empty_entry = record { address = null; value = pos 0; waitq = null }

-- A second semaphore stands at 4104.
abbrev other_entry : Entry
other_entry = record { address = 4104; value = pos 1; waitq = null }

abbrev block_of : Entry → Sem
block_of e = record { count = pos 2; semaphores = other_entry ∷ e ∷ [] }

abbrev state_of : Entry → Heap → State
state_of e h = record { semp = some (block_of e); heap = h; sent = [] }

abbrev idle_entry : Entry
idle_entry = entry (pos 0) null

abbrev free_entry : Entry
free_entry = entry (pos 2) null

abbrev owed_one : Entry
owed_one = entry (negsuc 0) 8

abbrev owed_two : Entry
owed_two = entry (negsuc 1) 8

abbrev idle_state : State
idle_state = state_of idle_entry no_nodes

abbrev one_state : State
one_state = state_of owed_one one_node

abbrev two_state : State
two_state = state_of owed_two two_nodes

held : (e : Entry) (h : Heap) → e.address ≡ 4096 → Holds (state_of e h) 4096 (block_of e) 1 e
unfolding locate
held e h z = record { present = refl; found = ground arith }

idle-Tracks : (v : ℕ) → Tracks no_nodes (entry (pos v) null) []
idle-Tracks v = record { chain = nil; debt = refl }

one-Tracks : Tracks one_node owed_one (cell_100 ∷ [])
one-Tracks = record { chain = one_waits; debt = refl }

two-Tracks : Tracks two_nodes owed_two (cell_100 ∷ cell_101 ∷ [])
two-Tracks = record { chain = two_wait; debt = refl }

sem_wait-blocks_example :
    Ends
      (λ w s'.
        (w ≡ record { wait = true; retval = success })
        × Becomes s' 4096 (block_of owed_two) 1 (negsuc 2) (cell_100 ∷ cell_101 ∷ (24, 102) ∷ []))
      (sem_wait 10 new_block 4096 102 two_state)
unfolding write
sem_wait-blocks_example =
    sem_wait-blocks (held owed_two two_nodes refl) two-Tracks 10 102 new_block refl refl
      (omega arith) (omega arith)

abbrev no_block : Block
no_block = record { address = null; junk = record { thread = 0; next = 0; pprev = at_head } }

-- Replies that always arrive, and replies that never do.
abbrev arrives : List Upcall → Upcall → Bool
arrives log u = false

abbrev lost : List Upcall → Upcall → Bool
lost log u = true

sem_signal-wakes_example :
    Ends
      (λ r s'.
        (r ≡ success)
        × Served two_nodes [] 4096 (block_of owed_two) 1 cell_100 (cell_101 ∷ []) (negsuc 0) s'
        × (neg_part (negsuc 0) ≡ 1))
      (sem_signal arrives 4096 two_state)
sem_signal-wakes_example = sem_signal-wakes arrives (held owed_two two_nodes refl) two-Tracks refl

abbrev part_full : State
part_full = state_of empty_entry no_nodes

abbrev junk_block : Sem
junk_block = record { count = pos 7; semaphores = other_entry ∷ owed_one ∷ [] }
