-- ===== src/Lib.antt =====
-- Mungi, a single-address-space operating system on the L4 microkernel: a model of its kernel's
-- core, translated from kernel/src and the headers it uses, and of the table of names of the
-- user-level naming service (lib/naming).
--
-- A thread runs in a protection domain (APD), a table of C-lists of capabilities. A capability is
-- an object's address with a password. The kernel validates an access by looking for a capability
-- for the object in the domain's C-lists and for its password in the object; a validation cache
-- keeps what it finds. Objects also carry semaphores, whose waiters stand in wait queues.
--
--   Common    shared names, the tests on numbers, lists, arrays, integers, access rights, and code
--             that may fail an assert
--   Waitq     kernel/src/waitq.c: waitq_add, waitq_remove, waitq_cancel on a heap of queue nodes
--   Semaphore kernel/src/semaphore.c: sem_create, sem_wait, sem_signal, sem_delete
--   Vcache    kernel/src/vcache.c: vcache_flush, vcache_flush_addr, vcache_check, vcache_add
--   Object    kernel/src/objects.c: an object's passwords and public information, and its PDX slots
--             with object_pdx (Object/Entries); object_add, object_create and object_delete
--             over the table as a parameter (Object/Table)
--   Btree     kernel/lib/klibc/btree.c: BTSearch and BTModify in the tree of extents behind
--             the object table (Btree itself), BTIns with BTInsert and BTInsertPage (Btree/Insert),
--             BTDeletePage, BTCollapse and BTRedistribute (Btree/Share), BTDel with BTDelete
--             (Btree/Delete), the levels of a tree (Btree/Levels), an insertion and then its
--             deletion (Btree/Undo), the pool of pages, alloc_page and free_page (Btree/Pool), and
--             BTDel with the pages that it gives back (Btree/Given)
--   Pdxcache  kernel/src/pdxcache.c, with apd_pdx_cache_remove and apd_pdx_cache_check_id of
--             kernel/src/apd.c
--   Security  kernel/src/security.c: validate_cap, do_validate_passwd and its two parts
--             (Security itself), do_validate_obj (Security/Validate)
--   Apd       kernel/src/apd.c: apd_slot_insert, apd_slot_delete, apd_slot_lock, apd_get
--   Mm        kernel/src/mm.c: kmalloc_obj, kfree_obj and kmalloc_obj_addr (Mm/Addr) on the list of
--             free chunks
--   Pending   kernel/src/pending_requests.c: the table of pending requests
--   Ptable    kernel/src/vm/ptable.c: find_pte, add_pte with add_collision, invalidate_pte
--   Frames    kernel/src/vm/vm.c: the list of free frames, add_frame_to_list, alloc_frame_off_list
--             and alloc_frame
--   Faults    kernel/src/vm/vm.c and kernel/src/vm/rpager.c: the pending page faults, save_state and
--             ppf_map
--   Atob      kernel/lib/klibc/atob.c: _getbase, _atob, atob and llbtoa
--   Namehash  lib/naming/namehash.c: how a name is made absolute (Namehash/Path), and the hash table
--             from absolute names to values (Namehash/Table)
--   Tests     the theorems at concrete data
--
-- How state corresponds. Each operation of the kernel runs under a lock for its whole length, so an
-- operation is a function from the state before to the state after, and locks are left out; where a
-- path returns with its lock held (kfree_obj) the result says so. Pointers to queue nodes are
-- numbers, 0 is NULL, and the heap maps the addresses in use to nodes; reading or writing at an
-- address that is not in use is a fault. Fixed arrays are functions of the index, the validation
-- cache's array and the semaphores' are lists. An access_t is the number of its bits. A failed
-- assert is `panic`. int counters that may be negative are integers without overflow, as a
-- semaphore's value cannot reach the bounds of an int with fewer than 2^31 threads; sums of
-- addresses and differences of times wrap at 2^64. What is written into a bit field of the pager's
-- tables is cut to the field's width, and the pool's counters wrap at 2^32. Reading behind the pool's
-- bitmap, whose 31 words are too few for its 1000 pages, is `panic` as well. A node that kfree_obj has
-- freed but left in the list is still in the list of the model, marked `dangling`.
--
-- Parameters. The clock's readings, what kmalloc returns and what the memory holds, whether an IPC
-- is delivered (upcall_send), whether malloc and hmalloc have memory, the search of the object
-- table (object_find), its insertion and deletion, and user memory at the address of a C-list are
-- arguments of the operations. So is whether alloc_page finds a page for the split of a page at a
-- given depth, and what the first word of a page of the B+ tree is when BTInsertPage reads it as
-- the base of an object, and where in memory the pages of a tree are that BTDel gives back.
--
-- Fuel. Walks along a wait queue take fuel, one unit a node; a queue of n nodes needs n + 1 units.
-- The theorems ask for more fuel than the queue has nodes and show that the operation ends. The
-- binary searches in a page of the B+ tree are given one unit for each key, and the loop of llbtoa
-- as many as the value; they end with that. The loop of nh_compress takes as many rounds as there
-- are names, and the searches of alloc_page one for each page of the pool and each bit of a word.
-- The search of save_state has one unit for each entry of the table's second half,
-- alloc_frame_off_list is asked for one for each frame of the list. The walks along a chain of the
-- page table or of pending faults take fuel as well; what is stated of them holds for any.
--
-- Not modelled: object_resize; the heap below kmalloc;
-- the creation, merging and closing of domains; the set-up of the page tables from the boot image;
-- threads, system calls, the pager's message loops, the rest of the naming service, the C
-- libraries, the drivers and the applications. Threads, the pager and upcalls mostly drive the L4
-- microkernel; the C library is another project's.
pub mod Common
pub mod Apd
pub mod Atob
pub mod Btree
pub mod Faults
pub mod Frames
pub mod Mm
pub mod Namehash
pub mod Object
pub mod Pdxcache
pub mod Pending
pub mod Ptable
pub mod Security
pub mod Semaphore
pub mod Vcache
pub mod Waitq
pub mod Tests
