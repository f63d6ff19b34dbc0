-- ===== src/Namehash.antt =====
-- lib/naming/namehash.c, the table of the naming service from absolute names to objects: how a name
-- is made absolute, and the hash table. `malloc` and the allocator of the table's object are code
-- of other files: whether they have memory is an argument.
pub mod Path
pub mod Table
