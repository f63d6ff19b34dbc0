-- ===== src/Object/Table.antt =====
-- The life of an object in kernel/src/objects.c: its storage from kernel/src/mm.c and its entry in the
-- object table.
use mungi.Common.{ℕ, Bool, true, false, Option, none, some, List, if◌then◌else◌}
use mungi.Common.Arrays.{update}
use mungi.Common.Bits.{m_owner, sub64}
use mungi.Common.Checked.{Checked, done, ◌>>=◌}
use mungi.Object.{Object}
use mungi.Mm.{Chunk, add64, kmalloc_obj, kfree_obj}

-- The object that `object_add` fills in; the rest of its memory, which is not cleared, is `junk`.
abbrev new_object : Object → ℕ → ℕ → ℕ → Object
new_object junk addr length passwd = record junk {
  base = addr;
  end = add64 addr length;
  info = record junk.info { length = length };
  n_caps = 1;
  passwd = update junk.passwd 0 passwd;
  rights = update junk.rights 0 m_owner;
}

-- The free storage and the object table.
pub record Store (Table : Type 0) : Type 0 where
  pub chunks : List Chunk
  pub table : Table

-- `bt_ins` and `bt_del` are the table's insertion and deletion; they return whether they succeed.
module _ {Table : Type 0} (bt_ins : Table → Object → Table × Bool)
    (bt_del : Table → ℕ → Table × Option Object) where
  -- `block` is what `kmalloc` returns.
  pub object_add : Option Object → ℕ → ℕ → ℕ → Table → Table × Option Object
  object_add none addr length passwd t = (t, none)
  object_add (some junk) addr length passwd t =
      let o = new_object junk addr length passwd in
      let (t', ok) = bt_ins t o in if ok then (t', some o) else (t', none)

  -- `node` says whether `kfree_obj` gets memory for a list node.
  unfoldable pub object_create :
      Option Object → Bool → ℕ → ℕ → Store Table → Checked (Store Table × Option Object)
  unfolding object_add
  object_create block node length passwd s = kmalloc_obj length s.chunks >>= λ r. elim r [
    | none ↦ done (s, none)
    | some (base, chunks) ↦
        let (t', o) = object_add block base length passwd s.table in
        elim o [
          | some o ↦ done (record { chunks = chunks; table = t' }, some o)
          | none ↦ do
            f ← kfree_obj node base length chunks
            done (record { chunks = f.chunks; table = t' }, none)
        ]
  ]

  -- The store afterwards and whether the object was found (`success`).
  unfoldable pub object_delete : Bool → ℕ → Store Table → Checked (Store Table × Bool)
  object_delete node addr s =
      let (t', r) = bt_del s.table addr in
      elim r [
        | none ↦ done (record s { table = t' }, false)
        | some o ↦ do
          f ← kfree_obj node o.base (sub64 o.end o.base) s.chunks
          done (record { chunks = f.chunks; table = t' }, true)
      ]
