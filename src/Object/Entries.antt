-- ===== src/Object/Entries.antt =====
-- The PDX slots of an object, in kernel/src/objects.c. The entry points of all slots stand in one
-- array; a slot has the range of its own. What lies behind an array is read as the array's further
-- elements.
use mungi.Common.{
  ℕ, zero, suc, ◌+◌, ◌-◌, ◌^◌, Bool, true, false, not, ◌||◌, ◌&&◌, Option, none, some, ◌==◌, leb,
  ltb, if◌then◌else◌,
}
use mungi.Common.Arrays.{update}
use mungi.Common.Checked.{Checked, done, panic, ◌>>=◌}
use mungi.Common.Int.{ℤ, pos, negsuc, inc, ltb_ℤ, eqb_ℤ, ◌+ℤ◌, ◌-ℤ◌, span, pos_part}
use mungi.Security.{entry_loop}
use mungi.Pdxcache.{Pdxcache, pdxcache_flush}
use mungi.Object.{Object, Cap, Pdx}

abbrev pub o_max_pdx : ℕ
o_max_pdx = 16

abbrev pub o_max_entpt : ℕ
o_max_entpt = 192

abbrev pub update_ℤ : (ℤ → ℕ) → ℤ → ℕ → ℤ → ℕ
update_ℤ f i v j = if eqb_ℤ j i then v else f j

-- `entry[i] = entry[i + diff]` for `rounds` rounds from `i` on.
pub move_down : (ℤ → ℕ) → ℤ → ℕ → ℤ → ℤ → ℕ
unfolding ◌+ℤ◌
move_down f diff zero i = f
move_down f diff (suc rounds) i = move_down (update_ℤ f i (f (i +ℤ diff))) diff rounds (inc i)

-- The arrays of the slots moved down by one from index `i` on.
pub move_slots : Pdx → ℤ → ℕ → ℕ → Pdx
unfolding ◌-ℤ◌
move_slots d diff zero i = d
move_slots d diff (suc rounds) i =
    move_slots
      (record d {
        n_entry = update d.n_entry i (d.n_entry (i + 1) -ℤ diff);
        x_entry = update d.x_entry i (d.x_entry (i + 1) -ℤ diff);
        clist = update d.clist i (d.clist (i + 1));
        passwd = update d.passwd i (d.passwd (i + 1));
      })
      diff rounds (i + 1)

-- The object without the slot, which is in use, and the PDX cache flushed.
unfoldable pub kill_pdx_slot : ℕ → Object → Pdxcache → Checked (Object × Pdxcache)
unfolding move_down move_slots span
kill_pdx_slot slot o cache =
    if leb o_max_pdx slot
    then panic
    else let diff = o.pdx.x_entry slot -ℤ o.pdx.n_entry slot in
      let rounds = span (o.pdx.n_entry slot) (pos o_max_entpt -ℤ diff) in
      let o' : Object = record o {
        pdx =
            move_slots
              (record o.pdx { entry = move_down o.pdx.entry diff rounds (o.pdx.n_entry slot) }) diff
              (o.n_pdx - slot) slot;
        n_pdx = o.n_pdx - 1;
      } in
      pdxcache_flush cache >>= (λ cache'. done (o', cache'))

-- The copy of the entry points, `rounds` of them from index `j`: the array afterwards, and whether
-- all of them lie in the object.
unfoldable pub copy_entries : Object → (ℕ → ℕ) → ℤ → ℕ → ℕ → (ℤ → ℕ) → (ℤ → ℕ) × Bool
copy_entries o entrypts next zero j f = (f, true)
copy_entries o entrypts next (suc rounds) j f =
    if ltb (entrypts j) o.base || ltb o.end (entrypts j)
    then (f, false)
    else copy_entries o entrypts next rounds (j + 1) (update_ℤ f (next +ℤ pos j) (entrypts j))

-- The index behind the entry points of the slots before.
abbrev pub next_entry : Object → ℕ → ℤ
next_entry o zero = pos 0
next_entry o (suc slot) = o.pdx.x_entry slot

-- The object afterwards, and whether it worked (`success`).
unfoldable pub set_pdx_slot : ℕ → ℤ → (ℕ → ℕ) → ℕ → Cap → Object → Checked (Object × Bool)
unfolding copy_entries
set_pdx_slot slot n entrypts passwd clist o =
    if leb o_max_pdx slot
    then panic
    else let next = next_entry o slot in
      if not (ltb_ℤ (next +ℤ n) (pos o_max_entpt))
      then done (o, false)
      else let (entry, inside) = copy_entries o entrypts next (pos_part n) 0 o.pdx.entry in
        if not inside
        then done (record o { pdx = record o.pdx { entry = entry } }, false)
        else done (
          record o {
            pdx = record {
              entry = entry;
              n_entry = update o.pdx.n_entry slot next;
              x_entry = update o.pdx.x_entry slot (next +ℤ n);
              clist = update o.pdx.clist slot clist;
              passwd = update o.pdx.passwd slot passwd;
            };
            n_pdx = o.n_pdx + 1;
          },
          true,
        )

-- The first slot in use with the password, `rounds` rounds from index `i`.
unfoldable pub find_pdx : Object → ℕ → ℕ → ℕ → Option ℕ
find_pdx o passwd zero i = none
find_pdx o passwd (suc rounds) i =
    if o.pdx.passwd i == passwd then some i else find_pdx o passwd rounds (suc i)

-- An `unsigned int` passed on as an `int`.
abbrev to_int : ℕ → ℤ
to_int n = if ltb n (2 ^ 31) then pos n else negsuc (2 ^ 32 - 1 - n)

-- What `object_pdx` does once no slot has the password.
unfoldable pub add_pdx : Object → ℕ → Cap → ℕ → (ℕ → ℕ) → Checked (Object × Bool)
add_pdx o passwd clist n entrypts =
    if leb o_max_pdx o.n_pdx
    then done (o, false)
    else if n == 0
    then done (o, true)
    else set_pdx_slot o.n_pdx (to_int n) entrypts passwd clist o

-- A slot with the password is deleted first. With no entry points that is all.
unfoldable pub object_pdx :
    Object → ℕ → Cap → ℕ → (ℕ → ℕ) → Pdxcache → Checked (Object × Pdxcache × Bool)
object_pdx o passwd clist n entrypts cache = elim (find_pdx o passwd o.n_pdx 0) [
  | none ↦ add_pdx o passwd clist n entrypts >>= λ (o', r). done (o', cache, r)
  | some i ↦ do
    (o', cache') ← kill_pdx_slot i o cache
    (o'', r) ← add_pdx o' passwd clist n entrypts
    done (o'', cache', r)
]

-- The loop of `object_pdx_get_clist` over the PDX slots from index `i` on: the last slot that has the
-- password and the entry point decides.
pub clist_loop : Object → ℕ → ℕ → ℕ → ℕ → Cap → Cap
unfolding span
clist_loop o proc passwd zero i clist = clist
clist_loop o proc passwd (suc rounds) i clist = clist_loop o proc passwd rounds (suc i) (
    if o.pdx.passwd i == passwd
      && entry_loop o proc (span (o.pdx.n_entry i) (o.pdx.x_entry i)) (o.pdx.n_entry i)
    then record { address = (o.pdx.clist i).address; passwd = passwd }
    else clist)

-- All 16 slots are looked at, also those not in use.
unfoldable pub object_pdx_get_clist : Object → ℕ → ℕ → Cap
unfolding clist_loop
object_pdx_get_clist o proc passwd =
    clist_loop o proc passwd o_max_pdx 0 (record { address = 0; passwd = 0 })
