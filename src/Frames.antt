-- ===== src/Frames.antt =====
-- kernel/src/vm/vm.c: the frame table and the list of free frames in it. What is written into a bit
-- field is cut to its width, and the lock bits are left out.
pub mod Queue
use mungi.Common.{ℕ, zero, suc, ◌+◌, ◌%◌, ◌^◌, Option, none, some, ◌==◌, if◌then◌else◌}
use mungi.Common.Arrays.{Array, update}
use mungi.Common.Checked.{Checked, done, panic, ◌>>=◌}

-- `frame_table_t`.
pub record Frame : Type 0 where
  pub freelist : ℕ
  pub pagenum : ℕ
  pub reference : ℕ
  pub osrsrvd : ℕ
  pub dirty : ℕ
  pub cow : ℕ

-- `freelist`.
pub record FreeList : Type 0 where
  pub front : ℕ
  pub back : ℕ

-- The frame table with the list, and the constants of the start: `MAX_FTABLE`, `MAX_CTABLE` and
-- `fbase`.
pub record Frames : Type 0 where
  pub max_ftable : ℕ
  pub max_ctable : ℕ
  pub fbase : ℕ
  pub ftable : Array Frame
  pub list : FreeList

abbrev pub list_end : Frames → ℕ
list_end s = s.max_ftable

-- `NO_FREE_FRAMES`, which is the end of the collision table's list.
abbrev pub no_free_frames : Frames → ℕ
no_free_frames s = s.max_ctable

-- `freelist` has 20 bits.
abbrev pub set_link : Array Frame → ℕ → ℕ → Array Frame
set_link ftable i next = update ftable i (record (ftable i) { freelist = next % 2 ^ 20 })

-- `add_frame_to_list`, for an `unsigned int`. `front` and `back` have 31 bits.
unfoldable pub add_frame_to_list : Frames → ℕ → Frames
add_frame_to_list s pfno =
    if s.list.front == list_end s
    then record s {
      ftable = set_link s.ftable pfno (list_end s);
      list = record { front = pfno % 2 ^ 31; back = pfno % 2 ^ 31 };
    }
    else record s {
      ftable = set_link (set_link s.ftable s.list.back pfno) pfno (list_end s);
      list = record { front = s.list.front; back = pfno % 2 ^ 31 };
    }

-- `alloc_frame_off_list`: the index and the frames, with fuel for the rounds of its loop; out of fuel
-- there is no result.
unfoldable pub alloc_frame_off_list : ℕ → Frames → Option (ℕ × Frames)
alloc_frame_off_list zero s = none
alloc_frame_off_list (suc fuel) s =
    let find = s.list.front in
    let rest = record s {
      list = record { front = (s.ftable find).freelist; back = s.list.back };
    } in
    if find == list_end s
    then some (no_free_frames s, s)
    else if (s.ftable find).osrsrvd == 0
    then some (find, rest)
    else alloc_frame_off_list fuel rest

-- `alloc_frame`: the frame's number. A failed assert is `panic`.
unfoldable pub alloc_frame : ℕ → Frames → ℕ → ℕ → ℕ → Option (Checked (ℕ × Frames))
alloc_frame fuel s vpno osrsrvd dirty = elim (alloc_frame_off_list fuel s) [
  | none ↦ none
  | some (find, rest) ↦ some (
      if find == no_free_frames s
      then panic
      else done (
        (find + s.fbase) % 2 ^ 32,
        record rest {
          ftable = update rest.ftable find (record (rest.ftable find) {
            pagenum = vpno % 2 ^ 28;
            reference = 1;
            osrsrvd = osrsrvd % 2;
            dirty = dirty % 2;
          });
        },
      ))
]
