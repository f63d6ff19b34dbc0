-- ===== src/Tests/Pager.antt =====
-- The frame list and the pending page faults at small tables.
use mungi.Common.{ℕ, ◌≡◌, refl, false, [], ◌∷◌, none, some, arith, ◌==◌, if◌then◌else◌}
use mungi.Common.Arrays.{Array, update}
use mungi.Frames.{Frame, Frames, add_frame_to_list, alloc_frame_off_list}
use mungi.Frames.Queue.{
  Queued, waiting, last, before, plain, add_frame_to_list-append, next_free, Allocated,
  alloc_frame_off_list-Allocated,
}
use mungi.Faults.{
  PendingFault, new_fault, save_state, save_behind, unused_entry, already_requested, set_collision,
}
use mungi.Faults.Slots.{Saves, save_state-Saves}
use mungi.Faults.Unserved.{Flat, Unserved, save_state-Unserved}

-- Frame 1 is reserved.
abbrev frame_to : ℕ → ℕ → Frame
frame_to next reserved = record {
  freelist = next;
  pagenum = 0;
  reference = 0;
  osrsrvd = reserved;
  dirty = 0;
  cow = 0;
}

abbrev two_frames : Frames
two_frames = record {
  max_ftable = 8;
  max_ctable = 2;
  fbase = 16;
  ftable = λ i. if i == 1 then frame_to 2 1 else frame_to 8 0;
  list = record { front = 1; back = 2 };
}

two_frames-Queued : Queued two_frames (1 ∷ 2 ∷ [])
two_frames-Queued = waiting (before 1 refl refl (last refl refl))

add_frame_to_list-append_example :
    Queued (add_frame_to_list two_frames 5) (1 ∷ 2 ∷ 5 ∷ [])
    × ((j : ℕ) → plain ((add_frame_to_list two_frames 5).ftable j) ≡ plain (two_frames.ftable j))
add_frame_to_list-append_example =
    add_frame_to_list-append two_frames (1 ∷ 2 ∷ []) 5 two_frames-Queued (refl, (refl, tt)) refl
      (omega arith) (omega arith)

alloc_frame_off_list-Allocated_example :
    Allocated two_frames (1 ∷ 2 ∷ []) (alloc_frame_off_list 3 two_frames)
alloc_frame_off_list-Allocated_example =
    alloc_frame_off_list-Allocated 3 two_frames (1 ∷ 2 ∷ []) two_frames-Queued (omega arith)

second_free : next_free two_frames.ftable (1 ∷ 2 ∷ []) ≡ some (2, [])
unfolding next_free
second_free = refl

abbrev idle : PendingFault
idle = record {
  faulter = 0;
  faultfor = 0;
  fault_page = 0;
  access = 0;
  valid = false;
  collision = none;
}

-- Pages 5 and 1029 have one place.
abbrev two_faults : Array PendingFault
two_faults = update (update (λ i. idle) 5 (new_fault 3 3 5 1)) 1024 (new_fault 4 4 1029 1)

two_faults-Flat : Flat two_faults
unfolding update
two_faults-Flat j h = ground (arith, h)

third_free : (two_faults 1025).valid ≡ false
unfolding update
third_free = refl

save_state-Saves_example :
    Saves two_faults 1029 (new_fault 9 9 1029 1) (save_state two_faults 9 9 1029 1)
save_state-Saves_example =
    save_state-Saves two_faults 9 9 1029 1 1025 (omega arith) (omega arith) third_free

abbrev three_faults : Array PendingFault
three_faults =
    set_collision (update (set_collision two_faults 5 1025) 1025 (new_fault 9 9 1029 1)) 5 1025

save_third : save_state two_faults 9 9 1029 1 ≡ some (already_requested, three_faults)
unfolding save_state save_behind unused_entry update
save_third = refl

save_state-Unserved_example :
    (a : ℕ) × (i : ℕ) × Unserved three_faults 7 1029 a i (new_fault 9 9 1029 1)
unfolding update
save_state-Unserved_example =
    save_state-Unserved two_faults three_faults 9 9 1029 1 1025 7 two_faults-Flat refl (omega arith)
      (omega arith) third_free save_third
