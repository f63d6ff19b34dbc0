-- ===== src/Frames/Queue.antt =====
-- The list of free frames of kernel/src/vm/vm.c is a queue.
use mungi.Common.{
  if◌then◌else◌, ℕ, zero, suc, ◌<◌, ◌%◌, ◌^◌, ◌≡◌, refl, sym, ◌∙◌, true, false, List, [], ◌∷◌, ◌++◌,
  length, Option, some, none, arith, ◌==◌, Bool-cases, inl, inr, ◌⊎◌,
}
use mathlib.Core.Path.{subst}
use mungi.Common.Arrays.{Array, update}
use mungi.Common.Checked.{panic}
use mungi.Frames.{
  Frame, Frames, list_end, no_free_frames, set_link, add_frame_to_list, alloc_frame_off_list,
  alloc_frame,
}

-- The frames of a list that is not empty, from the index on.
pub data Listed (f : Array Frame) (end back : ℕ) : ℕ → List ℕ → Type 0 where
  last : (back == end) ≡ false → (f back).freelist ≡ end → Listed f end back back (back ∷ [])
  before :
      (i : ℕ) {xs : List ℕ}
      → (i == end) ≡ false
      → (i == back) ≡ false
      → Listed f end back (f i).freelist xs
      → Listed f end back i (i ∷ xs)

pub data Queued (s : Frames) : List ℕ → Type 0 where
  empty : s.list.front ≡ list_end s → Queued s []
  waiting : {xs : List ℕ} → Listed s.ftable (list_end s) s.list.back s.list.front xs → Queued s xs

abbrev pub Absent : ℕ → List ℕ → Type 0
Absent n [] = Unit {0}
Absent n (x ∷ xs) = ((x == n) ≡ false) × Absent n xs

add-Listed :
    (f : Array Frame) (end back n i : ℕ) (xs : List ℕ)
    → n < 2 ^ 20
    → end < 2 ^ 20
    → (n == end) ≡ false
    → Listed f end back i xs
    → Absent n xs
    → Listed (set_link (set_link f back n) n end) end n i (xs ++ n ∷ [])
unfolding update
add-Listed f end back n i _ small few new (last in_list e) (away, _) =
    let whole : n % 2 ^ 20 ≡ n = omega (arith, small) in
    let whole' : end % 2 ^ 20 ≡ end = omega (arith, few) in
    let g = set_link (set_link f back n) n end in
    let next : n ≡ (g back).freelist = ground (arith, whole) in
    let there : (g n).freelist ≡ end = ground (arith, whole') in
    before back in_list away (subst (λ j. Listed g end n j (n ∷ [])) next (last new there))
add-Listed f end back n i _ small few new (before _ {xs} in_list apart t) (away, rest) =
    let g = set_link (set_link f back n) n end in
    let next : (f i).freelist ≡ (g i).freelist = ground arith in
    before i in_list away (
      subst (λ j. Listed g end n j (xs ++ n ∷ [])) next
        (add-Listed f end back n (f i).freelist xs small few new t rest))

front-Listed :
    (f : Array Frame) (end back i : ℕ) (xs : List ℕ) → Listed f end back i xs → (i == end) ≡ false
front-Listed f end back i _ (last in_list e) = in_list
front-Listed f end back i _ (before _ in_list apart t) = in_list

-- What a frame is, but for its link.
abbrev pub plain : Frame → Frame
plain f = record f { freelist = 0 }

plain-set_link : (f : Array Frame) (i next j : ℕ) → plain (set_link f i next j) ≡ plain (f j)
unfolding update
plain-set_link f i next j = elim (Bool-cases (j == i)) [
  | inl same ↦ let z : j ≡ i = ground arith in rw (same, z)
  | inr apart ↦ rw apart
]

plain_add : (s : Frames) (n j : ℕ) → plain ((add_frame_to_list s n).ftable j) ≡ plain (s.ftable j)
unfolding add_frame_to_list
plain_add s n j = elim (Bool-cases (s.list.front == list_end s)) [
  | inl none_left ↦ rw (add_frame_to_list, none_left) (plain-set_link s.ftable n (list_end s) j)
  | inr some_left ↦
      rw (add_frame_to_list, some_left)
        (plain-set_link (set_link s.ftable s.list.back n) n (list_end s) j
          ∙ plain-set_link s.ftable s.list.back n j)
]

-- A frame that is not in the list goes to its end, and only the links change. The frame's number
-- and the mark for the end of the list are below 2^20, the range of a link.
pub add_frame_to_list-append :
    (s : Frames) (xs : List ℕ) (n : ℕ)
    → Queued s xs
    → Absent n xs
    → (n == list_end s) ≡ false
    → n < 2 ^ 20
    → list_end s < 2 ^ 20
    → Queued (add_frame_to_list s n) (xs ++ n ∷ [])
      × ((j : ℕ) → plain ((add_frame_to_list s n).ftable j) ≡ plain (s.ftable j))
unfolding add_frame_to_list update
add_frame_to_list-append s xs n q away new small few = (go xs q away, plain_add s n)
  where
    go : (ys : List ℕ) → Queued s ys → Absent n ys → Queued (add_frame_to_list s n) (ys ++ n ∷ [])
    go _ (empty e) a =
        let t : (s.list.front == list_end s) ≡ true = ground arith in
        let number : n % 2 ^ 31 ≡ n = omega (arith, small) in
        let there : list_end s % 2 ^ 20 ≡ list_end s = omega (arith, few) in
        rw (add_frame_to_list, t, number) (waiting (last new (ground (arith, there))))
    go ys (waiting l) a =
        let number : n % 2 ^ 31 ≡ n = omega (arith, small) in
        rw
          (
            add_frame_to_list,
            front-Listed s.ftable (list_end s) s.list.back s.list.front ys l,
            number,
          )
          (waiting
            (add-Listed s.ftable (list_end s) s.list.back n s.list.front ys small few new l a))

-- The first frame of the list that is not reserved, and the frames behind it.
unfoldable pub next_free : Array Frame → List ℕ → Option (ℕ × List ℕ)
next_free f [] = none
next_free f (x ∷ xs) = if (f x).osrsrvd == 0 then some (x, xs) else next_free f xs

-- What `alloc_frame_off_list` may give: the code for none, and an empty list, or the first frame that
-- is not reserved, and the list behind it. The frames stay as they are.
pub data Allocated (s : Frames) (xs : List ℕ) : Option (ℕ × Frames) → Type 0 where
  no_frame :
      {u : Frames}
      → next_free s.ftable xs ≡ none
      → Queued u []
      → u.ftable ≡ s.ftable
      → Allocated s xs (some (no_free_frames s, u))
  first :
      {x : ℕ} {rest : List ℕ} {u : Frames}
      → next_free s.ftable xs ≡ some (x, rest)
      → Queued u rest
      → u.ftable ≡ s.ftable
      → Allocated s xs (some (x, u))

abbrev popped : Frames → Frames
popped s = record s {
  list = record { front = (s.ftable s.list.front).freelist; back = s.list.back };
}

front_of :
    (f : Array Frame) (end back i x : ℕ) (xs : List ℕ)
    → Listed f end back i (x ∷ xs)
    → (i ≡ x)
      × ((x == end) ≡ false)
      × (((xs ≡ []) × ((f i).freelist ≡ end)) ⊎ Listed f end back (f i).freelist xs)
front_of f end back i x _ (last in_list e) = (refl, in_list, inl (refl, e))
front_of f end back i x _ (before _ in_list apart t) = (refl, in_list, inr t)

popped-Queued :
    (s : Frames) (x : ℕ) (xs : List ℕ)
    → Queued s (x ∷ xs)
    → (s.list.front ≡ x) × ((x == list_end s) ≡ false) × Queued (popped s) xs
popped-Queued s x xs (waiting l) =
    let (z, in_list, rest) = front_of s.ftable (list_end s) s.list.back s.list.front x xs l in
    (
      z,
      in_list,
      elim rest [
        | inl (nil, e) ↦ subst (Queued (popped s)) (sym nil) (empty e)
        | inr t ↦ waiting t
      ],
    )

nobody : (s : Frames) → Queued s [] → s.list.front ≡ list_end s
nobody s (empty e) = e
nobody s (waiting l) = elim l [ ]

-- With fuel for each frame of the list alloc_frame_off_list ends: it gives the first frame that is
-- not reserved, and leaves the list behind it; or the code for none, and an empty list, if there
-- is none.
pub alloc_frame_off_list-Allocated :
    (fuel : ℕ) (s : Frames) (xs : List ℕ)
    → Queued s xs
    → length xs < fuel
    → Allocated s xs (alloc_frame_off_list fuel s)
unfolding alloc_frame_off_list next_free
alloc_frame_off_list-Allocated zero s xs q h = absurd (omega (arith, h))
alloc_frame_off_list-Allocated (suc fuel) s [] q h =
    let t : (s.list.front == list_end s) ≡ true = ground (arith, nobody s q) in
    rw (alloc_frame_off_list, t) (no_frame refl q refl)
alloc_frame_off_list-Allocated (suc fuel) s (x ∷ xs) q h =
    let (z, in_list, r) = popped-Queued s x xs q in
    let t : (s.list.front == list_end s) ≡ false = rw z in_list in
    elim (Bool-cases ((s.ftable x).osrsrvd == 0)) [
      | inl free ↦
          let u : ((s.ftable s.list.front).osrsrvd == 0) ≡ true = rw z free in
          rw (alloc_frame_off_list, t, u) (first (rw (next_free, free, z) refl) r refl)
      | inr taken ↦
          let u : ((s.ftable s.list.front).osrsrvd == 0) ≡ false = rw z taken in
          rw (alloc_frame_off_list, t, u)
            (later taken (alloc_frame_off_list-Allocated fuel (popped s) xs r (omega (arith, h))))
    ]
  where
    later :
        {y : Option (ℕ × Frames)}
        → ((s.ftable x).osrsrvd == 0) ≡ false
        → Allocated (popped s) xs y
        → Allocated s (x ∷ xs) y
    later taken (no_frame e q' same) = no_frame (rw (next_free, taken) e) q' same
    later taken (first e q' same) = first (rw (next_free, taken) e) q' same

-- Where the first frame of the list that is not reserved is the one that has the number of entries
-- of the collision table as its number, alloc_frame fails its assert, as if there were none. The
-- fuel is enough for the list.
alloc_frame-panics :
    (fuel : ℕ) (s : Frames) (xs rest : List ℕ) (vpno osrsrvd dirty : ℕ)
    → Queued s xs
    → length xs < fuel
    → next_free s.ftable xs ≡ some (s.max_ctable, rest)
    → alloc_frame fuel s vpno osrsrvd dirty ≡ some panic
unfolding alloc_frame
alloc_frame-panics fuel s xs rest vpno osrsrvd dirty q h e =
    go (alloc_frame_off_list fuel s) refl (alloc_frame_off_list-Allocated fuel s xs q h)
  where
    go :
        (y : Option (ℕ × Frames))
        → alloc_frame_off_list fuel s ≡ y
        → Allocated s xs y
        → alloc_frame fuel s vpno osrsrvd dirty ≡ some panic
    go _ z (no_frame f q' same) = ground (arith, e, f)
    go _ z (first {x} f q' same) =
        let c : (x == no_free_frames s) ≡ true = ground (arith, e, f) in rw (alloc_frame, z, c)
