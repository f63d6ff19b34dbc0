-- ===== src/Namehash/Path/Compress.antt =====
-- `nh_compress` of lib/naming/namehash.c.
use mungi.Common.{
  ℕ, zero, suc, ◌+◌, ◌-◌, ◌≤◌, ◌≡◌, refl, ◌∙◌, true, false, List, [], ◌∷◌, ◌++◌, arith, some,
  length, get_elem?, take, drop, Bool-cases, inl, inr, ltb,
}
use mungi.Common.Strings.{same}
use mungi.Namehash.Path.{Name, dot, dot_dot, nh_squash, compress_from, nh_compress}

-- The names of a stack, its top last, in front of other names.
unfoldable pub unwind : List Name → List Name → List Name
unwind [] ws = ws
unwind (x ∷ st) ws = unwind st (x ∷ ws)

-- The stack without its top; the root has no parent but itself.
abbrev pub pop : List Name → List Name
pop [] = []
pop (x ∷ st) = st

-- Where a walk along the names ends that starts at the directories of the stack: `.` stays, `..`
-- goes up, any other name goes down.
unfoldable pub walk : List Name → List Name → List Name
walk st [] = st
walk st (w ∷ ws) = elim (same w dot) [
  | true ↦ walk st ws
  | false ↦ elim (same w dot_dot) [ true ↦ walk (pop st) ws | false ↦ walk (w ∷ st) ws ]
]

-- The names from the root on of where a walk from the root ends.
unfoldable pub resolve : List Name → List Name
resolve ws = unwind (walk [] ws) []

get_elem?-unwind :
    (st ws : List Name) (i : ℕ) → get_elem? (unwind st ws) (length st + i) ≡ get_elem? ws i
unfolding unwind
get_elem?-unwind [] ws i = let z : 0 + i ≡ i = omega arith in rw z
get_elem?-unwind (x ∷ st) ws i =
    let e : suc (length st) + i ≡ length st + suc i = omega arith in
    rw (e, get_elem?-unwind st (x ∷ ws) (suc i))

drop-unwind : (st ws : List Name) (i : ℕ) → drop (length st + i) (unwind st ws) ≡ drop i ws
unfolding unwind
drop-unwind [] ws i = let z : 0 + i ≡ i = omega arith in rw z
drop-unwind (x ∷ st) ws i =
    let e : suc (length st) + i ≡ length st + suc i = omega arith in
    rw (e, drop-unwind st (x ∷ ws) (suc i))

take-unwind :
    (st ws : List Name) (i : ℕ) → take (length st + i) (unwind st ws) ≡ unwind st (take i ws)
unfolding unwind
take-unwind [] ws i = let z : 0 + i ≡ i = omega arith in rw z
take-unwind (x ∷ st) ws i =
    let e : suc (length st) + i ≡ length st + suc i = omega arith in
    rw (e, take-unwind st (x ∷ ws) (suc i))

unwind-append : (st ws vs : List Name) → unwind st ws ++ vs ≡ unwind st (ws ++ vs)
unfolding unwind
unwind-append [] ws vs = refl
unwind-append (x ∷ st) ws vs = unwind-append st (x ∷ ws) vs

-- The entries up to the stack's top stay, some entries behind it go.
squash :
    (st vs ws : List Name) (start total count k : ℕ)
    → start + 1 ≤ total
    → start - (count - 1) ≡ length st
    → start + 1 ≡ length st + k
    → drop k vs ≡ ws
    → nh_squash (unwind st vs) start total count ≡ unwind st ws
unfolding nh_squash
squash st vs ws start total count k h e f g =
    let m2 : ltb total (start + 1) ≡ false = ground arith in
    let m1 : length st ≡ length st + 0 = omega arith in
    rw (m2, e ∙ m1, f, take-unwind st vs 0, drop-unwind st vs k, unwind-append st [] (drop k vs), g)

length-pop : (st : List Name) → length (pop st) ≡ length st - 1
length-pop [] = refl
length-pop (x ∷ st) = omega arith

-- `..` and the name in front of it go, at the root only `..`.
squash_top :
    (cur num : ℕ) (st : List Name) (w : Name) (ws : List Name)
    → cur ≡ length st
    → num ≡ length st + suc (length ws)
    → nh_squash (unwind st (w ∷ ws)) cur num 2 ≡ unwind (pop st) ws
unfolding unwind
squash_top cur num [] w ws e f =
    squash [] (w ∷ ws) ws cur num 2 1 (omega (arith, e, f)) (omega (arith, e)) (omega (arith, e))
      refl
squash_top cur num (x ∷ st) w ws e f =
    squash st (x ∷ w ∷ ws) ws cur num 2 2 (omega (arith, e, f)) (omega (arith, e))
      (omega (arith, e)) refl

-- The name behind the stack, as the loop reads it.
found :
    (cur : ℕ) (st : List Name) (w : Name) (ws : List Name)
    → cur ≡ length st
    → get_elem? (unwind st (w ∷ ws)) cur ≡ some w
found cur st w ws e =
    let k : cur ≡ length st + 0 = omega (arith, e) in rw (k, get_elem?-unwind st (w ∷ ws) 0)

-- One round at `..`, with the index and the number of names afterwards.
compress_from-up :
    (n cur num : ℕ) (st : List Name) (w : Name) (ws : List Name)
    → cur ≡ length st
    → num ≡ length st + suc (length ws)
    → same w dot ≡ false
    → same w dot_dot ≡ true
    → (c m : ℕ) × (c ≡ length (pop st))
      × (m ≡ length (pop st) + length ws)
      × (compress_from (suc n) cur num (unwind st (w ∷ ws))
          ≡ compress_from n c m (unwind (pop st) ws))
unfolding compress_from
compress_from-up n cur num st w ws e f here up =
    let next = found cur st w ws e in
    let gone = squash_top cur num st w ws e f in
    let shorter = length-pop st in
    elim (Bool-cases (ltb 0 cur)) [
      | inl inside ↦ (
        cur - 1,
        num - 2,
        ground (arith, shorter, e),
        ground (arith, shorter, e, f),
        rw (compress_from, next, here, up, inside, gone),
      )
      | inr root ↦ (
        cur,
        num - 1,
        ground (arith, shorter, e),
        ground (arith, shorter, e, f),
        rw (compress_from, next, here, up, root, gone),
      )
    ]

-- The loop at the names `ws` behind the stack `st`.
compress_from-walk :
    (n cur num : ℕ) (st ws : List Name)
    → length ws ≤ n
    → cur ≡ length st
    → num ≡ length st + length ws
    → compress_from n cur num (unwind st ws) ≡ unwind (walk st ws) []
unfolding compress_from walk unwind
compress_from-walk zero cur num st [] h e f = refl
compress_from-walk zero cur num st (w ∷ ws) h e f = ground (arith, h)
compress_from-walk (suc n) cur num st [] h e f =
    let k : cur ≡ length st + 0 = omega (arith, e) in
    rw (compress_from, k, get_elem?-unwind st [] 0)
compress_from-walk (suc n) cur num st (w ∷ ws) h e f =
    let next = found cur st w ws e in
    elim (Bool-cases (same w dot)) [
      | inl here ↦
          let gone : nh_squash (unwind st (w ∷ ws)) cur num 1 ≡ unwind st ws =
            squash st (w ∷ ws) ws cur num 1 1 (omega (arith, e, f)) (omega (arith, e))
              (omega (arith, e)) refl in
          let later =
            compress_from-walk n cur (num - 1) st ws (omega (arith, h)) e (omega (arith, e, f)) in
          rw (compress_from, walk, next, here, gone, later)
      | inr not_here ↦ elim (Bool-cases (same w dot_dot)) [
        | inl up ↦
            let (c, m, e', f', step) = compress_from-up n cur num st w ws e f not_here up in
            let later = compress_from-walk n c m (pop st) ws (omega (arith, h)) e' f' in
            step ∙ rw (walk, not_here, up, later)
        | inr down ↦
            let later =
              compress_from-walk n (cur + 1) num (w ∷ st) ws (omega (arith, h)) (omega (arith, e))
                (omega (arith, e, f)) in
            rw (compress_from, walk, next, not_here, down, later)
      ]
    ]

-- What nh_compress leaves of a list of names is where a walk along them ends that starts at the
-- root: the array that is squashed in place and a stack of directories give the same names. Its
-- loop ends within as many rounds as there are names.
pub nh_compress-resolve : (names : List Name) → nh_compress names ≡ resolve names
unfolding nh_compress resolve unwind
nh_compress-resolve names =
    compress_from-walk (length names) 0 (length names) [] names (omega arith) refl (omega arith)
