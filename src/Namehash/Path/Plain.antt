-- ===== src/Namehash/Path/Plain.antt =====
-- The names that the functions of lib/naming/namehash.c take apart and put together.
use mungi.Common.{
  ◌≡◌, refl, Bool, true, false, not, ◌&&◌, List, [], ◌∷◌, ◌++◌, arith, ◌==◌, Bool-cases, inl, inr,
}
use mungi.Common.Strings.{same}
use mungi.Namehash.Path.{Name, slash, dot, dot_dot, cat_tokens}
use mungi.Namehash.Path.Tokens.{add_part, parts, words}
use mungi.Namehash.Path.Compress.{unwind, pop, walk, resolve}

unfoldable pub no_slash : Name → Bool
no_slash [] = true
no_slash (c ∷ s) = not (c == slash) && no_slash s

-- One name between slashes.
unfoldable pub is_word : Name → Bool
is_word [] = false
is_word (c ∷ s) = no_slash (c ∷ s)

-- Such a name that is neither `.` nor `..`.
unfoldable pub is_plain : Name → Bool
is_plain w = is_word w && not (same w dot) && not (same w dot_dot)

unfoldable pub all : (Name → Bool) → List Name → Bool
all p [] = true
all p (w ∷ ws) = p w && all p ws

all-add_part :
    (w : Name) (ws : List Name)
    → no_slash w ≡ true
    → all is_word ws ≡ true
    → all is_word (add_part w ws) ≡ true
unfolding all is_word
all-add_part [] ws h k = k
all-add_part (c ∷ w) ws h k = rw (h, k)

parts-words : (s : Name) → (no_slash (parts s).0 ≡ true) × (all is_word (parts s).1 ≡ true)
unfolding parts no_slash all
parts-words [] = (refl, refl)
parts-words (c ∷ s) =
    let (h, k) = parts-words s in
    elim (Bool-cases (c == slash)) [
      | inl e ↦ (rw (parts, e), rw (parts, e, all-add_part (parts s).0 (parts s).1 h k))
      | inr e ↦ (rw (parts, e, no_slash, e, h), rw (parts, e, k))
    ]

pub all-words : (s : Name) → all is_word (words s) ≡ true
unfolding words
all-words s = let (h, k) = parts-words s in all-add_part (parts s).0 (parts s).1 h k

all-unwind :
    (st ws : List Name)
    → all is_plain st ≡ true
    → all is_plain ws ≡ true
    → all is_plain (unwind st ws) ≡ true
unfolding unwind all
all-unwind [] ws h k = k
all-unwind (x ∷ st) ws h k = all-unwind st (x ∷ ws) (ground arith) (ground (arith, k))

all-pop : (st : List Name) → all is_plain st ≡ true → all is_plain (pop st) ≡ true
unfolding all
all-pop [] h = h
all-pop (x ∷ st) h = ground arith

all-walk :
    (st ws : List Name)
    → all is_plain st ≡ true
    → all is_word ws ≡ true
    → all is_plain (walk st ws) ≡ true
unfolding walk all is_plain
all-walk st [] h k = h
all-walk st (w ∷ ws) h k = elim (Bool-cases (same w dot)) [
  | inl here ↦ rw (walk, here, all-walk st ws h (ground arith))
  | inr not_here ↦ elim (Bool-cases (same w dot_dot)) [
    | inl up ↦ rw (walk, not_here, up, all-walk (pop st) ws (all-pop st h) (ground arith))
    | inr down ↦
        rw (walk, not_here, down, all-walk (w ∷ st) ws (ground (arith, h, k)) (ground arith))
  ]
]

pub all-resolve : (ws : List Name) → all is_word ws ≡ true → all is_plain (resolve ws) ≡ true
unfolding resolve all
all-resolve ws h = all-unwind (walk [] ws) [] (all-walk [] ws refl h) refl

-- Plain names are resolved already.
walk-plain : (st ws : List Name) → all is_plain ws ≡ true → unwind (walk st ws) [] ≡ unwind st ws
unfolding walk unwind all is_plain
walk-plain st [] h = refl
walk-plain st (w ∷ ws) h =
    let here : same w dot ≡ false = ground arith in
    let up : same w dot_dot ≡ false = ground arith in
    rw (walk, here, up, walk-plain (w ∷ st) ws (ground arith))

pub resolve-plain : (ws : List Name) → all is_plain ws ≡ true → resolve ws ≡ ws
unfolding resolve unwind
resolve-plain ws h = walk-plain [] ws h

pub all-weaken : (ws : List Name) → all is_plain ws ≡ true → all is_word ws ≡ true
unfolding all is_plain
all-weaken [] h = refl
all-weaken (w ∷ ws) h = ground (arith, all-weaken ws)

-- A name without slashes in front of a text that starts with one or is empty.
parts-name :
    (w t : Name) (ws : List Name)
    → no_slash w ≡ true
    → parts t ≡ ([], ws)
    → parts (w ++ t) ≡ (w, ws)
unfolding no_slash parts
parts-name [] t ws h e = e
parts-name (c ∷ w) t ws h e =
    let k : (c == slash) ≡ false = ground arith in
    let later : parts (w ++ t) ≡ (w, ws) = parts-name w t ws (ground arith) e in
    rw (parts, k, later)

add_part-word : (w : Name) (ws : List Name) → is_word w ≡ true → add_part w ws ≡ w ∷ ws
unfolding is_word
add_part-word [] ws h = ground arith
add_part-word (c ∷ w) ws h = refl

no_slash-word : (w : Name) → is_word w ≡ true → no_slash w ≡ true
unfolding is_word
no_slash-word [] h = ground arith
no_slash-word (c ∷ w) h = h

parts-cat : (ws : List Name) → all is_word ws ≡ true → parts (cat_tokens false ws) ≡ ([], ws)
unfolding parts cat_tokens all
parts-cat [] h = refl
parts-cat (w ∷ ws) h =
    let k : is_word w ≡ true = ground arith in
    let later =
      parts-name w (cat_tokens false ws) ws (no_slash-word w k) (parts-cat ws (ground arith)) in
    rw (later, add_part-word w ws k)

-- The words of the name that is made of some words.
pub words-cat : (ws : List Name) → all is_word ws ≡ true → words (cat_tokens true ws) ≡ ws
unfolding words parts cat_tokens all
words-cat [] h = refl
words-cat (w ∷ ws) h =
    let k : is_word w ≡ true = ground arith in
    let later =
      parts-name w (cat_tokens false ws) ws (no_slash-word w k) (parts-cat ws (ground arith)) in
    rw (later, add_part-word w ws k)
