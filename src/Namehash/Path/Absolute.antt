-- ===== src/Namehash/Path/Absolute.antt =====
-- `nh_absolute` of lib/naming/namehash.c.
use mungi.Common.{
  ◌≡◌, refl, Bool, true, false, some, List, [], ◌∷◌, ◌++◌, arith, ◌==◌, if◌then◌else◌, Bool-cases,
  inl, inr,
}
use mungi.Common.Checked.{done}
use mungi.Common.Strings.{same}
use mungi.Namehash.Path.{
  Name, slash, dot, dot_dot, cat_tokens, nh_tok2str, is_absolute, absolute_of, nh_absolute,
}
use mungi.Namehash.Path.Tokens.{add_part, parts, words, nh_pathtok-words}
use mungi.Namehash.Path.Compress.{unwind, pop, walk, resolve, nh_compress-resolve}
use mungi.Namehash.Path.Plain.{
  all, is_plain, all-words, all-resolve, resolve-plain, all-weaken, words-cat,
}

-- The path that a name stands for.
unfoldable pub full : Name → Name → Name
full name cwd = if is_absolute name then name else cwd ++ slash ∷ name

-- With memory, and what is known of a result.
pub absolute-full :
    (name cwd : Name)
    → nh_absolute true true name cwd ≡ done (some (nh_tok2str (resolve (words (full name cwd)))))
unfolding nh_absolute absolute_of full
absolute-full name cwd = elim (Bool-cases (is_absolute name)) [
  | inl e ↦ rw (e, nh_pathtok-words name, nh_compress-resolve (words name))
  | inr e ↦
      rw (
        e,
        nh_pathtok-words (cwd ++ slash ∷ name),
        nh_compress-resolve (words (cwd ++ slash ∷ name)),
      )
]

pub absolute-found :
    (first memory : Bool) (name cwd a : Name)
    → nh_absolute first memory name cwd ≡ done (some a)
    → a ≡ nh_tok2str (resolve (words (full name cwd)))
unfolding nh_absolute absolute_of
absolute-found true true name cwd a h = ground (arith, h, absolute-full name cwd)
absolute-found true false name cwd a h = ground (arith, h)
absolute-found false memory name cwd a h = ground (arith, h)

-- A name that nh_absolute made is its own absolute name, in any directory.
pub nh_absolute-nh_absolute :
    (first memory : Bool) (name cwd a dir : Name)
    → nh_absolute first memory name cwd ≡ done (some a)
    → nh_absolute true true a dir ≡ done (some a)
unfolding full nh_tok2str is_absolute words parts
nh_absolute-nh_absolute first memory name cwd a dir h =
    let ns = resolve (words (full name cwd)) in
    let plain : all is_plain ns ≡ true =
      all-resolve (words (full name cwd)) (all-words (full name cwd)) in
    let e : a ≡ nh_tok2str ns = absolute-found first memory name cwd a h in
    let w : words (nh_tok2str ns) ≡ ns = words-cat ns (all-weaken ns plain) in
    rw (e, absolute-full (nh_tok2str ns) dir, w, resolve-plain ns plain)

add_part-append : (w : Name) (us vs : List Name) → add_part w (us ++ vs) ≡ add_part w us ++ vs
add_part-append [] us vs = refl
add_part-append (c ∷ w) us vs = refl

parts-join : (s t : Name) → parts (s ++ slash ∷ t) ≡ ((parts s).0, (parts s).1 ++ words t)
unfolding parts words
parts-join [] t = refl
parts-join (c ∷ s) t = elim (Bool-cases (c == slash)) [
  | inl e ↦ rw (parts, e, parts-join s t, add_part-append (parts s).0 (parts s).1 (words t))
  | inr e ↦ rw (parts, e, parts-join s t)
]

words-join : (s t : Name) → words (s ++ slash ∷ t) ≡ words s ++ words t
unfolding words
words-join s t = rw (parts-join s t, add_part-append (parts s).0 (parts s).1 (words t))

walk-append : (st us vs : List Name) → walk st (us ++ vs) ≡ walk (walk st us) vs
unfolding walk
walk-append st [] vs = refl
walk-append st (w ∷ us) vs = elim (Bool-cases (same w dot)) [
  | inl here ↦ rw (walk, here, walk-append st us vs)
  | inr not_here ↦ elim (Bool-cases (same w dot_dot)) [
    | inl up ↦ rw (walk, not_here, up, walk-append (pop st) us vs)
    | inr down ↦ rw (walk, not_here, down, walk-append (w ∷ st) us vs)
  ]
]

-- Where a name leads: from the root if it starts with a slash, else from where the current
-- directory is.
unfoldable pub starts_at : Name → Name → List Name
starts_at name cwd = if is_absolute name then [] else walk [] (words cwd)

-- Each name with a slash in front; the root is a slash.
unfoldable pub slashed : List Name → Name
slashed [] = []
slashed (w ∷ ws) = slash ∷ w ++ slashed ws

unfoldable pub written : List Name → Name
written [] = slash ∷ []
written (w ∷ ws) = slashed (w ∷ ws)

cat_tokens-slashed : (ws : List Name) → cat_tokens false ws ≡ slashed ws
unfolding cat_tokens slashed
cat_tokens-slashed [] = refl
cat_tokens-slashed (w ∷ ws) = rw (cat_tokens-slashed ws) refl

nh_tok2str-written : (ws : List Name) → nh_tok2str ws ≡ written ws
unfolding nh_tok2str cat_tokens written slashed
nh_tok2str-written [] = refl
nh_tok2str-written (w ∷ ws) = rw (cat_tokens-slashed ws) refl

walked :
    (name cwd : Name)
    → nh_absolute true true name cwd
      ≡ done (some (nh_tok2str (unwind (walk (starts_at name cwd) (words name)) [])))
unfolding full starts_at resolve
walked name cwd = elim (Bool-cases (is_absolute name)) [
  | inl e ↦ rw (absolute-full name cwd, e)
  | inr e ↦
      rw (absolute-full name cwd, e, words-join cwd name, walk-append [] (words cwd) (words name))
]

-- With memory, nh_absolute gives the names from the root on, each with a slash in front, of where
-- a walk along the parts of the name ends. The walk starts at the root if the name starts with a
-- slash, else where a walk from the root along the parts of the current directory ends. Where that
-- is the root it gives a slash.
pub nh_absolute-walk :
    (name cwd : Name)
    → nh_absolute true true name cwd
      ≡ done (some (written (unwind (walk (starts_at name cwd) (words name)) [])))
nh_absolute-walk name cwd =
    rw (walked name cwd, nh_tok2str-written (unwind (walk (starts_at name cwd) (words name)) []))
