-- ===== src/Namehash/Path/Size.antt =====
-- The buffers of `nh_absolute` of lib/naming/namehash.c.
use mungi.Common.{
  ℕ, suc, ◌+◌, ◌-◌, ◌≤◌, ◌≡◌, refl, ap, Bool, false, some, List, [], ◌∷◌, arith, ◌==◌, length,
  Bool-cases, inl, inr, length-append,
}
use mungi.Common.Checked.{done}
use mungi.Common.Strings.{same}
use mungi.Namehash.Path.{
  Name, slash, dot, dot_dot, cat_tokens, nh_tok2str, is_absolute, path_len, nh_absolute,
}
use mungi.Namehash.Path.Tokens.{add_part, parts, words}
use mungi.Namehash.Path.Compress.{unwind, pop, walk, resolve}
use mungi.Namehash.Path.Absolute.{full, absolute-found}

-- The bytes of some names, each with a slash.
unfoldable size : List Name → ℕ
size [] = 0
size (w ∷ ws) = suc (length w) + size ws

size-add_part : (w : Name) (ws : List Name) → size (add_part w ws) ≤ suc (length w) + size ws
unfolding size
size-add_part [] ws = omega arith
size-add_part (c ∷ w) ws = omega arith

size-parts : (s : Name) → length (parts s).0 + size (parts s).1 ≤ length s
unfolding parts size
size-parts [] = omega arith
size-parts (c ∷ s) = elim (Bool-cases (c == slash)) [
  | inl e ↦ rw e (omega (arith, size-parts s, size-add_part (parts s).0 (parts s).1))
  | inr e ↦ rw e (omega (arith, size-parts s))
]

size-words : (s : Name) → size (words s) ≤ length s + 1
unfolding words
size-words s = omega (arith, size-parts s, size-add_part (parts s).0 (parts s).1)

size-unwind : (st ws : List Name) → size (unwind st ws) ≡ size st + size ws
unfolding unwind size
size-unwind [] ws = omega arith
size-unwind (x ∷ st) ws = omega (arith, size-unwind st (x ∷ ws))

size-pop : (st : List Name) → size (pop st) ≤ size st
unfolding size
size-pop [] = omega arith
size-pop (x ∷ st) = omega arith

size-walk : (st ws : List Name) → size (walk st ws) ≤ size st + size ws
unfolding walk size
size-walk st [] = omega arith
size-walk st (w ∷ ws) = elim (Bool-cases (same w dot)) [
  | inl here ↦ rw (walk, here) (omega (arith, size-walk st ws))
  | inr not_here ↦ elim (Bool-cases (same w dot_dot)) [
    | inl up ↦ rw (walk, not_here, up) (omega (arith, size-walk (pop st) ws, size-pop st))
    | inr down ↦ rw (walk, not_here, down) (omega (arith, size-walk (w ∷ st) ws))
  ]
]

size-resolve : (ws : List Name) → size (resolve ws) ≤ size ws
unfolding resolve size
size-resolve ws = omega (arith, size-unwind (walk [] ws) [], size-walk [] ws)

length-cat : (ws : List Name) → length (cat_tokens false ws) ≡ size ws
unfolding cat_tokens size
length-cat [] = refl
length-cat (w ∷ ws) = omega (arith, length-append w (cat_tokens false ws), length-cat ws)

length-tok2str : (ws : List Name) → length (nh_tok2str ws) ≤ size ws + (1 - size ws)
unfolding nh_tok2str cat_tokens size
length-tok2str [] = omega arith
length-tok2str (w ∷ ws) = omega (arith, length-append w (cat_tokens false ws), length-cat ws)

length-full : (name cwd : Name) → length (full name cwd) ≡ path_len name cwd
unfolding full path_len
length-full name cwd = elim (Bool-cases (is_absolute name)) [
  | inl e ↦ rw e
  | inr e ↦ rw e (omega (arith, length-append cwd (slash ∷ name)))
]

-- The absolute name and the 0 behind it fit into the len + 2 bytes that nh_absolute allocates.
pub nh_absolute-fits :
    (first memory : Bool) (name cwd a : Name)
    → nh_absolute first memory name cwd ≡ done (some a)
    → length a + 1 ≤ path_len name cwd + 2
nh_absolute-fits first memory name cwd a h =
    let ws = words (full name cwd) in
    let e : length a ≡ length (nh_tok2str (resolve ws)) =
      ap length (absolute-found first memory name cwd a h) in
    omega (
      arith,
      e,
      length-full name cwd,
      size-words (full name cwd),
      size-resolve ws,
      length-tok2str (resolve ws),
    )
