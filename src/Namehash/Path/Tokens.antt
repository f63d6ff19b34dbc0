-- ===== src/Namehash/Path/Tokens.antt =====
-- `nh_pathtok` of lib/naming/namehash.c.
use mungi.Common.{
  ℕ, zero, suc, ◌≡◌, refl, sym, ap, true, false, List, [], ◌∷◌, arith, ◌==◌, if◌then◌else◌, length,
  Bool-cases, inl, inr,
}
use mungi.Namehash.Path.{
  Name, slash, count_toks, skip_slashes, until_slash, after_slash, take_toks, nh_pathtok,
}

-- The part up to the next slash, and the parts behind it that are not empty.
abbrev pub add_part : Name → List Name → List Name
add_part [] ws = ws
add_part (c ∷ w) ws = (c ∷ w) ∷ ws

unfoldable pub parts : Name → Name × List Name
parts [] = ([], [])
parts (c ∷ s) = let (w, ws) = parts s in if c == slash then ([], add_part w ws) else (c ∷ w, ws)

-- The parts of a name between its slashes, without the empty ones.
unfoldable pub words : Name → List Name
words s = let (w, ws) = parts s in add_part w ws

parts-until : (s : Name) → parts s ≡ (until_slash s, words (after_slash s))
unfolding parts until_slash after_slash words
parts-until [] = refl
parts-until (c ∷ s) = elim (Bool-cases (c == slash)) [
  | inl e ↦ rw (parts, until_slash, after_slash, e)
  | inr e ↦ rw (parts, until_slash, after_slash, e, parts-until s)
]

words-skip : (s : Name) → words s ≡ words (skip_slashes s)
unfolding words parts skip_slashes
words-skip [] = refl
words-skip (c ∷ s) = elim (Bool-cases (c == slash)) [
  | inl e ↦ rw (words, parts, skip_slashes, e, sym (words-skip s))
  | inr e ↦ let stays : c ∷ s ≡ skip_slashes (c ∷ s) = rw (skip_slashes, e) in ap words stays
]

words-slash : (c : ℕ) (s : Name) → (c == slash) ≡ true → words (c ∷ s) ≡ words s
unfolding words parts
words-slash c s e = rw (words, parts, e)

words-token :
    (c : ℕ) (s : Name)
    → (c == slash) ≡ false
    → words (c ∷ s) ≡ until_slash (c ∷ s) ∷ words (after_slash (c ∷ s))
unfolding words parts until_slash after_slash
words-token c s e = rw (words, parts, until_slash, after_slash, e, parts-until s)

-- What the counting loop gives inside a name and outside of one.
abbrev Counted : Name → Type 0
Counted s =
    (count_toks true s ≡ length (words (after_slash s))) × (count_toks false s ≡ length (words s))

count_toks-Counted : (s : Name) → Counted s
unfolding count_toks after_slash words parts
count_toks-Counted [] = (refl, refl)
count_toks-Counted (c ∷ s) =
    let h = count_toks-Counted s in
    elim (Bool-cases (c == slash)) [
      | inl e ↦ (rw (count_toks, after_slash, e, h.1), rw (count_toks, e, h.1))
      | inr e ↦ (rw (count_toks, after_slash, e, h.0), rw (count_toks, e, h.0, parts-until s))
    ]

-- The first character that is not a slash, if there is one, is none.
skip_slashes-token : (s : Name) (c : ℕ) (r : Name) → skip_slashes s ≡ c ∷ r → (c == slash) ≡ false
unfolding skip_slashes
skip_slashes-token [] c r h = ground arith
skip_slashes-token (d ∷ s) c r h = elim (Bool-cases (d == slash)) [
  | inl e ↦ skip_slashes-token s c r (rw (skip_slashes, e) at h)
  | inr e ↦ let k : d ∷ s ≡ c ∷ r = rw (skip_slashes, e) at h in ground (arith, k, e)
]

take_toks-words : (n : ℕ) (s : Name) → length (words s) ≡ n → take_toks n s ≡ words s
unfolding take_toks words parts
take_toks-words zero s h = go (words s) refl
  where
    go : (ws : List Name) → words s ≡ ws → [] ≡ words s
    go [] z = sym z
    go (w ∷ ws) z = ground (arith, z)
take_toks-words (suc n) s h = go (skip_slashes s) refl (take_toks-words n)
  where
    go :
        (r : Name)
        → skip_slashes s ≡ r
        → ((t : Name) → length (words t) ≡ n → take_toks n t ≡ words t)
        → take_toks (suc n) s ≡ words s
    go [] z later = rw (take_toks, z, words-skip s, z)
    go (c ∷ r) z later =
        let e = words-token c r (skip_slashes-token s c r z) in
        let short : length (words (after_slash (c ∷ r))) ≡ n = ground (arith, words-skip s, z, e) in
        rw (take_toks, z, words-skip s, z, e, later (after_slash (c ∷ r)) short)

-- nh_pathtok cuts a path into its parts between the slashes, the empty ones left out: it counts as
-- many as there are, and takes them in order.
pub nh_pathtok-words : (path : Name) → nh_pathtok path ≡ words path
unfolding nh_pathtok
nh_pathtok-words path =
    take_toks-words (count_toks false path) path (sym (count_toks-Counted path).1)
