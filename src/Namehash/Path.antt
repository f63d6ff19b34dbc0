-- ===== src/Namehash/Path.antt =====
-- Names of lib/naming/namehash.c. A name is a string without its 0; an `int` is not bounded here.
pub mod Tokens
pub mod Compress
pub mod Plain
pub mod Absolute
pub mod Size
use mungi.Common.{
  ℕ, zero, suc, ◌+◌, ◌-◌, Bool, true, false, not, Option, none, some, List, [], ◌∷◌, ◌++◌, ◌==◌,
  ltb, if◌then◌else◌, length, get_elem?, take, drop,
}
use mungi.Common.Checked.{Checked, done, panic}
use mungi.Common.Strings.{same}

abbrev pub Name : Type 0
Name = List ℕ

abbrev pub slash : ℕ
slash = b'/'

-- The counting loop of `nh_pathtok`, with `inName` so far.
unfoldable pub count_toks : Bool → Name → ℕ
count_toks in_name [] = 0
count_toks in_name (c ∷ s) = elim (c == slash) [
  | true ↦ count_toks false s
  | false ↦ elim in_name [ true ↦ count_toks true s | false ↦ suc (count_toks true s) ]
]

unfoldable pub skip_slashes : Name → Name
skip_slashes [] = []
skip_slashes (c ∷ s) = elim (c == slash) [ true ↦ skip_slashes s | false ↦ c ∷ s ]

-- The characters before the slash that `strchr` finds, all if it finds none.
unfoldable pub until_slash : Name → Name
until_slash [] = []
until_slash (c ∷ s) = elim (c == slash) [ true ↦ [] | false ↦ c ∷ until_slash s ]

-- The characters behind that slash. If there is none the source computes an index from `NULL` that
-- it does not use again, since that token is the last one.
unfoldable pub after_slash : Name → Name
after_slash [] = []
after_slash (c ∷ s) = elim (c == slash) [ true ↦ s | false ↦ after_slash s ]

-- The second loop of `nh_pathtok`, for so many tokens.
unfoldable pub take_toks : ℕ → Name → List Name
take_toks zero s = []
take_toks (suc n) s = elim (skip_slashes s) [
  | [] ↦ []
  | c ∷ r ↦ until_slash (c ∷ r) ∷ take_toks n (after_slash (c ∷ r))
]

-- `nh_pathtok`, where it has memory. The `NULL` at the end of the array is left out.
unfoldable pub nh_pathtok : Name → List Name
nh_pathtok path = take_toks (count_toks false path) path

-- `nh_squash`: the entries from `m2` on move to `m1`.
unfoldable pub nh_squash : List Name → ℕ → ℕ → ℕ → List Name
nh_squash names start total count =
    let m1 = start - (count - 1) in
    let m2 = if ltb total (start + 1) then total else start + 1 in take m1 names ++ drop m2 names

abbrev pub dot : Name
dot = b'.' ∷ []

abbrev pub dot_dot : Name
dot_dot = b'.' ∷ b'.' ∷ []

-- The second loop of `nh_compress`, on fuel: each round leaves one name less from `cur` on.
unfoldable pub compress_from : ℕ → ℕ → ℕ → List Name → List Name
compress_from zero cur num names = names
compress_from (suc n) cur num names = elim (get_elem? names cur) [
  | none ↦ names
  | some w ↦ elim (same w dot) [
    | true ↦ compress_from n cur (num - 1) (nh_squash names cur num 1)
    | false ↦ elim (same w dot_dot) [
      | true ↦ elim (ltb 0 cur) [
        | true ↦ compress_from n (cur - 1) (num - 2) (nh_squash names cur num 2)
        | false ↦ compress_from n cur (num - 1) (nh_squash names cur num 2)
      ]
      | false ↦ compress_from n (cur + 1) num names
    ]
  ]
]

unfoldable pub nh_compress : List Name → List Name
nh_compress names = compress_from (length names) 0 (length names) names

-- The loop of `nh_tok2str`: whether a slash stands in front of the next token depends on whether
-- it is the first one.
unfoldable pub cat_tokens : Bool → List Name → Name
cat_tokens first [] = []
cat_tokens first (w ∷ ws) = (if first then [] else slash ∷ []) ++ w ++ cat_tokens false ws

unfoldable pub nh_tok2str : List Name → Name
nh_tok2str tokens = slash ∷ cat_tokens true tokens

-- `*name == SLASH`.
unfoldable pub is_absolute : Name → Bool
is_absolute [] = false
is_absolute (c ∷ s) = c == slash

-- `len`: the size of `full_name`; the result is written to a buffer of `len + 2` bytes.
unfoldable pub path_len : Name → Name → ℕ
path_len name cwd = if is_absolute name then length name else length name + (length cwd + 1)

-- The tokens and the name made of them; `none` is `NULL`, where an allocation fails.
unfoldable pub absolute_of : Bool → Name → Option Name
absolute_of memory full_name =
    if memory then some (nh_tok2str (nh_compress (nh_pathtok full_name))) else none

-- `nh_absolute`: `first` says whether the first allocation, of `full_name`, succeeds, and `memory`
-- whether the later ones do. The result of `strdup` is not checked: `panic` is the read at `NULL`.
unfoldable pub nh_absolute : Bool → Bool → Name → Name → Checked (Option Name)
nh_absolute first memory name cwd =
    if is_absolute name
    then if first then done (absolute_of memory name) else panic
    else if first
    then done (absolute_of memory (cwd ++ slash ∷ name))
    else done none
