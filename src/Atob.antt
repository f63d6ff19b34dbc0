-- ===== src/Atob.antt =====
-- kernel/lib/klibc/atob.c: numbers to text and back. A string is the list of its characters' codes,
-- without the 0 at its end.
pub mod Roundtrip
use mungi.Common.{
  ℕ, zero, suc, ◌+◌, ◌-◌, ◌*◌, ◌/◌, ◌%◌, ◌^◌, Bool, true, false, not, ◌&&◌, Option, none, some,
  List, [], ◌∷◌, ◌++◌, ◌==◌, leb, ltb, if◌then◌else◌, length,
}
use mungi.Common.Int.{ℤ, pos, negsuc, eqb_ℤ, pos_part}

-- `_getbase`: the string behind the prefix, and the base.
pub getbase : List ℕ → List ℕ × ℕ
getbase (c ∷ d ∷ s) =
    if c == b'0'
    then (if d == b'x'
        then (s, 16)
        else if d == b't'
        then (s, 10)
        else if d == b'n'
        then (s, 10)
        else if d == b'o'
        then (s, 8)
        else (c ∷ d ∷ s, 10))
    else (c ∷ d ∷ s, 10)
getbase s = (s, 10)

pub digit_of : ℕ → Option ℕ
digit_of c =
    if leb b'0' c && leb c b'9'
    then some (c - b'0')
    else if leb b'a' c && leb c b'f'
    then some (c - b'a' + 10)
    else if leb b'A' c && leb c b'F'
    then some (c - b'A' + 10)
    else none

-- One round of the loop of `_atob`, on an `unsigned long`.
pub add_digit : ℕ → ℕ → ℕ → Option ℕ
unfolding digit_of
add_digit base value c = elim (digit_of c) [
  | none ↦ none
  | some d ↦ if leb base d then none else some ((value * base % 2 ^ 64 + d) % 2 ^ 64)
]

-- The loop of `_atob`; `none` is the return value 0.
pub parse_digits : ℕ → ℕ → List ℕ → Option ℕ
unfolding add_digit
parse_digits base value [] = some value
parse_digits base value (c ∷ s) = elim (add_digit base value c) [
  | none ↦ none
  | some v ↦ parse_digits base v s
]

-- The parts before and behind the first dot.
pub split_dot : List ℕ → Option (List ℕ × List ℕ)
split_dot [] = none
split_dot (c ∷ s) =
    if c == b'.'
    then some ([], s)
    else elim (split_dot s) [ none ↦ none | some (p, q) ↦ some (c ∷ p, q) ]

-- Two hexadecimal numbers with a dot between them; the first has at most 19 digits.
pub parse_dotted : List ℕ → List ℕ → Option ℕ
unfolding parse_digits split_dot
parse_dotted p q = if ltb 19 (length p) then none else elim (parse_digits 16 0 p) [
  | none ↦ none
  | some v1 ↦ elim (split_dot q) [
    | some _ ↦ none
    | none ↦ elim (parse_digits 16 0 q) [
      | none ↦ none
      | some v2 ↦ some ((v1 * 2 ^ 16 + v2) % 2 ^ 64)
    ]
  ]
]

-- `_atob`.
pub atob_long : ℕ → List ℕ → Option ℕ
unfolding parse_digits split_dot parse_dotted
atob_long base s =
    if base == 16
    then elim (split_dot s) [ none ↦ parse_digits base 0 s | some (p, q) ↦ parse_dotted p q ]
    else parse_digits base 0 s

unfoldable pub atob : ℕ → List ℕ → Option ℕ
unfolding atob_long getbase
atob base s =
    let (t, b) = if base == 0 then getbase s else (s, base) in
    elim (atob_long b t) [ none ↦ none | some v ↦ some (v % 2 ^ 32) ]

-- The character of a digit; the one before is kept for a digit above 36.
pub char_of : ℕ → ℕ → ℕ
char_of digit rem = if leb rem 9 then rem + b'0' else if leb rem 36 then rem - 10 + b'a' else digit

-- The loop of `llbtoa`, the lowest digit first.
pub digits_of : ℕ → ℕ → ℕ → ℕ → List ℕ
unfolding char_of
digits_of zero base digit value = []
digits_of (suc fuel) base digit value = elim (value == 0) [
  | true ↦ []
  | false ↦ let c = char_of digit (value % base) in c ∷ digits_of fuel base c (value / base)
]

-- The copy of `buf` into `dst` from its end.
pub reverse_onto : List ℕ → List ℕ → List ℕ
reverse_onto [] dst = dst
reverse_onto (c ∷ buf) dst = reverse_onto buf (c ∷ dst)

-- `llbtoa`. The base -10 asks for a sign, the base -16 for a prefix. As many rounds as the value are
-- enough, since every round makes it smaller.
pub llbtoa : ℕ → ℤ → List ℕ
unfolding digits_of reverse_onto
llbtoa value base =
    if value == 0
    then b'0' ∷ []
    else if eqb_ℤ base (negsuc 9)
    then (if leb (2 ^ 63) value
        then reverse_onto (digits_of (2 ^ 64 - value) 10 b'?' (2 ^ 64 - value) ++ b'-' ∷ []) []
        else reverse_onto (digits_of value 10 b'?' value) [])
    else if eqb_ℤ base (negsuc 15)
    then reverse_onto (digits_of value 16 b'?' value ++ b'x' ∷ b'0' ∷ []) []
    else reverse_onto (digits_of value (pos_part base) b'?' value) []
