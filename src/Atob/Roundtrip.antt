-- ===== src/Atob/Roundtrip.antt =====
-- `_atob` of kernel/lib/klibc/atob.c reads back what `llbtoa` writes.
use native.Mathlib.Nat.{div-add-mod', mod-lt, div-lt_self}
use mungi.Common.{
  ℕ, zero, suc, ◌+◌, ◌-◌, ◌*◌, ◌/◌, ◌%◌, ◌^◌, ◌≤◌, ◌<◌, ◌≡◌, refl, ◌∙◌, ◌≢◌, false, none, some,
  List, [], ◌∷◌, ◌==◌, leb, arith, Bool-cases, inl, inr,
}
use mungi.Common.Int.{pos, negsuc, eqb_ℤ}
use mungi.Atob.{
  digit_of, add_digit, parse_digits, split_dot, atob_long, char_of, digits_of, reverse_onto, llbtoa,
}

digit_of-char_of : (digit rem : ℕ) → rem < 16 → digit_of (char_of digit rem) ≡ some rem
unfolding digit_of char_of
digit_of-char_of digit rem h = ground arith

add_digit-char_of :
    (base digit value : ℕ)
    → 2 ≤ base
    → base ≤ 16
    → value < 2 ^ 64
    → add_digit base (value / base) (char_of digit (value % base)) ≡ some value
unfolding add_digit
add_digit-char_of base digit value lo hi h =
    let small : value % base < base = mod-lt value (omega arith) in
    let whole : value / base * base + value % base ≡ value = div-add-mod' value base in
    let over : leb base (value % base) ≡ false = ground arith in
    let part : value / base * base % 2 ^ 64 ≡ value / base * base = omega arith in
    let all : value % 2 ^ 64 ≡ value = omega arith in
    rw (digit_of-char_of digit (value % base) (omega arith), add_digit, over, part, whole, all)

digits_of-more :
    (base fuel digit value : ℕ)
    → value ≢ 0
    → let c = char_of digit (value % base) in
      digits_of (suc fuel) base digit value ≡ c ∷ digits_of fuel base c (value / base)
unfolding digits_of
digits_of-more base fuel digit value ne =
    let more : (value == 0) ≡ false = ground arith in rw (digits_of, more)

module _ (base : ℕ) (lo : 2 ≤ base) (hi : base ≤ 16) where
  parse_step :
      (v w c : ℕ) (dst : List ℕ)
      → add_digit base v c ≡ some w
      → parse_digits base v (c ∷ dst) ≡ parse_digits base w dst
  unfolding parse_digits
  parse_step v w c dst e = rw (parse_digits, e)

  -- The digits written in front of `dst` are read before it.
  parse_written :
      (fuel digit value : ℕ) (dst : List ℕ)
      → value < 2 ^ 64
      → value ≤ fuel
      → parse_digits base 0 (reverse_onto (digits_of fuel base digit value) dst)
        ≡ parse_digits base value dst
  unfolding digits_of reverse_onto
  parse_written zero digit value dst h f = let z : value ≡ 0 = omega arith in rw z
  parse_written (suc fuel) digit value dst h f = elim (Bool-cases (value == 0)) [
    | inl none_left ↦ let z : value ≡ 0 = ground arith in rw z
    | inr more ↦
        let c = char_of digit (value % base) in
        let smaller : value / base < value = div-lt_self (ground arith) (omega arith) in
        rw (digits_of-more base fuel digit value (ground arith), reverse_onto)
          (parse_written fuel c (value / base) (c ∷ dst) (omega arith) (omega arith)
            ∙ parse_step (value / base) value c dst (add_digit-char_of base digit value lo hi h))
  ]

  char_of_dot : (digit rem : ℕ) → rem < 16 → (char_of digit rem == b'.') ≡ false
  unfolding char_of
  char_of_dot digit rem h = ground arith

  written_dotless :
      (fuel digit value : ℕ) (dst : List ℕ)
      → split_dot dst ≡ none
      → split_dot (reverse_onto (digits_of fuel base digit value) dst) ≡ none
  unfolding digits_of reverse_onto split_dot
  written_dotless zero digit value dst e = e
  written_dotless (suc fuel) digit value dst e = elim (Bool-cases (value == 0)) [
    | inl none_left ↦ let z : value ≡ 0 = ground arith in rw z e
    | inr more ↦
        let c = char_of digit (value % base) in
        let small : value % base < base = mod-lt value (omega arith) in
        rw (digits_of-more base fuel digit value (ground arith), reverse_onto)
          (written_dotless fuel c (value / base) (c ∷ dst)
            (rw (char_of_dot digit (value % base) (omega arith), e)))
  ]

  read_digits : (s : List ℕ) → split_dot s ≡ none → atob_long base s ≡ parse_digits base 0 s
  unfolding atob_long
  read_digits s e = elim (Bool-cases (base == 16)) [
    | inl hex ↦ let z : base ≡ 16 = ground arith in rw (hex, e, z)
    | inr other ↦ rw other
  ]

  llbtoa_pos :
      (value : ℕ)
      → value ≢ 0
      → llbtoa value (pos base) ≡ reverse_onto (digits_of value base b'?' value) []
  unfolding llbtoa
  llbtoa_pos value ne =
      let more : (value == 0) ≡ false = ground arith in
      let unsigned : eqb_ℤ (pos base) (negsuc 9) ≡ false = ground arith in
      let bare : eqb_ℤ (pos base) (negsuc 15) ≡ false = ground arith in
      rw (llbtoa, more, unsigned, bare)

  read_zero : parse_digits base 0 (b'0' ∷ []) ≡ some 0
  unfolding parse_digits add_digit digit_of
  read_zero =
      let over : leb base 0 ≡ false = ground arith in
      let none_added : (0 * base % 2 ^ 64 + (48 - 48)) % 2 ^ 64 ≡ 0 = omega arith in
      rw (parse_digits, over, none_added)

  -- A 64-bit number that llbtoa writes in a base from 2 to 16 is read back by _atob in that base.
  pub atob_long-llbtoa :
      (value : ℕ) → value < 2 ^ 64 → atob_long base (llbtoa value (pos base)) ≡ some value
  atob_long-llbtoa value h = elim (Bool-cases (value == 0)) [
    | inl none_left ↦
        let z : value ≡ 0 = ground arith in
        rw z (unfold llbtoa in read_digits (b'0' ∷ []) (unfold split_dot in refl) ∙ read_zero)
    | inr more ↦ rw (llbtoa_pos value (ground arith)) (
        read_digits (reverse_onto (digits_of value base b'?' value) [])
          (written_dotless value b'?' value [] (unfold split_dot in refl))
        ∙ parse_written value b'?' value [] h (omega arith)
        ∙ unfold parse_digits in refl)
  ]
