-- ===== src/Shell/Scan.antt =====
-- `sscanf` of <stdio.h> for the formats "%d" and "%o" of src/ext2sh.c. `none` is a text on which it
-- assigns nothing, or a number that the type cannot represent, which C leaves undefined.
use fs_playground.Base.{
  ℕ, ◌+◌, ◌-◌, ◌*◌, ◌%◌, ◌^◌, Bool, true, false, ◌&&◌, ◌||◌, Option, none, some, [], ◌∷◌, ◌==◌, ltb,
  leb, if◌then◌else◌, CString,
}

-- `isspace` in the C locale.
unfoldable pub is_space : ℕ → Bool
is_space c = c == 32 || (leb 9 c && leb c 13)

unfoldable pub skip_spaces : CString → CString
unfolding is_space
skip_spaces [] = []
skip_spaces (c ∷ cs) = let rest = skip_spaces cs in if is_space c then rest else c ∷ cs

is_digit : ℕ → ℕ → Bool
is_digit base c = leb 48 c && ltb c (48 + base)

-- The value of the digits that a text starts with, behind digits of value `n`.
more_digits : ℕ → ℕ → CString → ℕ
unfolding is_digit
more_digits base n [] = n
more_digits base n (c ∷ cs) =
    let rest = more_digits base (n * base + (c - 48)) cs in if is_digit base c then rest else n

digits : ℕ → CString → Option ℕ
unfolding more_digits is_digit
digits base [] = none
digits base (c ∷ cs) = if is_digit base c then some (more_digits base (c - 48) cs) else none

-- A magnitude and its sign as a word of 32 bits.
word : ℕ → Bool → Option ℕ → Option ℕ
word limit minus none = none
word limit true (some n) = if leb n limit then some ((2 ^ 32 - n) % 2 ^ 32) else none
word limit false (some n) = if ltb n limit then some n else none

signed_number : ℕ → ℕ → CString → Option ℕ
unfolding word digits
signed_number base limit [] = none
signed_number base limit (c ∷ cs) =
    if c == b'-'
    then word limit true (digits base cs)
    else if c == b'+'
    then word limit false (digits base cs)
    else word limit false (digits base (c ∷ cs))

-- "%d"
unfoldable pub scan_int : CString → Option ℕ
unfolding signed_number skip_spaces
scan_int s = signed_number 10 (2 ^ 31) (skip_spaces s)

-- "%o"
unfoldable pub scan_octal : CString → Option ℕ
unfolding signed_number skip_spaces
scan_octal s = signed_number 8 (2 ^ 32) (skip_spaces s)
