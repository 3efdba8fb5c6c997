-- ===== src/Print.antt =====
-- Texts as printf of the C library makes them for the formats that src/ext2sh.c and src/vfs.c use.
pub mod Digits
pub mod Widths
use Prim.Native.Char.{code}
use Prim.Native.String.{String}
use fs_playground.Base.{
  ℕ, zero, suc, ◌+◌, ◌-◌, ◌*◌, ◌/◌, ◌%◌, ◌^◌, [], ◌∷◌, ◌++◌, ltb, if◌then◌else◌, replicate, length,
  CString,
}

-- The bytes of a literal.
abbrev pub bytes : String → CString
bytes String.[] = []
bytes (String.◌∷◌ c s) = code c ∷ bytes s

-- At most `k` decimal digits of a number.
unfoldable pub dec_digits : ℕ → ℕ → CString
dec_digits zero n = []
dec_digits (suc k) n =
    let rest = dec_digits k (n / 10) in
    if ltb n 10 then (48 + n) ∷ [] else rest ++ (48 + n % 10) ∷ []

-- `%zu` of a 64-bit number, and `%u` of one that has at most 32 bits.
unfoldable pub dec : ℕ → CString
unfolding dec_digits
dec n = dec_digits 20 n

-- `%d` of the word `v` of which `half` is the value of the sign bit. `blank` stands before a number
-- that has no sign: a blank for the flag of that name.
unfoldable pub signed : ℕ → CString → ℕ → CString
unfolding dec
signed half blank v = if ltb v half then blank ++ dec v else b'-' ∷ dec (2 * half - v)

-- A field of at least `w` bytes.
unfoldable pub pad_left : ℕ → CString → CString
pad_left w s = replicate (w - length s) b' ' ++ s

-- `%d`, `% 5d` with another width, and `% 12zd` with another width.
unfoldable pub int32 : ℕ → CString
unfolding signed
int32 v = signed (2 ^ 31) [] (v % 2 ^ 32)

unfoldable pub int32_field : ℕ → ℕ → CString
unfolding signed pad_left
int32_field w v = pad_left w (signed (2 ^ 31) (b' ' ∷ []) (v % 2 ^ 32))

unfoldable pub int64_field : ℕ → ℕ → CString
unfolding signed pad_left
int64_field w v = pad_left w (signed (2 ^ 63) (b' ' ∷ []) (v % 2 ^ 64))
