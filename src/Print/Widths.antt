-- ===== src/Print/Widths.antt =====
-- How long the printed numbers are.
use fs_playground.Base.{
  ℕ, zero, suc, ◌+◌, ◌-◌, ◌*◌, ◌/◌, ◌%◌, ◌^◌, ◌≤◌, ◌<◌, inl, inr, [], ◌∷◌, ltb, Bool-cases, length,
  length-append, length-replicate, replicate, CString, arith,
}
use fs_playground.Print.{dec_digits, dec, signed, pad_left, int32_field}

-- The number of numerals of `w` digits.
abbrev pub decades : ℕ → ℕ
decades zero = 1
decades (suc w) = 10 * decades w

length-dec_digits : (k w n : ℕ) → n < decades (suc w) → length (dec_digits k n) ≤ suc w
unfolding dec_digits
length-dec_digits zero w n h = omega arith
length-dec_digits (suc k) zero n h = ground (arith, h)
length-dec_digits (suc k) (suc w) n h = elim (Bool-cases (ltb n 10)) [
  | inl e ↦ rw e (omega arith)
  | inr e ↦ rw e (
      omega (
        arith,
        length-append (dec_digits k (n / 10)) ((48 + n % 10) ∷ []),
        length-dec_digits k w (n / 10) (omega (arith, h)),
      ))
]

pub length-dec : (w n : ℕ) → n < decades (suc w) → length (dec n) ≤ suc w
unfolding dec
length-dec w n h = length-dec_digits 20 w n h

length-signed32 :
    (blank : CString) (v : ℕ)
    → length blank ≤ 1
    → v < 2 ^ 32
    → length (signed (2 ^ 31) blank v) ≤ 11
unfolding signed
length-signed32 blank v h lt = elim (Bool-cases (ltb v (2 ^ 31))) [
  | inl e ↦ rw e (omega (arith, length-append blank (dec v), length-dec 9 v (omega (arith, lt))))
  | inr e ↦ rw e (omega (arith, length-dec 9 (2 * 2 ^ 31 - v) (ground (arith, lt, e))))
]

length-pad_left : (w b : ℕ) (s : CString) → w ≤ b → length s ≤ b → length (pad_left w s) ≤ b
unfolding pad_left
length-pad_left w b s h le = omega (
  arith,
  length-append (replicate (w - length s) b' ') s,
  length-replicate {A = ℕ} (w - length s) b' ',
)

pub length-int32_field : (w v : ℕ) → w ≤ 11 → length (int32_field w v) ≤ 11
unfolding int32_field
length-int32_field w v h =
    length-pad_left w 11 (signed (2 ^ 31) (b' ' ∷ []) (v % 2 ^ 32)) h
      (length-signed32 (b' ' ∷ []) (v % 2 ^ 32) (omega arith) (omega arith))
