-- ===== src/Print/Digits.antt =====
-- Which text a number is printed as.
use fs_playground.Base.{
  ℕ, true, zero, suc, ◌+◌, ◌*◌, ◌/◌, ◌%◌, ◌<◌, ◌≡◌, inl, inr, [], ◌∷◌, ◌++◌, ltb, Bool-cases,
  CString, arith,
}
use fs_playground.Print.{dec_digits, dec}
use fs_playground.Print.Widths.{decades}

-- The decimal numeral of a number, with no zeros in front.
pub data Numeral : CString → ℕ → Type 0 where
  digit : (d : ℕ) → d < 10 → Numeral ((48 + d) ∷ []) d
  more :
      {text : CString} {n : ℕ} (m d : ℕ)
      → Numeral text n
      → 0 < n
      → d < 10
      → m ≡ 10 * n + d
      → Numeral (text ++ (48 + d) ∷ []) m

dec_digits-Numeral : (k n : ℕ) → n < decades (suc k) → Numeral (dec_digits (suc k) n) n
unfolding dec_digits
dec_digits-Numeral zero n h =
    let e : ltb n 10 ≡ true = ground (arith, h) in rw e (digit n (omega (arith, h)))
dec_digits-Numeral (suc k) n h = elim (Bool-cases (ltb n 10)) [
  | inl e ↦ rw e (digit n (ground (arith, e)))
  | inr e ↦
      let le : 0 < n / 10 = ground (arith, e) in
      rw e (
        more n (n % 10) (dec_digits-Numeral k (n / 10) (omega (arith, h))) le (omega arith)
          (omega arith))
]

pub dec-Numeral : (n : ℕ) → n < decades 20 → Numeral (dec n) n
unfolding dec
dec-Numeral n h = dec_digits-Numeral 19 n h
