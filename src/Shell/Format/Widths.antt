-- ===== src/Shell/Format/Widths.antt =====
-- The buffers of `shell_stat` (64 bytes) and `shell_ls_detail` (512 bytes) for `dumpstat`.
use fs_playground.Base.{
  suc, ℕ, ◌+◌, ◌%◌, ◌^◌, ◌≤◌, ◌≡◌, refl, ◌∷◌, ◌++◌, length, length-append, CString, arith,
}
use fs_playground.Print.{dec, int32_field}
use fs_playground.Print.Widths.{length-dec, length-int32_field}
use fs_playground.Vfs.State.{Stat}
use fs_playground.Shell.Format.{mode_text, spaced, dumpstat}

length-mode_text : (mode : ℕ) → length (mode_text mode) ≡ 10
unfolding mode_text
length-mode_text mode = refl

length-append_le :
    (xs ys : CString) (a b : ℕ) → length xs ≤ a → length ys ≤ b → length (xs ++ ys) ≤ a + b
length-append_le xs ys a b p q = omega (arith, length-append xs ys)

length-spaced :
    (xs ys : CString) (a b : ℕ) → length xs ≤ a → length ys ≤ b → length (spaced xs ys) ≤ a + suc b
length-spaced xs ys a b p q = length-append_le xs (b' ' ∷ ys) a (suc b) p (omega (arith, q))

length-dec32 : (n : ℕ) → length (dec (n % 2 ^ 32)) ≤ 10
length-dec32 n = length-dec 9 (n % 2 ^ 32) (omega arith)

-- A status has at most 56 bytes, and a zero behind them.
pub length-dumpstat : (st : Stat) → length (dumpstat st) ≤ 56
unfolding dumpstat
length-dumpstat st =
    length-spaced (mode_text st.st_mode) _ 10 45 (omega (arith, length-mode_text st.st_mode)) (
      length-spaced (int32_field 5 st.st_uid) _ 11 33 (length-int32_field 5 st.st_uid (omega arith))
        (length-spaced (int32_field 5 st.st_gid) _ 11 21
          (length-int32_field 5 st.st_gid (omega arith))
          (length-spaced (dec (st.st_size % 2 ^ 32)) _ 10 10 (length-dec32 st.st_size)
            (length-dec32 st.st_ino))))
