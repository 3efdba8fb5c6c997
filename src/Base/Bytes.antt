-- ===== src/Base/Bytes.antt =====
-- C strings as the lists of their bytes before the terminating zero, and single bits of a word.
use Prim.Native.Nat.{ℕ, ◌-◌, ◌*◌, ◌/◌, ◌%◌, ◌^◌}
use mathlib.Core.Path.{◌≡◌, refl}
use mathlib.Core.Bool.{Bool, true, false, ◌&&◌}
use mathlib.Core.List.{List, [], ◌∷◌}
use native.Mathlib.Omega.{arith}
use fs_playground.Base.Tests.{◌==◌}

abbrev pub CString : Type 0
CString = List ℕ

-- `!strcmp(a, b)`
abbrev pub bytes_eq : CString → CString → Bool
bytes_eq [] [] = true
bytes_eq [] (b ∷ bs) = false
bytes_eq (a ∷ as') [] = false
bytes_eq (a ∷ as') (b ∷ bs) = (a == b) && bytes_eq as' bs

pub bytes_eq_refl : (a : CString) → bytes_eq a a ≡ true
bytes_eq_refl [] = refl
bytes_eq_refl (a ∷ as') = ground (arith, bytes_eq_refl as')

pub eq_of_bytes_eq : (a b : CString) → bytes_eq a b ≡ true → a ≡ b
eq_of_bytes_eq [] [] h = refl
eq_of_bytes_eq [] (b ∷ bs) h = cc
eq_of_bytes_eq (a ∷ as') [] h = cc
eq_of_bytes_eq (a ∷ as') (b ∷ bs) h = ground (arith, eq_of_bytes_eq as' bs)

-- `x & (1 << k)` is non-zero.
unfoldable pub bit : ℕ → ℕ → Bool
bit x k = x / 2 ^ k % 2 == 1

-- `x & ~(1 << k)`
unfoldable pub clear_bit : ℕ → ℕ → ℕ
clear_bit x k = x - x / 2 ^ k % 2 * 2 ^ k
