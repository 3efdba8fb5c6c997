-- ===== src/Base/Code.antt =====
-- The `int` that a function of the program returns: 0 or a count, or a negated errno value.
-- The errno values are those of Linux's <errno.h>.
use Prim.Native.Nat.{ℕ, zero, suc}
use mathlib.Core.Path.{◌≡◌}
use mathlib.Core.Bool.{Bool, true, false}
use fs_playground.Base.Tests.{◌==◌}
use native.Mathlib.Omega.{arith}

-- `negsuc n` is -(n + 1).
pub data ℤ : Type 0 where
  pos : ℕ → ℤ
  negsuc : ℕ → ℤ

-- `res != 0` is `is_zero res ≡ false`.
abbrev pub is_zero : ℤ → Bool
is_zero (pos zero) = true
is_zero (pos (suc n)) = false
is_zero (negsuc n) = false

-- `res < 0`
abbrev pub is_neg : ℤ → Bool
is_neg (pos n) = false
is_neg (negsuc n) = true

abbrev pub code_eq : ℤ → ℤ → Bool
code_eq (pos a) (pos b) = a == b
code_eq (pos a) (negsuc b) = false
code_eq (negsuc a) (pos b) = false
code_eq (negsuc a) (negsuc b) = a == b

pub eq_of_code_eq : (a b : ℤ) → code_eq a b ≡ true → a ≡ b
eq_of_code_eq a b h = ground arith

abbrev pub enoent : ℤ
enoent = negsuc 1

abbrev pub eio : ℤ
eio = negsuc 4

abbrev pub enomem : ℤ
enomem = negsuc 11

abbrev pub eacces : ℤ
eacces = negsuc 12

abbrev pub ebusy : ℤ
ebusy = negsuc 15

abbrev pub eexist : ℤ
eexist = negsuc 16

abbrev pub enotdir : ℤ
enotdir = negsuc 19

abbrev pub eisdir : ℤ
eisdir = negsuc 20

abbrev pub einval : ℤ
einval = negsuc 21

abbrev pub enospc : ℤ
enospc = negsuc 27

abbrev pub erofs : ℤ
erofs = negsuc 29

abbrev pub espipe : ℤ
espipe = negsuc 28
