-- ===== src/Ext2/Layout.antt =====
-- The packed structs of include/ext2.h as fields of byte buffers, and the 32-bit arithmetic of the
-- driver.
use fs_playground.Base.{ℕ, ◌+◌, ◌-◌, ◌*◌, ◌/◌, ◌%◌, ◌^◌, List, peek, poke, if◌then◌else◌, bit}

-- A little-endian field at an offset.
pub record Field : Type 0 where
  pub offset : ℕ
  pub width : ℕ

abbrev pub field32 : ℕ → Field
field32 n = record { offset = n; width = 4 }

abbrev pub field16 : ℕ → Field
field16 n = record { offset = n; width = 2 }

abbrev pub field8 : ℕ → Field
field8 n = record { offset = n; width = 1 }

-- A struct's field, where the struct begins at `at` in the buffer.
abbrev pub get : List ℕ → ℕ → Field → ℕ
get buf at f = peek buf (at + f.offset) f.width

abbrev pub put : List ℕ → ℕ → Field → ℕ → List ℕ
put buf at f v = poke buf (at + f.offset) f.width v

abbrev pub u32 : ℕ → ℕ
u32 n = n % 2 ^ 32

-- `n - 1` on a `uint32_t`.
abbrev pub pred32 : ℕ → ℕ
pred32 n = (n + (2 ^ 32 - 1)) % 2 ^ 32

-- `(n + 3) & ~3`
abbrev pub align4 : ℕ → ℕ
align4 n = (n + 3) / 4 * 4

-- `x |= 1 << k`
unfoldable pub set_bit : ℕ → ℕ → ℕ
set_bit x k = if bit x k then x else x + 2 ^ k
