-- ===== src/Ext2/Disk.antt =====
-- The state of one mounted ext2 file system, and commands on buffers. The superblock and the block
-- group descriptor table stay in memory as the bytes that they were read as.
use fs_playground.Base.{ℕ, ◌+◌, ◌*◌, not, List, ◌==◌, leb, length, take, slice, splice}
use fs_playground.Command.{Run, ok, fault, out_of_fuel, Program, pure, ◌>>◌, check}
use fs_playground.Ext2.Layout.{Field, get, put}
use fs_playground.Ext2.Group

pub record Ext2 (K : Type 0) : Type 0 where
  pub dev : K
  pub sb : List ℕ
  pub bgdt : List ℕ

abbrev pub Fs : Type 0 → Type 0 → Type 0
Fs K A = Program (Ext2 K) A

module _ {K : Type 0} where
  -- A command of the device.
  abbrev pub finish : {A : Type 0} → Ext2 K → Run K A → Run (Ext2 K) A
  finish s (ok a k) = ok a (record s { dev = k })
  finish s fault = fault
  finish s out_of_fuel = out_of_fuel

  abbrev pub on_dev : {A : Type 0} → Program K A → Fs K A
  on_dev m s = finish s (m s.dev)

  -- `sb->field`
  abbrev pub super : Field → Fs K ℕ
  super f s = ok (get s.sb 0 f) s

  abbrev pub set_super : Field → ℕ → Fs K (Unit {0})
  set_super f v s = ok tt (record s { sb = put s.sb 0 f v })

  abbrev pub superblock : Fs K (List ℕ)
  superblock s = ok s.sb s

  -- `sb->block_group_descriptor_table[group].field`, which must lie in the table.
  unfoldable pub group_field : ℕ → Field → Fs K ℕ
  unfolding check
  group_field group f s =
      (do
        check (leb ((group + 1) * Group.size) (length s.bgdt))
        pure (get s.bgdt (group * Group.size) f))
        s

  unfoldable pub set_group_field : ℕ → Field → ℕ → Fs K (Unit {0})
  unfolding check
  set_group_field group f v s =
      check (leb ((group + 1) * Group.size) (length s.bgdt))
        (record s { bgdt = put s.bgdt (group * Group.size) f v })

  -- The bytes of the table from an offset.
  abbrev pub table_bytes : ℕ → ℕ → Fs K (List ℕ)
  table_bytes off n s = ok (slice s.bgdt off n) s

  -- A divisor is not 0.
  unfoldable pub divisor : ℕ → Fs K (Unit {0})
  unfolding check
  divisor n = check (not (n == 0))

  -- An access of `n` bytes lies in the buffer.
  unfoldable pub within : List ℕ → ℕ → ℕ → Fs K (Unit {0})
  unfolding check
  within buf off n = check (leb (off + n) (length buf))

  -- `memcpy(dst + off, src, n)`
  unfoldable pub memcpy : List ℕ → ℕ → List ℕ → ℕ → Fs K (List ℕ)
  unfolding within
  memcpy dst off src n = do within dst off n; within src 0 n; pure (splice dst off (take n src))
