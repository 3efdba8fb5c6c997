-- ===== src/Ext2/Mount.antt =====
-- Mounting: src/ext2/ext2.c. The superblock is read into 1024 bytes of fresh memory, behind which
-- the driver keeps what it computes from it.
pub mod Geometry
use fs_playground.Base.{
  ℕ, zero, suc, ◌+◌, ◌-◌, ◌*◌, ◌/◌, ◌%◌, ◌^◌, not, Option, none, some, List, ◌==◌, ltb,
  if◌then◌else◌, slice, splice, ℤ, pos, is_zero, einval, code_eq,
}
use fs_playground.Blk.{Blkdev, blk_read}
use fs_playground.Command.{ok, pure, ◌>>=◌, ◌>>◌, check, stop}
use fs_playground.Ext2.Block.{Junk, read_block, read_inode}
use fs_playground.Ext2.Disk.{Fs, on_dev, super, set_super, divisor}
use fs_playground.Ext2.Inode
use fs_playground.Ext2.Layout.{get, u32}
use fs_playground.Ext2.Super
use fs_playground.Vfs.State.{VnodeType, StatVfs}

-- A vnode of the driver: `fs_data` points to the inode's bytes.
pub record ExtVnode : Type 0 where
  pub type : VnodeType
  pub fs_number : ℕ
  pub inode : List ℕ

-- The groups, the last of which may be smaller.
abbrev pub group_count : ℕ → ℕ → ℕ
group_count blocks per_group =
    let n = blocks / per_group in if ltb (u32 (n * per_group)) blocks then u32 (n + 1) else n

module _ {K : Type 0} where
  -- The top four bits of the mode; `stop` is the call of abort().
  unfoldable pub inode_type : List ℕ → Fs K VnodeType
  inode_type inode =
      let v = get inode 0 Inode.type_perm / 4096 % 16 in
      if v == 4
      then pure VnodeType.dir
      else if v == 8
      then pure VnodeType.reg
      else if v == 10
      then pure VnodeType.lnk
      else stop

  set_sb : List ℕ → Fs K (Unit {0})
  set_sb sb s = ok tt (record s { sb = sb })

  set_table : List ℕ → Fs K (Unit {0})
  set_table bgdt s = ok tt (record s { bgdt = bgdt })

  table : Fs K (List ℕ)
  table s = ok s.bgdt s

  -- The parameters that a superblock of version 0 lacks.
  old_version : Fs K (Unit {0})
  old_version = do
    version ← super Super.version_major
    if not (version == 0)
        then pure tt
        else do set_super Super.inode_struct_size 128; set_super Super.first_non_reserved 11

  -- What the driver computes from the superblock.
  unfoldable pub set_geometry : Fs K (Unit {0})
  unfolding check divisor
  set_geometry = do
    log ← super Super.block_size_log
    check (ltb log 21)
    let block_size = 1024 * 2 ^ log
    set_super Super.block_size block_size
    blocks ← super Super.block_count
    per_group ← super Super.block_group_size_blocks
    divisor per_group
    let groups = group_count blocks per_group
    set_super Super.block_group_count groups
    set_super Super.block_group_descriptor_table_block (if ltb 1024 block_size then 1 else 2)
    set_super Super.block_group_descriptor_table_size_blocks (u32 (32 * groups) / block_size + 1)

module _ {K : Type 0} (blk : Option (Blkdev K)) (junk : Junk) where
  -- The loop that reads the descriptor table, from its block `i`; errors are ignored.
  read_table : ℕ → ℕ → Fs K (Unit {0})
  unfolding read_block table set_table
  read_table zero i s = pure tt s
  read_table (suc rounds) i s =
      (do
        first ← super Super.block_group_descriptor_table_block
        block_size ← super Super.block_size
        bgdt ← table
        (_, bytes) ← read_block blk (u32 (i + first)) (slice bgdt (i * block_size) block_size)
        set_table (splice bgdt (i * block_size) bytes)
        read_table rounds (suc i))
        s

  unfoldable pub fs_mount : Fs K ℤ
  unfolding set_sb set_table old_version set_geometry read_table
  fs_mount = do
    (res, sb) ← on_dev (blk_read blk (junk 1024) 1024 1024)
    set_sb sb
    if not (code_eq res (pos 1024)) then pure einval else do
      magic ← super Super.magic
      if not (magic == 0xEF53) then pure einval else do
        old_version
        set_geometry
        blocks ← super Super.block_group_descriptor_table_size_blocks
        block_size ← super Super.block_size
        set_table (junk (u32 (blocks * block_size)))
        read_table blocks 0
        pure (pos 0)

  -- NULL is `none`.
  unfoldable pub fs_get_root : Fs K (Option ExtVnode)
  unfolding inode_type
  fs_get_root = do
    size ← super Super.inode_struct_size
    (res, inode) ← read_inode blk junk (junk size) 2
    if not (is_zero res) then pure none else do
      type ← inode_type inode
      pure (some (record { type = type; fs_number = 2; inode = inode }))

module _ {K : Type 0} where
  unfoldable pub fs_statvfs : Fs K (ℤ × StatVfs)
  fs_statvfs = do
    block_count ← super Super.block_count
    reserved ← super Super.su_reserved
    free_blocks ← super Super.free_block_count
    inode_count ← super Super.inode_count
    first ← super Super.first_non_reserved
    free_inodes ← super Super.free_inode_count
    block_size ← super Super.block_size
    pure (
      pos 0,
      record {
        f_bsize = block_size;
        f_frsize = block_size;
        f_blocks = block_count;
        f_bfree = free_blocks;
        f_bavail = u32 (block_count + (2 ^ 32 - reserved));
        f_files = inode_count;
        f_ffree = free_inodes;
        f_favail = u32 (inode_count + (2 ^ 32 - first) + 1);
        f_fsid = 0;
        f_flag = 0;
        f_namemax = 256;
      },
    )
