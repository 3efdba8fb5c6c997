-- ===== src/Ext2/Block.antt =====
-- Blocks and inodes on the device: src/ext2/ext2blk.c. A block's place is computed in 32 bits, as
-- `block_no * block_size` of two `uint32_t`.
pub mod Stores
use fs_playground.Base.{
  ℕ, ◌+◌, ◌-◌, ◌*◌, ◌/◌, ◌%◌, not, Option, List, ◌==◌, ltb, if◌then◌else◌, slice, ℤ, pos, negsuc,
  is_neg, eio,
}
use fs_playground.Blk.{Blkdev, blk_read, blk_write}
use fs_playground.Command.{pure, ◌>>=◌, ◌>>◌, stop}
use fs_playground.Ext2.Disk.{Fs, on_dev, super, superblock, group_field, divisor, within, memcpy}
use fs_playground.Ext2.Group
use fs_playground.Ext2.Inode
use fs_playground.Ext2.Layout.{field32, get, u32, pred32}
use fs_playground.Ext2.Super

-- Uninitialised memory, as many bytes as are asked for.
abbrev pub Junk : Type 0
Junk = ℕ → List ℕ

module _ {K : Type 0} (blk : Option (Blkdev K)) where
  unfoldable pub write_superblock : Fs K ℤ
  write_superblock = do sb ← superblock; on_dev (blk_write blk sb 1024 1024)

  -- The result, and what is then in the buffer.
  unfoldable pub read_block : ℕ → List ℕ → Fs K (ℤ × List ℕ)
  read_block block_no buf = if block_no == 0 then pure (negsuc 0, buf) else do
    block_size ← super Super.block_size
    on_dev (blk_read blk buf (u32 (block_no * block_size)) block_size)

  unfoldable pub write_block : ℕ → List ℕ → Fs K ℤ
  write_block block_no buf = if block_no == 0 then pure (negsuc 0) else do
    block_size ← super Super.block_size
    on_dev (blk_write blk buf (u32 (block_no * block_size)) block_size)

  unfoldable pub write_inode_block : List ℕ → ℕ → List ℕ → Fs K ℤ
  unfolding write_block
  write_inode_block inode index buf =
      if ltb index 12 then write_block (get inode 0 (Inode.direct_block index)) buf else stop

  unfoldable pub read_inode_block : List ℕ → ℕ → List ℕ → Fs K (ℤ × List ℕ)
  unfolding read_block within
  read_inode_block inode index buf =
      if ltb index 12 then read_block (get inode 0 (Inode.direct_block index)) buf else do
        block_size ← super Super.block_size
        if not (ltb index (12 + block_size / 4)) then pure (eio, buf) else do
          (res, indirect) ← read_block (get inode 0 Inode.l1_indirect_block) buf
          if is_neg res then pure (eio, indirect) else do
            within indirect (4 * (index - 12)) 4
            read_block (get indirect 0 (field32 (4 * (index - 12)))) indirect

  -- The block that holds an inode, and the inode's offset in it.
  unfoldable pub inode_place : ℕ → Fs K (ℕ × ℕ)
  unfolding divisor group_field
  inode_place ino = do
    per_group ← super Super.block_group_size_inodes
    divisor per_group
    table_block ← group_field (pred32 ino / per_group) Group.inode_table_block
    size ← super Super.inode_struct_size
    block_size ← super Super.block_size
    divisor block_size
    let start = u32 (pred32 ino % per_group * size)
    pure (u32 (start / block_size + table_block), start % block_size)

  module _ (junk : Junk) where
    -- The inode, where the result is 0.
    unfoldable pub read_inode : List ℕ → ℕ → Fs K (ℤ × List ℕ)
    unfolding inode_place read_block memcpy
    read_inode inode ino = do
      block_size ← super Super.block_size
      (block, off) ← inode_place ino
      (res, buf) ← read_block block (junk block_size)
      if is_neg res then pure (negsuc 0, inode) else do
        size ← super Super.inode_struct_size
        within buf off size
        read ← memcpy inode 0 (slice buf off size) size
        pure (pos 0, read)

    unfoldable pub write_inode : List ℕ → ℕ → Fs K ℤ
    unfolding inode_place read_block write_block memcpy
    write_inode inode ino = do
      block_size ← super Super.block_size
      (block, off) ← inode_place ino
      (res, buf) ← read_block block (junk block_size)
      if is_neg res then pure res else do
        size ← super Super.inode_struct_size
        changed ← memcpy buf off inode size
        res' ← write_block block changed
        pure (if is_neg res' then res' else pos 0)
