-- ===== src/Ext2/Remove.antt =====
-- Unlinking in src/ext2/ext2vnop.c. The directory and the vnode are returned with their inodes as
-- changed in memory.
use fs_playground.Base.{
  ℕ, zero, suc, ◌+◌, ◌-◌, ◌*◌, ◌^◌, Bool, true, false, not, Option, List, [], ◌∷◌, ◌==◌, ltb,
  if◌then◌else◌, CString, length, ℤ, pos, is_neg, eisdir,
}
use fs_playground.Blk.{Blkdev}
use fs_playground.Command.{pure, ◌>>=◌, ◌>>◌, check, out_of_fuel}
use fs_playground.Ext2.Alloc.{free_inode, free_inode_block}
use fs_playground.Ext2.Block.{Junk, read_inode_block}
use fs_playground.Ext2.Directory.{is_named, name_within, size_in_blocks, dir_remove_inode}
use fs_playground.Ext2.Dirent
use fs_playground.Ext2.Disk.{Fs, super, divisor, within}
use fs_playground.Ext2.Inode
use fs_playground.Ext2.Layout.{get, put, u32}
use fs_playground.Ext2.Mount.{ExtVnode}
use fs_playground.Ext2.Super
use fs_playground.Vfs.Find.{is_dir}

module _ {K : Type 0} where
  -- The loop over the entries of a directory's block, for one that is neither "." nor "..".
  unfoldable pub only_dots : ℕ → List ℕ → ℕ → Fs K Bool
  unfolding within name_within
  only_dots zero buf off s = out_of_fuel
  only_dots (suc rounds) buf off s =
      (if not (ltb off (length buf)) then pure true else do
        within buf off Dirent.size
        if get buf off Dirent.ino == 0 then pure true else do
          name_within buf off (b'.' ∷ [])
          name_within buf off (b'.' ∷ b'.' ∷ [])
          let next = off + get buf off Dirent.len
          if is_named buf off (b'.' ∷ [])
              then only_dots rounds buf next
              else (if is_named buf off (b'.' ∷ b'.' ∷ [])
                  then only_dots rounds buf next
                  else pure false))
        s

module _ {K : Type 0} (blk : Option (Blkdev K)) (junk : Junk) where
  -- The loop that frees the blocks of an inode, the last first; `n` are left.
  unfoldable pub free_blocks : ℕ → List ℕ → ℕ → Fs K (ℤ × List ℕ)
  unfolding free_inode_block
  free_blocks zero inode ino s = pure (pos 0, inode) s
  free_blocks (suc n) inode ino s =
      (do
        block_size ← super Super.block_size
        let size = u32 (get inode 0 Inode.size_lower + (2 ^ 32 - block_size))
        (res, inode') ← free_inode_block blk junk (put inode 0 Inode.size_lower size) ino n
        if is_neg res then pure (res, inode') else free_blocks n inode' ino)
        s

  -- Whether a directory may be unlinked: a negative code if not.
  unfoldable pub unlinkable : ExtVnode → Fs K ℤ
  unfolding read_inode_block only_dots
  unlinkable vn = if not (is_dir vn.type) then pure (pos 0) else do
    block_size ← super Super.block_size
    if ltb block_size (get vn.inode 0 Inode.size_lower) then pure eisdir else do
      (res, block) ← read_inode_block blk vn.inode 0 (junk block_size)
      if is_neg res then pure res else do
        empty ← only_dots (suc (length block)) block 0
        pure (if empty then pos 0 else eisdir)

  -- The result, the directory and the vnode that is unlinked.
  unfoldable pub vnode_unlink : ExtVnode → ExtVnode → CString → Fs K (ℤ × ExtVnode × ExtVnode)
  unfolding unlinkable divisor free_blocks free_inode dir_remove_inode check
  vnode_unlink at vn name = do
    allowed ← unlinkable vn
    if is_neg allowed then pure (allowed, at, vn) else do
      block_size ← super Super.block_size
      divisor block_size
      let n = size_in_blocks (get vn.inode 0 Inode.size_lower) block_size
      let rounded = put vn.inode 0 Inode.size_lower (u32 (n * block_size))
      (res, inode) ← free_blocks n rounded vn.fs_number
      let vn' = record vn { inode = inode }
      if is_neg res then pure (res, at, vn') else do
        check (get inode 0 Inode.size_lower == 0)
        res' ← free_inode blk junk vn.fs_number
        if is_neg res' then pure (res', at, vn') else do
          (res'', at_inode) ← dir_remove_inode blk junk at.inode at.fs_number name vn.fs_number
          pure (if is_neg res'' then res'' else pos 0, record at { inode = at_inode }, vn')
