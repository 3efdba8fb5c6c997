-- ===== src/Ext2/Make.antt =====
-- The operations of src/ext2/ext2vnop.c that make inodes: mkdir, creat and symlink. The directory is
-- returned with its inode as changed in memory.
pub mod Links
use fs_playground.Access.{Cred}
use fs_playground.Base.{
  ℕ, ◌+◌, ◌-◌, not, Option, none, some, List, [], ◌∷◌, leb, if◌then◌else◌, bit, CString, length,
  replicate, take, splice, ℤ, pos, is_neg, is_zero,
}
use fs_playground.Blk.{Blkdev}
use fs_playground.Command.{pure, ◌>>=◌, ◌>>◌, check}
use fs_playground.Ext2.Alloc.{alloc_block, alloc_inode}
use fs_playground.Ext2.Block.{Junk, write_block, write_inode}
use fs_playground.Ext2.Directory.{dir_add_inode}
use fs_playground.Ext2.Dirent
use fs_playground.Ext2.Disk.{Fs, super, within}
use fs_playground.Ext2.Inode
use fs_playground.Ext2.Layout.{put}
use fs_playground.Ext2.Mount.{ExtVnode}
use fs_playground.Ext2.Super
use fs_playground.Vfs.Find.{is_dir}
use fs_playground.Vfs.State.{VnodeType}
use fs_playground.Ext2.Node.{permissions, set_owner}

-- The fields that a new inode of any type gets.
abbrev pub new_fields : List ℕ → List ℕ
new_fields inode =
    let a =
      put (put (put (put inode 0 Inode.flags 0) 0 Inode.dir_acl 0) 0 Inode.frag_block_addr 0) 0
        Inode.gen_number 0 in
    let b = put (put (put a 0 Inode.hard_link_count 1) 0 Inode.acl 0) 0 Inode.os_value_1 0 in
    let c = splice b Inode.os_value_2 (replicate 12 0) in
    put (put (put (put c 0 Inode.atime 0) 0 Inode.mtime 0) 0 Inode.ctime 0) 0 Inode.dtime 0

-- No blocks, direct or indirect.
abbrev pub no_blocks : List ℕ → List ℕ
no_blocks inode =
    put
      (put (put (splice inode Inode.direct_blocks (replicate 48 0)) 0 Inode.l1_indirect_block 0) 0
        Inode.l2_indirect_block 0)
      0 Inode.l3_indirect_block 0

-- The first block of a directory, with "." and "..".
abbrev pub dot_entries : ℕ → ℕ → ℕ → List ℕ
dot_entries block_size self parent =
    let empty = replicate block_size 0 in
    let a =
      put (put (put (put empty 0 Dirent.ino self) 0 Dirent.name_len 1) 0 Dirent.len 12) 0
        Dirent.type_ind 0 in
    let b = splice a Dirent.size (b'.' ∷ []) in
    let c =
      put
        (put (put (put b 12 Dirent.ino parent) 12 Dirent.name_len 2) 12 Dirent.len
          (block_size - 12))
        12 Dirent.type_ind 0 in
    splice c (12 + Dirent.size) (b'.' ∷ b'.' ∷ [])

module _ {K : Type 0} (blk : Option (Blkdev K)) (junk : Junk) (dirent_size : ℕ) where
  -- The directory with its inode changed.
  with_inode : ExtVnode → List ℕ → ExtVnode
  with_inode at inode = record at { inode = inode }

  unfoldable pub vnode_mkdir : ExtVnode → CString → ℕ → Fs K (ℤ × ExtVnode)
  unfolding alloc_inode alloc_block dir_add_inode write_block write_inode within check with_inode
  vnode_mkdir at name mode = do
    check (is_dir at.type)
    block_size ← super Super.block_size
    (res, ino) ← alloc_inode blk junk
    if not (is_zero res) then pure (res, at) else do
      (res', block_no) ← alloc_block blk junk
      if is_neg res' then pure (res', at) else do
        size ← super Super.inode_struct_size
        (added, at_inode) ← dir_add_inode blk junk dirent_size at.inode at.fs_number name ino
        if is_neg added then pure (added, with_inode at at_inode) else do
          within (junk size) 0 Inode.size
          let blank = put (no_blocks (new_fields (junk size))) 0 (Inode.direct_block 0) block_no
          let typed = put blank 0 Inode.type_perm (permissions mode + 0x4000)
          let owned = put (set_owner typed 0 0) 0 Inode.disk_sector_count 0
          let inode = put owned 0 Inode.size_lower block_size
          within (replicate block_size 0) 0 22
          res'' ← write_block blk block_no (dot_entries block_size ino at.fs_number)
          if is_neg res'' then pure (res'', with_inode at at_inode) else do
            written ← write_inode blk junk inode ino
            pure (if is_neg written then written else pos 0, with_inode at at_inode)

  -- The result, the new vnode, and the directory.
  unfoldable pub vnode_creat : ExtVnode → Cred → CString → ℕ → Fs K (ℤ × Option ExtVnode × ExtVnode)
  unfolding alloc_inode dir_add_inode write_inode within check with_inode
  vnode_creat at cred name mode = do
    check (is_dir at.type)
    check (not (bit mode 16))
    (res, ino) ← alloc_inode blk junk
    if not (is_zero res) then pure (res, none, at) else do
      size ← super Super.inode_struct_size
      (added, at_inode) ← dir_add_inode blk junk dirent_size at.inode at.fs_number name ino
      if is_neg added then pure (added, none, with_inode at at_inode) else do
        within (junk size) 0 Inode.size
        let owned = set_owner (no_blocks (new_fields (junk size))) cred.uid cred.gid
        let typed = put owned 0 Inode.type_perm (permissions mode + 0x8000)
        let inode = put (put typed 0 Inode.disk_sector_count 0) 0 Inode.size_lower 0
        written ← write_inode blk junk inode ino
        if is_neg written
            then pure (written, none, with_inode at at_inode)
            else pure (
              pos 0,
              some (record { type = VnodeType.reg; fs_number = ino; inode = inode }),
              with_inode at at_inode,
            )

  -- Where a link's target is kept: in the inode up to 60 bytes, else in a block.
  unfoldable pub store_target : List ℕ → CString → Fs K (ℤ × List ℕ)
  unfolding alloc_block write_block
  store_target inode dst =
      if leb (length dst) 60
      then pure (
        pos 0,
        splice (splice inode Inode.direct_blocks (replicate 60 0)) Inode.direct_blocks dst,
      )
      else (do
        block_size ← super Super.block_size
        (res, block_no) ← alloc_block blk junk
        if is_neg res then pure (res, inode) else do
          res' ← write_block blk block_no (splice (replicate block_size 0) 0 (take block_size dst))
          if is_neg res'
              then pure (res', inode)
              else pure (pos 0, put (no_blocks inode) 0 (Inode.direct_block 0) block_no))

  unfoldable pub vnode_symlink : ExtVnode → Cred → CString → CString → Fs K (ℤ × ExtVnode)
  unfolding alloc_inode dir_add_inode write_inode within store_target with_inode
  vnode_symlink at cred name dst = do
    (res, ino) ← alloc_inode blk junk
    if not (is_zero res) then pure (res, at) else do
      size ← super Super.inode_struct_size
      (added, at_inode) ← dir_add_inode blk junk dirent_size at.inode at.fs_number name ino
      if is_neg added then pure (added, with_inode at at_inode) else do
        within (junk size) 0 Inode.size
        let sized = put (new_fields (junk size)) 0 Inode.size_lower (length dst)
        (stored, kept) ← store_target sized dst
        if is_neg stored then pure (stored, with_inode at at_inode) else do
          let inode = put (set_owner kept cred.uid cred.gid) 0 Inode.type_perm 0xA1FF
          written ← write_inode blk junk inode ino
          pure (if is_neg written then written else pos 0, with_inode at at_inode)
