-- ===== src/Ext2/Node.antt =====
-- The operations of src/ext2/ext2vnop.c that find vnodes, and those on their attributes and links. An
-- inode that an operation changes in memory is returned with the result.
pub mod Attributes
use fs_playground.Base.{
  ℕ, zero, suc, ◌+◌, ◌*◌, ◌/◌, ◌%◌, Bool, true, false, not, ◌&&◌, ◌||◌, Option, none, some, List,
  [], ◌∷◌, ◌==◌, ltb, leb, if◌then◌else◌, CString, length, take, slice, ℤ, pos, is_neg, is_zero,
  eio, enoent,
}
use fs_playground.Blk.{Blkdev}
use fs_playground.Command.{pure, ◌>>=◌, ◌>>◌, check, out_of_fuel}
use fs_playground.Ext2.Block.{Junk, read_inode_block, read_inode, write_inode}
use fs_playground.Ext2.Directory.{is_named, name_fits, size_in_blocks}
use fs_playground.Ext2.Dirent
use fs_playground.Ext2.Disk.{Fs, super, divisor, within}
use fs_playground.Ext2.Inode
use fs_playground.Ext2.Layout.{get, put}
use fs_playground.Ext2.Mount.{ExtVnode, inode_type}
use fs_playground.Ext2.Super
use fs_playground.Vfs.Find.{is_dir}
use fs_playground.Vfs.State.{VnodeType, Stat, Owner}

-- The bytes before the first zero.
abbrev pub c_string : List ℕ → CString
c_string [] = []
c_string (c ∷ cs) = let rest = c_string cs in if c == 0 then [] else c ∷ rest

-- `type_perm & 0x1FF`
abbrev pub permissions : ℕ → ℕ
permissions mode = mode % 512

abbrev pub set_owner : List ℕ → ℕ → ℕ → List ℕ
set_owner inode uid gid = put (put inode 0 Inode.uid uid) 0 Inode.gid gid

-- `type == VN_REG`
abbrev is_reg : VnodeType → Bool
is_reg VnodeType.reg = true
is_reg VnodeType.dir = false
is_reg VnodeType.blk = false
is_reg VnodeType.chr = false
is_reg VnodeType.lnk = false

module _ {K : Type 0} where
  -- The loop over the entries of a block, for a name: the inode's number.
  unfoldable pub find_entry : ℕ → List ℕ → ℕ → CString → Fs K (Option ℕ)
  unfolding within check
  find_entry zero buf off name s = out_of_fuel
  find_entry (suc rounds) buf off name s =
      (do
        within buf off Dirent.size
        let len = get buf off Dirent.len
        let ino = get buf off Dirent.ino
        if len == 0 then pure none else do
          check ((ino == 0) || name_fits buf off name)
          if not (ino == 0) && is_named buf off name
              then pure (some ino)
              else (if leb (length buf) (off + len)
                  then pure none
                  else find_entry rounds buf (off + len) name))
        s

  unfoldable pub vnode_stat : ExtVnode → Fs K (ℤ × Stat)
  unfolding divisor
  vnode_stat vn = do
    block_size ← super Super.block_size
    divisor block_size
    let inode = vn.inode
    let size = get inode 0 Inode.size_lower
    pure (
      pos 0,
      record {
        st_dev = 0;
        st_ino = vn.fs_number;
        st_mode = get inode 0 Inode.type_perm;
        st_nlink = 0;
        st_uid = get inode 0 Inode.uid;
        st_gid = get inode 0 Inode.gid;
        st_rdev = 0;
        st_size = size;
        st_blksize = block_size;
        st_blocks = size_in_blocks size block_size;
        st_atime = get inode 0 Inode.atime;
        st_mtime = get inode 0 Inode.mtime;
        st_ctime = get inode 0 Inode.ctime;
      },
    )

  unfoldable pub vnode_access : ExtVnode → Fs K (ℤ × Owner)
  vnode_access vn = pure (
    pos 0,
    record {
      uid = get vn.inode 0 Inode.uid;
      gid = get vn.inode 0 Inode.gid;
      mode = permissions (get vn.inode 0 Inode.type_perm);
    },
  )

  unfoldable pub vnode_opendir : ExtVnode → Fs K ℤ
  unfolding check
  vnode_opendir vn = do check (is_dir vn.type); pure (pos 0)

  unfoldable pub vnode_open : ExtVnode → Fs K ℤ
  unfolding check
  vnode_open vn = do check (is_reg vn.type); pure (pos 0)

module _ {K : Type 0} (blk : Option (Blkdev K)) (junk : Junk) where
  -- The loop over the blocks of a directory, from block `i`.
  unfoldable pub find_in : ℕ → ℕ → List ℕ → List ℕ → CString → Fs K (ℤ × Option ℕ)
  unfolding find_entry read_inode_block
  find_in zero i buf inode name s = pure (enoent, none) s
  find_in (suc rounds) i buf inode name s =
      (do
        (res, block) ← read_inode_block blk inode i buf
        if is_neg res then pure (eio, none) else do
          found ← find_entry (suc (length block)) block 0 name
          elim found [
            | none ↦ find_in rounds (suc i) block inode name
            | some ino ↦ pure (pos 0, some ino)
          ])
        s

  unfoldable pub vnode_find : ExtVnode → CString → Fs K (ℤ × Option ExtVnode)
  unfolding find_in divisor read_inode inode_type
  vnode_find vn name = do
    block_size ← super Super.block_size
    divisor block_size
    let blocks = size_in_blocks (get vn.inode 0 Inode.size_lower) block_size
    (res, found) ← find_in blocks 0 (junk block_size) vn.inode name
    elim found [
      | none ↦ pure (res, none)
      | some ino ↦ do
        size ← super Super.inode_struct_size
        (res', inode) ← read_inode blk junk (junk size) ino
        if not (is_zero res') then pure (eio, none) else do
          type ← inode_type inode
          pure (pos 0, some (record { type = type; fs_number = ino; inode = inode }))
    ]

  unfoldable pub vnode_chmod : ExtVnode → ℕ → Fs K (ℤ × ExtVnode)
  unfolding write_inode
  vnode_chmod vn mode = do
    let type_perm = get vn.inode 0 Inode.type_perm
    let inode = put vn.inode 0 Inode.type_perm (type_perm / 512 * 512 + permissions mode)
    res ← write_inode blk junk inode vn.fs_number
    pure (res, record vn { inode = inode })

  unfoldable pub vnode_chown : ExtVnode → ℕ → ℕ → Fs K (ℤ × ExtVnode)
  unfolding write_inode
  vnode_chown vn uid gid = do
    let inode = set_owner vn.inode uid gid
    res ← write_inode blk junk inode vn.fs_number
    pure (res, record vn { inode = inode })

  -- The target; a caller has room for it.
  unfoldable pub vnode_readlink : ExtVnode → Fs K (ℤ × CString)
  unfolding read_inode_block
  vnode_readlink vn = do
    let size = get vn.inode 0 Inode.size_lower
    if ltb size 60 then pure (pos 0, c_string (slice vn.inode Inode.direct_blocks size)) else do
      block_size ← super Super.block_size
      (res, block) ← read_inode_block blk vn.inode 0 (junk block_size)
      if is_neg res then pure (res, []) else pure (pos 0, c_string (take size block))
