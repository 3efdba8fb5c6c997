-- ===== src/Ext2/Directory.antt =====
-- The entries of a directory: src/ext2/ext2dir.c. An entry stands at an offset in a block, `len`
-- bytes before the next. `dirent_size` is `sizeof(struct dirent)` of the C library.
pub mod Walks
pub mod Entry
pub mod Insert
pub mod Chain
pub mod Split
pub mod Lookup
pub mod Added
pub mod OnDisk
pub mod Moved
pub mod Shrunk
pub mod Dropped
use fs_playground.Base.{
  ℕ, zero, suc, ◌+◌, ◌-◌, ◌/◌, ◌%◌, ◌^◌, Bool, not, ◌&&◌, ◌||◌, Option, none, some, List, ◌==◌, ltb,
  leb, if◌then◌else◌, CString, bytes_eq, length, replicate, take, slice, splice, ℤ, pos, is_neg,
  eio,
}
use fs_playground.Blk.{Blkdev}
use fs_playground.Command.{pure, ◌>>=◌, ◌>>◌, check, stop, out_of_fuel}
use fs_playground.Ext2.Alloc.{free_block, inode_alloc_block}
use fs_playground.Ext2.Block.{Junk, read_inode_block, write_inode_block, write_inode}
use fs_playground.Ext2.Dirent
use fs_playground.Ext2.Disk.{Fs, super, divisor, within, memcpy}
use fs_playground.Ext2.Inode
use fs_playground.Ext2.Layout.{get, put, u32, align4}
use fs_playground.Ext2.Super

-- The bytes of an entry's name, as far as `name_len` says.
abbrev pub name_at : List ℕ → ℕ → List ℕ
name_at buf off = slice buf (off + Dirent.size) (get buf off Dirent.name_len)

-- `name_len == strlen(name) && !strncmp(entry->name, name, name_len)`
abbrev pub is_named : List ℕ → ℕ → CString → Bool
is_named buf off name =
    (get buf off Dirent.name_len == length name) && bytes_eq (name_at buf off) name

-- An entry with a name of which `name_len` keeps the length's low byte.
abbrev pub put_entry : List ℕ → ℕ → ℕ → ℕ → CString → List ℕ
put_entry buf off ino len name =
    splice
      (put
        (put (put (put buf off Dirent.len len) off Dirent.name_len (length name)) off
          Dirent.type_ind 0)
        off Dirent.ino ino)
      (off + Dirent.size) (take (length name % 256) name)

-- The bytes that an entry needs.
abbrev pub entry_space : ℕ → ℕ → ℕ
entry_space name_len header = align4 (name_len + header)

-- What the walk over a block's entries ends in: the block, changed, or no place.
pub data Placed : Type 0 where
  full : Placed
  placed : List ℕ → Placed

-- The number of blocks of a file, in 32 bits.
abbrev pub size_in_blocks : ℕ → ℕ → ℕ
size_in_blocks size block_size = u32 (size + block_size + (2 ^ 32 - 1)) / block_size

module _ {K : Type 0} (dirent_size : ℕ) where
  -- The loop over the entries of a block, for a place where an entry can be split.
  unfoldable pub place_entry : ℕ → List ℕ → ℕ → CString → ℕ → Fs K Placed
  unfolding within check
  place_entry zero buf off name ino s = out_of_fuel
  place_entry (suc rounds) buf off name ino s =
      (if not (ltb off (length buf)) then pure full else do
        within buf off Dirent.size
        let len = get buf off Dirent.len
        let real_len = entry_space (get buf off Dirent.name_len) dirent_size
        if ltb real_len len && leb (entry_space (length name) Dirent.size) (len - real_len)
            then (do
              check ((off + real_len) % 4 == 0)
              within buf (off + real_len) (Dirent.size + length name % 256)
              pure (
                  placed (
                    put (put_entry buf (off + real_len) ino (len - real_len) name) off Dirent.len
                      real_len)))
            else place_entry rounds buf (off + len) name ino)
        s

module _ {K : Type 0} (blk : Option (Blkdev K)) (junk : Junk) (dirent_size : ℕ) where
  -- The loop over the blocks of the directory, from block `i`; `none` if no block has a place.
  unfoldable pub place_in : ℕ → ℕ → List ℕ → List ℕ → CString → ℕ → Fs K (Option ℤ)
  unfolding place_entry read_inode_block write_inode_block
  place_in zero i buf inode name ino s = pure none s
  place_in (suc rounds) i buf inode name ino s =
      (do
        (res, block) ← read_inode_block blk inode i buf
        if is_neg res then pure (some res) else do
          p ← place_entry dirent_size (suc (length block)) block 0 name ino
          elim p [
            | full ↦ place_in rounds (suc i) block inode name ino
            | placed block' ↦ do
              res' ← write_inode_block blk inode i block'
              pure (some (if is_neg res' then res' else pos 0))
          ])
        s

  -- The result and the directory's inode; `dir` is the directory's own number.
  unfoldable pub dir_add_inode : List ℕ → ℕ → CString → ℕ → Fs K (ℤ × List ℕ)
  unfolding place_in inode_alloc_block within write_inode_block divisor
  dir_add_inode inode dir name ino = do
    block_size ← super Super.block_size
    divisor block_size
    let size = get inode 0 Inode.size_lower
    let blocks = size_in_blocks size block_size
    done ← place_in blocks 0 (junk block_size) inode name ino
    elim done [
      | some res ↦ pure (res, inode)
      | none ↦ do
        let grown = put inode 0 Inode.size_lower (u32 (size + block_size))
        (res, inode') ← inode_alloc_block blk junk grown dir blocks
        if is_neg res
            then pure (
              res,
              put inode' 0 Inode.size_lower
                  (u32 (get inode' 0 Inode.size_lower + (2 ^ 32 - block_size))),
            )
            else do
              let empty = replicate block_size 0
              within empty 0 (Dirent.size + length name % 256)
              res' ← write_inode_block blk inode' blocks (put_entry empty 0 ino block_size name)
              pure (res', inode')
    ]

-- What the walk for an entry to remove ends in: not there, the block's only entry, or the block
-- without it.
pub data Removed : Type 0 where
  missing : Removed
  only : Removed
  removed : List ℕ → Removed

-- The bytes that `strncmp` compares, where the lengths agree, lie in the block.
abbrev pub name_fits : List ℕ → ℕ → CString → Bool
name_fits buf off name =
    not (get buf off Dirent.name_len == length name)
    || leb (off + Dirent.size + length name) (length buf)

module _ {K : Type 0} where
  unfoldable pub name_within : List ℕ → ℕ → CString → Fs K (Unit {0})
  unfolding check
  name_within buf off name = check (name_fits buf off name)

  -- The loop over the entries of a block; `prev` is the offset of the entry before.
  unfoldable pub remove_entry : ℕ → List ℕ → Option ℕ → ℕ → CString → ℕ → Fs K Removed
  unfolding within check memcpy name_within
  remove_entry zero buf prev off name ino s = out_of_fuel
  remove_entry (suc rounds) buf prev off name ino s =
      (if not (ltb off (length buf)) then pure missing else do
        within buf off Dirent.size
        let len = get buf off Dirent.len
        name_within buf off name
        if not (is_named buf off name)
            then remove_entry rounds buf (some off) (off + len) name ino
            else do
              check (get buf off Dirent.ino == ino)
              if leb (length buf) (len + off)
                  then (elim prev [
                    | none ↦ pure only
                    | some p ↦
                        pure
                          (removed (put buf p Dirent.len ((get buf p Dirent.len + len) % 2 ^ 16)))
                  ])
                  else do
                    within buf (off + len) Dirent.size
                    let next_len = get buf (off + len) Dirent.len
                    within buf (off + len) next_len
                    moved ← memcpy buf off (slice buf (off + len) next_len) next_len
                    check ((off + len) % 4 == 0)
                    pure (
                        removed
                          (put moved off Dirent.len ((get moved off Dirent.len + len) % 2 ^ 16))))
        s

module _ {K : Type 0} (blk : Option (Blkdev K)) (junk : Junk) where
  -- The loop that moves the block numbers behind `i` one down.
  abbrev shift_blocks : ℕ → ℕ → List ℕ → List ℕ
  shift_blocks zero i inode = inode
  shift_blocks (suc rounds) i inode =
      shift_blocks rounds (suc i)
        (put inode 0 (Inode.direct_block i) (get inode 0 (Inode.direct_block (suc i))))

  unfoldable pub free_block_index : List ℕ → ℕ → ℕ → ℕ → Fs K (ℤ × List ℕ)
  unfolding free_block write_inode
  free_block_index inode index ino sz = if not (ltb index 12) then stop else do
    res ← free_block blk junk (get inode 0 (Inode.direct_block index))
    if is_neg res then pure (res, inode) else do
      let shifted = put (shift_blocks (11 - index) index inode) 0 (Inode.direct_block 11) 0
      let inode' =
          put shifted 0 Inode.size_lower (u32 (get shifted 0 Inode.size_lower + (2 ^ 32 - sz)))
      res' ← write_inode blk junk inode' ino
      pure (res', inode')

  unfoldable pub remove_in : ℕ → ℕ → List ℕ → List ℕ → ℕ → CString → ℕ → Fs K (ℤ × List ℕ)
  unfolding remove_entry read_inode_block write_inode_block free_block_index
  remove_in zero i buf inode dir name ino s = pure (eio, inode) s
  remove_in (suc rounds) i buf inode dir name ino s =
      (do
        (res, block) ← read_inode_block blk inode i buf
        if is_neg res then pure (res, inode) else do
          r ← remove_entry (suc (length block)) block none 0 name ino
          elim r [
            | missing ↦ remove_in rounds (suc i) block inode dir name ino
            | only ↦ do block_size ← super Super.block_size; free_block_index inode i dir block_size
            | removed block' ↦ do res' ← write_inode_block blk inode i block'; pure (res', inode)
          ])
        s

  unfoldable pub dir_remove_inode : List ℕ → ℕ → CString → ℕ → Fs K (ℤ × List ℕ)
  unfolding remove_in divisor
  dir_remove_inode inode dir name ino = do
    block_size ← super Super.block_size
    divisor block_size
    remove_in (size_in_blocks (get inode 0 Inode.size_lower) block_size) 0 (junk block_size) inode
        dir name ino
