-- ===== src/Ext2/Alloc.antt =====
-- Allocation of blocks and inodes: src/ext2/ext2alloc.c. The source spells the same search and the
-- same bookkeeping out for blocks and for inodes; here they are one, over what is allocated.
-- `1 << k` is a shift of an `int`, and undefined from k = 31 on.
pub mod Search
pub mod Usage
pub mod Found
pub mod Taken
pub mod Freed
use fs_playground.Base.{
  ℕ, zero, suc, ◌+◌, ◌-◌, ◌*◌, ◌/◌, ◌%◌, ◌^◌, Bool, true, not, Option, none, some, List, ◌==◌, ltb,
  if◌then◌else◌, bit, clear_bit, ℤ, pos, is_neg, enospc,
}
use fs_playground.Blk.{Blkdev}
use fs_playground.Command.{pure, ◌>>=◌, ◌>>◌, check, stop}
use fs_playground.Ext2.Block.{Junk, write_superblock, read_block, write_block, write_inode}
use fs_playground.Ext2.Disk.{
  Fs, super, set_super, group_field, set_group_field, table_bytes, divisor, within,
}
use fs_playground.Ext2.Group
use fs_playground.Ext2.Inode
use fs_playground.Ext2.Layout.{Field, get, put, u32, pred32, set_bit}
use fs_playground.Ext2.Super
use fs_playground.Base.{peek, poke}

pub data Kind : Type 0 where
  a_block an_inode : Kind

-- The usage bitmap of a group, the counts of what is free, and the size of a group.
abbrev pub bitmap_of : Kind → Field
bitmap_of a_block = Group.block_usage_bitmap_block
bitmap_of an_inode = Group.inode_usage_bitmap_block

abbrev pub free_in_group : Kind → Field
free_in_group a_block = Group.free_blocks
free_in_group an_inode = Group.free_inodes

abbrev pub free_in_all : Kind → Field
free_in_all a_block = Super.free_block_count
free_in_all an_inode = Super.free_inode_count

abbrev pub group_size : Kind → Field
group_size a_block = Super.block_group_size_blocks
group_size an_inode = Super.block_group_size_inodes

-- Whether a number that was found ends the search: for inodes, `res_ino` is also the flag.
abbrev pub ends_search : Kind → ℕ → Bool
ends_search a_block number = true
ends_search an_inode number = not (number == 0)

-- The 64-bit word `j` of a bitmap, and the bitmap with that word changed.
abbrev pub word : List ℕ → ℕ → ℕ
word buf j = peek buf (8 * j) 8

abbrev pub set_word : List ℕ → ℕ → ℕ → List ℕ
set_word buf j w = poke buf (8 * j) 8 w

-- What a search has found: the group, the number in the group, and the buffer with the bitmap.
pub record Hit : Type 0 where
  pub group : ℕ
  pub in_group : ℕ
  pub bitmap : List ℕ

module _ {K : Type 0} where
  -- The loop over the bits of a word, from bit `k`. From `k = 31` on C does not define `1 << k` of an
  -- int, so that what the loop does there is not in the source: a fault stands for it.
  unfoldable pub first_zero : ℕ → ℕ → ℕ → Fs K (Option ℕ)
  unfolding check
  first_zero zero qw k s = pure none s
  first_zero (suc rounds) qw k s =
      (do check (ltb k 31); if not (bit qw k) then pure (some k) else first_zero rounds qw (suc k))
        s

  -- The loop over the words of a bitmap, from word `j`; `base` is the number before the group.
  unfoldable pub find_bit : Kind → ℕ → ℕ → List ℕ → ℕ → Fs K (Option ℕ)
  unfolding first_zero within
  find_bit kind base zero buf j s = pure none s
  find_bit kind base (suc rounds) buf j s =
      (do
        within buf (8 * j) 8
        if word buf j == 2 ^ 64 - 1 then find_bit kind base rounds buf (suc j) else do
          found ← first_zero 64 (word buf j) 0
          elim found [
            | none ↦ find_bit kind base rounds buf (suc j)
            | some k ↦
                if ends_search kind (u32 (k + j * 64 + base + 1))
                then pure (some (k + j * 64))
                else find_bit kind base rounds buf (suc j)
          ])
        s

module _ {K : Type 0} (blk : Option (Blkdev K)) (junk : Junk) where
  -- The loop over the groups, from group `i`. A negative code is that of a failed read.
  unfoldable pub find_free : Kind → ℕ → ℕ → List ℕ → Fs K (ℤ × Option Hit)
  unfolding find_bit group_field read_block
  find_free kind zero i buf s = pure (pos 0, none) s
  find_free kind (suc rounds) i buf s =
      (do
        free ← group_field i (free_in_group kind)
        if free == 0 then find_free kind rounds (suc i) buf else do
          bitmap_block ← group_field i (bitmap_of kind)
          (res, bitmap) ← read_block blk bitmap_block buf
          if is_neg res then pure (res, none) else do
            block_size ← super Super.block_size
            per_group ← super (group_size kind)
            found ← find_bit kind (i * per_group) (block_size / 8) bitmap 0
            elim found [
              | none ↦ find_free kind rounds (suc i) bitmap
              | some n ↦ pure (pos 0, some (record { group = i; in_group = n; bitmap = bitmap }))
            ])
        s

  -- The loop that writes the descriptor table back, from its block `i`.
  unfoldable pub write_table : ℕ → ℕ → Fs K ℤ
  unfolding write_block
  write_table zero i s = pure (pos 0) s
  write_table (suc rounds) i s =
      (do
        first ← super Super.block_group_descriptor_table_block
        block_size ← super Super.block_size
        bytes ← table_bytes (i * block_size) block_size
        res ← write_block blk (u32 (first + i)) bytes
        if is_neg res then pure res else write_table rounds (suc i))
        s

  -- The count in the group's descriptor changes, and the table is written.
  unfoldable pub save_table : Kind → (ℕ → ℕ) → ℕ → Fs K ℤ
  unfolding group_field set_group_field write_table
  save_table kind step16 group = do
    free ← group_field group (free_in_group kind)
    set_group_field group (free_in_group kind) (step16 free)
    blocks ← super Super.block_group_descriptor_table_size_blocks
    write_table blocks 0

  -- The count in the superblock changes, and the superblock is written.
  unfoldable pub save_super : Kind → (ℕ → ℕ) → Fs K ℤ
  unfolding write_superblock
  save_super kind step32 = do
    all ← super (free_in_all kind)
    set_super (free_in_all kind) (step32 all)
    res ← write_superblock blk
    pure (if is_neg res then res else pos 0)

  -- The bitmap is written, then both counts.
  unfoldable pub save_usage : Kind → (ℕ → ℕ) → (ℕ → ℕ) → ℕ → List ℕ → Fs K ℤ
  unfolding group_field write_block save_table save_super
  save_usage kind step16 step32 group bitmap = do
    bitmap_block ← group_field group (bitmap_of kind)
    res ← write_block blk bitmap_block bitmap
    if is_neg res then pure res else do
      res' ← save_table kind step16 group
      if is_neg res' then pure res' else save_super kind step32

  -- What was found is marked as used and counted.
  unfoldable pub take_hit : Kind → Hit → Fs K (ℤ × ℕ)
  unfolding save_usage within
  take_hit kind hit = do
    per_group ← super (group_size kind)
    let j = hit.in_group / 64
    within hit.bitmap (8 * j) 8
    let used = set_word hit.bitmap j (set_bit (word hit.bitmap j) (hit.in_group % 64))
    saved ← save_usage kind (λ n. (n + (2 ^ 16 - 1)) % 2 ^ 16) pred32 hit.group used
    if is_neg saved
        then pure (saved, 0)
        else pure (pos 0, u32 (hit.in_group + hit.group * per_group + 1))

  -- The result, and what is stored through the pointer where the result is 0.
  unfoldable pub allocate : Kind → Fs K (ℤ × ℕ)
  unfolding find_free take_hit
  allocate kind = do
    block_size ← super Super.block_size
    groups ← super Super.block_group_count
    (res, found) ← find_free kind groups 0 (junk block_size)
    if is_neg res
        then pure (res, 0)
        else (elim found [ none ↦ pure (enospc, 0) | some hit ↦ take_hit kind hit ])

  -- A number that is used is marked as free, and counted.
  unfoldable pub put_back : Kind → ℕ → ℕ → List ℕ → Fs K ℤ
  unfolding within check save_usage
  put_back kind group in_group bitmap = do
    let j = in_group / 64
    within bitmap (8 * j) 8
    check (ltb (in_group % 64) 31)
    check (bit (word bitmap j) (in_group % 64))
    let unused = set_word bitmap j (clear_bit (word bitmap j) (in_group % 64))
    save_usage kind (λ n. (n + 1) % 2 ^ 16) (λ n. u32 (n + 1)) group unused

  unfoldable pub release : Kind → ℕ → Fs K ℤ
  unfolding divisor group_field read_block put_back check
  release kind number = do
    check (not (number == 0))
    block_size ← super Super.block_size
    per_group ← super (group_size kind)
    divisor per_group
    let group = pred32 number / per_group
    bitmap_block ← group_field group (bitmap_of kind)
    (res, bitmap) ← read_block blk bitmap_block (junk block_size)
    if is_neg res then pure res else put_back kind group (pred32 number % per_group) bitmap

  unfoldable pub alloc_block : Fs K (ℤ × ℕ)
  unfolding allocate
  alloc_block = allocate a_block

  unfoldable pub free_block : ℕ → Fs K ℤ
  unfolding release
  free_block = release a_block

  unfoldable pub alloc_inode : Fs K (ℤ × ℕ)
  unfolding allocate
  alloc_inode = allocate an_inode

  unfoldable pub free_inode : ℕ → Fs K ℤ
  unfolding release
  free_inode = release an_inode

  -- The result and the inode, as all that change it in memory.
  unfoldable pub inode_alloc_block : List ℕ → ℕ → ℕ → Fs K (ℤ × List ℕ)
  unfolding alloc_block write_inode
  inode_alloc_block inode ino index = if not (ltb index 12) then stop else do
    (res, block_no) ← alloc_block
    if is_neg res then pure (res, inode) else do
      let inode' = put inode 0 (Inode.direct_block index) block_no
      res' ← write_inode blk junk inode' ino
      pure (res', inode')

  unfoldable pub free_inode_block : List ℕ → ℕ → ℕ → Fs K (ℤ × List ℕ)
  unfolding free_block write_inode
  free_inode_block inode ino index = if not (ltb index 12) then stop else do
    res ← free_block (get inode 0 (Inode.direct_block index))
    if is_neg res then pure (res, inode) else do
      let inode' = put inode 0 (Inode.direct_block index) 0
      res' ← write_inode blk junk inode' ino
      pure (res', inode')
