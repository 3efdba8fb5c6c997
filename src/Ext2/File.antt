-- ===== src/Ext2/File.antt =====
-- The operations of src/ext2/ext2vnop.c on the contents of files. Counts and positions are
-- `size_t`, of 64 bits.
pub mod Reads
pub mod Room
pub mod Writes
use fs_playground.Base.{
  ℕ, zero, suc, ◌+◌, ◌-◌, ◌*◌, ◌/◌, ◌%◌, ◌^◌, not, Option, none, some, List, ◌==◌, ltb, leb,
  if◌then◌else◌, CString, length, slice, ℤ, pos, negsuc, is_neg, eio, einval, espipe,
}
use fs_playground.Blk.{Blkdev}
use fs_playground.Command.{pure, ◌>>=◌, ◌>>◌, stop}
use fs_playground.Ext2.Alloc.{inode_alloc_block, free_inode_block}
use fs_playground.Ext2.Block.{Junk, read_inode_block, write_inode_block, write_inode}
use fs_playground.Ext2.Directory.{size_in_blocks}
use fs_playground.Ext2.Dirent
use fs_playground.Ext2.Disk.{Fs, super, divisor, within, memcpy}
use fs_playground.Ext2.Inode
use fs_playground.Ext2.Layout.{get, put, u32}
use fs_playground.Ext2.Mount.{ExtVnode}
use fs_playground.Ext2.Node.{c_string}
use fs_playground.Ext2.Super

abbrev pub u64 : ℕ → ℕ
u64 n = n % 2 ^ 64

abbrev pub lesser : ℕ → ℕ → ℕ
lesser x y = if ltb y x then y else x

abbrev pub greater : ℕ → ℕ → ℕ
greater x y = if ltb y x then x else y

-- `(n + block_size - 1) / block_size` on `size_t`.
abbrev pub blocks64 : ℕ → ℕ → ℕ
blocks64 n block_size = u64 (n + block_size + (2 ^ 64 - 1)) / block_size

-- `struct dirent` as `readdir` fills it.
pub record VfsDirent : Type 0 where
  pub d_ino : ℕ
  pub d_name : CString
  pub d_reclen : ℕ
  pub d_type : ℕ
  pub d_off : ℕ

-- What a write goes on with: the vnode's inode, the position, and the bytes written and remaining.
pub record Progress : Type 0 where
  pub inode : List ℕ
  pub at : ℕ
  pub written : ℕ
  pub remaining : ℕ

abbrev advanced : Progress → ℕ → Progress
advanced p n = record p {
  at = u64 (p.at + n);
  written = p.written + n;
  remaining = p.remaining - n;
}

module _ {K : Type 0} (blk : Option (Blkdev K)) (junk : Junk) where
  -- The loop of a read, at block `i` of those it needs: the result, and the buffer.
  unfoldable pub read_blocks : ℕ → ℕ → List ℕ → ℕ → ℕ → List ℕ → List ℕ → Fs K (ℤ × List ℕ)
  unfolding read_inode_block memcpy
  read_blocks zero i inode from nread buf block s = pure (pos nread, buf) s
  read_blocks (suc rounds) i inode from nread buf block s =
      (do
        block_size ← super Super.block_size
        (res, read) ← read_inode_block blk inode (u32 (i + from / block_size)) block
        if is_neg res then pure (eio, buf) else do
          let start = from % block_size
          let first = lesser (block_size - start) nread
          let next = lesser block_size (nread - block_size * i)
          copied ←
              (if i == 0
                then memcpy buf 0 (slice read start first) first
                else memcpy buf (block_size * i) read next)
          read_blocks rounds (suc i) inode from nread copied read)
        s

  -- The result, and what is then in the buffer.
  unfoldable pub vnode_read : ExtVnode → ℕ → List ℕ → ℕ → Fs K (ℤ × List ℕ)
  unfolding read_blocks divisor
  vnode_read vn from buf count = do
    let left = u64 (get vn.inode 0 Inode.size_lower + (2 ^ 64 - from))
    let nread = lesser left count
    if nread == 0 then pure (negsuc 0, buf) else do
      block_size ← super Super.block_size
      divisor block_size
      read_blocks (blocks64 nread block_size) 0 vn.inode from nread buf (junk block_size)

  -- The loop over the blocks that are there, from block `i` behind `current`.
  unfoldable pub write_present : ℕ → ℕ → ℕ → List ℕ → List ℕ → Progress → Fs K (Progress × List ℕ)
  unfolding read_inode_block write_inode_block memcpy
  write_present zero i current buf block p s = pure (p, block) s
  write_present (suc rounds) i current buf block p s =
      (do
        block_size ← super Super.block_size
        let index = u32 (current + i)
        let start = p.at % block_size
        let need = lesser p.remaining (block_size - start)
        if need == block_size then stop else do
          (res, read) ← read_inode_block blk p.inode index block
          if is_neg res then pure (p, read) else do
            within buf p.written need
            changed ← memcpy read start (slice buf p.written need) need
            res' ← write_inode_block blk p.inode index changed
            if is_neg res'
                then pure (p, changed)
                else write_present rounds (suc i) current buf changed (advanced p need))
        s

  -- The loop over the blocks that are allocated, from block `i` behind `current`.
  unfoldable pub write_new : ℕ → ℕ → ℕ → ℕ → List ℕ → List ℕ → Progress → Fs K Progress
  unfolding inode_alloc_block write_inode_block memcpy
  write_new zero i ino current buf block p s = pure p s
  write_new (suc rounds) i ino current buf block p s =
      (do
        block_size ← super Super.block_size
        let index = u32 (current + i)
        let need = lesser p.remaining block_size
        let grown = put p.inode 0 Inode.size_lower (u32 (get p.inode 0 Inode.size_lower + need))
        (res, inode) ← inode_alloc_block blk junk grown ino index
        let q : Progress = record p { inode = inode }
        if is_neg res
            then pure q
            else (if need == block_size then stop else do
              within buf p.written need
              changed ← memcpy block 0 (slice buf p.written need) need
              res' ← write_inode_block blk inode index changed
              if is_neg res'
                  then pure q
                  else write_new rounds (suc i) ino current buf changed (advanced q need)))
        s

  -- The result, the vnode and the position behind the bytes written.
  unfoldable pub vnode_write : ExtVnode → ℕ → List ℕ → ℕ → Fs K (ℤ × ExtVnode × ℕ)
  unfolding write_present write_new divisor write_inode
  vnode_write vn from buf count = do
    block_size ← super Super.block_size
    let size = get vn.inode 0 Inode.size_lower
    if ltb size from then pure (espipe, vn, from) else do
      divisor block_size
      let room = u64 (size_in_blocks size block_size * block_size + (2 ^ 64 - size))
      let current = from / block_size
      let start : Progress = record { inode = vn.inode; at = from; written = 0; remaining = count }
      let present = if room == 0 then 0 else blocks64 room block_size
      (p, block) ← write_present present 0 current buf (junk block_size) start
      let kept =
          if room == 0
          then p.inode
          else put p.inode 0 Inode.size_lower (greater p.at (get p.inode 0 Inode.size_lower))
      let q : Progress = record p { inode = kept }
      if p.remaining == 0
          then (do
            (if p.written == 0 then pure (pos 0) else write_inode blk junk kept vn.fs_number)
            pure (pos p.written, record vn { inode = kept }, p.at))
          else (do
            r ←
                write_new (blocks64 p.remaining block_size) 0 vn.fs_number (current + present) buf
                  block q
            pure (pos r.written, record vn { inode = r.inode }, r.at))

  -- The loop that frees the blocks from `i` on.
  unfoldable pub truncate_blocks : ℕ → ℕ → List ℕ → ℕ → Fs K (ℤ × List ℕ)
  unfolding free_inode_block
  truncate_blocks zero i inode ino s = pure (pos 0, inode) s
  truncate_blocks (suc rounds) i inode ino s =
      (do
        block_size ← super Super.block_size
        let size = u32 (get inode 0 Inode.size_lower + (2 ^ 32 - block_size))
        (res, inode') ← free_inode_block blk junk (put inode 0 Inode.size_lower size) ino (u32 i)
        if is_neg res
            then pure (
              res,
              put inode' 0 Inode.size_lower (u32 (get inode' 0 Inode.size_lower + block_size)),
            )
            else truncate_blocks rounds (suc i) inode' ino)
        s

  unfoldable pub vnode_truncate : ExtVnode → ℕ → Fs K (ℤ × ExtVnode)
  unfolding truncate_blocks divisor write_inode
  vnode_truncate vn len = do
    let size = get vn.inode 0 Inode.size_lower
    if len == size then pure (pos 0, vn) else do
      block_size ← super Super.block_size
      divisor block_size
      let was = size_in_blocks size block_size
      let now = blocks64 len block_size
      if not (ltb now was) then pure (einval, vn) else do
        (res, inode) ← truncate_blocks (was - now) now vn.inode vn.fs_number
        if is_neg res
            then pure (res, record vn { inode = inode })
            else (if get inode 0 Inode.size_lower == len
                then pure (pos 0, record vn { inode = inode })
                else do
                  let cut = put inode 0 Inode.size_lower len
                  res' ← write_inode blk junk cut vn.fs_number
                  pure (if is_neg res' then res' else pos 0, record vn { inode = cut }))

  -- The result, the entry, and the position behind it. The length is in the first 6 bytes of an
  -- entry, and `strncpy` reads the name up to its zero byte.
  unfoldable pub vnode_readdir : ExtVnode → ℕ → Fs K (ℤ × Option VfsDirent × ℕ)
  unfolding read_inode_block divisor within
  vnode_readdir vn from =
      if leb (get vn.inode 0 Inode.size_lower) from then pure (negsuc 0, none, from) else do
        block_size ← super Super.block_size
        divisor block_size
        (res, block) ← read_inode_block blk vn.inode (u32 (from / block_size)) (junk block_size)
        if is_neg res then pure (eio, none, from) else do
          let off = from % block_size
          within block off 6
          let len = get block off Dirent.len
          if len == 0 then pure (negsuc 0, none, blocks64 from block_size) else do
            within block off Dirent.size
            let name_len = get block off Dirent.name_len
            let there = slice block (off + Dirent.size) name_len
            (if ltb (length (c_string there)) (length there)
                then pure tt
                else within block (off + Dirent.size) name_len)
            pure (
              pos 0,
              some (record {
                d_ino = get block off Dirent.ino;
                d_name = c_string there;
                d_reclen = len;
                d_type = get block off Dirent.type_ind;
                d_off = 0;
              }),
              u64 (from + len),
            )
