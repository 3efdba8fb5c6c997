-- ===== src/Ext2/File/Reads.antt =====
-- A read inside one block of a file: ext2_vnode_read of src/ext2/ext2vnop.c.
use fs_playground.Base.{
  ℕ, ◌+◌, ◌-◌, ◌*◌, ◌/◌, ◌%◌, ◌^◌, ◌≤◌, ◌<◌, ◌≡◌, ◌≢◌, ◌∙◌, ap, sym, true, false, Option, List,
  length, leb, ltb, ◌==◌, pos, arith, slice, splice, take, take_all, length-slice, slice-slice,
}
use fs_playground.Blk.{Blkdev}
use fs_playground.Blk.Laws.{IsDisk}
use fs_playground.Command.{ok, check}
use fs_playground.Ext2.Block.{Junk, read_inode_block}
use fs_playground.Ext2.Block.Stores.{read_block_lem}
use fs_playground.Ext2.Disk.{Ext2, divisor, within, memcpy}
use fs_playground.Ext2.File.{u64, lesser, blocks64, read_blocks, vnode_read}
use fs_playground.Ext2.Inode
use fs_playground.Ext2.Layout.{get, u32}
use fs_playground.Ext2.Mount.{ExtVnode}
use fs_playground.Ext2.Super
use native.Mathlib.Nat.{div-eq_of_lt-le}

lesser_le : (x n : ℕ) → n ≤ x → lesser x n ≡ n
lesser_le x n h = ground arith

module _ {K : Type 0} {blk : Option (Blkdev K)} {contents : K → List ℕ} (d : IsDisk blk contents)
    (junk : Junk) (junk_length : (n : ℕ) → length (junk n) ≡ n) (s : Ext2 K) (inode : List ℕ)
    (from n : ℕ) where
  abbrev block_size : ℕ
  block_size = get s.sb 0 Super.block_size

  -- The block of the file in which the bytes stand, and where it begins on the device.
  abbrev number : ℕ
  number = get inode 0 (Inode.direct_block (from / block_size))

  abbrev place : ℕ
  place = u32 (number * block_size)

  -- `n` bytes of a file from the position `from` on stand in one of its direct blocks.
  pub record InBlock : Type 0 where
    pub some_bytes : 0 < n
    pub in_file : from + n ≤ get inode 0 Inode.size_lower
    pub size_small : get inode 0 Inode.size_lower < 2 ^ 32
    pub in_block : from % block_size + n ≤ block_size
    pub bytes_in_block : block_size ≢ 0
    pub block_small : block_size < 2 ^ 32
    pub direct : from / block_size < 12
    pub real_block : number ≢ 0
    pub on_device : place + block_size ≤ length (contents s.dev)

  one_block : InBlock → blocks64 n block_size ≡ 1
  one_block p =
      let e : u64 (n + block_size + (2 ^ 64 - 1)) ≡ n + block_size - 1 =
        omega (arith, p.some_bytes, p.in_file, p.size_small, p.block_small) in
      ap (λ x. x / block_size) e
      ∙ div-eq_of_lt-le {k = 1} block_size {m = n + block_size - 1} (omega (arith, p.some_bytes))
          (omega (arith, p.in_block, p.some_bytes))

  -- On a device that keeps its bytes, a read of at least one byte of a file that lies inside one of
  -- its direct blocks, on the device, returns the count and copies the bytes from their place on
  -- the device, and leaves the device's bytes alone.
  pub vnode_read-InBlock :
      (vn : ExtVnode) (buf : List ℕ)
      → vn.inode ≡ inode
      → InBlock
      → n ≤ length buf
      → (k : K) × (vnode_read blk junk vn from buf n s
          ≡ ok
              (pos n, splice buf 0 (slice (contents s.dev) (place + from % block_size) n))
              (record s { dev = k }))
        × (contents k ≡ contents s.dev)
  unfolding vnode_read read_blocks read_inode_block memcpy within check divisor
  vnode_read-InBlock vn buf same p room =
      let size = get inode 0 Inode.size_lower in
      let start = from % block_size in
      let left : u64 (size + (2 ^ 64 - from)) ≡ size - from =
        omega (arith, p.in_file, p.size_small, p.some_bytes) in
      let all_left : lesser (size - from) n ≡ n =
        lesser_le (size - from) n (omega (arith, p.in_file)) in
      let all_here : lesser (block_size - start) n ≡ n =
        lesser_le (block_size - start) n (omega (arith, p.in_block)) in
      let some : (n == 0) ≡ false = ground (arith, p.some_bytes) in
      let size_some : (block_size == 0) ≡ false = ground (arith, p.bytes_in_block) in
      let index : u32 (0 + from / block_size) ≡ from / block_size = omega (arith, p.direct) in
      let small : ltb (from / block_size) 12 ≡ true = ground (arith, p.direct) in
      let (k, e, kept) =
        read_block_lem d s number (junk block_size) p.real_block p.on_device
          (junk_length block_size) in
      let old = slice (contents s.dev) place block_size in
      let old_len = length-slice (contents s.dev) place block_size p.on_device in
      let found = slice old start n in
      let found_len : length found ≡ n =
        length-slice old start n (omega (arith, old_len, p.in_block)) in
      let into : leb (0 + n) (length buf) ≡ true = ground (arith, room) in
      let whole : leb (0 + n) (length found) ≡ true = ground (arith, found_len) in
      let all : take n found ≡ found = ap (λ m. take m found) (sym found_len) ∙ take_all found in
      let bytes : found ≡ slice (contents s.dev) (place + start) n =
        slice-slice (contents s.dev) place block_size start n p.on_device p.in_block in
      (
        k,
        rw
            (
              same,
              left,
              all_left,
              some,
              size_some,
              one_block p,
              index,
              small,
              e,
              all_here,
              into,
              whole,
              all,
            )
            (ap (λ bs. ok (pos n, splice buf 0 bs) (record s { dev = k })) bytes),
        kept,
      )
