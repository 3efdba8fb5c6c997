-- ===== src/Ext2/File/Writes.antt =====
-- A write to a block that a file has, and a read of what was written: `ext2_vnode_write` and
-- `ext2_vnode_read` of src/ext2/ext2vnop.c.
use fs_playground.Base.{
  ℕ, ◌+◌, ◌-◌, ◌*◌, ◌/◌, ◌%◌, ◌^◌, ◌≤◌, ◌<◌, ◌≡◌, ◌≢◌, ◌⊎◌, inr, refl, ◌∙◌, ap, sym, true, false,
  List, ◌==◌, ltb, leb, length, take, slice, splice, take_all, pos, Option, arith, length-slice,
  length-splice, slice-splice, slice-splice_apart, splice-slice-splice, peek-poke, peek-poke_apart,
  length-poke,
}
use fs_playground.Blk.{Blkdev}
use fs_playground.Blk.Laws.{IsDisk}
use fs_playground.Command.{ok, check}
use fs_playground.Ext2.Block.{Junk, read_inode_block, write_inode_block}
use fs_playground.Ext2.Block.Stores.{
  IsPlaced, kept_place, read_block_lem, write_block_lem, write_inode-Stored,
}
use fs_playground.Ext2.Disk.{Ext2, divisor, within, memcpy}
use fs_playground.Ext2.File.{u64, lesser, greater, Progress, write_present, vnode_write, vnode_read}
use fs_playground.Ext2.File.Room.{room-one, room-some, lesser_ge, greater_lt, le_greater}
use fs_playground.Ext2.File.Reads.{InBlock, vnode_read-InBlock}
use fs_playground.Ext2.Inode
use fs_playground.Ext2.Layout.{get, put, u32}
use fs_playground.Ext2.Mount.{ExtVnode}
use fs_playground.Ext2.Super
use native.Mathlib.Nat.{div-add-mod', sub_self}

module _ {K : Type 0} {blk : Option (Blkdev K)} {contents : K → List ℕ} (d : IsDisk blk contents)
    (junk : Junk) (junk_length : (n : ℕ) → length (junk n) ≡ n) where
  abbrev size_of : List ℕ → ℕ
  size_of inode = get inode 0 Inode.size_lower

  abbrev bytes_per_block : Ext2 K → ℕ
  bytes_per_block s = get s.sb 0 Super.block_size

  -- Where the block of a file begins on the device that has the byte `from` of the file.
  abbrev place_of : Ext2 K → List ℕ → ℕ → ℕ
  place_of s inode from =
      u32 (get inode 0 (Inode.direct_block (from / bytes_per_block s)) * bytes_per_block s)

  -- `bytes` can be written to a file at the position `from`: they are some, but not a whole block,
  -- and stay inside a block that the file has on the device; the file's last block is not full.
  pub record Fits (s : Ext2 K) (inode : List ℕ) (from : ℕ) (bytes : List ℕ) : Type 0 where
    pub some_bytes : 0 < length bytes
    pub not_whole : length bytes ≢ bytes_per_block s
    pub in_block : from % bytes_per_block s + length bytes ≤ bytes_per_block s
    pub in_file : from ≤ size_of inode
    pub open_end : size_of inode % bytes_per_block s ≢ 0
    pub small : size_of inode + bytes_per_block s ≤ 2 ^ 32
    pub end_small : from + length bytes < 2 ^ 32
    pub bytes_in_block : bytes_per_block s ≢ 0
    pub direct : from / bytes_per_block s < 12
    pub real_block : get inode 0 (Inode.direct_block (from / bytes_per_block s)) ≢ 0
    pub on_device : place_of s inode from + bytes_per_block s ≤ length (contents s.dev)

  module _ {s : Ext2 K} {inode : List ℕ} {from : ℕ} {bytes : List ℕ}
      (p : Fits s inode from bytes) where
    abbrev started : Progress
    started = record { inode = inode; at = from; written = 0; remaining = length bytes }

    abbrev ended : Progress
    ended = record {
      inode = inode;
      at = from + length bytes;
      written = length bytes;
      remaining = 0;
    }

    -- The round of the loop over the blocks that are there.
    write_present-one :
        (k : K) × (changed : List ℕ) × (write_present blk junk 1 0
            (from / bytes_per_block s)
            bytes
            (junk (bytes_per_block s))
            started
            s
          ≡ ok (ended, changed) (record s { dev = k }))
        × (contents k
            ≡ splice (contents s.dev) (place_of s inode from + from % bytes_per_block s) bytes)
    unfolding write_present read_inode_block write_inode_block memcpy within check slice
    write_present-one =
        let n = length bytes in
        let bs = bytes_per_block s in
        let off = from % bs in
        let number = get inode 0 (Inode.direct_block (from / bs)) in
        let (k, e, same) =
          read_block_lem d s number (junk bs) p.real_block p.on_device (junk_length bs) in
        let old = slice (contents s.dev) (place_of s inode from) bs in
        let old_len : length old ≡ bs =
          length-slice (contents s.dev) (place_of s inode from) bs p.on_device in
        let changed = splice old off bytes in
        let changed_len : length changed ≡ bs = length-splice old off bytes ∙ old_len in
        let (k', e', stored) =
          write_block_lem d (record s { dev = k }) number changed p.real_block
            (omega (arith, ap length same, p.on_device)) changed_len in
        let need : lesser n (bs - off) ≡ n = lesser_ge n (bs - off) (omega (arith, p.in_block)) in
        let partial : (n == bs) ≡ false = ground (arith, p.not_whole) in
        let index : u32 (from / bs + 0) ≡ from / bs = omega (arith, p.direct) in
        let direct : ltb (from / bs) 12 ≡ true = ground (arith, p.direct) in
        let into : leb (off + n) (length old) ≡ true = ground (arith, old_len, p.in_block) in
        let all : take n bytes ≡ bytes = take_all bytes in
        let whole : leb (0 + n) n ≡ true = ground arith in
        let at_end : u64 (from + n) ≡ from + n = omega (arith, p.end_small) in
        let counted : 0 + n ≡ n = omega arith in
        (
          k',
          changed,
          rw
              (
                need,
                partial,
                index,
                direct,
                e,
                whole,
                into,
                all,
                whole,
                all,
                e',
                at_end,
                counted,
                sub_self n,
              )
              refl,
          stored
              ∙ ap (λ c. splice c (place_of s inode from) changed) same
              ∙ splice-slice-splice (contents s.dev) (place_of s inode from) bs off bytes
                  p.on_device p.in_block,
        )

    -- The inode with the new size, where the end moved.
    abbrev kept_inode : List ℕ
    kept_inode = put inode 0 Inode.size_lower (greater (from + length bytes) (size_of inode))

    vnode_write-stored :
        {ino at : ℕ} (vn : ExtVnode)
        → vn.inode ≡ inode
        → vn.fs_number ≡ ino
        → length inode ≡ get s.sb 0 Super.inode_struct_size
        → IsPlaced d s ino at
        → (k : K) × (vnode_write blk junk vn from bytes (length bytes) s
            ≡ ok
                (pos (length bytes), record vn { inode = kept_inode }, from + length bytes)
                (record s { dev = k }))
          × (contents k
              ≡ splice
                  (splice (contents s.dev) (place_of s inode from + from % bytes_per_block s) bytes)
                  at
                  kept_inode)
    unfolding vnode_write divisor check
    vnode_write-stored {ino} {at} vn same number len placed =
        let bs = bytes_per_block s in
        let size = size_of inode in
        let (k, changed, e, stored) = write_present-one in
        let whole : length (contents k) ≡ length (contents s.dev) =
          ap length stored ∙ length-splice (contents s.dev) _ bytes in
        let kept_len : length kept_inode ≡ get s.sb 0 Super.inode_struct_size =
          length-poke inode 4 4 _ ∙ len in
        let (k', e', stored') =
          write_inode-Stored d junk junk_length (record s { dev = k })
            (kept_place d junk junk_length s placed k whole) kept_inode kept_len in
        let inside : ltb size from ≡ false = ground (arith, p.in_file) in
        let some_block : (bs == 0) ≡ false = ground (arith, p.bytes_in_block) in
        let open_room = room-some size bs p.bytes_in_block p.open_end p.small in
        let one = room-one size bs p.bytes_in_block p.open_end p.small in
        let written : (length bytes == 0) ≡ false = ground (arith, p.some_bytes) in
        (
          k',
          rw (same, inside, some_block, open_room, one, e, written, number, e') refl,
          stored' ∙ ap (λ c. splice c at kept_inode) stored,
        )

    -- The block's number in the inode does not change, and the size covers what was written.
    number_kept :
        get kept_inode 0 (Inode.direct_block (from / bytes_per_block s))
        ≡ get inode 0 (Inode.direct_block (from / bytes_per_block s))
    number_kept =
        peek-poke_apart inode 4 4 (greater (from + length bytes) (size_of inode))
          (0 + (40 + 4 * (from / bytes_per_block s))) 4 (inr (omega arith))

    greater_small : greater (from + length bytes) (size_of inode) < 2 ^ 32
    greater_small =
        greater_lt (from + length bytes) (size_of inode) (2 ^ 32) p.end_small
          (omega (arith, p.small, p.bytes_in_block))

    size_kept :
        8 ≤ length inode → size_of kept_inode ≡ greater (from + length bytes) (size_of inode)
    size_kept room =
        peek-poke inode 4 4 (greater (from + length bytes) (size_of inode)) (omega arith)
          greater_small

    -- What was written stands in one block of the file.
    written-InBlock :
        (k : K)
        → 8 ≤ length inode
        → length (contents k) ≡ length (contents s.dev)
        → InBlock d junk junk_length (record s { dev = k }) kept_inode from (length bytes)
    written-InBlock k room whole =
        let size = size_kept room in
        let covers : from + length bytes ≤ greater (from + length bytes) (size_of inode) =
          le_greater (from + length bytes) (size_of inode) in
        let rest = div-add-mod' (size_of inode) (bytes_per_block s) in
        record {
          some_bytes = p.some_bytes;
          in_file = rw size covers;
          size_small = rw size greater_small;
          in_block = p.in_block;
          bytes_in_block = p.bytes_in_block;
          block_small = omega (arith, p.small, p.open_end, rest);
          direct = p.direct;
          real_block = λ e. p.real_block (sym number_kept ∙ e);
          on_device = rw (number_kept, whole) p.on_device;
        }

    -- On a device that keeps its bytes, where bytes (some, but not a whole block) are written to a
    -- file at a position not behind its end, inside a direct block that it has, the last block of
    -- the file is not full, the sizes stay below 4 GiB, and the inode's place on the device lies
    -- apart from that block: ext2_vnode_write returns the count and moves the position behind what
    -- was written, the file's size is then the greater of its size and that position, and
    -- ext2_vnode_read of the count at the position copies the same bytes, and leaves the device's
    -- bytes alone.
    pub vnode_write-vnode_read :
        {ino at : ℕ} (vn : ExtVnode) (buf : List ℕ)
        → vn.inode ≡ inode
        → vn.fs_number ≡ ino
        → length inode ≡ get s.sb 0 Super.inode_struct_size
        → 8 ≤ length inode
        → IsPlaced d s ino at
        → (at + length inode ≤ place_of s inode from)
          ⊎ (place_of s inode from + bytes_per_block s ≤ at)
        → length bytes ≤ length buf
        → (vn' : ExtVnode) × (t : Ext2 K) × (u : Ext2 K) × (vnode_write blk junk vn from bytes
              (length bytes)
              s
            ≡ ok (pos (length bytes), vn', from + length bytes) t)
          × (size_of vn'.inode ≡ greater (from + length bytes) (size_of inode))
          × (vnode_read blk junk vn' from buf (length bytes) t
              ≡ ok (pos (length bytes), splice buf 0 bytes) u)
          × (contents u.dev ≡ contents t.dev)
    vnode_write-vnode_read {ino} {at} vn buf same number len room placed apart fits =
        let start = place_of s inode from + from % bytes_per_block s in
        let n = length bytes in
        let (k, wrote, stored) = vnode_write-stored vn same number len placed in
        let middle_len = length-splice (contents s.dev) start bytes in
        let whole : length (contents k) ≡ length (contents s.dev) =
          ap length stored
          ∙ length-splice (splice (contents s.dev) start bytes) at kept_inode
          ∙ middle_len in
        let vn' : ExtVnode = record vn { inode = kept_inode } in
        let (k', read, kept) =
          vnode_read-InBlock d junk junk_length (record s { dev = k }) kept_inode from n vn' buf
            refl (written-InBlock k room whole) fits in
        let kept_len : length kept_inode ≡ length inode = length-poke inode 4 4 _ in
        let back : slice (contents k) start n ≡ bytes =
          ap (λ c. slice c start n) stored
          ∙ slice-splice_apart (splice (contents s.dev) start bytes) at kept_inode start n
              (omega (arith, apart, kept_len, p.in_block))
              (omega (arith, middle_len, p.on_device, p.in_block))
          ∙ slice-splice (contents s.dev) start bytes (omega (arith, p.on_device, p.in_block)) in
        (
          vn',
          record s { dev = k },
          record s { dev = k' },
          wrote,
          size_kept room,
          read ∙ rw (number_kept, back) refl,
          kept,
        )
