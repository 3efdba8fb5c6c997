-- ===== src/Ext2/Block/Stores.antt =====
-- What src/ext2/ext2blk.c reads from and stores on a device that keeps its bytes.
use fs_playground.Base.{
  ℕ, ◌+◌, ◌*◌, ◌/◌, ◌%◌, ◌≤◌, ◌≡◌, ◌≢◌, refl, ◌∙◌, ap, sym, true, false, ◌==◌, leb, Option, List,
  length, take, splice, slice, pos, arith, take_all, length-splice, length-slice, splice_whole,
  splice-slice-splice, slice-splice, slice-slice,
}
use fs_playground.Blk.{Blkdev}
use fs_playground.Blk.Laws.{IsDisk, blk_read_lem, blk_write_lem}
use fs_playground.Command.{ok, check}
use fs_playground.Ext2.Block.{Junk, read_block, write_block, inode_place, read_inode, write_inode}
use fs_playground.Ext2.Disk.{Ext2, within, memcpy, divisor, group_field}
use fs_playground.Ext2.Group
use fs_playground.Ext2.Layout.{get, u32, pred32}
use fs_playground.Ext2.Super

module _ {K : Type 0} {blk : Option (Blkdev K)} {contents : K → List ℕ}
    (d : IsDisk blk contents) where
  abbrev bytes_per_block : Ext2 K → ℕ
  bytes_per_block s = get s.sb 0 Super.block_size

  -- Where a block begins on the device.
  abbrev block_place : Ext2 K → ℕ → ℕ
  block_place s block = u32 (block * bytes_per_block s)

  pub read_block_lem :
      (s : Ext2 K) (block : ℕ) (buf : List ℕ)
      → block ≢ 0
      → block_place s block + bytes_per_block s ≤ length (contents s.dev)
      → length buf ≡ bytes_per_block s
      → (k : K) × (read_block blk block buf s
          ≡ ok
              (
                pos (bytes_per_block s),
                slice (contents s.dev) (block_place s block) (bytes_per_block s),
              )
              (record s { dev = k }))
        × (contents k ≡ contents s.dev)
  unfolding read_block
  read_block_lem s block buf ne le len =
      let size = bytes_per_block s in
      let at = block_place s block in
      let (k, e, same) = blk_read_lem d buf at size s.dev le (omega (arith, len)) in
      let z : (block == 0) ≡ false = ground (arith, ne) in
      let whole =
        splice_whole buf (slice (contents s.dev) at size)
          (length-slice (contents s.dev) at size le ∙ sym len) in
      (k, rw (z, e, whole) refl, same)

  pub write_block_lem :
      (s : Ext2 K) (block : ℕ) (buf : List ℕ)
      → block ≢ 0
      → block_place s block + bytes_per_block s ≤ length (contents s.dev)
      → length buf ≡ bytes_per_block s
      → (k : K) × (write_block blk block buf s
          ≡ ok (pos (bytes_per_block s)) (record s { dev = k }))
        × (contents k ≡ splice (contents s.dev) (block_place s block) buf)
  unfolding write_block
  write_block_lem s block buf ne le len =
      let size = bytes_per_block s in
      let at = block_place s block in
      let (k, e, stored) = blk_write_lem d buf at size s.dev le (omega (arith, len)) in
      let z : (block == 0) ≡ false = ground (arith, ne) in
      let all : take size buf ≡ buf = ap (λ n. take n buf) (sym len) ∙ take_all buf in
      (k, rw (z, e) refl, stored ∙ ap (splice (contents s.dev) at) all)

  -- The place of an inode in the tables of its group: the group, the block and the offset in it.
  abbrev inode_group : Ext2 K → ℕ → ℕ
  inode_group s ino = pred32 ino / get s.sb 0 Super.block_group_size_inodes

  abbrev inode_start : Ext2 K → ℕ → ℕ
  inode_start s ino =
      u32
        (pred32 ino % get s.sb 0 Super.block_group_size_inodes * get s.sb 0 Super.inode_struct_size)

  abbrev inode_block : Ext2 K → ℕ → ℕ
  inode_block s ino = u32 (
      inode_start s ino / bytes_per_block s
      + get s.bgdt (inode_group s ino * Group.size) Group.inode_table_block)

  -- The inode `ino` has its place at the byte `at` of the device, in a block other than 0 that the
  -- device has and that the inode does not cross.
  pub record IsPlaced (s : Ext2 K) (ino at : ℕ) : Type 0 where
    pub inodes_in_group : get s.sb 0 Super.block_group_size_inodes ≢ 0
    pub bytes_in_block : bytes_per_block s ≢ 0
    pub group_there : (inode_group s ino + 1) * Group.size ≤ length s.bgdt
    pub real_block : inode_block s ino ≢ 0
    pub at_is : at ≡ block_place s (inode_block s ino) + inode_start s ino % bytes_per_block s
    pub on_device : block_place s (inode_block s ino) + bytes_per_block s ≤ length (contents s.dev)
    pub fits :
        inode_start s ino % bytes_per_block s + get s.sb 0 Super.inode_struct_size
        ≤ bytes_per_block s

  inode_place_lem :
      {s : Ext2 K} {ino at : ℕ}
      → IsPlaced s ino at
      → inode_place blk ino s ≡ ok (inode_block s ino, inode_start s ino % bytes_per_block s) s
  unfolding inode_place divisor group_field check
  inode_place_lem {s} {ino} p =
      let a : (get s.sb 0 Super.block_group_size_inodes == 0) ≡ false =
        ground (arith, p.inodes_in_group) in
      let b : leb ((inode_group s ino + 1) * Group.size) (length s.bgdt) ≡ true =
        ground (arith, p.group_there) in
      let c : (bytes_per_block s == 0) ≡ false = ground (arith, p.bytes_in_block) in
      rw (a, b, c) refl

  module _ (junk : Junk) (junk_length : (n : ℕ) → length (junk n) ≡ n) (s : Ext2 K) {ino at : ℕ}
      (p : IsPlaced s ino at) where
    abbrev block : ℕ
    block = inode_block s ino

    abbrev off : ℕ
    off = inode_start s ino % bytes_per_block s

    abbrev inode_size : ℕ
    inode_size = get s.sb 0 Super.inode_struct_size

    -- On a device that keeps its bytes, writing an inode of the size that the superblock says,
    -- whose place lies in a block of the device, returns 0 and stores the inode's bytes at its
    -- place and nothing else.
    pub write_inode-Stored :
        (inode : List ℕ)
        → length inode ≡ inode_size
        → (k : K) × (write_inode blk junk inode ino s ≡ ok (pos 0) (record s { dev = k }))
          × (contents k ≡ splice (contents s.dev) at inode)
    unfolding write_inode memcpy within check
    write_inode-Stored inode len =
        let (k, e, same) =
          read_block_lem s block (junk (bytes_per_block s)) p.real_block p.on_device
            (junk_length _) in
        let old = slice (contents s.dev) (block_place s block) (bytes_per_block s) in
        let old_len : length old ≡ bytes_per_block s =
          length-slice (contents s.dev) _ _ p.on_device in
        let new = splice old off inode in
        let new_len : length new ≡ bytes_per_block s = length-splice old off inode ∙ old_len in
        let s₁ : Ext2 K = record s { dev = k } in
        let (k', e', stored) =
          write_block_lem s₁ block new p.real_block (omega (arith, p.on_device, ap length same))
            new_len in
        let room : leb (off + inode_size) (length old) ≡ true = ground (arith, old_len, p.fits) in
        let whole : leb (0 + inode_size) (length inode) ≡ true = ground (arith, len) in
        let all : take inode_size inode ≡ inode =
          ap (λ n. take n inode) (sym len) ∙ take_all inode in
        (
          k',
          rw (inode_place_lem p, e, room, whole, all, e') refl,
          stored
              ∙ ap (λ c. splice c (block_place s block) new) same
              ∙ splice-slice-splice (contents s.dev) (block_place s block) (bytes_per_block s) off
                  inode p.on_device (omega (arith, p.fits, len))
              ∙ ap (λ x. splice (contents s.dev) x inode) (sym p.at_is),
        )

    -- On a device that keeps its bytes, reading an inode whose place lies in a block of the device
    -- into memory of the size that the superblock says returns 0 and the bytes at its place, and
    -- leaves the device's bytes alone.
    pub read_inode-Read :
        (buf : List ℕ)
        → length buf ≡ inode_size
        → (k : K) × (read_inode blk junk buf ino s
            ≡ ok (pos 0, slice (contents s.dev) at inode_size) (record s { dev = k }))
          × (contents k ≡ contents s.dev)
    unfolding read_inode memcpy within check
    read_inode-Read buf len =
        let (k, e, same) =
          read_block_lem s block (junk (bytes_per_block s)) p.real_block p.on_device
            (junk_length _) in
        let old = slice (contents s.dev) (block_place s block) (bytes_per_block s) in
        let old_len : length old ≡ bytes_per_block s =
          length-slice (contents s.dev) _ _ p.on_device in
        let found = slice old off inode_size in
        let found_len : length found ≡ inode_size =
          length-slice old off inode_size (omega (arith, old_len, p.fits)) in
        let room : leb (off + inode_size) (length old) ≡ true = ground (arith, old_len, p.fits) in
        let into : leb (0 + inode_size) (length buf) ≡ true = ground (arith, len) in
        let whole : leb (0 + inode_size) (length found) ≡ true = ground (arith, found_len) in
        let all : take inode_size found ≡ found =
          ap (λ n. take n found) (sym found_len) ∙ take_all found in
        let copied : splice buf 0 found ≡ found = splice_whole buf found (found_len ∙ sym len) in
        let same_bytes : found ≡ slice (contents s.dev) at inode_size =
          slice-slice (contents s.dev) (block_place s block) (bytes_per_block s) off inode_size
            p.on_device p.fits
          ∙ ap (λ x. slice (contents s.dev) x inode_size) (sym p.at_is) in
        (
          k,
          rw (inode_place_lem p, e, room, into, whole, all, copied)
              (ap (λ bs. ok (pos 0, bs) (record s { dev = k })) same_bytes),
          same,
        )

    -- The inode keeps its place whatever the device holds, as long as it keeps its size.
    pub kept_place :
        (k : K)
        → length (contents k) ≡ length (contents s.dev)
        → IsPlaced (record s { dev = k }) ino at
    kept_place k len = record {
      inodes_in_group = p.inodes_in_group;
      bytes_in_block = p.bytes_in_block;
      group_there = p.group_there;
      real_block = p.real_block;
      at_is = p.at_is;
      on_device = rw len p.on_device;
      fits = p.fits;
    }

  module _ (junk : Junk) (junk_length : (n : ℕ) → length (junk n) ≡ n) where
    -- On a device that keeps its bytes, an inode of the size that the superblock says, whose place
    -- lies in a block of the device, is written with result 0, and read back as it was written with
    -- result 0, and reading leaves the device's bytes alone.
    pub write_inode-read_inode :
        (s : Ext2 K) {ino at : ℕ} (inode buf : List ℕ)
        → IsPlaced s ino at
        → length inode ≡ get s.sb 0 Super.inode_struct_size
        → length buf ≡ get s.sb 0 Super.inode_struct_size
        → (t : Ext2 K) × (u : Ext2 K) × (write_inode blk junk inode ino s ≡ ok (pos 0) t)
          × (read_inode blk junk buf ino t ≡ ok (pos 0, inode) u)
          × (contents u.dev ≡ contents t.dev)
    write_inode-read_inode s {ino} {at} inode buf p len len' =
        let (k, e, stored) = write_inode-Stored junk junk_length s p inode len in
        let size = get s.sb 0 Super.inode_struct_size in
        let whole : length (contents k) ≡ length (contents s.dev) =
          ap length stored ∙ length-splice (contents s.dev) at inode in
        let t : Ext2 K = record s { dev = k } in
        let (k', e', same) =
          read_inode-Read junk junk_length t (kept_place junk junk_length s p k whole) buf len' in
        let read_back : slice (contents k) at size ≡ inode =
          ap (λ c. slice c at size) stored
          ∙ ap (slice (splice (contents s.dev) at inode) at) (sym len)
          ∙ slice-splice (contents s.dev) at inode
              (omega (arith, p.at_is, p.on_device, p.fits, len)) in
        (
          t,
          record t { dev = k' },
          e,
          e' ∙ ap (λ bs. ok (pos 0, bs) (record t { dev = k' })) read_back,
          same,
        )
