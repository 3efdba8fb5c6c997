-- ===== src/Ext2/Directory/OnDisk.antt =====
-- Adding an entry to a directory on a device, and finding it there: `ext2_dir_add_inode` of
-- src/ext2/ext2dir.c and the search of `ext2_vnode_find`.
use fs_playground.Base.{
  ℕ, suc, ◌+◌, ◌*◌, ◌^◌, ◌≤◌, ◌<◌, ◌≡◌, ◌≢◌, ◌⊎◌, refl, ◌∙◌, sym, ap, false, Option, none, some,
  List, ◌==◌, length, slice, splice, CString, bytes_eq_refl, arith, AreBytes, pos, length-slice,
  length-splice, slice-splice, slice-splice_apart,
}
use fs_playground.Blk.{Blkdev}
use fs_playground.Blk.Laws.{IsDisk}
use fs_playground.Command.{ok, check}
use fs_playground.Ext2.Block.{Junk, read_inode_block, write_inode_block}
use fs_playground.Vfs.State.{VnodeType}
use fs_playground.Ext2.Mount.{ExtVnode, inode_type}
use fs_playground.Ext2.Block.Stores.{
  IsPlaced, kept_place, read_inode-Read, read_block_lem, write_block_lem,
}
use fs_playground.Ext2.Directory.{placed, place_entry, place_in, dir_add_inode, size_in_blocks}
use fs_playground.Ext2.Directory.Added.{find_entry-place_entry, length-place_entry}
use fs_playground.Ext2.Directory.Chain.{Item, Chain}
use fs_playground.Ext2.Disk.{Ext2, divisor}
use fs_playground.Ext2.Inode
use fs_playground.Ext2.Layout.{get, u32}
use fs_playground.Ext2.Node.{find_entry, find_in, vnode_find}
use fs_playground.Ext2.Super

module _ {K : Type 0} {blk : Option (Blkdev K)} {contents : K → List ℕ} (d : IsDisk blk contents)
    (junk : Junk) (junk_length : (n : ℕ) → length (junk n) ≡ n) (dirent_size : ℕ) where
  abbrev bytes_per_block : Ext2 K → ℕ
  bytes_per_block s = get s.sb 0 Super.block_size

  -- Where the directory's first block begins on the device, and its bytes.
  abbrev first_place : Ext2 K → List ℕ → ℕ
  first_place s inode = u32 (get inode 0 (Inode.direct_block 0) * bytes_per_block s)

  abbrev first_block : Ext2 K → List ℕ → List ℕ
  first_block s inode = slice (contents s.dev) (first_place s inode) (bytes_per_block s)

  -- A directory whose first block is a list of entries on the device that takes the new name, which
  -- it does not have, and comes to `b`.
  pub record TakesName (s : Ext2 K) (inode : List ℕ) (name : CString) (ino : ℕ) (b : List ℕ)
      : Type 0 where
    pub more : ℕ
    pub blocks : size_in_blocks (get inode 0 Inode.size_lower) (bytes_per_block s) ≡ suc more
    pub bytes_in_block : bytes_per_block s ≢ 0
    pub real_block : get inode 0 (Inode.direct_block 0) ≢ 0
    pub on_device : first_place s inode + bytes_per_block s ≤ length (contents s.dev)
    pub are_bytes : AreBytes (first_block s inode)
    pub entries : List Item
    pub chain : Chain (first_block s inode) 0 entries
    pub absent :
        (u : Ext2 K)
        → find_entry (suc (length (first_block s inode))) (first_block s inode) 0 name u ≡ ok none u
    pub room :
        (u : Ext2 K)
        → place_entry dirent_size
            (suc (length (first_block s inode)))
            (first_block s inode)
            0
            name
            ino
            u
          ≡ ok (placed b) u

  -- The inode of the new entry stands on the device, apart from the directory's first block.
  pub record HasInode (s : Ext2 K) (inode : List ℕ) (ino : ℕ) (type : VnodeType) (at : ℕ)
      : Type 0 where
    pub is_placed : IsPlaced d s ino at
    pub apart :
        (at + get s.sb 0 Super.inode_struct_size ≤ first_place s inode)
        ⊎ (first_place s inode + bytes_per_block s ≤ at)
    pub has_type :
        (u : Ext2 K)
        → inode_type (slice (contents s.dev) at (get s.sb 0 Super.inode_struct_size)) u ≡ ok type u

  -- The vnode that a lookup makes of it.
  abbrev pub found_vnode : Ext2 K → ℕ → VnodeType → ℕ → ExtVnode
  found_vnode s ino type at = record {
    type = type;
    fs_number = ino;
    inode = slice (contents s.dev) at (get s.sb 0 Super.inode_struct_size);
  }

  module _ {s : Ext2 K} {inode : List ℕ} {name : CString} {ino : ℕ} {b : List ℕ}
      (p : TakesName s inode name ino b) (short : length name < 256) (used : 0 < ino)
      (small : ino < 2 ^ 32) (large : 8 ≤ dirent_size) where
    length-b : length b ≡ bytes_per_block s
    length-b =
        length-place_entry dirent_size (suc (length (first_block s inode))) (first_block s inode) 0
          name ino s p.are_bytes short small large p.chain (p.room s)
        ∙ length-slice (contents s.dev) (first_place s inode) (bytes_per_block s) p.on_device

    -- A search in a state whose device has `b` in the place of the first block.
    find_in-first :
        (k : K) (buf : List ℕ)
        → contents k ≡ splice (contents s.dev) (first_place s inode) b
        → length buf ≡ bytes_per_block s
        → (k' : K) × (find_in blk junk (suc p.more) 0 buf inode name (record s { dev = k })
            ≡ ok (pos 0, some ino) (record s { dev = k' }))
          × (contents k' ≡ contents k)
    unfolding find_in read_inode_block
    find_in-first k buf stored len =
        let at = first_place s inode in
        let size = bytes_per_block s in
        let whole : length (contents k) ≡ length (contents s.dev) =
          ap length stored ∙ length-splice (contents s.dev) at b in
        let (k', e, same) =
          read_block_lem d (record s { dev = k }) (get inode 0 (Inode.direct_block 0)) buf
            p.real_block (omega (arith, whole, p.on_device)) len in
        let read : slice (contents k) at size ≡ b =
          ap (λ c. slice c at size) stored
          ∙ ap (λ n. slice (splice (contents s.dev) at b) at n) (sym length-b)
          ∙ slice-splice (contents s.dev) at b (omega (arith, length-b, p.on_device)) in
        let found =
          find_entry-place_entry dirent_size (suc (length (first_block s inode)))
            (first_block s inode) name name ino s (record s { dev = k' }) p.are_bytes short used
            small large p.chain (p.absent (record s { dev = k' })) (p.room s) in
        let hit : find_entry (suc (length b)) b 0 name (record s { dev = k' })
            ≡ ok (some ino) (record s { dev = k' }) =
          rw (bytes_eq_refl name) at found in
        (k', rw (e, read, hit) refl, same)

    -- The entry is stored in the first block, and nothing else is.
    dir_add_inode-first :
        (dir : ℕ)
        → (k : K) × (dir_add_inode blk junk dirent_size inode dir name ino s
            ≡ ok (pos 0, inode) (record s { dev = k }))
          × (contents k ≡ splice (contents s.dev) (first_place s inode) b)
    unfolding dir_add_inode place_in read_inode_block write_inode_block divisor check
    dir_add_inode-first dir =
        let at = first_place s inode in
        let size = bytes_per_block s in
        let number = get inode 0 (Inode.direct_block 0) in
        let (k, e, same) =
          read_block_lem d s number (junk size) p.real_block p.on_device (junk_length size) in
        let (k', e', stored) =
          write_block_lem d (record s { dev = k }) number b p.real_block
            (omega (arith, ap length same, p.on_device)) length-b in
        let some_bytes : (size == 0) ≡ false = ground (arith, p.bytes_in_block) in
        (
          k',
          rw (some_bytes, p.blocks, e, p.room (record s { dev = k }), e') refl,
          stored ∙ ap (λ c. splice c at b) same,
        )

    vnode_find-first :
        (k : K) {type : VnodeType} {at : ℕ} (vn : ExtVnode)
        → vn.inode ≡ inode
        → HasInode s inode ino type at
        → contents k ≡ splice (contents s.dev) (first_place s inode) b
        → (k' : K) × (vnode_find blk junk vn name (record s { dev = k })
            ≡ ok (pos 0, some (found_vnode s ino type at)) (record s { dev = k' }))
          × (contents k' ≡ contents k)
    unfolding vnode_find divisor check
    vnode_find-first k {type} {at} vn same h stored =
        let size = get s.sb 0 Super.inode_struct_size in
        let some_bytes : (bytes_per_block s == 0) ≡ false = ground (arith, p.bytes_in_block) in
        let (k₁, found, kept) = find_in-first k (junk (bytes_per_block s)) stored (junk_length _) in
        let bytes : contents k₁ ≡ splice (contents s.dev) (first_place s inode) b = kept ∙ stored in
        let whole = ap length bytes ∙ length-splice (contents s.dev) (first_place s inode) b in
        let placed_there = kept_place d junk junk_length s h.is_placed k₁ whole in
        let (k₂, read, kept') =
          read_inode-Read d junk junk_length (record s { dev = k₁ }) placed_there (junk size)
            (junk_length size) in
        let untouched : slice (contents k₁) at size ≡ slice (contents s.dev) at size =
          ap (λ c. slice c at size) bytes
          ∙ slice-splice_apart (contents s.dev) (first_place s inode) b at size
              (omega (arith, h.apart, length-b))
              (omega (arith, h.is_placed.at_is, h.is_placed.on_device, h.is_placed.fits)) in
        (
          k₂,
          rw
              (
                same,
                some_bytes,
                p.blocks,
                found,
                read,
                untouched,
                h.has_type (record s { dev = k₂ }),
              )
              refl,
          kept' ∙ kept,
        )

    -- On a device that keeps its bytes, where the first block of a directory is a list of entries
    -- that does not have a name of less than 256 bytes and has room for it, and an inode other than
    -- 0 of a known type stands on the device apart from that block: ext2_dir_add_inode returns 0
    -- and stores the new block and nothing else, and ext2_vnode_find of that name then returns 0
    -- and a vnode with the inode's number, type and bytes, and leaves the device's bytes alone.
    pub dir_add_inode-vnode_find :
        (dir : ℕ) {type : VnodeType} {at : ℕ} (vn : ExtVnode)
        → vn.inode ≡ inode
        → HasInode s inode ino type at
        → (t : Ext2 K) × (u : Ext2 K) × (dir_add_inode blk junk dirent_size inode dir name ino s
            ≡ ok (pos 0, inode) t)
          × (contents t.dev ≡ splice (contents s.dev) (first_place s inode) b)
          × (vnode_find blk junk vn name t ≡ ok (pos 0, some (found_vnode s ino type at)) u)
          × (contents u.dev ≡ contents t.dev)
    dir_add_inode-vnode_find dir vn same h =
        let (k, added, stored) = dir_add_inode-first dir in
        let (k', found, kept) = vnode_find-first k vn same h stored in
        (record s { dev = k }, record s { dev = k' }, added, stored, found, kept)
