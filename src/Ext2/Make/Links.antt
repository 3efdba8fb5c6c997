-- ===== src/Ext2/Make/Links.antt =====
-- Targets of symbolic links: ext2_vnode_symlink and ext2_vnode_readlink of src/ext2/ext2vnop.c.
use fs_playground.Base.{
  ℕ, zero, suc, ◌+◌, ◌*◌, ◌≤◌, ◌<◌, ◌≡◌, refl, ◌∙◌, ap, sym, true, false, Option, List, [], length,
  get_or, leb, ltb, if◌then◌else◌, CString, pos, is_neg, arith, inl, peek, slice, splice, replicate,
  take, length-splice, peek-splice_apart, slice-splice, get_or-splice_inside,
}
use fs_playground.Blk.{Blkdev}
use fs_playground.Command.{ok, pure, and_then}
use fs_playground.Ext2.Block.{Junk, read_block, read_inode_block}
use fs_playground.Ext2.Disk.{Ext2}
use fs_playground.Ext2.Inode
use fs_playground.Ext2.Layout.{get}
use fs_playground.Ext2.Make.{store_target}
use fs_playground.Ext2.Mount.{ExtVnode}
use fs_playground.Ext2.Node.{c_string, vnode_readlink}
use fs_playground.Ext2.Super

peek_shift :
    (a b : List ℕ) (x y w : ℕ)
    → ((i : ℕ) → i < w → get_or a (x + i) 0 ≡ get_or b (y + i) 0)
    → peek a x w ≡ peek b y w
unfolding peek
peek_shift a b x y zero h = refl
peek_shift a b x y (suc w) h =
    let ex : x + 0 ≡ x = omega arith in
    let ey : y + 0 ≡ y = omega arith in
    let head : get_or a x 0 ≡ get_or b y 0 =
      ap (λ z. get_or a z 0) (sym ex) ∙ h 0 (omega arith) ∙ ap (λ z. get_or b z 0) ey in
    let rest = peek_shift a b (suc x) (suc y) w (λ i lt.
      let fx : suc x + i ≡ x + suc i = omega arith in
      let fy : suc y + i ≡ y + suc i = omega arith in
      ap (λ z. get_or a z 0) fx ∙ h (suc i) (omega arith) ∙ ap (λ z. get_or b z 0) (sym fy)) in
    rw (head, rest) refl

-- The inode with a target of at most 60 bytes in the place of its blocks.
abbrev pub inline : List ℕ → CString → List ℕ
inline inode dst =
    splice (splice inode Inode.direct_blocks (replicate 60 0)) Inode.direct_blocks dst

module _ {K : Type 0} (blk : Option (Blkdev K)) (junk : Junk) (dirent_size : ℕ) (vn : ExtVnode)
    (inode : List ℕ) (dst : CString) (whole : 100 ≤ length inode)
    (size_is : get inode 0 Inode.size_lower ≡ length dst) (short : length dst ≤ 60) where
  stored_inline :
      (s : Ext2 K) → store_target blk junk dirent_size inode dst s ≡ ok (pos 0, inline inode dst) s
  unfolding store_target
  stored_inline s = let a : leb (length dst) 60 ≡ true = ground (arith, short) in rw a refl

  length_inner : length (splice inode Inode.direct_blocks (replicate 60 0)) ≡ length inode
  length_inner = length-splice inode Inode.direct_blocks (replicate 60 0)

  size_kept : get (inline inode dst) 0 Inode.size_lower ≡ length dst
  size_kept =
      peek-splice_apart (splice inode 40 (replicate 60 0)) 40 dst (0 + 4) 4 (inl (omega arith))
      ∙ peek-splice_apart inode 40 (replicate 60 0) (0 + 4) 4 (inl (omega arith))
      ∙ size_is

  -- A link's target of less than 60 bytes, none of them 0, is kept in an inode of at least 100
  -- bytes whose size is the target's length, and ext2_vnode_readlink reads it back, neither of
  -- which uses the device.
  pub store_target-vnode_readlink :
      (s : Ext2 K)
      → length dst < 60
      → c_string dst ≡ dst
      → (store_target blk junk dirent_size inode dst s ≡ ok (pos 0, inline inode dst) s)
        × (vnode_readlink blk junk (record vn { inode = inline inode dst }) s ≡ ok (pos 0, dst) s)
  unfolding vnode_readlink
  store_target-vnode_readlink s fits text =
      let small : ltb (length dst) 60 ≡ true = ground (arith, fits) in
      let read : slice (inline inode dst) 40 (length dst) ≡ dst =
        slice-splice (splice inode 40 (replicate 60 0)) 40 dst (omega (arith, length_inner)) in
      (stored_inline s, rw (size_kept, small, read, text) refl)

  -- A link's target of 60 bytes is kept in an inode of at least 100 bytes whose size is 60, but
  -- ext2_vnode_readlink reads it from the block whose number the target's first four bytes make.
  pub store_target-vnode_readlink_block :
      (s : Ext2 K)
      → length dst ≡ 60
      → (store_target blk junk dirent_size inode dst s ≡ ok (pos 0, inline inode dst) s)
        × (vnode_readlink blk junk (record vn { inode = inline inode dst }) s
            ≡ and_then
                (read_block blk (peek dst 0 4) (junk (get s.sb 0 Super.block_size)) s)
                (λ r. if is_neg r.0 then pure (r.0, []) else pure (pos 0, c_string (take 60 r.1))))
  unfolding vnode_readlink read_inode_block
  store_target-vnode_readlink_block s full =
      let small : ltb (length dst) 60 ≡ false = ground (arith, full) in
      let number : get (inline inode dst) 0 (Inode.direct_block 0) ≡ peek dst 0 4 =
        peek_shift (inline inode dst) dst (0 + (40 + 4 * 0)) 0 4 (λ i lt.
          let at : 0 + (40 + 4 * 0) + i ≡ 40 + i = omega arith in
          let from : 0 + i ≡ i = omega arith in
          ap (λ z. get_or (inline inode dst) z 0) at
          ∙ get_or-splice_inside (splice inode 40 (replicate 60 0)) 40 dst i (omega arith)
              (omega (arith, length_inner))
          ∙ ap (λ z. get_or dst z 0) (sym from)) in
      (stored_inline s, rw (size_kept, small, number, full) refl)
