-- ===== src/Ext2/Node/Attributes.antt =====
-- Permissions of a vnode of the driver: ext2_vnode_chmod and ext2_vnode_access of
-- src/ext2/ext2vnop.c.
use fs_playground.Base.{
  ℕ, ◌+◌, ◌*◌, ◌/◌, ◌^◌, ◌≤◌, ◌<◌, ◌≡◌, refl, ◌∙◌, Option, List, length, splice, pos, arith, inr,
  length-poke, peek-poke, peek-poke_apart,
}
use fs_playground.Blk.{Blkdev}
use fs_playground.Blk.Laws.{IsDisk}
use fs_playground.Command.{ok}
use fs_playground.Ext2.Block.{Junk}
use fs_playground.Ext2.Block.Stores.{IsPlaced, write_inode-Stored}
use fs_playground.Ext2.Disk.{Ext2}
use fs_playground.Ext2.Inode
use fs_playground.Ext2.Layout.{get, put}
use fs_playground.Ext2.Mount.{ExtVnode}
use fs_playground.Ext2.Node.{permissions, vnode_access, vnode_chmod}
use fs_playground.Ext2.Super

module _ {K : Type 0} {blk : Option (Blkdev K)} {contents : K → List ℕ} (d : IsDisk blk contents)
    (junk : Junk) (junk_length : (n : ℕ) → length (junk n) ≡ n) where
  -- The vnode after its permissions were changed from those of `vn` to those of `mode`.
  pub record Changed (vn vn' : ExtVnode) (mode : ℕ) (t : Ext2 K) : Type 0 where
    pub access :
        vnode_access vn' t
        ≡ ok
            (
              pos 0,
              record {
                uid = get vn.inode 0 Inode.uid;
                gid = get vn.inode 0 Inode.gid;
                mode = permissions mode;
              },
            )
            t
    pub type_kept : get vn'.inode 0 Inode.type_perm / 512 ≡ get vn.inode 0 Inode.type_perm / 512
    pub number_kept : vn'.fs_number ≡ vn.fs_number

  -- On a device that keeps its bytes, chmod of a vnode whose inode has its place on the device
  -- returns 0; access then reports the new permissions and the old owner and group, the bits of the
  -- file's type are kept, and the changed inode is stored at its place.
  pub vnode_chmod-Changed :
      (s : Ext2 K) (vn : ExtVnode) (at mode : ℕ)
      → IsPlaced d s vn.fs_number at
      → length vn.inode ≡ get s.sb 0 Super.inode_struct_size
      → 2 ≤ length vn.inode
      → get vn.inode 0 Inode.type_perm < 2 ^ 16
      → (vn' : ExtVnode) × (t : Ext2 K) × (vnode_chmod blk junk vn mode s ≡ ok (pos 0, vn') t)
        × Changed vn vn' mode t
        × (contents t.dev ≡ splice (contents s.dev) at vn'.inode)
  unfolding vnode_chmod vnode_access
  vnode_chmod-Changed s vn at mode p len two small =
      let old = get vn.inode 0 Inode.type_perm in
      let new = old / 512 * 512 + permissions mode in
      let inode = put vn.inode 0 Inode.type_perm new in
      let lens = length-poke vn.inode 0 2 new in
      let (k, e, stored) = write_inode-Stored d junk junk_length s p inode (lens ∙ len) in
      let stored_mode : get inode 0 Inode.type_perm ≡ new =
        peek-poke vn.inode (0 + 0) 2 new (omega arith) (omega arith) in
      let vn' : ExtVnode = record vn { inode = inode } in
      let same_uid : get inode 0 Inode.uid ≡ get vn.inode 0 Inode.uid =
        peek-poke_apart vn.inode (0 + 0) 2 new (0 + 2) 2 (inr (omega arith)) in
      let same_gid : get inode 0 Inode.gid ≡ get vn.inode 0 Inode.gid =
        peek-poke_apart vn.inode (0 + 0) 2 new (0 + 24) 2 (inr (omega arith)) in
      let asked : permissions (get inode 0 Inode.type_perm) ≡ permissions mode =
        omega (arith, stored_mode) in
      (
        vn',
        record s { dev = k },
        rw e refl,
        record {
          access = rw (same_uid, same_gid, asked) refl;
          type_kept = omega (arith, stored_mode);
          number_kept = refl;
        },
        stored,
      )
