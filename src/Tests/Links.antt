-- ===== src/Tests/Links.antt =====
-- Runs of the symbolic links of src/ext2/ext2vnop.c.
use fs_playground.Base.{
  ℕ, ◌≡◌, refl, some, List, [], ◌∷◌, replicate, pos, is_neg, arith, if◌then◌else◌, poke, peek,
  splice, le_bytes, take,
}
use fs_playground.Command.{ok, pure, and_then}
use fs_playground.Ext2.Block.{read_block}
use fs_playground.Ext2.Disk.{Ext2}
use fs_playground.Ext2.Inode
use fs_playground.Ext2.Layout.{get, put}
use fs_playground.Ext2.Make.{store_target}
use fs_playground.Ext2.Make.Links.{
  inline, store_target-vnode_readlink, store_target-vnode_readlink_block,
}
use fs_playground.Ext2.Mount.{ExtVnode}
use fs_playground.Ext2.Node.{c_string, vnode_readlink}
use fs_playground.Ext2.Super
use fs_playground.Tests.Memory.{memory, zeros}
use fs_playground.Vfs.State.{VnodeType}

abbrev disk : Ext2 (List ℕ)
disk = record { dev = []; sb = zeros 248; bgdt = [] }

abbrev link_inode : ℕ → List ℕ
link_inode size = put (zeros 128) 0 Inode.size_lower size

abbrev link_vnode : ExtVnode
link_vnode = record { type = VnodeType.lnk; fs_number = 12; inode = [] }

abbrev target : List ℕ
target = b'a' ∷ b'b' ∷ b'c' ∷ []

abbrev long_target : List ℕ
long_target = replicate 60 b'a'

store_target-vnode_readlink_example :
    (store_target (some memory) zeros 12 (link_inode 3) target disk
      ≡ ok (pos 0, inline (link_inode 3) target) disk)
    × (vnode_readlink
          (some memory)
          zeros
          (record link_vnode { inode = inline (link_inode 3) target })
          disk
        ≡ ok (pos 0, target) disk)
unfolding poke peek splice le_bytes
store_target-vnode_readlink_example =
    store_target-vnode_readlink (some memory) zeros 12 link_vnode (link_inode 3) target
      (omega arith) refl (omega arith) disk (omega arith) refl

store_target-vnode_readlink_block_example :
    (store_target (some memory) zeros 12 (link_inode 60) long_target disk
      ≡ ok (pos 0, inline (link_inode 60) long_target) disk)
    × (vnode_readlink
          (some memory)
          zeros
          (record link_vnode { inode = inline (link_inode 60) long_target })
          disk
        ≡ and_then
            (read_block
              (some memory)
              (peek long_target 0 4)
              (zeros (get disk.sb 0 Super.block_size))
              disk)
            (λ r. if is_neg r.0 then pure (r.0, []) else pure (pos 0, c_string (take 60 r.1))))
unfolding poke peek splice le_bytes
store_target-vnode_readlink_block_example =
    store_target-vnode_readlink_block (some memory) zeros 12 link_vnode (link_inode 60) long_target
      (omega arith) refl (omega arith) disk refl
