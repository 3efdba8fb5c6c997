-- ===== src/Tests/Adds.antt =====
-- A run of src/ext2/ext2dir.c and of the search of src/ext2/ext2vnop.c on a device in memory.
use fs_playground.Base.{
  ℕ, ◌≡◌, inr, refl, some, List, [], ◌∷◌, ◌++◌, CString, pos, arith, splice, slice, poke, peek,
  le_bytes,
}
use fs_playground.Command.{ok, check}
use fs_playground.Ext2.Directory.{place_entry, dir_add_inode}
use fs_playground.Ext2.Directory.Chain.{item_at}
use fs_playground.Ext2.Directory.OnDisk.{TakesName, HasInode, dir_add_inode-vnode_find}
use fs_playground.Ext2.Disk.{Ext2, within}
use fs_playground.Ext2.Group
use fs_playground.Ext2.Mount.{ExtVnode, inode_type}
use fs_playground.Ext2.Inode
use fs_playground.Ext2.Layout.{put}
use fs_playground.Ext2.Node.{find_entry, vnode_find}
use fs_playground.Ext2.Super
use fs_playground.Tests.Entries.{dot_block, grown_block, dot-Chain}
use fs_playground.Vfs.State.{VnodeType}
use fs_playground.Tests.Memory.{memory, memory-IsDisk, zeros, length-zeros, all_bytes-AreBytes}

abbrev file_name : CString
file_name = b'a' ∷ b'b' ∷ []

-- Inode 5, of a regular file.
abbrev new_inode : List ℕ
new_inode = put (zeros 32) 0 Inode.type_perm 0x81A4

-- Blocks of 64 bytes: the directory's is the second, and inode 5 begins the fourth.
abbrev disk_bytes : List ℕ
disk_bytes = zeros 64 ++ (dot_block ++ (zeros 64 ++ (new_inode ++ zeros 32)))

abbrev dir_disk : Ext2 (List ℕ)
dir_disk = record {
  dev = disk_bytes;
  sb =
      put (put (put (zeros 248) 0 Super.block_size 64) 0 Super.inode_struct_size 32) 0
        Super.block_group_size_inodes 8;
  bgdt = put (zeros 32) 0 Group.inode_table_block 1;
}

abbrev dir_inode : List ℕ
dir_inode = put (put (zeros 64) 0 Inode.size_lower 64) 0 (Inode.direct_block 0) 1

abbrev dir_vnode : ExtVnode
dir_vnode = record { type = VnodeType.dir; fs_number = 2; inode = dir_inode }

dir-TakesName :
    TakesName memory-IsDisk zeros length-zeros 20 dir_disk dir_inode file_name 5 grown_block
unfolding poke peek splice le_bytes slice find_entry place_entry within check
dir-TakesName = record {
  more = 0;
  blocks = refl;
  bytes_in_block = λ e. omega (arith, e);
  real_block = λ e. omega (arith, e);
  on_device = omega arith;
  are_bytes = all_bytes-AreBytes dot_block refl;
  entries = item_at dot_block 0 ∷ [];
  chain = dot-Chain;
  absent = λ u. refl;
  room = λ u. refl;
}

new-HasInode : HasInode memory-IsDisk zeros length-zeros 20 dir_disk dir_inode 5 VnodeType.reg 192
unfolding poke peek splice le_bytes slice inode_type
new-HasInode = record {
  is_placed = record {
    inodes_in_group = λ e. omega (arith, e);
    bytes_in_block = λ e. omega (arith, e);
    group_there = omega arith;
    real_block = λ e. omega (arith, e);
    at_is = refl;
    on_device = omega arith;
    fits = omega arith;
  };
  apart = inr (omega arith);
  has_type = λ u. refl;
}

dir_add_inode-vnode_find_example :
    (t : Ext2 (List ℕ)) × (u : Ext2 (List ℕ)) × (dir_add_inode
        (some memory)
        zeros
        20
        dir_inode
        2
        file_name
        5
        dir_disk
      ≡ ok (pos 0, dir_inode) t)
    × (t.dev ≡ splice disk_bytes 64 grown_block)
    × (vnode_find (some memory) zeros dir_vnode file_name t
        ≡ ok
            (
              pos 0,
              some
                  (record { type = VnodeType.reg; fs_number = 5; inode = slice disk_bytes 192 32 }),
            )
            u)
    × (u.dev ≡ t.dev)
unfolding poke peek splice le_bytes
dir_add_inode-vnode_find_example =
    dir_add_inode-vnode_find memory-IsDisk zeros length-zeros 20 dir-TakesName (omega arith)
      (omega arith) (omega arith) (omega arith) 2 dir_vnode refl new-HasInode
