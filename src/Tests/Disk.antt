-- ===== src/Tests/Disk.antt =====
-- Runs of src/ext2/ext2blk.c, src/ext2/ext2.c and src/ext2/ext2vnop.c on a device in memory.
use fs_playground.Base.{
  ℕ, ◌≡◌, refl, some, List, [], pos, arith, length, splice, slice, poke, peek, le_bytes,
}
use fs_playground.Command.{ok}
use fs_playground.Ext2.Block.{read_inode, write_inode}
use fs_playground.Ext2.Block.Stores.{
  IsPlaced, write_inode-Stored, read_inode-Read, write_inode-read_inode,
}
use fs_playground.Ext2.Disk.{Ext2}
use fs_playground.Ext2.File.{vnode_read}
use fs_playground.Ext2.File.Reads.{InBlock, vnode_read-InBlock}
use fs_playground.Ext2.Group
use fs_playground.Ext2.Inode
use fs_playground.Ext2.Layout.{put}
use fs_playground.Ext2.Mount.{ExtVnode, set_geometry}
use fs_playground.Ext2.Mount.Geometry.{Geometry, set_geometry-Geometry}
use fs_playground.Ext2.Node.{vnode_chmod}
use fs_playground.Ext2.Node.Attributes.{Changed, vnode_chmod-Changed}
use fs_playground.Ext2.Super
use fs_playground.Tests.Memory.{memory, memory-IsDisk, zeros, length-zeros, all_bytes-AreBytes}
use fs_playground.Vfs.State.{VnodeType}

-- Blocks of 64 bytes and inodes of 32, the table of which begins in block 1.
abbrev small_super : List ℕ
small_super =
    put (put (put (zeros 248) 0 Super.block_size 64) 0 Super.inode_struct_size 32) 0
      Super.block_group_size_inodes 8

abbrev small_disk : Ext2 (List ℕ)
small_disk = record {
  dev = zeros 192;
  sb = small_super;
  bgdt = put (zeros 32) 0 Group.inode_table_block 1;
}

-- Inode 2 is the second in its block.
root-IsPlaced : IsPlaced memory-IsDisk small_disk 2 96
unfolding poke peek splice le_bytes
root-IsPlaced = record {
  inodes_in_group = λ e. omega (arith, e);
  bytes_in_block = λ e. omega (arith, e);
  group_there = omega arith;
  real_block = λ e. omega (arith, e);
  at_is = refl;
  on_device = omega arith;
  fits = omega arith;
}

-- A directory's inode.
abbrev root_inode : List ℕ
root_inode = put (zeros 32) 0 Inode.type_perm 0x41ED

length_root : length root_inode ≡ 32
unfolding poke splice le_bytes
length_root = refl

write_inode-Stored_example :
    (k : List ℕ) × (write_inode (some memory) zeros root_inode 2 small_disk
      ≡ ok (pos 0) (record small_disk { dev = k }))
    × (k ≡ splice (zeros 192) 96 root_inode)
unfolding peek poke
write_inode-Stored_example =
    write_inode-Stored memory-IsDisk zeros length-zeros small_disk root-IsPlaced root_inode
      length_root

read_inode-Read_example :
    (k : List ℕ) × (read_inode (some memory) zeros (zeros 32) 2 small_disk
      ≡ ok (pos 0, slice (zeros 192) 96 32) (record small_disk { dev = k }))
    × (k ≡ zeros 192)
unfolding peek poke
read_inode-Read_example =
    read_inode-Read memory-IsDisk zeros length-zeros small_disk root-IsPlaced (zeros 32) refl

write_inode-read_inode_example :
    (t : Ext2 (List ℕ)) × (u : Ext2 (List ℕ)) × (write_inode
        (some memory)
        zeros
        root_inode
        2
        small_disk
      ≡ ok (pos 0) t)
    × (read_inode (some memory) zeros (zeros 32) 2 t ≡ ok (pos 0, root_inode) u)
    × (u.dev ≡ t.dev)
unfolding peek poke
write_inode-read_inode_example =
    write_inode-read_inode memory-IsDisk zeros length-zeros small_disk root_inode (zeros 32)
      root-IsPlaced length_root refl

abbrev root_vnode : ExtVnode
root_vnode = record { type = VnodeType.dir; fs_number = 2; inode = root_inode }

vnode_chmod-Changed_example :
    (vn : ExtVnode) × (t : Ext2 (List ℕ)) × (vnode_chmod
        (some memory)
        zeros
        root_vnode
        0x1C0
        small_disk
      ≡ ok (pos 0, vn) t)
    × Changed memory-IsDisk zeros length-zeros root_vnode vn 0x1C0 t
    × (t.dev ≡ splice (zeros 192) 96 vn.inode)
unfolding poke peek splice le_bytes
vnode_chmod-Changed_example =
    vnode_chmod-Changed memory-IsDisk zeros length-zeros small_disk root_vnode 96 0x1C0
      root-IsPlaced refl (omega arith) (omega arith)

-- A superblock of 100 blocks of 1024 bytes, in groups of 40.
abbrev hundred_blocks : List ℕ
hundred_blocks = put (put (zeros 248) 0 Super.block_count 100) 0 Super.block_group_size_blocks 40

hundred_disk : Ext2 (List ℕ)
hundred_disk = record { dev = []; sb = hundred_blocks; bgdt = [] }

set_geometry-Geometry_example :
    (t : Ext2 (List ℕ)) × (set_geometry hundred_disk ≡ ok tt t) × Geometry hundred_disk t
unfolding poke peek splice le_bytes hundred_disk
set_geometry-Geometry_example =
    set_geometry-Geometry hundred_disk (all_bytes-AreBytes hundred_blocks refl) (omega arith)
      (omega arith) (λ e. omega (arith, e)) (omega arith)

-- A file of ten bytes in block 2.
abbrev file_inode : List ℕ
file_inode = put (put (zeros 64) 0 Inode.size_lower 10) 0 (Inode.direct_block 0) 2

abbrev file_vnode : ExtVnode
file_vnode = record { type = VnodeType.reg; fs_number = 11; inode = file_inode }

file-InBlock : InBlock memory-IsDisk zeros length-zeros small_disk file_inode 3 4
unfolding poke peek splice le_bytes
file-InBlock = record {
  some_bytes = omega arith;
  in_file = omega arith;
  size_small = omega arith;
  in_block = omega arith;
  bytes_in_block = λ e. omega (arith, e);
  block_small = omega arith;
  direct = omega arith;
  real_block = λ e. omega (arith, e);
  on_device = omega arith;
}

vnode_read-InBlock_example :
    (k : List ℕ) × (vnode_read (some memory) zeros file_vnode 3 (zeros 4) 4 small_disk
      ≡ ok (pos 4, splice (zeros 4) 0 (slice (zeros 192) 131 4)) (record small_disk { dev = k }))
    × (k ≡ zeros 192)
unfolding peek poke splice le_bytes
vnode_read-InBlock_example =
    vnode_read-InBlock memory-IsDisk zeros length-zeros small_disk file_inode 3 4 file_vnode
      (zeros 4) refl file-InBlock (omega arith)
