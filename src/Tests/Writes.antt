-- ===== src/Tests/Writes.antt =====
-- A write and a read of src/ext2/ext2vnop.c on a device in memory.
use fs_playground.Base.{
  ℕ, ◌≡◌, refl, inl, some, List, [], ◌∷◌, pos, arith, splice, poke, peek, le_bytes,
}
use fs_playground.Command.{ok}
use fs_playground.Ext2.Block.Stores.{IsPlaced}
use fs_playground.Ext2.Disk.{Ext2}
use fs_playground.Ext2.File.{vnode_write, vnode_read}
use fs_playground.Ext2.File.Writes.{Fits, vnode_write-vnode_read}
use fs_playground.Ext2.Group
use fs_playground.Ext2.Inode
use fs_playground.Ext2.Layout.{get, put}
use fs_playground.Ext2.Mount.{ExtVnode}
use fs_playground.Ext2.Super
use fs_playground.Tests.Memory.{memory, memory-IsDisk, zeros, length-zeros}
use fs_playground.Vfs.State.{VnodeType}

-- Blocks and inodes of 64 bytes; the table of inodes begins in block 1.
abbrev disk : Ext2 (List ℕ)
disk = record {
  dev = zeros 192;
  sb =
      put (put (put (zeros 248) 0 Super.block_size 64) 0 Super.inode_struct_size 64) 0
        Super.block_group_size_inodes 8;
  bgdt = put (zeros 32) 0 Group.inode_table_block 1;
}

-- Inode 1 is a file of ten bytes in block 2.
abbrev ten_bytes : List ℕ
ten_bytes = put (put (zeros 64) 0 Inode.size_lower 10) 0 (Inode.direct_block 0) 2

abbrev file : ExtVnode
file = record { type = VnodeType.reg; fs_number = 1; inode = ten_bytes }

abbrev text : List ℕ
text = b'h' ∷ b'e' ∷ b'y' ∷ []

text-Fits : Fits memory-IsDisk zeros length-zeros disk ten_bytes 8 text
unfolding poke peek splice le_bytes
text-Fits = record {
  some_bytes = omega arith;
  not_whole = λ e. omega (arith, e);
  in_block = omega arith;
  in_file = omega arith;
  open_end = λ e. omega (arith, e);
  small = omega arith;
  end_small = omega arith;
  bytes_in_block = λ e. omega (arith, e);
  direct = omega arith;
  real_block = λ e. omega (arith, e);
  on_device = omega arith;
}

file-IsPlaced : IsPlaced memory-IsDisk disk 1 64
unfolding poke peek splice le_bytes
file-IsPlaced = record {
  inodes_in_group = λ e. omega (arith, e);
  bytes_in_block = λ e. omega (arith, e);
  group_there = omega arith;
  real_block = λ e. omega (arith, e);
  at_is = refl;
  on_device = omega arith;
  fits = omega arith;
}

vnode_write-vnode_read_example :
    (vn : ExtVnode) × (t : Ext2 (List ℕ)) × (u : Ext2 (List ℕ)) × (vnode_write
        (some memory)
        zeros
        file
        8
        text
        3
        disk
      ≡ ok (pos 3, vn, 11) t)
    × (get vn.inode 0 Inode.size_lower ≡ 11)
    × (vnode_read (some memory) zeros vn 8 (zeros 4) 3 t ≡ ok (pos 3, splice (zeros 4) 0 text) u)
    × (u.dev ≡ t.dev)
unfolding poke peek splice le_bytes
vnode_write-vnode_read_example =
    vnode_write-vnode_read memory-IsDisk zeros length-zeros text-Fits file (zeros 4) refl refl refl
      (omega arith) file-IsPlaced (inl (omega arith)) (omega arith)
