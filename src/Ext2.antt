-- ===== src/Ext2.antt =====
-- The ext2 driver of src/ext2/ and include/ext2.h, over a block device.
pub mod Layout
pub mod Super
pub mod Group
pub mod Inode
pub mod Dirent
pub mod Disk
pub mod Block
pub mod Alloc
pub mod Directory
pub mod Mount
pub mod Node
pub mod Make
pub mod Remove
pub mod File
