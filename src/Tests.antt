-- ===== src/Tests.antt =====
-- Concrete runs of src/vfs.c, src/node.c, src/hash.c, src/fs_class.c and src/ext2/
pub mod Driver
mod Tables
mod Paths
mod Files
mod Reads
mod Makes
pub mod Memory
mod Disk
mod Links
pub mod Drops
pub mod Entries
mod Adds
mod Writes
mod Shell
