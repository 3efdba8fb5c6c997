-- ===== src/Vfs.antt =====
-- The virtual file system layer: src/node.c and src/vfs.c over the data of include/node.h,
-- include/vfs.h, include/fs.h and include/ofile.h.
pub mod State
pub mod Run
pub mod Keeps
pub mod Loads
pub mod Node
pub mod Find
pub mod Open
pub mod Create
pub mod File
pub mod Attr
pub mod Dir
pub mod Mount
pub mod Dump
