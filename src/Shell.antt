-- ===== src/Shell.antt =====
-- The interactive shell of src/ext2sh.c over the operations of src/vfs.c.
pub mod Console
pub mod Scan
pub mod Files
pub mod Commands
pub mod Format
pub mod Line
pub mod Loop
