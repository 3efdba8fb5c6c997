-- ===== src/Lib.antt =====
-- A model of fs-playground: a virtual file system (src/vfs.c, src/node.c, include/vfs.h,
-- include/node.h) over a registry of file system drivers (src/fs_class.c, include/fs.h), the driver of
-- ext2 (src/ext2/) over a block device (src/blk.c), a shell that calls it all (src/ext2sh.c), and a
-- hash table (src/hash.c, include/hash.h).
--
-- The program keeps a tree of nodes, which caches the files that were looked up. A node has a name
-- and a vnode, and a vnode has a reference count and a table of functions of its driver. A path is
-- looked up in the cached tree, and the driver is asked for what is not cached; the operations
-- (open, stat, mkdir and so on) look a path up, take a reference, ask the vnode's permissions, call
-- the driver, and give the reference back. A mount puts a driver's root vnode in a node's place.
--
-- The files:
--   Base       numbers, bytes, tables and return codes that the parts share
--   Hash       hash_init, hash_put, hash_get, hash_del; Hash/Laws has the map that a table holds
--   FsClass    fs_create, fs_class_by_name, fs_class_register over their static tables
--   Access     vfs_access_internal, vfs_open_access_mask
--   PathName   vfs_path_element, vfs_path_parent, vfs_path_basename
--   Vfs/State  the structs, the heap, and the driver's tables of functions
--   Vfs/Run    commands over the heap; Vfs/Keeps and Vfs/Loads have the rules to reason about them
--   Vfs/Node   vnode_ref, vnode_unref, vnode_free, vfs_node_create, vfs_vnode_path
--   Vfs/Find   vfs_find_tree, vfs_find_at, vfs_find; its children say what a lookup leaves alone
--              (Frame), what it finds in the cached tree (Cached), and what it attaches (Attached)
--   Vfs/Open   vfs_open_node, vfs_close, vfs_setcwd, vfs_chdir; Vfs/Create vfs_creat, vfs_open
--   Vfs/File   vfs_read, vfs_write, vfs_truncate, vfs_readdir
--   Vfs/Attr   vfs_stat, vfs_statat, vfs_chmod, vfs_chown, vfs_access, vfs_statvfs, vfs_readlink
--   Vfs/Dir    vfs_mkdir, vfs_symlink, vfs_unlink
--   Vfs/Mount  vfs_init, vfs_mount, vfs_umount; Vfs/Dump vfs_dump_tree
--   Command    commands over a state, for the VFS and the driver; Command/Laws to reason about them
--   Blk        blk_read, blk_write and testblk; Blk/Laws says when a device keeps its bytes
--   Ext2/Layout, Super, Group, Inode, Dirent   the packed structs; Ext2/Disk the driver's state
--   Ext2/Block      blocks and inodes (ext2blk.c); Stores says what is stored where
--   Ext2/Alloc      allocation (ext2alloc.c); Search, Usage, Found, Taken and Freed say what is
--                   found and counted
--   Ext2/Directory  directory entries (ext2dir.c); Entry, Insert and Split say what is written,
--                   Chain a block as a list of entries, Lookup, Added and OnDisk what is found,
--                   Moved, Shrunk and Dropped what is left when an entry is taken out,
--                   and Walks when the loops over entries end
--   Ext2/Mount      mounting (ext2.c); Geometry says what is computed from the superblock
--   Ext2/Node, Make, Remove, File   the functions of the driver's table (ext2vnop.c): names and
--                   attributes, new inodes, unlinking, and contents; Attributes, Links and
--                   Reads say what chmod, links and reads do, Writes what a read after
--                   a write finds, and Room which blocks a write finds there
--   Print      what printf makes of numbers; Print/Widths how long that is, Print/Digits which numeral
--   Shell/Console   the state of the shell, the streams, and fgets; Consumes has the rules for what a
--                   program reads
--   Shell/Format    errno_str, prettysz, dumpstat; Sizes and Widths say what is printed
--   Shell/Scan      sscanf, for the formats that are used
--   Shell/Files, Commands   the commands; their children Reads say that they only read the input
--   Shell/Line      how a line is taken apart; Words and Trim say into what
--   Shell/Loop      the table of commands, shell and main; Turns says what the loop comes to
--   Tests      a small driver, a device in memory and concrete runs
--
-- State. Pointers are addresses or NULL (`Ptr`), and a store has the tree nodes and the vnodes by
-- address, the static tables, and the driver's own state, whose type is a parameter. `Env` has the
-- tables that function pointers lead to, so every statement is about every driver: a driver's
-- function gets the vnode and its own state, and returns a code with what it stores through its
-- arguments. A command ends normally with a store (`ok`), stops the program (`fault`: a failed
-- assert, abort(), NULL or a freed object followed, a buffer overrun, or another behaviour that C
-- leaves undefined), or uses its fuel up.
-- A driver does not write the VFS's own tree. Counts and positions wrap at the width of their type.
--
-- Fuel. vfs_find_tree recurs once for each element of a path and for each link; links that lead to
-- each other make the C code recur for ever, and so it has fuel, one round for a call. Loops over
-- siblings have as many rounds as addresses were handed out, and the loops over dots one for each
-- byte of the path. Freeing a vnode has one round for each vnode that is freed.
--
-- The ext2 driver (src/ext2/, include/ext2.h) stands on a block device (src/blk.c, src/testblk.c),
-- whose functions are parameters, as are those of <stdio.h> behind testblk. Its state is the device's
-- state with the bytes of the superblock and of the group descriptors that are in memory; an inode
-- is the list of its bytes, and a packed struct's field is an offset and a width. Memory that is not
-- initialised has bytes that are a parameter. Arithmetic on uint32_t, uint16_t and size_t wraps; the
-- narrowing of a device's ssize_t to int is not modelled. In the search of a bitmap `1 << k` is
-- undefined from k = 31 on; the source does not stop there, and a fault stands for what a compiler
-- makes of it. The loops over a block's entries have one round for each byte of the block and one more,
-- which is enough unless an entry has length 0; all other loops of the driver have as many rounds
-- as they take. Allocation is written out in the source for blocks and for inodes, and is one
-- definition here, over what is allocated. sizeof(struct dirent) is a parameter. The driver's table
-- of functions is not yet an instance of the VFS's `VnodeOps`, whose functions cannot fault.
--
-- The shell (src/ext2sh.c) runs over a console: the VFS's store, `ioctx`, the bytes of standard
-- input that are still to be read, and those written to standard output and standard error. The
-- functions of <stdio.h> are written out for the formats in use. A file that can be read and the
-- device's file are parameters of main. The loop over the lines has a round for each line, of which
-- there are at most as many as bytes, and one for the end; the loops over directory entries and over
-- a file's contents have fuel, since how often a driver goes on is the driver's. What an open file on
-- the stack holds before it is set is a parameter; a number that sscanf did not store is a fault.
--
-- Not modelled: the messages that the VFS and the driver print, the release of memory (umount and
-- destroy of the driver), the list macros (include/list.h, include/tree.h), which nothing uses, and
-- the debugging dump of src/testblk.c.
mod Base
pub mod Command
pub mod Blk
pub mod Ext2
pub mod Access
pub mod Hash
pub mod PathName
pub mod FsClass
pub mod Vfs
pub mod Print
pub mod Shell
pub mod Tests
