-- ===== src/Vfs/State.antt =====
-- The data of the VFS: vnodes, tree nodes, open files, the tables of functions that a file system
-- driver fills, and the heap with the static tables. A pointer is an address or NULL.
use fs_playground.Access.{Cred}
use fs_playground.Base.{ℕ, Bool, Option, List, ℤ, CString}
use fs_playground.FsClass.{Mount}

abbrev pub Ptr : Type 0
Ptr = Option ℕ

pub data VnodeType : Type 0 where
  reg dir blk chr lnk : VnodeType

-- `op` points to a table of functions: its number in `Env.ops`. `fs` is a slot of the mount table.
pub record Vnode : Type 0 where
  pub type : VnodeType
  pub refcount : ℕ
  pub fs : Option ℕ
  pub fs_data : ℕ
  pub fs_number : ℕ
  pub tree_node : Ptr
  pub op : Option ℕ

pub record VfsNode : Type 0 where
  pub name : CString
  pub vnode : Ptr
  pub real_vnode : Ptr
  pub link : Ptr
  pub ismount : Bool
  pub parent : Ptr
  pub child : Ptr
  pub cdr : Ptr

pub record Ofile : Type 0 where
  pub flags : ℕ
  pub vnode : Ptr
  pub pos : ℕ
  pub dirent_buf : List ℕ

pub record Ioctx : Type 0 where
  pub cwd_vnode : Ptr
  pub cred : Cred

pub record Stat : Type 0 where
  pub st_dev : ℕ
  pub st_ino : ℕ
  pub st_mode : ℕ
  pub st_nlink : ℕ
  pub st_uid : ℕ
  pub st_gid : ℕ
  pub st_rdev : ℕ
  pub st_size : ℕ
  pub st_blksize : ℕ
  pub st_blocks : ℕ
  pub st_atime : ℕ
  pub st_mtime : ℕ
  pub st_ctime : ℕ

pub record StatVfs : Type 0 where
  pub f_bsize : ℕ
  pub f_frsize : ℕ
  pub f_blocks : ℕ
  pub f_bfree : ℕ
  pub f_bavail : ℕ
  pub f_files : ℕ
  pub f_ffree : ℕ
  pub f_favail : ℕ
  pub f_fsid : ℕ
  pub f_flag : ℕ
  pub f_namemax : ℕ

-- What a driver's `access` reports of a vnode.
pub record Owner : Type 0 where
  pub uid : ℕ
  pub gid : ℕ
  pub mode : ℕ

-- `struct vnode_operations`, over the driver's own state `D` (inodes, disk). A function that is
-- NULL is `none`. A vnode that a driver allocates is returned by value, with what malloc left in
-- the fields that the driver does not set.
pub record VnodeOps (D : Type 0) : Type 0 where
  pub find : Option (Vnode → CString → D → (ℤ × Option Vnode) × D)
  pub destroy : Option (Vnode → D → Unit {0} × D)
  pub readlink : Option (Vnode → D → (ℤ × CString) × D)
  pub symlink : Option (Vnode → Cred → CString → CString → D → ℤ × D)
  pub access : Option (Vnode → D → (ℤ × Owner) × D)
  pub creat : Option (Vnode → Cred → CString → ℕ → ℕ → D → (ℤ × Option Vnode) × D)
  pub mkdir : Option (Vnode → CString → ℕ → D → ℤ × D)
  pub unlink : Option (Vnode → Vnode → CString → D → ℤ × D)
  pub stat : Option (Vnode → D → (ℤ × Stat) × D)
  pub chmod : Option (Vnode → ℕ → D → ℤ × D)
  pub chown : Option (Vnode → ℕ → ℕ → D → ℤ × D)
  pub opendir : Option (Vnode → ℕ → D → ℤ × D)
  pub readdir : Option (Ofile → Vnode → D → (ℤ × Ofile) × D)
  pub open_file : Option (Vnode → ℕ → D → ℤ × D)
  pub close : Option (Ofile → Vnode → D → Ofile × D)
  pub read : Option (Ofile → Vnode → ℕ → D → (ℤ × List ℕ × Ofile) × D)
  pub write : Option (Ofile → Vnode → List ℕ → D → (ℤ × Ofile) × D)
  pub truncate : Option (Ofile → Vnode → ℕ → D → (ℤ × Ofile) × D)

-- `struct fs_class`. The functions take the mount's slot and contents.
pub record FsClassOps (D : Type 0) : Type 0 where
  pub name : CString
  pub get_root : Option (ℕ → Mount ℕ → D → Option Vnode × D)
  pub mount : Option (ℕ → Mount ℕ → CString → D → ℤ × D)
  pub statvfs : Option (ℕ → Mount ℕ → D → (ℤ × StatVfs) × D)

-- The tables that function pointers and class pointers lead to.
pub record Env (D : Type 0) : Type 0 where
  pub ops : ℕ → VnodeOps D
  pub classes : ℕ → FsClassOps D

-- The heap: `next` is the address that malloc hands out next. `fses` and `mounts` are the tables of
-- src/fs_class.c, and `vfs_root_node` stands at address 0.
pub record Store (D : Type 0) : Type 0 where
  pub nodes : ℕ → Option VfsNode
  pub vnodes : ℕ → Option Vnode
  pub next : ℕ
  pub fses : List (Option ℕ)
  pub mounts : List (Mount ℕ)
  pub driver : D
