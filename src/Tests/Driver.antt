-- ===== src/Tests/Driver.antt =====
-- A small driver for tests, in place of a file system: it counts its calls, and every directory has
-- a file "f" that belongs to user 1000, with mode 0640.
use fs_playground.Base.{
  ℕ, ◌+◌, none, some, [], ◌∷◌, false, if◌then◌else◌, CString, bytes_eq, ◌==◌, ℤ, pos, enoent,
}
use fs_playground.Vfs.State.{
  Ptr, VnodeType, Vnode, VfsNode, Ofile, Ioctx, Stat, Owner, VnodeOps, FsClassOps, Env, Store,
}

abbrev pub file_name : CString
file_name = b'f' ∷ []

abbrev pub dir_name : CString
dir_name = b'd' ∷ []

abbrev pub new_vnode : VnodeType → Ptr → Vnode
new_vnode kind node = record {
  type = kind;
  refcount = 0;
  fs = none;
  fs_data = 0;
  fs_number = 2;
  tree_node = node;
  op = some 0;
}

abbrev pub status : Stat
status = record {
  st_dev = 0;
  st_ino = 2;
  st_mode = 416;
  st_nlink = 1;
  st_uid = 1000;
  st_gid = 100;
  st_rdev = 0;
  st_size = 12;
  st_blksize = 1024;
  st_blocks = 1;
  st_atime = 0;
  st_mtime = 0;
  st_ctime = 0;
}

abbrev pub owner : Owner
owner = record { uid = 1000; gid = 100; mode = 416 }

abbrev pub test_access : Vnode → ℕ → (ℤ × Owner) × ℕ
test_access v d = ((pos 0, owner), d + 1)

abbrev pub test_ops : VnodeOps ℕ
test_ops = record {
  find = some λ v name d. (
    if bytes_eq name file_name
        then (pos 0, some (new_vnode VnodeType.reg none))
        else (enoent, none),
    d + 1,
  );
  destroy = none;
  readlink = none;
  symlink = none;
  access = some test_access;
  creat = none;
  mkdir = none;
  unlink = none;
  stat = some λ v d. ((pos 0, status), d + 1);
  chmod = some λ v mode d. (pos 0, d + 1);
  chown = none;
  opendir = some λ v opt d. (pos 0, d + 1);
  readdir = none;
  open_file = some λ v opt d. (pos 0, d + 1);
  close = none;
  read = some λ fd v count d. ((pos 1, b'x' ∷ [], fd), d + 1);
  write = some λ fd v buf d. ((pos 1, fd), d + 1);
  truncate = none;
}

abbrev pub test_class : FsClassOps ℕ
test_class = record { name = dir_name; get_root = none; mount = none; statvfs = none }

abbrev pub test_env : Env ℕ
test_env = record { ops = λ _. test_ops; classes = λ _. test_class }

abbrev pub new_node : CString → ℕ → Ptr → Ptr → VfsNode
new_node name vn parent child = record {
  name = name;
  vnode = some vn;
  real_vnode = none;
  link = none;
  ismount = false;
  parent = parent;
  child = child;
  cdr = none;
}

abbrev pub root_entry : VfsNode
root_entry = new_node [] 0 none (some 1)

abbrev pub dir_entry : VfsNode
dir_entry = new_node dir_name 1 (some 0) (some 2)

abbrev pub file_entry : VfsNode
file_entry = new_node file_name 2 (some 1) none

abbrev pub dir_vnode : Vnode
dir_vnode = new_vnode VnodeType.dir (some 1)

abbrev pub file_vnode : Vnode
file_vnode = new_vnode VnodeType.reg (some 2)

-- The root, a directory "d" in it, and the file "f" in that.
abbrev pub test_store : Store ℕ
test_store = record {
  nodes = λ a.
      if a == 0
      then some root_entry
      else if a == 1
      then some dir_entry
      else if a == 2
      then some file_entry
      else none;
  vnodes = λ a.
      if a == 0
      then some (new_vnode VnodeType.dir (some 0))
      else if a == 1
      then some dir_vnode
      else if a == 2
      then some file_vnode
      else none;
  next = 3;
  fses = none ∷ [];
  mounts = record { cls = none; blk = none; mnt_at = none } ∷ [];
  driver = 0;
}

-- User 7, who is neither the file's owner nor in its group.
abbrev pub test_ctx : Ioctx
test_ctx = record { cwd_vnode = none; cred = record { uid = 7; gid = 7 } }

abbrev pub owner_ctx : Ioctx
owner_ctx = record { cwd_vnode = none; cred = record { uid = 1000; gid = 100 } }

abbrev pub closed_file : Ofile
closed_file = record { flags = 0; vnode = none; pos = 0; dirent_buf = [] }
