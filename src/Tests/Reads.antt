-- ===== src/Tests/Reads.antt =====
-- Runs of path lookup, and of reading and writing, of src/vfs.c on the small tree.
use fs_playground.Access.{access_internal, r_ok, w_ok}
use fs_playground.PathName.{path_element}
use fs_playground.Base.{
  ◌+◌, if◌then◌else◌, bytes_eq, enoent, ℕ, ◌≡◌, refl, none, some, List, [], ◌∷◌, arith, bit,
  CString, ℤ, pos,
}
use fs_playground.Tests.Driver.{
  test_env, test_store, owner_ctx, test_ops, file_vnode, dir_vnode, root_entry, dir_entry,
  closed_file, dir_name, file_name, new_vnode, file_entry,
}
use fs_playground.Vfs.State.{Store, Ofile, Vnode, VnodeType}
use fs_playground.Vfs.Run.{ok, load_vnode, check, deref, call, ops_of, op_of}
use fs_playground.Vfs.Find.{find_tree, element, dotdot}
use fs_playground.Vfs.Open.{vnode_access}
use fs_playground.Vfs.Find.Cached.{Cached, Leads, InDir, Listed, find_tree-Cached}
use fs_playground.Vfs.Find.Attached.{Supplies, Unlisted, IsAttached, find_tree-IsAttached}
use fs_playground.Vfs.File.{vfs_read, vfs_write, advance}
use fs_playground.Vfs.File.Transfers.{
  Backed, MayTransfer, vfs_read-MayTransfer, vfs_write-MayTransfer,
}

-- "f/.."
abbrev file_up : CString
file_up = b'f' ∷ b'/' ∷ dotdot

-- "d/f/.."
abbrev below : CString
below = b'd' ∷ b'/' ∷ file_up

-- "./d/f/.."
abbrev cached_path : CString
cached_path = b'.' ∷ b'/' ∷ below

dir-InDir : InDir test_store 0 dir_name 1
dir-InDir = record {
  node = root_entry;
  at_node = refl;
  vnode = 0;
  of_node = refl;
  content = new_vnode VnodeType.dir (some 0);
  at_vnode = refl;
  is_directory = refl;
  before = 0;
  few = omega arith;
  listed = Listed.hit 1 dir_entry refl refl;
}

file-InDir : InDir test_store 1 file_name 2
file-InDir = record {
  node = dir_entry;
  at_node = refl;
  vnode = 1;
  of_node = refl;
  content = dir_vnode;
  at_vnode = refl;
  is_directory = refl;
  before = 0;
  few = omega arith;
  listed = Listed.hit 2 file_entry refl refl;
}

path-Leads : Leads cached_path (element dir_name (some file_up))
unfolding path_element
path-Leads =
    Leads.skip below (record { some_path = λ e. cc; split = refl })
      (Leads.at dir_name (some file_up)
        (record { some_path = λ e. cc; split = refl; fits = omega arith; no_dot = refl }))

file-Leads : Leads file_up (element file_name (some dotdot))
unfolding path_element
file-Leads =
    Leads.at file_name (some dotdot)
      (record { some_path = λ e. cc; split = refl; fits = omega arith; no_dot = refl })

last-Leads : Leads file_name (element file_name none)
unfolding path_element
last-Leads =
    Leads.at file_name none
      (record { some_path = λ e. cc; split = refl; fits = omega arith; no_dot = refl })

up-Leads : Leads dotdot (element dotdot none)
unfolding path_element
up-Leads =
    Leads.at dotdot none
      (record { some_path = λ e. cc; split = refl; fits = omega arith; no_dot = refl })

find_tree-Cached_example :
    find_tree test_env 4 (some 0) (some cached_path) test_store ≡ ok (pos 0, some 1) test_store
find_tree-Cached_example =
    find_tree-Cached test_store test_env 4
      (Cached.down dir_name file_up 1 path-Leads refl dir-InDir (
        Cached.down file_name dotdot 2 file-Leads refl file-InDir
          (Cached.above dotdot file_entry 1 up-Leads refl refl refl)))
      (omega arith)

abbrev read_file : Ofile
read_file = record closed_file { vnode = some 2 }

abbrev write_file : Ofile
write_file = record closed_file { vnode = some 2; flags = 1 }

read_file-Backed : Backed test_env owner_ctx read_file test_store 2 file_vnode 0
read_file-Backed = record { opened = refl; at_vnode = refl; op = refl }

write_file-Backed : Backed test_env owner_ctx write_file test_store 2 file_vnode 0
write_file-Backed = record { opened = refl; at_vnode = refl; op = refl }

read_run :
    vfs_read test_env owner_ctx read_file 5 test_store
    ≡ ok (pos 1, b'x' ∷ [], record read_file { pos = 1 }) (record test_store { driver = 2 })
unfolding vfs_read load_vnode check deref call ops_of op_of bit access_internal vnode_access
read_run = refl

write_run :
    vfs_write test_env owner_ctx write_file (b'x' ∷ []) test_store
    ≡ ok (pos 1, write_file) (record test_store { driver = 2 })
unfolding vfs_write load_vnode check deref call ops_of op_of bit access_internal vnode_access
write_run = refl

vfs_read-MayTransfer_example :
    MayTransfer test_env owner_ctx read_file file_vnode r_ok 1 0
    × (read : Ofile → Vnode → ℕ → ℕ → (ℤ × List ℕ × Ofile) × ℕ) × (test_ops.read ≡ some read)
    × (let r = read read_file file_vnode 5 1 in
        (pos 1 ≡ r.0.0)
        × (b'x' ∷ [] ≡ r.0.1)
        × (record read_file { pos = 1 } ≡ advance r.0.2 (pos 1))
        × (record test_store { driver = 2 } ≡ record test_store { driver = r.1 }))
unfolding op_of
vfs_read-MayTransfer_example =
    vfs_read-MayTransfer test_env owner_ctx read_file-Backed 5 read_run refl

vfs_write-MayTransfer_example :
    MayTransfer test_env owner_ctx write_file file_vnode w_ok 0 0
    × (write : Ofile → Vnode → List ℕ → ℕ → (ℤ × Ofile) × ℕ) × (test_ops.write ≡ some write)
    × (let r = write write_file file_vnode (b'x' ∷ []) 1 in
        ((pos 1, write_file) ≡ r.0)
        × (record test_store { driver = 2 } ≡ record test_store { driver = r.1 }))
unfolding op_of
vfs_write-MayTransfer_example =
    vfs_write-MayTransfer test_env owner_ctx write_file-Backed (b'x' ∷ []) write_run refl

-- The root has no cached child "f", and the driver has one.
root-Supplies : Supplies test_store test_env 0 file_name (new_vnode VnodeType.reg none) 1
root-Supplies = record {
  node = root_entry;
  at_node = refl;
  node_old = omega arith;
  vnode = 0;
  of_node = refl;
  content = new_vnode VnodeType.dir (some 0);
  at_vnode = refl;
  vnode_old = omega arith;
  is_directory = refl;
  siblings = 1;
  few = omega arith;
  unlisted = Unlisted.other 1 dir_entry refl refl Unlisted.end;
  table = 0;
  op = refl;
  find = λ v name d. (
    if bytes_eq name file_name
        then (pos 0, some (new_vnode VnodeType.reg none))
        else (enoent, none),
    d + 1,
  );
  finds = refl;
  answer = refl;
  fits = omega arith;
}

find_tree-IsAttached_example :
    (t : Store ℕ) × (find_tree test_env 1 (some 0) (some file_name) test_store
      ≡ ok (pos 0, some 4) t)
    × (IsAttached test_store root-Supplies t
        × (find_tree test_env 1 (some 0) (some file_name) t ≡ ok (pos 0, some 4) t))
find_tree-IsAttached_example = find_tree-IsAttached test_store root-Supplies 0 0 last-Leads refl
