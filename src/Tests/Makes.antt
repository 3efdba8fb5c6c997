-- ===== src/Tests/Makes.antt =====
-- A run of the search for a directory to write to in src/vfs.c.
use fs_playground.Access.{access_internal}
use fs_playground.Base.{ℕ, ◌≡◌, refl, some, [], ◌∷◌, bit, CString, eacces}
use fs_playground.PathName.{path_element, path_parent}
use fs_playground.Tests.Driver.{test_env, test_store, owner_ctx, dir_vnode}
use fs_playground.Vfs.State.{Store}
use fs_playground.Vfs.Run.{
  ok, load_node, load_vnode, store_vnode, check, deref, call, op_of, allocated,
}
use fs_playground.Vfs.Loads.{with_vnode}
use fs_playground.Vfs.Node.{vnode_ref}
use fs_playground.Vfs.Find.{vfs_find}
use fs_playground.Vfs.Open.{vnode_access, resolve_link}
use fs_playground.Vfs.Create.{parent, find_parent, writable_parent}
use fs_playground.Vfs.Create.Writable.{IsWritable, writable_parent-IsWritable}

abbrev new_path : CString
new_path = b'd' ∷ b'/' ∷ b'x' ∷ []

abbrev searched : Store ℕ
searched = record (with_vnode test_store 1 (record dir_vnode { refcount = 1 })) { driver = 1 }

search_run :
    writable_parent test_env 2 owner_ctx (λ _. eacces) new_path test_store
    ≡ ok (parent (some 1)) searched
unfolding writable_parent find_parent path_parent vfs_find load_node load_vnode store_vnode check
    deref call op_of allocated vnode_ref resolve_link vnode_access access_internal bit path_element
search_run = refl

writable_parent-IsWritable_example : IsWritable test_env owner_ctx (some 1) searched
writable_parent-IsWritable_example =
    writable_parent-IsWritable test_env owner_ctx 2 (λ _. eacces) new_path (some 1) test_store
      searched search_run
