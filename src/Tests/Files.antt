-- ===== src/Tests/Files.antt =====
-- Runs of the operations of src/vfs.c and src/node.c on a tree with one directory and one file.
use fs_playground.Access.{access_internal, open_access_mask}
use fs_playground.PathName.{path_element}
use fs_playground.Base.{
  ◌-◌, ◌==◌, if◌then◌else◌, ℕ, ◌≡◌, refl, none, some, [], ◌∷◌, arith, CString, ℤ, pos, eacces,
}
use fs_playground.Tests.Driver.{
  new_node, new_vnode, test_env, test_store, test_ctx, owner_ctx, test_access, dir_vnode,
  file_vnode, dir_entry, closed_file, dir_name,
}
use fs_playground.Vfs.State.{Store, VfsNode, VnodeType, Ofile}
use fs_playground.Vfs.Run.{
  fault, Run, ok, ◌>>◌, load_vnode, load_node, check, deref, call, ops_of, op_of, allocated,
}
use fs_playground.Vfs.Keeps.{Ends}
use fs_playground.Vfs.Node.{backstack, join_names, vnode_ref, vnode_unref}
use fs_playground.Vfs.Node.Refs.{InTree, Deep, vnode_unref-Deep, unref-ref}
use fs_playground.Vfs.Find.{find_tree, vfs_find, root_node, dot}
use fs_playground.Vfs.Find.Grows.{Grows}
use fs_playground.Vfs.Find.Frame.{find_tree-Grows}
use fs_playground.Vfs.Open.{vfs_open_node}
use fs_playground.Vfs.Open.Grants.{Opened, vfs_open_node-Opened}
use fs_playground.Vfs.Attr.{vfs_statat, vfs_stat, vfs_chmod}
use fs_playground.Vfs.Attr.Balance.{
  FoundHeld, held_store, held_vnode, stat_answer, vfs_statat-balanced, vfs_chmod-leak,
}

abbrev path : CString
path = b'd' ∷ b'/' ∷ b'f' ∷ []

find_tree-Grows_example :
    Ends
      (λ _ t. Grows test_store t × Unit {0})
      (find_tree test_env 3 root_node (some path) test_store)
find_tree-Grows_example = find_tree-Grows test_env 3 root_node (some path) test_store

dir-InTree : InTree test_store 1 dir_vnode 1 dir_entry 0
unfolding backstack load_node deref join_names
dir-InTree = record {
  at_vnode = refl;
  tree = refl;
  at_node = refl;
  below = refl;
  names = [] ∷ dir_name ∷ [];
  path = refl;
  fits = omega arith;
}

unref-ref_example :
    (vnode_ref (some 1) >> vnode_unref test_env 2 (some 1)) test_store ≡ ok tt test_store
unref-ref_example = unref-ref dir-InTree test_env 2 (omega arith) (λ _ e. cc)

dir-FoundHeld : FoundHeld test_env 3 test_store none dir_name test_store 1 dir_vnode 1 dir_entry 0
unfolding vfs_find load_node load_vnode deref check allocated path_element
dir-FoundHeld = record { found = refl; in_tree = dir-InTree; small = omega arith; held = λ _ e. cc }

-- "." in the directory.
here-FoundHeld : FoundHeld test_env 3 test_store (some 1) dot test_store 1 dir_vnode 1 dir_entry 0
unfolding vfs_find load_node load_vnode deref check allocated path_element
here-FoundHeld = record {
  found = refl;
  in_tree = dir-InTree;
  small = omega arith;
  held = λ _ e. cc;
}

vfs_statat-balanced_example :
    let r =
      stat_answer test_env 3
        (held_vnode test_env 3 here-FoundHeld)
        0
        (op_of test_env dir_vnode (λ o. o.stat)) in
    (vfs_statat test_env 3 (some 1) dot test_store ≡ ok r.0 (record test_store { driver = r.1 }))
    × (vfs_stat test_env 3 (record test_ctx { cwd_vnode = some 1 }) dot test_store
        ≡ ok r.0 (record test_store { driver = r.1 }))
    × (vfs_statat test_env 3 none dot test_store ≡ fault)
vfs_statat-balanced_example = vfs_statat-balanced test_env 3 here-FoundHeld test_ctx

vfs_chmod-leak_example :
    vfs_chmod test_env 3 test_ctx dir_name 511 test_store
    ≡ ok eacces (record (held_store test_env 3 dir-FoundHeld) { driver = 1 })
vfs_chmod-leak_example =
    vfs_chmod-leak test_env 3 test_ctx dir-FoundHeld refl 511 test_access refl refl (omega arith)
      (omega arith)

file_opened : Run (Store ℕ) (ℤ × Ofile)
file_opened =
    ok (pos 0, record closed_file { flags = 0; vnode = some 2 }) (record test_store { driver = 2 })

open_file-run : vfs_open_node test_env owner_ctx closed_file (some 2) 0 test_store ≡ file_opened
unfolding vfs_open_node load_vnode deref check call ops_of op_of file_opened open_access_mask
    access_internal
open_file-run = refl

vfs_open_node-Opened_example : Opened test_env owner_ctx file_vnode 0 0
unfolding file_opened
vfs_open_node-Opened_example =
    vfs_open_node-Opened test_env owner_ctx closed_file
      (record closed_file { flags = 0; vnode = some 2 }) 2 file_vnode 0 test_store
      (record test_store { driver = 2 }) (pos 0) refl open_file-run refl

abbrev chain_node : ℕ → VfsNode
chain_node a = new_node dir_name a (if a == 0 then none else some (a - 1)) none

-- A chain of directories, each below the one at the address before.
abbrev chain_store : Store ℕ
chain_store = record test_store {
  nodes = λ a. some (chain_node a);
  vnodes = λ a. some (new_vnode VnodeType.dir (some a));
  next = 11;
}

chain-Deep : Deep chain_store 11 (some 10)
chain-Deep = (
  chain_node 10,
  refl,
  (
    chain_node 9,
    refl,
    (
      chain_node 8,
      refl,
      (
        chain_node 7,
        refl,
        (
          chain_node 6,
          refl,
          (
            chain_node 5,
            refl,
            (
              chain_node 4,
              refl,
              (
                chain_node 3,
                refl,
                (chain_node 2, refl, (chain_node 1, refl, (chain_node 0, refl, tt))),
              ),
            ),
          ),
        ),
      ),
    ),
  ),
)

vnode_unref-Deep_example : vnode_unref test_env 3 (some 10) chain_store ≡ fault
vnode_unref-Deep_example =
    vnode_unref-Deep test_env 3 chain_store 10 (new_vnode VnodeType.dir (some 10)) refl chain-Deep
