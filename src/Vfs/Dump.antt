-- ===== src/Vfs/Dump.antt =====
-- The text that `vfs_dump_tree` of src/vfs.c prints.
use fs_playground.Base.{ℕ, zero, suc, not, none, some, [], ◌∷◌, ◌++◌, if◌then◌else◌, CString}
use fs_playground.Print.{bytes, int32_field}
use fs_playground.Vfs.State.{Ptr}
use fs_playground.Vfs.Run.{Cmd, pure, ◌>>=◌, load_node, load_vnode, is_null, out_of_fuel}
use fs_playground.Vfs.Find.{root_node, is_dir}

abbrev indent : ℕ → CString
indent zero = []
indent (suc o) = 32 ∷ 32 ∷ indent o

module _ {D : Type 0} where
  -- `vfs_dump_node`, where `children` prints the nodes of a list.
  unfoldable pub dump_node : (Ptr → ℕ → Cmd D CString) → Ptr → ℕ → Cmd D CString
  dump_node children p o = do
    node ← load_node p
    v ← load_vnode node.vnode
    let entry : CString = indent o ++ (int32_field 4 v.refcount ++ (32 ∷ node.name))
    if not (is_dir v.type) then pure (entry ++ (10 ∷ [])) else do
      below ← children node.child (suc o)
      pure (entry ++ ((if node.ismount then bytes " (mount)" else []) ++ (58 ∷ 10 ∷ below)))

  -- The loop over the children, each with its own. A round is a node of the tree.
  unfoldable pub dump_list : ℕ → Ptr → ℕ → Cmd D CString
  dump_list zero p o s = out_of_fuel
  dump_list (suc rounds) none o s = pure [] s
  dump_list (suc rounds) (some a) o s =
      (do
        text ← dump_node (dump_list rounds) (some a) o
        node ← load_node (some a)
        rest ← dump_list rounds node.cdr o
        pure (text ++ rest))
        s

  unfoldable pub vfs_dump_tree : ℕ → Cmd D CString
  vfs_dump_tree fuel = do
    root ← load_node root_node
    if is_null root.vnode then pure [] else dump_node (dump_list fuel) root_node 0
