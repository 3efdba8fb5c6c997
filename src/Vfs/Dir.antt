-- ===== src/Vfs/Dir.antt =====
-- Changing directories by path in src/vfs.c: `vfs_mkdir`, `vfs_symlink` and `vfs_unlink`. The test
-- of the basename for NULL is left out: `vfs_path_basename` never returns NULL.
use fs_playground.Access.{w_ok}
use fs_playground.Base.{
  ℕ, not, ◌&&◌, Option, none, some, ◌==◌, if◌then◌else◌, CString, ℤ, pos, is_zero, is_neg, eexist,
  eacces, einval,
}
use fs_playground.PathName.{path_basename}
use fs_playground.Vfs.State.{Ptr, Vnode, Ioctx, VnodeOps, Env}
use fs_playground.Vfs.Run.{
  Cmd, pure, ◌>>=◌, ◌>>◌, check, call, load_node, load_vnode, ops_of, op_of, is_some, is_null,
  ptr_eq,
}
use fs_playground.Vfs.Node.{vnode_ref, vnode_unref}
use fs_playground.Vfs.Find.{is_dir, vfs_find}
use fs_playground.Vfs.Open.{vnode_access}
use fs_playground.Vfs.Create.{refused, parent, writable_parent}

module _ {D : Type 0} (env : Env D) where
  -- What `vfs_mkdir` and `vfs_symlink` share: refuse a path that exists, find a parent that may be
  -- written, call the driver's function on it, and give the reference back.
  make_entry : ℕ → Ioctx → CString → (VnodeOps D → Option (Vnode → CString → D → ℤ × D)) → Cmd D ℤ
  make_entry fuel ctx path field = do
    (res, vnode) ← vfs_find env fuel ctx.cwd_vnode path
    if is_zero res then (do vnode_ref vnode; vnode_unref env fuel vnode; pure eexist) else do
      p ← writable_parent env fuel ctx (λ r. r) path
      elim p [
        | refused res' ↦ pure res'
        | parent dir ↦ do
          v ← load_vnode dir
          res' ← elim (op_of env v field) [
            | none ↦ pure einval
            | some make ↦ call (make v (path_basename path))
          ]
          vnode_unref env fuel dir
          pure res'
      ]

  mkdir_of : ℕ → VnodeOps D → Option (Vnode → CString → D → ℤ × D)
  mkdir_of mode ops = elim ops.mkdir [
    | none ↦ none
    | some mkdir ↦ some (λ v name. mkdir v name mode)
  ]

  unfoldable pub vfs_mkdir : ℕ → Ioctx → CString → ℕ → Cmd D ℤ
  unfolding make_entry mkdir_of
  vfs_mkdir fuel ctx path mode = make_entry fuel ctx path (mkdir_of mode)

  symlink_of : Ioctx → CString → VnodeOps D → Option (Vnode → CString → D → ℤ × D)
  symlink_of ctx target ops = elim ops.symlink [
    | none ↦ none
    | some symlink ↦ some (λ v name. symlink v ctx.cred name target)
  ]

  unfoldable pub vfs_symlink : ℕ → Ioctx → CString → CString → Cmd D ℤ
  unfolding make_entry symlink_of
  vfs_symlink fuel ctx target linkpath = make_entry fuel ctx linkpath (symlink_of ctx target)

  -- Both references of `vfs_unlink` are given back.
  unref_both : ℕ → Ptr → Ptr → ℤ → Cmd D ℤ
  unref_both fuel vnode parent_vnode res = do
    vnode_unref env fuel vnode
    vnode_unref env fuel parent_vnode
    pure res

  -- The part of `vfs_unlink` behind its checks of the vnode.
  unlink_in : ℕ → Ioctx → CString → ℤ → Ptr → Ptr → Cmd D ℤ
  unfolding unref_both
  unlink_in fuel ctx path res vnode parent_vnode = do
    vnode_ref parent_vnode
    pv ← load_vnode parent_vnode
    if not (is_dir pv.type) then unref_both fuel vnode parent_vnode res else do
      granted ← vnode_access env ctx parent_vnode w_ok
      if is_neg granted then unref_both fuel vnode parent_vnode granted else do
        ops ← ops_of env pv
        elim ops.unlink [
          | none ↦ unref_both fuel vnode parent_vnode einval
          | some unlink ↦ do
            v ← load_vnode vnode
            res' ← call (unlink pv v (path_basename path))
            unref_both fuel vnode parent_vnode (if is_neg res' then res' else pos 0)
        ]

  unfoldable pub vfs_unlink : ℕ → Ioctx → CString → Cmd D ℤ
  unfolding unlink_in
  vfs_unlink fuel ctx path = do
    (res, vnode) ← vfs_find env fuel ctx.cwd_vnode path
    if is_neg res then pure res else do
      v ← load_vnode vnode
      check (is_some v.op)
      vnode_ref vnode
      node ← load_node v.tree_node
      if is_null node.parent then (do vnode_unref env fuel vnode; pure eacces) else do
        v' ← load_vnode vnode
        if not (v'.refcount == 0) && ptr_eq vnode ctx.cwd_vnode
            then pure einval
            else do above ← load_node node.parent; unlink_in fuel ctx path res vnode above.vnode
