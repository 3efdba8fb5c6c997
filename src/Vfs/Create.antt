-- ===== src/Vfs/Create.antt =====
-- Creating and opening by path in src/vfs.c: `vfs_creat_internal`, `vfs_creat` and `vfs_open`, and
-- the search for the parent directory, which `vfs_creat`, `vfs_mkdir` and `vfs_symlink` each spell
-- out in the same words.
pub mod Writable
use fs_playground.Access.{w_ok}
use fs_playground.Base.{
  ℕ, Bool, false, not, Option, none, some, [], ◌∷◌, ◌==◌, ltb, if◌then◌else◌, bit, clear_bit,
  CString, length, ℤ, pos, is_zero, is_neg, enoent, eacces, enotdir, einval, erofs,
}
use fs_playground.PathName.{slash, path_parent, path_basename}
use fs_playground.Vfs.State.{Ptr, Ofile, Ioctx, Env}
use fs_playground.Vfs.Run.{
  Cmd, pure, ◌>>=◌, ◌>>◌, check, deref, call, load_node, load_vnode, modify_node, alloc_vnode,
  ops_of, is_some,
}
use fs_playground.Vfs.Node.{node_create, vnode_ref, vnode_unref}
use fs_playground.Vfs.Find.{Found, is_dir, dot, vfs_find}
use fs_playground.Vfs.Open.{o_creat, vnode_access, vfs_open_node, resolve_link}

abbrev pub is_absolute : CString → Bool
is_absolute [] = false
is_absolute (c ∷ cs) = c == slash

-- The parent path of a relative path that has no slash is ".".
abbrev pub or_dot : CString → CString
or_dot [] = dot
or_dot (c ∷ cs) = c ∷ cs

-- The search for a directory to write to ends in a return code or in a referenced vnode.
pub data Parent : Type 0 where
  refused : ℤ → Parent
  parent : Ptr → Parent

module _ {D : Type 0} (env : Env D) where
  unfoldable pub find_parent : ℕ → Ioctx → CString → Cmd D Found
  find_parent fuel ctx path = do
    check (ltb (length (path_parent path)) 1024)
    if is_absolute path
        then vfs_find env fuel none (path_parent path)
        else vfs_find env fuel ctx.cwd_vnode (or_dot (path_parent path))

  -- `deny` is what is returned for the code of a denied write.
  unfoldable pub writable_parent : ℕ → Ioctx → (ℤ → ℤ) → CString → Cmd D Parent
  writable_parent fuel ctx deny path = do
    (res, parent_vnode) ← find_parent fuel ctx path
    if not (is_zero res) then pure (refused res) else do
      vnode_ref parent_vnode
      (res', dir) ← resolve_link env fuel parent_vnode
      if is_neg res' then pure (refused res') else do
        v ← load_vnode dir
        if not (is_dir v.type) then (do vnode_unref env fuel dir; pure (refused enotdir)) else do
          granted ← vnode_access env ctx dir w_ok
          if is_neg granted
              then (do vnode_unref env fuel dir; pure (refused (deny granted)))
              else pure (parent dir)

  -- Creates a file without opening it, and prepends its node to the directory's children.
  unfoldable pub creat_internal : Ioctx → Ptr → CString → ℕ → ℕ → Cmd D Found
  creat_internal ctx at name mode opt = do
    v ← load_vnode at
    ops ← ops_of env v
    check (is_some v.tree_node)
    elim ops.creat [
      | none ↦ pure (erofs, none)
      | some creat ↦ do
        (res, content) ← call (creat v ctx.cred name mode opt)
        if not (is_zero res) then pure (res, none) else do
          created ← deref content
          resvn ← alloc_vnode created
          child_node ← node_create name resvn
          parent_node ← load_node v.tree_node
          modify_node child_node (λ n. record n { parent = v.tree_node; cdr = parent_node.child })
          modify_node v.tree_node (λ n. record n { child = child_node })
          pure (pos 0, resvn)
    ]

  -- Opens a referenced vnode, and gives the reference back if that fails.
  open_referenced : ℕ → Ioctx → Option Ofile → Ptr → ℕ → Cmd D (ℤ × Option Ofile)
  open_referenced fuel ctx of vn opt = do
    o ← deref of
    (res, o') ← vfs_open_node env ctx o vn opt
    (if is_neg res then vnode_unref env fuel vn else pure tt)
    pure (res, some o')

  -- An open file that is NULL is `none`.
  unfoldable pub vfs_creat : ℕ → Ioctx → Option Ofile → CString → ℕ → ℕ → Cmd D (ℤ × Option Ofile)
  unfolding open_referenced
  vfs_creat fuel ctx of path mode opt = do
    (res, vnode) ← vfs_find env fuel ctx.cwd_vnode path
    if is_zero res
        then (do vnode_ref vnode; open_referenced fuel ctx of vnode (clear_bit opt o_creat))
        else do
          p ← writable_parent fuel ctx (λ _. eacces) path
          elim p [
            | refused res' ↦ pure (res', of)
            | parent dir ↦ do
              (res', created) ←
                  creat_internal ctx dir (path_basename path) mode (clear_bit opt o_creat)
              if not (is_zero res') then (do vnode_unref env fuel dir; pure (res', of)) else do
                vnode_ref created
                vnode_unref env fuel dir
                if not (is_some of)
                    then (do vnode_unref env fuel created; pure (einval, of))
                    else open_referenced fuel ctx of created (clear_bit opt o_creat)
          ]

  unfoldable pub vfs_open : ℕ → Ioctx → Ofile → CString → ℕ → ℕ → Cmd D (ℤ × Ofile)
  vfs_open fuel ctx of path mode opt = do
    (res, vnode) ← vfs_find env fuel ctx.cwd_vnode path
    if not (is_zero res)
        then (if not (bit opt o_creat) then pure (enoent, of) else do
          (res', o) ← vfs_creat fuel ctx (some of) path mode opt
          of' ← deref o
          pure (res', of'))
        else do
          vnode_ref vnode
          (res', target) ← resolve_link env fuel vnode
          if is_neg res' then pure (res', of) else do
            (res'', of') ← vfs_open_node env ctx of target (clear_bit opt o_creat)
            (if is_neg res'' then vnode_unref env fuel target else pure tt)
            pure (if is_neg res'' then res'' else pos 0, of')
