-- ===== src/Vfs/Open.antt =====
-- Opening and closing in src/vfs.c: `vfs_vnode_access`, `vfs_open_node`, `vfs_close`, the working
-- directory, and the step from a symbolic link to what it leads to. The O_* flags are those of
-- Linux's <fcntl.h>, with O_EXEC of include/node.h.
pub mod Grants
use fs_playground.Access.{x_ok, access_internal, open_access_mask}
use fs_playground.Base.{
  ℕ, ◌%◌, not, ◌&&◌, none, some, ◌==◌, ltb, if◌then◌else◌, bit, CString, length, ℤ, pos, is_zero,
  is_neg, eacces, enotdir, eisdir, einval,
}
use fs_playground.Vfs.State.{Ptr, Ofile, Ioctx, Env}
use fs_playground.Vfs.Run.{
  Cmd, pure, ◌>>=◌, ◌>>◌, check, deref, call, load_node, load_vnode, ops_of, op_of, is_some,
}
use fs_playground.Vfs.Node.{vnode_ref, vnode_unref}
use fs_playground.Vfs.Find.{Found, is_dir, is_lnk, find_tree, vfs_find}

abbrev pub o_creat : ℕ
o_creat = 6

abbrev pub o_trunc : ℕ
o_trunc = 9

abbrev pub o_append : ℕ
o_append = 10

abbrev pub o_directory : ℕ
o_directory = 16

abbrev pub o_exec : ℕ
o_exec = 2

-- `opt & O_ACCMODE`
abbrev pub accmode : ℕ → ℕ
accmode opt = opt % 4

module _ {D : Type 0} (env : Env D) where
  unfoldable pub vnode_access : Ioctx → Ptr → ℕ → Cmd D ℤ
  vnode_access ctx vn mode = do
    v ← load_vnode vn
    elim (op_of env v (λ o. o.access)) [
      | none ↦ pure (pos 0)
      | some access ↦ do
        (res, o) ← call (access v)
        if is_neg res then pure res else pure (access_internal ctx.cred mode o.mode o.uid o.gid)
    ]

  -- The branch of `vfs_open_node` for O_DIRECTORY.
  open_directory : Ofile → Ptr → ℕ → Cmd D (ℤ × Ofile)
  open_directory of vn opt = do
    check (accmode opt == 0)
    check (not (bit opt o_trunc))
    check (not (bit opt o_creat))
    v ← load_vnode vn
    if not (is_dir v.type) then pure (enotdir, of) else do
      ops ← ops_of env v
      elim ops.opendir [
        | none ↦ pure (einval, of)
        | some opendir ↦ do
          res ← call (opendir v opt)
          if is_zero res
              then pure (res, record of { flags = opt; vnode = vn; pos = 0 })
              else pure (res, of)
      ]

  -- The truncation before opening.
  open_truncate : Ofile → Ptr → ℕ → Cmd D (ℤ × Ofile)
  open_truncate of vn opt = if not (bit opt o_trunc) then pure (pos 0, of) else do
    v ← load_vnode vn
    ops ← ops_of env v
    elim ops.truncate [ none ↦ pure (einval, of) | some truncate ↦ call (truncate of v 0) ]

  -- The branch for everything else.
  open_regular : Ofile → Ptr → ℕ → Cmd D (ℤ × Ofile)
  unfolding open_truncate
  open_regular of vn opt = do
    v ← load_vnode vn
    if bit opt o_creat
        then pure (einval, of)
        else (if bit opt o_exec && not (accmode opt == 0)
            then pure (eacces, of)
            else (if is_dir v.type then pure (eisdir, of) else do
              let of' = record of { flags = opt; vnode = vn; pos = 0 }
              if bit opt o_append then pure (einval, of') else do
                (res, of'') ← open_truncate of' vn opt
                if not (is_zero res) then pure (res, of'') else do
                  ops ← ops_of env v
                  elim ops.open_file [
                    | none ↦ pure (pos 0, of'')
                    | some open_file ↦ do res' ← call (open_file v opt); pure (res', of'')
                  ]))

  unfoldable pub vfs_open_node : Ioctx → Ofile → Ptr → ℕ → Cmd D (ℤ × Ofile)
  unfolding open_directory open_regular vnode_access
  vfs_open_node ctx of vn opt = do
    v ← load_vnode vn
    check (is_some v.op)
    mask ← deref (open_access_mask opt)
    granted ← vnode_access ctx vn mask
    if is_neg granted
        then pure (eacces, of)
        else (if bit opt o_directory then open_directory of vn opt else open_regular of vn opt)

  -- The driver's close, and the reference that the open took.
  unfoldable pub vfs_close : ℕ → Ofile → Cmd D Ofile
  vfs_close fuel of = do
    v ← load_vnode of.vnode
    ops ← ops_of env v
    of' ← elim ops.close [ none ↦ pure of | some close ↦ call (close of v) ]
    vnode_unref env fuel of'.vnode
    pure of'

  -- A vnode that is referenced is exchanged for the one that its link leads to; another vnode is
  -- kept. On an error the reference is given back. (In `vfs_open`, `vfs_creat`, `vfs_mkdir` and
  -- `vfs_symlink`.)
  unfoldable pub resolve_link : ℕ → Ptr → Cmd D Found
  resolve_link fuel vn = do
    v ← load_vnode vn
    if not (is_lnk v.type) then pure (pos 0, vn) else do
      ops ← ops_of env v
      readlink ← deref ops.readlink
      node ← load_node v.tree_node
      (res, lnk) ← call (readlink v)
      if is_neg res then (do vnode_unref env fuel vn; pure (res, none)) else do
        check (ltb (length lnk) 1024)
        (res', link_node) ← find_tree env fuel node.parent (some lnk)
        if is_neg res' then (do vnode_unref env fuel vn; pure (res', none)) else do
          target ← load_node link_node
          vnode_ref target.vnode
          vnode_unref env fuel vn
          pure (pos 0, target.vnode)

  unfoldable pub setcwd_rel : ℕ → Ioctx → Ptr → CString → Cmd D (ℤ × Ioctx)
  setcwd_rel fuel ctx at path = do
    (res, new_cwd) ← vfs_find env fuel at path
    if not (is_zero res) then pure (res, ctx) else do
      vnode_ref new_cwd
      v ← load_vnode new_cwd
      if not (is_dir v.type) then (do vnode_unref env fuel new_cwd; pure (enotdir, ctx)) else do
        granted ← vnode_access ctx new_cwd x_ok
        if is_neg granted then (do vnode_unref env fuel new_cwd; pure (granted, ctx)) else do
          (if is_some ctx.cwd_vnode then vnode_unref env fuel ctx.cwd_vnode else pure tt)
          pure (pos 0, record ctx { cwd_vnode = new_cwd })

  pub vfs_setcwd : ℕ → Ioctx → CString → Cmd D (ℤ × Ioctx)
  vfs_setcwd fuel ctx cwd = setcwd_rel fuel ctx none cwd

  pub vfs_chdir : ℕ → Ioctx → CString → Cmd D (ℤ × Ioctx)
  vfs_chdir fuel ctx cwd_rel = setcwd_rel fuel ctx ctx.cwd_vnode cwd_rel
