-- ===== src/Vfs/Mount.antt =====
-- Mounting in src/vfs.c: `vfs_init`, `vfs_mount_internal`, `vfs_mount` and `vfs_umount`, over the
-- tables of src/fs_class.c.
use fs_playground.Base.{
  ℕ, true, false, not, Option, none, some, [], ◌∷◌, ◌==◌, if◌then◌else◌, CString, bytes_eq,
  get_elem?, ℤ, pos, negsuc, is_zero, eacces, einval, enoent, ebusy,
}
use fs_playground.FsClass.{Mount, fs_class_by_name, fs_create}
use fs_playground.Vfs.State.{Ptr, Ioctx, FsClassOps, Env}
use fs_playground.Vfs.Run.{
  Cmd, pure, ◌>>=◌, ◌>>◌, ok, check, stop, deref, call, load_node, load_vnode, modify_node,
  modify_vnode, alloc_vnode, is_some, is_null, ptr_eq,
}
use fs_playground.Vfs.Node.{vnode_free}
use fs_playground.Vfs.Find.{root_node, vfs_find}

-- "[root]"
abbrev pub root_name : CString
root_name = b'[' ∷ b'r' ∷ b'o' ∷ b'o' ∷ b't' ∷ b']' ∷ []

module _ {D : Type 0} where
  -- The static root node is reset; `ismount` and `link` keep what they hold.
  unfoldable pub vfs_init : Cmd D (Unit {0})
  vfs_init = modify_node root_node (λ n. record n {
    name = root_name;
    vnode = none;
    real_vnode = none;
    parent = none;
    child = none;
    cdr = none;
  })

  -- A slot of the mount table for a new file system instance.
  new_mount : ℕ → Option ℕ → Cmd D (Option ℕ)
  new_mount c blkdev s = elim (fs_create c blkdev none s.mounts) [
    | none ↦ ok none s
    | some (i, mounts) ↦ ok (some i) (record s { mounts = mounts })
  ]

  mount_at_slot : ℕ → Cmd D (Mount ℕ)
  mount_at_slot i s = deref (get_elem? s.mounts i) s

  module _ (env : Env D) where
    class_of : CString → Cmd D (Option ℕ)
    class_of fs_name s = ok (fs_class_by_name (λ c. (env.classes c).name) fs_name s.fses) s

    -- The part of `vfs_mount_internal` that sets the tree node, for instance `i`.
    graft : Ptr → ℕ → Mount ℕ → FsClassOps D → Cmd D ℤ
    graft at i fs cls = do
      node ← load_node at
      if is_some node.child
          then pure ebusy
          else (if node.ismount then stop else do
            get_root ← deref cls.get_root
            content ← call (get_root i fs)
            root ← deref content
            fs_root ← alloc_vnode root
            modify_node at (λ n. record n { vnode = fs_root; real_vnode = n.vnode; ismount = true })
            modify_vnode fs_root (λ v. record v { tree_node = at })
            pure (pos 0))

    unfoldable pub mount_internal : Ptr → Option ℕ → CString → CString → Cmd D ℤ
    unfolding new_mount mount_at_slot class_of graft
    mount_internal at blkdev fs_name opt = do
      found ← class_of fs_name
      elim found [
        | none ↦ pure einval
        | some c ↦ do
          slot ← new_mount c blkdev
          elim slot [
            | none ↦ pure einval
            | some i ↦ do
              fs ← mount_at_slot i
              check (is_some (env.classes c).get_root)
              res ← elim (env.classes c).mount [
                | none ↦ pure (pos 0)
                | some mount ↦ call (mount i fs opt)
              ]
              if not (is_zero res)
                  then pure (negsuc 0)
                  else graft (if is_some at then at else root_node) i fs (env.classes c)
          ]
      ]

    unfoldable pub vfs_mount : ℕ → Ioctx → CString → Option ℕ → CString → CString → Cmd D ℤ
    unfolding mount_internal
    vfs_mount fuel ctx target blkdev fs_name opt =
        if not (ctx.cred.uid == 0) then pure eacces else do
          root ← load_node root_node
          if is_null root.vnode
              then (if bytes_eq target (b'/' ∷ [])
                  then mount_internal none blkdev fs_name opt
                  else pure enoent)
              else do
                (res, vnode_mount_at) ← vfs_find env fuel ctx.cwd_vnode target
                if not (is_zero res) then pure res else do
                  v ← load_vnode vnode_mount_at
                  check (is_some v.tree_node)
                  mount_internal v.tree_node blkdev fs_name opt

    -- The driver's `umount` is not called, and the mount's slot is not released.
    unfoldable pub vfs_umount : ℕ → Ioctx → CString → Cmd D (ℤ × Ioctx)
    vfs_umount fuel ctx target = if not (ctx.cred.uid == 0) then pure (eacces, ctx) else do
      root ← load_node root_node
      if is_null root.vnode then pure (enoent, ctx) else do
        (res, at_vnode) ← vfs_find env fuel ctx.cwd_vnode target
        if not (is_zero res) then pure (res, ctx) else do
          v ← load_vnode at_vnode
          at ← load_node v.tree_node
          if not at.ismount
              then pure (einval, ctx)
              else (if is_some at.child then pure (ebusy, ctx) else do
                modify_node v.tree_node (λ n. record n { vnode = n.real_vnode; ismount = false })
                modify_vnode at_vnode (λ w. record w { refcount = 0 })
                vnode_free env fuel at_vnode
                pure (
                  pos 0,
                  if ptr_eq at_vnode ctx.cwd_vnode then record ctx { cwd_vnode = none } else ctx,
                ))
