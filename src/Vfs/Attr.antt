-- ===== src/Vfs/Attr.antt =====
-- Attributes by path in src/vfs.c: `vfs_stat`, `vfs_statat`, `vfs_chmod`, `vfs_chown`, `vfs_access`,
-- `vfs_statvfs`, `vfs_readlink` and `vfs_readlinkat`. A buffer that is not filled is `none`.
pub mod Balance
use fs_playground.Access.{access_internal}
use fs_playground.Base.{
  ℕ, not, ◌&&◌, Option, none, some, ◌==◌, if◌then◌else◌, get_elem?, CString, ℤ, pos, is_zero,
  is_neg, eacces, einval,
}
use fs_playground.FsClass.{Mount}
use fs_playground.Vfs.State.{Ptr, Vnode, Ioctx, Stat, StatVfs, VnodeOps, Env}
use fs_playground.Vfs.Run.{
  Cmd, pure, ◌>>=◌, ◌>>◌, check, deref, call, load_vnode, ops_of, op_of, is_some,
}
use fs_playground.Vfs.Node.{vnode_ref, vnode_unref}
use fs_playground.Vfs.Find.{is_lnk, vfs_find}

module _ {D : Type 0} (env : Env D) where
  -- What `vfs_stat` and `vfs_statat` spell out in the same words.
  unfoldable pub stat_from : ℕ → Ptr → CString → Cmd D (ℤ × Option Stat)
  stat_from fuel at path = do
    (res, vnode) ← vfs_find env fuel at path
    if not (is_zero res) then pure (res, none) else do
      vnode_ref vnode
      v ← load_vnode vnode
      r ← elim (op_of env v (λ o. o.stat)) [
        | none ↦ pure (einval, none)
        | some stat ↦ do (res', st) ← call (stat v); pure (res', some st)
      ]
      vnode_unref env fuel vnode
      pure r

  -- `at` is asserted.
  unfoldable pub vfs_statat : ℕ → Ptr → CString → Cmd D (ℤ × Option Stat)
  vfs_statat fuel at path = do check (is_some at); stat_from fuel at path

  unfoldable pub vfs_stat : ℕ → Ioctx → CString → Cmd D (ℤ × Option Stat)
  vfs_stat fuel ctx path = stat_from fuel ctx.cwd_vnode path

  -- Who may change the mode: the owner and the superuser, where the file system has owners.
  chmod_denied : Ioctx → Vnode → VnodeOps D → Cmd D (Option ℤ)
  chmod_denied ctx v ops = elim ops.access [
    | none ↦ pure none
    | some access ↦ do
      (res, o) ← call (access v)
      if is_neg res
          then pure (some res)
          else (if not (o.uid == ctx.cred.uid) && not (ctx.cred.uid == 0)
              then pure (some eacces)
              else pure none)
  ]

  unfoldable pub vfs_chmod : ℕ → Ioctx → CString → ℕ → Cmd D ℤ
  unfolding chmod_denied
  vfs_chmod fuel ctx path mode = do
    (res, vnode) ← vfs_find env fuel ctx.cwd_vnode path
    if is_neg res then pure res else do
      vnode_ref vnode
      v ← load_vnode vnode
      ops ← ops_of env v
      denied ← chmod_denied ctx v ops
      elim denied [
        | some res' ↦ pure res'
        | none ↦ elim ops.chmod [
          | none ↦ pure einval
          | some chmod ↦ do res' ← call (chmod v mode); vnode_unref env fuel vnode; pure res'
        ]
      ]

  unfoldable pub vfs_chown : ℕ → Ioctx → CString → ℕ → ℕ → Cmd D ℤ
  vfs_chown fuel ctx path uid gid = if not (ctx.cred.uid == 0) then pure eacces else do
    (res, vnode) ← vfs_find env fuel ctx.cwd_vnode path
    if is_neg res then pure res else do
      vnode_ref vnode
      v ← load_vnode vnode
      ops ← ops_of env v
      elim ops.chown [
        | none ↦ pure einval
        | some chown ↦ do res' ← call (chown v uid gid); vnode_unref env fuel vnode; pure res'
      ]

  unfoldable pub vfs_access : ℕ → Ioctx → CString → ℕ → Cmd D ℤ
  vfs_access fuel ctx path mode = do
    (res, vnode) ← vfs_find env fuel ctx.cwd_vnode path
    if not (is_zero res) then pure res else do
      vnode_ref vnode
      if mode == 0 then (do vnode_unref env fuel vnode; pure (pos 0)) else do
        v ← load_vnode vnode
        ops ← ops_of env v
        elim ops.access [
          | none ↦ do vnode_unref env fuel vnode; pure einval
          | some access ↦ do
            (res', o) ← call (access v)
            vnode_unref env fuel vnode
            pure (if is_neg res' then res' else access_internal ctx.cred mode o.mode o.uid o.gid)
        ]

  -- The slot of the mount table that `vnode->fs` points to.
  mount_slot : ℕ → Cmd D (Mount ℕ)
  mount_slot i s = deref (get_elem? s.mounts i) s

  unfoldable pub vfs_statvfs : ℕ → Ioctx → CString → Cmd D (ℤ × Option StatVfs)
  unfolding mount_slot
  vfs_statvfs fuel ctx path = do
    (res, vnode) ← vfs_find env fuel ctx.cwd_vnode path
    if is_neg res then pure (res, none) else do
      vnode_ref vnode
      v ← load_vnode vnode
      vnode_unref env fuel vnode
      elim v.fs [
        | none ↦ pure (einval, none)
        | some i ↦ do
          fs ← mount_slot i
          elim fs.cls [
            | none ↦ pure (einval, none)
            | some c ↦ elim (env.classes c).statvfs [
              | none ↦ pure (einval, none)
              | some statvfs ↦ do (res', st) ← call (statvfs i fs); pure (res', some st)
            ]
          ]
      ]

  unfoldable pub vfs_readlinkat : ℕ → Ptr → CString → Cmd D (ℤ × Option CString)
  vfs_readlinkat fuel at path = do
    (res, vnode) ← vfs_find env fuel at path
    if is_neg res then pure (res, none) else do
      vnode_ref vnode
      v ← load_vnode vnode
      elim (op_of env v (λ o. o.readlink)) [
        | none ↦ do vnode_unref env fuel vnode; pure (einval, none)
        | some readlink ↦
            if not (is_lnk v.type) then (do vnode_unref env fuel vnode; pure (einval, none)) else do
              (res', buf) ← call (readlink v)
              vnode_unref env fuel vnode
              pure (res', some buf)
      ]

  pub vfs_readlink : ℕ → Ioctx → CString → Cmd D (ℤ × Option CString)
  vfs_readlink fuel ctx path = vfs_readlinkat fuel ctx.cwd_vnode path
