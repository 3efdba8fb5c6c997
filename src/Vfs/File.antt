-- ===== src/Vfs/File.antt =====
-- Operations on open files in src/vfs.c: `vfs_read`, `vfs_write`, `vfs_truncate`, `vfs_readdir`.
pub mod Transfers
use fs_playground.Access.{r_ok, w_ok}
use fs_playground.Base.{
  ℕ, ◌+◌, ◌%◌, ◌^◌, not, Option, none, some, List, [], ◌==◌, if◌then◌else◌, bit, ℤ, pos, negsuc,
  is_zero, is_neg, eacces, eisdir, einval,
}
use fs_playground.Vfs.State.{Ofile, Ioctx, Env}
use fs_playground.Vfs.Run.{Cmd, pure, ◌>>=◌, call, load_vnode, ops_of}
use fs_playground.Vfs.Open.{o_directory, accmode, vnode_access}

-- `if (nr > 0) fd->pos += nr;`
abbrev pub advance : Ofile → ℤ → Ofile
advance fd (pos nr) = record fd { pos = (fd.pos + nr) % 2 ^ 64 }
advance fd (negsuc _) = fd

module _ {D : Type 0} (env : Env D) where
  -- The result, the bytes that were stored in the buffer, and the open file.
  unfoldable pub vfs_read : Ioctx → Ofile → ℕ → Cmd D (ℤ × List ℕ × Ofile)
  vfs_read ctx fd count = do
    v ← load_vnode fd.vnode
    ops ← ops_of env v
    granted ← vnode_access env ctx fd.vnode r_ok
    if is_neg granted
        then pure (eacces, [], fd)
        else (if bit fd.flags o_directory
            then pure (eisdir, [], fd)
            else (if accmode fd.flags == 1 then pure (einval, [], fd) else (elim ops.read [
              | none ↦ pure (einval, [], fd)
              | some read ↦ do
                (nr, buf, fd') ← call (read fd v count)
                pure (nr, buf, advance fd' nr)
            ])))

  unfoldable pub vfs_write : Ioctx → Ofile → List ℕ → Cmd D (ℤ × Ofile)
  vfs_write ctx fd buf = do
    v ← load_vnode fd.vnode
    ops ← ops_of env v
    granted ← vnode_access env ctx fd.vnode w_ok
    if is_neg granted
        then pure (eacces, fd)
        else (if bit fd.flags o_directory
            then pure (eisdir, fd)
            else (if accmode fd.flags == 0 then pure (einval, fd) else (elim ops.write [
              | none ↦ pure (einval, fd)
              | some write ↦ call (write fd v buf)
            ])))

  unfoldable pub vfs_truncate : Ioctx → Ofile → ℕ → Cmd D (ℤ × Ofile)
  vfs_truncate ctx of len =
      if accmode of.flags == 0
      then pure (einval, of)
      else (if bit of.flags o_directory then pure (einval, of) else do
        v ← load_vnode of.vnode
        ops ← ops_of env v
        granted ← vnode_access env ctx of.vnode w_ok
        if is_neg granted then pure (eacces, of) else (elim ops.truncate [
          | none ↦ pure (einval, of)
          | some truncate ↦ call (truncate of v len)
        ]))

  -- The directory entry that is returned, `none` for NULL, and the open file.
  unfoldable pub vfs_readdir : Ioctx → Ofile → Cmd D (Option (List ℕ) × Ofile)
  vfs_readdir ctx fd = if not (bit fd.flags o_directory) then pure (none, fd) else do
    v ← load_vnode fd.vnode
    ops ← ops_of env v
    granted ← vnode_access env ctx fd.vnode r_ok
    if is_neg granted then pure (none, fd) else (elim ops.readdir [
      | none ↦ pure (none, fd)
      | some readdir ↦ do
        (res, fd') ← call (readdir fd v)
        pure (if is_zero res then some fd'.dirent_buf else none, fd')
    ])
