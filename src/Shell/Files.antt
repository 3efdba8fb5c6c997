-- ===== src/Shell/Files.antt =====
-- The commands of src/ext2sh.c that open files: `ls`, `ll`, `cat`, `touch`, `hello` and `trunc`. In
-- C a command is a function of its argument that returns 0 or a negated errno value.
pub mod Reads
use fs_playground.Base.{
  ℕ, zero, suc, ◌+◌, ◌%◌, ◌^◌, Bool, false, not, Option, none, some, List, [], ◌∷◌, ◌++◌, ◌==◌, leb,
  ltb, if◌then◌else◌, CString, length, take, drop, ℤ, pos, negsuc, is_zero, is_neg,
}
use fs_playground.Command.{pure, ◌>>=◌, ◌>>◌, check, deref, out_of_fuel}
use fs_playground.Print.{bytes, dec}
use fs_playground.Vfs.State.{Ptr, Ofile, Env}
use fs_playground.Vfs.Open.{o_creat, o_trunc, o_directory, vfs_close}
use fs_playground.Vfs.Create.{vfs_creat, vfs_open}
use fs_playground.Vfs.File.{vfs_read, vfs_write, vfs_truncate, vfs_readdir}
use fs_playground.Vfs.Attr.{vfs_statat, vfs_readlinkat}
use fs_playground.Shell.Console.{Shell, vfs, ioctx, print, fgets, up_to_nul, c_string}
use fs_playground.Shell.Format.{is_link_mode, dumpstat}

-- `d_name` of include/dirent.h, in a buffer that starts with a `struct dirent`.
unfoldable pub d_name : List ℕ → Option CString
d_name ent = c_string (drop 11 ent)

unfoldable pub is_hidden : CString → Bool
is_hidden [] = false
is_hidden (c ∷ cs) = c == b'.'

unfoldable pub newline : CString
newline = 10 ∷ []

-- A line of `ls`, `ll` and `stat`.
unfoldable pub stat_line : CString → CString → CString
unfolding newline
stat_line status name = status ++ (9 ∷ (name ++ newline))

unfoldable pub link_line : CString → CString → CString → CString
unfolding newline
link_line status name target = status ++ (9 ∷ (name ++ (bytes " -> " ++ (target ++ newline))))

-- `stack` is what an open file on the stack holds before it is set.
module _ {D : Type 0} (env : Env D) (fuel : ℕ) (stack : Ofile) where
  unfoldable pub open_path : CString → (mode opt : ℕ) → Shell D (ℤ × Ofile)
  open_path arg mode opt = do ctx ← ioctx; vfs (vfs_open env fuel ctx stack arg mode opt)

  unfoldable pub close_file : Ofile → Shell D Ofile
  close_file fd = vfs (vfs_close env fuel fd)

  unfoldable pub next_entry : Ofile → Shell D (Option (List ℕ) × Ofile)
  next_entry fd = do ctx ← ioctx; vfs (vfs_readdir env ctx fd)

  -- The loop of `shell_ls`.
  unfoldable pub list_names : ℕ → Ofile → Shell D Ofile
  list_names zero fd s = out_of_fuel
  list_names (suc rounds) fd s =
      (do
        (entry, fd') ← next_entry fd
        elim entry [
          | none ↦ pure fd'
          | some ent ↦ do
            name ← deref (d_name ent)
            print (bytes "dirent " ++ (name ++ newline))
            list_names rounds fd'
        ])
        s

  unfoldable pub shell_ls : CString → Shell D ℤ
  shell_ls arg = do
    (res, fd) ← open_path arg 0 (2 ^ o_directory)
    if is_neg res then pure res else do fd' ← list_names fuel fd; close_file fd'; pure res

  -- One entry of `ll`: 0, or the code on which the command returns.
  unfoldable pub show_entry : Ptr → CString → Shell D ℤ
  show_entry at name = do
    (res, st) ← vfs (vfs_statat env fuel at name)
    if is_neg res then pure res else do
      status ← deref st
      if not (is_link_mode status.st_mode)
          then (do print (stat_line (dumpstat status) name); pure (pos 0))
          else do
            (res', linkp) ← vfs (vfs_readlinkat env fuel at name)
            if is_neg res' then pure res' else do
              target ← deref linkp
              check (ltb (length target) 1024)
              print (link_line (dumpstat status) name target)
              pure (pos 0)

  -- The loop of `shell_ls_detail`, whose early returns leave the directory open.
  unfoldable pub list_entries : ℕ → Ofile → Shell D ℤ
  list_entries zero fd s = out_of_fuel
  list_entries (suc rounds) fd s =
      (do
        (entry, fd') ← next_entry fd
        elim entry [
          | none ↦ do close_file fd'; pure (pos 0)
          | some ent ↦ do
            name ← deref (d_name ent)
            if is_hidden name then list_entries rounds fd' else do
              res ← show_entry fd'.vnode name
              if is_neg res then pure res else list_entries rounds fd'
        ])
        s

  unfoldable pub shell_ls_detail : CString → Shell D ℤ
  shell_ls_detail arg = do
    (res, fd) ← open_path arg 0 (2 ^ o_directory)
    if is_neg res then pure res else list_entries fuel fd

  -- The loop of `shell_cat`: the bytes that were read in all. Its end does not say why it ended.
  unfoldable pub copy_out : ℕ → Ofile → ℕ → Shell D (ℕ × Ofile)
  copy_out zero fd bread s = out_of_fuel
  copy_out (suc rounds) fd bread s =
      (do
        ctx ← ioctx
        (res, buf, fd') ← vfs (vfs_read env ctx fd 512)
        elim res [
          | negsuc _ ↦ pure (bread, fd')
          | pos zero ↦ pure (bread, fd')
          | pos (suc n) ↦ do
            check (leb (suc n) (length buf))
            print (take (suc n) buf)
            copy_out rounds fd' ((bread + suc n) % 2 ^ 64)
        ])
        s

  unfoldable pub shell_cat : CString → Shell D ℤ
  shell_cat arg = do
    (res, fd) ← open_path arg 0 0
    if not (is_zero res) then pure res else do
      (bread, fd') ← copy_out fuel fd 0
      close_file fd'
      print (newline ++ (dec bread ++ (bytes "B total" ++ newline)))
      pure (pos 0)

  -- 420 is 0644, and 2 is O_RDWR.
  unfoldable pub shell_touch : CString → Shell D ℤ
  shell_touch arg = do
    ctx ← ioctx
    (res, of) ← vfs (vfs_creat env fuel ctx (some stack) arg 420 2)
    if not (is_zero res) then pure res else do fd ← deref of; close_file fd; pure (pos 0)

  -- 1 is O_WRONLY. A write that fails leaves the file open.
  unfoldable pub shell_hello : CString → Shell D ℤ
  shell_hello arg = do
    print (bytes "= ")
    line ← fgets 512
    elim line [
      | none ↦ pure (negsuc 0)
      | some linebuf ↦ do
        (res, fd) ← open_path arg 420 (2 ^ o_trunc + 2 ^ o_creat + 1)
        if is_neg res then pure res else do
          ctx ← ioctx
          (res', fd') ← vfs (vfs_write env ctx fd (up_to_nul linebuf))
          if is_neg res' then pure res' else do close_file fd'; pure (pos 0)
    ]

  -- A truncation that fails leaves the file open.
  unfoldable pub shell_trunc : CString → Shell D ℤ
  shell_trunc arg = do
    (res, fd) ← open_path arg 420 1
    if is_neg res then pure res else do
      ctx ← ioctx
      (res', fd') ← vfs (vfs_truncate env ctx fd 0)
      if is_neg res' then pure res' else do close_file fd'; pure (pos 0)
