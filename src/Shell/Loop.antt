-- ===== src/Shell/Loop.antt =====
-- The table of commands, `shell` and `main` of src/ext2sh.c.
pub mod Reads
pub mod Turns
use fs_playground.Base.{
  ℕ, zero, suc, not, Option, none, some, List, [], ◌∷◌, ◌++◌, ◌==◌, if◌then◌else◌, CString,
  bytes_eq, length, ℤ, pos, negsuc, is_zero,
}
use fs_playground.Access.{Cred}
use fs_playground.Command.{ok, fault, pure, ◌>>=◌, ◌>>◌, deref, stop, out_of_fuel}
use fs_playground.FsClass.{fs_class_register}
use fs_playground.Print.{bytes}
use fs_playground.Vfs.State.{Ofile, Ioctx, Store, Env}
use fs_playground.Vfs.Run.{Cmd}
use fs_playground.Vfs.Mount.{vfs_init, vfs_mount, vfs_umount}
use fs_playground.Shell.Console.{
  Console, Shell, vfs, ioctx, set_ioctx, print, print_error, fgets, up_to_nul,
}
use fs_playground.Shell.Format.{errno_str}
use fs_playground.Shell.Files.{
  newline, shell_ls, shell_ls_detail, shell_cat, shell_touch, shell_hello, shell_trunc,
}
use fs_playground.Shell.Commands.{
  shell_stat, shell_tree, shell_setcwd, shell_cd, shell_unlink, shell_mkdir, shell_chmod,
  shell_chown, shell_access, shell_setuid, shell_setgid, shell_me, shell_df, shell_readlink,
  shell_symlink,
}
use fs_playground.Shell.Line.{Call, parse_line}

-- An entry of `shell_cmds`.
pub record ShellCmd (D : Type 0) : Type 0 where
  pub name : CString
  pub fn : CString → Shell D ℤ

abbrev cmd : {D : Type 0} → CString → (CString → Shell D ℤ) → ShellCmd D
cmd name fn = record { name = name; fn = fn }

-- The scan of the table.
unfoldable pub find_cmd : {D : Type 0} → CString → List (ShellCmd D) → Option (CString → Shell D ℤ)
find_cmd name [] = none
find_cmd name (c ∷ cs) =
    let rest = find_cmd name cs in if bytes_eq c.name name then some c.fn else rest

module _ {D : Type 0} (env : Env D) (fuel : ℕ) (stack : Ofile) where
  unfoldable pub shell_cmds : List (ShellCmd D)
  shell_cmds =
      cmd (bytes "stat") (shell_stat env fuel)
      ∷ cmd (bytes "tree") (shell_tree env fuel)
      ∷ cmd (bytes "cat") (shell_cat env fuel stack)
      ∷ cmd (bytes "ll") (shell_ls_detail env fuel stack)
      ∷ cmd (bytes "ls") (shell_ls env fuel stack)
      ∷ cmd (bytes "setcwd") (shell_setcwd env fuel)
      ∷ cmd (bytes "touch") (shell_touch env fuel stack)
      ∷ cmd (bytes "hello") (shell_hello env fuel stack)
      ∷ cmd (bytes "trunc") (shell_trunc env fuel stack)
      ∷ cmd (bytes "unlink") (shell_unlink env fuel)
      ∷ cmd (bytes "mkdir") (shell_mkdir env fuel)
      ∷ cmd (bytes "chmod") (shell_chmod env fuel)
      ∷ cmd (bytes "chown") (shell_chown env fuel)
      ∷ cmd (bytes "access") (shell_access env fuel)
      ∷ cmd (bytes "setuid") (shell_setuid env fuel)
      ∷ cmd (bytes "setgid") (shell_setgid env fuel)
      ∷ cmd (bytes "readlink") (shell_readlink env fuel)
      ∷ cmd (bytes "symlink") (shell_symlink env fuel)
      ∷ cmd (bytes "df") (shell_df env fuel)
      ∷ cmd (bytes "me") (shell_me env fuel)
      ∷ cmd (bytes "cd") (shell_cd env fuel)
      ∷ []

  -- A call of the command that a line names, and the report of its error.
  unfoldable pub dispatch : Call → Shell D (Unit {0})
  dispatch call = elim (find_cmd call.cmd shell_cmds) [
    | none ↦ print_error (bytes "Command not found: " ++ (call.cmd ++ newline))
    | some fn ↦ do
      res ← fn call.arg
      if is_zero res
          then pure tt
          else print_error (call.line ++ (bytes ": " ++ (errno_str res ++ newline)))
  ]

  -- A round of the loop, behind `fgets`.
  unfoldable pub shell_line : List ℕ → Shell D (Unit {0})
  shell_line line =
      if length (up_to_nul line) == 0
      then pure tt
      else do call ← deref (parse_line (up_to_nul line)); dispatch call

  unfoldable pub shell : ℕ → Shell D (Unit {0})
  shell zero s = out_of_fuel
  shell (suc rounds) s =
      (do
        print (bytes "> ")
        line ← fgets 256
        elim line [ none ↦ pure tt | some linebuf ↦ do shell_line linebuf; shell rounds ])
        s

-- `ext2_class` is the class's number in `env.classes`. `readable` is `access` of <unistd.h>: the
-- text of its error, or `none`. `open_image` is `testblk_init`, which aborts on `none`, and
-- `close_image` the `destroy` of the device.
module _ {D : Type 0} (env : Env D) (fuel : ℕ) (stack : Ofile) (ext2_class : ℕ)
    (readable : CString → Option CString) (open_image : CString → D → Option D)
    (close_image : D → D) where
  -- `ext2_class_init`, which does not look at the result.
  unfoldable pub ext2_class_init : Cmd D (Unit {0})
  ext2_class_init s =
      ok tt
        (record s { fses = (fs_class_register (λ c. (env.classes c).name) ext2_class s.fses).0 })

  on_image : (D → Option D) → Cmd D (Unit {0})
  on_image f s = elim (f s.driver) [ none ↦ fault | some d ↦ ok tt (record s { driver = d }) ]

  become : ℕ → Shell D (Unit {0})
  become id = do ctx ← ioctx; set_ioctx (record ctx { cred = record { uid = id; gid = id } })

  -- `main` behind its checks of the arguments. `testblk_dev` is device 0, and the options are NULL.
  unfoldable pub session : CString → ℕ → Shell D ℤ
  unfolding on_image become
  session image rounds = do
    set_ioctx (record { cwd_vnode = none; cred = record { uid = 0; gid = 0 } })
    vfs vfs_init
    vfs ext2_class_init
    vfs (on_image (open_image image))
    ctx ← ioctx
    res ← vfs (vfs_mount env fuel ctx (bytes "/") (some 0) (bytes "ext2") [])
    if not (is_zero res)
        then (do print_error (bytes "Failed to mount rootfs" ++ newline); pure (negsuc 0))
        else do
          become 1000
          shell env fuel stack rounds
          become 0
          root ← ioctx
          (res', root') ← vfs (vfs_umount env fuel root (bytes "/"))
          set_ioctx root'
          if not (is_zero res')
              then (do
                print_error (bytes "Failed to umount /: " ++ (errno_str res' ++ newline))
                pure (negsuc 0))
              else do vfs (on_image (λ d. some (close_image d))); pure (pos 0)

  unfoldable pub main : List CString → ℕ → Shell D ℤ
  main [] rounds = stop
  main (name ∷ []) rounds = do
    print_error (bytes "Usage: " ++ (name ++ (bytes " <image-file>" ++ newline)))
    pure (negsuc 0)
  main (name ∷ image ∷ []) rounds = elim (readable image) [
    | none ↦ session image rounds
    | some reason ↦ do print_error (image ++ (bytes ": " ++ (reason ++ newline))); pure (negsuc 0)
  ]
  main (name ∷ image ∷ more ∷ args) rounds = do
    print_error (bytes "Usage: " ++ (name ++ (bytes " <image-file>" ++ newline)))
    pure (negsuc 0)
