-- ===== src/Shell/Commands.antt =====
-- The other commands of src/ext2sh.c: attributes, directories, users and the space that is free.
-- What a `sscanf` that fails leaves in its variable is not determined, so using it is a fault.
pub mod Reads
use fs_playground.Access.{Cred, x_ok, w_ok, r_ok}
use fs_playground.Base.{
  ℕ, zero, suc, ◌+◌, ◌-◌, ◌*◌, ◌/◌, ◌%◌, ◌^◌, Bool, true, false, not, ◌||◌, Option, none, some, [],
  ◌∷◌, ◌++◌, ◌==◌, ltb, if◌then◌else◌, bit, CString, length, get_elem?, take, ℤ, pos, negsuc,
  is_zero, is_neg,
}
use fs_playground.Command.{pure, ◌>>=◌, ◌>>◌, check, deref}
use fs_playground.Print.{bytes, int32, int64_field, pad_left}
use fs_playground.Vfs.State.{Ioctx, StatVfs, Env}
use fs_playground.Vfs.Open.{vfs_setcwd, vfs_chdir}
use fs_playground.Vfs.Attr.{vfs_stat, vfs_chmod, vfs_chown, vfs_access, vfs_statvfs, vfs_readlink}
use fs_playground.Vfs.Dir.{vfs_mkdir, vfs_symlink, vfs_unlink}
use fs_playground.Vfs.Dump.{vfs_dump_tree}
use fs_playground.Shell.Console.{Shell, vfs, ioctx, set_ioctx, print, print_error, fgets, up_to_nul}
use fs_playground.Shell.Scan.{scan_int, scan_octal}
use fs_playground.Shell.Format.{is_link_mode, dumpstat, prettysz}
use fs_playground.Shell.Files.{newline, stat_line, link_line}

-- The mode that a line of flags asks for, or the character that is no flag.
pub data AccessFlags : Type 0 where
  flags : ℕ → AccessFlags
  unknown : ℕ → AccessFlags

-- `mode | b` for a `b` that is a power of two.
abbrev with_bit : ℕ → ℕ → ℕ
with_bit mode k = if bit mode k then mode else mode + 2 ^ k

-- What one character does to the mode.
unfoldable pub access_flag : ℕ → ℕ → AccessFlags
unfolding bit
access_flag mode c =
    if c == b'r'
    then flags (with_bit mode 2)
    else if c == b'w'
    then flags (with_bit mode 1)
    else if c == b'x'
    then flags (with_bit mode 0)
    else if c == 10
    then flags mode
    else unknown c

-- The loop of `shell_access`.
unfoldable pub access_flags : ℕ → CString → AccessFlags
unfolding access_flag
access_flags mode [] = flags mode
access_flags mode (c ∷ cs) = elim (access_flag mode c) [
  | unknown c' ↦ unknown c'
  | flags mode' ↦ access_flags mode' cs
]

-- `while (l && (!buf[l] || buf[l] == '\n')) buf[l--] = 0;`
unfoldable pub chop : ℕ → CString → CString
chop zero buf = buf
chop (suc l) buf =
    let rest = chop l (take (suc l) buf) in
    elim (get_elem? buf (suc l)) [ none ↦ rest | some c ↦ if c == 0 || c == 10 then rest else buf ]

-- The two tables of `shell_df`; the third field is what prettysz makes of the sizes.
abbrev pub u64 : ℕ → ℕ
u64 n = n % 2 ^ 64

abbrev used : StatVfs → ℕ
used st = u64 (st.f_blocks + 2 ^ 64 - st.f_bfree)

percent : StatVfs → CString
percent st = int64_field 4 (u64 (used st * 100) / st.f_blocks) ++ bytes "%"

heading : CString → CString
unfolding newline
heading first =
    pad_left 12 first
    ++ (32
        ∷ (pad_left 12 (bytes "Used")
            ++ (32
                ∷ (pad_left 12 (bytes "Free") ++ (32 ∷ (pad_left 5 (bytes "Use%") ++ newline))))))

df_blocks : StatVfs → CString
unfolding heading percent newline
df_blocks st =
    heading (bytes "Blocks")
    ++ (int64_field 12 st.f_blocks
        ++ (32
            ∷ (int64_field 12 (used st)
                ++ (32
                    ∷ (int64_field 12 st.f_bfree ++ (32 ∷ (percent st ++ (newline ++ newline))))))))

module _ {D : Type 0} (env : Env D) (fuel : ℕ) where
  unfoldable pub shell_stat : CString → Shell D ℤ
  shell_stat path = do
    ctx ← ioctx
    (res, st) ← vfs (vfs_stat env fuel ctx path)
    if not (is_zero res) then pure res else do
      status ← deref st
      if not (is_link_mode status.st_mode)
          then (do print (stat_line (dumpstat status) path); pure res)
          else do
            (res', linkp) ← vfs (vfs_readlink env fuel ctx path)
            if is_neg res' then pure res' else do
              target ← deref linkp
              check (ltb (length target) 1024)
              print (link_line (dumpstat status) path target)
              pure res'

  unfoldable pub shell_tree : CString → Shell D ℤ
  shell_tree arg = do text ← vfs (vfs_dump_tree fuel); print text; pure (pos 0)

  unfoldable pub shell_setcwd : CString → Shell D ℤ
  shell_setcwd arg = do
    ctx ← ioctx
    (res, ctx') ← vfs (vfs_setcwd env fuel ctx arg)
    set_ioctx ctx'
    pure res

  unfoldable pub shell_cd : CString → Shell D ℤ
  shell_cd arg = do
    ctx ← ioctx
    (res, ctx') ← vfs (vfs_chdir env fuel ctx arg)
    set_ioctx ctx'
    pure res

  unfoldable pub shell_unlink : CString → Shell D ℤ
  shell_unlink arg = do ctx ← ioctx; vfs (vfs_unlink env fuel ctx arg)

  -- 493 is 0755.
  unfoldable pub shell_mkdir : CString → Shell D ℤ
  shell_mkdir arg = do ctx ← ioctx; vfs (vfs_mkdir env fuel ctx arg 493)

  unfoldable pub shell_chmod : CString → Shell D ℤ
  shell_chmod arg = do
    print (bytes "mode = ")
    line ← fgets 64
    elim line [
      | none ↦ pure (negsuc 0)
      | some buf ↦ do
        mode ← deref (scan_octal (up_to_nul buf))
        ctx ← ioctx
        vfs (vfs_chmod env fuel ctx arg mode)
    ]

  unfoldable pub shell_chown : CString → Shell D ℤ
  shell_chown arg = do
    print (bytes "uid = ")
    line ← fgets 64
    elim line [
      | none ↦ pure (negsuc 0)
      | some buf ↦ do
        print (bytes "gid = ")
        line' ← fgets 64
        elim line' [
          | none ↦ pure (negsuc 0)
          | some buf' ↦ do
            uid ← deref (scan_int (up_to_nul buf))
            gid ← deref (scan_int (up_to_nul buf'))
            ctx ← ioctx
            vfs (vfs_chown env fuel ctx arg uid gid)
        ]
    ]

  unfoldable pub shell_access : CString → Shell D ℤ
  shell_access arg = do
    print (bytes "rwx = ")
    line ← fgets 64
    elim line [
      | none ↦ pure (negsuc 0)
      | some buf ↦ elim (access_flags 0 (up_to_nul buf)) [
        | unknown c ↦ do
          print_error (bytes "Unknown access flag: " ++ (c ∷ newline))
          pure (negsuc 0)
        | flags mode ↦ do ctx ← ioctx; vfs (vfs_access env fuel ctx arg mode)
      ]
    ]

  unfoldable pub shell_setuid : CString → Shell D ℤ
  shell_setuid arg = do
    uid ← deref (scan_int arg)
    ctx ← ioctx
    set_ioctx (record ctx { cred = record { uid = uid; gid = ctx.cred.gid } })
    pure (pos 0)

  unfoldable pub shell_setgid : CString → Shell D ℤ
  shell_setgid arg = do
    gid ← deref (scan_int arg)
    ctx ← ioctx
    set_ioctx (record ctx { cred = record { uid = ctx.cred.uid; gid = gid } })
    pure (pos 0)

  unfoldable pub shell_me : CString → Shell D ℤ
  shell_me arg = do
    ctx ← ioctx
    print (
        bytes "me: uid = "
        ++ (int32 ctx.cred.uid ++ (bytes ", gid = " ++ (int32 ctx.cred.gid ++ newline))))
    pure (pos 0)

  unfoldable pub shell_df : CString → Shell D ℤ
  unfolding df_blocks heading percent
  shell_df arg = do
    ctx ← ioctx
    (res, filled) ← vfs (vfs_statvfs env fuel ctx arg)
    if is_neg res then pure res else do
      st ← deref filled
      check (not (st.f_blocks == 0))
      print (df_blocks st)
      print (heading (bytes "Total"))
      total ← deref (prettysz (u64 (st.f_blocks * st.f_bsize)))
      in_use ← deref (prettysz (u64 (used st * st.f_bsize)))
      free ← deref (prettysz (u64 (st.f_bfree * st.f_bsize)))
      print (pad_left 12 total ++ (32 ∷ []))
      print (pad_left 12 in_use ++ (32 ∷ []))
      print (pad_left 12 free ++ (32 ∷ (percent st ++ newline)))
      pure (pos 0)

  unfoldable pub shell_readlink : CString → Shell D ℤ
  shell_readlink arg = do
    ctx ← ioctx
    (res, buf) ← vfs (vfs_readlink env fuel ctx arg)
    if is_neg res then pure res else do
      target ← deref buf
      check (ltb (length target) 1024)
      print (target ++ newline)
      pure (pos 0)

  unfoldable pub shell_symlink : CString → Shell D ℤ
  shell_symlink arg = do
    print (bytes "dst = ")
    line ← fgets 1024
    elim line [
      | none ↦ pure (negsuc 0)
      | some bytes' ↦ do
        let buf = up_to_nul bytes'
        ctx ← ioctx
        vfs (vfs_symlink env fuel ctx (chop (length buf) buf) arg)
    ]
