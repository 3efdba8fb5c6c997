-- ===== src/Shell/Commands/Reads.antt =====
-- The other commands do not make the input longer.
use fs_playground.Base.{ℕ, CString, List, ℤ, negsuc, none, some}
use fs_playground.Command.{pure, ◌>>=◌, ◌>>◌}
use fs_playground.Print.{bytes}
use fs_playground.Vfs.State.{Env}
use fs_playground.Shell.Console.{Shell, print, fgets, up_to_nul}
use fs_playground.Shell.Console.Consumes.{
  Consumes, Consumes-bind, Consumes-option, Consumes-print, Consumes-fgets, Consumes-pure, consumes,
}
use fs_playground.Shell.Commands.{
  AccessFlags, flags, unknown, access_flags, shell_stat, shell_tree, shell_setcwd, shell_cd,
  shell_unlink, shell_mkdir, shell_chmod, shell_chown, shell_access, shell_setuid, shell_setgid,
  shell_me, shell_df, shell_readlink, shell_symlink,
}

-- A question and its answer.
Consumes-prompt :
    {D : Type 0} (n : ℕ) (text : CString) {k : List ℕ → Shell D ℤ}
    → ((buf : List ℕ) → Consumes (k buf))
    → Consumes {D = D} {A = ℤ}
        (do print text; line ← fgets n; elim line [ none ↦ pure (negsuc 0) | some buf ↦ k buf ])
Consumes-prompt n text f =
    Consumes-bind (Consumes-print text)
      (λ _. Consumes-bind (Consumes-fgets n) (λ o. Consumes-option o (Consumes-pure (negsuc 0)) f))

Consumes-flags :
    {D : Type 0} (r : AccessFlags) {m : ℕ → Shell D ℤ} {k : ℕ → Shell D ℤ}
    → ((c : ℕ) → Consumes (m c))
    → ((mode : ℕ) → Consumes (k mode))
    → Consumes {D = D} {A = ℤ} (elim r [ unknown c ↦ m c | flags mode ↦ k mode ])
Consumes-flags (unknown c) p q = p c
Consumes-flags (flags mode) p q = q mode

module _ {D : Type 0} (env : Env D) (fuel : ℕ) where
  pub shell_stat-Consumes : (arg : CString) → Consumes (shell_stat env fuel arg)
  unfolding shell_stat
  shell_stat-Consumes arg = search consumes depth 16

  pub shell_tree-Consumes : (arg : CString) → Consumes (shell_tree env fuel arg)
  unfolding shell_tree
  shell_tree-Consumes arg = search consumes depth 16

  pub shell_setcwd-Consumes : (arg : CString) → Consumes (shell_setcwd env fuel arg)
  unfolding shell_setcwd
  shell_setcwd-Consumes arg = search consumes depth 16

  pub shell_cd-Consumes : (arg : CString) → Consumes (shell_cd env fuel arg)
  unfolding shell_cd
  shell_cd-Consumes arg = search consumes depth 16

  pub shell_unlink-Consumes : (arg : CString) → Consumes (shell_unlink env fuel arg)
  unfolding shell_unlink
  shell_unlink-Consumes arg = search consumes depth 16

  pub shell_mkdir-Consumes : (arg : CString) → Consumes (shell_mkdir env fuel arg)
  unfolding shell_mkdir
  shell_mkdir-Consumes arg = search consumes depth 16

  pub shell_setuid-Consumes : (arg : CString) → Consumes (shell_setuid env fuel arg)
  unfolding shell_setuid
  shell_setuid-Consumes arg = search consumes depth 16

  pub shell_setgid-Consumes : (arg : CString) → Consumes (shell_setgid env fuel arg)
  unfolding shell_setgid
  shell_setgid-Consumes arg = search consumes depth 16

  pub shell_me-Consumes : (arg : CString) → Consumes (shell_me env fuel arg)
  unfolding shell_me
  shell_me-Consumes arg = search consumes depth 16

  pub shell_df-Consumes : (arg : CString) → Consumes (shell_df env fuel arg)
  unfolding shell_df
  shell_df-Consumes arg = search consumes depth 16

  pub shell_readlink-Consumes : (arg : CString) → Consumes (shell_readlink env fuel arg)
  unfolding shell_readlink
  shell_readlink-Consumes arg = search consumes depth 16

  pub shell_chmod-Consumes : (arg : CString) → Consumes (shell_chmod env fuel arg)
  unfolding shell_chmod
  shell_chmod-Consumes arg = Consumes-prompt 64 (bytes "mode = ") (λ buf. search consumes depth 12)

  pub shell_symlink-Consumes : (arg : CString) → Consumes (shell_symlink env fuel arg)
  unfolding shell_symlink
  shell_symlink-Consumes arg =
      Consumes-prompt 1024 (bytes "dst = ") (λ buf. search consumes depth 12)

  pub shell_chown-Consumes : (arg : CString) → Consumes (shell_chown env fuel arg)
  unfolding shell_chown
  shell_chown-Consumes arg =
      Consumes-prompt 64 (bytes "uid = ")
        (λ buf. Consumes-prompt 64 (bytes "gid = ") (λ buf'. search consumes depth 12))

  pub shell_access-Consumes : (arg : CString) → Consumes (shell_access env fuel arg)
  unfolding shell_access
  shell_access-Consumes arg = Consumes-prompt 64 (bytes "rwx = ") (λ buf.
      Consumes-flags (access_flags 0 (up_to_nul buf)) (λ c. search consumes depth 12)
        (λ mode. search consumes depth 12))
