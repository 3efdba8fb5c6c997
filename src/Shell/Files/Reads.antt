-- ===== src/Shell/Files/Reads.antt =====
-- The commands that open files do not make the input longer.
use fs_playground.Base.{ℕ, zero, suc, CString, ℤ, pos, negsuc}
use fs_playground.Print.{bytes}
use fs_playground.Vfs.File.{vfs_read}
use fs_playground.Vfs.State.{Ptr, Ofile, Env}
use fs_playground.Shell.Console.{Shell}
use fs_playground.Shell.Console.Consumes.{
  Consumes, Consumes-bind, Consumes-option, Consumes-ioctx, Consumes-vfs, Consumes-print,
  Consumes-fgets, consumes,
}
use fs_playground.Shell.Files.{
  open_path, close_file, next_entry, list_names, shell_ls, show_entry, list_entries,
  shell_ls_detail, copy_out, shell_cat, shell_touch, shell_hello, shell_trunc,
}

pub Consumes-sign :
    {D A : Type 0} (r : ℤ) {m n : Shell D A} {k : ℕ → Shell D A}
    → Consumes m
    → Consumes n
    → ((i : ℕ) → Consumes (k i))
    → Consumes (elim r [ negsuc _ ↦ m | pos zero ↦ n | pos (suc i) ↦ k i ])
Consumes-sign (negsuc i) p q f = p
Consumes-sign (pos zero) p q f = q
Consumes-sign (pos (suc i)) p q f = f i

module _ {D : Type 0} (env : Env D) (fuel : ℕ) (stack : Ofile) where
  open_path-Consumes :
      (arg : CString) (mode opt : ℕ) → Consumes (open_path env fuel stack arg mode opt)
  unfolding open_path
  open_path-Consumes arg mode opt = search consumes

  close_file-Consumes : (fd : Ofile) → Consumes (close_file env fuel stack fd)
  unfolding close_file
  close_file-Consumes fd = search consumes

  next_entry-Consumes : (fd : Ofile) → Consumes (next_entry env fuel stack fd)
  unfolding next_entry
  next_entry-Consumes fd = search consumes

  list_names-Consumes : (rounds : ℕ) (fd : Ofile) → Consumes (list_names env fuel stack rounds fd)
  unfolding list_names
  list_names-Consumes zero fd = search consumes
  list_names-Consumes (suc rounds) fd = Consumes-bind (next_entry-Consumes fd) (λ x.
      Consumes-option x.0 (search consumes)
        (λ ent. search (consumes, list_names-Consumes rounds) depth 12))

  pub shell_ls-Consumes : (arg : CString) → Consumes (shell_ls env fuel stack arg)
  unfolding shell_ls
  shell_ls-Consumes arg =
      search (consumes, open_path-Consumes, close_file-Consumes, list_names-Consumes) depth 12

  show_entry-Consumes : (at : Ptr) (name : CString) → Consumes (show_entry env fuel stack at name)
  unfolding show_entry
  show_entry-Consumes at name = search consumes depth 16

  list_entries-Consumes :
      (rounds : ℕ) (fd : Ofile) → Consumes (list_entries env fuel stack rounds fd)
  unfolding list_entries
  list_entries-Consumes zero fd = search consumes
  list_entries-Consumes (suc rounds) fd = Consumes-bind (next_entry-Consumes fd) (λ x.
      Consumes-option x.0 (search (consumes, close_file-Consumes))
        (λ ent. search (consumes, show_entry-Consumes, list_entries-Consumes rounds) depth 12))

  pub shell_ls_detail-Consumes : (arg : CString) → Consumes (shell_ls_detail env fuel stack arg)
  unfolding shell_ls_detail
  shell_ls_detail-Consumes arg =
      search (consumes, open_path-Consumes, list_entries-Consumes) depth 12

  copy_out-Consumes :
      (rounds : ℕ) (fd : Ofile) (bread : ℕ) → Consumes (copy_out env fuel stack rounds fd bread)
  unfolding copy_out
  copy_out-Consumes zero fd bread = search consumes
  copy_out-Consumes (suc rounds) fd bread = Consumes-bind Consumes-ioctx (λ ctx.
      Consumes-bind (Consumes-vfs (vfs_read env ctx fd 512)) (λ x.
        Consumes-sign x.0 (search consumes) (search consumes)
          (λ n. search (consumes, copy_out-Consumes rounds) depth 12)))

  pub shell_cat-Consumes : (arg : CString) → Consumes (shell_cat env fuel stack arg)
  unfolding shell_cat
  shell_cat-Consumes arg =
      search (consumes, open_path-Consumes, close_file-Consumes, copy_out-Consumes) depth 12

  pub shell_touch-Consumes : (arg : CString) → Consumes (shell_touch env fuel stack arg)
  unfolding shell_touch
  shell_touch-Consumes arg = search (consumes, close_file-Consumes) depth 12

  pub shell_hello-Consumes : (arg : CString) → Consumes (shell_hello env fuel stack arg)
  unfolding shell_hello
  shell_hello-Consumes arg = Consumes-bind (Consumes-print (bytes "= ")) (λ _.
      Consumes-bind (Consumes-fgets 512) (λ o.
        Consumes-option o (search consumes)
          (λ buf. search (consumes, open_path-Consumes, close_file-Consumes) depth 12)))

  pub shell_trunc-Consumes : (arg : CString) → Consumes (shell_trunc env fuel stack arg)
  unfolding shell_trunc
  shell_trunc-Consumes arg = search (consumes, open_path-Consumes, close_file-Consumes) depth 12
