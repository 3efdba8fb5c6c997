-- ===== src/Shell/Loop/Reads.antt =====
-- No command of the table makes the input longer, and so no line of the shell.
use fs_playground.Base.{
  ℕ, ◌≡◌, ap, none, some, List, [], ◌∷◌, Bool-cases, Option-cases, inl, inr, CString, ℤ, bytes_eq,
  arith,
}
use mathlib.Core.Path.{subst}
use fs_playground.Vfs.State.{Ofile, Env}
use fs_playground.Shell.Console.{Shell}
use fs_playground.Shell.Console.Consumes.{Consumes, Consumes-bind, consumes}
use fs_playground.Shell.Files.Reads.{
  shell_ls-Consumes, shell_ls_detail-Consumes, shell_cat-Consumes, shell_touch-Consumes,
  shell_hello-Consumes, shell_trunc-Consumes,
}
use fs_playground.Shell.Commands.Reads.{
  shell_stat-Consumes, shell_tree-Consumes, shell_setcwd-Consumes, shell_cd-Consumes,
  shell_unlink-Consumes, shell_mkdir-Consumes, shell_chmod-Consumes, shell_chown-Consumes,
  shell_access-Consumes, shell_setuid-Consumes, shell_setgid-Consumes, shell_me-Consumes,
  shell_df-Consumes, shell_readlink-Consumes, shell_symlink-Consumes,
}
use fs_playground.Shell.Line.{Call}
use fs_playground.Shell.Loop.{ShellCmd, find_cmd, shell_cmds, dispatch, shell_line}

module _ {D : Type 0} where
  -- Every command of a table.
  AllConsume : List (ShellCmd D) → Type 0
  AllConsume [] = Unit {0}
  AllConsume (c ∷ cs) = ((arg : CString) → Consumes (c.fn arg)) × AllConsume cs

  find_cmd-AllConsume :
      (name : CString) (cs : List (ShellCmd D)) {fn : CString → Shell D ℤ}
      → AllConsume cs
      → find_cmd name cs ≡ some fn
      → (arg : CString) → Consumes (fn arg)
  unfolding find_cmd AllConsume
  find_cmd-AllConsume name [] {fn} all e arg = absurd (ground (arith, e))
  find_cmd-AllConsume name (c ∷ cs) {fn} (first, rest) e arg =
      elim (Bool-cases (bytes_eq c.name name)) [
        | inl same ↦
            let taken : some c.fn ≡ some fn = rw same at e in
            subst (λ f. Consumes (f arg)) (ap (λ o. elim o [ none ↦ fn | some f ↦ f ]) taken)
              (first arg)
        | inr differs ↦
            let later : find_cmd name cs ≡ some fn = rw differs at e in
            find_cmd-AllConsume name cs rest later arg
      ]

  module _ (env : Env D) (fuel : ℕ) (stack : Ofile) where
    shell_cmds-AllConsume : AllConsume (shell_cmds env fuel stack)
    unfolding shell_cmds AllConsume
    shell_cmds-AllConsume = (
      shell_stat-Consumes env fuel,
      (
        shell_tree-Consumes env fuel,
        (
          shell_cat-Consumes env fuel stack,
          (
            shell_ls_detail-Consumes env fuel stack,
            (
              shell_ls-Consumes env fuel stack,
              (
                shell_setcwd-Consumes env fuel,
                (
                  shell_touch-Consumes env fuel stack,
                  (
                    shell_hello-Consumes env fuel stack,
                    (
                      shell_trunc-Consumes env fuel stack,
                      (
                        shell_unlink-Consumes env fuel,
                        (
                          shell_mkdir-Consumes env fuel,
                          (
                            shell_chmod-Consumes env fuel,
                            (
                              shell_chown-Consumes env fuel,
                              (
                                shell_access-Consumes env fuel,
                                (
                                  shell_setuid-Consumes env fuel,
                                  (
                                    shell_setgid-Consumes env fuel,
                                    (
                                      shell_readlink-Consumes env fuel,
                                      (
                                        shell_symlink-Consumes env fuel,
                                        (
                                          shell_df-Consumes env fuel,
                                          (
                                            shell_me-Consumes env fuel,
                                            (shell_cd-Consumes env fuel, tt),
                                          ),
                                        ),
                                      ),
                                    ),
                                  ),
                                ),
                              ),
                            ),
                          ),
                        ),
                      ),
                    ),
                  ),
                ),
              ),
            ),
          ),
        ),
      ),
    )

    dispatch-Consumes : (call : Call) → Consumes (dispatch env fuel stack call)
    unfolding dispatch
    dispatch-Consumes call = elim (Option-cases (find_cmd call.cmd (shell_cmds env fuel stack))) [
      | inl missing ↦ rw (dispatch, missing) (search consumes)
      | inr (fn, found) ↦
          rw (dispatch, found)
            (Consumes-bind
              (find_cmd-AllConsume call.cmd (shell_cmds env fuel stack) shell_cmds-AllConsume found
                call.arg)
              (λ res. search consumes))
    ]

    pub shell_line-Consumes : (line : List ℕ) → Consumes (shell_line env fuel stack line)
    unfolding shell_line
    shell_line-Consumes line = search (consumes, dispatch-Consumes) depth 8
