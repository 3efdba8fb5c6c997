-- ===== src/Tests/Shell.antt =====
-- Runs of the shell of src/ext2sh.c over the small driver.
use Prim.Native.String.{String}
use fs_playground.Base.{ℕ, ◌↔◌, ◌≡◌, refl, none, some, [], ◌∷◌, ◌++◌, CString, arith}
use fs_playground.Command.{Run, ok, fault, out_of_fuel, deref}
use fs_playground.Print.{bytes, dec, int32}
use fs_playground.Tests.Driver.{test_env, test_store, test_ctx, closed_file}
use fs_playground.Shell.Console.{
  Console, line_of, behind_line, up_to_nul, ioctx, set_ioctx, print, fgets,
}
use fs_playground.Shell.Scan.{skip_spaces, scan_int}
use fs_playground.Shell.Format.{scale, sizs, scaled_text, prettysz}
use fs_playground.Shell.Format.Sizes.{SizeText, prettysz_lem}
use fs_playground.Shell.Line.{trim_spaces, until_blank, behind_blank, split_line, parse_line}
use fs_playground.Shell.Line.Words.{Typed, parse_line_iff}
use fs_playground.Shell.Files.{newline}
use fs_playground.Shell.Commands.{shell_setuid, shell_me}
use fs_playground.Shell.Loop.{find_cmd, shell_cmds, dispatch, shell_line, shell}
use fs_playground.Shell.Loop.Turns.{Session, shell-Session}

abbrev typed : String → CString
typed text = bytes text ++ (10 ∷ [])

abbrev console : CString → Console ℕ
console input = record {
  store = test_store;
  ctx = test_ctx;
  stdin = input;
  stdout = [];
  stderr = [];
}

stdout_of : Run (Console ℕ) (Unit {0}) → CString
stdout_of (ok _ s) = s.stdout
stdout_of fault = []
stdout_of out_of_fuel = []

size-run : prettysz 1572864 ≡ some (bytes "1.5MiB")
unfolding prettysz scale sizs scaled_text dec
size-run = refl

prettysz_lem_example : (text : CString) × (prettysz 1572864 ≡ some text) × SizeText 1572864 text
prettysz_lem_example = prettysz_lem 1572864 (omega arith)

parse_line_iff_example :
    (parse_line (typed "cd /home")
      ≡ some (record { line = bytes "cd /home"; cmd = bytes "cd"; arg = bytes "/home" }))
    ↔ Typed
        (typed "cd /home")
        (some (record { line = bytes "cd /home"; cmd = bytes "cd"; arg = bytes "/home" }))
parse_line_iff_example =
    parse_line_iff (typed "cd /home")
      (some (record { line = bytes "cd /home"; cmd = bytes "cd"; arg = bytes "/home" }))

line-run :
    parse_line (typed "cd /home ")
    ≡ some (record { line = bytes "cd /home"; cmd = bytes "cd"; arg = bytes "/home" })
unfolding parse_line trim_spaces split_line until_blank behind_blank
line-run = refl

blank_line-run : parse_line (typed "  ") ≡ none
unfolding parse_line trim_spaces split_line until_blank behind_blank
blank_line-run = refl

shell-Session_example :
    Session test_env 3 closed_file
      (console (typed "me"))
      (shell test_env 3 closed_file 4 (console (typed "me")))
shell-Session_example = shell-Session test_env 3 closed_file 4 (console (typed "me")) (omega arith)

-- A user becomes another one by asking.
shell-run :
    stdout_of (shell test_env 3 closed_file 20 (console (typed "setuid 0" ++ typed "me")))
    ≡ bytes "> > me: uid = 0, gid = 7" ++ (10 ∷ bytes "> ")
unfolding stdout_of shell shell_line dispatch find_cmd shell_cmds shell_setuid shell_me print fgets
    line_of behind_line up_to_nul parse_line trim_spaces split_line until_blank behind_blank ioctx
    set_ioctx deref scan_int skip_spaces int32 newline
shell-run = refl
