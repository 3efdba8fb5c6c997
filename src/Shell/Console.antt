-- ===== src/Shell/Console.antt =====
-- What the shell acts on: the store of the VFS, `ioctx` of src/ext2sh.c, and the streams of
-- <stdio.h>. The input is a finite list of bytes with the end of the file behind it.
pub mod Consumes
use fs_playground.Base.{
  ℕ, zero, suc, ◌-◌, Option, none, some, List, [], ◌∷◌, ◌++◌, ◌==◌, if◌then◌else◌, CString,
}
use fs_playground.Command.{Run, ok, fault, out_of_fuel, Program}
use fs_playground.Vfs.State.{Ioctx, Store}
use fs_playground.Vfs.Run.{Cmd}

pub record Console (D : Type 0) : Type 0 where
  pub store : Store D
  pub ctx : Ioctx
  pub stdin : List ℕ
  pub stdout : List ℕ
  pub stderr : List ℕ

abbrev pub Shell : Type 0 → Type 0 → Type 0
Shell D A = Program (Console D) A

newline : ℕ
newline = 10

-- The bytes of a line, at most `n` of them, with its newline.
unfoldable pub line_of : ℕ → List ℕ → List ℕ
unfolding newline
line_of zero input = []
line_of (suc n) [] = []
line_of (suc n) (b ∷ bs) = let rest = line_of n bs in if b == newline then b ∷ [] else b ∷ rest

-- The input behind that line.
unfoldable pub behind_line : ℕ → List ℕ → List ℕ
unfolding newline
behind_line zero input = input
behind_line (suc n) [] = []
behind_line (suc n) (b ∷ bs) = let rest = behind_line n bs in if b == newline then bs else rest

-- The C string that a buffer starts with; a buffer of `fgets` has a zero behind its bytes.
unfoldable pub up_to_nul : List ℕ → CString
up_to_nul [] = []
up_to_nul (b ∷ bs) = let rest = up_to_nul bs in if b == 0 then [] else b ∷ rest

-- The same of a buffer that need not have a zero.
unfoldable pub c_string : List ℕ → Option CString
c_string [] = none
c_string (b ∷ bs) =
    let rest = c_string bs in
    if b == 0 then some [] else (elim rest [ none ↦ none | some s ↦ some (b ∷ s) ])

module _ {D : Type 0} where
  -- A call of an operation of the VFS.
  unfoldable pub vfs : {A : Type 0} → Cmd D A → Shell D A
  vfs m s = elim (m s.store) [
    | ok a t ↦ ok a (record s { store = t })
    | fault ↦ fault
    | out_of_fuel ↦ out_of_fuel
  ]

  unfoldable pub ioctx : Shell D Ioctx
  ioctx s = ok s.ctx s

  unfoldable pub set_ioctx : Ioctx → Shell D (Unit {0})
  set_ioctx ctx s = ok tt (record s { ctx = ctx })

  unfoldable pub print : CString → Shell D (Unit {0})
  print text s = ok tt (record s { stdout = s.stdout ++ text })

  unfoldable pub print_error : CString → Shell D (Unit {0})
  print_error text s = ok tt (record s { stderr = s.stderr ++ text })

  -- `fgets(buf, n, stdin)` gives the bytes before the zero; `none` is NULL at the end of the file.
  unfoldable pub fgets : ℕ → Shell D (Option (List ℕ))
  unfolding line_of behind_line
  fgets n s = elim s.stdin [
    | [] ↦ ok none s
    | b ∷ bs ↦
        ok (some (line_of (n - 1) (b ∷ bs))) (record s { stdin = behind_line (n - 1) (b ∷ bs) })
  ]
