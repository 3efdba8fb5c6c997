-- ===== src/Shell/Line.antt =====
-- How `shell` of src/ext2sh.c takes a line apart: it cuts white space off the end, and splits the
-- rest at the first blank. `none` is an access outside a buffer.
pub mod Trim
pub mod Words
use fs_playground.Base.{
  ℕ, zero, suc, Option, none, some, [], ◌∷◌, ◌==◌, ltb, if◌then◌else◌, CString, length, get_or,
  take,
}
use fs_playground.Shell.Scan.{is_space}

-- `while (isspace(linebuf[i])) { linebuf[i] = 0; --i; }` for the `i` one below the first argument.
-- At zero, `i` has gone below the start of the buffer.
unfoldable pub trim_spaces : ℕ → CString → Option CString
unfolding is_space
trim_spaces zero line = none
trim_spaces (suc i) line =
    let rest = trim_spaces i (take i line) in if is_space (get_or line i 0) then rest else some line

abbrev pub blank : ℕ
blank = 32

-- `strchr(line, ' ') - line` bytes of a line, and `strchr(line, ' ') + 1`.
unfoldable pub until_blank : CString → CString
until_blank [] = []
until_blank (c ∷ cs) = let rest = until_blank cs in if c == blank then [] else c ∷ rest

unfoldable pub behind_blank : CString → Option CString
behind_blank [] = none
behind_blank (c ∷ cs) = let rest = behind_blank cs in if c == blank then some cs else rest

pub record Call : Type 0 where
  pub line : CString
  pub cmd : CString
  pub arg : CString

-- The name is copied to `namebuf`, which has 64 bytes.
unfoldable pub split_line : CString → Option Call
split_line line = elim (behind_blank line) [
  | none ↦ some (record { line = line; cmd = line; arg = [] })
  | some arg ↦
      if ltb (length (until_blank line)) 64
      then some (record { line = line; cmd = until_blank line; arg = arg })
      else none
]

-- A line that is not empty.
unfoldable pub parse_line : CString → Option Call
parse_line buf = elim (trim_spaces (length buf) buf) [ none ↦ none | some line ↦ split_line line ]
