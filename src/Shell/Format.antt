-- ===== src/Shell/Format.antt =====
-- How src/ext2sh.c prints an error, a size and a status: `errno_str`, `prettysz` and `dumpstat`,
-- with the mode bits of include/stat.h.
pub mod Sizes
pub mod Widths
use fs_playground.Base.{
  ℕ, zero, suc, ◌+◌, ◌-◌, ◌*◌, ◌/◌, ◌%◌, ◌^◌, Bool, Option, none, some, [], ◌∷◌, ◌++◌, ◌==◌, ltb,
  if◌then◌else◌, bit, CString, get_elem?, ℤ, code_eq, eio, enoent, einval, erofs, enotdir, eisdir,
  eexist, enospc, eacces,
}
use fs_playground.Print.{bytes, dec, int32_field}
use fs_playground.Vfs.State.{Stat}

unfoldable pub errno_str : ℤ → CString
errno_str r =
    if code_eq r eio
    then bytes "I/O error"
    else if code_eq r enoent
    then bytes "No such file or directory"
    else if code_eq r einval
    then bytes "Invalid argument"
    else if code_eq r erofs
    then bytes "Read-only filesystem"
    else if code_eq r enotdir
    then bytes "Not a directory"
    else if code_eq r eisdir
    then bytes "Is a directory"
    else if code_eq r eexist
    then bytes "File exists"
    else if code_eq r enospc
    then bytes "No space left on device"
    else if code_eq r eacces
    then bytes "Permission denied"
    else bytes "Unknown error"

-- The locals of `prettysz` that its loop changes.
pub record Scaled : Type 0 where
  pub f : ℕ
  pub r : ℕ
  pub pwr : ℕ

-- `while (f >= 1536)`; `none` if the rounds do not suffice.
unfoldable pub scale : ℕ → Scaled → Option Scaled
scale zero z = none
scale (suc rounds) z =
    let rest =
      scale rounds (record { f = z.f / 1024; r = z.f % 1024 * 10 / 1024; pwr = suc z.pwr }) in
    if ltb z.f 1536 then some z else rest

-- "KMGTPE???"
unfoldable pub sizs : CString
sizs = bytes "KMGTPE???"

-- The text of a scaled size; `none` if `sizs` is read out of bounds.
unfoldable pub scaled_text : Scaled → Option CString
unfolding sizs dec
scaled_text z = elim z.pwr [
  | zero ↦ some (dec z.f ++ bytes "B")
  | suc p ↦ elim (get_elem? sizs p) [
    | none ↦ none
    | some unit ↦ some (dec z.f ++ b'.' ∷ (b'0' + z.r) ∷ unit ∷ bytes "iB")
  ]
]

-- A 64-bit size needs seven rounds at most.
unfoldable pub prettysz : ℕ → Option CString
prettysz sz = elim (scale 7 (record { f = sz; r = 0; pwr = 0 })) [
  | none ↦ none
  | some z ↦ scaled_text z
]

-- `st_mode & S_IFMT`, less its twelve low bits.
unfoldable pub file_type : ℕ → ℕ
file_type mode = mode / 2 ^ 12 % 16

unfoldable pub is_link_mode : ℕ → Bool
unfolding file_type
is_link_mode mode = file_type mode == 10

type_char : ℕ → ℕ
unfolding file_type
type_char mode = if file_type mode == 4 then b'd' else if file_type mode == 10 then b'l' else b'-'

flag_char : ℕ → ℕ → ℕ → ℕ
unfolding bit
flag_char mode k c = if bit mode k then c else b'-'

-- The ten characters of type and permissions.
unfoldable pub mode_text : ℕ → CString
unfolding type_char flag_char
mode_text mode =
    type_char mode
    ∷ flag_char mode 8 b'r'
    ∷ flag_char mode 7 b'w'
    ∷ flag_char mode 6 b'x'
    ∷ flag_char mode 5 b'r'
    ∷ flag_char mode 4 b'w'
    ∷ flag_char mode 3 b'x'
    ∷ flag_char mode 2 b'r'
    ∷ flag_char mode 1 b'w'
    ∷ flag_char mode 0 b'x'
    ∷ []

abbrev pub spaced : CString → CString → CString
spaced a b = a ++ (b' ' ∷ b)

-- "%u" takes the low 32 bits of the size and of the number.
unfoldable pub dumpstat : Stat → CString
dumpstat st = spaced (mode_text st.st_mode) (
    spaced (int32_field 5 st.st_uid) (
      spaced (int32_field 5 st.st_gid)
        (spaced (dec (st.st_size % 2 ^ 32)) (dec (st.st_ino % 2 ^ 32)))))
