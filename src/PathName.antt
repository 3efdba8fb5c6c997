-- ===== src/PathName.antt =====
-- The path helpers of src/vfs.c, over C strings as byte lists. `none` is a NULL result.
pub mod Laws
use fs_playground.Base.{
  ℕ, zero, suc, ◌+◌, Bool, true, false, Option, none, some, List, [], ◌∷◌, ◌==◌, if◌then◌else◌,
  CString, take, drop, length,
}

abbrev pub slash : ℕ
slash = b'/'

-- `strchr(s, '/') - s` bytes of `s`, and `strchr(s, '/')`.
pub until_slash : CString → CString
until_slash [] = []
until_slash (c ∷ cs) = let rest = until_slash cs in if c == slash then [] else c ∷ rest

pub from_slash : CString → Option CString
from_slash [] = none
from_slash (c ∷ cs) = let rest = from_slash cs in if c == slash then some (c ∷ cs) else rest

-- `while (*sep == '/') ++sep;`
pub skip_slashes : CString → CString
skip_slashes [] = []
skip_slashes (c ∷ cs) = let rest = skip_slashes cs in if c == slash then rest else c ∷ cs

-- NULL at the end of the string.
pub or_null : CString → Option CString
or_null [] = none
or_null (c ∷ cs) = some (c ∷ cs)

-- The two branches of `vfs_path_element`, on what `strchr` returned.
element_at : CString → Option CString → CString × Option CString
element_at src none = (src, none)
element_at src (some sep) = (until_slash src, or_null (skip_slashes sep))

-- The first element of a path, and the path behind it.
unfoldable pub path_element : CString → CString × Option CString
unfolding until_slash from_slash skip_slashes or_null element_at
path_element src = element_at src (from_slash src)

-- The offset of the last slash, `strrchr(s, '/') - s`.
pub last_slash : CString → Option ℕ
last_slash [] = none
last_slash (c ∷ cs) = elim (last_slash cs) [
  | some i ↦ some (suc i)
  | none ↦ if c == slash then some 0 else none
]

parent_at : CString → Option ℕ → CString
parent_at path none = []
parent_at path (some i) = take i path

unfoldable pub path_parent : CString → CString
unfolding last_slash parent_at
path_parent path = parent_at path (last_slash path)

basename_at : CString → Option ℕ → CString
basename_at path none = path
basename_at path (some i) = drop (suc i) path

unfoldable pub path_basename : CString → CString
unfolding last_slash basename_at
path_basename path = basename_at path (last_slash path)
