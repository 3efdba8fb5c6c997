-- ===== src/Tests/Paths.antt =====
-- Runs of the path helpers of src/vfs.c.
use fs_playground.Base.{◌≡◌, refl, [], ◌∷◌, ◌++◌, false, CString, some}
use fs_playground.PathName.{slash, path_element, path_parent, path_basename}
use fs_playground.PathName.Laws.{
  has_slash, IsFirst, path_element-IsFirst, parent-basename, parent-basename_plain,
}

abbrev two_slashes : CString
two_slashes = b'a' ∷ b'/' ∷ b'/' ∷ b'b' ∷ []

abbrev name : CString
name = b'b' ∷ []

path_element-IsFirst_example :
    IsFirst two_slashes (path_element two_slashes).0 (path_element two_slashes).1
path_element-IsFirst_example = path_element-IsFirst two_slashes

two_slashes-rest : (path_element two_slashes).1 ≡ some name
unfolding path_element
two_slashes-rest = refl

parent-basename_example :
    (path_parent two_slashes ++ (slash ∷ path_basename two_slashes) ≡ two_slashes)
    × (has_slash (path_basename two_slashes) ≡ false)
parent-basename_example = parent-basename two_slashes refl

parent-basename_plain_example : (path_parent name ≡ []) × (path_basename name ≡ name)
parent-basename_plain_example = parent-basename_plain name refl
