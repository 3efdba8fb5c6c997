-- ===== src/Access.antt =====
-- Permission checks of src/vfs.c: what an open asks for, and whether a mode grants it.
-- `mode` holds the nine permission bits: owner at 6 to 8, group at 3 to 5, others at 0 to 2.
pub mod Laws
use fs_playground.Base.{
  ℕ, ◌+◌, ◌%◌, not, ◌&&◌, ◌||◌, Option, none, some, ◌==◌, if◌then◌else◌, bit, ℤ, pos, eacces,
}

-- The part of `struct vfs_ioctx` that says who asks.
pub record Cred : Type 0 where
  pub uid : ℕ
  pub gid : ℕ

abbrev pub x_ok : ℕ
x_ok = 1

abbrev pub w_ok : ℕ
w_ok = 2

abbrev pub r_ok : ℕ
r_ok = 4

-- The three tests of one class of users, whose lowest bit (execute) is bit `low` of the mode.
pub class_check : ℕ → ℕ → ℕ → ℤ
unfolding bit
class_check low desm mode =
    if bit desm 2 && not (bit mode (low + 2))
    then eacces
    else if bit desm 1 && not (bit mode (low + 1))
    then eacces
    else if bit desm 0 && not (bit mode low)
    then eacces
    else pos 0

unfoldable pub access_internal : Cred → (desm mode uid gid : ℕ) → ℤ
unfolding class_check
access_internal c desm mode uid gid =
    if c.uid == 0
    then (if bit desm 0 && not (bit mode 0 || bit mode 3 || bit mode 6) then eacces else pos 0)
    else if uid == c.uid
    then class_check 6 desm mode
    else if gid == c.gid
    then class_check 3 desm mode
    else class_check 0 desm mode

-- `none` is the call of abort().
unfoldable pub open_access_mask : ℕ → Option ℕ
unfolding bit
open_access_mask oflags =
    if bit oflags 2
    then some x_ok
    else if oflags % 4 == 1
    then some w_ok
    else if oflags % 4 == 0
    then some r_ok
    else if oflags % 4 == 2
    then some 6
    else none
