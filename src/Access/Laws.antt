-- ===== src/Access/Laws.antt =====
-- What the permission checks of src/vfs.c decide.
use Prim.Native.Nat.{bit_and}
use fs_playground.Base.{
  ℕ, ◌+◌, ◌*◌, ◌/◌, ◌%◌, ◌^◌, ◌<◌, ◌≡◌, ◌↔◌, refl, Bool, true, false, not, ◌&&◌, ◌||◌, none, some,
  arith, ◌==◌, if◌then◌else◌, bit, ℤ, is_neg, pos, eacces, code_eq, eq_of_code_eq, holds_until,
  holds_until_lem,
}
use fs_playground.Access.{Cred, class_check, access_internal, open_access_mask}

-- The three permission bits of one class, as a number below 8.
abbrev pub triad : ℕ → ℕ → ℕ
triad mode low = mode / 2 ^ low % 8

-- The rights that a user has on a file. The superuser reads and writes everything, and executes
-- what any class may execute. The owner has the owner's bits, also where they are fewer.
pub rights : Cred → (mode uid gid : ℕ) → ℕ
rights c mode uid gid =
    if c.uid == 0
    then (if triad mode 0 % 2 + triad mode 3 % 2 + triad mode 6 % 2 == 0 then 6 else 7)
    else if uid == c.uid
    then triad mode 6
    else if gid == c.gid
    then triad mode 3
    else triad mode 0

-- All rights asked for are among those held.
abbrev pub covers : (held asked : ℕ) → ℤ
covers held asked = if bit_and asked held == asked then pos 0 else eacces

class_check_table :
    holds_until (λ x. code_eq (class_check 0 (x / 8) (x % 8)) (covers (x % 8) (x / 8))) 64 ≡ true
unfolding holds_until class_check
class_check_table = refl

class_check-covers : (d t : ℕ) → d < 8 → t < 8 → class_check 0 d t ≡ covers t d
class_check-covers d t hd ht =
    let e : (d * 8 + t) / 8 ≡ d = omega arith in
    let e' : (d * 8 + t) % 8 ≡ t = omega arith in
    let h = holds_until_lem _ 64 class_check_table (d * 8 + t) (omega arith) in
    eq_of_code_eq _ _ (rw (e, e') at h)

class_check-triad :
    (desm mode : ℕ)
    → (class_check 0 desm mode ≡ class_check 0 desm (triad mode 0))
      × (class_check 3 desm mode ≡ class_check 0 desm (triad mode 3))
      × (class_check 6 desm mode ≡ class_check 0 desm (triad mode 6))
unfolding class_check bit
class_check-triad desm mode = (ground arith, ground arith, ground arith)

root_table :
    (b : Bool)
    → holds_until
        (λ d. code_eq (if bit d 0 && not b then eacces else pos 0) (covers (if b then 7 else 6) d))
        8
      ≡ true
unfolding holds_until bit
root_table true = refl
root_table false = refl

any_execute :
    (mode : ℕ)
    → (triad mode 0 % 2 + triad mode 3 % 2 + triad mode 6 % 2 == 0)
      ≡ not (bit mode 0 || bit mode 3 || bit mode 6)
unfolding bit
any_execute mode = ground arith

-- The superuser's check is that of a user who holds 6 or 7.
root_check :
    (desm mode : ℕ)
    → desm < 8
    → (if bit desm 0 && not (bit mode 0 || bit mode 3 || bit mode 6) then eacces else pos 0)
      ≡ covers (if triad mode 0 % 2 + triad mode 3 % 2 + triad mode 6 % 2 == 0 then 6 else 7) desm
root_check desm mode h =
    let b = bit mode 0 || bit mode 3 || bit mode 6 in
    let t =
      eq_of_code_eq (if bit desm 0 && not b then eacces else pos 0)
        (covers (if b then 7 else 6) desm) (holds_until_lem _ 8 (root_table b) desm h) in
    rw (any_execute mode) (ground (arith, t))

-- For the masks below 8, vfs_access_internal returns 0 if all that is asked for is among the rights
-- of the user, and -EACCES otherwise, where the rights are the bits of the owner, else of the
-- group, else of the others, and the superuser's are read and write, and execute if any class has
-- it.
pub access_internal-rights :
    (c : Cred) (desm mode uid gid : ℕ)
    → desm < 8
    → access_internal c desm mode uid gid ≡ covers (rights c mode uid gid) desm
unfolding access_internal rights
access_internal-rights c desm mode uid gid h = ground (
  arith,
  class_check-triad desm mode,
  class_check-covers desm (triad mode 0),
  class_check-covers desm (triad mode 3),
  class_check-covers desm (triad mode 6),
  root_check desm mode h,
)

-- Vfs_open_access_mask aborts exactly at access mode 3 without O_EXEC; otherwise its mask asks for
-- execute exactly under O_EXEC, for write exactly without O_EXEC and unless the mode is read-only,
-- and for read exactly without O_EXEC and unless the mode is write-only.
pub open_access_mask-cases :
    (oflags : ℕ)
    → ((open_access_mask oflags ≡ none) ↔ ((bit oflags 2 ≡ false) × (oflags % 4 ≡ 3)))
      × ((mask : ℕ)
          → open_access_mask oflags ≡ some mask
          → (bit mask 0 ≡ bit oflags 2)
            × (bit mask 1 ≡ not (bit oflags 2) && not (oflags % 4 == 0))
            × (bit mask 2 ≡ not (bit oflags 2) && not (oflags % 4 == 1)))
unfolding open_access_mask bit
open_access_mask-cases oflags = (ground arith, λ mask h. ground arith)

-- A check that does not fail returns 0.
pub access_internal-code :
    (c : Cred) (desm mode uid gid : ℕ)
    → is_neg (access_internal c desm mode uid gid) ≡ false
    → access_internal c desm mode uid gid ≡ pos 0
unfolding access_internal class_check
access_internal-code c desm mode uid gid h = ground arith
