-- ===== src/FsClass.antt =====
-- The registry of file system classes and the mount table of src/fs_class.c (include/fs.h). A
-- class is a pointer of type `C`, and `name` reads its name; the tables are the static arrays. The
-- field `fs_private` belongs to the driver and is left out.
pub mod Laws
use fs_playground.Base.{
  ℕ, zero, suc, ◌+◌, Bool, true, false, Option, none, some, List, [], ◌∷◌, if◌then◌else◌, ℤ, pos,
  eexist, enomem, CString, bytes_eq, replicate,
}

pub record Mount (C : Type 0) : Type 0 where
  pub cls : Option C
  pub blk : Option ℕ
  pub mnt_at : Option ℕ

abbrev pub fses_init {ℓ} : {C : Type ℓ} → List (Option C)
fses_init = replicate 10 none

abbrev pub mounts_init : {C : Type 0} → List (Mount C)
mounts_init = replicate 10 (record { cls = none; blk = none; mnt_at = none })

module _ {C : Type 0} where
  -- One round of the scan, at slot `m` with the class that it holds; `rest` scans the slots behind.
  create_round :
      C
      → Option ℕ
      → Option ℕ
      → Mount C
      → List (Mount C)
      → Option C
      → Option (ℕ × List (Mount C))
      → Option (ℕ × List (Mount C))
  create_round cls blk at m ms none rest =
      some (0, record m { cls = some cls; blk = blk; mnt_at = at } ∷ ms)
  create_round cls blk at m ms (some _) none = none
  create_round cls blk at m ms (some _) (some (i, ms')) = some (suc i, m ∷ ms')

  -- The first free slot of the mount table is filled, and its index returned.
  unfoldable pub fs_create : C → Option ℕ → Option ℕ → List (Mount C) → Option (ℕ × List (Mount C))
  unfolding create_round
  fs_create cls blk at [] = none
  fs_create cls blk at (m ∷ ms) = create_round cls blk at m ms m.cls (fs_create cls blk at ms)

  module _ (name : C → CString) where
    -- The scan stops at the first empty slot.
    unfoldable pub fs_class_by_name : CString → List (Option C) → Option C
    fs_class_by_name n [] = none
    fs_class_by_name n (none ∷ fses) = none
    fs_class_by_name n (some c ∷ fses) =
        if bytes_eq n (name c) then some c else fs_class_by_name n fses

  -- The loop that takes the first empty slot; `none` if there is no such slot.
  unfoldable pub register_slot : C → List (Option C) → Option (List (Option C))
  register_slot cls [] = none
  register_slot cls (none ∷ fses) = some (some cls ∷ fses)
  register_slot cls (some c ∷ fses) = elim (register_slot cls fses) [
    | none ↦ none
    | some fses' ↦ some (some c ∷ fses')
  ]

  -- What is returned, from a class of that name and from the table with the slot filled.
  register_outcome : List (Option C) → Option C → Option (List (Option C)) → List (Option C) × ℤ
  register_outcome fses (some _) filled = (fses, eexist)
  register_outcome fses none (some fses') = (fses', pos 0)
  register_outcome fses none none = (fses, enomem)

  unfoldable pub fs_class_register : (C → CString) → C → List (Option C) → List (Option C) × ℤ
  unfolding fs_class_by_name register_slot register_outcome
  fs_class_register name cls fses =
      register_outcome fses (fs_class_by_name name (name cls) fses) (register_slot cls fses)
