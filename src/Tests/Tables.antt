-- ===== src/Tests/Tables.antt =====
-- Runs of the hash table of src/hash.c, the registry of src/fs_class.c and the permission checks.
use fs_playground.Access.{access_internal, open_access_mask}
use fs_playground.Access.Laws.{open_access_mask-cases, covers, rights, access_internal-rights}
use fs_playground.Base.{
  false, ◌↔◌, ◌&&◌, bit, not, ◌==◌, ◌%◌, ℕ, ◌≡◌, refl, Option, none, some, List, [], ◌∷◌, arith,
  CString, pos,
}
use fs_playground.FsClass.{fs_create, fs_class_by_name, fs_class_register}
use fs_playground.FsClass.Laws.{Registers, Created, fs_class_register-Registers, fs_create-Created}
use fs_playground.Hash.{
  HashOps, Hash, hash_init, hash_put, hash_del, hash_u64_keycmp, hash_u64_keyhsh, dup_key,
}
use fs_playground.Hash.Bucket.{IsLawful}
use fs_playground.Hash.Laws.{Models, update, hash_init-Models, hash_put-Models, hash_del-Models}

abbrev u64_ops : HashOps
u64_ops = record { keycmp = hash_u64_keycmp; keyhsh = hash_u64_keyhsh; keydup = none }

u64_ops-IsLawful : IsLawful u64_ops
unfolding hash_u64_keycmp hash_u64_keyhsh dup_key
u64_ops-IsLawful = record {
  cmp_refl = λ a. ground arith;
  cmp_symm = λ a b. ground arith;
  cmp_trans = λ a b c h. ground arith;
  hash_cmp = λ a b h. ground arith;
  cmp_dup = λ a. ground arith;
}

abbrev empty_table : Hash ℕ
empty_table = hash_init 4

empty_table-Models : Models u64_ops (λ _. none) empty_table
empty_table-Models = hash_init-Models u64_ops 4 (omega arith)

one_entry-Models :
    Models u64_ops (update u64_ops (λ _. none) 9 (some 5)) (hash_put u64_ops empty_table 9 5)
one_entry-Models = hash_put-Models u64_ops u64_ops-IsLawful empty_table-Models 9 5

-- Keys 9 and 13 fall into the same bucket.
hash_put-Models_example :
    Models u64_ops
      (update u64_ops (update u64_ops (λ _. none) 9 (some 5)) 13 (some 6))
      (hash_put u64_ops (hash_put u64_ops empty_table 9 5) 13 6)
hash_put-Models_example = hash_put-Models u64_ops u64_ops-IsLawful one_entry-Models 13 6

hash_del-Models_example :
    Models u64_ops
      (update u64_ops (update u64_ops (λ _. none) 9 (some 5)) 9 none)
      (hash_del u64_ops (hash_put u64_ops empty_table 9 5) 9).0
    × ((hash_del u64_ops (hash_put u64_ops empty_table 9 5) 9).1 ≡ pos 0)
unfolding hash_u64_keycmp
hash_del-Models_example = hash_del-Models u64_ops u64_ops-IsLawful one_entry-Models 9

-- A class is its own name.
abbrev self_name : CString → CString
self_name n = n

abbrev ext2 : CString
ext2 = b'e' ∷ b'2' ∷ []

abbrev tmpfs : CString
tmpfs = b't' ∷ []

abbrev one_class : List (Option CString)
one_class = some ext2 ∷ none ∷ none ∷ []

fs_class_register-Registers_example :
    Registers self_name tmpfs one_class
      (fs_class_register self_name tmpfs one_class).0
      (fs_class_register self_name tmpfs one_class).1
unfolding fs_class_by_name
fs_class_register-Registers_example =
    fs_class_register-Registers self_name tmpfs one_class (refl, (refl, tt))

fs_create-Created_example :
    Created ext2
      (some 1)
      none
      (record { cls = none; blk = none; mnt_at = none } ∷ [])
      (fs_create ext2 (some 1) none (record { cls = none; blk = none; mnt_at = none } ∷ []))
fs_create-Created_example =
    fs_create-Created ext2 (some 1) none (record { cls = none; blk = none; mnt_at = none } ∷ [])

-- The owner may write a file of mode 0640.
access_internal-rights_example :
    access_internal (record { uid = 1000; gid = 100 }) 2 416 1000 100
    ≡ covers (rights (record { uid = 1000; gid = 100 }) 416 1000 100) 2
access_internal-rights_example =
    access_internal-rights (record { uid = 1000; gid = 100 }) 2 416 1000 100 (omega arith)

-- O_RDWR asks for both.
open_access_mask-cases_example :
    ((open_access_mask 2 ≡ none) ↔ ((bit 2 2 ≡ false) × (2 % 4 ≡ 3)))
    × ((mask : ℕ)
        → open_access_mask 2 ≡ some mask
        → (bit mask 0 ≡ bit 2 2)
          × (bit mask 1 ≡ not (bit 2 2) && not (2 % 4 == 0))
          × (bit mask 2 ≡ not (bit 2 2) && not (2 % 4 == 1)))
open_access_mask-cases_example = open_access_mask-cases 2
