-- ===== src/Hash.antt =====
-- The chained hash table of src/hash.c and include/hash.h. A bucket is a `hash_entry` list; the
-- callbacks that the table is given are parameters: `keycmp` (false is equal, as in C), `keyhsh`
-- and `keydup`. Freeing an entry, its key and its value has no effect on the table itself.
pub mod Bucket
pub mod Laws
use fs_playground.Base.{
  ℕ, ◌+◌, ◌-◌, ◌%◌, ◌^◌, Bool, true, false, not, Option, none, some, List, [], ◌∷◌, ◌==◌,
  if◌then◌else◌, get_or, set, replicate, length, ℤ, pos, negsuc,
}

pub record Entry (V : Type 0) : Type 0 where
  pub key : ℕ
  pub value : V

pub record HashOps : Type 0 where
  pub keycmp : ℕ → ℕ → Bool
  pub keyhsh : ℕ → ℕ
  pub keydup : Option (ℕ → ℕ)

pub record Hash (V : Type 0) : Type 0 where
  pub bucket_count : ℕ
  pub item_count : ℕ
  pub buckets : List (List (Entry V))

-- The helper functions for integer keys.
unfoldable pub hash_u64_keycmp : ℕ → ℕ → Bool
hash_u64_keycmp v0 v1 = not (v0 == v1)

unfoldable pub hash_u64_keyhsh : ℕ → ℕ
hash_u64_keyhsh v = v

-- `++` and `--` on a `size_t`.
abbrev pub inc64 : ℕ → ℕ
inc64 n = (n + 1) % 2 ^ 64

abbrev pub dec64 : ℕ → ℕ
dec64 n = (n + (2 ^ 64 - 1)) % 2 ^ 64

-- `h->keydup ? h->keydup(key) : key`
unfoldable pub dup_key : HashOps → ℕ → ℕ
dup_key ops key = elim ops.keydup [ none ↦ key | some dup ↦ dup key ]

module _ {V : Type 0} where
  pub hash_init : ℕ → Hash V
  hash_init nb = record { bucket_count = nb; item_count = 0; buckets = replicate nb [] }

  module _ (ops : HashOps) where
    -- The loop of `hash_put` over one bucket: the new bucket, and whether an entry was added.
    pub put_bucket : ℕ → V → List (Entry V) → List (Entry V) × Bool
    put_bucket key v [] = (record { key = dup_key ops key; value = v } ∷ [], true)
    put_bucket key v (e ∷ es) =
        let rest = put_bucket key v es in
        if ops.keycmp e.key key then (e ∷ rest.0, rest.1) else (record e { value = v } ∷ es, false)

    pub hash_put : Hash V → ℕ → V → Hash V
    hash_put h key v =
        let index = ops.keyhsh key % h.bucket_count in
        let r = put_bucket key v (get_or h.buckets index []) in
        record h {
          item_count = if r.1 then inc64 h.item_count else h.item_count;
          buckets = set h.buckets index r.0;
        }

    pub get_bucket : ℕ → List (Entry V) → Option V
    get_bucket key [] = none
    get_bucket key (e ∷ es) = if ops.keycmp e.key key then get_bucket key es else some e.value

    -- The value that `hash_get` stores through `val`; `none` where it returns -1.
    pub hash_get : Hash V → ℕ → Option V
    hash_get h key = get_bucket key (get_or h.buckets (ops.keyhsh key % h.bucket_count) [])

    pub del_bucket : ℕ → List (Entry V) → List (Entry V) × Bool
    del_bucket key [] = ([], false)
    del_bucket key (e ∷ es) =
        let rest = del_bucket key es in
        if ops.keycmp e.key key then (e ∷ rest.0, rest.1) else (es, true)

    pub hash_del : Hash V → ℕ → Hash V × ℤ
    hash_del h key =
        let index = ops.keyhsh key % h.bucket_count in
        let r = del_bucket key (get_or h.buckets index []) in
        if r.1
        then (
          record h { item_count = dec64 h.item_count; buckets = set h.buckets index r.0 },
          pos 0,
        )
        else (h, negsuc 0)
