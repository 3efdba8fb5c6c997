-- ===== src/Hash/Bucket.antt =====
-- One bucket of the hash table: what the loops of `hash_put`, `hash_get` and `hash_del` do to it.
use fs_playground.Base.{
  ℕ, ◌+◌, ◌≡◌, refl, Bool, true, false, none, some, List, [], ◌∷◌, arith, if◌then◌else◌, length,
}
use fs_playground.Hash.{Entry, HashOps, put_bucket, get_bucket, del_bucket, dup_key}

-- What a table asks of its callbacks: `keycmp` decides an equivalence, which the hash and the copy
-- of a key respect.
pub record IsLawful (ops : HashOps) : Type 0 where
  pub cmp_refl : (a : ℕ) → ops.keycmp a a ≡ false
  pub cmp_symm : (a b : ℕ) → ops.keycmp a b ≡ ops.keycmp b a
  pub cmp_trans : (a b c : ℕ) → ops.keycmp a b ≡ false → ops.keycmp a c ≡ ops.keycmp b c
  pub hash_cmp : (a b : ℕ) → ops.keycmp a b ≡ false → ops.keyhsh a ≡ ops.keyhsh b
  pub cmp_dup : (a : ℕ) → ops.keycmp (dup_key ops a) a ≡ false

abbrev pub one_if : Bool → ℕ
one_if true = 1
one_if false = 0

module _ {V : Type 0} (ops : HashOps) where
  -- No two entries of a bucket have equal keys.
  abbrev pub Once : List (Entry V) → Type 0
  Once [] = Unit {0}
  Once (e ∷ es) = (get_bucket ops e.key es ≡ none) × Once es

  pub length-put_bucket :
      (k : ℕ) (v : V) (es : List (Entry V))
      → length (put_bucket ops k v es).0 ≡ length es + one_if (put_bucket ops k v es).1
  unfolding put_bucket
  length-put_bucket k v [] = refl
  length-put_bucket k v (e ∷ es) = ground (arith, length-put_bucket k v es)

  pub length-del_bucket :
      (k : ℕ) (es : List (Entry V))
      → length (del_bucket ops k es).0 + one_if (del_bucket ops k es).1 ≡ length es
  unfolding del_bucket
  length-del_bucket k [] = refl
  length-del_bucket k (e ∷ es) = ground (arith, length-del_bucket k es)

  -- Deleting reports whether the key was there.
  pub del_bucket-found :
      (k : ℕ) (es : List (Entry V))
      → (del_bucket ops k es).1 ≡ (elim (get_bucket ops k es) [ none ↦ false | some _ ↦ true ])
  unfolding del_bucket get_bucket
  del_bucket-found k [] = refl
  del_bucket-found k (e ∷ es) = ground (arith, del_bucket-found k es)

  module _ (lawful : IsLawful ops) where
    pub get_bucket_congr :
        (q k : ℕ) (es : List (Entry V))
        → ops.keycmp q k ≡ false
        → get_bucket ops q es ≡ get_bucket ops k es
    unfolding get_bucket
    get_bucket_congr q k [] h = refl
    get_bucket_congr q k (e ∷ es) h = ground (
      arith,
      get_bucket_congr q k es,
      lawful.cmp_trans q k e.key,
      lawful.cmp_symm q e.key,
      lawful.cmp_symm k e.key,
    )

    pub get-put_bucket :
        (q k : ℕ) (v : V) (es : List (Entry V))
        → get_bucket ops q (put_bucket ops k v es).0
          ≡ (if ops.keycmp k q then get_bucket ops q es else some v)
    unfolding get_bucket put_bucket
    get-put_bucket q k v [] = ground (arith, lawful.cmp_dup k, lawful.cmp_trans (dup_key ops k) k q)
    get-put_bucket q k v (e ∷ es) = ground (
      arith,
      get-put_bucket q k v es,
      lawful.cmp_trans e.key k q,
      lawful.cmp_trans k q e.key,
      lawful.cmp_symm e.key k,
      lawful.cmp_symm e.key q,
    )

    pub put_bucket-Once :
        (k : ℕ) (v : V) (es : List (Entry V)) → Once es → Once (put_bucket ops k v es).0
    unfolding put_bucket get_bucket
    put_bucket-Once k v [] h = (refl, tt)
    put_bucket-Once k v (e ∷ es) h =
        ground (arith, put_bucket-Once k v es, get-put_bucket e.key k v es, lawful.cmp_symm e.key k)

    pub get-del_bucket :
        (q k : ℕ) (es : List (Entry V))
        → Once es
        → get_bucket ops q (del_bucket ops k es).0
          ≡ (if ops.keycmp k q then get_bucket ops q es else none)
    unfolding get_bucket del_bucket
    get-del_bucket q k [] h = ground arith
    get-del_bucket q k (e ∷ es) h = ground (
      arith,
      get-del_bucket q k es,
      lawful.cmp_trans e.key k q,
      lawful.cmp_trans k q e.key,
      lawful.cmp_symm e.key k,
      lawful.cmp_symm e.key q,
      get_bucket_congr q e.key es,
    )

    pub del_bucket-Once : (k : ℕ) (es : List (Entry V)) → Once es → Once (del_bucket ops k es).0
    unfolding del_bucket get_bucket
    del_bucket-Once k [] h = tt
    del_bucket-Once k (e ∷ es) h = ground (arith, del_bucket-Once k es, get-del_bucket e.key k es)
