-- ===== src/Hash/Laws.antt =====
-- The hash table of src/hash.c refines a map from keys to values.
use fs_playground.Base.{
  ℕ, zero, suc, ◌+◌, ◌%◌, ◌^◌, ◌<◌, ◌≡◌, refl, inl, inr, true, false, Option, none, some, List, [],
  ◌∷◌, arith, if◌then◌else◌, length, get_or, set, replicate, length-set, get_or-set_self,
  get_or-set_ne, get_or-replicate, length-replicate, Bool-cases, pos, negsuc, ◌∙◌, sym, ◌==◌,
}
use fs_playground.Hash.{
  Entry, HashOps, Hash, hash_init, hash_put, hash_get, hash_del, put_bucket, get_bucket, del_bucket,
  inc64, dec64,
}
use fs_playground.Hash.Bucket.{
  IsLawful, Once, length-put_bucket, length-del_bucket, del_bucket-found, get-put_bucket,
  put_bucket-Once, get-del_bucket, del_bucket-Once, get_bucket_congr,
}

module _ {V : Type 0} where
  abbrev pub entries : List (List (Entry V)) → ℕ
  entries [] = 0
  entries (b ∷ bs) = length b + entries bs

  entries-set :
      (bs : List (List (Entry V))) (i : ℕ) (b : List (Entry V))
      → i < length bs
      → entries (set bs i b) + length (get_or bs i []) ≡ entries bs + length b
  entries-set [] i b h = elim h [ ]
  entries-set (c ∷ bs) zero b h = omega arith
  entries-set (c ∷ bs) (suc i) b h = omega (arith, entries-set bs i b)

entries-replicate : (V : Type 0) (n : ℕ) → entries (replicate {A = List (Entry V)} n []) ≡ 0
entries-replicate V zero = refl
entries-replicate V (suc n) = omega (arith, entries-replicate V n)

module _ {V : Type 0} where
  module _ (ops : HashOps) where
    -- `item_count` counts the entries in 64 bits.
    pub record IsValid (h : Hash V) : Type 0 where
      pub width : length h.buckets ≡ h.bucket_count
      pub nonempty : 0 < h.bucket_count
      pub counted : h.item_count ≡ entries h.buckets % 2 ^ 64
      pub once : (i : ℕ) → Once ops (get_or h.buckets i [])

    -- A valid table that holds the map `f`.
    pub record Models (f : ℕ → Option V) (h : Hash V) : Type 0 where
      pub valid : IsValid h
      pub reads : (q : ℕ) → hash_get ops h q ≡ f q

    abbrev pub update : (ℕ → Option V) → ℕ → Option V → ℕ → Option V
    update f k v q = if ops.keycmp k q then f q else v

    set-Once :
        (bs : List (List (Entry V))) (i : ℕ) (b : List (Entry V))
        → i < length bs
        → ((j : ℕ) → Once ops (get_or bs j []))
        → Once ops b
        → (j : ℕ) → Once ops (get_or (set bs i b) j [])
    set-Once bs i b lt all h j = elim (Bool-cases (i == j)) [
      | inl e ↦ let e' : j ≡ i = ground arith in rw (e', get_or-set_self bs i b [] lt) h
      | inr ne ↦ rw (get_or-set_ne bs i j b [] (ground arith)) (all j)
    ]

    -- Hash_init with at least one bucket makes a valid table that holds the empty map.
    pub hash_init-Models : (nb : ℕ) → 0 < nb → Models (λ _. none) (hash_init nb)
    unfolding hash_init hash_get get_bucket
    hash_init-Models nb lt = record {
      valid = record {
        width = length-replicate nb [];
        nonempty = lt;
        counted = omega (arith, entries-replicate V nb);
        once = λ i. rw (get_or-replicate {A = List (Entry V)} nb i []) tt;
      };
      reads = λ q. rw (get_or-replicate {A = List (Entry V)} nb (ops.keyhsh q % nb) []);
    }

    module _ (lawful : IsLawful ops) {f : ℕ → Option V} {h : Hash V} (models : Models f h)
        (k : ℕ) where
      slot : ℕ → ℕ
      slot q = ops.keyhsh q % h.bucket_count

      slot-lt : (q : ℕ) → slot q < length h.buckets
      unfolding slot
      slot-lt q = rw (models.valid.width) (ground (arith, models.valid.nonempty))

      -- A write of one bucket changes the lookups of that bucket's keys alone.
      get_set :
          (b : List (Entry V)) (v : Option V) (q : ℕ)
          → get_bucket ops q b
            ≡ (if ops.keycmp k q then get_bucket ops q (get_or h.buckets (slot k) []) else v)
          → get_bucket ops q (get_or (set h.buckets (slot k) b) (slot q) []) ≡ update f k v q
      unfolding slot hash_get
      get_set b v q here = elim (Bool-cases (slot k == slot q)) [
        | inl e ↦
            let e' : slot q ≡ slot k = ground arith in
            rw (e', get_or-set_self h.buckets (slot k) b [] (slot-lt k))
              (ground (arith, here, models.reads q))
        | inr ne ↦
            let d : ops.keycmp k q ≡ true = ground (arith, lawful.hash_cmp k q) in
            rw (get_or-set_ne h.buckets (slot k) (slot q) b [] (ground arith))
              (ground (arith, models.reads q))
      ]

      -- Writing a lawful bucket in the key's place, with the count to match.
      set-Models :
          (b : List (Entry V)) (v : Option V) (n : ℕ)
          → Once ops b
          → ((q : ℕ)
              → get_bucket ops q b
                ≡ (if ops.keycmp k q then get_bucket ops q (get_or h.buckets (slot k) []) else v))
          → n ≡ entries (set h.buckets (slot k) b) % 2 ^ 64
          → Models (update f k v) (record h { item_count = n; buckets = set h.buckets (slot k) b })
      unfolding slot hash_get
      set-Models b v n o here c = record {
        valid = record {
          width = length-set h.buckets (slot k) b ∙ models.valid.width;
          nonempty = models.valid.nonempty;
          counted = c;
          once = set-Once h.buckets (slot k) b (slot-lt k) models.valid.once o;
        };
        reads = λ q. get_set b v q (here q);
      }

      -- On a valid table with lawful callbacks that holds a map, hash_put leads to a valid table
      -- that holds the map updated at the key.
      pub hash_put-Models : (v : V) → Models (update f k (some v)) (hash_put ops h k v)
      unfolding hash_put slot
      hash_put-Models v =
          let old = get_or h.buckets (slot k) [] in
          let r = put_bucket ops k v old in
          set-Models r.0 (some v) (if r.1 then inc64 h.item_count else h.item_count)
            (put_bucket-Once ops lawful k v old (models.valid.once (slot k)))
            (λ q. get-put_bucket ops lawful q k v old)
            (ground (
              arith,
              models.valid.counted,
              entries-set h.buckets (slot k) r.0 (slot-lt k),
              length-put_bucket ops k v old,
            ))

      f_at_key : f k ≡ get_bucket ops k (get_or h.buckets (slot k) [])
      unfolding slot hash_get
      f_at_key = sym (models.reads k)

      absent :
          (del_bucket ops k (get_or h.buckets (slot k) [])).1 ≡ false
          → (q : ℕ) → hash_get ops h q ≡ update f k none q
      unfolding slot hash_get
      absent missing q =
          let old = get_or h.buckets (slot k) [] in
          elim (Bool-cases (ops.keycmp k q)) [
            | inl ne ↦ rw ne (models.reads q)
            | inr same ↦
                rw (same, ← lawful.hash_cmp k q same, ← get_bucket_congr ops lawful k q old same)
                  (ground (arith, missing, del_bucket-found ops k old))
          ]

      -- On a valid table with lawful callbacks that holds a map, hash_del leads to a valid table
      -- that holds the map without the key, and returns 0 if the key was there and -1 if not.
      pub hash_del-Models :
          Models (update f k none) (hash_del ops h k).0
          × ((hash_del ops h k).1 ≡ (elim (f k) [ none ↦ negsuc 0 | some _ ↦ pos 0 ]))
      unfolding hash_del slot
      hash_del-Models =
          let old = get_or h.buckets (slot k) [] in
          let r = del_bucket ops k old in
          elim (Bool-cases r.1) [
            | inl found ↦ rw found (
              set-Models r.0 none (dec64 h.item_count)
                  (del_bucket-Once ops lawful k old (models.valid.once (slot k)))
                  (λ q. get-del_bucket ops lawful q k old (models.valid.once (slot k)))
                  (ground (
                    arith,
                    models.valid.counted,
                    found,
                    entries-set h.buckets (slot k) r.0 (slot-lt k),
                    length-del_bucket ops k old,
                  )),
              ground (arith, found, f_at_key, del_bucket-found ops k old),
            )
            | inr missing ↦ rw missing (
              record { valid = models.valid; reads = λ q. absent missing q },
              ground (arith, missing, f_at_key, del_bucket-found ops k old),
            )
          ]
