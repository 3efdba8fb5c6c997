-- ===== src/Ext2/Directory/Dropped.antt =====
-- A lookup in a directory's block after an entry was removed: src/ext2/ext2dir.c with the search of
-- src/ext2/ext2vnop.c.
use fs_playground.Base.{
  ℕ, zero, suc, ◌+◌, ◌%◌, ◌^◌, ◌≤◌, ◌<◌, ◌≡◌, refl, ◌∙◌, sym, true, false, none, some, List, [],
  ◌∷◌, ◌⊎◌, inl, inr, length, take, slice, ltb, leb, ◌==◌, Option, Option-cases, Bool-cases,
  if◌then◌else◌, CString, bytes_eq, eq_of_bytes_eq, arith, splice, length-poke,
}
use fs_playground.Command.{ok, check}
use fs_playground.Ext2.Directory.{is_named, name_fits, name_within, removed, remove_entry, name_at}
use fs_playground.Ext2.Directory.Chain.{Item, item_at, Chain, end, item, Chain-keep}
use fs_playground.Ext2.Directory.Lookup.{lookup, is_named_lem, find_entry-Chain}
use fs_playground.Ext2.Directory.Moved.{get_or-poke_apart}
use fs_playground.Ext2.Directory.Shrunk.{
  without, lookup-without, past-end, widened-Chain, Now, merged-Now,
}
use fs_playground.Ext2.Dirent
use fs_playground.Ext2.Disk.{Ext2, within, memcpy}
use fs_playground.Ext2.Layout.{get, put}
use fs_playground.Ext2.Node.{find_entry}

module _ {K : Type 0} where
  remove_entry_step :
      (rounds : ℕ) (buf : List ℕ) (prev : Option ℕ) (off : ℕ) (name : CString) (ino : ℕ)
      (s : Ext2 K) {b : List ℕ} {t : Ext2 K}
      → remove_entry (suc rounds) buf prev off name ino s ≡ ok (removed b) t
      → let len = get buf off Dirent.len in
        (off < length buf)
        × (((is_named buf off name ≡ false)
              × (remove_entry rounds buf (some off) (off + len) name ino s ≡ ok (removed b) t))
            ⊎ ((is_named buf off name ≡ true)
                × (length buf ≤ len + off)
                × (p : ℕ) × (prev ≡ some p)
                × (put buf p Dirent.len ((get buf p Dirent.len + len) % 2 ^ 16) ≡ b))
            ⊎ ((is_named buf off name ≡ true)
                × (len + off < length buf)
                × (let n = get buf (off + len) Dirent.len in
                    let next = take n (slice buf (off + len) n) in
                    (off + len + n ≤ length buf)
                    × (put
                          (splice buf off next)
                          off
                          Dirent.len
                          ((get (splice buf off next) off Dirent.len + len) % 2 ^ 16)
                        ≡ b))))
  unfolding remove_entry within check memcpy name_within
  remove_entry_step rounds buf prev off name ino s h =
      let len = get buf off Dirent.len in
      let n = get buf (off + len) Dirent.len in
      elim (Bool-cases (ltb off (length buf))) [
        | inr a ↦ let h' = rw a at h in absurd (ground (arith, h'))
        | inl a ↦ (
          ground (arith, a),
          elim (Bool-cases (leb (off + Dirent.size) (length buf))) [
            | inr b ↦ let h' = rw (a, b) at h in absurd (ground (arith, h'))
            | inl b ↦ elim (Bool-cases (name_fits buf off name)) [
              | inr c ↦ let h' = rw (a, b, c) at h in absurd (ground (arith, h'))
              | inl c ↦ elim (Bool-cases (is_named buf off name)) [
                | inr d ↦ inl (d, rw (a, b, c, d) at h)
                | inl d ↦ inr (elim (Bool-cases (get buf off Dirent.ino == ino)) [
                  | inr e ↦ let h' = rw (a, b, c, d, e) at h in absurd (ground (arith, h'))
                  | inl e ↦ elim (Bool-cases (leb (length buf) (len + off))) [
                    | inl f ↦ elim (Option-cases prev) [
                      | inl z ↦
                          let h' = rw (a, b, c, d, e, f, z) at h in absurd (ground (arith, h'))
                      | inr (p, z) ↦
                          let h' = rw (a, b, c, d, e, f, z) at h in
                          inl (d, ground (arith, f), p, z, ground (arith, h'))
                    ]
                    | inr f ↦ elim (Bool-cases (leb (off + len + Dirent.size) (length buf))) [
                      | inr g ↦
                          let h' = rw (a, b, c, d, e, f, g) at h in absurd (ground (arith, h'))
                      | inl g ↦ elim (Bool-cases (leb (off + len + n) (length buf))) [
                        | inr i ↦
                            let h' = rw (a, b, c, d, e, f, g, i) at h in absurd (ground (arith, h'))
                        | inl i ↦
                            let h' = rw (a, b, c, d, e, f, g, i) at h in
                            inr (d, ground (arith, f), (ground (arith, i), ground (arith, h')))
                      ]
                    ]
                  ]
                ])
              ]
            ]
          ],
        )
      ]

  -- The walk behind the entry at `p`.
  remove_entry-Now :
      (rounds : ℕ) (buf : List ℕ) (p off : ℕ) (name : CString) (ino : ℕ) (s : Ext2 K) {b : List ℕ}
      {t : Ext2 K} {es : List Item}
      → length buf < 2 ^ 16
      → p + get buf p Dirent.len ≡ off
      → Dirent.size + get buf p Dirent.name_len ≤ get buf p Dirent.len
      → Chain buf off es
      → remove_entry rounds buf (some p) off name ino s ≡ ok (removed b) t
      → Now buf b p (item_at buf p ∷ without name es)
  unfolding remove_entry without
  remove_entry-Now zero buf p off name ino s short behind room chain h = absurd (ground (arith, h))
  remove_entry-Now (suc n) buf p off name ino s short behind room (end le) h =
      absurd (omega (arith, (remove_entry_step n buf (some p) off name ino s h).0, le))
  remove_entry-Now (suc n) buf p off name ino s {b} short behind room (item {es} room' inside rest)
        h =
      let named = is_named_lem buf off name (omega (arith, room', inside)) in
      let keep : (now : List Item) → Now buf b off now → Now buf b p (item_at buf p ∷ now) =
        λ now r. record {
          chain =
              Chain-keep b buf p off r.same_length (λ j l m. r.below j (omega arith) m)
                (omega (arith, behind)) (omega (arith, inside)) room (rw behind r.chain);
          below = λ j l m. r.below j l (omega (arith, m, behind));
          same_length = r.same_length;
        } in
      elim (remove_entry_step n buf (some p) off name ino s h).1 [
        | inl (miss, more) ↦
            let other : bytes_eq (name_at buf off) name ≡ false = sym named ∙ miss in
            let r =
              remove_entry-Now n buf off (off + get buf off Dirent.len) name ino s short refl room'
                rest more in
            rw other (keep (item_at buf off ∷ without name es) r)
        | inr (inl (hit, last, p', same, e)) ↦
            let this : bytes_eq (name_at buf off) name ≡ true = sym named ∙ hit in
            let here : p ≡ p' = ground (arith, same) in
            let none_left : es ≡ [] = past-end rest (omega (arith, last)) in
            let sum : (get buf p Dirent.len + get buf off Dirent.len) % 2 ^ 16
                ≡ get buf p Dirent.len + get buf off Dirent.len =
              omega (arith, behind, inside, short) in
            let v = get buf p Dirent.len + get buf off Dirent.len in
            let is : put buf p Dirent.len v ≡ b = rw (sym here, sum) at e in
            rw (this, none_left, sym is)
              (record {
                chain =
                    widened-Chain buf p v (omega (arith, room))
                      (omega (arith, behind, inside, last)) short;
                below = λ j l m. get_or-poke_apart buf (p + 4) 2 v j (inl (omega (arith, m)));
                same_length = length-poke buf (p + 4) 2 v;
              })
        | inr (inr (hit, more, (inside', e))) ↦
            let this : bytes_eq (name_at buf off) name ≡ true = sym named ∙ hit in
            rw this (
              keep es
                (merged-Now buf off short (omega (arith, room')) (omega (arith, more)) e rest))
      ]

  -- The walk from the block's first entry.
  remove_entry-first :
      (rounds : ℕ) (buf : List ℕ) (name : CString) (ino : ℕ) (s : Ext2 K) {b : List ℕ} {t : Ext2 K}
      {es : List Item}
      → length buf < 2 ^ 16
      → Chain buf 0 es
      → remove_entry rounds buf none 0 name ino s ≡ ok (removed b) t
      → Now buf b 0 (without name es) × (0 < length buf)
  unfolding remove_entry without
  remove_entry-first zero buf name ino s short chain h = absurd (ground (arith, h))
  remove_entry-first (suc n) buf name ino s short (end le) h =
      absurd (omega (arith, (remove_entry_step n buf none 0 name ino s h).0, le))
  remove_entry-first (suc n) buf name ino s short (item {es} room inside rest) h =
      let named = is_named_lem buf 0 name (omega (arith, room, inside)) in
      let (some_bytes, ends) = remove_entry_step n buf none 0 name ino s h in
      (
        elim ends [
          | inl (miss, more) ↦
              let other : bytes_eq (name_at buf 0) name ≡ false = sym named ∙ miss in
              rw other (
                remove_entry-Now n buf 0 (0 + get buf 0 Dirent.len) name ino s short refl room rest
                  more)
          | inr (inl (hit, last, p', same, e)) ↦ absurd (ground (arith, same))
          | inr (inr (hit, more, (inside', e))) ↦
              let this : bytes_eq (name_at buf 0) name ≡ true = sym named ∙ hit in
              rw this (merged-Now buf 0 short (omega (arith, room)) (omega (arith, more)) e rest)
        ],
        some_bytes,
      )

  -- In a block of less than 65536 bytes whose entries follow on each other to its end, each with
  -- room for its name, ext2_dir_remove_inode takes out an entry and keeps the block, and no further
  -- entry in use has the name: then a search of the new block does not find the name, and finds
  -- every other name as in the block before.
  pub find_entry-remove_entry :
      (rounds : ℕ) (buf : List ℕ) (name other : CString) (ino : ℕ) (s u : Ext2 K) {b : List ℕ}
      {t : Ext2 K} {es : List Item}
      → length buf < 2 ^ 16
      → Chain buf 0 es
      → lookup name (without name es) ≡ none
      → remove_entry rounds buf none 0 name ino s ≡ ok (removed b) t
      → find_entry (suc (length b)) b 0 other u
        ≡ (if bytes_eq name other then ok none u else find_entry (suc (length buf)) buf 0 other u)
  find_entry-remove_entry rounds buf name other ino s u {b} {es} short chain once h =
      let (r, some_bytes) = remove_entry-first rounds buf name ino s short chain h in
      let before : find_entry (suc (length buf)) buf 0 other u ≡ ok (lookup other es) u =
        find_entry-Chain (suc (length buf)) buf 0 other u chain some_bytes (omega arith) in
      let after =
        find_entry-Chain (suc (length b)) b 0 other u r.chain
          (omega (arith, r.same_length, some_bytes)) (omega arith) in
      after ∙ elim (Bool-cases (bytes_eq name other)) [
        | inl e ↦
            let eq = eq_of_bytes_eq name other e in
            let gone : lookup other (without name es) ≡ none = rw (sym eq) once in rw (e, gone) refl
        | inr e ↦ rw (e, before, lookup-without name other es e) refl
      ]
