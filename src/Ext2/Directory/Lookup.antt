-- ===== src/Ext2/Directory/Lookup.antt =====
-- What a lookup finds in a directory's block, before and after an entry was added.
use fs_playground.Base.{
  ℕ, zero, suc, ◌+◌, ◌≤◌, ◌<◌, ◌≡◌, refl, ap, sym, Bool, true, false, not, ◌&&◌, ◌||◌, leb,
  Bool-cases, Option, none, some, List, [], ◌∷◌, ◌==◌, if◌then◌else◌, inl, inr, length, CString,
  bytes_eq, eq_of_bytes_eq, arith, length-slice,
}
use fs_playground.Command.{ok, check}
use fs_playground.Ext2.Directory.{name_at, is_named, name_fits}
use fs_playground.Ext2.Directory.Chain.{Item, item_at, Chain, end, item, Grown, here, later}
use fs_playground.Ext2.Dirent
use fs_playground.Ext2.Disk.{Ext2, within}
use fs_playground.Ext2.Layout.{get}
use fs_playground.Ext2.Node.{find_entry}

abbrev matches : Item → CString → Bool
matches x name = not (x.number == 0) && bytes_eq x.name name

-- The first entry in use of a name.
unfoldable pub lookup : CString → List Item → Option ℕ
lookup name [] = none
lookup name (x ∷ xs) = let rest = lookup name xs in if matches x name then some x.number else rest

lookup-absent :
    (name : CString) (x : Item) (xs : List Item)
    → lookup name (x ∷ xs) ≡ none
    → (matches x name ≡ false) × (lookup name xs ≡ none)
unfolding lookup
lookup-absent name x xs h = elim (Bool-cases (matches x name)) [
  | inl e ↦ let h' = rw e at h in absurd (ground (arith, h'))
  | inr e ↦ (e, rw e at h)
]

lookup-cons :
    (name : CString) (x : Item) (xs : List Item)
    → lookup name (x ∷ xs) ≡ (if matches x name then some x.number else lookup name xs)
unfolding lookup
lookup-cons name x xs = refl

-- The new item is found by its name, and does not hide others.
pub lookup-Grown :
    (ino : ℕ) (name other : CString) {es es' : List Item}
    → Grown (record { number = ino; name = name }) es es'
    → 0 < ino
    → lookup name es ≡ none
    → lookup other es' ≡ (if bytes_eq name other then some ino else lookup other es)
lookup-Grown ino name other (here e es) pos absent =
    let x : Item = record { number = ino; name = name } in
    let used : (ino == 0) ≡ false = ground (arith, pos) in
    elim (Bool-cases (bytes_eq name other)) [
      | inl same ↦
          let eq = eq_of_bytes_eq name other same in
          let miss : matches e other ≡ false = rw (sym eq) (lookup-absent name e es absent).0 in
          rw (lookup-cons other e (x ∷ es), lookup-cons other x es, miss, used, same) refl
      | inr differs ↦
          rw
            (
              lookup-cons other e (x ∷ es),
              lookup-cons other x es,
              lookup-cons other e es,
              used,
              differs,
            )
            refl
    ]
lookup-Grown ino name other (later e {es} {es'} g) pos absent =
    let (miss, rest) = lookup-absent name e es absent in
    let ih = lookup-Grown ino name other g pos rest in
    rw (lookup-cons other e es', lookup-cons other e es, ih)
      (elim (Bool-cases (bytes_eq name other)) [
        | inl same ↦
            let eq = eq_of_bytes_eq name other same in
            let miss' : matches e other ≡ false = rw (sym eq) miss in rw (same, miss') refl
        | inr differs ↦ rw differs refl
      ])

length-name_at :
    (buf : List ℕ) (off : ℕ)
    → off + 8 + get buf off Dirent.name_len ≤ length buf
    → length (name_at buf off) ≡ get buf off Dirent.name_len
length-name_at buf off h = length-slice buf (off + 8) (get buf off Dirent.name_len) h

pub is_named_lem :
    (buf : List ℕ) (off : ℕ) (name : CString)
    → off + 8 + get buf off Dirent.name_len ≤ length buf
    → is_named buf off name ≡ bytes_eq (name_at buf off) name
is_named_lem buf off name h = elim (Bool-cases (bytes_eq (name_at buf off) name)) [
  | inr e ↦ rw e (ground arith)
  | inl e ↦
      let same : length (name_at buf off) ≡ length name =
        ap length (eq_of_bytes_eq (name_at buf off) name e) in
      let n : (get buf off Dirent.name_len == length name) ≡ true =
        ground (arith, same, length-name_at buf off h) in
      rw (n, e) refl
]

name_fits_lem :
    (buf : List ℕ) (off : ℕ) (name : CString)
    → off + 8 + get buf off Dirent.name_len ≤ length buf
    → name_fits buf off name ≡ true
name_fits_lem buf off name h = elim (Bool-cases (get buf off Dirent.name_len == length name)) [
  | inl e ↦ rw e (ground (arith, e, h))
  | inr e ↦ rw e refl
]

lookup-past :
    (name : CString) {buf : List ℕ} {off : ℕ} {es : List Item}
    → Chain buf off es
    → length buf ≤ off
    → lookup name es ≡ none
unfolding lookup
lookup-past name (end _) le = refl
lookup-past name (item room fits rest) le = absurd (omega (arith, room, fits, le))

module _ {K : Type 0} where
  pub find_entry-Chain :
      (n : ℕ) (buf : List ℕ) (off : ℕ) (name : CString) (s : Ext2 K) {es : List Item}
      → Chain buf off es
      → off < length buf
      → length buf < off + n
      → find_entry n buf off name s ≡ ok (lookup name es) s
  unfolding find_entry lookup within check
  find_entry-Chain zero buf off name s chain lt fuel = absurd (omega (arith, lt, fuel))
  find_entry-Chain (suc n) buf off name s (end le) lt fuel = absurd (omega (arith, le, lt))
  find_entry-Chain (suc n) buf off name s (item {es} room fits rest) lt fuel =
      let len = get buf off Dirent.len in
      let ino = get buf off Dirent.ino in
      let inside : leb (off + 8) (length buf) ≡ true = ground (arith, room, fits) in
      let some_len : (len == 0) ≡ false = ground (arith, room) in
      let named = is_named_lem buf off name (omega (arith, room, fits)) in
      let near : ((ino == 0) || name_fits buf off name) ≡ true =
        ground (arith, name_fits_lem buf off name (omega (arith, room, fits))) in
      elim (Bool-cases (matches (item_at buf off) name)) [
        | inl hit ↦ rw (inside, some_len, near, named, hit) refl
        | inr miss ↦ elim (Bool-cases (leb (length buf) (off + len))) [
          | inl last ↦
              rw (inside, some_len, near, named, miss, last)
                (rw (lookup-past name rest (ground (arith, last))) refl)
          | inr more ↦
              rw (inside, some_len, near, named, miss, more)
                (find_entry-Chain n buf (off + len) name s rest (ground (arith, more))
                  (omega (arith, fuel, room)))
        ]
      ]
