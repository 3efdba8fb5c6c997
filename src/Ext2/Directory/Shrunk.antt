-- ===== src/Ext2/Directory/Shrunk.antt =====
-- A directory's block as the list of its entries without one of them: src/ext2/ext2dir.c.
use fs_playground.Base.{
  ℕ, zero, suc, ◌+◌, ◌%◌, ◌^◌, ◌≤◌, ◌<◌, ◌≡◌, refl, ◌∙◌, ap, sym, false, List, [], ◌∷◌, inl, inr,
  length, take, slice, Bool-cases, if◌then◌else◌, CString, bytes_eq, eq_of_bytes_eq, arith, splice,
  length-slice, length-poke, peek-poke, slice-poke_apart, peek-poke_apart,
}
use fs_playground.Ext2.Directory.{name_at}
use fs_playground.Ext2.Directory.Chain.{Item, item_at, Chain, end, item, Same, Chain-fields}
use fs_playground.Ext2.Directory.Lookup.{lookup}
use fs_playground.Ext2.Directory.Moved.{merged, merged-Chain, merged_keeps, length-merged}
use fs_playground.Ext2.Dirent
use fs_playground.Ext2.Layout.{get, put}

take_short : (n : ℕ) (xs : List ℕ) → length xs ≤ n → take n xs ≡ xs
take_short zero [] h = refl
take_short zero (x ∷ xs) h = absurd (omega (arith, h))
take_short (suc n) [] h = refl
take_short (suc n) (x ∷ xs) h = ap (λ t. x ∷ t) (take_short n xs (omega (arith, h)))

-- The items without the first of a name.
unfoldable pub without : CString → List Item → List Item
without name [] = []
without name (x ∷ xs) = let rest = without name xs in if bytes_eq x.name name then xs else x ∷ rest

pub lookup-without :
    (name other : CString) (es : List Item)
    → bytes_eq name other ≡ false
    → lookup other (without name es) ≡ lookup other es
unfolding lookup without
lookup-without name other [] differs = refl
lookup-without name other (x ∷ xs) differs = elim (Bool-cases (bytes_eq x.name name)) [
  | inl e ↦
      let eq = eq_of_bytes_eq x.name name e in
      let miss : bytes_eq x.name other ≡ false = rw eq differs in rw (e, miss) (ground arith)
  | inr e ↦ rw (e, lookup-without name other xs differs) refl
]

pub past-end :
    {buf : List ℕ} {off : ℕ} {es : List Item} → Chain buf off es → length buf ≤ off → es ≡ []
past-end (end _) le = refl
past-end (item room inside rest) le = absurd (omega (arith, room, inside, le))

-- The last entry's room goes to the entry before it.
pub widened-Chain :
    (buf : List ℕ) (p v : ℕ)
    → Dirent.size + get buf p Dirent.name_len ≤ v
    → p + v ≡ length buf
    → length buf < 2 ^ 16
    → Chain (put buf p Dirent.len v) p (item_at buf p ∷ [])
widened-Chain buf p v room whole short =
    let b = put buf p Dirent.len v in
    let same = length-poke buf (p + 4) 2 v in
    let n : get b p Dirent.name_len ≡ get buf p Dirent.name_len =
      peek-poke_apart buf (p + 4) 2 v (p + 6) 1 (inr (omega arith)) in
    let name : name_at b p ≡ name_at buf p =
      ap (λ k. slice b (p + 8) k) n
      ∙ slice-poke_apart buf (p + 4) 2 v (p + 8) (get buf p Dirent.name_len) (inr (omega arith))
          (omega (arith, room, whole)) in
    Chain-fields (peek-poke_apart buf (p + 4) 2 v (p + 0) 4 (inl (omega arith))) name
      (peek-poke buf (p + 4) 2 v (omega (arith, room, whole)) (omega (arith, whole, short))) n room
      (omega (arith, same, whole)) (end (omega (arith, same, whole)))

-- A block whose entries from an offset are these, with nothing changed in front of it.
pub record Now (buf b : List ℕ) (off : ℕ) (es : List Item) : Type 0 where
  pub chain : Chain b off es
  pub below : Same b buf 0 off
  pub same_length : length b ≡ length buf

-- The entry that follows the removed one is moved in its place.
pub merged-Now :
    (buf : List ℕ) (off : ℕ) {b : List ℕ} {es : List Item}
    → length buf < 2 ^ 16
    → Dirent.size ≤ get buf off Dirent.len
    → off + get buf off Dirent.len < length buf
    → (let len = get buf off Dirent.len in
        let n = get buf (off + len) Dirent.len in
        let next = take n (slice buf (off + len) n) in
        put
          (splice buf off next)
          off
          Dirent.len
          ((get (splice buf off next) off Dirent.len + len) % 2 ^ 16)
        ≡ b)
    → Chain buf (off + get buf off Dirent.len) es
    → Now buf b off es
merged-Now buf off short some_len more e (end le) = absurd (omega (arith, more, le))
merged-Now buf off {b} short some_len more e (item {es} room inside rest) =
    let len = get buf off Dirent.len in
    let n = get buf (off + len) Dirent.len in
    let whole =
      take_short n (slice buf (off + len) n)
        (omega (arith, length-slice buf (off + len) n inside)) in
    let is : merged buf off len n inside some_len room short refl ≡ b = rw whole at e in
    rw (sym is) (record {
      chain = merged-Chain buf off len n inside some_len room short refl rest;
      below = λ j l m. merged_keeps buf off len n inside some_len room short refl j (inl m);
      same_length = length-merged buf off len n inside some_len room short refl;
    })
