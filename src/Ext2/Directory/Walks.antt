-- ===== src/Ext2/Directory/Walks.antt =====
-- The walks over the entries of a directory's block: `off += current_dirent->len` in
-- src/ext2/ext2dir.c and src/ext2/ext2vnop.c.
use fs_playground.Base.{
  true, ℕ, zero, suc, ◌+◌, ◌≤◌, ◌<◌, ◌≡◌, ◌≢◌, ◌⊎◌, refl, false, not, ◌&&◌, ◌||◌, Option, none,
  some, List, leb, ◌==◌, Bool-cases, inl, inr, length, CString, arith,
}
use fs_playground.Command.{out_of_fuel, check}
use fs_playground.Ext2.Directory.{place_entry, remove_entry, is_named, name_fits, name_within}
use fs_playground.Ext2.Dirent
use fs_playground.Ext2.Disk.{Ext2, within, memcpy}
use fs_playground.Ext2.Layout.{get}
use fs_playground.Ext2.Node.{find_entry}
use fs_playground.Ext2.Remove.{only_dots}

-- A walk from an offset reaches the block's end, and each of its entries has a length.
pub data Ends (buf : List ℕ) : ℕ → Type 0 where
  past : {off : ℕ} → length buf ≤ off → Ends buf off
  entry :
      {off : ℕ}
      → get buf off Dirent.len ≢ 0
      → Ends buf (off + get buf off Dirent.len)
      → Ends buf off

fueled : {P : Type 0} {n : ℕ} → (n ≡ 0) ⊎ P → n ≢ 0 → P
fueled (inl e) ne = absurd (ne e)
fueled (inr p) ne = p

module _ {K : Type 0} where
  pub place_entry-Ends :
      (dirent_size : ℕ) {buf : List ℕ} {off : ℕ} (e : Ends buf off) (n : ℕ) (name : CString)
      (ino : ℕ) (s : Ext2 K)
      → length buf ≤ off + n
      → place_entry dirent_size (suc n) buf off name ino s ≢ out_of_fuel
  unfolding place_entry within check
  place_entry-Ends d (past h) n name ino s le = ground arith
  place_entry-Ends d {buf} {off} (entry ne e) zero name ino s le = ground arith
  place_entry-Ends d {buf} {off} (entry ne e) (suc n) name ino s le =
      let ih = place_entry-Ends d e n name ino s (omega (arith, ne)) in ground (arith, ih)

  pub remove_entry-Ends :
      {buf : List ℕ} {off : ℕ} (e : Ends buf off) (n : ℕ) (prev : Option ℕ) (name : CString)
      (ino : ℕ) (s : Ext2 K)
      → length buf ≤ off + n
      → remove_entry (suc n) buf prev off name ino s ≢ out_of_fuel
  unfolding remove_entry within check name_within memcpy
  remove_entry-Ends (past h) n prev name ino s le = ground arith
  remove_entry-Ends {buf} {off} (entry ne e) zero prev name ino s le = ground arith
  remove_entry-Ends {buf} {off} (entry ne e) (suc n) prev name ino s le =
      let ih = remove_entry-Ends e n (some off) name ino s (omega (arith, ne)) in ground (arith, ih)

  find_entry-Ends :
      (n : ℕ) (name : CString) {buf : List ℕ} {off : ℕ} (e : Ends buf off) (s : Ext2 K)
      → (n ≡ 0) ⊎ (length buf < off + n)
      → (n ≡ 0) ⊎ (find_entry n buf off name s ≢ out_of_fuel)
  unfolding find_entry within check
  find_entry-Ends zero name e s lt = inl refl
  find_entry-Ends (suc n) name (past h) s lt = inr (ground arith)
  find_entry-Ends (suc n) name {buf} {off} (entry ne e) s lt =
      let ih = find_entry-Ends n name e s (ground (arith, ne, lt)) in
      let len = get buf off Dirent.len in
      let ino = get buf off Dirent.ino in
      let z : (len == 0) ≡ false = ground (arith, ne) in
      inr (
        rw z (elim (Bool-cases (leb (off + Dirent.size) (length buf))) [
          | inr a ↦ rw a (ground arith)
          | inl a ↦ elim (Bool-cases ((ino == 0) || name_fits buf off name)) [
            | inr b ↦ rw (a, b) (ground arith)
            | inl b ↦ elim (Bool-cases (not (ino == 0) && is_named buf off name)) [
              | inl c ↦ rw (a, b, c) (ground arith)
              | inr c ↦ elim (Bool-cases (leb (length buf) (off + len))) [
                | inl f ↦ rw (a, b, c, f) (ground arith)
                | inr f ↦ rw (a, b, c, f) (fueled ih (λ q. ground (arith, q, lt, f)))
              ]
            ]
          ]
        ]))

  only_dots-Ends :
      {buf : List ℕ} {off : ℕ} (e : Ends buf off) (n : ℕ) (s : Ext2 K)
      → length buf ≤ off + n
      → only_dots (suc n) buf off s ≢ out_of_fuel
  unfolding only_dots within check name_within
  only_dots-Ends (past h) n s le = ground arith
  only_dots-Ends {buf} {off} (entry ne e) zero s le = ground arith
  only_dots-Ends {buf} {off} (entry ne e) (suc n) s le =
      let ih = only_dots-Ends e n s (omega (arith, ne)) in ground (arith, ih)

  -- Where the entries of a directory's block lead to its end and none of them has length 0, the
  -- walks that add, remove and find an entry and the walk that looks for entries other than the
  -- dots end within one round for each byte of the block and one more.
  pub walks-Ends :
      (dirent_size : ℕ) (buf : List ℕ) (name : CString) (ino : ℕ) (s : Ext2 K)
      → Ends buf 0
      → let rounds = suc (length buf) in
        (place_entry dirent_size rounds buf 0 name ino s ≢ out_of_fuel)
        × (remove_entry rounds buf none 0 name ino s ≢ out_of_fuel)
        × (find_entry rounds buf 0 name s ≢ out_of_fuel)
        × (only_dots rounds buf 0 s ≢ out_of_fuel)
  walks-Ends d buf name ino s e =
      let n = length buf in
      let le : n ≤ 0 + n = omega arith in
      (
        place_entry-Ends d e n name ino s le,
        remove_entry-Ends e n none name ino s le,
        fueled (find_entry-Ends (suc n) name e s (inr (omega arith))) (λ z. omega (arith, z)),
        only_dots-Ends e n s le,
      )

  -- At an entry of length 0 that lies in the block and has another name, the walks that add and
  -- remove an entry do not end, whatever the number of rounds.
  pub walk-stuck :
      (dirent_size : ℕ) (buf : List ℕ) (prev : Option ℕ) (off : ℕ) (name : CString) (ino : ℕ)
      (s : Ext2 K) (rounds : ℕ)
      → off + Dirent.size ≤ length buf
      → get buf off Dirent.len ≡ 0
      → is_named buf off name ≡ false
      → name_fits buf off name ≡ true
      → (place_entry dirent_size rounds buf off name ino s ≡ out_of_fuel)
        × (remove_entry rounds buf prev off name ino s ≡ out_of_fuel)
  unfolding place_entry remove_entry within check name_within
  walk-stuck d buf prev off name ino s zero le e other fits = (refl, refl)
  walk-stuck d buf prev off name ino s (suc n) le e other fits =
      let (placing, removing) = walk-stuck d buf (some off) off name ino s n le e other fits in
      let same : off + get buf off Dirent.len ≡ off = omega (arith, e) in
      (ground (arith, placing, same, e), ground (arith, removing, same, e, other, fits))
