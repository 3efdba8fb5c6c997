-- ===== src/Ext2/Directory/Insert.antt =====
-- A new entry in a directory's block: the splitting of an entry in src/ext2/ext2dir.c.
use fs_playground.Base.{
  ℕ, zero, suc, ◌+◌, ◌-◌, ◌%◌, ◌^◌, ◌≤◌, ◌<◌, ◌≡◌, refl, ◌∙◌, ap, sym, ◌&&◌, List, ltb, leb,
  Bool-cases, ◌⊎◌, inl, inr, length, CString, arith, peek, peek-poke, peek-poke_apart, AreBytes,
  peek_lt,
}
use fs_playground.Command.{ok, check}
use fs_playground.Ext2.Directory.{put_entry, entry_space, placed, place_entry}
use fs_playground.Ext2.Dirent
use fs_playground.Ext2.Disk.{Ext2, within}
use fs_playground.Ext2.Layout.{get, put}
use fs_playground.Ext2.Directory.Entry.{
  Written, length-put, length-put_entry, put_entry-name_len, put_entry-Written, put_entry_apart,
  put_len-Written,
}

-- The block after the entry at `off` was cut to `real` bytes, and the new one put behind.
abbrev pub split_at : List ℕ → ℕ → ℕ → ℕ → CString → List ℕ
split_at buf off real ino name =
    put (put_entry buf (off + real) ino (get buf off Dirent.len - real) name) off Dirent.len real

-- The block with an entry for `name` put behind the entry at `before`, which gave up its end.
pub record Inserted (dirent_size : ℕ) (buf b : List ℕ) (ino : ℕ) (name : CString) : Type 0 where
  pub before : ℕ
  pub at : ℕ
  pub at_is : at ≡ before + entry_space (get buf before Dirent.name_len) dirent_size
  pub entry : Written b at ino (get buf before Dirent.len - (at - before)) name
  pub cut : get b before Dirent.len ≡ at - before
  pub room : entry_space (length name) Dirent.size ≤ get buf before Dirent.len - (at - before)
  pub same_length : length b ≡ length buf
  pub apart :
      (off w : ℕ)
      → (off + w ≤ at) ⊎ (at + Dirent.size + length name ≤ off)
      → (off + w ≤ before + 4) ⊎ (before + 6 ≤ off)
      → peek b off w ≡ peek buf off w

-- The new entry, after the old one's length was stored.
module _ (buf : List ℕ) (off real ino : ℕ) (name : CString)
    (fits : off + real + Dirent.size + length name ≤ length buf) (behind : 8 ≤ real)
    (short : length name < 256) (small : ino < 2 ^ 32) (less : real < get buf off Dirent.len)
    (len_small : get buf off Dirent.len < 2 ^ 16) where
  abbrev pub new_len : ℕ
  new_len = get buf off Dirent.len - real

  abbrev pub written : List ℕ
  written = put_entry buf (off + real) ino new_len name

  written-Written : Written written (off + real) ino new_len name
  written-Written =
      put_entry-Written buf (off + real) ino new_len name fits short small (omega arith)

  pub length_written : length written ≡ length buf
  length_written = length-put_entry buf (off + real) ino new_len name fits short small (omega arith)

  pub split_at-Written : Written (split_at buf off real ino name) (off + real) ino new_len name
  split_at-Written =
      let at = off + real in
      put_len-Written off real (omega arith) short
        (put_entry-name_len buf at ino new_len name fits short small (omega arith)) written-Written

  pub written_apart :
      (o w : ℕ)
      → (o + w ≤ off + real) ⊎ (off + real + Dirent.size + length name ≤ o)
      → peek written o w ≡ peek buf o w
  written_apart o w h =
      put_entry_apart buf (off + real) ino new_len name fits short small (omega arith) o w h

  split_at-Inserted :
      (dirent_size : ℕ)
      → real ≡ entry_space (get buf off Dirent.name_len) dirent_size
      → entry_space (length name) Dirent.size ≤ new_len
      → Inserted dirent_size buf (split_at buf off real ino name) ino name
  split_at-Inserted d e room =
      let gap : off + real - off ≡ real = omega arith in
      record {
        before = off;
        at = off + real;
        at_is = ap (λ x. off + x) e;
        entry = rw gap split_at-Written;
        cut =
            peek-poke written (off + 4) 2 real (omega (arith, length_written)) (omega arith)
            ∙ sym gap;
        room = rw gap room;
        same_length = length-put written off Dirent.len real ∙ length_written;
        apart = λ o w far near.
            peek-poke_apart written (off + 4) 2 real o w (omega (arith, near))
            ∙ written_apart o w far;
      }

module _ {K : Type 0} (dirent_size : ℕ) where
  pub place_entry_step :
      (n : ℕ) (buf : List ℕ) (off : ℕ) (name : CString) (ino : ℕ) (s : Ext2 K) {b : List ℕ}
      {t : Ext2 K}
      → place_entry dirent_size (suc n) buf off name ino s ≡ ok (placed b) t
      → let real = entry_space (get buf off Dirent.name_len) dirent_size in
        (place_entry dirent_size n buf (off + get buf off Dirent.len) name ino s ≡ ok (placed b) t)
        ⊎ ((real < get buf off Dirent.len)
            × (entry_space (length name) Dirent.size ≤ get buf off Dirent.len - real)
            × (off + real + (Dirent.size + length name % 256) ≤ length buf)
            × (split_at buf off real ino name ≡ b)
            × (s ≡ t))
  unfolding place_entry within check
  place_entry_step n buf off name ino s h =
      let real = entry_space (get buf off Dirent.name_len) dirent_size in
      let len = get buf off Dirent.len in
      elim (Bool-cases (ltb off (length buf))) [
        | inr a ↦ let h' = rw a at h in absurd (ground (arith, h'))
        | inl a ↦ elim (Bool-cases (leb (off + Dirent.size) (length buf))) [
          | inr b ↦ let h' = rw (a, b) at h in absurd (ground (arith, h'))
          | inl b ↦
              elim (Bool-cases
                (ltb real len && leb (entry_space (length name) Dirent.size) (len - real))) [
                  | inr c ↦ inl (rw (a, b, c) at h)
                  | inl c ↦ let h' = rw (a, b, c) at h in inr (ground (arith, h', c))
                ]
        ]
      ]

  -- Where ext2_dir_add_inode finds a place for a name of less than 256 bytes in a block of bytes,
  -- and sizeof(struct dirent) is at least 8, an entry that had room for it is cut short and the new
  -- entry fills what it gave up, with the number, the name and the length; the new entry lies in
  -- the block, and no byte outside of it and of the cut entry's length is changed.
  pub place_entry-Inserted :
      (rounds : ℕ) (buf : List ℕ) (off : ℕ) (name : CString) (ino : ℕ) (s : Ext2 K) {b : List ℕ}
      {t : Ext2 K}
      → AreBytes buf
      → length name < 256
      → ino < 2 ^ 32
      → 8 ≤ dirent_size
      → place_entry dirent_size rounds buf off name ino s ≡ ok (placed b) t
      → Inserted dirent_size buf b ino name × (s ≡ t)
  unfolding place_entry
  place_entry-Inserted zero buf off name ino s bytes short small d h = absurd (ground (arith, h))
  place_entry-Inserted (suc n) buf off name ino s {b} {t} bytes short small d h =
      let real = entry_space (get buf off Dirent.name_len) dirent_size in
      elim (place_entry_step n buf off name ino s h) [
        | inl more ↦
            place_entry-Inserted n buf (off + get buf off Dirent.len) name ino s bytes short small d
              more
        | inr (less, room, fits, e, same) ↦ (
          rw (sym e) (
              split_at-Inserted buf off real ino name (omega arith) (omega arith) short small less
                (peek_lt buf (off + 4) 2 bytes) dirent_size refl room),
          same,
        )
      ]
