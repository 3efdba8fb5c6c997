-- ===== src/Ext2/Directory/Split.antt =====
-- The splitting of an entry, as a step on the list of a block's entries.
use fs_playground.Base.{
  ℕ, ◌+◌, ◌-◌, ◌^◌, ◌≤◌, ◌<◌, ◌≡◌, ◌∙◌, ap, List, ◌∷◌, ◌⊎◌, inl, inr, length, get_or, CString,
  eq_of_bytes_eq, arith, peek, peek_congr, slice, slice_congr, peek-poke, peek-poke_apart,
}
use fs_playground.Ext2.Directory.{name_at}
use fs_playground.Ext2.Directory.Chain.{Item, item_at, Chain, Chain-fields, Chain-congr}
use fs_playground.Ext2.Directory.Entry.{Written, length-put}
use fs_playground.Ext2.Directory.Insert.{
  split_at, split_at-Written, written, written_apart, length_written,
}
use fs_playground.Ext2.Dirent
use fs_playground.Ext2.Layout.{get}

peek1 : (a b : List ℕ) (j : ℕ) → peek a j 1 ≡ peek b j 1 → get_or a j 0 ≡ get_or b j 0
unfolding peek
peek1 a b j h = omega (arith, h)

Written-name_at :
    {b : List ℕ} {at ino len : ℕ} {name : CString} → Written b at ino len name → name_at b at ≡ name
Written-name_at {b} {at} {name} w = eq_of_bytes_eq (name_at b at) name (ground (arith, w.named))

Written-name_len :
    {b : List ℕ} {at ino len : ℕ} {name : CString}
    → Written b at ino len name
    → get b at Dirent.name_len ≡ length name
Written-name_len w = ground (arith, w.named)

-- The bytes that the splitting of an entry keeps.
module _ (buf : List ℕ) (off real ino : ℕ) (name : CString)
    (fits : off + real + Dirent.size + length name ≤ length buf) (behind : 8 ≤ real)
    (short : length name < 256) (small : ino < 2 ^ 32) (less : real < get buf off Dirent.len)
    (len_small : get buf off Dirent.len < 2 ^ 16) where
  abbrev w : List ℕ
  w = written buf off real ino name fits behind short small less len_small

  abbrev b : List ℕ
  b = split_at buf off real ino name

  pub split_at-keeps :
      (j : ℕ)
      → (j < off + 4) ⊎ (off + 6 ≤ j)
      → (j < off + real) ⊎ (off + real + 8 + length name ≤ j)
      → get_or b j 0 ≡ get_or buf j 0
  split_at-keeps j p q = peek1 _ buf j (
      peek-poke_apart w (off + 4) 2 real j 1 (omega (arith, p))
      ∙ written_apart buf off real ino name fits behind short small less len_small j 1
          (omega (arith, q)))

  pub length-split_at : length b ≡ length buf
  length-split_at =
      length-put w off Dirent.len real
      ∙ length_written buf off real ino name fits behind short small less len_small

  split_at-cut : get b off Dirent.len ≡ real
  split_at-cut =
      peek-poke w (off + 4) 2 real
        (omega (
          arith,
          fits,
          behind,
          length_written buf off real ino name fits behind short small less len_small,
        ))
        (omega (arith, less, len_small))

  -- The entries from the one that was cut.
  pub split_at-Chain :
      {es : List Item}
      → Dirent.size + get buf off Dirent.name_len ≤ real
      → Dirent.size + length name ≤ get buf off Dirent.len - real
      → off + get buf off Dirent.len ≤ length buf
      → Chain buf (off + get buf off Dirent.len) es
      → Chain b off (item_at buf off ∷ record { number = ino; name = name } ∷ es)
  split_at-Chain {es} room more within rest =
      let same : length b ≡ length buf = length-split_at in
      let field : (o u : ℕ)
          → (o + u ≤ 4) ⊎ ((6 ≤ o) × (o + u ≤ 8))
          → peek b (off + o) u ≡ peek buf (off + o) u =
        λ o u h. peek_congr b buf (off + o) u (λ j l m.
          split_at-keeps j (omega (arith, h, l, m)) (inl (omega (arith, h, l, m, behind)))) in
      let names : name_at b off ≡ name_at buf off =
        ap (λ k. slice b (off + 8) k) (field 6 1 (inr (omega arith, omega arith)))
        ∙ slice_congr b buf (off + 8) (get buf off Dirent.name_len) same
            (omega (arith, same, room, fits))
            (λ j l m. split_at-keeps j (inr (omega (arith, l))) (inl (omega (arith, m, room)))) in
      let entry = split_at-Written buf off real ino name fits behind short small less len_small in
      let behind_it : off + real + (get buf off Dirent.len - real) ≡ off + get buf off Dirent.len =
        omega (arith, less) in
      let others : Chain b (off + get buf off Dirent.len) es =
        Chain-congr same
          (λ j l m.
            split_at-keeps j (inr (omega (arith, l, less, behind)))
              (inr (omega (arith, l, more, less))))
          rest in
      Chain-fields (field 0 4 (inl (omega arith))) names split_at-cut
        (field 6 1 (inr (omega arith, omega arith))) room (omega (arith, same, within, less))
        (Chain-fields entry.number (Written-name_at entry) entry.len_is (Written-name_len entry)
          more (omega (arith, same, within, behind_it)) (rw behind_it others))
