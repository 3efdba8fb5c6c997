-- ===== src/Ext2/Directory/Added.antt =====
-- A lookup in a directory's block after an entry was added: src/ext2/ext2dir.c with the search of
-- src/ext2/ext2vnop.c.
use fs_playground.Base.{
  ℕ, zero, suc, ◌+◌, ◌-◌, ◌^◌, ◌≤◌, ◌<◌, ◌≡◌, refl, ◌∙◌, sym, ap, Bool, true, false, none, some,
  List, [], ◌∷◌, if◌then◌else◌, inl, inr, length, CString, bytes_eq, arith, peek_lt, AreBytes,
}
use fs_playground.Command.{ok, fault, out_of_fuel}
use fs_playground.Ext2.Directory.{entry_space, placed, place_entry}
use fs_playground.Ext2.Directory.Chain.{
  Item, item_at, Chain, end, item, Grown, here, later, Same, Chain-keep,
}
use fs_playground.Ext2.Directory.Insert.{split_at, place_entry_step}
use fs_playground.Ext2.Directory.Lookup.{lookup, lookup-Grown, find_entry-Chain}
use fs_playground.Ext2.Directory.Split.{split_at-Chain, split_at-keeps, length-split_at}
use fs_playground.Ext2.Dirent
use fs_playground.Ext2.Disk.{Ext2}
use fs_playground.Ext2.Layout.{get}
use fs_playground.Ext2.Node.{find_entry}

-- The block's entries from an offset, after an item was added to them.
record Adds (buf b : List ℕ) (off : ℕ) (x : Item) (es : List Item) : Type 0 where
  pub now : List Item
  pub grown : Grown x es now
  pub chain : Chain b off now
  pub below : Same b buf 0 off
  pub same_length : length b ≡ length buf

no_growth : {x : Item} {es' : List Item} {A : Type 0} → Grown x [] es' → A
no_growth g = elim g [ ]

split_at-Adds :
    (buf : List ℕ) (off real ino : ℕ) (name : CString) {es : List Item}
    → off + real + Dirent.size + length name ≤ length buf
    → 8 ≤ real
    → length name < 256
    → ino < 2 ^ 32
    → real < get buf off Dirent.len
    → get buf off Dirent.len < 2 ^ 16
    → Dirent.size + get buf off Dirent.name_len ≤ real
    → Dirent.size + length name ≤ get buf off Dirent.len - real
    → off + get buf off Dirent.len ≤ length buf
    → Chain buf (off + get buf off Dirent.len) es
    → Adds buf
        (split_at buf off real ino name)
        off
        (record { number = ino; name = name })
        (item_at buf off ∷ es)
split_at-Adds buf off real ino name {es} fits behind short small less len_small room more inside
      rest =
    record {
      now = item_at buf off ∷ record { number = ino; name = name } ∷ es;
      grown = here (item_at buf off) es;
      chain =
          split_at-Chain buf off real ino name fits behind short small less len_small room more
            inside rest;
      below = λ j l m.
          split_at-keeps buf off real ino name fits behind short small less len_small j
            (inl (omega arith)) (inl (omega arith));
      same_length = length-split_at buf off real ino name fits behind short small less len_small;
    }

Grown-length :
    {x : Item} {buf : List ℕ} {es es' : List Item}
    → Grown x es es'
    → Chain buf 0 es
    → 0 < length buf
Grown-length g (end le) = no_growth g
Grown-length g (item whole inside rest) = omega (arith, whole, inside)

ok_value : {S A : Type 0} {a b : A} {s t : S} → ok a s ≡ ok b t → a ≡ b
ok_value {A} {a} {b} h = ap (λ r. elim r as (λ _. A) [ ok x _ ↦ x | fault ↦ a | out_of_fuel ↦ a ]) h

ok-if :
    {S A : Type 0} (c : Bool) (a b : A) (s : S)
    → ok (if c then a else b) s ≡ (if c then ok a s else ok b s)
ok-if true a b s = refl
ok-if false a b s = refl

module _ {K : Type 0} (dirent_size : ℕ) where
  place_entry-Adds :
      (n : ℕ) (buf : List ℕ) (off : ℕ) (name : CString) (ino : ℕ) (s : Ext2 K) {b : List ℕ}
      {t : Ext2 K} {es : List Item}
      → AreBytes buf
      → length name < 256
      → ino < 2 ^ 32
      → 8 ≤ dirent_size
      → Chain buf off es
      → place_entry dirent_size n buf off name ino s ≡ ok (placed b) t
      → Adds buf b off (record { number = ino; name = name }) es
  unfolding place_entry
  place_entry-Adds zero buf off name ino s bytes short small d chain h = absurd (ground (arith, h))
  place_entry-Adds (suc n) buf off name ino s bytes short small d (end le) h =
      elim (place_entry_step dirent_size n buf off name ino s h) [
        | inl more ↦
            no_growth
              (place_entry-Adds n buf (off + get buf off Dirent.len) name ino s bytes short small d
                (end (omega (arith, le))) more).grown
        | inr (less, room, fits, e, same) ↦ absurd (omega (arith, fits, le))
      ]
  place_entry-Adds (suc n) buf off name ino s {b} bytes short small d (item {es} whole inside rest)
        h =
      elim (place_entry_step dirent_size n buf off name ino s h) [
        | inl more ↦
            let r =
              place_entry-Adds n buf (off + get buf off Dirent.len) name ino s bytes short small d
                rest more in
            record {
              now = item_at buf off ∷ r.now;
              grown = later (item_at buf off) r.grown;
              chain =
                  Chain-keep b buf off (off + get buf off Dirent.len) r.same_length
                    (λ j l m. r.below j (omega arith) m) (omega arith) inside whole r.chain;
              below = λ j l m. r.below j l (omega (arith, m));
              same_length = r.same_length;
            }
        | inr (less, room, fits, e, same) ↦ rw (sym e) (
            split_at-Adds buf off (entry_space (get buf off Dirent.name_len) dirent_size) ino name
              (omega (arith, fits, short)) (omega (arith, d)) short small less
              (peek_lt buf (off + 4) 2 bytes) (omega (arith, d)) (omega (arith, room)) inside rest)
      ]

  pub length-place_entry :
      (n : ℕ) (buf : List ℕ) (off : ℕ) (name : CString) (ino : ℕ) (s : Ext2 K) {b : List ℕ}
      {t : Ext2 K} {es : List Item}
      → AreBytes buf
      → length name < 256
      → ino < 2 ^ 32
      → 8 ≤ dirent_size
      → Chain buf off es
      → place_entry dirent_size n buf off name ino s ≡ ok (placed b) t
      → length b ≡ length buf
  length-place_entry n buf off name ino s bytes short small d chain h =
      (place_entry-Adds n buf off name ino s bytes short small d chain h).same_length

  -- In a block of bytes whose entries follow on each other to its end, each with room for its name,
  -- a name of less than 256 bytes is not found, sizeof(struct dirent) is at least 8, and
  -- ext2_dir_add_inode places it for an inode other than 0: then a search of the new block finds
  -- that inode under the name, and every other name as in the block before.
  pub find_entry-place_entry :
      (rounds : ℕ) (buf : List ℕ) (name other : CString) (ino : ℕ) (s u : Ext2 K) {b : List ℕ}
      {t : Ext2 K} {es : List Item}
      → AreBytes buf
      → length name < 256
      → 0 < ino
      → ino < 2 ^ 32
      → 8 ≤ dirent_size
      → Chain buf 0 es
      → find_entry (suc (length buf)) buf 0 name u ≡ ok none u
      → place_entry dirent_size rounds buf 0 name ino s ≡ ok (placed b) t
      → find_entry (suc (length b)) b 0 other u ≡ (
          if bytes_eq name other
          then ok (some ino) u
          else find_entry (suc (length buf)) buf 0 other u)
  find_entry-place_entry rounds buf name other ino s u {b} {es} bytes short used small d chain
        absent h =
      let r = place_entry-Adds rounds buf 0 name ino s bytes short small d chain h in
      let some_bytes = Grown-length r.grown chain in
      let before : (n : CString) → find_entry (suc (length buf)) buf 0 n u ≡ ok (lookup n es) u =
        λ n. find_entry-Chain (suc (length buf)) buf 0 n u chain some_bytes (omega arith) in
      let after =
        find_entry-Chain (suc (length b)) b 0 other u r.chain
          (omega (arith, r.same_length, some_bytes)) (omega arith) in
      let missing : lookup name es ≡ none = ok_value (sym (before name) ∙ absent) in
      let found = lookup-Grown ino name other r.grown used missing in
      after ∙ rw (found, before other) (ok-if (bytes_eq name other) (some ino) (lookup other es) u)
