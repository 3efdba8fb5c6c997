-- ===== src/Ext2/Directory/Chain.antt =====
-- A directory's block as the list of its entries.
use fs_playground.Base.{
  ℕ, ◌+◌, ◌≤◌, ◌<◌, ◌≡◌, ◌∙◌, ap, sym, List, [], ◌∷◌, length, get_or, CString, arith, peek,
  peek_congr, slice, slice_congr,
}
use fs_playground.Ext2.Directory.{name_at}
use fs_playground.Ext2.Dirent
use fs_playground.Ext2.Layout.{get}

-- An entry as it is seen from outside: the inode's number and the name.
pub record Item : Type 0 where
  pub number : ℕ
  pub name : CString

abbrev pub item_at : List ℕ → ℕ → Item
item_at buf off = record { number = get buf off Dirent.ino; name = name_at buf off }

-- The entries from an offset to the block's end. Each has room for its name, and ends in the block.
pub data Chain (buf : List ℕ) : ℕ → List Item → Type 0 where
  end : {off : ℕ} → length buf ≤ off → Chain buf off []
  item :
      {off : ℕ} {es : List Item}
      → Dirent.size + get buf off Dirent.name_len ≤ get buf off Dirent.len
      → off + get buf off Dirent.len ≤ length buf
      → Chain buf (off + get buf off Dirent.len) es
      → Chain buf off (item_at buf off ∷ es)

-- `es'` is `es` with an item somewhere behind its first.
pub data Grown (x : Item) : List Item → List Item → Type 0 where
  here : (e : Item) (es : List Item) → Grown x (e ∷ es) (e ∷ x ∷ es)
  later : (e : Item) {es es' : List Item} → Grown x es es' → Grown x (e ∷ es) (e ∷ es')

-- The bytes of a range are the same.
abbrev pub Same : List ℕ → List ℕ → ℕ → ℕ → Type 0
Same a b lo hi = (j : ℕ) → lo ≤ j → j < hi → get_or a j 0 ≡ get_or b j 0

pub get_Same :
    (a b : List ℕ) (off o w lo hi : ℕ)
    → Same a b lo hi
    → lo ≤ off + o
    → off + o + w ≤ hi
    → peek a (off + o) w ≡ peek b (off + o) w
get_Same a b off o w lo hi same p q =
    peek_congr a b (off + o) w (λ j l h. same j (omega arith) (omega arith))

name_at_Same :
    (a b : List ℕ) (off hi : ℕ)
    → length a ≡ length b
    → Same a b off hi
    → off + 8 + get b off Dirent.name_len ≤ hi
    → hi ≤ length b
    → name_at a off ≡ name_at b off
name_at_Same a b off hi len same p q =
    let n : get a off Dirent.name_len ≡ get b off Dirent.name_len =
      get_Same a b off 6 1 off hi same (omega arith) (omega (arith, p)) in
    ap (λ k. slice a (off + 8) k) n
    ∙ slice_congr a b (off + 8) (get b off Dirent.name_len) len (omega (arith, len, p, q))
        (λ j l h. same j (omega (arith, l)) (omega (arith, h, p)))

-- An entry by its fields.
pub Chain-fields :
    {b : List ℕ} {off number len n : ℕ} {name : CString} {es : List Item}
    → get b off Dirent.ino ≡ number
    → name_at b off ≡ name
    → get b off Dirent.len ≡ len
    → get b off Dirent.name_len ≡ n
    → Dirent.size + n ≤ len
    → off + len ≤ length b
    → Chain b (off + len) es
    → Chain b off (record { number = number; name = name } ∷ es)
Chain-fields i m l n room fits rest =
    rw (sym i, sym m) (item (rw (n, l) room) (rw l fits) (rw l rest))

-- An entry whose bytes are kept.
pub Chain-keep :
    (a b : List ℕ) (off hi : ℕ) {es : List Item}
    → length a ≡ length b
    → Same a b off hi
    → off + get b off Dirent.len ≤ hi
    → hi ≤ length b
    → Dirent.size + get b off Dirent.name_len ≤ get b off Dirent.len
    → Chain a (off + get b off Dirent.len) es
    → Chain a off (item_at b off ∷ es)
Chain-keep a b off hi {es} len same p q room rest =
    let l : get a off Dirent.len ≡ get b off Dirent.len =
      get_Same a b off 4 2 off hi same (omega arith) (omega (arith, p, room)) in
    let n : get a off Dirent.name_len ≡ get b off Dirent.name_len =
      get_Same a b off 6 1 off hi same (omega arith) (omega (arith, p, room)) in
    let i : get a off Dirent.ino ≡ get b off Dirent.ino =
      get_Same a b off 0 4 off hi same (omega arith) (omega (arith, p, room)) in
    let m : name_at a off ≡ name_at b off =
      name_at_Same a b off hi len same (omega (arith, p, room)) q in
    Chain-fields i m l n room (omega (arith, len, p, q)) rest

-- Entries whose bytes are kept.
pub Chain-congr :
    {a b : List ℕ} {off : ℕ} {es : List Item}
    → length a ≡ length b
    → Same a b off (length b)
    → Chain b off es
    → Chain a off es
Chain-congr len same (end le) = end (rw len le)
Chain-congr {a} {b} {off} len same (item room fits rest) =
    Chain-keep a b off (length b) len same fits (omega arith) room
      (Chain-congr len (λ j l h. same j (omega (arith, l)) h) rest)
