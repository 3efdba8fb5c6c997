-- ===== src/Ext2/Directory/Entry.antt =====
-- A directory entry as the stores of src/ext2/ext2dir.c write it.
use fs_playground.Base.{
  take_all, ℕ, ◌+◌, ◌%◌, ◌^◌, ◌≤◌, ◌<◌, ◌≡◌, refl, ◌∙◌, ap, true, ◌&&◌, List, ◌==◌, ◌⊎◌, inl, inr,
  length, CString, bytes_eq, bytes_eq_refl, arith, splice, peek, slice, length-poke, length-splice,
  peek-poke, peek-poke_apart, peek-splice_apart, slice-splice, slice-poke_apart,
}
use fs_playground.Ext2.Directory.{name_at, is_named, put_entry}
use fs_playground.Ext2.Dirent
use fs_playground.Ext2.Layout.{Field, get, put}

pub length-put : (buf : List ℕ) (at : ℕ) (f : Field) (v : ℕ) → length (put buf at f v) ≡ length buf
length-put buf at f v = length-poke buf (at + f.offset) f.width v

-- An entry as it was written.
pub record Written (b : List ℕ) (at ino len : ℕ) (name : CString) : Type 0 where
  pub fits : at + Dirent.size + length name ≤ length b
  pub number : get b at Dirent.ino ≡ ino
  pub len_is : get b at Dirent.len ≡ len
  pub named : is_named b at name ≡ true

module _ (buf : List ℕ) (at ino len : ℕ) (name : CString)
    (fits : at + Dirent.size + length name ≤ length buf) (short : length name < 256)
    (small : ino < 2 ^ 32) (len_small : len < 2 ^ 16) where
  abbrev b₁ : List ℕ
  b₁ = put buf at Dirent.len len

  abbrev b₂ : List ℕ
  b₂ = put b₁ at Dirent.name_len (length name)

  abbrev b₃ : List ℕ
  b₃ = put b₂ at Dirent.type_ind 0

  abbrev b₄ : List ℕ
  b₄ = put b₃ at Dirent.ino ino

  length-b₁ : length b₁ ≡ length buf
  length-b₁ = length-put buf at Dirent.len len

  length-b₂ : length b₂ ≡ length buf
  length-b₂ = length-put b₁ at Dirent.name_len (length name) ∙ length-b₁

  length-b₃ : length b₃ ≡ length buf
  length-b₃ = length-put b₂ at Dirent.type_ind 0 ∙ length-b₂

  length-b₄ : length b₄ ≡ length buf
  length-b₄ = length-put b₃ at Dirent.ino ino ∙ length-b₃

  put_entry_lem : put_entry buf at ino len name ≡ splice b₄ (at + Dirent.size) name
  put_entry_lem =
      let e : length name % 256 ≡ length name = omega arith in rw (e, take_all name) refl

  -- A field that lies before the name is what the fields' stores left.
  field_kept :
      (off w : ℕ)
      → off + w ≤ 8
      → peek (splice b₄ (at + Dirent.size) name) (at + off) w ≡ peek b₄ (at + off) w
  field_kept off w le =
      peek-splice_apart b₄ (at + Dirent.size) name (at + off) w (inl (omega arith))

  number_lem : get (splice b₄ (at + Dirent.size) name) at Dirent.ino ≡ ino
  number_lem =
      field_kept 0 4 (omega arith) ∙ peek-poke b₃ (at + 0) 4 ino (omega (arith, length-b₃)) small

  len_lem : get (splice b₄ (at + Dirent.size) name) at Dirent.len ≡ len
  len_lem =
      field_kept 4 2 (omega arith)
      ∙ peek-poke_apart b₃ (at + 0) 4 ino (at + 4) 2 (inr (omega arith))
      ∙ peek-poke_apart b₂ (at + 7) 1 0 (at + 4) 2 (inl (omega arith))
      ∙ peek-poke_apart b₁ (at + 6) 1 (length name) (at + 4) 2 (inl (omega arith))
      ∙ peek-poke buf (at + 4) 2 len (omega (arith, length-b₁)) len_small

  name_len_lem : get (splice b₄ (at + Dirent.size) name) at Dirent.name_len ≡ length name
  name_len_lem =
      field_kept 6 1 (omega arith)
      ∙ peek-poke_apart b₃ (at + 0) 4 ino (at + 6) 1 (inr (omega arith))
      ∙ peek-poke_apart b₂ (at + 7) 1 0 (at + 6) 1 (inl (omega arith))
      ∙ peek-poke b₁ (at + 6) 1 (length name) (omega (arith, length-b₁)) (omega arith)

  name_lem : name_at (splice b₄ (at + Dirent.size) name) at ≡ name
  name_lem =
      ap (slice (splice b₄ (at + Dirent.size) name) (at + Dirent.size)) name_len_lem
      ∙ slice-splice b₄ (at + Dirent.size) name (omega (arith, length-b₄))

  pub length-put_entry : length (put_entry buf at ino len name) ≡ length buf
  length-put_entry = rw put_entry_lem (length-splice b₄ (at + Dirent.size) name ∙ length-b₄)

  -- The length of the name is stored too.
  pub put_entry-name_len : get (put_entry buf at ino len name) at Dirent.name_len ≡ length name
  put_entry-name_len = rw put_entry_lem name_len_lem

  pub put_entry_apart :
      (o w : ℕ)
      → (o + w ≤ at) ⊎ (at + Dirent.size + length name ≤ o)
      → peek (put_entry buf at ino len name) o w ≡ peek buf o w
  put_entry_apart o w h = rw put_entry_lem (
      peek-splice_apart b₄ (at + Dirent.size) name o w (omega (arith, h))
      ∙ peek-poke_apart b₃ (at + 0) 4 ino o w (omega (arith, h))
      ∙ peek-poke_apart b₂ (at + 7) 1 0 o w (omega (arith, h))
      ∙ peek-poke_apart b₁ (at + 6) 1 (length name) o w (omega (arith, h))
      ∙ peek-poke_apart buf (at + 4) 2 len o w (omega (arith, h)))

  pub put_entry-Written : Written (put_entry buf at ino len name) at ino len name
  put_entry-Written = rw put_entry_lem (record {
    fits = omega (arith, length-splice b₄ (at + Dirent.size) name, length-b₄);
    number = number_lem;
    len_is = len_lem;
    named = ground (arith, name_len_lem, name_lem, bytes_eq_refl name);
  })

-- Equal values for a name's length and bytes name the same.
is_named_congr :
    (a b : List ℕ) (at : ℕ) (name : CString)
    → get a at Dirent.name_len ≡ get b at Dirent.name_len
    → name_at a at ≡ name_at b at
    → is_named a at name ≡ is_named b at name
is_named_congr a b at name e f =
    ap (λ n. (n == length name) && bytes_eq (name_at a at) name) e
    ∙ ap (λ m. (get b at Dirent.name_len == length name) && bytes_eq m name) f

-- A store to the length of an entry before leaves an entry.
pub put_len-Written :
    {b : List ℕ} {at ino len : ℕ} {name : CString} (off v : ℕ)
    → off + 6 ≤ at
    → length name < 256
    → get b at Dirent.name_len ≡ length name
    → Written b at ino len name
    → Written (put b off Dirent.len v) at ino len name
put_len-Written {b} {at} {ino} {len} {name} off v le short n w =
    let apart : (o u : ℕ) → peek (put b off Dirent.len v) (at + o) u ≡ peek b (at + o) u =
      λ o u. peek-poke_apart b (off + 4) 2 v (at + o) u (inr (omega arith)) in
    let names : name_at (put b off Dirent.len v) at ≡ name_at b at =
      ap (slice (put b off Dirent.len v) (at + 8)) (apart 6 1)
      ∙ slice-poke_apart b (off + 4) 2 v (at + 8) (get b at Dirent.name_len) (inr (omega arith))
          (omega (arith, n, w.fits)) in
    record {
      fits = omega (arith, w.fits, length-put b off Dirent.len v);
      number = apart 0 4 ∙ w.number;
      len_is = apart 4 2 ∙ w.len_is;
      named = is_named_congr (put b off Dirent.len v) b at name (apart 6 1) names ∙ w.named;
    }
