-- ===== src/Ext2/Alloc/Freed.antt =====
-- ext2_free_block and ext2_free_inode of src/ext2/ext2alloc.c where they return no error.
use fs_playground.Base.{
  ℕ, ◌+◌, ◌*◌, ◌/◌, ◌%◌, ◌^◌, ◌<◌, ◌≡◌, ◌≢◌, refl, ◌∙◌, ap, true, false, Option, List, leb, ltb,
  ◌==◌, Bool-cases, inl, inr, arith, ℤ, is_neg, length, bit, clear_bit,
}
use fs_playground.Blk.{Blkdev}
use fs_playground.Command.{ok, check}
use fs_playground.Command.Laws.{and_then-ok}
use fs_playground.Ext2.Alloc.{
  Kind, word, set_word, group_size, free_in_group, free_in_all, bitmap_of, put_back, release,
}
use fs_playground.Ext2.Alloc.Found.{IsRead, bitmap-IsRead}
use fs_playground.Ext2.Alloc.Usage.{
  Keeps, Keeps-refl, Keeps-trans, Counted, IsStored, group_field_ok, read_block-Keeps,
  save_usage-Counted,
}
use fs_playground.Ext2.Block.{Junk, read_block, write_block}
use fs_playground.Ext2.Disk.{Ext2, within, divisor, group_field}
use fs_playground.Ext2.Group
use fs_playground.Ext2.Layout.{get, put, u32, pred32}
use fs_playground.Ext2.Super

-- The bitmap with a number's bit cleared.
abbrev pub unmarked : List ℕ → ℕ → List ℕ
unmarked bitmap n = set_word bitmap (n / 64) (clear_bit (word bitmap (n / 64)) (n % 64))

module _ {K : Type 0} (blk : Option (Blkdev K)) (junk : Junk) (kind : Kind) (number : ℕ) where
  abbrev group_of : Ext2 K → ℕ
  group_of s = pred32 number / get s.sb 0 (group_size kind)

  abbrev in_group_of : Ext2 K → ℕ
  in_group_of s = pred32 number % get s.sb 0 (group_size kind)

  abbrev CountedUp : Ext2 K → Ext2 K → Type 0
  CountedUp s t = Counted blk junk kind (λ n. (n + 1) % 2 ^ 16) (λ n. u32 (n + 1)) (group_of s) s t

  -- The number was in use, and is not any more; one more is free.
  pub record Freed (s t : Ext2 K) : Type 0 where
    pub real : number ≢ 0
    pub bitmap : List ℕ
    pub source : IsRead blk junk kind s (group_of s) bitmap
    pub used : bit (word bitmap (in_group_of s / 64)) (in_group_of s % 64) ≡ true
    pub defined : in_group_of s % 64 < 31
    pub stored : IsStored blk junk kind s (group_of s) (unmarked bitmap (in_group_of s))
    pub counted : CountedUp s t

  freed :
      (s u t : Ext2 K) (bitmap : List ℕ)
      → number ≢ 0
      → Keeps s u
      → IsRead blk junk kind s (group_of s) bitmap
      → (bit (word bitmap (in_group_of s / 64)) (in_group_of s % 64) ≡ true)
        × (in_group_of s % 64 < 31)
        × Counted blk junk kind (λ n. (n + 1) % 2 ^ 16) (λ n. u32 (n + 1)) (group_of s) u t
        × IsStored blk junk kind u (group_of s) (unmarked bitmap (in_group_of s))
      → Freed s t
  freed s u t bitmap real kept source (used, defined, c, w) =
      let at = group_of s * Group.size in
      let field = free_in_group kind in
      let count = free_in_all kind in
      record {
        real = real;
        bitmap = bitmap;
        source = source;
        used = used;
        defined = defined;
        stored = record {
          res = w.res;
          before = w.before;
          after = w.after;
          kept = Keeps-trans kept w.kept;
          good = w.good;
          ran =
              ap
                (λ b.
                  write_block blk (get b at (bitmap_of kind)) (unmarked bitmap (in_group_of s))
                    w.before)
                kept.bgdt
              ∙ w.ran;
        };
        counted = record {
          table = ap (λ b. put b at field ((get b at field + 1) % 2 ^ 16)) kept.bgdt ∙ c.table;
          super = ap (λ b. put b 0 count (u32 (get b 0 count + 1))) kept.sb ∙ c.super;
        };
      }

  put_back_ok :
      (group in_group : ℕ) (bitmap : List ℕ) (s : Ext2 K) {r : ℤ} {t : Ext2 K}
      → put_back blk junk kind group in_group bitmap s ≡ ok r t
      → is_neg r ≡ false
      → (bit (word bitmap (in_group / 64)) (in_group % 64) ≡ true)
        × (in_group % 64 < 31)
        × Counted blk junk kind (λ n. (n + 1) % 2 ^ 16) (λ n. u32 (n + 1)) group s t
        × IsStored blk junk kind s group (unmarked bitmap in_group)
  unfolding put_back within check
  put_back_ok group in_group bitmap s {r} {t} h good =
      let j = in_group / 64 in
      let k = in_group % 64 in
      elim (Bool-cases (leb (8 * j + 8) (length bitmap))) [
        | inr f ↦ let h' = rw f at h in absurd (ground (arith, h'))
        | inl f ↦ elim (Bool-cases (ltb k 31)) [
          | inr g ↦ let h' = rw (f, g) at h in absurd (ground (arith, h'))
          | inl g ↦ elim (Bool-cases (bit (word bitmap j) k)) [
            | inr u ↦ let h' = rw (f, g, u) at h in absurd (ground (arith, h'))
            | inl u ↦
                let (c, w) =
                  save_usage-Counted blk junk kind _ _ group (unmarked bitmap in_group) s
                    (rw (f, g, u) at h) good in
                (u, ground (arith, g), c, w)
          ]
        ]
      ]

  -- If freeing a block or an inode returns no error, its number is not 0, its bit in the bitmap
  -- that was read from its group's bitmap block is below 31 of its word and was set, the bitmap
  -- with that bit cleared was written to the block, and both the group's count and the superblock's
  -- count are one more, and no other byte of the table or the superblock in memory is changed.
  pub release-Freed :
      (s : Ext2 K) {r : ℤ} {t : Ext2 K}
      → release blk junk kind number s ≡ ok r t
      → is_neg r ≡ false
      → Freed s t
  unfolding release divisor check
  release-Freed s {r} {t} h good =
      let per_group = get s.sb 0 (group_size kind) in
      elim (Bool-cases (number == 0)) [
        | inl a ↦ let h' = rw a at h in absurd (ground (arith, h'))
        | inr a ↦ elim (Bool-cases (per_group == 0)) [
          | inl b ↦ let h' = rw (a, b) at h in absurd (ground (arith, h'))
          | inr b ↦
              let h₁ = rw (a, b) at h in
              let (block, s₁, e₁, h₂) =
                and_then-ok (group_field (group_of s) (bitmap_of kind) s) _ h₁ in
              let (v₁, same₁) = group_field_ok (group_of s) (bitmap_of kind) s e₁ in
              let buf = junk (get s.sb 0 Super.block_size) in
              let (res, s₂, e₂, h₃) = and_then-ok (read_block blk block buf s₁) _ h₂ in
              let kept = Keeps-trans (Keeps-refl same₁) (read_block-Keeps blk block buf s₁ e₂) in
              elim (Bool-cases (is_neg res.0)) [
                | inl c ↦ let h' = rw c at h₃ in absurd (ground (arith, h', c, good))
                | inr c ↦
                    freed s s₂ t res.1 (λ z. ground (arith, z, a)) kept
                      (bitmap-IsRead blk junk kind (group_of s) s s s₁ s₂ block buf res refl same₁
                        v₁ c e₂)
                      (put_back_ok (group_of s) (in_group_of s) res.1 s₂ (rw c at h₃) good)
              ]
        ]
      ]
