-- ===== src/Ext2/Alloc/Taken.antt =====
-- ext2_alloc_block and ext2_alloc_inode of src/ext2/ext2alloc.c where they return 0.
use fs_playground.Base.{
  ℕ, ◌+◌, ◌-◌, ◌*◌, ◌/◌, ◌%◌, ◌^◌, ◌≡◌, ◌∙◌, ap, sym, Option, List, leb, Bool-cases, inl, inr,
  arith, pos, is_neg, Option-cases, length,
}
use fs_playground.Blk.{Blkdev}
use fs_playground.Command.{ok}
use fs_playground.Command.Laws.{and_then-ok}
use fs_playground.Ext2.Alloc.{
  Kind, word, set_word, Hit, find_free, group_size, free_in_group, free_in_all, bitmap_of,
  save_usage, take_hit, allocate,
}
use fs_playground.Ext2.Alloc.Usage.{Keeps, Keeps-trans, Counted, IsStored, save_usage-Counted}
use fs_playground.Ext2.Alloc.Found.{Found, find_free-Found}
use fs_playground.Ext2.Block.{Junk, write_block}
use fs_playground.Ext2.Disk.{Ext2, within}
use fs_playground.Ext2.Group
use fs_playground.Ext2.Layout.{get, put, u32, pred32, set_bit}
use fs_playground.Ext2.Super

-- The bitmap with the number that was found set.
abbrev marked : Hit → List ℕ
marked hit =
    set_word hit.bitmap (hit.in_group / 64)
      (set_bit (word hit.bitmap (hit.in_group / 64)) (hit.in_group % 64))

module _ {K : Type 0} (blk : Option (Blkdev K)) (junk : Junk) where
  -- The number that is given out stands for what was free, and one less is free.
  pub record Taken (kind : Kind) (s t : Ext2 K) (number : ℕ) (hit : Hit) : Type 0 where
    pub found : Found blk junk kind s (get s.sb 0 Super.block_group_count) hit
    pub number_is : number ≡ u32 (hit.in_group + hit.group * get s.sb 0 (group_size kind) + 1)
    pub stored : IsStored blk junk kind s hit.group (marked hit)
    pub counted : Counted blk junk kind (λ n. (n + (2 ^ 16 - 1)) % 2 ^ 16) pred32 hit.group s t

  take_hit_ok :
      (kind : Kind) (hit : Hit) (s : Ext2 K) {number : ℕ} {t : Ext2 K}
      → take_hit blk junk kind hit s ≡ ok (pos 0, number) t
      → (number ≡ u32 (hit.in_group + hit.group * get s.sb 0 (group_size kind) + 1))
        × Counted blk junk kind (λ n. (n + (2 ^ 16 - 1)) % 2 ^ 16) pred32 hit.group s t
        × IsStored blk junk kind s hit.group (marked hit)
  unfolding take_hit within
  take_hit_ok kind hit s {number} {t} h =
      let j = hit.in_group / 64 in
      let used = set_word hit.bitmap j (set_bit (word hit.bitmap j) (hit.in_group % 64)) in
      elim (Bool-cases (leb (8 * j + 8) (length hit.bitmap))) [
        | inr a ↦ let h' = rw a at h in absurd (ground (arith, h'))
        | inl a ↦
            let h₁ = rw a at h in
            let (saved, u, e, h₂) =
              and_then-ok
                (save_usage blk junk kind (λ n. (n + (2 ^ 16 - 1)) % 2 ^ 16) pred32 hit.group used
                  s)
                _ h₁ in
            elim (Bool-cases (is_neg saved)) [
              | inl b ↦ let h' = rw b at h₂ in absurd (ground (arith, h', b))
              | inr b ↦
                  let h' = rw b at h₂ in
                  let last : u ≡ t = ground (arith, h') in
                  let saved_as = save_usage-Counted blk junk kind _ _ hit.group used s e b in
                  (ground (arith, h'), counted_to kind hit.group s u t last saved_as.0, saved_as.1)
            ]
      ]
    where
      counted_to :
          (kind : Kind) (group : ℕ) (s u t : Ext2 K)
          → u ≡ t
          → Counted blk junk kind (λ n. (n + (2 ^ 16 - 1)) % 2 ^ 16) pred32 group s u
          → Counted blk junk kind (λ n. (n + (2 ^ 16 - 1)) % 2 ^ 16) pred32 group s t
      counted_to kind group s u t e c = rw (sym e) c

  taken :
      (kind : Kind) (s u t : Ext2 K) (number : ℕ) (hit : Hit)
      → Found blk junk kind s (0 + get s.sb 0 Super.block_group_count) hit × Keeps s u
      → (number ≡ u32 (hit.in_group + hit.group * get u.sb 0 (group_size kind) + 1))
        × Counted blk junk kind (λ n. (n + (2 ^ 16 - 1)) % 2 ^ 16) pred32 hit.group u t
        × IsStored blk junk kind u hit.group (marked hit)
      → Taken kind s t number hit
  taken kind s u t number hit (f, kept) (e, c, w) =
      let at = hit.group * Group.size in
      let field = free_in_group kind in
      let count = free_in_all kind in
      record {
        found = record {
          group_small = omega (arith, f.group_small);
          some_free = f.some_free;
          free = f.free;
          in_block = f.in_block;
          source = f.source;
        };
        number_is =
            e
            ∙ ap (λ b. u32 (hit.in_group + hit.group * get b 0 (group_size kind) + 1))
                (sym kept.sb);
        stored = record {
          res = w.res;
          before = w.before;
          after = w.after;
          kept = Keeps-trans kept w.kept;
          good = w.good;
          ran =
              ap (λ b. write_block blk (get b at (bitmap_of kind)) (marked hit) w.before) kept.bgdt
              ∙ w.ran;
        };
        counted = record {
          table =
              ap (λ b. put b at field ((get b at field + (2 ^ 16 - 1)) % 2 ^ 16)) kept.bgdt
              ∙ c.table;
          super = ap (λ b. put b 0 count (pred32 (get b 0 count))) kept.sb ∙ c.super;
        };
      }

  -- If an allocation of a block or an inode returns 0, the number stands for a group that had
  -- something free and for a bit below 31 of a word of the bitmap that was read from the group's
  -- bitmap block, clear where every lower bit of the word was set; the bitmap with that bit set was
  -- written to the block, and both the group's count and the superblock's count are one less, and
  -- no other byte of the table or the superblock in memory is changed.
  pub allocate-Taken :
      (kind : Kind) (s : Ext2 K) {number : ℕ} {t : Ext2 K}
      → allocate blk junk kind s ≡ ok (pos 0, number) t
      → (hit : Hit) × Taken kind s t number hit
  unfolding allocate
  allocate-Taken kind s {number} {t} h =
      let groups = get s.sb 0 Super.block_group_count in
      let (r, u, e, h₁) =
        and_then-ok (find_free blk junk kind groups 0 (junk (get s.sb 0 Super.block_size)) s) _ h in
      elim (Bool-cases (is_neg r.0)) [
        | inl a ↦ let h' = rw a at h₁ in absurd (ground (arith, h', a))
        | inr a ↦
            let h₂ = rw a at h₁ in
            elim (Option-cases r.1) [
              | inl z ↦ let h' = rw z at h₂ in absurd (ground (arith, h'))
              | inr (hit, z) ↦ (
                hit,
                taken kind s u t number hit
                    (find_free-Found blk junk kind groups 0 _ s (e ∙ ap (λ o. ok (r.0, o) u) z))
                    (take_hit_ok kind hit u (rw z at h₂)),
              )
            ]
      ]
