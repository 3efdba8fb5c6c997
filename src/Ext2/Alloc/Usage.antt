-- ===== src/Ext2/Alloc/Usage.antt =====
-- What an allocation of src/ext2/ext2alloc.c that returns 0 has found, and what it has counted.
use fs_playground.Base.{
  ℕ, zero, suc, ◌+◌, ◌*◌, ◌≡◌, ◌∙◌, ap, false, Option, List, length, leb, ◌==◌, Bool-cases, inl,
  inr, arith, ℤ, is_neg, slice,
}
use fs_playground.Blk.{Blkdev, blk_read, blk_write}
use fs_playground.Command.{Run, ok, fault, out_of_fuel, Program, check}
use fs_playground.Command.Laws.{and_then-ok}
use fs_playground.Ext2.Alloc.{
  Kind, free_in_group, free_in_all, bitmap_of, write_table, save_table, save_super, save_usage,
}
use fs_playground.Ext2.Block.{Junk, read_block, write_block, write_superblock}
use fs_playground.Ext2.Disk.{Ext2, finish, on_dev, group_field, set_group_field}
use fs_playground.Ext2.Group
use fs_playground.Ext2.Layout.{Field, get, put, u32}
use fs_playground.Ext2.Super

-- The superblock and the table in memory are kept.
pub record Keeps {K : Type 0} (s t : Ext2 K) : Type 0 where
  pub sb : s.sb ≡ t.sb
  pub bgdt : s.bgdt ≡ t.bgdt

module _ {K : Type 0} where
  on_dev-Keeps :
      {A : Type 0} (m : Program K A) (s : Ext2 K) {a : A} {t : Ext2 K}
      → on_dev m s ≡ ok a t
      → Keeps s t
  on_dev-Keeps m s h = finished (m s.dev) s h
    where
      finished :
          {A : Type 0} (r : Run K A) (s : Ext2 K) {a : A} {t : Ext2 K}
          → finish s r ≡ ok a t
          → Keeps s t
      finished (ok a k) s h = record { sb = ground (arith, h); bgdt = ground (arith, h) }
      finished fault s h = absurd (ground (arith, h))
      finished out_of_fuel s h = absurd (ground (arith, h))

  pub Keeps-refl : {s t : Ext2 K} → s ≡ t → Keeps s t
  Keeps-refl e = record { sb = ap (λ (x : Ext2 K). x.sb) e; bgdt = ap (λ (x : Ext2 K). x.bgdt) e }

  pub Keeps-trans : {s t u : Ext2 K} → Keeps s t → Keeps t u → Keeps s u
  Keeps-trans a b = record { sb = a.sb ∙ b.sb; bgdt = a.bgdt ∙ b.bgdt }

  pub group_field_ok :
      (group : ℕ) (f : Field) (s : Ext2 K) {v : ℕ} {t : Ext2 K}
      → group_field group f s ≡ ok v t
      → (get s.bgdt (group * Group.size) f ≡ v) × (s ≡ t)
  unfolding group_field check
  group_field_ok group f s h = elim (Bool-cases (leb ((group + 1) * Group.size) (length s.bgdt))) [
    | inl a ↦ let h' = rw a at h in (ground (arith, h'), ground (arith, h'))
    | inr a ↦ let h' = rw a at h in absurd (ground (arith, h'))
  ]

  set_group_field_ok :
      (group : ℕ) (f : Field) (v : ℕ) (s : Ext2 K) {u : Unit {0}} {t : Ext2 K}
      → set_group_field group f v s ≡ ok u t
      → record s { bgdt = put s.bgdt (group * Group.size) f v } ≡ t
  unfolding set_group_field check
  set_group_field_ok group f v s h =
      elim (Bool-cases (leb ((group + 1) * Group.size) (length s.bgdt))) [
        | inl a ↦ let h' = rw a at h in ground (arith, h')
        | inr a ↦ let h' = rw a at h in absurd (ground (arith, h'))
      ]

module _ {K : Type 0} (blk : Option (Blkdev K)) where
  pub read_block-Keeps :
      (block : ℕ) (buf : List ℕ) (s : Ext2 K) {r : ℤ × List ℕ} {t : Ext2 K}
      → read_block blk block buf s ≡ ok r t
      → Keeps s t
  unfolding read_block
  read_block-Keeps block buf s h = elim (Bool-cases (block == 0)) [
    | inl a ↦ let h' = rw a at h in Keeps-refl (ground (arith, h'))
    | inr a ↦
        on_dev-Keeps
          (blk_read blk buf (u32 (block * get s.sb 0 Super.block_size))
            (get s.sb 0 Super.block_size))
          s (rw a at h)
  ]

  write_block-Keeps :
      (block : ℕ) (buf : List ℕ) (s : Ext2 K) {r : ℤ} {t : Ext2 K}
      → write_block blk block buf s ≡ ok r t
      → Keeps s t
  unfolding write_block
  write_block-Keeps block buf s h = elim (Bool-cases (block == 0)) [
    | inl a ↦ let h' = rw a at h in Keeps-refl (ground (arith, h'))
    | inr a ↦
        on_dev-Keeps
          (blk_write blk buf (u32 (block * get s.sb 0 Super.block_size))
            (get s.sb 0 Super.block_size))
          s (rw a at h)
  ]

  write_superblock-Keeps :
      (s : Ext2 K) {r : ℤ} {t : Ext2 K} → write_superblock blk s ≡ ok r t → Keeps s t
  unfolding write_superblock
  write_superblock-Keeps s h = on_dev-Keeps (blk_write blk s.sb 1024 1024) s h

  module _ (junk : Junk) where
    write_table-Keeps :
        (rounds i : ℕ) (s : Ext2 K) {r : ℤ} {t : Ext2 K}
        → write_table blk junk rounds i s ≡ ok r t
        → Keeps s t
    unfolding write_table
    write_table-Keeps zero i s h = Keeps-refl (ground (arith, h))
    write_table-Keeps (suc rounds) i s h =
        let size = get s.sb 0 Super.block_size in
        let block = u32 (get s.sb 0 Super.block_group_descriptor_table_block + i) in
        let bytes = slice s.bgdt (i * size) size in
        let (res, u, e, h') = and_then-ok (write_block blk block bytes s) _ h in
        let kept = write_block-Keeps block bytes s e in
        elim (Bool-cases (is_neg res)) [
          | inl a ↦ let h'' = rw a at h' in Keeps-trans kept (Keeps-refl (ground (arith, h'')))
          | inr a ↦ Keeps-trans kept (write_table-Keeps rounds (suc i) u (rw a at h'))
        ]

    counted_table :
        (kind : Kind) (step16 : ℕ → ℕ) (group : ℕ) (s : Ext2 K) (free : ℕ) (s₁ s₂ t : Ext2 K)
        → get s.bgdt (group * Group.size) (free_in_group kind) ≡ free
        → s ≡ s₁
        → record s₁ { bgdt = put s₁.bgdt (group * Group.size) (free_in_group kind) (step16 free) }
          ≡ s₂
        → Keeps s₂ t
        → put s.bgdt
            (group * Group.size)
            (free_in_group kind)
            (step16 (get s.bgdt (group * Group.size) (free_in_group kind)))
          ≡ t.bgdt
    counted_table kind step16 group s free s₁ s₂ t v same set kept =
        let at = group * Group.size in
        let field = free_in_group kind in
        ap (λ v. put s.bgdt at field (step16 v)) v
        ∙ ap (λ (x : Ext2 K). put x.bgdt at field (step16 free)) same
        ∙ ap (λ (x : Ext2 K). x.bgdt) set
        ∙ kept.bgdt

    save_table_ok :
        (kind : Kind) (step16 : ℕ → ℕ) (group : ℕ) (s : Ext2 K) {r : ℤ} {t : Ext2 K}
        → save_table blk junk kind step16 group s ≡ ok r t
        → let at = group * Group.size in
          (s.sb ≡ t.sb)
          × (put s.bgdt at (free_in_group kind) (step16 (get s.bgdt at (free_in_group kind)))
              ≡ t.bgdt)
    unfolding save_table
    save_table_ok kind step16 group s {r} {t} h =
        let field = free_in_group kind in
        let (free, s₁, e₁, h₁) = and_then-ok (group_field group field s) _ h in
        let (v₁, same₁) = group_field_ok group field s e₁ in
        let (u, s₂, e₂, h₂) = and_then-ok (set_group_field group field (step16 free) s₁) _ h₁ in
        let set₂ = set_group_field_ok group field (step16 free) s₁ e₂ in
        let kept =
          write_table-Keeps (get s₂.sb 0 Super.block_group_descriptor_table_size_blocks) 0 s₂ h₂ in
        (
          ap (λ (x : Ext2 K). x.sb) same₁ ∙ ap (λ (x : Ext2 K). x.sb) set₂ ∙ kept.sb,
          counted_table kind step16 group s free s₁ s₂ t v₁ same₁ set₂ kept,
        )

    save_super_ok :
        (kind : Kind) (step32 : ℕ → ℕ) (s : Ext2 K) {r : ℤ} {t : Ext2 K}
        → save_super blk junk kind step32 s ≡ ok r t
        → (s.bgdt ≡ t.bgdt)
          × (put s.sb 0 (free_in_all kind) (step32 (get s.sb 0 (free_in_all kind))) ≡ t.sb)
    unfolding save_super
    save_super_ok kind step32 s {r} {t} h =
        let count = free_in_all kind in
        let s₁ : Ext2 K = record s { sb = put s.sb 0 count (step32 (get s.sb 0 count)) } in
        let (res, s₂, e, h') = and_then-ok (write_superblock blk s₁) _ h in
        let kept = write_superblock-Keeps s₁ e in
        let last : s₂ ≡ t = ground (arith, h') in
        (kept.bgdt ∙ ap (λ (x : Ext2 K). x.bgdt) last, kept.sb ∙ ap (λ (x : Ext2 K). x.sb) last)

    -- The counts of what is free, changed in the group's descriptor and in the superblock.
    pub record Counted (kind : Kind) (step16 step32 : ℕ → ℕ) (group : ℕ) (s t : Ext2 K)
        : Type 0 where
      pub table :
          put s.bgdt
            (group * Group.size)
            (free_in_group kind)
            (step16 (get s.bgdt (group * Group.size) (free_in_group kind)))
          ≡ t.bgdt
      pub super : put s.sb 0 (free_in_all kind) (step32 (get s.sb 0 (free_in_all kind))) ≡ t.sb

    -- A bitmap was stored in the block where a group's descriptor has it.
    pub record IsStored (kind : Kind) (s : Ext2 K) (group : ℕ) (bitmap : List ℕ) : Type 0 where
      pub res : ℤ
      pub before : Ext2 K
      pub after : Ext2 K
      pub kept : Keeps s before
      pub good : is_neg res ≡ false
      pub ran :
          write_block blk (get s.bgdt (group * Group.size) (bitmap_of kind)) bitmap before
          ≡ ok res after

    bitmap-IsStored :
        (kind : Kind) (group : ℕ) (bitmap : List ℕ) (s s₁ s₂ : Ext2 K) (block : ℕ) (res : ℤ)
        → s ≡ s₁
        → get s.bgdt (group * Group.size) (bitmap_of kind) ≡ block
        → is_neg res ≡ false
        → write_block blk block bitmap s₁ ≡ ok res s₂
        → IsStored kind s group bitmap
    bitmap-IsStored kind group bitmap s s₁ s₂ block res same v good ran = record {
      res = res;
      before = s₁;
      after = s₂;
      kept = Keeps-refl same;
      good = good;
      ran = ap (λ b. write_block blk b bitmap s₁) v ∙ ran;
    }

    counted :
        (kind : Kind) (step16 step32 : ℕ → ℕ) (group : ℕ) (s s₂ s₃ t : Ext2 K)
        → Keeps s s₂
        → (s₂.sb ≡ s₃.sb)
          × (put s₂.bgdt
                (group * Group.size)
                (free_in_group kind)
                (step16 (get s₂.bgdt (group * Group.size) (free_in_group kind)))
              ≡ s₃.bgdt)
        → (s₃.bgdt ≡ t.bgdt)
          × (put s₃.sb 0 (free_in_all kind) (step32 (get s₃.sb 0 (free_in_all kind))) ≡ t.sb)
        → Counted kind step16 step32 group s t
    counted kind step16 step32 group s s₂ s₃ t kept (sb, bgdt) (bgdt', sb') =
        let at = group * Group.size in
        let field = free_in_group kind in
        let count = free_in_all kind in
        record {
          table = ap (λ b. put b at field (step16 (get b at field))) kept.bgdt ∙ bgdt ∙ bgdt';
          super = ap (λ b. put b 0 count (step32 (get b 0 count))) (kept.sb ∙ sb) ∙ sb';
        }

    pub save_usage-Counted :
        (kind : Kind) (step16 step32 : ℕ → ℕ) (group : ℕ) (bitmap : List ℕ) (s : Ext2 K) {r : ℤ}
        {t : Ext2 K}
        → save_usage blk junk kind step16 step32 group bitmap s ≡ ok r t
        → is_neg r ≡ false
        → Counted kind step16 step32 group s t × IsStored kind s group bitmap
    unfolding save_usage
    save_usage-Counted kind step16 step32 group bitmap s {r} {t} h good =
        let (block, s₁, e₁, h₁) = and_then-ok (group_field group (bitmap_of kind) s) _ h in
        let (v₁, same₁) = group_field_ok group (bitmap_of kind) s e₁ in
        let (res, s₂, e₂, h₂) = and_then-ok (write_block blk block bitmap s₁) _ h₁ in
        let kept₂ = Keeps-trans (Keeps-refl same₁) (write_block-Keeps block bitmap s₁ e₂) in
        elim (Bool-cases (is_neg res)) [
          | inl a ↦ let h' = rw a at h₂ in absurd (ground (arith, h', a, good))
          | inr a ↦
              let h₃ = rw a at h₂ in
              let (res', s₃, e₃, h₄) =
                and_then-ok (save_table blk junk kind step16 group s₂) _ h₃ in
              elim (Bool-cases (is_neg res')) [
                | inl b ↦ let h' = rw b at h₄ in absurd (ground (arith, h', b, good))
                | inr b ↦ (
                  counted kind step16 step32 group s s₂ s₃ t kept₂
                      (save_table_ok kind step16 group s₂ e₃)
                      (save_super_ok kind step32 s₃ (rw b at h₄)),
                  bitmap-IsStored kind group bitmap s s₁ s₂ block res same₁ v₁ a e₂,
                )
              ]
        ]
