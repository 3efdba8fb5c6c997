-- ===== src/Ext2/Alloc/Found.antt =====
-- What the search over the groups in src/ext2/ext2alloc.c has found, and where it read it.
use fs_playground.Base.{
  ℕ, zero, suc, ◌+◌, ◌*◌, ◌/◌, ◌<◌, ◌≡◌, ◌≢◌, ◌∙◌, ap, sym, false, Option, some, List, ◌==◌,
  Bool-cases, ◌⊎◌, inl, inr, arith, ℤ, pos, is_neg, Option-cases,
}
use fs_playground.Blk.{Blkdev}
use fs_playground.Command.{ok, pure}
use fs_playground.Command.Laws.{and_then-ok}
use fs_playground.Ext2.Alloc.{Kind, find_bit, Hit, find_free, free_in_group, bitmap_of, group_size}
use fs_playground.Ext2.Alloc.Search.{IsFree, find_bit_same, find_bit-IsFree}
use fs_playground.Ext2.Block.{Junk, read_block}
use fs_playground.Ext2.Disk.{Ext2, group_field}
use fs_playground.Ext2.Group
use fs_playground.Ext2.Layout.{get}
use fs_playground.Ext2.Super
use fs_playground.Ext2.Alloc.Usage.{
  Keeps, Keeps-refl, Keeps-trans, group_field_ok, read_block-Keeps,
}

module _ {K : Type 0} (blk : Option (Blkdev K)) (junk : Junk) where
  -- A bitmap was read from the block where a group's descriptor has it.
  pub record IsRead (kind : Kind) (s : Ext2 K) (group : ℕ) (bitmap : List ℕ) : Type 0 where
    pub buf : List ℕ
    pub res : ℤ
    pub before : Ext2 K
    pub after : Ext2 K
    pub kept : Keeps s before
    pub good : is_neg res ≡ false
    pub ran :
        read_block blk (get s.bgdt (group * Group.size) (bitmap_of kind)) buf before
        ≡ ok (res, bitmap) after

  -- A group with something free, and a number in it that is clear in the bitmap that was read.
  pub record Found (kind : Kind) (s : Ext2 K) (groups : ℕ) (hit : Hit) : Type 0 where
    pub group_small : hit.group < groups
    pub some_free : get s.bgdt (hit.group * Group.size) (free_in_group kind) ≢ 0
    pub free : IsFree hit.bitmap 0 hit.in_group
    pub in_block : hit.in_group / 64 < get s.sb 0 Super.block_size / 8
    pub source : IsRead kind s hit.group hit.bitmap

  pub bitmap-IsRead :
      (kind : Kind) (i : ℕ) (s s₁ s₂ s₃ : Ext2 K) (block : ℕ) (buf : List ℕ) (r : ℤ × List ℕ)
      → s ≡ s₁
      → s₁ ≡ s₂
      → get s₁.bgdt (i * Group.size) (bitmap_of kind) ≡ block
      → is_neg r.0 ≡ false
      → read_block blk block buf s₂ ≡ ok r s₃
      → IsRead kind s i r.1
  bitmap-IsRead kind i s s₁ s₂ s₃ block buf r same same' v good ran =
      let at = ap (λ (x : Ext2 K). get x.bgdt (i * Group.size) (bitmap_of kind)) same ∙ v in
      record {
        buf = buf;
        res = r.0;
        before = s₂;
        after = s₃;
        kept = Keeps-refl (same ∙ same');
        good = good;
        ran = ap (λ b. read_block blk b buf s₂) at ∙ ran;
      }

  IsRead-before :
      (kind : Kind) (s u : Ext2 K) (group : ℕ) (bitmap : List ℕ)
      → Keeps s u
      → IsRead kind u group bitmap
      → IsRead kind s group bitmap
  IsRead-before kind s u group bitmap kept r =
      let at = ap (λ b. get b (group * Group.size) (bitmap_of kind)) kept.bgdt in
      record {
        buf = r.buf;
        res = r.res;
        before = r.before;
        after = r.after;
        kept = Keeps-trans kept r.kept;
        good = r.good;
        ran = ap (λ b. read_block blk b r.buf r.before) at ∙ r.ran;
      }

  hit_found :
      (kind : Kind) (i : ℕ) (s s₁ s₃ s₄ t : Ext2 K) (free n : ℕ) (bitmap : List ℕ) (hit : Hit)
      {res : ℤ}
      → get s.bgdt (i * Group.size) (free_in_group kind) ≡ free
      → (free == 0) ≡ false
      → Keeps s s₃
      → s₃ ≡ s₄
      → IsRead kind s i bitmap
      → find_bit kind
          (i * get s₃.sb 0 (group_size kind))
          (get s₃.sb 0 Super.block_size / 8)
          bitmap
          0
          s₃
        ≡ ok (some n) s₄
      → pure {A = ℤ × Option Hit}
          (pos 0, some (record { group = i; in_group = n; bitmap = bitmap }))
          s₄
        ≡ ok (res, some hit) t
      → Keeps s t
        × (hit.group ≡ i)
        × (get s.bgdt (i * Group.size) (free_in_group kind) ≢ 0)
        × IsFree hit.bitmap 0 hit.in_group
        × (hit.in_group / 64 < get s.sb 0 Super.block_size / 8)
        × IsRead kind s i hit.bitmap
  hit_found kind i s s₁ s₃ s₄ t free n bitmap hit v some_free kept same read e h =
      let (f, lt, _) = find_bit-IsFree kind _ _ bitmap 0 s₃ e in
      let size : get s.sb 0 Super.block_size ≡ get s₃.sb 0 Super.block_size =
        ap (λ b. get b 0 Super.block_size) kept.sb in
      let new : Hit = record { group = i; in_group = n; bitmap = bitmap } in
      let here : new ≡ hit = ground (arith, h) in
      let last : s₄ ≡ t = ground (arith, h) in
      (
        Keeps-trans kept (Keeps-refl (same ∙ last)),
        ap (λ (x : Hit). x.group) (sym here),
        ground (arith, v, some_free),
        rw (sym here) f,
        rw (sym here) (omega (arith, lt, size)),
        rw (sym here) read,
      )

  find_free_step :
      (kind : Kind) (rounds i : ℕ) (buf : List ℕ) (s : Ext2 K) {res : ℤ} {hit : Hit} {t : Ext2 K}
      → find_free blk junk kind (suc rounds) i buf s ≡ ok (res, some hit) t
      → ((b : List ℕ) × (u : Ext2 K) × Keeps s u
          × (find_free blk junk kind rounds (suc i) b u ≡ ok (res, some hit) t))
        ⊎ (Keeps s t
            × (hit.group ≡ i)
            × (get s.bgdt (i * Group.size) (free_in_group kind) ≢ 0)
            × IsFree hit.bitmap 0 hit.in_group
            × (hit.in_group / 64 < get s.sb 0 Super.block_size / 8)
            × IsRead kind s i hit.bitmap)
  unfolding find_free
  find_free_step kind rounds i buf s {res} {hit} {t} h =
      let (free, s₁, e₁, h₁) = and_then-ok (group_field i (free_in_group kind) s) _ h in
      let (v₁, same₁) = group_field_ok i (free_in_group kind) s e₁ in
      elim (Bool-cases (free == 0)) [
        | inl a ↦ inl (buf, s₁, Keeps-refl same₁, rw a at h₁)
        | inr a ↦
            let h₂ = rw a at h₁ in
            let (block, s₂, e₂, h₃) = and_then-ok (group_field i (bitmap_of kind) s₁) _ h₂ in
            let (v₂, same₂) = group_field_ok i (bitmap_of kind) s₁ e₂ in
            let (r, s₃, e₃, h₄) = and_then-ok (read_block blk block buf s₂) _ h₃ in
            let kept₃ =
              Keeps-trans (Keeps-refl (same₁ ∙ same₂)) (read_block-Keeps blk block buf s₂ e₃) in
            elim (Bool-cases (is_neg r.0)) [
              | inl b ↦ let h' = rw b at h₄ in absurd (ground (arith, h'))
              | inr b ↦
                  let h₅ = rw b at h₄ in
                  let (found, s₄, e₄, h₆) =
                    and_then-ok
                      (find_bit kind (i * get s₃.sb 0 (group_size kind))
                        (get s₃.sb 0 Super.block_size / 8) r.1 0 s₃)
                      _ h₅ in
                  let same₄ =
                    find_bit_same kind (i * get s₃.sb 0 (group_size kind))
                      (get s₃.sb 0 Super.block_size / 8) r.1 0 s₃ e₄ in
                  elim (Option-cases found) [
                    | inl z ↦ inl (r.1, s₄, Keeps-trans kept₃ (Keeps-refl same₄), rw z at h₆)
                    | inr (n, z) ↦ inr (
                        hit_found kind i s s₁ s₃ s₄ t free n r.1 hit v₁ a kept₃ same₄
                          (bitmap-IsRead kind i s s₁ s₂ s₃ block buf r same₁ same₂ v₂ b e₃)
                          (rw z at e₄) (rw z at h₆))
                  ]
            ]
      ]

  found_before :
      (kind : Kind) (s u : Ext2 K) (groups groups' : ℕ) (hit : Hit)
      → groups ≡ groups'
      → Keeps s u
      → Found kind u groups hit
      → Found kind s groups' hit
  found_before kind s u groups groups' hit e kept f = record {
    group_small = omega (arith, e, f.group_small);
    some_free = λ z.
        f.some_free
          (ap (λ b. get b (hit.group * Group.size) (free_in_group kind)) (sym kept.bgdt) ∙ z);
    free = f.free;
    in_block = omega (arith, f.in_block, ap (λ b. get b 0 Super.block_size) kept.sb);
    source = IsRead-before kind s u hit.group hit.bitmap kept f.source;
  }

  pub find_free-Found :
      (kind : Kind) (rounds i : ℕ) (buf : List ℕ) (s : Ext2 K) {res : ℤ} {hit : Hit} {t : Ext2 K}
      → find_free blk junk kind rounds i buf s ≡ ok (res, some hit) t
      → Found kind s (i + rounds) hit × Keeps s t
  unfolding find_free
  find_free-Found kind zero i buf s h = absurd (ground (arith, h))
  find_free-Found kind (suc rounds) i buf s h = elim (find_free_step kind rounds i buf s h) [
    | inl (b, u, kept, more) ↦
        let (f, kept') = find_free-Found kind rounds (suc i) b u more in
        (
          found_before kind s u (suc i + rounds) (i + suc rounds) _ (omega arith) kept f,
          Keeps-trans kept kept',
        )
    | inr (kept, e, some_free, free, lt, read) ↦ (
      record {
        group_small = omega (arith, e);
        some_free = rw e some_free;
        free = free;
        in_block = lt;
        source = rw e read;
      },
      kept,
    )
  ]
