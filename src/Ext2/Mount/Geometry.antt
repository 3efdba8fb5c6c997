-- ===== src/Ext2/Mount/Geometry.antt =====
-- What ext2_fs_mount of src/ext2/ext2.c computes from a superblock.
use fs_playground.Base.{
  ℕ, ◌+◌, ◌*◌, ◌/◌, ◌^◌, ◌≤◌, ◌<◌, ◌≡◌, ◌≢◌, refl, ◌∙◌, true, false, List, length, ltb, ◌==◌,
  if◌then◌else◌, Bool-cases, inl, inr, arith, peek, peek-poke, peek-poke_apart, length-poke,
  AreBytes, peek_lt,
}
use fs_playground.Command.{ok, check}
use fs_playground.Ext2.Disk.{Ext2, divisor}
use fs_playground.Ext2.Group
use fs_playground.Ext2.Layout.{get, put, u32}
use fs_playground.Ext2.Mount.{group_count, set_geometry}
use fs_playground.Ext2.Super
use native.Mathlib.Nat.{
  one-le-pow, div-lt_iff_lt-mul, div-mul-le_self, lt-div-mul-add, pow-le-pow_right, div-le_self,
  le-mul_of_pos_right,
}

-- For a group size other than 0 and fewer than 2^32 blocks, the groups hold every block, the last
-- of them is not empty, and there are at most as many groups as blocks.
group_count-covers :
    (blocks per_group : ℕ)
    → per_group ≢ 0
    → blocks < 2 ^ 32
    → (blocks ≤ group_count blocks per_group * per_group)
      × (group_count blocks per_group * per_group < blocks + per_group)
      × (group_count blocks per_group ≤ blocks)
group_count-covers blocks per_group ne small =
    let n = blocks / per_group in
    let low : n * per_group ≤ blocks = div-mul-le_self blocks per_group in
    let high : blocks < n * per_group + per_group = lt-div-mul-add (omega (arith, ne)) in
    let few : n ≤ blocks = div-le_self blocks per_group in
    let fits : u32 (n * per_group) ≡ n * per_group = omega arith in
    elim (Bool-cases (ltb (u32 (n * per_group)) blocks)) [
      | inl more ↦
          let less : n * per_group < blocks = ground (arith, more, fits) in
          let one_more : n < blocks =
            omega (arith, le-mul_of_pos_right {m = per_group} n (omega (arith, ne))) in
          let next : (n + 1) * per_group ≡ n * per_group + per_group = omega arith in
          let wide : u32 (n + 1) ≡ n + 1 = omega arith in
          rw (more, wide)
            (omega (arith, next, less), omega (arith, next, less), omega (arith, one_more))
      | inr same ↦ rw same (ground (arith, same, fits), omega (arith, low, ne), few)
    ]

module _ {K : Type 0} where
  -- What is computed: the bytes in a block, and the groups.
  abbrev computed_size : Ext2 K → ℕ
  computed_size s = 1024 * 2 ^ get s.sb 0 Super.block_size_log

  abbrev computed_groups : Ext2 K → ℕ
  computed_groups s =
      group_count (get s.sb 0 Super.block_count) (get s.sb 0 Super.block_group_size_blocks)

  -- The geometry that is kept in `t`: the table of descriptors has room for every group and stands
  -- behind the superblock, and the superblock as it was read is kept.
  pub record Geometry (s t : Ext2 K) : Type 0 where
    pub size_is : get t.sb 0 Super.block_size ≡ computed_size s
    pub blocks_covered :
        get s.sb 0 Super.block_count
        ≤ get t.sb 0 Super.block_group_count * get s.sb 0 Super.block_group_size_blocks
    pub groups_used :
        get t.sb 0 Super.block_group_count * get s.sb 0 Super.block_group_size_blocks
        < get s.sb 0 Super.block_count + get s.sb 0 Super.block_group_size_blocks
    pub table_room :
        get t.sb 0 Super.block_group_count * Group.size
        < get t.sb 0 Super.block_group_descriptor_table_size_blocks * computed_size s
    pub table_behind : 2048 ≤ get t.sb 0 Super.block_group_descriptor_table_block * computed_size s
    pub fields_kept : (off w : ℕ) → off + w ≤ 232 → peek t.sb off w ≡ peek s.sb off w

  abbrev with_geometry : Ext2 K → ℕ → ℕ → ℕ → ℕ → Ext2 K
  with_geometry s size groups table blocks = record s {
    sb =
        put
          (put (put (put s.sb 0 Super.block_size size) 0 Super.block_group_count groups) 0
            Super.block_group_descriptor_table_block table)
          0 Super.block_group_descriptor_table_size_blocks blocks;
  }

  set_geometry_lem :
      (s : Ext2 K)
      → get s.sb 0 Super.block_size_log < 21
      → get s.sb 0 Super.block_group_size_blocks ≢ 0
      → let size = computed_size s in
        let groups = computed_groups s in
        set_geometry s
        ≡ ok tt (
            with_geometry s size groups
              (if ltb 1024 size then 1 else 2)
              (u32 (32 * groups) / size + 1))
  unfolding set_geometry check divisor
  set_geometry_lem s small ne =
      let log : ltb (get s.sb 0 Super.block_size_log) 21 ≡ true = ground (arith, small) in
      let blocks =
        peek-poke_apart s.sb (0 + 232) 4 (computed_size s) (0 + 4) 4 (inl (omega arith)) in
      let per_group =
        peek-poke_apart s.sb (0 + 232) 4 (computed_size s) (0 + 32) 4 (inl (omega arith)) in
      let some_group : (get s.sb 0 Super.block_group_size_blocks == 0) ≡ false =
        ground (arith, ne) in
      rw (log, blocks, per_group, some_group) refl

  -- The four fields are read back as they were stored.
  module _ (s : Ext2 K) (size groups table blocks : ℕ) (whole : 248 ≤ length s.sb)
      (size_small : size < 2 ^ 32) (groups_small : groups < 2 ^ 32) (table_small : table < 2 ^ 32)
      (blocks_small : blocks < 2 ^ 32) where
    abbrev t : Ext2 K
    t = with_geometry s size groups table blocks

    abbrev sb₁ : List ℕ
    sb₁ = put s.sb 0 Super.block_size size

    abbrev sb₂ : List ℕ
    sb₂ = put sb₁ 0 Super.block_group_count groups

    abbrev sb₃ : List ℕ
    sb₃ = put sb₂ 0 Super.block_group_descriptor_table_block table

    length-sb₁ : length sb₁ ≡ length s.sb
    length-sb₁ = length-poke s.sb (0 + 232) 4 size

    length-sb₂ : length sb₂ ≡ length s.sb
    length-sb₂ = length-poke sb₁ (0 + 236) 4 groups ∙ length-sb₁

    length-sb₃ : length sb₃ ≡ length s.sb
    length-sb₃ = length-poke sb₂ (0 + 240) 4 table ∙ length-sb₂

    below : (off w : ℕ) → off + w ≤ 232 → peek t.sb off w ≡ peek s.sb off w
    below off w le =
        peek-poke_apart sb₃ (0 + 244) 4 blocks off w (inl (omega arith))
        ∙ peek-poke_apart sb₂ (0 + 240) 4 table off w (inl (omega arith))
        ∙ peek-poke_apart sb₁ (0 + 236) 4 groups off w (inl (omega arith))
        ∙ peek-poke_apart s.sb (0 + 232) 4 size off w (inl (omega arith))

    size_stored : get t.sb 0 Super.block_size ≡ size
    size_stored =
        peek-poke_apart sb₃ (0 + 244) 4 blocks (0 + 232) 4 (inl (omega arith))
        ∙ peek-poke_apart sb₂ (0 + 240) 4 table (0 + 232) 4 (inl (omega arith))
        ∙ peek-poke_apart sb₁ (0 + 236) 4 groups (0 + 232) 4 (inl (omega arith))
        ∙ peek-poke s.sb (0 + 232) 4 size (omega arith) size_small

    groups_stored : get t.sb 0 Super.block_group_count ≡ groups
    groups_stored =
        peek-poke_apart sb₃ (0 + 244) 4 blocks (0 + 236) 4 (inl (omega arith))
        ∙ peek-poke_apart sb₂ (0 + 240) 4 table (0 + 236) 4 (inl (omega arith))
        ∙ peek-poke sb₁ (0 + 236) 4 groups (omega (arith, length-sb₁)) groups_small

    table_stored : get t.sb 0 Super.block_group_descriptor_table_block ≡ table
    table_stored =
        peek-poke_apart sb₃ (0 + 244) 4 blocks (0 + 240) 4 (inl (omega arith))
        ∙ peek-poke sb₂ (0 + 240) 4 table (omega (arith, length-sb₂)) table_small

    blocks_stored : get t.sb 0 Super.block_group_descriptor_table_size_blocks ≡ blocks
    blocks_stored = peek-poke sb₃ (0 + 244) 4 blocks (omega (arith, length-sb₃)) blocks_small

  -- For a superblock of bytes with a block size below 2 GiB and a group size other than 0, whose
  -- group descriptors take less than 4 GiB, mounting computes the block size, groups that hold
  -- every block and of which none is empty, and a descriptor table with room for every group that
  -- stands behind the superblock, and changes no field that was read.
  pub set_geometry-Geometry :
      (s : Ext2 K)
      → AreBytes s.sb
      → 248 ≤ length s.sb
      → get s.sb 0 Super.block_size_log < 21
      → get s.sb 0 Super.block_group_size_blocks ≢ 0
      → computed_groups s * Group.size < 2 ^ 32
      → (t : Ext2 K) × (set_geometry s ≡ ok tt t) × Geometry s t
  set_geometry-Geometry s bytes whole small ne few =
      let size = computed_size s in
      let groups = computed_groups s in
      let table : ℕ = if ltb 1024 size then 1 else 2 in
      let blocks = u32 (32 * groups) / size + 1 in
      let low : 1 ≤ 2 ^ get s.sb 0 Super.block_size_log =
        one-le-pow (get s.sb 0 Super.block_size_log) 2 (omega arith) in
      let high : 2 ^ get s.sb 0 Super.block_size_log ≤ 2 ^ 20 =
        pow-le-pow_right {n = 2} (omega arith) {i = get s.sb 0 Super.block_size_log} {j = 20}
          (omega arith) in
      let (covers, used, count) =
        group_count-covers (get s.sb 0 Super.block_count) (get s.sb 0 Super.block_group_size_blocks)
          ne (peek_lt s.sb (0 + 4) 4 bytes) in
      let exact : u32 (32 * groups) ≡ groups * 32 = omega arith in
      let size_small : size < 2 ^ 32 = omega arith in
      let groups_small : groups < 2 ^ 32 = omega (arith, few) in
      let table_small : table < 2 ^ 32 = ground arith in
      let quotient : u32 (32 * groups) / size < 2 ^ 31 =
        (div-lt_iff_lt-mul {k = size} (omega arith)).1 (omega (arith, exact, few, low)) in
      let blocks_small : blocks < 2 ^ 32 = omega (arith, quotient) in
      let room : u32 (32 * groups) < u32 (32 * groups) / size * size + size =
        lt-div-mul-add (omega arith) in
      let all : blocks * size ≡ u32 (32 * groups) / size * size + size = omega arith in
      let behind : 2048 ≤ table * size = elim (Bool-cases (ltb 1024 size)) [
        | inl a ↦ rw a (ground (arith, a))
        | inr a ↦ rw a (omega (arith, low))
      ] in
      (
        with_geometry s size groups table blocks,
        set_geometry_lem s small ne,
        record {
          size_is =
              size_stored s size groups table blocks whole size_small groups_small table_small
                blocks_small;
          blocks_covered =
              rw
                (groups_stored s size groups table blocks whole size_small groups_small table_small
                  blocks_small)
                covers;
          groups_used =
              rw
                (groups_stored s size groups table blocks whole size_small groups_small table_small
                  blocks_small)
                used;
          table_room =
              rw
                (
                  groups_stored s size groups table blocks whole size_small groups_small table_small
                      blocks_small,
                  blocks_stored s size groups table blocks whole size_small groups_small table_small
                      blocks_small,
                )
                (omega (arith, all, room, exact));
          table_behind =
              rw
                (table_stored s size groups table blocks whole size_small groups_small table_small
                  blocks_small)
                behind;
          fields_kept =
              below s size groups table blocks whole size_small groups_small table_small
                blocks_small;
        },
      )
