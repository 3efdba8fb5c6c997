-- ===== src/Tests/Entries.antt =====
-- Runs of src/ext2/ext2dir.c and src/ext2/ext2alloc.c.
use fs_playground.Base.{
  clear_bit, ℕ, ◌≡◌, ◌≢◌, refl, none, some, List, [], ◌∷◌, ℤ, pos, arith, splice, slice, poke, peek,
  le_bytes, bit,
}
use fs_playground.Blk.{Blkdev, blk_read, blk_write}
use fs_playground.Command.{ok, out_of_fuel, check, deref}
use fs_playground.Ext2.Alloc.{
  a_block, Hit, find_bit, first_zero, find_free, write_table, save_table, save_super, save_usage,
  take_hit, allocate, put_back, release,
}
use fs_playground.Ext2.Alloc.Freed.{Freed, release-Freed}
use fs_playground.Ext2.Alloc.Taken.{Taken, allocate-Taken}
use fs_playground.Ext2.Block.{read_block, write_block, write_superblock}
use fs_playground.Ext2.Directory.{placed, place_entry, remove_entry}
use fs_playground.Ext2.Directory.Added.{find_entry-place_entry}
use fs_playground.Ext2.Directory.Chain.{Chain, item_at, item, end}
use fs_playground.Ext2.Directory.Insert.{Inserted, place_entry-Inserted}
use fs_playground.Ext2.Directory.Walks.{past, entry, walks-Ends, walk-stuck}
use fs_playground.Ext2.Disk.{Ext2, divisor, within, group_field, set_group_field}
use fs_playground.Ext2.Group
use fs_playground.Ext2.Layout.{put, set_bit}
use fs_playground.Ext2.Node.{find_entry}
use fs_playground.Ext2.Remove.{only_dots}
use fs_playground.Ext2.Super
use fs_playground.Tests.Memory.{zeros, all_bytes-AreBytes}

-- A block of 64 bytes with the entry ".".
abbrev pub dot_block : List ℕ
dot_block = 2 ∷ 0 ∷ 0 ∷ 0 ∷ 64 ∷ 0 ∷ 1 ∷ 0 ∷ 46 ∷ zeros 55

-- The block with "ab" behind it.
abbrev pub grown_block : List ℕ
grown_block =
    2
    ∷ 0
    ∷ 0
    ∷ 0
    ∷ 24
    ∷ 0
    ∷ 1
    ∷ 0
    ∷ 46
    ∷ 0
    ∷ 0
    ∷ 0
    ∷ 0
    ∷ 0
    ∷ 0
    ∷ 0
    ∷ 0
    ∷ 0
    ∷ 0
    ∷ 0
    ∷ 0
    ∷ 0
    ∷ 0
    ∷ 0
    ∷ 5
    ∷ 0
    ∷ 0
    ∷ 0
    ∷ 40
    ∷ 0
    ∷ 2
    ∷ 0
    ∷ 97
    ∷ 98
    ∷ zeros 30

abbrev pub no_disk : Ext2 (List ℕ)
no_disk = record { dev = []; sb = []; bgdt = [] }

placed_entry :
    place_entry 20 65 dot_block 0 (b'a' ∷ b'b' ∷ []) 5 no_disk ≡ ok (placed grown_block) no_disk
unfolding place_entry within check poke peek splice le_bytes
placed_entry = refl

place_entry-Inserted_example :
    Inserted 20 dot_block grown_block 5 (b'a' ∷ b'b' ∷ []) × (no_disk ≡ no_disk)
place_entry-Inserted_example =
    place_entry-Inserted 20 65 dot_block 0 (b'a' ∷ b'b' ∷ []) 5 no_disk
      (all_bytes-AreBytes dot_block refl) (omega arith) (omega arith) (omega arith) placed_entry

pub dot-Chain : Chain dot_block 0 (item_at dot_block 0 ∷ [])
unfolding peek
dot-Chain = item (omega arith) (omega arith) (end (omega arith))

not_there : find_entry 65 dot_block 0 (b'a' ∷ b'b' ∷ []) no_disk ≡ ok none no_disk
unfolding find_entry within check peek slice
not_there = refl

find_entry-place_entry_example :
    find_entry 65 grown_block 0 (b'a' ∷ b'b' ∷ []) no_disk ≡ ok (some 5) no_disk
find_entry-place_entry_example =
    find_entry-place_entry 20 65 dot_block (b'a' ∷ b'b' ∷ []) (b'a' ∷ b'b' ∷ []) 5 no_disk no_disk
      (all_bytes-AreBytes dot_block refl) (omega arith) (omega arith) (omega arith) (omega arith)
      dot-Chain not_there placed_entry

walks-Ends_example :
    (place_entry 20 65 dot_block 0 (b'a' ∷ []) 5 no_disk ≢ out_of_fuel)
    × (remove_entry 65 dot_block none 0 (b'a' ∷ []) 5 no_disk ≢ out_of_fuel)
    × (find_entry 65 dot_block 0 (b'a' ∷ []) no_disk ≢ out_of_fuel)
    × (only_dots 65 dot_block 0 no_disk ≢ out_of_fuel)
unfolding peek
walks-Ends_example =
    walks-Ends 20 dot_block (b'a' ∷ []) 5 no_disk
      (entry (λ e. omega (arith, e)) (past (omega arith)))

walk-stuck_example :
    (place_entry 20 1000 (zeros 64) 0 (b'a' ∷ []) 5 no_disk ≡ out_of_fuel)
    × (remove_entry 1000 (zeros 64) none 0 (b'a' ∷ []) 5 no_disk ≡ out_of_fuel)
unfolding peek
walk-stuck_example =
    walk-stuck 20 (zeros 64) none 0 (b'a' ∷ []) 5 no_disk 1000 (omega arith) refl refl refl

-- A device that reads a bitmap with the first two numbers used, and takes every write.
read_bitmap : List ℕ → ℕ → ℕ → List ℕ → (ℤ × List ℕ) × List ℕ
read_bitmap buf off n k = ((pos n, 3 ∷ 0 ∷ 0 ∷ 0 ∷ 0 ∷ 0 ∷ 0 ∷ 0 ∷ []), k)

take_write : List ℕ → ℕ → ℕ → List ℕ → ℤ × List ℕ
take_write buf off n k = (pos n, k)

bitmap_device : Blkdev (List ℕ)
bitmap_device = record { read = some read_bitmap; write = some take_write }

-- One group, with five blocks free.
abbrev one_group : Ext2 (List ℕ)
one_group = record {
  dev = [];
  sb =
      put
        (put (put (put (zeros 248) 0 Super.block_size 8) 0 Super.block_group_count 1) 0
          Super.block_group_size_blocks 7)
        0 Super.free_block_count 5;
  bgdt = put (put (zeros 32) 0 Group.free_blocks 5) 0 Group.block_usage_bitmap_block 3;
}

abbrev one_less : Ext2 (List ℕ)
one_less = record one_group {
  sb = put one_group.sb 0 Super.free_block_count 4;
  bgdt = put one_group.bgdt 0 Group.free_blocks 4;
}

allocated : allocate (some bitmap_device) zeros a_block one_group ≡ ok (pos 0, 3) one_less
unfolding allocate take_hit save_usage save_table save_super find_free find_bit first_zero
    group_field set_group_field read_block write_block write_superblock write_table blk_read
    blk_write deref check within poke peek splice le_bytes bit set_bit slice bitmap_device
    read_bitmap take_write
allocated = refl

allocate-Taken_example :
    (hit : Hit) × Taken (some bitmap_device) zeros a_block one_group one_less 3 hit
allocate-Taken_example = allocate-Taken (some bitmap_device) zeros a_block one_group allocated

abbrev one_more : Ext2 (List ℕ)
one_more = record one_group {
  sb = put one_group.sb 0 Super.free_block_count 6;
  bgdt = put one_group.bgdt 0 Group.free_blocks 6;
}

released : release (some bitmap_device) zeros a_block 1 one_group ≡ ok (pos 0) one_more
unfolding release put_back save_usage save_table save_super group_field set_group_field read_block
    write_block write_superblock write_table blk_read blk_write deref check divisor within poke peek
    splice le_bytes bit clear_bit slice bitmap_device read_bitmap take_write
released = refl

release-Freed_example : Freed (some bitmap_device) zeros a_block 1 one_group one_more
release-Freed_example = release-Freed (some bitmap_device) zeros a_block 1 one_group released refl
