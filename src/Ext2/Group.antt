-- ===== src/Ext2/Group.antt =====
-- `struct ext2_grp_desc` of include/ext2.h: the fields that the driver reads.
use fs_playground.Base.{ℕ}
use fs_playground.Ext2.Layout.{Field, field32, field16}

abbrev pub block_usage_bitmap_block : Field
block_usage_bitmap_block = field32 0

abbrev pub inode_usage_bitmap_block : Field
inode_usage_bitmap_block = field32 4

abbrev pub inode_table_block : Field
inode_table_block = field32 8

abbrev pub free_blocks : Field
free_blocks = field16 12

abbrev pub free_inodes : Field
free_inodes = field16 14

abbrev pub size : ℕ
size = 32
