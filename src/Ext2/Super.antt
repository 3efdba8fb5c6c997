-- ===== src/Ext2/Super.antt =====
-- `struct ext2_sb` and `struct ext2_extsb` of include/ext2.h: the fields that the driver reads.
use fs_playground.Ext2.Layout.{Field, field32, field16}

abbrev pub inode_count : Field
inode_count = field32 0

abbrev pub block_count : Field
block_count = field32 4

abbrev pub su_reserved : Field
su_reserved = field32 8

abbrev pub free_block_count : Field
free_block_count = field32 12

abbrev pub free_inode_count : Field
free_inode_count = field32 16

abbrev pub block_size_log : Field
block_size_log = field32 24

abbrev pub block_group_size_blocks : Field
block_group_size_blocks = field32 32

abbrev pub block_group_size_inodes : Field
block_group_size_inodes = field32 40

abbrev pub magic : Field
magic = field16 56

abbrev pub version_major : Field
version_major = field32 72

abbrev pub first_non_reserved : Field
first_non_reserved = field32 80

abbrev pub inode_struct_size : Field
inode_struct_size = field16 84

abbrev pub block_size : Field
block_size = field32 232

abbrev pub block_group_count : Field
block_group_count = field32 236

abbrev pub block_group_descriptor_table_block : Field
block_group_descriptor_table_block = field32 240

abbrev pub block_group_descriptor_table_size_blocks : Field
block_group_descriptor_table_size_blocks = field32 244
