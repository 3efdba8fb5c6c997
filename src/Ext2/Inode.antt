-- ===== src/Ext2/Inode.antt =====
-- `struct ext2_inode` of include/ext2.h.
use fs_playground.Base.{ℕ, ◌+◌, ◌*◌}
use fs_playground.Ext2.Layout.{Field, field32, field16}

abbrev pub type_perm : Field
type_perm = field16 0

abbrev pub uid : Field
uid = field16 2

abbrev pub size_lower : Field
size_lower = field32 4

abbrev pub atime : Field
atime = field32 8

abbrev pub ctime : Field
ctime = field32 12

abbrev pub mtime : Field
mtime = field32 16

abbrev pub dtime : Field
dtime = field32 20

abbrev pub gid : Field
gid = field16 24

abbrev pub hard_link_count : Field
hard_link_count = field16 26

abbrev pub disk_sector_count : Field
disk_sector_count = field32 28

abbrev pub flags : Field
flags = field32 32

abbrev pub os_value_1 : Field
os_value_1 = field32 36

abbrev pub l1_indirect_block : Field
l1_indirect_block = field32 88

abbrev pub l2_indirect_block : Field
l2_indirect_block = field32 92

abbrev pub l3_indirect_block : Field
l3_indirect_block = field32 96

abbrev pub gen_number : Field
gen_number = field32 100

abbrev pub acl : Field
acl = field32 104

abbrev pub dir_acl : Field
dir_acl = field32 108

abbrev pub frag_block_addr : Field
frag_block_addr = field32 112

-- `direct_blocks[index]`
abbrev pub direct_block : ℕ → Field
direct_block index = field32 (40 + 4 * index)

abbrev pub direct_blocks : ℕ
direct_blocks = 40

abbrev pub os_value_2 : ℕ
os_value_2 = 116

abbrev pub size : ℕ
size = 128
