-- ===== src/Ext2/Dirent.antt =====
-- `struct ext2_dirent` of include/ext2.h. The name stands behind the fields.
use fs_playground.Base.{ℕ}
use fs_playground.Ext2.Layout.{Field, field32, field16, field8}

abbrev pub ino : Field
ino = field32 0

abbrev pub len : Field
len = field16 4

abbrev pub name_len : Field
name_len = field8 6

abbrev pub type_ind : Field
type_ind = field8 7

abbrev pub size : ℕ
size = 8
