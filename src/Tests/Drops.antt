-- ===== src/Tests/Drops.antt =====
-- A run of the removal of an entry of src/ext2/ext2dir.c.
use fs_playground.Base.{
  ℕ, ◌≡◌, refl, none, List, [], ◌∷◌, arith, splice, slice, poke, peek, le_bytes, CString,
}
use fs_playground.Command.{ok, check}
use fs_playground.Ext2.Directory.{removed, remove_entry, name_within}
use fs_playground.Ext2.Directory.Chain.{Chain, Item, item_at, item, end}
use fs_playground.Ext2.Directory.Dropped.{find_entry-remove_entry}
use fs_playground.Ext2.Directory.Shrunk.{without}
use fs_playground.Ext2.Directory.Lookup.{lookup}
use fs_playground.Ext2.Disk.{within, memcpy}
use fs_playground.Ext2.Node.{find_entry}
use fs_playground.Tests.Entries.{grown_block, no_disk}
use fs_playground.Tests.Memory.{zeros}

abbrev dot_name : CString
dot_name = b'.' ∷ []

abbrev ab_name : CString
ab_name = b'a' ∷ b'b' ∷ []

-- The block in which "ab" was moved over ".".
abbrev ab_block : List ℕ
ab_block = 5 ∷ 0 ∷ 0 ∷ 0 ∷ 64 ∷ 0 ∷ 2 ∷ 0 ∷ 97 ∷ 98 ∷ zeros 54

abbrev both : List Item
both = item_at grown_block 0 ∷ item_at grown_block 24 ∷ []

grown-Chain : Chain grown_block 0 both
unfolding peek
grown-Chain =
    item (omega arith) (omega arith) (item (omega arith) (omega arith) (end (omega arith)))

one_dot : lookup dot_name (without dot_name both) ≡ none
unfolding lookup without peek slice
one_dot = refl

removed_dot : remove_entry 65 grown_block none 0 dot_name 2 no_disk ≡ ok (removed ab_block) no_disk
unfolding remove_entry name_within within check memcpy poke peek splice slice le_bytes
removed_dot = refl

find_entry-remove_entry_example :
    find_entry 65 ab_block 0 ab_name no_disk ≡ find_entry 65 grown_block 0 ab_name no_disk
find_entry-remove_entry_example =
    find_entry-remove_entry 65 grown_block dot_name ab_name 2 no_disk no_disk (omega arith)
      grown-Chain one_dot removed_dot
