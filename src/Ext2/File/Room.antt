-- ===== src/Ext2/File/Room.antt =====
-- How much room `ext2_vnode_write` of src/ext2/ext2vnop.c finds in the last block of a file.
use fs_playground.Base.{
  ℕ, ◌+◌, ◌-◌, ◌*◌, ◌/◌, ◌%◌, ◌^◌, ◌≤◌, ◌<◌, ◌≡◌, ◌≢◌, ◌∙◌, ap, false, ◌==◌, arith,
}
use fs_playground.Ext2.Directory.{size_in_blocks}
use fs_playground.Ext2.File.{u64, lesser, greater, blocks64}
use fs_playground.Ext2.Layout.{u32}
use native.Mathlib.Nat.{div-eq_of_lt-le, div-add-mod', mod-lt, add-mul}

-- The room behind the end of a file, in the file's last block.
abbrev pub room_of : ℕ → ℕ → ℕ
room_of size bs = u64 (size_in_blocks size bs * bs + (2 ^ 64 - size))

module _ (size bs : ℕ) (some : bs ≢ 0) (open_end : size % bs ≢ 0) (small : size + bs ≤ 2 ^ 32) where
  last_block : size_in_blocks size bs ≡ size / bs + 1
  last_block =
      let d = div-add-mod' size bs in
      let lt = mod-lt size {m = bs} (omega (arith, some)) in
      let e : u32 (size + bs + (2 ^ 32 - 1)) ≡ size + bs - 1 = omega (arith, small, some) in
      let one = add-mul (size / bs) 1 bs in
      let two = add-mul (size / bs + 1) 1 bs in
      ap (λ x. x / bs) e
      ∙ div-eq_of_lt-le {k = size / bs + 1} bs {m = size + bs - 1}
          (omega (arith, d, lt, one, open_end)) (omega (arith, d, lt, one, two))

  room_of_lem : room_of size bs ≡ bs - size % bs
  room_of_lem =
      let d = div-add-mod' size bs in
      let lt = mod-lt size {m = bs} (omega (arith, some)) in
      let one = add-mul (size / bs) 1 bs in rw last_block (omega (arith, d, lt, one, small))

  pub room-one : blocks64 (room_of size bs) bs ≡ 1
  room-one =
      let lt = mod-lt size {m = bs} (omega (arith, some)) in
      let e : u64 (room_of size bs + bs + (2 ^ 64 - 1)) ≡ bs - size % bs + bs - 1 =
        rw room_of_lem (omega (arith, lt, small)) in
      ap (λ x. x / bs) e
      ∙ div-eq_of_lt-le {k = 1} bs {m = bs - size % bs + bs - 1} (omega (arith, lt))
          (omega (arith, open_end))

  pub room-some : (room_of size bs == 0) ≡ false
  room-some =
      let lt = mod-lt size {m = bs} (omega (arith, some)) in rw room_of_lem (ground (arith, lt))

pub lesser_ge : (x y : ℕ) → x ≤ y → lesser x y ≡ x
lesser_ge x y h = ground arith

pub greater_lt : (x y n : ℕ) → x < n → y < n → greater x y < n
greater_lt x y n p q = ground arith

pub le_greater : (x y : ℕ) → x ≤ greater x y
le_greater x y = ground arith
