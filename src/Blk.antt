-- ===== src/Blk.antt =====
-- Block devices: src/blk.c with include/blk.h, and the device over a file of src/testblk.c. What a
-- device does with its own state `K` is a parameter, and so are the functions of <stdio.h>.
pub mod Laws
use fs_playground.Base.{
  ℕ, not, Option, none, some, List, if◌then◌else◌, ℤ, pos, negsuc, is_zero, einval,
}
use fs_playground.Command.{Program, ok, pure, ◌>>=◌, deref}

-- `struct blkdev`: `read` gets the buffer, the offset and the count, and `write` the same. A read
-- returns what is then in the buffer.
pub record Blkdev (K : Type 0) : Type 0 where
  pub read : Option (List ℕ → ℕ → ℕ → K → (ℤ × List ℕ) × K)
  pub write : Option (List ℕ → ℕ → ℕ → K → ℤ × K)

module _ {K : Type 0} where
  abbrev run : {A : Type 0} → (K → A × K) → Program K A
  run f k = let r = f k in ok r.0 r.1

  unfoldable pub blk_read : Option (Blkdev K) → List ℕ → ℕ → ℕ → Program K (ℤ × List ℕ)
  unfolding deref
  blk_read blk buf off lim = do
    dev ← deref blk
    elim dev.read [ none ↦ pure (einval, buf) | some read ↦ run (read buf off lim) ]

  unfoldable pub blk_write : Option (Blkdev K) → List ℕ → ℕ → ℕ → Program K ℤ
  unfolding deref
  blk_write blk buf off lim = do
    dev ← deref blk
    elim dev.write [ none ↦ pure einval | some write ↦ run (write buf off lim) ]

-- The functions of <stdio.h> on the open file, whose state is `F`.
pub record Stdio (F : Type 0) : Type 0 where
  pub fseek : ℕ → F → ℤ × F
  pub fread : List ℕ → ℕ → F → (ℕ × List ℕ) × F
  pub fwrite : List ℕ → ℕ → F → ℕ × F
  pub fflush : F → F

module _ {F : Type 0} (io : Stdio F) where
  pub testblk_dev_read : List ℕ → ℕ → ℕ → F → (ℤ × List ℕ) × F
  testblk_dev_read buf off count f =
      let sought = io.fseek off f in
      let r = io.fread buf count sought.1 in
      if not (is_zero sought.0) then ((negsuc 0, buf), sought.1) else ((pos r.0.0, r.0.1), r.1)

  pub testblk_dev_write : List ℕ → ℕ → ℕ → F → ℤ × F
  testblk_dev_write buf off count f =
      let sought = io.fseek off f in
      let r = io.fwrite buf count sought.1 in
      if not (is_zero sought.0) then (negsuc 0, sought.1) else (pos r.0, io.fflush r.1)

  unfoldable pub testblk_dev : Blkdev F
  unfolding testblk_dev_read testblk_dev_write
  testblk_dev = record { read = some testblk_dev_read; write = some testblk_dev_write }
