-- ===== src/Blk/Laws.antt =====
-- Devices that keep the bytes that are written to them, behind blk_read and blk_write of src/blk.c.
use fs_playground.Base.{
  ℕ, ◌+◌, ◌≤◌, ◌≡◌, refl, Option, some, List, length, take, splice, slice, ℤ, pos,
}
use fs_playground.Blk.{Blkdev, blk_read, blk_write}
use fs_playground.Command.{ok}

-- The device's bytes are those of `contents`. A read of bytes that it has fills the buffer, a write
-- to them stores the buffer, and both return the count.
pub record IsDisk {K : Type 0} (blk : Option (Blkdev K)) (contents : K → List ℕ) : Type 0 where
  pub dev : Blkdev K
  pub read : List ℕ → ℕ → ℕ → K → (ℤ × List ℕ) × K
  pub write : List ℕ → ℕ → ℕ → K → ℤ × K
  pub there : blk ≡ some dev
  pub reads : dev.read ≡ some read
  pub writes : dev.write ≡ some write
  pub read_whole :
      (buf : List ℕ) (off n : ℕ) (k : K)
      → off + n ≤ length (contents k)
      → n ≤ length buf
      → ((read buf off n k).0 ≡ (pos n, splice buf 0 (slice (contents k) off n)))
        × (contents (read buf off n k).1 ≡ contents k)
  pub write_whole :
      (buf : List ℕ) (off n : ℕ) (k : K)
      → off + n ≤ length (contents k)
      → n ≤ length buf
      → ((write buf off n k).0 ≡ pos n)
        × (contents (write buf off n k).1 ≡ splice (contents k) off (take n buf))

module _ {K : Type 0} {blk : Option (Blkdev K)} {contents : K → List ℕ}
    (d : IsDisk blk contents) where
  pub blk_read_lem :
      (buf : List ℕ) (off n : ℕ) (k : K)
      → off + n ≤ length (contents k)
      → n ≤ length buf
      → (k' : K) × (blk_read blk buf off n k
          ≡ ok (pos n, splice buf 0 (slice (contents k) off n)) k')
        × (contents k' ≡ contents k)
  unfolding blk_read
  blk_read_lem buf off n k le room =
      let (e, same) = d.read_whole buf off n k le room in
      ((d.read buf off n k).1, rw (d.there, d.reads, e) refl, same)

  pub blk_write_lem :
      (buf : List ℕ) (off n : ℕ) (k : K)
      → off + n ≤ length (contents k)
      → n ≤ length buf
      → (k' : K) × (blk_write blk buf off n k ≡ ok (pos n) k')
        × (contents k' ≡ splice (contents k) off (take n buf))
  unfolding blk_write
  blk_write_lem buf off n k le room =
      let (e, stored) = d.write_whole buf off n k le room in
      ((d.write buf off n k).1, rw (d.there, d.writes, e) refl, stored)
