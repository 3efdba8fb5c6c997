-- ===== src/Tests/Memory.antt =====
-- A device that keeps its bytes in memory, for runs of src/ext2/.
use fs_playground.Base.{
  ℕ, zero, suc, ◌+◌, ◌≤◌, ◌≡◌, refl, Bool, true, ◌&&◌, some, List, [], ◌∷◌, length, take, splice,
  slice, replicate, length-replicate, ℤ, pos, negsuc, leb, ltb, if◌then◌else◌, arith, AreBytes,
}
use fs_playground.Blk.{Blkdev}
use fs_playground.Blk.Laws.{IsDisk}

read_memory : List ℕ → ℕ → ℕ → List ℕ → (ℤ × List ℕ) × List ℕ
read_memory buf off n k =
    if leb (off + n) (length k) && leb n (length buf)
    then ((pos n, splice buf 0 (slice k off n)), k)
    else ((negsuc 0, buf), k)

write_memory : List ℕ → ℕ → ℕ → List ℕ → ℤ × List ℕ
write_memory buf off n k =
    if leb (off + n) (length k) && leb n (length buf)
    then (pos n, splice k off (take n buf))
    else (negsuc 0, k)

unfoldable pub memory : Blkdev (List ℕ)
unfolding read_memory write_memory
memory = record { read = some read_memory; write = some write_memory }

abbrev pub bytes_of : List ℕ → List ℕ
bytes_of k = k

fits :
    (off n : ℕ) (k buf : List ℕ)
    → off + n ≤ length k
    → n ≤ length buf
    → (leb (off + n) (length k) && leb n (length buf)) ≡ true
fits off n k buf le room =
    let a : leb (off + n) (length k) ≡ true = ground (arith, le) in
    let b : leb n (length buf) ≡ true = ground (arith, room) in rw (a, b) refl

pub memory-IsDisk : IsDisk (some memory) bytes_of
unfolding memory read_memory write_memory
memory-IsDisk = record {
  dev = memory;
  read = read_memory;
  write = write_memory;
  there = refl;
  reads = refl;
  writes = refl;
  read_whole = λ buf off n k le room. rw (fits off n k buf le room) (refl, refl);
  write_whole = λ buf off n k le room. rw (fits off n k buf le room) (refl, refl);
}

abbrev pub zeros : ℕ → List ℕ
zeros n = replicate n 0

pub length-zeros : (n : ℕ) → length (zeros n) ≡ n
length-zeros n = length-replicate n 0

abbrev pub all_bytes : List ℕ → Bool
all_bytes [] = true
all_bytes (b ∷ bs) = ltb b 256 && all_bytes bs

pub all_bytes-AreBytes : (bs : List ℕ) → all_bytes bs ≡ true → AreBytes bs
all_bytes-AreBytes [] h j = omega arith
all_bytes-AreBytes (b ∷ bs) h zero = ground (arith, h)
all_bytes-AreBytes (b ∷ bs) h (suc j) = all_bytes-AreBytes bs (ground (arith, h)) j
