-- ===== src/Base/Memory.antt =====
-- Objects in memory as lists of bytes: little-endian loads and stores, and copies of a range.
use Prim.Native.Nat.{ℕ, zero, suc, ◌+◌, ◌*◌, ◌/◌, ◌%◌, ◌≤◌, ◌<◌}
use mathlib.Core.Path.{◌≡◌, refl, ap, ◌∙◌, sym}
use mathlib.Core.Logic.{◌⊎◌, inl, inr}
use mathlib.Core.List.{List, [], ◌∷◌}
use native.Mathlib.Omega.{arith}
use fs_playground.Base.Lists.{
  length, get_or, set, take, drop, length-set, get_or-set_self, get_or-set_ne,
}

-- The value of `w` bytes at an offset.
unfoldable pub peek : List ℕ → ℕ → ℕ → ℕ
peek buf off zero = 0
peek buf off (suc w) = get_or buf off 0 + 256 * peek buf (suc off) w

-- The `w` low bytes of a number.
unfoldable pub le_bytes : ℕ → ℕ → List ℕ
le_bytes zero v = []
le_bytes (suc w) v = v % 256 ∷ le_bytes w (v / 256)

-- `memcpy(buf + off, src, length)`
unfoldable pub splice : List ℕ → ℕ → List ℕ → List ℕ
splice buf off [] = buf
splice buf off (b ∷ bs) = set (splice buf (suc off) bs) off b

unfoldable pub poke : List ℕ → ℕ → ℕ → ℕ → List ℕ
unfolding splice le_bytes
poke buf off w v = splice buf off (le_bytes w v)

-- The `n` bytes at an offset.
unfoldable pub slice : List ℕ → ℕ → ℕ → List ℕ
slice buf off n = take n (drop off buf)

-- The number of values of `w` bytes.
abbrev pub range : ℕ → ℕ
range zero = 1
range (suc w) = 256 * range w

pub length-le_bytes : (w v : ℕ) → length (le_bytes w v) ≡ w
unfolding le_bytes
length-le_bytes zero v = refl
length-le_bytes (suc w) v = ap suc (length-le_bytes w (v / 256))

pub length-splice : (buf : List ℕ) (off : ℕ) (bs : List ℕ) → length (splice buf off bs) ≡ length buf
unfolding splice
length-splice buf off [] = refl
length-splice buf off (b ∷ bs) =
    length-set (splice buf (suc off) bs) off b ∙ length-splice buf (suc off) bs

pub length-poke : (buf : List ℕ) (off w v : ℕ) → length (poke buf off w v) ≡ length buf
unfolding poke
length-poke buf off w v = length-splice buf off (le_bytes w v)

pub get_or-splice_apart :
    (buf : List ℕ) (off : ℕ) (bs : List ℕ) (j d : ℕ)
    → (j < off) ⊎ (off + length bs ≤ j)
    → get_or (splice buf off bs) j d ≡ get_or buf j d
unfolding splice
get_or-splice_apart buf off [] j d h = refl
get_or-splice_apart buf off (b ∷ bs) j d (inl h) =
    get_or-set_ne (splice buf (suc off) bs) off j b d (λ e. omega (arith, e, h))
    ∙ get_or-splice_apart buf (suc off) bs j d (inl (omega arith))
get_or-splice_apart buf off (b ∷ bs) j d (inr h) =
    get_or-set_ne (splice buf (suc off) bs) off j b d (λ e. omega (arith, e, h))
    ∙ get_or-splice_apart buf (suc off) bs j d (inr (omega arith))

pub peek_congr :
    (a b : List ℕ) (off w : ℕ)
    → ((j : ℕ) → off ≤ j → j < off + w → get_or a j 0 ≡ get_or b j 0)
    → peek a off w ≡ peek b off w
unfolding peek
peek_congr a b off zero h = refl
peek_congr a b off (suc w) h =
    let e = h off (omega arith) (omega arith) in
    let f = peek_congr a b (suc off) w (λ j p q. h j (omega arith) (omega arith)) in rw (e, f) refl

pub peek-splice_apart :
    (buf : List ℕ) (off : ℕ) (bs : List ℕ) (at w : ℕ)
    → (at + w ≤ off) ⊎ (off + length bs ≤ at)
    → peek (splice buf off bs) at w ≡ peek buf at w
peek-splice_apart buf off bs at w (inl h) =
    peek_congr _ buf at w (λ j p q. get_or-splice_apart buf off bs j 0 (inl (omega arith)))
peek-splice_apart buf off bs at w (inr h) =
    peek_congr _ buf at w (λ j p q. get_or-splice_apart buf off bs j 0 (inr (omega arith)))

pub peek-poke_apart :
    (buf : List ℕ) (off w v at u : ℕ)
    → (at + u ≤ off) ⊎ (off + w ≤ at)
    → peek (poke buf off w v) at u ≡ peek buf at u
unfolding poke
peek-poke_apart buf off w v at u h =
    peek-splice_apart buf off (le_bytes w v) at u (rw (length-le_bytes w v) h)

pub peek-poke :
    (buf : List ℕ) (off w v : ℕ)
    → off + w ≤ length buf
    → v < range w
    → peek (poke buf off w v) off w ≡ v
unfolding poke peek le_bytes splice
peek-poke buf off zero v h lt = omega arith
peek-poke buf off (suc w) v h lt =
    let rest = splice buf (suc off) (le_bytes w (v / 256)) in
    let len = length-splice buf (suc off) (le_bytes w (v / 256)) in
    let head = get_or-set_self rest off (v % 256) 0 (omega (arith, len)) in
    let same =
      peek_congr (set rest off (v % 256)) rest (suc off) w
        (λ j p q. get_or-set_ne rest off j (v % 256) 0 (λ e. omega (arith, e, p))) in
    let ih : peek rest (suc off) w ≡ v / 256 =
      peek-poke buf (suc off) w (v / 256) (omega arith) (omega arith) in
    omega (arith, head, same, ih)

-- A range of the list.
pub slice-suc :
    (buf : List ℕ) (off n : ℕ)
    → off < length buf
    → slice buf off (suc n) ≡ get_or buf off 0 ∷ slice buf (suc off) n
unfolding slice
slice-suc [] off n h = absurd (omega (arith, h))
slice-suc (x ∷ xs) zero n h = refl
slice-suc (x ∷ xs) (suc off) n h = slice-suc xs off n (omega arith)

pub slice-zero : (buf : List ℕ) (off : ℕ) → slice buf off zero ≡ []
unfolding slice
slice-zero buf off = refl

pub slice_congr :
    (a b : List ℕ) (off n : ℕ)
    → length a ≡ length b
    → off + n ≤ length a
    → ((j : ℕ) → off ≤ j → j < off + n → get_or a j 0 ≡ get_or b j 0)
    → slice a off n ≡ slice b off n
slice_congr a b off zero len le h = slice-zero a off ∙ sym (slice-zero b off)
slice_congr a b off (suc n) len le h =
    let e = h off (omega arith) (omega arith) in
    let f =
      slice_congr a b (suc off) n len (omega arith) (λ j p q. h j (omega arith) (omega arith)) in
    slice-suc a off n (omega arith) ∙ rw (e, f) (sym (slice-suc b off n (omega (arith, len))))

pub slice-splice :
    (buf : List ℕ) (off : ℕ) (bs : List ℕ)
    → off + length bs ≤ length buf
    → slice (splice buf off bs) off (length bs) ≡ bs
unfolding splice
slice-splice buf off [] h = slice-zero _ off
slice-splice buf off (b ∷ bs) h =
    let rest = splice buf (suc off) bs in
    let len = length-splice buf (suc off) bs in
    let whole = length-set rest off b in
    let head = get_or-set_self rest off b 0 (omega (arith, len)) in
    let same : slice (set rest off b) (suc off) (length bs) ≡ slice rest (suc off) (length bs) =
      slice_congr (set rest off b) rest (suc off) (length bs) whole (omega (arith, whole, len))
        (λ j p q. get_or-set_ne rest off j b 0 (λ e. omega (arith, e, p))) in
    let ih : slice rest (suc off) (length bs) ≡ bs = slice-splice buf (suc off) bs (omega arith) in
    slice-suc (set rest off b) off (length bs) (omega (arith, whole, len))
    ∙ rw (head, same, ih) refl

pub slice-splice_apart :
    (buf : List ℕ) (off : ℕ) (bs : List ℕ) (at n : ℕ)
    → (at + n ≤ off) ⊎ (off + length bs ≤ at)
    → at + n ≤ length buf
    → slice (splice buf off bs) at n ≡ slice buf at n
slice-splice_apart buf off bs at n (inl h) le =
    slice_congr _ buf at n (length-splice buf off bs) (omega (arith, length-splice buf off bs))
      (λ j p q. get_or-splice_apart buf off bs j 0 (inl (omega arith)))
slice-splice_apart buf off bs at n (inr h) le =
    slice_congr _ buf at n (length-splice buf off bs) (omega (arith, length-splice buf off bs))
      (λ j p q. get_or-splice_apart buf off bs j 0 (inr (omega arith)))

-- Every element is a byte.
abbrev pub AreBytes : List ℕ → Type 0
AreBytes buf = (j : ℕ) → get_or buf j 0 < 256

pub peek_lt : (buf : List ℕ) (off w : ℕ) → AreBytes buf → peek buf off w < range w
unfolding peek
peek_lt buf off zero h = omega arith
peek_lt buf off (suc w) h = omega (arith, h off, peek_lt buf (suc off) w h)

pub slice-poke_apart :
    (buf : List ℕ) (off w v at n : ℕ)
    → (at + n ≤ off) ⊎ (off + w ≤ at)
    → at + n ≤ length buf
    → slice (poke buf off w v) at n ≡ slice buf at n
unfolding poke
slice-poke_apart buf off w v at n h le =
    slice-splice_apart buf off (le_bytes w v) at n (rw (length-le_bytes w v) h) le
