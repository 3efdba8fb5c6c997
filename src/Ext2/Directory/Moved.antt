-- ===== src/Ext2/Directory/Moved.antt =====
-- The removal of an entry that another follows, in src/ext2/ext2dir.c: the next entry is moved in its
-- place and takes its room.
use fs_playground.Base.{
  ℕ, zero, suc, ◌+◌, ◌%◌, ◌^◌, ◌≤◌, ◌<◌, ◌≡◌, refl, ◌∙◌, ap, sym, List, ◌∷◌, ◌⊎◌, inl, inr, length,
  get_or, arith, peek, poke, splice, slice, le_bytes, length-le_bytes, length-splice, length-poke,
  get_or-splice_apart, get_or-set_self, get_or-set_ne, slice-suc, slice-zero, peek-poke,
  length-slice,
}
use fs_playground.Ext2.Directory.{name_at}
use fs_playground.Ext2.Directory.Chain.{Item, item_at, Chain, Chain-fields, Chain-congr}
use fs_playground.Ext2.Dirent
use fs_playground.Ext2.Layout.{get, put}

-- The bytes of `a` from `off` on are those of `b` from `at` on.
abbrev Shifted : List ℕ → List ℕ → ℕ → ℕ → ℕ → Type 0
Shifted a b off at n =
    (j m : ℕ) → m + off ≡ j + at → off ≤ j → j < off + n → get_or a j 0 ≡ get_or b m 0

Shifted-tail :
    (a b : List ℕ) (off at n : ℕ) → Shifted a b off at (suc n) → Shifted a b (suc off) (suc at) n
Shifted-tail a b off at n h j m e p q =
    h j m (omega (arith, e)) (omega (arith, p)) (omega (arith, q))

peek-Shifted : (a b : List ℕ) (off at w : ℕ) → Shifted a b off at w → peek a off w ≡ peek b at w
unfolding peek
peek-Shifted a b off at zero h = refl
peek-Shifted a b off at (suc w) h =
    let e = h off at (omega arith) (omega arith) (omega arith) in
    let f = peek-Shifted a b (suc off) (suc at) w (Shifted-tail a b off at w h) in rw (e, f) refl

slice-Shifted :
    (a b : List ℕ) (off at n : ℕ)
    → off + n ≤ length a
    → at + n ≤ length b
    → Shifted a b off at n
    → slice a off n ≡ slice b at n
slice-Shifted a b off at zero p q h = slice-zero a off ∙ sym (slice-zero b at)
slice-Shifted a b off at (suc n) p q h =
    let e = h off at (omega arith) (omega arith) (omega arith) in
    let f =
      slice-Shifted a b (suc off) (suc at) n (omega (arith, p)) (omega (arith, q))
        (Shifted-tail a b off at n h) in
    slice-suc a off n (omega (arith, p)) ∙ rw (e, f) (sym (slice-suc b at n (omega (arith, q))))

-- A range of the buffer that is copied to another place of it.
splice-Shifted :
    (buf : List ℕ) (off at n : ℕ)
    → off + n ≤ length buf
    → at + n ≤ length buf
    → Shifted (splice buf off (slice buf at n)) buf off at n
unfolding splice
splice-Shifted buf off at zero p q j m e l h = absurd (omega (arith, l, h))
splice-Shifted buf off at (suc n) p q j m e l h =
    let rest = splice buf (suc off) (slice buf (suc at) n) in
    let len = length-splice buf (suc off) (slice buf (suc at) n) in
    let split : (j ≡ off) ⊎ (off < j) = omega (arith, l) in
    rw (slice-suc buf at n (omega (arith, q))) (elim split [
      | inl here ↦
          let same : m ≡ at = omega (arith, e, here) in
          rw (here, same) (get_or-set_self rest off (get_or buf at 0) 0 (omega (arith, len, p)))
      | inr behind ↦
          get_or-set_ne rest off j (get_or buf at 0) 0 (λ x. omega (arith, x, behind))
          ∙ splice-Shifted buf (suc off) (suc at) n (omega (arith, p)) (omega (arith, q)) j m
              (omega (arith, e)) (omega (arith, behind)) (omega (arith, h))
    ])

pub get_or-poke_apart :
    (buf : List ℕ) (off w v j : ℕ)
    → (j < off) ⊎ (off + w ≤ j)
    → get_or (poke buf off w v) j 0 ≡ get_or buf j 0
unfolding poke
get_or-poke_apart buf off w v j h =
    get_or-splice_apart buf off (le_bytes w v) j 0 (rw (length-le_bytes w v) h)

-- The block in which the next entry, of `n` bytes, was moved over the entry of `len` bytes.
module _ (buf : List ℕ) (off len n : ℕ) (inside : off + len + n ≤ length buf) (some_len : 8 ≤ len)
    (room : Dirent.size + get buf (off + len) Dirent.name_len ≤ n) (short : length buf < 2 ^ 16)
    (next_len : get buf (off + len) Dirent.len ≡ n) where
  abbrev moved : List ℕ
  moved = splice buf off (slice buf (off + len) n)

  abbrev pub merged : List ℕ
  merged = put moved off Dirent.len ((get moved off Dirent.len + len) % 2 ^ 16)

  moved-Shifted : Shifted moved buf off (off + len) n
  moved-Shifted =
      splice-Shifted buf off (off + len) n (omega (arith, inside)) (omega (arith, inside))

  pub length-merged : length merged ≡ length buf
  length-merged =
      length-poke moved (off + 4) 2 ((get moved off Dirent.len + len) % 2 ^ 16)
      ∙ length-splice buf off (slice buf (off + len) n)

  pub merged_keeps : (j : ℕ) → (j < off) ⊎ (off + len + n ≤ j) → get_or merged j 0 ≡ get_or buf j 0
  merged_keeps j h =
      let copied = length-slice buf (off + len) n inside in
      get_or-poke_apart moved (off + 4) 2 ((get moved off Dirent.len + len) % 2 ^ 16) j
        (omega (arith, h, room))
      ∙ get_or-splice_apart buf off (slice buf (off + len) n) j 0 (omega (arith, h, copied))

  merged_field :
      (o u : ℕ)
      → (o + u ≤ 4) ⊎ (6 ≤ o)
      → o + u ≤ n
      → peek merged (off + o) u ≡ peek buf (off + len + o) u
  merged_field o u h fits = peek-Shifted merged buf (off + o) (off + len + o) u (λ j m e p q.
      get_or-poke_apart moved (off + 4) 2 ((get moved off Dirent.len + len) % 2 ^ 16) j
        (omega (arith, h, p, q))
      ∙ moved-Shifted j m (omega (arith, e)) (omega (arith, p)) (omega (arith, q, fits)))

  merged_name : name_at merged off ≡ name_at buf (off + len)
  merged_name =
      let k = get buf (off + len) Dirent.name_len in
      ap (λ k. slice merged (off + 8) k)
        (merged_field 6 1 (inr (omega arith)) (omega (arith, room)))
      ∙ slice-Shifted merged buf (off + 8) (off + len + 8) k
          (omega (arith, length-merged, inside, room)) (omega (arith, inside, room))
          (λ j m e p q.
            get_or-poke_apart moved (off + 4) 2 ((get moved off Dirent.len + len) % 2 ^ 16) j
              (inr (omega (arith, p)))
            ∙ moved-Shifted j m (omega (arith, e)) (omega (arith, p)) (omega (arith, q, room)))

  merged_room : get merged off Dirent.len ≡ n + len
  merged_room =
      let before : get moved off Dirent.len ≡ n =
        peek-Shifted moved buf (off + 4) (off + len + 4) 2 (λ j m e p q.
          moved-Shifted j m (omega (arith, e)) (omega (arith, p)) (omega (arith, q, room)))
        ∙ next_len in
      let fits : n + len < 2 ^ 16 = omega (arith, inside, short) in
      let sum : (get moved off Dirent.len + len) % 2 ^ 16 ≡ n + len = omega (arith, before, fits) in
      peek-poke moved (off + 4) 2 ((get moved off Dirent.len + len) % 2 ^ 16)
        (omega (arith, length-splice buf off (slice buf (off + len) n), inside, room))
        (omega (arith, sum, fits))
      ∙ sum

  -- The next entry stands where the removed one stood, and takes the room of both.
  pub merged-Chain :
      {rest : List Item}
      → Chain buf (off + len + n) rest
      → Chain merged off (item_at buf (off + len) ∷ rest)
  merged-Chain {rest} chain =
      let same = length-merged in
      let behind : off + (n + len) ≡ off + len + n = omega arith in
      let others : Chain merged (off + len + n) rest =
        Chain-congr same (λ j l m. merged_keeps j (inr (omega (arith, l)))) chain in
      Chain-fields (merged_field 0 4 (inl (omega arith)) (omega (arith, room))) merged_name
        merged_room (merged_field 6 1 (inr (omega arith)) (omega (arith, room)))
        (omega (arith, room)) (omega (arith, same, inside)) (rw behind others)
