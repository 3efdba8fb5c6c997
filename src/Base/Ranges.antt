-- ===== src/Base/Ranges.antt =====
-- A range that is read, changed in part, and written back.
use Prim.Native.Nat.{ℕ, zero, suc, ◌+◌, ◌-◌, ◌≤◌, ◌<◌}
use mathlib.Core.Path.{◌≡◌, refl, ap, ◌∙◌, sym}
use mathlib.Core.Logic.{◌⊎◌, inl, inr}
use mathlib.Core.List.{List, [], ◌∷◌}
use native.Mathlib.Omega.{arith}
use fs_playground.Base.Lists.{
  length, get_or, set, take, drop, length-take, length-drop, get_or-set_self, get_or-set_ne,
}
use fs_playground.Base.Tests.{Bool-cases, ltb}
use fs_playground.Base.Memory.{splice, slice, length-splice, get_or-splice_apart}

pub get_or_ext :
    (a b : List ℕ)
    → length a ≡ length b
    → ((j : ℕ) → j < length a → get_or a j 0 ≡ get_or b j 0)
    → a ≡ b
get_or_ext [] [] len h = refl
get_or_ext [] (y ∷ ys) len h = absurd (omega (arith, len))
get_or_ext (x ∷ xs) [] len h = absurd (omega (arith, len))
get_or_ext (x ∷ xs) (y ∷ ys) len h =
    let e : x ≡ y = h 0 (omega arith) in
    let f = get_or_ext xs ys (omega (arith, len)) (λ j lt. h (suc j) (omega arith)) in
    rw (e, f) refl

get_or-drop : (off : ℕ) (buf : List ℕ) (i : ℕ) → get_or (drop off buf) i 0 ≡ get_or buf (off + i) 0
get_or-drop zero buf i = ap (λ x. get_or buf x 0) (omega arith)
get_or-drop (suc off) [] i = refl
get_or-drop (suc off) (x ∷ xs) i =
    let e : suc (off + i) ≡ suc off + i = omega arith in
    get_or-drop off xs i ∙ ap (λ y. get_or (x ∷ xs) y 0) e

get_or-take : (n : ℕ) (xs : List ℕ) (i : ℕ) → i < n → get_or (take n xs) i 0 ≡ get_or xs i 0
get_or-take zero xs i lt = absurd (omega (arith, lt))
get_or-take (suc n) [] i lt = refl
get_or-take (suc n) (x ∷ xs) zero lt = refl
get_or-take (suc n) (x ∷ xs) (suc i) lt = get_or-take n xs i (omega arith)

pub get_or-slice :
    (buf : List ℕ) (off n i : ℕ) → i < n → get_or (slice buf off n) i 0 ≡ get_or buf (off + i) 0
unfolding slice
get_or-slice buf off n i lt = get_or-take n (drop off buf) i lt ∙ get_or-drop off buf i

pub get_or-splice_inside :
    (buf : List ℕ) (off : ℕ) (bs : List ℕ) (i : ℕ)
    → i < length bs
    → off + length bs ≤ length buf
    → get_or (splice buf off bs) (off + i) 0 ≡ get_or bs i 0
unfolding splice
get_or-splice_inside buf off [] i lt le = absurd (omega (arith, lt))
get_or-splice_inside buf off (b ∷ bs) zero lt le =
    let rest = splice buf (suc off) bs in
    let e : off + zero ≡ off = omega arith in
    ap (λ x. get_or (set rest off b) x 0) e
    ∙ get_or-set_self rest off b 0 (omega (arith, length-splice buf (suc off) bs))
get_or-splice_inside buf off (b ∷ bs) (suc i) lt le =
    let rest = splice buf (suc off) bs in
    let e : off + suc i ≡ suc off + i = omega arith in
    get_or-set_ne rest off (off + suc i) b 0 (λ e. omega (arith, e))
    ∙ ap (λ x. get_or rest x 0) e
    ∙ get_or-splice_inside buf (suc off) bs i (omega arith) (omega arith)

pub get_or-splice_within :
    (buf : List ℕ) (off : ℕ) (bs : List ℕ) (j : ℕ)
    → off ≤ j
    → j < off + length bs
    → off + length bs ≤ length buf
    → get_or (splice buf off bs) j 0 ≡ get_or bs (j - off) 0
get_or-splice_within buf off bs j ge lt le =
    let e : j ≡ off + (j - off) = omega arith in
    ap (λ x. get_or (splice buf off bs) x 0) e
    ∙ get_or-splice_inside buf off bs (j - off) (omega arith) le

pub take_all : (xs : List ℕ) → take (length xs) xs ≡ xs
take_all [] = refl
take_all (x ∷ xs) = ap (λ ys. x ∷ ys) (take_all xs)

pub splice_whole : (buf bs : List ℕ) → length bs ≡ length buf → splice buf 0 bs ≡ bs
splice_whole buf bs e = get_or_ext (splice buf 0 bs) bs (length-splice buf 0 bs ∙ sym e) (λ j lt.
    get_or-splice_within buf 0 bs j (omega arith) (omega (arith, lt, e, length-splice buf 0 bs))
      (omega (arith, e))
    ∙ ap (λ x. get_or bs x 0) (omega arith))

pub length-slice : (buf : List ℕ) (off n : ℕ) → off + n ≤ length buf → length (slice buf off n) ≡ n
unfolding slice
length-slice buf off n le = omega (arith, length-take n (drop off buf), length-drop off buf)

nested_at :
    (buf : List ℕ) (at n off : ℕ) (bs : List ℕ)
    → at + n ≤ length buf
    → off + length bs ≤ n
    → (j : ℕ) → at ≤ j
    → j < at + n
    → get_or (splice (slice buf at n) off bs) (j - at) 0 ≡ get_or (splice buf (at + off) bs) j 0
nested_at buf at n off bs le le' j ge lt =
    let part = slice buf at n in
    let here : at + (j - at) ≡ j = omega arith in
    let old : get_or part (j - at) 0 ≡ get_or buf j 0 =
      get_or-slice buf at n (j - at) (omega arith) ∙ ap (λ x. get_or buf x 0) here in
    let apart : ((j - at < off) ⊎ (off + length bs ≤ j - at))
        → ((j < at + off) ⊎ (at + off + length bs ≤ j))
        → get_or (splice part off bs) (j - at) 0 ≡ get_or (splice buf (at + off) bs) j 0 =
      λ a b.
        get_or-splice_apart part off bs (j - at) 0 a
        ∙ old
        ∙ sym (get_or-splice_apart buf (at + off) bs j 0 b) in
    elim (Bool-cases (ltb j (at + off))) [
      | inl a ↦ apart (inl (ground (arith, a))) (inl (ground (arith, a)))
      | inr a ↦ elim (Bool-cases (ltb j (at + off + length bs))) [
        | inr b ↦ apart (inr (ground (arith, b))) (inr (ground (arith, b)))
        | inl b ↦
            let e : j - at - off ≡ j - (at + off) = omega arith in
            get_or-splice_within part off bs (j - at) (ground (arith, a, ge))
              (ground (arith, b, ge)) (omega (arith, length-slice buf at n le))
            ∙ ap (λ x. get_or bs x 0) e
            ∙ sym (
                get_or-splice_within buf (at + off) bs j (ground (arith, a)) (ground (arith, b))
                  (omega arith))
      ]
    ]

pub splice-slice-splice :
    (buf : List ℕ) (at n off : ℕ) (bs : List ℕ)
    → at + n ≤ length buf
    → off + length bs ≤ n
    → splice buf at (splice (slice buf at n) off bs) ≡ splice buf (at + off) bs
splice-slice-splice buf at n off bs le le' =
    let inner = splice (slice buf at n) off bs in
    let in_len : length inner ≡ n =
      length-splice (slice buf at n) off bs ∙ length-slice buf at n le in
    let len : length (splice buf at inner) ≡ length (splice buf (at + off) bs) =
      length-splice buf at inner ∙ sym (length-splice buf (at + off) bs) in
    get_or_ext _ _ len (λ j lt. elim (Bool-cases (ltb j at)) [
      | inl a ↦
          get_or-splice_apart buf at inner j 0 (inl (ground (arith, a)))
          ∙ sym (get_or-splice_apart buf (at + off) bs j 0 (inl (ground (arith, a))))
      | inr a ↦ elim (Bool-cases (ltb j (at + n))) [
        | inr b ↦
            get_or-splice_apart buf at inner j 0 (inr (ground (arith, b, in_len)))
            ∙ sym (get_or-splice_apart buf (at + off) bs j 0 (inr (ground (arith, b, le'))))
        | inl b ↦
            get_or-splice_within buf at inner j (ground (arith, a)) (ground (arith, b, in_len))
              (omega (arith, in_len))
            ∙ nested_at buf at n off bs le le' j (ground (arith, a)) (ground (arith, b))
      ]
    ])

pub slice-slice :
    (buf : List ℕ) (at n off m : ℕ)
    → at + n ≤ length buf
    → off + m ≤ n
    → slice (slice buf at n) off m ≡ slice buf (at + off) m
slice-slice buf at n off m le le' =
    let part = slice buf at n in
    let part_len = length-slice buf at n le in
    let inner = length-slice part off m (omega (arith, part_len)) in
    let outer = length-slice buf (at + off) m (omega arith) in
    get_or_ext (slice part off m) (slice buf (at + off) m) (inner ∙ sym outer) (λ j lt.
      let e : at + (off + j) ≡ at + off + j = omega arith in
      get_or-slice part off m j (omega (arith, lt, inner))
      ∙ get_or-slice buf at n (off + j) (omega (arith, lt, inner))
      ∙ ap (λ x. get_or buf x 0) e
      ∙ sym (get_or-slice buf (at + off) m j (omega (arith, lt, inner))))
