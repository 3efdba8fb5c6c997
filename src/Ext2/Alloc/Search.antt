-- ===== src/Ext2/Alloc/Search.antt =====
-- The search for a clear bit in src/ext2/ext2alloc.c.
use fs_playground.Base.{
  ℕ, zero, suc, ◌+◌, ◌-◌, ◌*◌, ◌/◌, ◌%◌, ◌^◌, ◌≤◌, ◌<◌, ◌≡◌, refl, ◌∙◌, ap, sym, true, false,
  Option, some, List, length, ltb, leb, ◌==◌, Bool-cases, ◌⊎◌, inl, inr, arith, bit, Option-cases,
}
use fs_playground.Command.{ok, check}
use fs_playground.Command.Laws.{and_then-ok}
use fs_playground.Ext2.Alloc.{Kind, word, first_zero, find_bit, ends_search}
use fs_playground.Ext2.Disk.{Ext2, within}
use fs_playground.Ext2.Layout.{u32}

-- The first clear bit of a word from bit `k` on, where `1 << k` is defined.
pub record FirstClear (qw k j : ℕ) : Type 0 where
  pub clear : bit qw j ≡ false
  pub defined : j < 31
  pub from : k ≤ j
  pub set_before : (i : ℕ) → k ≤ i → i < j → bit qw i ≡ true

-- A number in a group whose bit is clear in the bitmap, and set in none of the words before.
pub record IsFree (bitmap : List ℕ) (first n : ℕ) : Type 0 where
  pub from : first ≤ n / 64
  pub there : 8 * (n / 64) + 8 ≤ length bitmap
  pub clear : FirstClear (word bitmap (n / 64)) 0 (n % 64)

module _ {K : Type 0} where
  first_zero_step :
      (rounds qw k : ℕ) (s : Ext2 K) {j : ℕ} {t : Ext2 K}
      → first_zero (suc rounds) qw k s ≡ ok (some j) t
      → (k < 31)
        × (((bit qw k ≡ false) × (k ≡ j) × (s ≡ t))
            ⊎ ((bit qw k ≡ true) × (first_zero rounds qw (suc k) s ≡ ok (some j) t)))
  unfolding first_zero check
  first_zero_step rounds qw k s h = elim (Bool-cases (ltb k 31)) [
    | inr a ↦ let h' = rw a at h in absurd (ground (arith, h'))
    | inl a ↦ elim (Bool-cases (bit qw k)) [
      | inl b ↦ (ground (arith, a), inr (b, rw (a, b) at h))
      | inr b ↦
          let h' = rw (a, b) at h in
          (ground (arith, a), inl (b, ground (arith, h'), ground (arith, h')))
    ]
  ]

  pub first_zero-FirstClear :
      (rounds qw k : ℕ) (s : Ext2 K) {j : ℕ} {t : Ext2 K}
      → first_zero rounds qw k s ≡ ok (some j) t
      → FirstClear qw k j × (s ≡ t)
  unfolding first_zero
  first_zero-FirstClear zero qw k s h = absurd (ground (arith, h))
  first_zero-FirstClear (suc rounds) qw k s {j} h =
      let (small, ends) = first_zero_step rounds qw k s h in
      elim ends [
        | inl (b, e, same) ↦ (
          record {
            clear = ap (bit qw) (sym e) ∙ b;
            defined = omega arith;
            from = omega arith;
            set_before = λ i le lt. absurd (omega (arith, e));
          },
          same,
        )
        | inr (b, more) ↦
            let (f, same) = first_zero-FirstClear rounds qw (suc k) s more in
            (
              record {
                clear = f.clear;
                defined = f.defined;
                from = omega (arith, f.from);
                set_before = λ i le lt. elim (Bool-cases (i == k)) [
                  | inl e ↦ let e' : i ≡ k = ground (arith, e) in ap (bit qw) e' ∙ b
                  | inr ne ↦ f.set_before i (ground (arith, ne)) lt
                ];
              },
              same,
            )
      ]

  first_zero_same :
      (rounds qw k : ℕ) (s : Ext2 K) {found : Option ℕ} {t : Ext2 K}
      → first_zero rounds qw k s ≡ ok found t
      → s ≡ t
  unfolding first_zero check
  first_zero_same zero qw k s h = ground (arith, h)
  first_zero_same (suc rounds) qw k s h = elim (Bool-cases (ltb k 31)) [
    | inr a ↦ let h' = rw a at h in absurd (ground (arith, h'))
    | inl a ↦ elim (Bool-cases (bit qw k)) [
      | inl b ↦ first_zero_same rounds qw (suc k) s (rw (a, b) at h)
      | inr b ↦ let h' = rw (a, b) at h in ground (arith, h')
    ]
  ]

  find_bit_step :
      (kind : Kind) (base rounds : ℕ) (buf : List ℕ) (j : ℕ) (s : Ext2 K) {n : ℕ} {t : Ext2 K}
      → find_bit kind base (suc rounds) buf j s ≡ ok (some n) t
      → (8 * j + 8 ≤ length buf)
        × (((u : Ext2 K) × (find_bit kind base rounds buf (suc j) u ≡ ok (some n) t) × (s ≡ u))
            ⊎ ((k : ℕ) × FirstClear (word buf j) 0 k × (n ≡ k + j * 64) × (s ≡ t)))
  unfolding find_bit within check
  find_bit_step kind base rounds buf j s {n} {t} h =
      elim (Bool-cases (leb (8 * j + 8) (length buf))) [
        | inr a ↦ let h' = rw a at h in absurd (ground (arith, h'))
        | inl a ↦ elim (Bool-cases (word buf j == 2 ^ 64 - 1)) [
          | inl b ↦ (ground (arith, a), inl (s, rw (a, b) at h, refl))
          | inr b ↦
              let h₁ = rw (a, b) at h in
              let (found, u, e, h₂) = and_then-ok (first_zero 64 (word buf j) 0 s) _ h₁ in
              let same = first_zero_same 64 (word buf j) 0 s e in
              (
                ground (arith, a),
                elim (Option-cases found) [
                  | inl z ↦ inl (u, rw z at h₂, same)
                  | inr (k, z) ↦
                      elim (Bool-cases (ends_search kind (u32 (k + j * 64 + base + 1)))) [
                        | inr c ↦ inl (u, rw (z, c) at h₂, same)
                        | inl c ↦
                            let h₃ = rw (z, c) at h₂ in
                            let (f, _) = first_zero-FirstClear 64 (word buf j) 0 s (rw z at e) in
                            inr (k, f, ground (arith, h₃), same ∙ ground (arith, h₃))
                      ]
                ],
              )
        ]
      ]

  pub find_bit-IsFree :
      (kind : Kind) (base rounds : ℕ) (buf : List ℕ) (j : ℕ) (s : Ext2 K) {n : ℕ} {t : Ext2 K}
      → find_bit kind base rounds buf j s ≡ ok (some n) t
      → IsFree buf j n × (n / 64 < j + rounds) × (s ≡ t)
  unfolding find_bit
  find_bit-IsFree kind base zero buf j s h = absurd (ground (arith, h))
  find_bit-IsFree kind base (suc rounds) buf j s {n} h =
      let (there, ends) = find_bit_step kind base rounds buf j s h in
      elim ends [
        | inl (u, more, same) ↦
            let (f, lt, same') = find_bit-IsFree kind base rounds buf (suc j) u more in
            (
              record { from = omega (arith, f.from); there = f.there; clear = f.clear },
              omega (arith, lt),
              same ∙ same',
            )
        | inr (k, f, e, same) ↦
            let small = f.defined in
            let q : n / 64 ≡ j = omega (arith, e, small) in
            let r : n % 64 ≡ k = omega (arith, e, small) in
            (
              record {
                from = omega (arith, q);
                there = omega (arith, q, there);
                clear = rw (q, r) f;
              },
              omega (arith, q),
              same,
            )
      ]

  pub find_bit_same :
      (kind : Kind) (base rounds : ℕ) (buf : List ℕ) (j : ℕ) (s : Ext2 K) {found : Option ℕ}
      {t : Ext2 K}
      → find_bit kind base rounds buf j s ≡ ok found t
      → s ≡ t
  unfolding find_bit within check
  find_bit_same kind base zero buf j s h = ground (arith, h)
  find_bit_same kind base (suc rounds) buf j s h =
      elim (Bool-cases (leb (8 * j + 8) (length buf))) [
        | inr a ↦ let h' = rw a at h in absurd (ground (arith, h'))
        | inl a ↦ elim (Bool-cases (word buf j == 2 ^ 64 - 1)) [
          | inl b ↦ find_bit_same kind base rounds buf (suc j) s (rw (a, b) at h)
          | inr b ↦
              let h₁ = rw (a, b) at h in
              let (found', u, e, h₂) = and_then-ok (first_zero 64 (word buf j) 0 s) _ h₁ in
              let same = first_zero_same 64 (word buf j) 0 s e in
              elim (Option-cases found') [
                | inl z ↦ same ∙ find_bit_same kind base rounds buf (suc j) u (rw z at h₂)
                | inr (k, z) ↦ elim (Bool-cases (ends_search kind (u32 (k + j * 64 + base + 1)))) [
                  | inr c ↦ same ∙ find_bit_same kind base rounds buf (suc j) u (rw (z, c) at h₂)
                  | inl c ↦ let h₃ = rw (z, c) at h₂ in same ∙ ground (arith, h₃)
                ]
              ]
        ]
      ]
