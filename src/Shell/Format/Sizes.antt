-- ===== src/Shell/Format/Sizes.antt =====
-- What `prettysz` prints.
use fs_playground.Base.{
  ℕ, zero, suc, ◌+◌, ◌*◌, ◌/◌, ◌%◌, ◌^◌, ◌≤◌, ◌<◌, ◌≡◌, refl, sym, ◌⊎◌, inl, inr, true, some,
  get_elem?, ◌∷◌, ◌++◌, ltb, Bool-cases, length, length-append, CString, arith,
}
use native.Mathlib.Nat.{div-div-eq-div-mul}
use fs_playground.Print.{bytes, dec}
use fs_playground.Print.Digits.{Numeral, dec-Numeral}
use fs_playground.Print.Widths.{length-dec}
use fs_playground.Shell.Format.{Scaled, scale, sizs, scaled_text, prettysz}

-- 1024 to the power `p`.
abbrev pub kib : ℕ → ℕ
kib zero = 1
kib (suc p) = kib p * 1024

-- A size in its unit: the first unit of which there are fewer than 1536, and the first decimal
-- digit of the rest that the last division left.
pub record IsScaled (sz : ℕ) (z : Scaled) : Type 0 where
  pub whole : z.f ≡ sz / kib z.pwr
  pub small : z.f < 1536
  pub first : (q : ℕ) → q < z.pwr → 1536 ≤ sz / kib q
  pub tenth : z.r ≤ 9
  pub digit : (q : ℕ) → z.pwr ≡ suc q → z.r ≡ sz / kib q % 1024 * 10 / 1024

-- The state of the loop after some rounds.
record Scaling (sz : ℕ) (z : Scaled) : Type 0 where
  pub whole : z.f ≡ sz / kib z.pwr
  pub first : (q : ℕ) → q < z.pwr → 1536 ≤ sz / kib q
  pub tenth : z.r ≤ 9
  pub digit : (q : ℕ) → z.pwr ≡ suc q → z.r ≡ sz / kib q % 1024 * 10 / 1024

abbrev divided : Scaled → Scaled
divided z = record { f = z.f / 1024; r = z.f % 1024 * 10 / 1024; pwr = suc z.pwr }

Scaling-divided : (sz : ℕ) (z : Scaled) → Scaling sz z → 1536 ≤ z.f → Scaling sz (divided z)
Scaling-divided sz z inv big = record {
  whole = rw (inv.whole) (div-div-eq-div-mul sz (kib z.pwr) 1024);
  first = λ q lt.
      let split : (q < z.pwr) ⊎ (q ≡ z.pwr) = omega (arith, lt) in
      elim split [ inl below ↦ inv.first q below | inr e ↦ rw (e, sym inv.whole) big ];
  tenth = omega arith;
  digit = λ q e. let same : q ≡ z.pwr = omega (arith, e) in rw (same, sym inv.whole) refl;
}

-- `rounds` rounds are enough for a number below 1536 times 1024 to that power.
scale-Scaling :
    (rounds sz : ℕ) (z : Scaled)
    → Scaling sz z
    → z.f < 1536 * kib rounds
    → (z' : Scaled) × (scale (suc rounds) z ≡ some z') × IsScaled sz z' × (z'.pwr ≤ z.pwr + rounds)
unfolding scale
scale-Scaling zero sz z inv lt =
    let small : z.f < 1536 = omega (arith, lt) in
    let e : ltb z.f 1536 ≡ true = ground (arith, small) in
    (
      z,
      rw e refl,
      record {
        whole = inv.whole;
        small = small;
        first = inv.first;
        tenth = inv.tenth;
        digit = inv.digit;
      },
      omega arith,
    )
scale-Scaling (suc rounds) sz z inv lt = elim (Bool-cases (ltb z.f 1536)) [
  | inl e ↦ (
    z,
    rw e refl,
    record {
      whole = inv.whole;
      small = ground (arith, e);
      first = inv.first;
      tenth = inv.tenth;
      digit = inv.digit;
    },
    omega arith,
  )
  | inr e ↦
      let big : 1536 ≤ z.f = ground (arith, e) in
      let (z', ran, scaled, le) =
        scale-Scaling rounds sz (divided z) (Scaling-divided sz z inv big) (omega (arith, lt)) in
      (z', rw e ran, scaled, omega (arith, le))
]

-- The names of the units, by the power of 1024.
abbrev pub unit_name : ℕ → CString
unit_name zero = bytes "B"
unit_name (suc zero) = bytes "KiB"
unit_name (suc (suc zero)) = bytes "MiB"
unit_name (suc (suc (suc zero))) = bytes "GiB"
unit_name (suc (suc (suc (suc zero)))) = bytes "TiB"
unit_name (suc (suc (suc (suc (suc zero))))) = bytes "PiB"
unit_name (suc (suc (suc (suc (suc (suc n)))))) = bytes "EiB"

-- The text of a size: the numeral of its number in the unit, for a unit above the byte a point and
-- the digit, and the name of the unit.
pub record SizeText (sz : ℕ) (text : CString) : Type 0 where
  pub scaled : Scaled
  pub right : IsScaled sz scaled
  pub has_unit : scaled.pwr ≤ 6
  pub digits : CString
  pub numeral : Numeral digits scaled.f
  pub in_bytes : scaled.pwr ≡ 0 → text ≡ digits ++ bytes "B"
  pub in_unit : 0 < scaled.pwr → text ≡ digits ++ (b'.' ∷ (b'0' + scaled.r) ∷ unit_name scaled.pwr)
  pub fits : length text < 24

abbrev started : ℕ → Scaled
started sz = record { f = sz; r = 0; pwr = 0 }

started-Scaling : (sz : ℕ) → Scaling sz (started sz)
started-Scaling sz = record {
  whole = omega arith;
  first = λ q lt. absurd (omega (arith, lt));
  tenth = omega arith;
  digit = λ q e. absurd (omega (arith, e));
}

sizs-unit :
    (p : ℕ) → p < 6 → (x : ℕ) × (get_elem? sizs p ≡ some x) × (unit_name (suc p) ≡ x ∷ bytes "iB")
unfolding sizs
sizs-unit zero lt = (b'K', refl, refl)
sizs-unit (suc zero) lt = (b'M', refl, refl)
sizs-unit (suc (suc zero)) lt = (b'G', refl, refl)
sizs-unit (suc (suc (suc zero))) lt = (b'T', refl, refl)
sizs-unit (suc (suc (suc (suc zero)))) lt = (b'P', refl, refl)
sizs-unit (suc (suc (suc (suc (suc zero))))) lt = (b'E', refl, refl)
sizs-unit (suc (suc (suc (suc (suc (suc p)))))) lt = absurd (omega (arith, lt))

-- The text that is shown for a number of units.
abbrev unit_text : ℕ → ℕ → ℕ → CString
unit_text f r zero = dec f ++ bytes "B"
unit_text f r (suc p) = dec f ++ (b'.' ∷ (b'0' + r) ∷ unit_name (suc p))

with_unit :
    (f r pwr : ℕ)
    → f < 1536
    → pwr ≤ 6
    → (scaled_text (record { f = f; r = r; pwr = pwr }) ≡ some (unit_text f r pwr))
      × (length (unit_text f r pwr) < 24)
unfolding scaled_text
with_unit f r zero lt le =
    (refl, omega (arith, length-append (dec f) (bytes "B"), length-dec 3 f (omega (arith, lt))))
with_unit f r (suc p) lt le =
    let (unit, e, name) = sizs-unit p (omega (arith, le)) in
    let tail = b'.' ∷ (b'0' + r) ∷ unit ∷ bytes "iB" in
    (
      rw (e, name) refl,
      rw name (omega (arith, length-append (dec f) tail, length-dec 3 f (omega (arith, lt)))),
    )

unit_text-bytes : (f r pwr : ℕ) → pwr ≡ 0 → unit_text f r pwr ≡ dec f ++ bytes "B"
unit_text-bytes f r pwr e = rw e refl

unit_text-unit :
    (f r pwr : ℕ) → 0 < pwr → unit_text f r pwr ≡ dec f ++ (b'.' ∷ (b'0' + r) ∷ unit_name pwr)
unit_text-unit f r zero lt = absurd (omega (arith, lt))
unit_text-unit f r (suc p) lt = refl

prettysz-scaled :
    (sz : ℕ) (z : Scaled) (text : CString)
    → scale 7 (started sz) ≡ some z
    → scaled_text z ≡ some text
    → prettysz sz ≡ some text
unfolding prettysz
prettysz-scaled sz z text ran shown = rw (prettysz, ran) shown

-- For every size below 2^64 seven rounds are enough, and prettysz prints fewer than 24 bytes: the
-- decimal numeral, with no zeros in front, of the number of whole units in the first unit (a power
-- of 1024, at most the sixth) of which the size has fewer than 1536; for a unit above the byte a
-- point and the first decimal digit of what the last division left; and the unit's name, B, KiB,
-- MiB, GiB, TiB, PiB or EiB.
pub prettysz_lem :
    (sz : ℕ) → sz < 2 ^ 64 → (text : CString) × (prettysz sz ≡ some text) × SizeText sz text
prettysz_lem sz lt =
    let (z, ran, right, le) =
      scale-Scaling 6 sz (started sz) (started-Scaling sz) (omega (arith, lt)) in
    let (shown, fits) = with_unit z.f z.r z.pwr right.small (omega (arith, le)) in
    (
      unit_text z.f z.r z.pwr,
      prettysz-scaled sz z (unit_text z.f z.r z.pwr) ran shown,
      record {
        scaled = z;
        right = right;
        has_unit = omega (arith, le);
        digits = dec z.f;
        numeral = dec-Numeral z.f (omega (arith, right.small));
        in_bytes = unit_text-bytes z.f z.r z.pwr;
        in_unit = unit_text-unit z.f z.r z.pwr;
        fits = fits;
      },
    )
