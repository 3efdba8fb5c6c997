-- ===== src/Command/Laws.antt =====
-- Reasoning about commands: what a composed command that ends normally has run, and when a command
-- does not use its fuel up.
use fs_playground.Base.{◌≡◌, ◌≢◌, refl, Bool, true, false, Option, none, some, if◌then◌else◌, arith}
use fs_playground.Command.{Run, ok, fault, out_of_fuel, Program, and_then, check, deref}

module _ {S : Type 0} where
  pub and_then-ok :
      {A B : Type 0} (r : Run S A) (k : A → Program S B) {b : B} {t : S}
      → and_then r k ≡ ok b t
      → (a : A) × (s : S) × (r ≡ ok a s) × (k a s ≡ ok b t)
  and_then-ok (ok a s) k h = (a, s, refl, h)
  and_then-ok fault k h = cc
  and_then-ok out_of_fuel k h = cc

  pub check-ok :
      (b : Bool) (s : S) {u : Unit {0}} {t : S} → check b s ≡ ok u t → (b ≡ true) × (t ≡ s)
  unfolding check
  check-ok true s h = (refl, ground arith)
  check-ok false s h = cc

  pub deref-ok :
      {A : Type 0} (o : Option A) (s : S) {a : A} {t : S}
      → deref o s ≡ ok a t
      → (o ≡ some a) × (t ≡ s)
  unfolding deref
  deref-ok none s h = cc
  deref-ok (some a) s h = (ground arith, ground arith)

  pub and_then-ends :
      {A B : Type 0} (r : Run S A) (k : A → Program S B)
      → r ≢ out_of_fuel
      → ((a : A) (s : S) → k a s ≢ out_of_fuel)
      → and_then r k ≢ out_of_fuel
  and_then-ends (ok a s) k e f = f a s
  and_then-ends fault k e f = ground arith
  and_then-ends out_of_fuel k e f = absurd (e refl)

  pub check-ends : (b : Bool) (s : S) → check b s ≢ out_of_fuel
  unfolding check
  check-ends true s = ground arith
  check-ends false s = ground arith

  pub if-ends :
      {A : Type 0} (b : Bool) (m n : Program S A) (s : S)
      → (b ≡ true → m s ≢ out_of_fuel)
      → (b ≡ false → n s ≢ out_of_fuel)
      → (if b then m else n) s ≢ out_of_fuel
  if-ends true m n s f g = f refl
  if-ends false m n s f g = g refl

  pub ok-ends : {A : Type 0} (a : A) (s : S) → ok a s ≢ out_of_fuel
  ok-ends a s = ground arith
