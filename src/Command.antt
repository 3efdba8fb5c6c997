-- ===== src/Command.antt =====
-- Commands over a state `S`. `fault` is a failed assert, a call of abort(), undefined behaviour, a
-- NULL or dangling pointer that is followed, or a buffer that is overrun; `out_of_fuel` is a loop
-- that has used its rounds up.
pub mod Laws
use fs_playground.Base.{Bool, true, false, Option, none, some}

pub data Run (S A : Type 0) : Type 0 where
  ok : A → S → Run S A
  fault : Run S A
  out_of_fuel : Run S A

abbrev pub Program : Type 0 → Type 0 → Type 0
Program S A = S → Run S A

module _ {S : Type 0} where
  abbrev pub pure : {A : Type 0} → A → Program S A
  pure a s = ok a s

  abbrev pub and_then : {A B : Type 0} → Run S A → (A → Program S B) → Run S B
  and_then (ok a s) k = k a s
  and_then fault k = fault
  and_then out_of_fuel k = out_of_fuel

  infixl 5 ◌>>=◌ ◌>>◌
  abbrev pub ◌>>=◌ : {A B : Type 0} → Program S A → (A → Program S B) → Program S B
  m >>= k = λ s. and_then (m s) k

  abbrev pub ◌>>◌ : {A B : Type 0} → Program S A → Program S B → Program S B
  m >> n = m >>= λ _. n

  -- `assert(b)`
  unfoldable pub check : Bool → Program S (Unit {0})
  check true s = ok tt s
  check false s = fault

  abbrev pub stop : {A : Type 0} → Program S A
  stop s = fault

  -- A value that must be there.
  unfoldable pub deref : {A : Type 0} → Option A → Program S A
  deref none s = fault
  deref (some a) s = ok a s
