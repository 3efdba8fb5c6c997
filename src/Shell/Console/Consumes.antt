-- ===== src/Shell/Console/Consumes.antt =====
-- Programs of the shell that do not make its input longer: a rule for each operation.
use fs_playground.Base.{
  ℕ, zero, suc, ◌-◌, ◌≤◌, ◌≡◌, refl, ap, Bool, true, false, Option, none, some, List, [], ◌∷◌,
  if◌then◌else◌, length, CString, arith,
}
use fs_playground.Command.{Run, ok, fault, out_of_fuel, check, deref, ◌>>=◌}
use fs_playground.Command.Laws.{and_then-ok, check-ok, deref-ok}
use fs_playground.Vfs.State.{Store, Ioctx}
use fs_playground.Vfs.Run.{Cmd}
use fs_playground.Shell.Console.{
  Console, Shell, vfs, ioctx, set_ioctx, print, print_error, fgets, behind_line, line_of,
}

pub length-behind_line : (n : ℕ) (input : List ℕ) → length (behind_line n input) ≤ length input
unfolding behind_line
length-behind_line zero input = omega arith
length-behind_line (suc n) [] = omega arith
length-behind_line (suc n) (b ∷ bs) = ground (arith, length-behind_line n bs)

module _ {D : Type 0} where
  -- A command that ends has not made the input longer.
  pub record Consumes {A : Type 0} (m : Shell D A) : Type 0 where
    pub shrinks :
        (s : Console D) {a : A} {t : Console D} → m s ≡ ok a t → length t.stdin ≤ length s.stdin

  module _ {A : Type 0} where
    pub Consumes-pure : (a : A) → Consumes (λ s. ok a s)
    Consumes-pure a = record { shrinks = λ s e. ground (arith, e) }

    pub Consumes-fault : Consumes {A = A} (λ s. fault)
    Consumes-fault = record { shrinks = λ s e. cc }

    pub Consumes-out_of_fuel : Consumes {A = A} (λ s. out_of_fuel)
    Consumes-out_of_fuel = record { shrinks = λ s e. cc }

    pub Consumes-if :
        (b : Bool) {m n : Shell D A} → Consumes m → Consumes n → Consumes (if b then m else n)
    Consumes-if true p q = p
    Consumes-if false p q = q

    pub Consumes-bind :
        {B : Type 0} {m : Shell D B} {k : B → Shell D A}
        → Consumes m
        → ((b : B) → Consumes (k b))
        → Consumes (m >>= k)
    Consumes-bind {m} {k} p q = record {
      shrinks = λ s e.
          let (b, u, first, second) = and_then-ok (m s) k e in
          omega (arith, p.shrinks s first, (q b).shrinks u second);
    }

    pub Consumes-option :
        {B : Type 0} (o : Option B) {m : Shell D A} {k : B → Shell D A}
        → Consumes m
        → ((b : B) → Consumes (k b))
        → Consumes (elim o [ none ↦ m | some b ↦ k b ])
    Consumes-option none p q = p
    Consumes-option (some b) p q = q b

    pub Consumes-deref : (o : Option A) → Consumes (deref o)
    Consumes-deref o = record {
      shrinks = λ s e. let (f, same) = deref-ok o s e in ground (arith, same);
    }

    vfs-stdin :
        (r : Run (Store D) A) (s : Console D) {a : A} {t : Console D}
        → (elim r as (λ _. Run (Console D) A) [
          | ok b u ↦ ok b (record s { store = u })
          | fault ↦ fault
          | out_of_fuel ↦ out_of_fuel
        ])
          ≡ ok a t
        → length t.stdin ≤ length s.stdin
    vfs-stdin (ok b u) s e = ground (arith, e)
    vfs-stdin fault s e = cc
    vfs-stdin out_of_fuel s e = cc

    pub Consumes-vfs : (m : Cmd D A) → Consumes (vfs m)
    unfolding vfs
    Consumes-vfs m = record { shrinks = λ s e. vfs-stdin (m s.store) s e }

  pub Consumes-check : (b : Bool) → Consumes (check b)
  Consumes-check b = record {
    shrinks = λ s e. let (f, same) = check-ok b s e in ground (arith, same);
  }

  pub Consumes-ioctx : Consumes ioctx
  unfolding ioctx
  Consumes-ioctx = record { shrinks = λ s e. ground (arith, e) }

  pub Consumes-set_ioctx : (ctx : Ioctx) → Consumes (set_ioctx ctx)
  unfolding set_ioctx
  Consumes-set_ioctx ctx = record { shrinks = λ s e. ground (arith, e) }

  pub Consumes-print : (text : CString) → Consumes (print text)
  unfolding print
  Consumes-print text = record { shrinks = λ s e. ground (arith, e) }

  pub Consumes-print_error : (text : CString) → Consumes (print_error text)
  unfolding print_error
  Consumes-print_error text = record { shrinks = λ s e. ground (arith, e) }

  fgets-stdin :
      (n : ℕ) (s : Console D) (input : List ℕ) {a : Option (List ℕ)} {t : Console D}
      → s.stdin ≡ input
      → (elim input as (λ _. Run (Console D) (Option (List ℕ))) [
        | [] ↦ ok none s
        | b ∷ bs ↦ ok (some (line_of n (b ∷ bs))) (record s { stdin = behind_line n (b ∷ bs) })
      ])
        ≡ ok a t
      → length t.stdin ≤ length s.stdin
  fgets-stdin n s [] same e = ground (arith, e)
  fgets-stdin n s (b ∷ bs) same e = ground (arith, e, length-behind_line n (b ∷ bs), ap length same)

  pub Consumes-fgets : (n : ℕ) → Consumes (fgets n)
  unfolding fgets
  Consumes-fgets n = record { shrinks = λ s e. fgets-stdin (n - 1) s s.stdin refl e }

pub ruleset consumes = (
  Consumes-bind, Consumes-pure, Consumes-fault, Consumes-out_of_fuel, Consumes-if, Consumes-option,
  Consumes-deref, Consumes-vfs, Consumes-check, Consumes-ioctx, Consumes-set_ioctx, Consumes-print,
  Consumes-print_error, Consumes-fgets,
)
