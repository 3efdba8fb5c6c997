-- ===== src/Shell/Loop/Turns.antt =====
-- The loop of `shell` as a relation without rounds, and how many rounds are enough.
use fs_playground.Base.{
  ℕ, zero, suc, ◌<◌, ◌≡◌, ◌≢◌, refl, ap, List, [], ◌∷◌, ◌++◌, length, arith, ◌⊎◌, inl, inr,
  Option-cases, Bool-cases, ◌==◌, none, some,
}
use fs_playground.Command.{Run, ok, fault, out_of_fuel, and_then, deref}
use fs_playground.Print.{bytes}
use fs_playground.Vfs.State.{Ofile, Env}
use fs_playground.Shell.Console.{Console, print, fgets, line_of, behind_line, up_to_nul}
use fs_playground.Shell.Console.Consumes.{length-behind_line}
use fs_playground.Shell.Line.{Call, parse_line}
use fs_playground.Shell.Loop.{dispatch, shell_line, shell}
use fs_playground.Shell.Loop.Reads.{shell_line-Consumes}

List-cases : (input : List ℕ) → (input ≡ []) ⊎ ((b : ℕ) × (bs : List ℕ) × (input ≡ b ∷ bs))
List-cases [] = inl refl
List-cases (b ∷ bs) = inr (b, bs, refl)

module _ {D : Type 0} where
  -- The prompt is printed.
  abbrev pub prompted : Console D → Console D
  prompted s = record s { stdout = s.stdout ++ bytes "> " }

  -- The next line is taken off the input: at most 255 bytes.
  abbrev pub read_line : Console D → Console D
  read_line s = record s { stdin = behind_line 255 s.stdin }

  module _ (env : Env D) (fuel : ℕ) (stack : Ofile) where
    -- What a session comes to. It ends at the end of the input, at a line that cannot be parsed, or
    -- in a command that does not end.
    pub data Session : Console D → Run (Console D) (Unit {0}) → Type 0 where
      ended : (s : Console D) → s.stdin ≡ [] → Session s (ok tt (prompted s))
      turn :
          (s u : Console D) (b : ℕ) (bs : List ℕ) (r : Run (Console D) (Unit {0}))
          → s.stdin ≡ b ∷ bs
          → shell_line env fuel stack (line_of 255 s.stdin) (read_line (prompted s)) ≡ ok tt u
          → Session u r
          → Session s r
      unparsed :
          (s : Console D) (b : ℕ) (bs : List ℕ)
          → s.stdin ≡ b ∷ bs
          → up_to_nul (line_of 255 s.stdin) ≢ []
          → parse_line (up_to_nul (line_of 255 s.stdin)) ≡ none
          → Session s fault
      crashed :
          (s : Console D) (b : ℕ) (bs : List ℕ) (call : Call)
          → s.stdin ≡ b ∷ bs
          → parse_line (up_to_nul (line_of 255 s.stdin)) ≡ some call
          → dispatch env fuel stack call (read_line (prompted s)) ≡ fault
          → Session s fault
      spun :
          (s : Console D) (b : ℕ) (bs : List ℕ) (call : Call)
          → s.stdin ≡ b ∷ bs
          → parse_line (up_to_nul (line_of 255 s.stdin)) ≡ some call
          → dispatch env fuel stack call (read_line (prompted s)) ≡ out_of_fuel
          → Session s out_of_fuel

    -- A line that does not end normally cannot be parsed, or its command does not.
    shell_line-fault :
        (line : List ℕ) (s : Console D)
        → shell_line env fuel stack line s ≡ fault
        → ((up_to_nul line ≢ []) × (parse_line (up_to_nul line) ≡ none))
          ⊎ ((call : Call) × (parse_line (up_to_nul line) ≡ some call)
              × (dispatch env fuel stack call s ≡ fault))
    unfolding shell_line deref
    shell_line-fault line s h = elim (Bool-cases (length (up_to_nul line) == 0)) [
      | inl e ↦ let h' = rw e at h in absurd (ground (arith, h'))
      | inr e ↦ elim (Option-cases (parse_line (up_to_nul line))) [
        | inl z ↦ inl (λ empty. ground (arith, e, ap length empty), z)
        | inr (call, z) ↦ inr (call, z, rw (e, z) at h)
      ]
    ]

    shell_line-spun :
        (line : List ℕ) (s : Console D)
        → shell_line env fuel stack line s ≡ out_of_fuel
        → (call : Call) × (parse_line (up_to_nul line) ≡ some call)
          × (dispatch env fuel stack call s ≡ out_of_fuel)
    unfolding shell_line deref
    shell_line-spun line s h = elim (Bool-cases (length (up_to_nul line) == 0)) [
      | inl e ↦ let h' = rw e at h in absurd (ground (arith, h'))
      | inr e ↦ elim (Option-cases (parse_line (up_to_nul line))) [
        | inl z ↦ let h' = rw (e, z) at h in absurd (ground (arith, h'))
        | inr (call, z) ↦ (call, z, rw (e, z) at h)
      ]
    ]

    shell-ended :
        (rounds : ℕ) (s : Console D)
        → s.stdin ≡ []
        → shell env fuel stack (suc rounds) s ≡ ok tt (prompted s)
    unfolding shell print fgets
    shell-ended rounds s e = rw e (ap (λ i. ok tt (record (prompted s) { stdin = i })) e)

    shell-turn :
        (rounds : ℕ) (s : Console D) (b : ℕ) (bs : List ℕ)
        → s.stdin ≡ b ∷ bs
        → shell env fuel stack (suc rounds) s
          ≡ and_then
              (shell_line env fuel stack (line_of 255 s.stdin) (read_line (prompted s)))
              (λ _. shell env fuel stack rounds)
    unfolding shell print fgets
    shell-turn rounds s b bs e = rw e refl

    shorter :
        (s : Console D) (b : ℕ) (bs : List ℕ)
        → s.stdin ≡ b ∷ bs
        → length (read_line s).stdin < length s.stdin
    unfolding behind_line
    shorter s b bs e = rw e (ground (arith, length-behind_line 254 bs))

    -- A round with a line, from what the rounds behind it come to.
    turn-Session :
        (rounds : ℕ) (s : Console D) (b : ℕ) (bs : List ℕ) (r : Run (Console D) (Unit {0}))
        → s.stdin ≡ b ∷ bs
        → length s.stdin < suc rounds
        → ((u : Console D) → length u.stdin < rounds → Session u (shell env fuel stack rounds u))
        → shell_line env fuel stack (line_of 255 s.stdin) (read_line (prompted s)) ≡ r
        → Session s (and_then r (λ _. shell env fuel stack rounds))
    turn-Session rounds s b bs (ok _ u) e lt next run =
        let consumes = shell_line-Consumes env fuel stack (line_of 255 s.stdin) in
        let less = consumes.shrinks (read_line (prompted s)) run in
        turn s u b bs (shell env fuel stack rounds u) e run
          (next u (omega (arith, lt, less, shorter s b bs e)))
    turn-Session rounds s b bs fault e lt next run =
        elim (shell_line-fault (line_of 255 s.stdin) (read_line (prompted s)) run) [
          | inl (some_line, bad) ↦ unparsed s b bs e some_line bad
          | inr (call, parsed, ran) ↦ crashed s b bs call e parsed ran
        ]
    turn-Session rounds s b bs out_of_fuel e lt next run =
        let (call, parsed, ran) =
          shell_line-spun (line_of 255 s.stdin) (read_line (prompted s)) run in
        spun s b bs call e parsed ran

    -- With more rounds than the input has bytes, the loop of the shell makes exactly a session: it
    -- takes one line after another off the input, at most 255 bytes at a time, and ends normally at
    -- the end of the input; it stops with a fault only at a line that is not empty and cannot be
    -- parsed, or where the command of a line does; and it uses fuel up only where the command of a
    -- line does.
    pub shell-Session :
        (rounds : ℕ) (s : Console D)
        → length s.stdin < rounds
        → Session s (shell env fuel stack rounds s)
    shell-Session zero s lt = absurd (omega (arith, lt))
    shell-Session (suc rounds) s lt = elim (List-cases s.stdin) [
      | inl e ↦ rw (shell-ended rounds s e) (ended s e)
      | inr (b, bs, e) ↦
          rw (shell-turn rounds s b bs e)
            (turn-Session rounds s b bs _ e lt (shell-Session rounds) refl)
    ]
