-- ===== src/Shell/Line/Words.antt =====
-- Which command a line is.
use fs_playground.Base.{
  ℕ, ◌≤◌, ◌<◌, ◌≡◌, refl, sym, ap, ==_iff, ◌∙◌, Bool, true, false, ◌&&◌, not, Option, none, some,
  [], ◌∷◌, ◌++◌, ◌==◌, ltb, if◌then◌else◌, CString, length, arith, ◌↔◌, ◌⊎◌, inl, inr, Bool-cases,
}
use mathlib.Core.Path.{subst}
use fs_playground.Shell.Scan.{is_space}
use fs_playground.Shell.Line.Trim.{all_spaces, snoc, append_assoc, trim-blanks, trim-line}
use fs_playground.Shell.Line.{
  trim_spaces, blank, until_blank, behind_blank, Call, split_line, parse_line,
}

-- No byte is a blank.
pub one_word : CString → Bool
one_word [] = true
one_word (c ∷ cs) = not (c == blank) && one_word cs

-- The lines by their parts: `cs` and `c`, which is no white space, are what is typed, and `ws` is
-- white space at the end.
pub data Typed : CString → Option Call → Type 0 where
  empty : (ws : CString) → all_spaces ws ≡ true → Typed ws none
  word :
      (cs : CString) (c : ℕ) (ws : CString)
      → one_word cs ≡ true
      → is_space c ≡ false
      → all_spaces ws ≡ true
      → Typed (snoc cs c ++ ws) (some (record { line = snoc cs c; cmd = snoc cs c; arg = [] }))
  words :
      (cmd cs : CString) (c : ℕ) (ws : CString)
      → one_word cmd ≡ true
      → length cmd < 64
      → is_space c ≡ false
      → all_spaces ws ≡ true
      → Typed
          ((cmd ++ (blank ∷ snoc cs c)) ++ ws)
          (some (record { line = cmd ++ (blank ∷ snoc cs c); cmd = cmd; arg = snoc cs c }))
  overlong :
      (cmd cs : CString) (c : ℕ) (ws : CString)
      → one_word cmd ≡ true
      → 64 ≤ length cmd
      → is_space c ≡ false
      → all_spaces ws ≡ true
      → Typed ((cmd ++ (blank ∷ snoc cs c)) ++ ws) none

behind_blank-word :
    (cs : CString) (c : ℕ)
    → one_word cs ≡ true
    → is_space c ≡ false
    → behind_blank (snoc cs c) ≡ none
unfolding behind_blank one_word is_space
behind_blank-word [] c h stop = ground (arith, stop)
behind_blank-word (x ∷ xs) c h stop =
    ground (arith, h, behind_blank-word xs c (ground (arith, h)) stop)

behind_blank-words :
    (cmd rest : CString) → one_word cmd ≡ true → behind_blank (cmd ++ (blank ∷ rest)) ≡ some rest
unfolding behind_blank one_word
behind_blank-words [] rest h = refl
behind_blank-words (x ∷ xs) rest h =
    ground (arith, h, behind_blank-words xs rest (ground (arith, h)))

until_blank-words :
    (cmd rest : CString) → one_word cmd ≡ true → until_blank (cmd ++ (blank ∷ rest)) ≡ cmd
unfolding until_blank one_word
until_blank-words [] rest h = refl
until_blank-words (x ∷ xs) rest h = ground (arith, h, until_blank-words xs rest (ground (arith, h)))

split_line-word :
    (line : CString)
    → behind_blank line ≡ none
    → split_line line ≡ some (record { line = line; cmd = line; arg = [] })
unfolding split_line
split_line-word line e = rw (split_line, e) refl

split_line-words :
    (line arg cmd : CString)
    → behind_blank line ≡ some arg
    → until_blank line ≡ cmd
    → split_line line
      ≡ (if ltb (length cmd) 64 then some (record { line = line; cmd = cmd; arg = arg }) else none)
unfolding split_line
split_line-words line arg cmd e f = rw (split_line, e, f) refl

parse_line-words :
    (cmd cs : CString) (c : ℕ) (ws : CString)
    → one_word cmd ≡ true
    → is_space c ≡ false
    → all_spaces ws ≡ true
    → let line = cmd ++ (blank ∷ snoc cs c) in
      parse_line (line ++ ws) ≡ (
        if ltb (length cmd) 64
        then some (record { line = line; cmd = cmd; arg = snoc cs c })
        else none)
unfolding parse_line
parse_line-words cmd cs c ws one stop h =
    let whole : snoc (cmd ++ (blank ∷ cs)) c ≡ cmd ++ (blank ∷ snoc cs c) =
      append_assoc cmd (blank ∷ cs) (c ∷ []) in
    let trimmed =
      subst (λ l. trim_spaces (length (l ++ ws)) (l ++ ws) ≡ some l) whole
        (trim-line (cmd ++ (blank ∷ cs)) c ws stop h) in
    rw (parse_line, trimmed)
      (split_line-words _ (snoc cs c) cmd (behind_blank-words cmd (snoc cs c) one)
        (until_blank-words cmd (snoc cs c) one))

parse_line-Typed : (line : CString) (call : Option Call) → Typed line call → parse_line line ≡ call
unfolding parse_line
parse_line-Typed _ _ (empty ws h) = rw (parse_line, trim-blanks ws h) refl
parse_line-Typed _ _ (word cs c ws one stop h) =
    rw (parse_line, trim-line cs c ws stop h)
      (split_line-word (snoc cs c) (behind_blank-word cs c one stop))
parse_line-Typed _ _ (words cmd cs c ws one lt stop h) =
    let e : ltb (length cmd) 64 ≡ true = ground (arith, lt) in
    parse_line-words cmd cs c ws one stop h ∙ rw e refl
parse_line-Typed _ _ (overlong cmd cs c ws one le stop h) =
    let e : ltb (length cmd) 64 ≡ false = ground (arith, le) in
    parse_line-words cmd cs c ws one stop h ∙ rw e refl

-- A line is white space, or has a last byte that is none.
LastWord : CString → Type 0
LastWord line =
    (cs : CString) × (c : ℕ) × (ws : CString) × (line ≡ snoc cs c ++ ws)
    × (is_space c ≡ false)
    × (all_spaces ws ≡ true)

last_word : (line : CString) → (all_spaces line ≡ true) ⊎ LastWord line
unfolding all_spaces LastWord
last_word [] = inl refl
last_word (x ∷ xs) = elim (last_word xs) [
  | inr (cs, c, ws, e, stop, h) ↦ inr (x ∷ cs, c, ws, rw e refl, stop, h)
  | inl h ↦ elim (Bool-cases (is_space x)) [
    | inl e ↦ inl (rw (e, h) refl)
    | inr e ↦ inr ([], x, xs, refl, e, h)
  ]
]

first_word :
    (cs : CString)
    → (one_word cs ≡ true)
      ⊎ ((cmd : CString) × (rest : CString) × (cs ≡ cmd ++ (blank ∷ rest)) × (one_word cmd ≡ true))
unfolding one_word
first_word [] = inl refl
first_word (x ∷ xs) = elim (Bool-cases (x == blank)) [
  | inl e ↦ inr ([], xs, ap (λ y. y ∷ xs) ((==_iff x blank).0 e), refl)
  | inr e ↦ elim (first_word xs) [
    | inl h ↦ inl (rw (e, h) refl)
    | inr (cmd, rest, eq, h) ↦ inr (x ∷ cmd, rest, rw eq refl, rw (e, h) refl)
  ]
]

Typed-words :
    (cmd cs : CString) (c : ℕ) (ws : CString)
    → one_word cmd ≡ true
    → is_space c ≡ false
    → all_spaces ws ≡ true
    → (call : Option Call) × Typed ((cmd ++ (blank ∷ snoc cs c)) ++ ws) call
Typed-words cmd cs c ws one stop h = elim (Bool-cases (ltb (length cmd) 64)) [
  | inl e ↦ (_, words cmd cs c ws one (ground (arith, e)) stop h)
  | inr e ↦ (_, overlong cmd cs c ws one (ground (arith, e)) stop h)
]

-- Every line has its parts.
Typed-total : (line : CString) → (call : Option Call) × Typed line call
unfolding LastWord
Typed-total line = elim (last_word line) [
  | inl h ↦ (none, empty line h)
  | inr (cs, c, ws, e, stop, h) ↦ rw e (elim (first_word cs) [
    | inl one ↦ (_, word cs c ws one stop h)
    | inr (cmd, rest, eq, one) ↦
        rw (eq, append_assoc cmd (blank ∷ rest) (c ∷ [])) (Typed-words cmd rest c ws one stop h)
  ])
]

-- Parsing a line has a result exactly where the parts of the line say so: a line of white space
-- alone, or of a first word of at least 64 bytes with text behind it, makes the shell reach outside
-- a buffer; a line with one word calls it with an empty argument; and a line of a shorter word, a
-- blank and further text calls the word with that text; white space at the end is cut off.
pub parse_line_iff :
    (line : CString) (call : Option Call) → (parse_line line ≡ call) ↔ Typed line call
parse_line_iff line call = (
  λ e.
      let (call', t) = Typed-total line in
      subst (λ o. Typed line o) (sym (parse_line-Typed line call' t) ∙ e) t,
  parse_line-Typed line call,
)
