-- ===== src/Shell/Line/Trim.antt =====
-- What is left of a line when the white space at its end is cut off.
use fs_playground.Base.{
  ℕ, suc, ◌≡◌, refl, sym, ◌∙◌, Bool, true, false, ◌&&◌, none, some, [], ◌∷◌, ◌++◌, CString, length,
  get_or, take, arith,
}
use fs_playground.Shell.Scan.{is_space}
use fs_playground.Shell.Line.{trim_spaces}

-- Every byte is white space.
unfoldable pub all_spaces : CString → Bool
all_spaces [] = true
all_spaces (c ∷ cs) = is_space c && all_spaces cs

abbrev pub snoc : CString → ℕ → CString
snoc cs c = cs ++ (c ∷ [])

append_nil : (xs : CString) → xs ++ [] ≡ xs
append_nil [] = refl
append_nil (x ∷ xs) = rw (append_nil xs) refl

pub append_assoc : (xs ys zs : CString) → (xs ++ ys) ++ zs ≡ xs ++ (ys ++ zs)
append_assoc [] ys zs = refl
append_assoc (x ∷ xs) ys zs = rw (append_assoc xs ys zs) refl

take-snoc : (xs : CString) (w : ℕ) → take (length xs) (snoc xs w) ≡ xs
take-snoc [] w = refl
take-snoc (x ∷ xs) w = rw (take-snoc xs w) refl

get_or-snoc : (xs : CString) (w : ℕ) → get_or (snoc xs w) (length xs) 0 ≡ w
get_or-snoc [] w = refl
get_or-snoc (x ∷ xs) w = get_or-snoc xs w

length-snoc : (xs : CString) (w : ℕ) → length (snoc xs w) ≡ suc (length xs)
length-snoc [] w = refl
length-snoc (x ∷ xs) w = rw (length-snoc xs w) refl

-- One round.
trim-space :
    (xs : CString) (w : ℕ)
    → is_space w ≡ true
    → trim_spaces (length (snoc xs w)) (snoc xs w) ≡ trim_spaces (length xs) xs
unfolding trim_spaces
trim-space xs w h = rw (length-snoc xs w, get_or-snoc xs w, h, take-snoc xs w) refl

trim-stop :
    (xs : CString) (c : ℕ)
    → is_space c ≡ false
    → trim_spaces (length (snoc xs c)) (snoc xs c) ≡ some (snoc xs c)
unfolding trim_spaces
trim-stop xs c h = rw (length-snoc xs c, get_or-snoc xs c, h) refl

trim-append :
    (xs ws : CString)
    → all_spaces ws ≡ true
    → trim_spaces (length (xs ++ ws)) (xs ++ ws) ≡ trim_spaces (length xs) xs
unfolding all_spaces
trim-append xs [] h = rw (append_nil xs) refl
trim-append xs (w ∷ ws) h =
    let ih = trim-append (snoc xs w) ws (ground (arith, h)) in
    rw (sym (append_assoc xs (w ∷ []) ws)) (ih ∙ trim-space xs w (ground (arith, h)))

pub trim-blanks : (ws : CString) → all_spaces ws ≡ true → trim_spaces (length ws) ws ≡ none
unfolding trim_spaces
trim-blanks ws h = trim-append [] ws h

pub trim-line :
    (xs : CString) (c : ℕ) (ws : CString)
    → is_space c ≡ false
    → all_spaces ws ≡ true
    → trim_spaces (length (snoc xs c ++ ws)) (snoc xs c ++ ws) ≡ some (snoc xs c)
trim-line xs c ws stop h = trim-append (snoc xs c) ws h ∙ trim-stop xs c stop
