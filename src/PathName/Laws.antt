-- ===== src/PathName/Laws.antt =====
-- What the path helpers of src/vfs.c return.
use mathlib.Core.List.{append-nil}
use fs_playground.Base.{
  ◌↔◌, ℕ, zero, suc, ◌<◌, ◌≡◌, ◌≢◌, refl, inl, inr, Bool, true, false, Option, none, some, [], ◌∷◌,
  ◌++◌, arith, ◌==◌, if◌then◌else◌, CString, length, take, drop, replicate, Option-cases,
  length-append, ◌∙◌, sym, ap, length-replicate,
}
use fs_playground.PathName.{
  slash, until_slash, from_slash, skip_slashes, or_null, path_element, last_slash, path_parent,
  path_basename, element_at,
}

abbrev pub has_slash : CString → Bool
has_slash [] = false
has_slash (c ∷ cs) = if c == slash then true else has_slash cs

abbrev pub starts_slash : CString → Bool
starts_slash [] = false
starts_slash (c ∷ cs) = c == slash

abbrev pub text : Option CString → CString
text none = []
text (some p) = p

until_slash-pure : (s : CString) → has_slash (until_slash s) ≡ false
unfolding until_slash
until_slash-pure [] = refl
until_slash-pure (c ∷ cs) = ground (arith, until_slash-pure cs)

-- The slashes that `skip_slashes` drops.
leading : CString → ℕ
leading [] = 0
leading (c ∷ cs) = let rest = leading cs in if c == slash then suc rest else 0

skip_slashes-leading : (s : CString) → s ≡ replicate (leading s) slash ++ skip_slashes s
unfolding leading skip_slashes
skip_slashes-leading [] = refl
skip_slashes-leading (c ∷ cs) = ground (arith, skip_slashes-leading cs)

skip_slashes-stops : (s : CString) → starts_slash (skip_slashes s) ≡ false
unfolding skip_slashes
skip_slashes-stops [] = refl
skip_slashes-stops (c ∷ cs) = ground (arith, skip_slashes-stops cs)

text-or_null : (s : CString) → text (or_null s) ≡ s
unfolding or_null
text-or_null [] = refl
text-or_null (c ∷ cs) = refl

from_slash-some :
    (s sep : CString)
    → from_slash s ≡ some sep
    → (s ≡ until_slash s ++ sep) × (starts_slash sep ≡ true)
unfolding from_slash until_slash
from_slash-some [] sep h = cc
from_slash-some (c ∷ cs) sep h = ground (arith, from_slash-some cs sep)

from_slash-none : (s : CString) → from_slash s ≡ none → has_slash s ≡ false
unfolding from_slash
from_slash-none [] h = refl
from_slash-none (c ∷ cs) h = ground (arith, from_slash-none cs)

leading-pos : (s : CString) → starts_slash s ≡ true → 0 < leading s
unfolding leading
leading-pos [] h = cc
leading-pos (c ∷ cs) h = ground arith

-- What `path_element` promises: the path is its first element, `n` slashes and the returned rest;
-- the element has no slash, the rest does not begin with one, and a rest is never empty.
pub record IsFirst (src e : CString) (rest : Option CString) : Type 0 where
  pub slashes : ℕ
  pub whole : src ≡ e ++ (replicate slashes slash ++ text rest)
  pub pure : has_slash e ≡ false
  pub clean : starts_slash (text rest) ≡ false
  pub more : rest ≢ none → (0 < slashes) × (text rest ≢ [])

or_null-more : (s : CString) → or_null s ≢ none → text (or_null s) ≢ []
unfolding or_null
or_null-more [] h = absurd (h refl)
or_null-more (c ∷ cs) h = λ e. cc

element_cases :
    (src : CString) (o : Option CString)
    → from_slash src ≡ o
    → IsFirst src (element_at src o).0 (element_at src o).1
unfolding element_at
element_cases src none h = record {
  slashes = 0;
  whole = sym (append-nil src);
  pure = from_slash-none src h;
  clean = refl;
  more = λ e. absurd (e refl);
}
element_cases src (some sep) h =
    let (e, s) = from_slash-some src sep h in
    record {
      slashes = leading sep;
      whole =
          e
          ∙ ap (λ t. until_slash src ++ t)
              (skip_slashes-leading sep
                ∙ ap (λ t. replicate (leading sep) slash ++ t)
                    (sym (text-or_null (skip_slashes sep))));
      pure = until_slash-pure src;
      clean = rw text-or_null (skip_slashes-stops sep);
      more = λ m. (leading-pos sep s, or_null-more (skip_slashes sep) m);
    }

-- The path is its first element, some slashes and the rest; the element has no slash, the rest does
-- not begin with one, and a rest that is given is not empty and stands behind at least one slash.
pub path_element-IsFirst : (src : CString) → IsFirst src (path_element src).0 (path_element src).1
path_element-IsFirst src = unfold path_element in element_cases src (from_slash src) refl

-- A rest that vfs_path_element gives back is shorter than the path.
pub length-path_element :
    (src rest : CString) → (path_element src).1 ≡ some rest → length rest < length src
length-path_element src rest h =
    let f = path_element-IsFirst src in
    let e : text (path_element src).1 ≡ rest = ap text h in
    let m = f.more (λ n. absurd (ground (arith, h, n))) in
    let total = ap length f.whole in
    omega (
      arith,
      total,
      m.0,
      ap length e,
      length-append (path_element src).0 (replicate f.slashes slash ++ text (path_element src).1),
      length-append (replicate f.slashes slash) (text (path_element src).1),
      length-replicate f.slashes slash,
    )

last_slash-none : (path : CString) → (last_slash path ≡ none) ↔ (has_slash path ≡ false)
unfolding last_slash
last_slash-none [] = (λ h. refl, λ h. refl)
last_slash-none (c ∷ cs) = ground (arith, last_slash-none cs)

last_slash-some :
    (path : CString) (i : ℕ)
    → last_slash path ≡ some i
    → (take i path ++ (slash ∷ drop (suc i) path) ≡ path) × (has_slash (drop (suc i) path) ≡ false)
unfolding last_slash
last_slash-some [] i h = cc
last_slash-some (c ∷ cs) zero h = ground (arith, last_slash-none cs)
last_slash-some (c ∷ cs) (suc i) h = ground (arith, last_slash-some cs i)

-- For a path with a slash, the parent path, a slash and the basename make up the path again, and
-- the basename has no slash.
pub parent-basename :
    (path : CString)
    → has_slash path ≡ true
    → (path_parent path ++ (slash ∷ path_basename path) ≡ path)
      × (has_slash (path_basename path) ≡ false)
unfolding path_parent path_basename
parent-basename path h = elim (Option-cases (last_slash path)) [
  | inl e ↦ absurd (ground (arith, e, last_slash-none path))
  | inr (i, e) ↦ rw e (last_slash-some path i e)
]

-- A path with no slash has no parent part, and is its own basename.
pub parent-basename_plain :
    (path : CString)
    → has_slash path ≡ false
    → (path_parent path ≡ []) × (path_basename path ≡ path)
unfolding path_parent path_basename
parent-basename_plain path h = rw ((last_slash-none path).1 h) (refl, refl)
