-- ===== src/Cli/Tail/Suffix.antt =====
-- `readLastNLines` of internal/cli/logs.go: what it reads, against the lines of the file.
use tokenlive_standalone.Prelude.{
  ℕ, zero, suc, ◌<◌, true, List, [], ◌∷◌, ◌++◌, map, ◌≡◌, refl, sym, ap, ◌∙◌, inl, inr, arith,
  length, drop, eqb, All, Bool-cases, Bytes, split, onto_first,
}
use tokenlive_standalone.Cli.Tail.{
  max_token, whole_lines, drop_cr, fits, fitting, scan_lines, skip_first,
}

-- All lines of a text, of whatever length.
unfoldable pub lines_of : Bytes → List Bytes
unfolding whole_lines drop_cr split
lines_of s = map drop_cr (whole_lines (split b'\n' s))

-- No line, its carriage return included, is too long for the scanner.
abbrev pub AllFit : List Bytes → Type 0
AllFit ls = All (λ l. length l < max_token) ls

fitting-AllFit : (ls : List Bytes) → AllFit ls → fitting ls ≡ ls
unfolding fitting
fitting-AllFit [] h = refl
fitting-AllFit (l ∷ ls) h =
    let f : fits l ≡ true = ground (arith, h.0) in rw (f, fitting-AllFit ls h.1) refl

AllFit-whole_lines : (ls : List Bytes) → AllFit ls → AllFit (whole_lines ls)
unfolding whole_lines
AllFit-whole_lines [] h = tt
AllFit-whole_lines ([] ∷ []) h = tt
AllFit-whole_lines ((c ∷ l) ∷ []) h = h
AllFit-whole_lines ([] ∷ (l' ∷ ls)) h = (h.0, AllFit-whole_lines (l' ∷ ls) h.1)
AllFit-whole_lines ((c ∷ l) ∷ (l' ∷ ls)) h = (h.0, AllFit-whole_lines (l' ∷ ls) h.1)

pub scan_lines-AllFit : (s : Bytes) → AllFit (split b'\n' s) → scan_lines s ≡ lines_of s
unfolding scan_lines lines_of
scan_lines-AllFit s h =
    ap (map drop_cr)
      (fitting-AllFit (whole_lines (split b'\n' s)) (AllFit-whole_lines (split b'\n' s) h))

AllFit-rest : (c x : ℕ) (s : Bytes) → AllFit (split c (x ∷ s)) → AllFit (split c s)
unfolding split
AllFit-rest c x s h = elim (Bool-cases (eqb x c)) [
  | inl y ↦ (rw y at h).1
  | inr y ↦ shorter (split c s) (rw y at h)
]
  where
    shorter : (ls : List Bytes) → AllFit (onto_first x ls) → AllFit ls
    shorter [] g = tt
    shorter (l ∷ ls) g = (omega (arith, g.0), g.1)

pub AllFit-drop : (c k : ℕ) (s : Bytes) → AllFit (split c s) → AllFit (split c (drop k s))
AllFit-drop c zero s h = h
AllFit-drop c (suc k) [] h = h
AllFit-drop c (suc k) (x ∷ s) h = AllFit-drop c k s (AllFit-rest c x s h)

-- The pieces of a text are one, and more for each separator.
split-cons : (c : ℕ) (s : Bytes) → (l : Bytes) × (ls : List Bytes) × (split c s ≡ l ∷ ls)
unfolding split
split-cons c [] = ([], [], refl)
split-cons c (x ∷ s) =
    let (l, ls, e) = split-cons c s in
    elim (Bool-cases (eqb x c)) [
      | inl y ↦ ([], split c s, rw y refl)
      | inr y ↦ (x ∷ l, ls, rw (y, e) refl)
    ]

-- A list ends in another.
abbrev pub EndsIn {ℓ} : {A : Type ℓ} → List A → List A → Type ℓ
EndsIn {A = A} xs ys = (front : List A) × (xs ≡ front ++ ys)

pub EndsIn-skip_first : (ls : List Bytes) → EndsIn ls (skip_first ls)
EndsIn-skip_first [] = ([], refl)
EndsIn-skip_first (l ∷ ls) = (l ∷ [], refl)

append_append : {A : Type 0} (xs ys zs : List A) → (xs ++ ys) ++ zs ≡ xs ++ (ys ++ zs)
append_append [] ys zs = refl
append_append (x ∷ xs) ys zs = ap (λ l. x ∷ l) (append_append xs ys zs)

pub EndsIn-trans : {A : Type 0} (xs ys zs : List A) → EndsIn xs ys → EndsIn ys zs → EndsIn xs zs
EndsIn-trans xs ys zs (f, e) (g, d) =
    (f ++ g, e ∙ (ap (λ l. f ++ l) d ∙ sym (append_append f g zs)))

skip_first-cons :
    (c x : ℕ) (s : Bytes) → EndsIn (skip_first (split c (x ∷ s))) (skip_first (split c s))
unfolding split
skip_first-cons c x s = elim (Bool-cases (eqb x c)) [
  | inl y ↦ rw y (EndsIn-skip_first (split c s))
  | inr y ↦ let (l, ls, e) = split-cons c s in rw (y, e) ([], refl)
]

-- What follows the first separator behind a cut also follows the first separator.
pub skip_first-drop :
    (c k : ℕ) (s : Bytes) → EndsIn (skip_first (split c s)) (skip_first (split c (drop k s)))
skip_first-drop c zero s = ([], refl)
skip_first-drop c (suc k) [] = ([], refl)
skip_first-drop c (suc k) (x ∷ s) =
    EndsIn-trans (skip_first (split c (x ∷ s))) (skip_first (split c s))
      (skip_first (split c (drop k s))) (skip_first-cons c x s) (skip_first-drop c k s)
