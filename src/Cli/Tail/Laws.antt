-- ===== src/Cli/Tail/Laws.antt =====
-- `readLastNLines` on every file and number.
use tokenlive_standalone.Prelude.{
  ℕ, zero, suc, ◌-◌, ◌≤◌, ◌<◌, Bool, true, false, List, [], ◌∷◌, ◌++◌, Option, none, some, map, ◌≡◌,
  refl, sym, ap, ◌∙◌, ◌↔◌, subst, inl, inr, arith, length, drop, ltb, Bool-cases, Bytes, split,
  length-drop,
}
use tokenlive_standalone.Cli.Tail.{
  ℤ, pos, negsuc, lines_read, panics, whole_lines, drop_cr, scan_lines, last_lines, small_size,
  seek_size, skip_first, tail_lines, read_last_n_lines,
}
use tokenlive_standalone.Cli.Tail.Suffix.{
  lines_of, AllFit, AllFit-drop, scan_lines-AllFit, EndsIn, EndsIn-trans, EndsIn-skip_first,
  skip_first-drop,
}

whole_lines-cons :
    (l l' : Bytes) (ls : List Bytes) → whole_lines (l ∷ (l' ∷ ls)) ≡ l ∷ whole_lines (l' ∷ ls)
unfolding whole_lines
whole_lines-cons [] l' ls = refl
whole_lines-cons (c ∷ l) l' ls = refl

whole_lines-append :
    (front : List Bytes) (y : Bytes) (ys : List Bytes)
    → whole_lines (front ++ (y ∷ ys)) ≡ front ++ whole_lines (y ∷ ys)
whole_lines-append [] y ys = refl
whole_lines-append (f ∷ []) y ys = whole_lines-cons f y ys
whole_lines-append (f ∷ (g ∷ front)) y ys =
    whole_lines-cons f g (front ++ (y ∷ ys)) ∙ ap (λ l. f ∷ l) (whole_lines-append (g ∷ front) y ys)

EndsIn-empty : {A : Type 0} (xs : List A) → EndsIn xs []
EndsIn-empty xs = (xs, sym (append_empty xs))
  where
    append_empty : {A : Type 0} (xs : List A) → xs ++ [] ≡ xs
    append_empty [] = refl
    append_empty (x ∷ xs) = ap (λ l. x ∷ l) (append_empty xs)

EndsIn-whole_lines : (xs ys : List Bytes) → EndsIn xs ys → EndsIn (whole_lines xs) (whole_lines ys)
unfolding whole_lines
EndsIn-whole_lines xs [] h = EndsIn-empty (whole_lines xs)
EndsIn-whole_lines xs (y ∷ ys) (f, e) = (f, ap whole_lines e ∙ whole_lines-append f y ys)

map-append : {A B : Type 0} (f : A → B) (xs ys : List A) → map f (xs ++ ys) ≡ map f xs ++ map f ys
map-append f [] ys = refl
map-append f (x ∷ xs) ys = ap (λ l. f x ∷ l) (map-append f xs ys)

EndsIn-map :
    {A B : Type 0} (f : A → B) (xs ys : List A) → EndsIn xs ys → EndsIn (map f xs) (map f ys)
EndsIn-map f xs ys (g, e) = (map f g, ap (map f) e ∙ map-append f g ys)

EndsIn-drop : {A : Type 0} (k : ℕ) (xs : List A) → EndsIn xs (drop k xs)
EndsIn-drop zero xs = ([], refl)
EndsIn-drop (suc k) [] = ([], refl)
EndsIn-drop (suc k) (x ∷ xs) = let (f, e) = EndsIn-drop k xs in (x ∷ f, ap (λ l. x ∷ l) e)

skip_first-whole_lines :
    (ls : List Bytes) → skip_first (whole_lines ls) ≡ whole_lines (skip_first ls)
unfolding whole_lines
skip_first-whole_lines [] = refl
skip_first-whole_lines ([] ∷ []) = refl
skip_first-whole_lines ((c ∷ l) ∷ []) = refl
skip_first-whole_lines ([] ∷ (l' ∷ ls)) = refl
skip_first-whole_lines ((c ∷ l) ∷ (l' ∷ ls)) = refl

skip_first-map :
    (f : Bytes → Bytes) (ls : List Bytes) → skip_first (map f ls) ≡ map f (skip_first ls)
skip_first-map f [] = refl
skip_first-map f (l ∷ ls) = refl

-- The lines behind a cut in the text, without the cut one, end the lines of the text.
EndsIn-cut : (k : ℕ) (s : Bytes) → EndsIn (lines_of s) (skip_first (lines_of (drop k s)))
unfolding lines_of
EndsIn-cut k s =
    let p = split b'\n' (drop k s) in
    let whole =
      EndsIn-whole_lines (skip_first (split b'\n' s)) (skip_first p) (skip_first-drop b'\n' k s) in
    let q =
      EndsIn-map drop_cr (whole_lines (skip_first (split b'\n' s))) (whole_lines (skip_first p))
        whole in
    let here =
      skip_first-map drop_cr (whole_lines p) ∙ ap (map drop_cr) (skip_first-whole_lines p) in
    let there =
      skip_first-map drop_cr (whole_lines (split b'\n' s))
      ∙ ap (map drop_cr) (skip_first-whole_lines (split b'\n' s)) in
    EndsIn-trans (lines_of s) (skip_first (lines_of s)) (skip_first (lines_of (drop k s)))
      (EndsIn-skip_first (lines_of s))
      (subst (λ ls. EndsIn ls (skip_first (lines_of (drop k s)))) (sym there)
        (subst (EndsIn (map drop_cr (whole_lines (skip_first (split b'\n' s))))) (sym here) q))

EndsIn-tail_lines :
    (seek : ℕ) (s : Bytes) → AllFit (split b'\n' s) → EndsIn (lines_of s) (tail_lines seek s)
unfolding tail_lines
EndsIn-tail_lines seek s h =
    let k = length s - seek in
    let e = scan_lines-AllFit (drop k s) (AllFit-drop b'\n' k s h) in
    elim (Bool-cases (ltb seek (length s))) [
      | inl y ↦ rw (y, e) (EndsIn-cut k s)
      | inr y ↦
          let none_skipped : k ≡ 0 = ground (arith, y) in
          rw (y, none_skipped, scan_lines-AllFit s h) ([], refl)
    ]

-- The end of a list of lines: as many as asked for, or all of them.
pub record IsLast (asked : ℕ) (all found : List Bytes) : Type 0 where
  pub ends : EndsIn all found
  pub bounded : length found ≤ asked
  pub complete : length found < asked → found ≡ all

last_lines-IsLast :
    (n : ℕ) (ls : List Bytes)
    → (found : List Bytes) × (last_lines (pos n) ls ≡ lines_read found) × IsLast n ls found
last_lines-IsLast n ls =
    let k = length ls - n in
    let size = length-drop k ls in
    elim (Bool-cases (ltb n (length ls))) [
      | inl y ↦ (
        drop k ls,
        rw y refl,
        record {
          ends = EndsIn-drop k ls;
          bounded = ground (arith, y, size);
          complete = λ few. absurd (ground (arith, y, size, few));
        },
      )
      | inr y ↦ (
        ls,
        rw y refl,
        record { ends = ([], refl); bounded = ground (arith, y); complete = λ few. refl },
      )
    ]

no_lines : [] ≡ lines_of []
unfolding lines_of split whole_lines
no_lines = refl

-- If no line of a file is too long for the scanner, reading its last `n` lines gives at most `n`
-- lines, with which the file ends; of a file below 256 KiB it gives fewer only where these are all
-- lines.
pub read_last_n_lines_lem :
    (s : Bytes) (n : ℕ)
    → AllFit (split b'\n' s)
    → (found : List Bytes) × (read_last_n_lines (some s) (pos n) ≡ lines_read found)
      × EndsIn (lines_of s) found
      × (length found ≤ n)
      × (length s < small_size → length found < n → found ≡ lines_of s)
unfolding read_last_n_lines
read_last_n_lines_lem [] n h = ([], refl, EndsIn-empty (lines_of []), omega arith, λ a b. no_lines)
read_last_n_lines_lem (c ∷ s) n h = elim (Bool-cases (ltb (length (c ∷ s)) small_size)) [
  | inl y ↦
      let (found, e, l) = last_lines-IsLast n (scan_lines (c ∷ s)) in
      let same = scan_lines-AllFit (c ∷ s) h in
      (
        found,
        rw y e,
        subst (λ ls. EndsIn ls found) same l.ends,
        l.bounded,
        λ a b. l.complete b ∙ same,
      )
  | inr y ↦
      let ls = tail_lines (seek_size n (length (c ∷ s))) (c ∷ s) in
      let (found, e, l) = last_lines-IsLast n ls in
      (
        found,
        rw y e,
        EndsIn-trans (lines_of (c ∷ s)) ls found
            (EndsIn-tail_lines (seek_size n (length (c ∷ s))) (c ∷ s) h) l.ends,
        l.bounded,
        λ a b. absurd (ground (arith, y, a)),
      )
]

-- The file has bytes.
abbrev pub has_bytes : Option Bytes → Bool
has_bytes none = false
has_bytes (some []) = false
has_bytes (some (c ∷ s)) = true

abbrev pub is_negative : ℤ → Bool
is_negative (pos n) = false
is_negative (negsuc n) = true

last_lines-panics : (n : ℤ) (ls : List Bytes) → (last_lines n ls ≡ panics) ↔ (is_negative n ≡ true)
last_lines-panics (negsuc n) ls = (λ h. refl, λ h. refl)
last_lines-panics (pos n) ls = elim (Bool-cases (ltb n (length ls))) [
  | inl y ↦ (λ h. absurd (cc (rw y at h)), λ h. absurd (cc h))
  | inr y ↦ (λ h. absurd (cc (rw y at h)), λ h. absurd (cc h))
]

-- Reading panics exactly when the file has bytes and the number of lines is negative.
pub read_last_n_lines-panics :
    (file : Option Bytes) (n : ℤ)
    → (read_last_n_lines file n ≡ panics) ↔ ((has_bytes file ≡ true) × (is_negative n ≡ true))
unfolding read_last_n_lines
read_last_n_lines-panics none n = (λ h. absurd (cc h), λ h. absurd (cc h.0))
read_last_n_lines-panics (some []) n = (λ h. absurd (cc h), λ h. absurd (cc h.0))
read_last_n_lines-panics (some (c ∷ s)) n = elim (Bool-cases (ltb (length (c ∷ s)) small_size)) [
  | inl y ↦ rw y (both (last_lines-panics n (scan_lines (c ∷ s))))
  | inr y ↦ rw y (both (last_lines-panics n _))
]
  where
    both : {A B : Type 0} → A ↔ B → A ↔ ((true ≡ true) × B)
    both (f, g) = (λ a. (refl, f a), λ (e, b). g b)
