-- ===== src/Cli/Errors/Laws.antt =====
-- `scanErrors` and `checkErrors` of internal/cli/logs.go, against the error lines of the files.
use tokenlive_standalone.Prelude.{
  ℕ, zero, suc, ◌+◌, ◌≤◌, List, [], ◌∷◌, ◌++◌, Option, some, ◌≡◌, refl, sym, ap, ◌∙◌, inl, inr,
  arith, length, take, ltb, Bool-cases, if◌then◌else◌, Bytes, length-append,
}
use tokenlive_standalone.Cli.Tail.{ℤ, lines_read, read_last_n_lines}
use tokenlive_standalone.Cli.Errors.{is_error_line, sample_limit, scan_loop, scan_read, scan_errors}

-- The error lines, in order.
unfoldable pub error_lines : List Bytes → List Bytes
error_lines [] = []
error_lines (l ∷ ls) = let rest = error_lines ls in if is_error_line l then l ∷ rest else rest

module _ {A : Type 0} where
  take-full : (n : ℕ) (xs ys : List A) → n ≤ length xs → take n (xs ++ ys) ≡ take n xs
  take-full zero xs ys h = refl
  take-full (suc n) [] ys h = absurd (omega (arith, h))
  take-full (suc n) (x ∷ xs) ys h = ap (λ l. x ∷ l) (take-full n xs ys (omega (arith, h)))

  take-all : (n : ℕ) (xs : List A) → length xs ≤ n → take n xs ≡ xs
  take-all zero [] h = refl
  take-all zero (x ∷ xs) h = absurd (omega (arith, h))
  take-all (suc n) [] h = refl
  take-all (suc n) (x ∷ xs) h = ap (λ l. x ∷ l) (take-all n xs (omega (arith, h)))

  append-empty : (xs : List A) → xs ++ [] ≡ xs
  append-empty [] = refl
  append-empty (x ∷ xs) = ap (λ l. x ∷ l) (append-empty xs)

  append-one : (xs : List A) (y : A) (ys : List A) → (xs ++ (y ∷ [])) ++ ys ≡ xs ++ (y ∷ ys)
  append-one [] y ys = refl
  append-one (x ∷ xs) y ys = ap (λ l. x ∷ l) (append-one xs y ys)

scan_loop_lem :
    (count : ℕ) (samples ls : List Bytes)
    → length samples ≤ sample_limit
    → scan_loop count samples ls
      ≡ (count + length (error_lines ls), take sample_limit (samples ++ error_lines ls))
unfolding scan_loop error_lines
scan_loop_lem count samples [] h =
    let size : count ≡ count + 0 = omega arith in
    let whole : samples ≡ take sample_limit (samples ++ []) =
      sym (ap (take sample_limit) (append-empty samples) ∙ take-all sample_limit samples h) in
    ap (λ n. (n, samples)) size ∙ ap (λ l. (count + 0, l)) whole
scan_loop_lem count samples (l ∷ ls) h = elim (Bool-cases (is_error_line l)) [
  | inr y ↦ rw y (scan_loop_lem count samples ls h)
  | inl y ↦
      let es = error_lines ls in
      let size : count + 1 + length es ≡ count + suc (length es) = omega arith in
      elim (Bool-cases (ltb (length samples) sample_limit)) [
        | inl few ↦
            let n = length-append samples (l ∷ []) in
            rw (y, few)
              (scan_loop_lem (count + 1) (samples ++ (l ∷ [])) ls (ground (arith, few, n))
                ∙ (ap (λ k. (k, take sample_limit ((samples ++ (l ∷ [])) ++ es))) size
                    ∙ ap (λ m. (count + suc (length es), take sample_limit m))
                        (append-one samples l es)))
        | inr many ↦
            let full : sample_limit ≤ length samples = ground (arith, many) in
            rw (y, many)
              (scan_loop_lem (count + 1) samples ls h
                ∙ (ap (λ k. (k, take sample_limit (samples ++ es))) size
                    ∙ ap (λ m. (count + suc (length es), m))
                        (take-full sample_limit samples es full
                          ∙ sym (take-full sample_limit samples (l ∷ es) full))))
      ]
]

-- The scan counts the error lines that it reads and keeps the first five.
pub scan_errors_lem :
    (file : Option Bytes) (n : ℤ) (ls : List Bytes)
    → read_last_n_lines file n ≡ lines_read ls
    → scan_errors file n ≡ some (length (error_lines ls), take sample_limit (error_lines ls))
unfolding scan_errors
scan_errors_lem file n ls e =
    let es = error_lines ls in
    let size : 0 + length es ≡ length es = omega arith in
    ap scan_read e
    ∙ (ap some (scan_loop_lem 0 [] ls (omega arith))
        ∙ ap (λ k. some (k, take sample_limit es)) size)
