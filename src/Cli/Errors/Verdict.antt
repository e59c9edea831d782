-- ===== src/Cli/Errors/Verdict.antt =====
-- The exit code of `logs --check`.
use tokenlive_standalone.Prelude.{
  ℕ, ◌+◌, ◌≤◌, String, List, [], ◌∷◌, Option, none, some, ◌≡◌, refl, ap, ◌∙◌, inl, inr, arith,
  length, take, ltb, Bool-cases, if◌then◌else◌, Bytes,
}
use tokenlive_standalone.Cli.Tail.{
  pos, Read, lines_read, panics, last_lines, read_last_n_lines, small_size,
}
use tokenlive_standalone.Cli.Errors.{
  LogFileInfo, sample_limit, Health, count_log, check_loop, check_start, exit_code, concluded,
  CheckLine, check_errors,
}
use tokenlive_standalone.Cli.Errors.Laws.{error_lines, scan_errors_lem}

-- The lines that a read gives, if it does not panic.
abbrev pub lines_given : Read → List Bytes
lines_given (lines_read ls) = ls
lines_given panics = []

-- The error lines among the last thousand of a file that exists.
abbrev pub recent_errors : (String → Option Bytes) → LogFileInfo → ℕ
recent_errors read_at l =
    if l.exists
    then length (error_lines (lines_given (read_last_n_lines (read_at l.path) (pos 1000))))
    else 0

unfoldable pub error_total : (String → Option Bytes) → List LogFileInfo → ℕ
error_total read_at [] = 0
error_total read_at (l ∷ logs) = recent_errors read_at l + error_total read_at logs

last_lines_given :
    (n : ℕ) (ls : List Bytes)
    → last_lines (pos n) ls ≡ lines_read (lines_given (last_lines (pos n) ls))
last_lines_given n ls = elim (Bool-cases (ltb n (length ls))) [
  | inl y ↦ rw y refl
  | inr y ↦ rw y refl
]

pub read_given :
    (file : Option Bytes) (n : ℕ)
    → read_last_n_lines file (pos n) ≡ lines_read (lines_given (read_last_n_lines file (pos n)))
unfolding read_last_n_lines
read_given none n = refl
read_given (some []) n = refl
read_given (some (c ∷ s)) n = elim (Bool-cases (ltb (length (c ∷ s)) small_size)) [
  | inl y ↦ rw y (last_lines_given n _)
  | inr y ↦ rw y (last_lines_given n _)
]

-- What a loop over the files adds to the totals.
record Counted (read_at : String → Option Bytes) (logs : List LogFileInfo) (h : Health)
    : Type 0 where
  after : Health
  loop_is : check_loop read_at logs h ≡ some after
  total_is : after.total_errors ≡ h.total_errors + error_total read_at logs
  grown : h.existing_count ≤ after.existing_count
  none_there : after.existing_count ≡ h.existing_count → error_total read_at logs ≡ 0

check_loop-Counted :
    (read_at : String → Option Bytes) (logs : List LogFileInfo) (h : Health)
    → Counted read_at logs h
unfolding check_loop error_total
check_loop-Counted read_at [] h = record {
  after = h;
  loop_is = refl;
  total_is = omega arith;
  grown = omega arith;
  none_there = λ e. refl;
}
check_loop-Counted read_at (l ∷ logs) h = elim (Bool-cases l.exists) [
  | inr y ↦
      let c = check_loop-Counted read_at logs h in
      record {
        after = c.after;
        loop_is = rw y c.loop_is;
        total_is = rw y (omega (arith, c.total_is));
        grown = c.grown;
        none_there = λ e. rw y (omega (arith, c.none_there e));
      }
  | inl y ↦
      let file = read_at l.path in
      let given = lines_given (read_last_n_lines file (pos 1000)) in
      let scanned = scan_errors_lem file (pos 1000) given (read_given file 1000) in
      let es = error_lines given in
      let c = check_loop-Counted read_at logs (count_log l (length es, take sample_limit es) h) in
      record {
        after = c.after;
        loop_is = rw (y, scanned) c.loop_is;
        total_is = rw y (omega (arith, c.total_is));
        grown = omega (arith, c.grown);
        none_there = λ e. absurd (omega (arith, e, c.grown));
      }
]

-- `checkErrors` comes to an exit code, which is 1 if the last thousand lines of some file that
-- exists have an error line, and 0 otherwise.
pub check_errors_lem :
    (read_at : String → Option Bytes) (logs : List LogFileInfo)
    → (report : List CheckLine) × (check_errors read_at logs
        ≡ some (if ltb 0 (error_total read_at logs) then 1 else 0, report))
unfolding check_errors
check_errors_lem read_at logs =
    let c = check_loop-Counted read_at logs check_start in
    (c.after.report, ap concluded c.loop_is ∙ ap (λ n. some (n, c.after.report)) code)
  where
    code :
        exit_code (check_loop-Counted read_at logs check_start).after
        ≡ (if ltb 0 (error_total read_at logs) then 1 else 0)
    code =
        let c = check_loop-Counted read_at logs check_start in
        elim (Bool-cases (ltb 0 c.after.existing_count)) [
          | inl y ↦ ground (arith, y, c.total_is)
          | inr y ↦ ground (arith, y, c.total_is, c.none_there (ground (arith, y)))
        ]
