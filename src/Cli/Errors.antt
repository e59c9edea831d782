-- ===== src/Cli/Errors.antt =====
-- Error lines: `isErrorLine`, `scanErrors` and `checkErrors` of internal/cli/logs.go. What a path's
-- file holds is the parameter `read_at`.
use tokenlive_standalone.Prelude.{
  ℕ, zero, suc, ◌+◌, ◌-◌, Bool, true, false, ◌&&◌, ◌||◌, String, List, [], ◌∷◌, ◌++◌, Option, none,
  some, map, length, take, ltb, leb, eqb, if◌then◌else◌, bytes, Bytes, contains, trim_bytes,
}
use tokenlive_standalone.Cli.Tail.{ℤ, pos, Read, lines_read, panics, read_last_n_lines}
pub mod Laws
pub mod Verdict

pub record LogFileInfo : Type 0 where
  pub tag : String
  pub path : String
  pub size : ℕ
  pub mod_time : ℕ
  pub exists : Bool

-- `strings.ToUpper` of an ASCII text.
abbrev pub to_upper : Bytes → Bytes
to_upper s = map (λ c. if leb b'a' c && leb c b'z' then c - 32 else c) s

abbrev pub error_keywords : List Bytes
error_keywords =
    bytes "ERROR"
    ∷ (bytes "FATAL"
        ∷ (bytes "PANIC"
            ∷ (bytes "panic:"
                ∷ (bytes "level=error"
                    ∷ (bytes "level=fatal"
                        ∷ (bytes "\"level\":\"error\""
                            ∷ (bytes "\"level\":\"fatal\""
                                ∷ (bytes "[ERROR]" ∷ (bytes "[FATAL]" ∷ (bytes "err=" ∷ []))))))))))

unfoldable pub any_keyword : List Bytes → Bytes → Bool
unfolding contains
any_keyword [] upper = false
any_keyword (kw ∷ kws) upper = contains (to_upper kw) upper || any_keyword kws upper

unfoldable pub is_error_line : Bytes → Bool
unfolding any_keyword
is_error_line line = any_keyword error_keywords (to_upper line)

abbrev pub sample_limit : ℕ
sample_limit = 5

-- The count of error lines, and a few of them.
unfoldable pub scan_loop : ℕ → List Bytes → List Bytes → ℕ × List Bytes
scan_loop count samples [] = (count, samples)
scan_loop count samples (l ∷ ls) =
    let kept = if ltb (length samples) sample_limit then samples ++ (l ∷ []) else samples in
    let hit = scan_loop (count + 1) kept ls in
    let miss = scan_loop count samples ls in if is_error_line l then hit else miss

-- `scanErrors`; `none` is a panic.
abbrev pub scan_read : Read → Option (ℕ × List Bytes)
scan_read (lines_read ls) = some (scan_loop 0 [] ls)
scan_read panics = none

unfoldable pub scan_errors : Option Bytes → ℤ → Option (ℕ × List Bytes)
unfolding read_last_n_lines scan_loop
scan_errors file n = scan_read (read_last_n_lines file n)

abbrev pub truncate_string : Bytes → ℕ → Bytes
truncate_string s max_len = if leb (length s) max_len then s else take max_len s ++ bytes "..."

-- A line of the report for one file, with the samples below it.
pub data CheckLine : Type 0 where
  no_errors : String → String → CheckLine
  found_errors : String → String → ℕ → List Bytes → CheckLine

abbrev pub check_line : LogFileInfo → ℕ → List Bytes → CheckLine
check_line l count samples =
    if eqb count 0
    then no_errors l.tag l.path
    else found_errors l.tag l.path count (map (λ s. truncate_string (trim_bytes s) 120) samples)

-- The totals of a check, and its report.
pub record Health : Type 0 where
  pub total_errors : ℕ
  pub existing_count : ℕ
  pub report : List CheckLine

abbrev pub count_log : LogFileInfo → ℕ × List Bytes → Health → Health
count_log l (count, samples) h = record {
  total_errors = h.total_errors + count;
  existing_count = h.existing_count + 1;
  report = h.report ++ (check_line l count samples ∷ []);
}

abbrev pub checked_log : LogFileInfo → Option (ℕ × List Bytes) → Health → Option Health
checked_log l none h = none
checked_log l (some r) h = some (count_log l r h)

unfoldable pub check_loop : (String → Option Bytes) → List LogFileInfo → Health → Option Health
unfolding scan_errors
check_loop read_at [] h = some h
check_loop read_at (l ∷ logs) h =
    if l.exists
    then elim (checked_log l (scan_errors (read_at l.path) (pos 1000)) h) [
      | none ↦ none
      | some h' ↦ check_loop read_at logs h'
    ]
    else check_loop read_at logs h

abbrev pub check_start : Health
check_start = record { total_errors = 0; existing_count = 0; report = [] }

abbrev pub exit_code : Health → ℕ
exit_code h = if eqb h.existing_count 0 then 0 else (if ltb 0 h.total_errors then 1 else 0)

abbrev pub concluded : Option Health → Option (ℕ × List CheckLine)
concluded none = none
concluded (some h) = some (exit_code h, h.report)

-- `checkErrors`: its exit code and its report.
unfoldable pub check_errors :
    (String → Option Bytes) → List LogFileInfo → Option (ℕ × List CheckLine)
unfolding check_loop
check_errors read_at logs = concluded (check_loop read_at logs check_start)
