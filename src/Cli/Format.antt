-- ===== src/Cli/Format.antt =====
-- `formatBytes` and `formatLogLine` of internal/cli/logs.go.
use tokenlive_standalone.Prelude.{
  ℕ, zero, suc, ◌+◌, ◌-◌, ◌*◌, ◌/◌, Bool, true, false, ◌||◌, String, List, [], ◌∷◌, ◌++◌, Option,
  none, some, ltb, leb, if◌then◌else◌, bytes, Bytes, contains, decimal,
}
use tokenlive_standalone.Cli.Errors.{to_upper}
pub mod Bounds

abbrev pub unit : ℕ
unit = 1024

-- The loop of `formatBytes`: the divisor and the exponent.
unfoldable pub scale_from : ℕ → ℕ → ℕ → ℕ → ℕ × ℕ
scale_from zero n div exp = (div, exp)
scale_from (suc fuel) n div exp =
    let rest = scale_from fuel (n / unit) (div * unit) (suc exp) in
    if leb unit n then rest else (div, exp)

-- A size has fewer than 64 bits, so the loop ends in its sixth round at the latest.
abbrev pub scale_rounds : ℕ
scale_rounds = 6

unfoldable pub scale : ℕ → ℕ × ℕ
unfolding scale_from
scale b = scale_from scale_rounds (b / unit) unit 0

-- `"KMGTPE"[exp]`; `none` is out of range.
abbrev pub prefix_at : List ℕ → ℕ → Option ℕ
prefix_at [] exp = none
prefix_at (c ∷ cs) zero = some c
prefix_at (c ∷ cs) (suc exp) = prefix_at cs exp

-- `formatBytes` of a size that is not negative. The quotient's one decimal place, `%.1f`, is the
-- parameter `quotient`; `none` is a run-time panic.
abbrev pub with_prefix : (ℕ → ℕ → Bytes) → ℕ → ℕ → Option ℕ → Option Bytes
with_prefix quotient b div none = none
with_prefix quotient b div (some c) = some (quotient b div ++ (bytes " " ++ (c ∷ bytes "B")))

unfoldable pub format_bytes : (ℕ → ℕ → Bytes) → ℕ → Option Bytes
unfolding scale decimal
format_bytes quotient b =
    if ltb b unit
    then some (decimal b ++ bytes " B")
    else with_prefix quotient b (scale b).0 (prefix_at (bytes "KMGTPE") (scale b).1)

abbrev pub escape : ℕ
escape = 27

abbrev pub coloured : String → Bytes → Bytes
coloured code line = escape ∷ (bytes code ++ (line ++ (escape ∷ bytes "[0m")))

-- `formatLogLine`.
unfoldable pub format_log_line : Bytes → Bool → Bytes
unfolding contains
format_log_line line use_color =
    let upper = to_upper line in
    if use_color
    then (if contains (bytes "ERROR") upper
          || (contains (bytes "FATAL") upper || contains (bytes "PANIC") upper)
        then coloured "[1;31m" line
        else (if contains (bytes "WARN") upper then coloured "[1;33m" line else line))
    else line
