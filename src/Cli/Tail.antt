-- ===== src/Cli/Tail.antt =====
-- `readLastNLines` of internal/cli/logs.go, with the part of `bufio.Scanner` that it uses.
use tokenlive_standalone.Prelude.{
  ℕ, zero, suc, ◌+◌, ◌-◌, ◌*◌, ◌%◌, ◌^◌, Bool, true, false, ◌&&◌, List, [], ◌∷◌, Option, none, some,
  map, length, drop, eqb, ltb, leb, if◌then◌else◌, Bytes, split,
}
pub mod Suffix
pub mod Laws

-- A number of lines, as the flag `-n` gives it.
pub data ℤ : Type 0 where
  pos negsuc : ℕ → ℤ

-- The lines, or a run-time panic.
pub data Read : Type 0 where
  lines_read : List Bytes → Read
  panics : Read

-- `Scanner.Buffer(buf, 1024*1024)`.
abbrev pub max_token : ℕ
max_token = 1048576

-- `bufio.ScanLines` gives no empty last line.
unfoldable pub whole_lines : List Bytes → List Bytes
whole_lines [] = []
whole_lines ([] ∷ []) = []
whole_lines ((c ∷ l) ∷ []) = (c ∷ l) ∷ []
whole_lines (l ∷ (l' ∷ ls)) = l ∷ whole_lines (l' ∷ ls)

-- It drops one carriage return at the end of a line.
unfoldable pub drop_cr : Bytes → Bytes
drop_cr [] = []
drop_cr (c ∷ []) = if eqb c 13 then [] else c ∷ []
drop_cr (c ∷ (d ∷ l)) = c ∷ drop_cr (d ∷ l)

abbrev pub fits : Bytes → Bool
fits l = ltb (length l) max_token

-- A line that does not fit ends the scan.
unfoldable pub fitting : List Bytes → List Bytes
fitting [] = []
fitting (l ∷ ls) = let rest = fitting ls in if fits l then l ∷ rest else []

unfoldable pub scan_lines : Bytes → List Bytes
unfolding whole_lines drop_cr fitting split
scan_lines s = map drop_cr (fitting (whole_lines (split b'\n' s)))

-- `lines[len(lines)-n:]` where there are more than n.
abbrev pub last_lines : ℤ → List Bytes → Read
last_lines (pos n) ls =
    if ltb n (length ls) then lines_read (drop (length ls - n) ls) else lines_read ls
last_lines (negsuc n) ls = panics

abbrev pub small_size : ℕ
small_size = 262144

abbrev pub least_seek : ℕ
least_seek = 32768

-- `int64(n*512)` for a number that is not negative: 0 stands for what the wrap-around makes negative.
abbrev pub wanted_bytes : ℕ → ℕ
wanted_bytes n = let w = n * 512 % 2 ^ 64 in if leb (2 ^ 63) w then 0 else w

abbrev pub at_most : ℕ → ℕ → ℕ
at_most size n = if ltb size n then size else n

abbrev pub at_least : ℕ → ℕ
at_least n = if ltb n least_seek then least_seek else n

unfoldable pub seek_size : ℕ → ℕ → ℕ
seek_size n size = at_most size (at_least (at_most size (wanted_bytes n)))

abbrev pub skip_first : List Bytes → List Bytes
skip_first [] = []
skip_first (l ∷ ls) = ls

-- The lines behind the seek: the first one may be cut, unless nothing was skipped.
unfoldable pub tail_lines : ℕ → Bytes → List Bytes
unfolding scan_lines
tail_lines seek s =
    let ls = scan_lines (drop (length s - seek) s) in
    if ltb seek (length s) then skip_first ls else ls

-- `n*512` of a negative number: the lines do not matter, since the slice is out of range.
abbrev pub seek_of : ℤ → ℕ → ℕ
seek_of (pos n) size = seek_size n size
seek_of (negsuc n) size = least_seek

-- `readLastNLines`; `none` is a file that cannot be opened or examined.
unfoldable pub read_last_n_lines : Option Bytes → ℤ → Read
unfolding scan_lines tail_lines seek_size
read_last_n_lines none n = lines_read []
read_last_n_lines (some []) n = lines_read []
read_last_n_lines (some (c ∷ s)) n =
    if ltb (length (c ∷ s)) small_size
    then last_lines n (scan_lines (c ∷ s))
    else last_lines n (tail_lines (seek_of n (length (c ∷ s))) (c ∷ s))
