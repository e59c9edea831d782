-- ===== src/Prelude/ByteText.antt =====
-- Texts as lists of bytes: the functions of `strings`, `strconv` and `fmt` that the program uses on
-- lines, outputs and numbers.
use Prim.Native.Nat.{ℕ, zero, suc, ◌+◌, ◌-◌, ◌*◌, ◌/◌, ◌%◌}
use mathlib.Core.Bool.{Bool, true, false, ◌&&◌, ◌||◌}
use mathlib.Core.List.{List, [], ◌∷◌}
use tokenlive_standalone.Prelude.Tests.{eqb, ltb, leb, if◌then◌else◌}

abbrev pub Bytes : Type 0
Bytes = List ℕ

unfoldable pub same_bytes : Bytes → Bytes → Bool
same_bytes [] [] = true
same_bytes [] (y ∷ ys) = false
same_bytes (x ∷ xs) [] = false
same_bytes (x ∷ xs) (y ∷ ys) = eqb x y && same_bytes xs ys

-- `strings.HasPrefix`, the prefix first.
unfoldable pub begins_with : Bytes → Bytes → Bool
begins_with [] s = true
begins_with (p ∷ ps) [] = false
begins_with (p ∷ ps) (x ∷ xs) = eqb p x && begins_with ps xs

-- `strings.Contains(s, part)`, the part first.
unfoldable pub contains : Bytes → Bytes → Bool
unfolding begins_with
contains part [] = begins_with part []
contains part (x ∷ xs) = begins_with part (x ∷ xs) || contains part xs

abbrev pub onto_first : ℕ → List Bytes → List Bytes
onto_first x [] = (x ∷ []) ∷ []
onto_first x (l ∷ ls) = (x ∷ l) ∷ ls

-- `strings.Split` at one byte.
unfoldable pub split : ℕ → Bytes → List Bytes
split c [] = [] ∷ []
split c (x ∷ xs) = let rest = split c xs in if eqb x c then [] ∷ rest else onto_first x rest

-- `strings.TrimRight(s, cut)`, the set of bytes as a test.
unfoldable pub trim_right : (ℕ → Bool) → Bytes → Bytes
trim_right cut [] = []
trim_right cut (x ∷ xs) =
    let rest = trim_right cut xs in if cut x && same_bytes rest [] then [] else x ∷ rest

unfoldable pub trim_left : (ℕ → Bool) → Bytes → Bytes
trim_left cut [] = []
trim_left cut (x ∷ xs) = let rest = trim_left cut xs in if cut x then rest else x ∷ xs

abbrev pub is_white : ℕ → Bool
is_white c = eqb c 32 || (leb 9 c && leb c 13)

-- `strings.TrimSpace` of an ASCII text.
unfoldable pub trim_bytes : Bytes → Bytes
unfolding trim_left trim_right same_bytes
trim_bytes s = trim_left is_white (trim_right is_white s)

-- `strings.Map` with a function that drops the bytes that fail the test.
unfoldable pub keep_bytes : (ℕ → Bool) → Bytes → Bytes
keep_bytes ok [] = []
keep_bytes ok (x ∷ xs) = let rest = keep_bytes ok xs in if ok x then x ∷ rest else rest

abbrev pub is_digit : ℕ → Bool
is_digit c = leb b'0' c && leb c b'9'

unfoldable pub decimal_from : ℕ → ℕ → Bytes → Bytes
decimal_from zero n out = out
decimal_from (suc f) n out =
    let out' = (b'0' + n % 10) ∷ out in
    let rest = decimal_from f (n / 10) out' in if ltb n 10 then out' else rest

-- `strconv.Itoa` of a number that is not negative.
unfoldable pub decimal : ℕ → Bytes
unfolding decimal_from
decimal n = decimal_from (suc n) n []

-- The number that decimal digits stand for.
unfoldable pub value_from : ℕ → Bytes → ℕ
value_from n [] = n
value_from n (c ∷ cs) = value_from (n * 10 + (c - b'0')) cs

unfoldable pub all_digits : Bytes → Bool
all_digits [] = true
all_digits (c ∷ cs) = is_digit c && all_digits cs
