-- ===== src/Prelude/Text.antt =====
-- Texts walked character by character, and the part of `filepath` that the program uses.
use Prim.Native.Nat.{ℕ}
use Prim.Native.Char.{code}
use Prim.Native.String.{String, ◌++◌}
use mathlib.Core.Bool.{Bool, ◌&&◌, ◌||◌}
use mathlib.Core.Option.{Option, none, some}
use mathlib.Core.List.{List, [], ◌∷◌}
use tokenlive_standalone.Prelude.Tests.{eqb, leb, ◌==◌, if◌then◌else◌}

-- The last component that is not empty, of a path read up to here: `cur` is the component being
-- read, `last` the one before it.
base_from : String → String → String → String
base_from cur last String.[] = if cur == "" then last else cur
base_from cur last (String.◌∷◌ c s) =
    base_from (if eqb (code c) b'/' then "" else cur ++ String.◌∷◌ c "")
      (if eqb (code c) b'/' then (if cur == "" then last else cur) else last) s

-- `filepath.Base`: trailing separators are dropped; a path of separators alone gives one.
unfoldable pub base : String → String
unfolding base_from
base s = if s == "" then "." else (let b = base_from "" "" s in if b == "" then "/" else b)

-- What stands before the last separator, if there is one.
unfoldable pub before_slash : String → Option String
before_slash String.[] = none
before_slash (String.◌∷◌ c s) = elim (before_slash s) [
  | some d ↦ some (String.◌∷◌ c d)
  | none ↦ if eqb (code c) b'/' then some "" else none
]

-- `filepath.Dir` of a clean path.
unfoldable pub dir : String → String
unfolding before_slash
dir s = elim (before_slash s) [ none ↦ "." | some d ↦ if d == "" then "/" else d ]

-- `filepath.Join` of a clean path, or an empty one, with a clean relative one.
unfoldable pub join : String → String → String
join d s = if d == "." || d == "" then s else (if d == "/" then d ++ s else d ++ ("/" ++ s))

-- `strings.TrimSuffix`, and whether it is there: the text before the suffix.
unfoldable pub without_suffix : String → String → Option String
without_suffix suffix String.[] = if suffix == "" then some "" else none
without_suffix suffix (String.◌∷◌ c s) = elim (without_suffix suffix s) [
  | some d ↦ some (String.◌∷◌ c d)
  | none ↦ if String.◌∷◌ c s == suffix then some "" else none
]

-- The bytes of an ASCII literal. Texts that the program cuts are lists of bytes.
abbrev pub bytes : String → List ℕ
bytes String.[] = []
bytes (String.◌∷◌ c s) = code c ∷ bytes s

-- `strings.TrimPrefix(s, "v")`.
unfoldable pub trim_v : String → String
trim_v String.[] = ""
trim_v (String.◌∷◌ c s) = if eqb (code c) b'v' then s else String.◌∷◌ c s

abbrev pub text_append : String → String → String
text_append s t = s ++ t

-- The white space of ASCII, as `unicode.IsSpace` has it.
abbrev pub is_space : ℕ → Bool
is_space c = eqb c 32 || (leb 9 c && leb c 13)

trim_start : String → String
trim_start String.[] = ""
trim_start (String.◌∷◌ c s) = if is_space (code c) then trim_start s else String.◌∷◌ c s

trim_end : String → String
trim_end String.[] = ""
trim_end (String.◌∷◌ c s) =
    let rest = trim_end s in if is_space (code c) && rest == "" then "" else String.◌∷◌ c rest

-- `strings.TrimSpace` of an ASCII text.
unfoldable pub trim_space : String → String
unfolding trim_start trim_end
trim_space s = trim_start (trim_end s)
