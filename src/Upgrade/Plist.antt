-- ===== src/Upgrade/Plist.antt =====
-- internal/upgrade/plist.go: reading the program of a launchd job, and, in its child Render,
-- rendering the job of an upgrade. The decoder of the language's library is a parameter: it turns a text into tokens, and
-- passes on an end only where it closes a start.
use Prim.Native.Char.{code}
use text.Mathlib.Text.{starts_with}
use tokenlive_standalone.Prelude.{
  ℕ, zero, suc, ◌-◌, ◌+◌, Bool, true, false, not, ◌&&◌, ◌||◌, String, List, [], ◌∷◌, ◌++◌, Option,
  none, some, ◌==◌, eqb, if◌then◌else◌, text_append, trim_space,
}
pub mod Render
pub mod RoundTrip

pub data Token : Type 0 where
  start_tag end_tag char_data : String → Token
  other_token : Token
  broken : Token  -- `Token` returns an error that is not `io.EOF`

pub data PlistError : Type 0 where
  unreadable_plist not_xml no_dict no_program not_absolute : PlistError
  invalid_inputs needs_escaping : PlistError

pub data Parsed {ℓ} (A : Type ℓ) : Type ℓ where
  good : A → Parsed A
  bad : PlistError → Parsed A

-- Where the text that `DecodeElement` reads goes.
pub data Purpose : Type 0 where
  as_key as_program as_argument : Purpose

-- Between two tokens of the loop, or inside a `DecodeElement`, at a depth of elements below its own
-- and with the text read so far.
pub data Mode : Type 0 where
  scanning failing : Mode
  decoding : Purpose → ℕ → String → Mode

pub record Scan : Type 0 where
  pub mode : Mode
  pub program : String
  pub in_args : Bool
  pub args : List String
  pub pending : String
  pub dict_seen : Bool
  pub dict_open : ℕ

abbrev pub scan_start : Scan
scan_start = record {
  mode = scanning;
  program = "";
  in_args = false;
  args = [];
  pending = "";
  dict_seen = false;
  dict_open = 0;
}

-- The cases of a `StartElement`.
unfoldable pub start_element : Scan → String → Scan
start_element s name =
    if name == "dict"
    then record s {
      dict_open = s.dict_open + 1;
      dict_seen = (if eqb s.dict_open 0 then true else s.dict_seen);
    }
    else if name == "key"
    then (if eqb s.dict_open 1 then record s { mode = decoding as_key 0 "" } else s)
    else if name == "string"
    then (if eqb s.dict_open 1 && s.pending == "Program"
        then record s { mode = decoding as_program 0 "" }
        else if s.in_args
        then record s { mode = decoding as_argument 0 "" }
        else s)
    else if name == "array"
    then (if eqb s.dict_open 1 && s.pending == "ProgramArguments"
        then record s { in_args = true }
        else s)
    else s

-- The cases of an `EndElement`.
unfoldable pub end_element : Scan → String → Scan
end_element s name =
    if name == "dict"
    then record s { dict_open = s.dict_open - 1 }
    else if name == "array"
    then (if s.in_args then record s { in_args = false; pending = "" } else s)
    else s

-- What the loop does with a decoded text.
abbrev pub decoded_text : Scan → Purpose → String → Scan
decoded_text s as_key t = record s { mode = scanning; pending = t }
decoded_text s as_program t = record s { mode = scanning; program = t; pending = "" }
decoded_text s as_argument t = record s { mode = scanning; args = s.args ++ (t ∷ []) }

abbrev pub scanned : Scan → Token → Scan
scanned s (start_tag name) = start_element s name
scanned s (end_tag name) = end_element s name
scanned s (char_data t) = s
scanned s other_token = s
scanned s broken = record s { mode = failing }

-- `DecodeElement` into a string takes the text of the element itself and skips what is below it.
abbrev pub decoding_step : Scan → Purpose → ℕ → String → Token → Scan
decoding_step s p depth t (start_tag name) = record s { mode = decoding p (suc depth) t }
decoding_step s p zero t (end_tag name) = decoded_text s p t
decoding_step s p (suc depth) t (end_tag name) = record s { mode = decoding p depth t }
decoding_step s p zero t (char_data u) = record s { mode = decoding p zero (text_append t u) }
decoding_step s p (suc depth) t (char_data u) = s
decoding_step s p depth t other_token = s
decoding_step s p depth t broken = record s { mode = failing }

abbrev pub step_in : Mode → Scan → Token → Scan
step_in scanning s k = scanned s k
step_in failing s k = s
step_in (decoding p depth t) s k = decoding_step s p depth t k

unfoldable pub scan : Scan → List Token → Scan
scan s [] = s
scan s (k ∷ ks) = scan (step_in s.mode s k) ks

abbrev pub is_abs : String → Bool
is_abs p = starts_with p "/"

abbrev pub absolute : String → Parsed String
absolute p = if not (is_abs p) then bad not_absolute else good p

abbrev pub first_argument : List String → Parsed String
first_argument [] = bad no_program
first_argument (a ∷ rest) = if trim_space a == "" then bad no_program else absolute a

abbrev pub concluded : Mode → Scan → Parsed String
concluded scanning s =
    if not s.dict_seen
    then bad no_dict
    else if s.program == ""
    then first_argument s.args
    else absolute s.program
concluded failing s = bad not_xml
concluded (decoding p depth t) s = bad not_xml

abbrev pub program_of : List Token → Parsed String
program_of ks = let s = scan scan_start ks in concluded s.mode s

-- `plistProgram`; `none` is a file that cannot be read.
unfoldable pub plist_program : (String → List Token) → Option String → Parsed String
unfolding scan trim_space
plist_program decode none = bad unreadable_plist
plist_program decode (some file) = program_of (decode file)
