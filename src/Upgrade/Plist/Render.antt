-- ===== src/Upgrade/Plist/Render.antt =====
-- `taskPlist` of internal/upgrade/plist.go: a job as the pieces of its document.
use Prim.Native.Char.{code}
use tokenlive_standalone.Prelude.{
  Bool, false, not, ◌||◌, String, List, [], ◌∷◌, ◌==◌, eqb, if◌then◌else◌, text_append,
}
use tokenlive_standalone.Upgrade.Plist.{
  Token, start_tag, end_tag, char_data, other_token, Parsed, good, bad, invalid_inputs,
  needs_escaping, is_abs,
}

-- `strings.ContainsAny(s, "<>&\"")`.
unfoldable pub has_markup : String → Bool
has_markup String.[] = false
has_markup (String.◌∷◌ c s) =
    eqb (code c) b'<'
    || (eqb (code c) b'>' || (eqb (code c) b'&' || (eqb (code c) b'"' || has_markup s)))

unfoldable pub any_markup : List String → Bool
any_markup [] = false
any_markup (a ∷ rest) = has_markup a || any_markup rest

-- The pieces that `taskPlist` writes.
pub data Piece : Type 0 where
  prolog : String → Piece
  opening closing lone : String → Piece
  opening_with : String → String → Piece
  chars : String → Piece

abbrev pub printed_piece : Piece → String
printed_piece (prolog s) = s
printed_piece (opening n) = text_append "<" (text_append n ">")
printed_piece (closing n) = text_append "</" (text_append n ">")
printed_piece (lone n) = text_append "<" (text_append n "/>")
printed_piece (opening_with n a) = text_append "<" (text_append n (text_append a ">"))
printed_piece (chars s) = s

unfoldable pub print_pieces : List Piece → String
print_pieces [] = ""
print_pieces (p ∷ ps) = text_append (printed_piece p) (print_pieces ps)

abbrev pub key_piece : String → List Piece → List Piece
key_piece k rest = opening "key" ∷ (chars k ∷ (closing "key" ∷ rest))

abbrev pub string_piece : String → List Piece → List Piece
string_piece s rest = opening "string" ∷ (chars s ∷ (closing "string" ∷ rest))

unfoldable pub argument_pieces : List String → List Piece → List Piece
argument_pieces [] rest = rest
argument_pieces (a ∷ args) rest = chars "\n\t\t" ∷ string_piece a (argument_pieces args rest)

abbrev pub gap : List Piece → List Piece
gap rest = chars "\n\t" ∷ rest

abbrev pub flag_piece : String → String → List Piece → List Piece
flag_piece k value rest = gap (key_piece k (gap (lone value ∷ rest)))

abbrev pub number_piece : String → String → List Piece → List Piece
number_piece k n rest =
    gap (key_piece k (gap (opening "integer" ∷ (chars n ∷ (closing "integer" ∷ rest)))))

abbrev pub text_piece : String → String → List Piece → List Piece
text_piece k value rest = gap (key_piece k (gap (string_piece value rest)))

abbrev pub end_pieces : List Piece
end_pieces = chars "\n" ∷ (closing "dict" ∷ (chars "\n" ∷ (closing "plist" ∷ (chars "\n" ∷ []))))

abbrev pub flag_pieces : List Piece → List Piece
flag_pieces rest = flag_piece "RunAtLoad" "true" (
    flag_piece "KeepAlive" "false" (
      flag_piece "LaunchOnlyOnce" "true" (
        flag_piece "AbandonProcessGroup" "false"
          (number_piece "Umask" "63" (number_piece "ExitTimeOut" "15" rest)))))

abbrev pub log_pieces : String → List Piece
log_pieces log = text_piece "StandardOutPath" log (text_piece "StandardErrorPath" log end_pieces)

abbrev pub tail_pieces : String → String → List Piece
tail_pieces work_dir log = text_piece "WorkingDirectory" work_dir (flag_pieces (log_pieces log))

abbrev pub head_pieces : List Piece → List Piece
head_pieces rest =
    prolog "<?xml version=\"1.0\" encoding=\"UTF-8\"?>"
    ∷ (chars "\n"
        ∷ (prolog
              "<!DOCTYPE plist PUBLIC \"-//Apple//DTD PLIST 1.0//EN\" \"http://www.apple.com/DTDs/PropertyList-1.0.dtd\">"
            ∷ (chars "\n"
                ∷ (opening_with "plist" " version=\"1.0\""
                    ∷ (chars "\n" ∷ (opening "dict" ∷ rest))))))

abbrev pub argument_list : String → List String → String → String → List Piece
argument_list executor args work_dir log =
    chars "\n\t\t"
    ∷ string_piece executor
        (argument_pieces args (chars "\n\t" ∷ (closing "array" ∷ tail_pieces work_dir log)))

abbrev pub program_pieces : String → List String → String → String → List Piece
program_pieces executor args work_dir log = text_piece "Program" executor (
    gap (
      key_piece "ProgramArguments"
        (gap (opening "array" ∷ argument_list executor args work_dir log))))

unfoldable pub task_pieces : String → String → List String → String → String → List Piece
unfolding argument_pieces
task_pieces label executor args work_dir log =
    head_pieces (text_piece "Label" label (program_pieces executor args work_dir log))

-- `taskPlist`.
unfoldable pub task_plist : String → String → List String → String → String → Parsed String
unfolding print_pieces task_pieces any_markup has_markup
task_plist label executor args work_dir log =
    if label == "" || (not (is_abs executor) || not (is_abs work_dir))
    then bad invalid_inputs
    else if any_markup args
    then bad needs_escaping
    else good (print_pieces (task_pieces label executor args work_dir log))

-- The tokens of a document of such pieces: the decoder makes none of an empty text.
abbrev pub piece_tokens : Piece → List Token → List Token
piece_tokens (prolog s) ks = other_token ∷ ks
piece_tokens (opening n) ks = start_tag n ∷ ks
piece_tokens (closing n) ks = end_tag n ∷ ks
piece_tokens (lone n) ks = start_tag n ∷ (end_tag n ∷ ks)
piece_tokens (opening_with n a) ks = start_tag n ∷ ks
piece_tokens (chars s) ks = if s == "" then ks else char_data s ∷ ks

unfoldable pub tokens_of : List Piece → List Token
tokens_of [] = []
tokens_of (p ∷ ps) = piece_tokens p (tokens_of ps)
