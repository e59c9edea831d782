-- ===== src/Upgrade/Plist/RoundTrip.antt =====
-- internal/upgrade/plist.go: `plistProgram` of the job that `taskPlist` renders.
use text.Mathlib.TextLemmas.{nil-append}
use tokenlive_standalone.Prelude.{
  Bool, true, false, String, List, [], ◌∷◌, ◌++◌, ◌≡◌, refl, sym, ap, ◌∙◌, subst, inl, inr, some,
  ◌==◌, arith, eq_iff, Bool-cases,
}
use tokenlive_standalone.Upgrade.Plist.{
  Token, good, Purpose, as_key, as_program, as_argument, Mode, scanning, decoding, Scan, scan_start,
  start_element, end_element, scan, decoded_text, is_abs, plist_program,
}
use tokenlive_standalone.Upgrade.Plist.Render.{
  any_markup, Piece, opening, closing, chars, key_piece, string_piece, text_piece, gap, end_pieces,
  log_pieces, flag_pieces, tail_pieces, argument_pieces, argument_list, program_pieces, task_pieces,
  print_pieces, task_plist, tokens_of,
}

-- The scan between two entries of the one dict.
abbrev at_key : String → String → Bool → List String → Scan
at_key pending program in_args args = record {
  mode = scanning;
  program = program;
  in_args = in_args;
  args = args;
  pending = pending;
  dict_seen = true;
  dict_open = 1;
}

decoded_anywhere :
    (s : Scan) (m : Mode) (p : Purpose) (t : String)
    → decoded_text (record s { mode = m }) p t ≡ decoded_text s p t
decoded_anywhere s m as_key t = refl
decoded_anywhere s m as_program t = refl
decoded_anywhere s m as_argument t = refl

-- A text element is decoded whole, an empty one included.
scan-decoding :
    (s : Scan) (p : Purpose) (t name : String) (rest : List Piece)
    → scan (record s { mode = decoding p 0 "" }) (tokens_of (chars t ∷ (closing name ∷ rest)))
      ≡ scan (decoded_text s p t) (tokens_of rest)
unfolding scan tokens_of
scan-decoding s p t name rest = elim (Bool-cases (t == "")) [
  | inl e ↦
      let empty : t ≡ "" = (eq_iff t "").0 e in
      rw e (
        ap (λ x. scan x (tokens_of rest))
          (decoded_anywhere s (decoding p 0 "") p "" ∙ ap (decoded_text s p) (sym empty)))
  | inr e ↦ rw e (
      ap (λ x. scan (decoded_text (record s { mode = decoding p 0 x }) p x) (tokens_of rest))
        (nil-append t)
      ∙ ap (λ x. scan x (tokens_of rest)) (decoded_anywhere s (decoding p 0 t) p t))
]

module _ (program : String) (args : List String) where
  scan-key :
      (k old : String) (in_args : Bool) (rest : List Piece)
      → scan (at_key old program in_args args) (tokens_of (gap (key_piece k rest)))
        ≡ scan (at_key k program in_args args) (tokens_of rest)
  unfolding scan tokens_of start_element
  scan-key k old in_args rest = scan-decoding (at_key old program in_args args) as_key k "key" rest

  -- Behind a key that asks for nothing, a text is passed over.
  scan-string :
      (k v : String) (rest : List Piece)
      → (k == "Program") ≡ false
      → scan (at_key k program false args) (tokens_of (gap (string_piece v rest)))
        ≡ scan (at_key k program false args) (tokens_of rest)
  unfolding scan tokens_of start_element end_element
  scan-string k v rest other = elim (Bool-cases (v == "")) [
    | inl e ↦ rw e (rw (other, scan) refl)
    | inr e ↦ rw e (rw (other, scan) refl)
  ]

  scan-text_piece :
      (k v old : String) (rest : List Piece)
      → (k == "Program") ≡ false
      → scan (at_key old program false args) (tokens_of (text_piece k v rest))
        ≡ scan (at_key k program false args) (tokens_of rest)
  scan-text_piece k v old rest other =
      scan-key k old false (gap (string_piece v rest)) ∙ scan-string k v rest other

  -- The tail of the document changes neither the program nor the arguments.
  scan-tail :
      (work_dir log old : String)
      → scan (at_key old program false args) (tokens_of (tail_pieces work_dir log))
        ≡ record (at_key "StandardErrorPath" program false args) { dict_open = 0 }
  unfolding scan tokens_of start_element end_element
  scan-tail work_dir log old =
      scan-text_piece "WorkingDirectory" work_dir old (flag_pieces (log_pieces log)) refl
      ∙ scan-text_piece "StandardOutPath" log "ExitTimeOut"
          (text_piece "StandardErrorPath" log end_pieces) refl
      ∙ scan-text_piece "StandardErrorPath" log "StandardOutPath" end_pieces refl

-- Every argument is taken, and none ends the array.
scan-arguments :
    (program : String) (args more : List String) (rest : List Piece)
    → (all : List String) × (scan
          (at_key "ProgramArguments" program true args)
          (tokens_of (argument_pieces more rest))
        ≡ scan (at_key "ProgramArguments" program true all) (tokens_of rest))
unfolding argument_pieces scan tokens_of start_element
scan-arguments program args [] rest = (args, refl)
scan-arguments program args (a ∷ more) rest =
    let (all, e) = scan-arguments program (args ++ (a ∷ [])) more rest in
    (
      all,
      scan-decoding (at_key "ProgramArguments" program true args) as_argument a "string"
            (argument_pieces more rest)
          ∙ e,
    )

-- The whole document: the program is the executor.
scan-task_pieces :
    (label executor : String) (args : List String) (work_dir log : String)
    → (all : List String) × (scan scan_start
          (tokens_of (task_pieces label executor args work_dir log))
        ≡ record (at_key "StandardErrorPath" executor false all) { dict_open = 0 })
unfolding task_pieces scan tokens_of start_element end_element
scan-task_pieces label executor args work_dir log =
    let tail = chars "\n\t" ∷ (closing "array" ∷ tail_pieces work_dir log) in
    let list = argument_list executor args work_dir log in
    let array = gap (key_piece "ProgramArguments" (gap (opening "array" ∷ list))) in
    let (all, taken) = scan-arguments executor (executor ∷ []) args tail in
    (
      all,
      scan-text_piece "" [] "Label" label "" (program_pieces executor args work_dir log) refl
          ∙ scan-key "" [] "Program" "Label" false (gap (string_piece executor array))
          ∙ scan-decoding (at_key "Program" "" false []) as_program executor "string" array
          ∙ scan-key executor [] "ProgramArguments" "" false (gap (opening "array" ∷ list))
          ∙ scan-decoding (at_key "ProgramArguments" executor true []) as_argument executor "string"
              (argument_pieces args tail)
          ∙ taken
          ∙ scan-tail executor all work_dir log "",
    )

absolute_named : (p : String) → is_abs p ≡ true → (p == "") ≡ false
absolute_named p h = elim (Bool-cases (p == "")) [
  | inr e ↦ e
  | inl e ↦
      let empty : p ≡ "" = (eq_iff p "").0 e in absurd (cc (subst (λ x. is_abs x ≡ true) empty h))
]

-- If `taskPlist` renders a job, and the decoder reads the document back when no text in it has
-- markup, and the label, the executor and the two paths have none, then `plistProgram` of the
-- rendered file is the executor.
pub plist_program-task_plist :
    (decode : String → List Token) (label executor : String) (args : List String)
    (work_dir log file : String)
    → (any_markup (label ∷ (executor ∷ (work_dir ∷ (log ∷ args)))) ≡ false
        → decode (print_pieces (task_pieces label executor args work_dir log))
          ≡ tokens_of (task_pieces label executor args work_dir log))
    → any_markup (label ∷ (executor ∷ (work_dir ∷ (log ∷ [])))) ≡ false
    → task_plist label executor args work_dir log ≡ good file
    → plist_program decode (some file) ≡ good executor
unfolding plist_program task_plist any_markup
plist_program-task_plist decode label executor args work_dir log file reads plain made =
    let (all, scanned) = scan-task_pieces label executor args work_dir log in
    let abs : is_abs executor ≡ true = ground (arith, made) in
    let clean : any_markup args ≡ false = ground (arith, made) in
    let same : file ≡ print_pieces (task_pieces label executor args work_dir log) =
      ground (arith, made) in
    let tokens = reads (ground (arith, plain, clean)) in
    rw (same, tokens, scanned) (rw (absolute_named executor abs, abs) refl)
