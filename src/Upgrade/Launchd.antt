-- ===== src/Upgrade/Launchd.antt =====
-- internal/upgrade/launchd.go: what the fixed invocations of launchctl answer, from how the command
-- ended. Outputs are bytes of ASCII text.
use tokenlive_standalone.Prelude.{
  ℕ, Bool, true, false, not, ◌||◌, List, [], ◌∷◌, Option, none, some, eqb, leb, bytes, Bytes, split,
  contains, trim_right, value_from, all_digits, same_bytes, if◌then◌else◌,
}
use tokenlive_standalone.Upgrade.Disk.{Outcome, ok, err, other}
use tokenlive_standalone.Upgrade.Command.{
  exited, timed_out, not_run, Ran, printed, stopped, diagnose,
}

-- The white space of the language's regular expressions.
abbrev pub is_gap : ℕ → Bool
is_gap c = eqb c 32 || (eqb c 9 || (eqb c 10 || (eqb c 12 || eqb c 13)))

abbrev pub push_word : Bytes → List Bytes → List Bytes
push_word [] ws = ws
push_word (c ∷ w) ws = (c ∷ w) ∷ ws

-- The word that a text begins with, and the words behind it.
unfoldable pub scan_words : Bytes → Bytes × List Bytes
scan_words [] = ([], [])
scan_words (c ∷ cs) =
    let (w, ws) = scan_words cs in if is_gap c then ([], push_word w ws) else (c ∷ w, ws)

unfoldable pub words : Bytes → List Bytes
unfolding scan_words
words s = let (w, ws) = scan_words s in push_word w ws

abbrev pub max_int : ℕ
max_int = 9223372036854775807

abbrev pub unparseable : Outcome (Option ℕ)
unparseable = err (other (bytes "launchctl list: unparseable output"))

abbrev pub pid_of : Bytes → Outcome (Option ℕ)
pid_of first =
    if same_bytes first (bytes "-")
    then ok none
    else if not (all_digits first)
    then unparseable
    else if leb (value_from 0 first) max_int
    then ok (some (value_from 0 first))
    else err (other (bytes "launchctl list: bad pid"))

-- `listLine`, `^\s*(\d+|-)\s+\d+\s+\S+\s*$`: three words, the second of digits.
abbrev pub listed_row : List Bytes → Outcome (Option ℕ)
listed_row (first ∷ (status ∷ (label ∷ []))) =
    if all_digits status then pid_of first else unparseable
listed_row _ = unparseable

abbrev pub listed_lines : List Bytes → Outcome (Option ℕ)
listed_lines (line ∷ []) = listed_row (words line)
listed_lines _ = err (other (bytes "launchctl list: unexpected lines"))

abbrev pub could_not_find : Bytes → Bool
could_not_find out = contains (bytes "Could not find service") out

-- `ListPID`: `none` is a job that is not loaded or does not run.
unfoldable pub list_pid : Ran → Outcome (Option ℕ)
unfolding split trim_right words contains
list_pid (printed out) = listed_lines (split b'\n' (trim_right (λ c. eqb c b'\n') out))
list_pid (stopped (exited program code out)) =
    if could_not_find out then ok none else err (other (diagnose (exited program code out)))
list_pid (stopped (timed_out program)) = err (other (diagnose (timed_out program)))
list_pid (stopped (not_run e)) = err (other e)

-- `Bootstrap`: a job that is loaded already is loaded.
unfoldable pub bootstrap : Ran → Outcome (Unit {0})
unfolding contains
bootstrap (printed out) = ok tt
bootstrap (stopped (exited program code out)) =
    if contains (bytes "already bootstrapped") out
    then ok tt
    else err (other (diagnose (exited program code out)))
bootstrap (stopped (timed_out program)) = err (other (diagnose (timed_out program)))
bootstrap (stopped (not_run e)) = err (other e)

-- `Bootout`: a job that is gone already is gone.
unfoldable pub bootout : Ran → Outcome (Unit {0})
unfolding contains
bootout (printed out) = ok tt
bootout (stopped (exited program code out)) =
    if could_not_find out || contains (bytes "No such process") out
    then ok tt
    else err (other (diagnose (exited program code out)))
bootout (stopped (timed_out program)) = err (other (diagnose (timed_out program)))
bootout (stopped (not_run e)) = err (other e)

-- `PrintExists`: by the exit code alone.
unfoldable pub print_exists : Ran → Outcome (Unit {0})
print_exists (printed out) = ok tt
print_exists (stopped e) = err (other (diagnose e))

abbrev pub is_ok : Outcome (Unit {0}) → Bool
is_ok (ok u) = true
is_ok (err e) = false

-- The cleanup's question: does `Bootout` report no error?
unfoldable pub is_gone : Ran → Bool
unfolding bootout
is_gone r = is_ok (bootout r)
