-- ===== src/Upgrade/Command.antt =====
-- internal/upgrade/runner.go, exec_runner.go, and `diagnose` of worker.go: how a command ended, and
-- the line that reports it. The process itself is the parameter `Waited`.
use tokenlive_standalone.Prelude.{
  ℕ, ◌++◌, String, List, [], ◌∷◌, take, eqb, length, leb, base, bytes, Bytes, split, trim_bytes,
  decimal, same_bytes, if◌then◌else◌,
}

-- The exit code of an `ExitError`; that of a child ended by a signal is -1.
pub data ExitCode : Type 0 where
  exit_code : ℕ → ExitCode
  minus_one : ExitCode

-- `ExitError` with its program, code and output; `TimeoutError` with its program; any other error
-- with its text.
pub data CommandError : Type 0 where
  exited : String → ExitCode → Bytes → CommandError
  timed_out : String → CommandError
  not_run : Bytes → CommandError

-- What `Runner.Run` returns: the output, or an error.
pub data Ran : Type 0 where
  printed : Bytes → Ran
  stopped : CommandError → Ran

abbrev pub max_output_bytes : ℕ
max_output_bytes = 65536

unfoldable pub bounded_output : Bytes → Bytes
bounded_output out = if leb (length out) max_output_bytes then out else take max_output_bytes out

-- What the language's library reports of a child: it could not be started; it exited; a signal ended
-- it, which `errors.As` finds to be an `exec.ExitError` too; waiting for it failed; the time was up.
pub data Waited : Type 0 where
  start_failed : Bytes → Waited
  exit_status : ℕ → Waited
  signalled wait_failed deadline_passed : Waited

abbrev pub exit_error : String → ExitCode → Bytes → Ran
exit_error program code out = stopped (exited program code (bounded_output out))

abbrev pub ended : String → Bytes → Waited → Ran
ended program out (start_failed e) = stopped (not_run e)
ended program out (exit_status code) =
    if eqb code 0 then printed (bounded_output out) else exit_error program (exit_code code) out
ended program out signalled = exit_error program minus_one out
ended program out wait_failed = stopped (timed_out program)
ended program out deadline_passed = stopped (timed_out program)

-- `ExecRunner.Run`, given what the child wrote and how waiting for it ended.
unfoldable pub run_command : List String → Bytes → Waited → Ran
run_command [] out w = stopped (not_run (bytes "empty argv"))
run_command (program ∷ args) out w = ended program out w

abbrev pub keep_last : Bytes → List Bytes → Bytes
keep_last last [] = last
keep_last last (l ∷ ls) = keep_last (if same_bytes (trim_bytes l) [] then last else trim_bytes l) ls

-- `lastLine`: the last line that is not blank, trimmed.
unfoldable pub last_line : Bytes → Bytes
last_line s = keep_last [] (split b'\n' s)

abbrev pub code_bytes : ExitCode → Bytes
code_bytes (exit_code n) = decimal n
code_bytes minus_one = bytes "-1"

unfoldable pub diagnose : CommandError → Bytes
diagnose (exited program code out) =
    bytes (base program) ++ (bytes " exited " ++ (code_bytes code ++ (bytes ": " ++ last_line out)))
diagnose (timed_out program) = bytes program ++ bytes " timed out; process state unknown"
diagnose (not_run e) = e
