-- ===== src/Upgrade/Worker.antt =====
-- internal/upgrade/worker.go: one accepted task, executed by the one-shot job. Each stage saves its
-- state before its external action, whose answer is a field of `Worker`.
use tokenlive_standalone.Upgrade.Worker.Commands.{
  Site, issue, upgrade_command, list_command, stop_command, start_command, bootout_self,
}
use tokenlive_standalone.Upgrade.Disk.{Issued, polling}
use tokenlive_standalone.Upgrade.Manager.{task_label}
use tokenlive_standalone.Prelude.{
  ℕ, String, Bool, true, false, not, ◌||◌, Option, none, some, List, [], ◌∷◌, ◌++◌, ◌==◌,
  if◌then◌else◌, bytes,
}
use tokenlive_standalone.Upgrade.Host.{
  TaskState, Host, queued, downloading, installing, restarting, verifying, succeeded, failed,
  needs_attention, is_queued,
}
use tokenlive_standalone.Upgrade.Task.{Task}
use tokenlive_standalone.Upgrade.Disk.{
  Error, Outcome, ok, err, other, Dir, World, Action, attempt, lookup_dir, write_file_atomic,
}
use tokenlive_standalone.Upgrade.Command.{CommandError, exited, timed_out, not_run, Ran, diagnose}
use tokenlive_standalone.Upgrade.Launchd.{list_pid}
use tokenlive_standalone.Upgrade.Verify.{Watch, Verdict, proven, refuted, verify}
use tokenlive_standalone.Upgrade.Store.{truncate, error_text, stamp, save, load, try_lock, release}
pub mod Safety
pub mod Run
pub mod Commands
pub mod Plan
pub mod Restarted
pub mod Proven

pub record Worker : Type 0 where
  pub host : Host
  pub now : ℕ
  pub pid : ℕ  -- `os.Getpid()`
  pub site : Site
  pub tap_write : Option (List ℕ)  -- making the tap's directory and file failed, and how
  pub tap_read : Option String  -- the file read back
  pub brew_upgrade : Option CommandError
  pub brew_stop : Option CommandError
  pub brew_start : Option CommandError
  pub listed : Ran  -- how `launchctl list` ended before the stop
  pub watch : Watch  -- what `verify` sees after the start

abbrev pub Ended : Type 0
Ended = Outcome (Unit {0}) × World

-- `fail`: a failure that is known to have ended.
abbrev pub failure : Task → String → String → List ℕ → Task
failure t stage kind cause = record t {
  state = failed;
  failure_stage = stage;
  error_kind = kind;
  detail = truncate cause 300;
  phase = "";
}

abbrev pub fail : Worker → Task → String → String → List ℕ → World → Ended
fail k t stage kind cause w = save k.now (failure t stage kind cause) w

-- `failUnknown`: an outcome that nothing proves, written over the record on disk.
abbrev pub unknown : Task → String → List ℕ → Task
unknown t stage cause = record t {
  state = needs_attention;
  failure_stage = stage;
  error_kind = "outcome_unknown";
  detail = truncate cause 300;
  phase = "";
}

abbrev pub save_unknown : Worker → String → List ℕ → Outcome (Option Task) → World → World
save_unknown k stage cause (ok (some t)) w = attempt (save k.now (unknown t stage cause)) w
save_unknown k stage cause (ok none) w = w
save_unknown k stage cause (err e) w = w

unfoldable pub fail_unknown : Worker → String → String → List ℕ → World → Ended
fail_unknown k id stage cause w = (err (other cause), save_unknown k stage cause (load id w) w)

-- The record in memory as a stage begins, and the world after its save and once its action is issued.
abbrev pub entered : Worker → TaskState → String → Task → Task
entered k s phase t = stamp k.now (record t { state = s; phase = phase })

abbrev pub enter : Worker → TaskState → String → List Issued → Task → World → World
enter k s phase cs t w = issue cs (attempt (save k.now (record t { state = s; phase = phase })) w)

abbrev pub snapshot_of : Option Dir → Option String
snapshot_of none = none
snapshot_of (some d) = d.snapshot

abbrev pub tap_checked : Worker → Task → Option String → Option (List ℕ)
tap_checked k t none = some (bytes "snapshot verify failed after write")
tap_checked k t (some on_disk) =
    if not (k.host.sha256_hex on_disk == t.formula_sha256)
    then some (bytes "snapshot verify failed after write")
    else none

abbrev pub tap_written : Worker → Task → Option (List ℕ) → Option (List ℕ)
tap_written k t (some e) = some e
tap_written k t none = tap_checked k t k.tap_read

abbrev pub stage_body : Worker → Task → Option String → Option (List ℕ)
stage_body k t none = some (bytes "no snapshot")
stage_body k t (some body) =
    if not (k.host.sha256_hex body == t.formula_sha256)
    then some (bytes "snapshot digest mismatch")
    else tap_written k t k.tap_write

-- `stageSnapshot`: the digest is checked before the tap's file is written, and of what it holds then.
unfoldable pub stage_snapshot : Worker → Task → World → Option (List ℕ)
stage_snapshot k t w = stage_body k t (snapshot_of (lookup_dir t.task_id w.dirs))

abbrev pub finished : Worker → Task → Task
finished k t = record t {
  state = succeeded;
  phase = "";
  cleanup_pending = true;
  succeeded_at = k.now;
}

-- Once the success is saved, the job removes itself.
abbrev pub booted_out : Task → Ended → Ended
booted_out t (err e, w) = (err e, w)
booted_out t (ok u, w) =
    (ok u, issue (bootout_self t.domain (task_label t.install_id t.task_id) ∷ []) w)

abbrev pub after_verify : Worker → Task → Verdict → World → Ended
after_verify k t (refuted reason) w =
    fail_unknown k t.task_id "verify" (bytes "verification failed: " ++ reason) w
after_verify k t proven w = booted_out t (save k.now (finished k t) w)

unfoldable pub run_verify : Worker → Task → World → Ended
run_verify k t w =
    after_verify k (entered k verifying "health" t)
      (verify k.watch (entered k verifying "health" t))
      (enter k verifying "health" (polling ∷ []) t w)

abbrev pub after_start : Worker → Task → Option CommandError → World → Ended
after_start k t (some e) w = fail_unknown k t.task_id "service_start" (diagnose e) w
after_start k t none w = run_verify k t w

abbrev pub after_stop : Worker → Task → Option CommandError → World → Ended
after_stop k t (some e) w = fail_unknown k t.task_id "service_stop" (diagnose e) w
after_stop k t none w =
    after_start k (entered k restarting "service_start" t) k.brew_start
      (enter k restarting "service_start" (start_command k.site ∷ []) t w)

abbrev pub run_stop : Worker → Task → World → Ended
run_stop k t w =
    after_stop k (entered k restarting "service_stop" t) k.brew_stop
      (enter k restarting "service_stop" (stop_command k.site ∷ []) t w)

abbrev pub after_pid : Worker → Task → Outcome (Option ℕ) → World → Ended
after_pid k t (err e) w = fail_unknown k t.task_id "service_pid" (error_text e) w
after_pid k t (ok none) w = run_stop k t w
after_pid k t (ok (some pid)) w = run_stop k (record t { service_pid = pid }) w

unfoldable pub run_restart : Worker → Task → World → Ended
run_restart k t w =
    after_pid k (entered k restarting "service_pid" t) (list_pid k.listed)
      (enter k restarting "service_pid" (list_command t.service_label ∷ []) t w)

-- A timeout proves nothing of the installation; a clean non-zero exit is a known failure.
abbrev pub after_upgrade : Worker → Task → Option CommandError → World → Ended
after_upgrade k t (some (timed_out program)) w =
    fail_unknown k t.task_id "brew_upgrade" (diagnose (timed_out program)) w
after_upgrade k t (some (exited program code out)) w =
    fail k t "brew_upgrade" "brew_upgrade_failed" (diagnose (exited program code out)) w
after_upgrade k t (some (not_run e)) w =
    fail k t "brew_upgrade" "brew_upgrade_failed" (diagnose (not_run e)) w
after_upgrade k t none w = run_restart k t w

abbrev pub after_snapshot : Worker → Task → Option (List ℕ) → World → Ended
after_snapshot k t (some e) w = fail k t "tap_snapshot" "snapshot_failed" e w
after_snapshot k t none w =
    after_upgrade k (entered k installing "brew_upgrade" t) k.brew_upgrade
      (enter k installing "brew_upgrade" (upgrade_command k.site t.task_id ∷ []) t w)

unfoldable pub run_install : Worker → Task → World → Ended
run_install k t w =
    let t' = entered k downloading "tap_snapshot" t in
    let w' = enter k downloading "tap_snapshot" [] t w in
    after_snapshot k t' (stage_snapshot k t' w') w'

abbrev pub after_ready : Worker → Task → Outcome (Unit {0}) → World → Ended
after_ready k t (err e) w = fail_unknown k t.task_id "ready" (error_text e) w
after_ready k t (ok u) w = run_install k (stamp k.now t) w

abbrev pub ready_saved : Worker → Task → Outcome (Unit {0}) → World → Ended
ready_saved k t (err e) w = (err e, w)
ready_saved k t (ok u) w = save k.now t w

-- `writeReady`: the heartbeat file, and the worker's PID in the record.
unfoldable pub write_ready : Worker → Task → World → Ended
write_ready k t w =
    let (r, w') = write_file_atomic t.task_id (λ d. record d { ready_pid = some k.pid }) w in
    ready_saved k (record t { worker_pid = k.pid }) r w'

abbrev pub run_loaded : Worker → Outcome (Option Task) → World → Ended
run_loaded k (err e) w = (err e, w)
run_loaded k (ok none) w = (err (other (bytes "not found")), w)
run_loaded k (ok (some t)) w =
    if not (is_queued t.state)
    then (err (other (bytes "not queued")), w)
    else (let (r, w') = write_ready k t w in after_ready k (record t { worker_pid = k.pid }) r w')

abbrev pub run_locked : Worker → String → Outcome Bool → World → Ended
run_locked k id (err e) w = fail_unknown k id "lock" (error_text e) w
run_locked k id (ok false) w = fail_unknown k id "lock" (bytes "install lock busy") w
run_locked k id (ok true) w = let (r, w') = run_loaded k (load id w) w in (r, release w')

unfoldable pub run : Worker → String → World → Ended
run k id w = let (r, w') = try_lock w in run_locked k id r w'
