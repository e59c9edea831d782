-- ===== src/Upgrade/Manager.antt =====
-- internal/upgrade/manager.go: the manager's operations on the store. `Manager` holds what the
-- source's `Manager` holds and what one call takes from outside: the instant of the call, the
-- fetched candidate, the random secret and identifier, and the answers of launchd and the kernel.
use tokenlive_standalone.Prelude.{
  ℕ, ◌+◌, ◌-◌, ◌*◌, String, Bool, true, false, not, ◌&&◌, ◌||◌, Option, none, some, List, [], ◌∷◌,
  ◌++◌, map, ◌==◌, eqb, ltb, leb, if◌then◌else◌, bytes, trim_v, text_append,
}
use mathlib.Core.List.{get_last?}
use tokenlive_standalone.Upgrade.Host.{
  TaskState, Host, awaiting_confirmation, confirmation_expired, queued, downloading, installing,
  restarting, verifying, needs_attention, is_awaiting, is_queued, is_needs_attention,
}
use tokenlive_standalone.Upgrade.Task.{Task, TaskView, blank_task, view, second}
use tokenlive_standalone.Upgrade.Active.{active_task}
use tokenlive_standalone.Upgrade.Disk.{
  Error, Outcome, ok, err, target_changed, task_conflict, invalid_credential,
  confirmation_expired as confirmation_elapsed, not_allowed, unsupported, other, Dir, World, Action,
  ◌>>=◌, ◌>>◌, pure, fail, attempt, continue, lookup_dir, write_file_atomic, mkdir_all,
}
use tokenlive_standalone.Upgrade.Store.{
  truncate, error_text, stamp, save, create, load, list_tasks, cleanup, cap_log_file, try_lock,
  release,
}
use tokenlive_standalone.Upgrade.Command.{Ran}
use tokenlive_standalone.Upgrade.Launchd.{is_gone}
pub mod Prepare
pub mod Prepared
pub mod Submit
pub mod Submitted
pub mod Queries

pub record Candidate : Type 0 where
  pub body : String
  pub stable : String
  pub raw : String

pub record Manager : Type 0 where
  pub host : Host
  pub now : ℕ
  pub install_id : String
  pub current_version : String
  pub port : ℕ
  pub service_label : String
  pub domain : String
  pub executable : Outcome (Unit {0})  -- reading the current binary
  pub fetch : Outcome Candidate
  pub secret : Outcome String
  pub fresh_id : String
  pub path_escape : String → String  -- `url.PathEscape`
  pub pid_alive : ℕ → Bool  -- `syscall.Kill(pid, 0) == nil`
  pub bootstrap : Ran  -- how `launchctl bootstrap` ended
  pub bootout : String → Ran  -- how `launchctl bootout` ended, for each label
  pub plist_fault : Option Error  -- why `taskPlist` refuses its inputs

abbrev pub confirm_ttl : ℕ
confirm_ttl = 300 * second

abbrev pub bootstrap_timeout : ℕ
bootstrap_timeout = 15 * second

abbrev pub accepted_budget : ℕ
accepted_budget = 1800 * second

unfoldable pub task_label : String → String → String
task_label install id =
    text_append "com.tokenlive.upgrade." (text_append install (text_append "." id))

abbrev pub ready_pid_of : Option Dir → Option ℕ
ready_pid_of none = none
ready_pid_of (some d) = d.ready_pid

abbrev pub alive_as : Manager → ℕ → Option ℕ → Bool
alive_as m pid none = false
alive_as m pid (some p) = eqb p pid && m.pid_alive pid

-- The heartbeat must be of this very worker, and its process must answer.
unfoldable pub worker_alive : Manager → Task → World → Bool
unfolding lookup_dir
worker_alive m t w =
    if eqb t.worker_pid 0
    then false
    else alive_as m t.worker_pid (ready_pid_of (lookup_dir t.task_id w.dirs))

abbrev pub inflight_state : TaskState → Bool
inflight_state downloading = true
inflight_state installing = true
inflight_state restarting = true
inflight_state verifying = true
inflight_state _ = false

-- `now.Sub(t)` past a bound. A time that is not yet reached is past none.
abbrev pub elapsed_over : ℕ → ℕ → ℕ → Bool
elapsed_over now t bound = ltb bound (now - t)

abbrev pub inflight_lost : Manager → Task → Task
inflight_lost m t =
    if elapsed_over m.now t.created_at accepted_budget
    then record t {
      state = needs_attention;
      phase = "";
      error_kind = "budget_exhausted";
      detail = bytes "accepted task exceeded 30 minutes without a proven terminal state";
    }
    else record t {
      state = needs_attention;
      phase = "";
      error_kind = "worker_exited";
      detail = bytes "worker disappeared before the task reached a terminal state";
    }

unfoldable pub reconcile_inflight : Manager → Task → World → World
reconcile_inflight m t w =
    if worker_alive m t w && not (elapsed_over m.now t.created_at accepted_budget)
    then w
    else attempt (save m.now (inflight_lost m t)) w

abbrev pub launch_lost : Task → Task
launch_lost t =
    if t.launch_unknown
    then record t {
      state = needs_attention;
      error_kind = "launch_unresolved";
      detail = bytes "bootstrap result unknown and no worker heartbeat appeared";
    }
    else record t { state = needs_attention; error_kind = "worker_never_started" }

unfoldable pub reconcile_launch : Manager → Task → World → World
reconcile_launch m t w =
    if worker_alive m t w
    then (if t.launch_unknown
        then attempt (save m.now (record t { launch_unknown = false })) w
        else w)
    else if not (elapsed_over m.now t.updated_at (2 * bootstrap_timeout))
    then w
    else attempt (save m.now (launch_lost t)) w

unfoldable pub reconcile_cleanup : Manager → Task → World → World
reconcile_cleanup m t w =
    if is_gone (m.bootout (task_label t.install_id t.task_id))
    then attempt (cleanup t.task_id) (attempt (cap_log_file t.task_id) w)
    else w

-- The cases of the `switch` in the loop of `reconcile`.
unfoldable pub reconcile_task : Manager → Bool → Task → World → World
reconcile_task m allow_cleanup t w =
    if is_awaiting t.state && ltb t.credential_expiry m.now
    then attempt (save m.now (record t { state = confirmation_expired })) w
    else if is_queued t.state
    then reconcile_launch m t w
    else if inflight_state t.state
    then reconcile_inflight m t w
    else if allow_cleanup && (t.cleanup_pending && (not t.cleaned && m.host.terminal t.state))
    then reconcile_cleanup m t w
    else w

unfoldable pub reconcile : Manager → Bool → List Task → World → World
reconcile m allow_cleanup [] w = w
reconcile m allow_cleanup (t ∷ ts) w =
    reconcile m allow_cleanup ts (reconcile_task m allow_cleanup t w)

abbrev pub list_again : Manager → Outcome (List Task) → World → Outcome (List Task) × World
list_again m (err e) w = (err e, w)
list_again m (ok ts) w = let w' = reconcile m true ts w in (list_tasks m.now w', w')

unfoldable pub reconciled_tasks : Manager → Action (List Task)
reconciled_tasks m w = list_again m (list_tasks m.now w) w
