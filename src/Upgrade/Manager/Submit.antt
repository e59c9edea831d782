-- ===== src/Upgrade/Manager/Submit.antt =====
-- internal/upgrade/manager.go, `Submit` and `launchTask`: the confirmation is consumed, and the
-- one-shot job is started.
use tokenlive_standalone.Prelude.{
  ℕ, suc, String, Bool, true, not, ◌||◌, Option, none, some, List, ◌++◌, ◌==◌, ltb, if◌then◌else◌,
  bytes,
}
use tokenlive_standalone.Upgrade.Host.{
  confirmation_expired, queued, needs_attention, is_awaiting, is_queued,
}
use tokenlive_standalone.Upgrade.Task.{Task, TaskView, view}
use tokenlive_standalone.Upgrade.Disk.{
  Error, Outcome, ok, err, task_conflict, invalid_credential, not_allowed, other,
  confirmation_expired as confirmation_elapsed, World, Action, ◌>>◌, pure, fail, attempt,
  write_file_atomic, mkdir_all,
}
use tokenlive_standalone.Upgrade.Store.{truncate, error_text, stamp, save, load}
use tokenlive_standalone.Upgrade.Launchd.{bootstrap}
use tokenlive_standalone.Upgrade.Manager.{Manager}
use tokenlive_standalone.Upgrade.Manager.Prepare.{with_lock}

pub record SubmitRequest : Type 0 where
  pub task_id : String
  pub credential : String
  pub confirm : Bool
  pub initiator : String

abbrev pub wrapped : List ℕ → Outcome (Unit {0}) → Outcome (Unit {0})
wrapped prefix (ok u) = ok u
wrapped prefix (err e) = err (other (prefix ++ error_text e))

abbrev pub wrapping : List ℕ → Action (Unit {0}) → Action (Unit {0})
wrapping prefix m w = let (r, w') = m w in (wrapped prefix r, w')

abbrev pub fail_if : Option Error → Action (Unit {0})
fail_if none = pure tt
fail_if (some e) = fail e

abbrev pub given : Outcome (Unit {0}) → Action (Unit {0})
given r w = (r, w)

-- `copyFile` from the current binary to the task's executor.
abbrev pub copy_executor : Manager → String → Action (Unit {0})
copy_executor m id =
    wrapping (bytes "copy executor: ") (do
      given m.executable
      mkdir_all id
      write_file_atomic id (λ d. record d { executor = true }))

-- What `launchTask` does before it asks launchd.
unfoldable pub launch_files : Manager → String → Action (Unit {0})
launch_files m id = do
  copy_executor m id
  fail_if m.plist_fault
  write_file_atomic id (λ d. record d { job_plist = true })

-- The outcome of a launch, with the record as the launch left it in memory.
abbrev pub Launched : Type 0
Launched = (Outcome (Unit {0}) × Task) × World

abbrev pub launch_reported : Manager → Task → Outcome (Unit {0}) → World → Launched
launch_reported m t (ok u) w = let (r, w') = save m.now t w in ((r, stamp m.now t), w')
launch_reported m t (err e) w =
    let t' = record t { launch_unknown = true } in
    (
      (err (other (bytes "bootstrap outcome unknown: " ++ error_text e)), stamp m.now t'),
      attempt (save m.now t') w,
    )

abbrev pub launch_prepared : Manager → Task → Outcome (Unit {0}) → World → Launched
launch_prepared m t (err e) w = ((err e, t), w)
launch_prepared m t (ok u) w =
    launch_reported m (record t { launch_attempt = suc t.launch_attempt }) (bootstrap m.bootstrap) w

unfoldable pub launch_task : Manager → Task → World → Launched
launch_task m t w = let (r, w') = launch_files m t.task_id w in launch_prepared m t r w'

-- The record after a launch that did not provably start a job.
abbrev pub launch_failed : Task → Error → Task
launch_failed t e = record t {
  phase = "launch";
  state = needs_attention;
  error_kind = "launch_failed";
  detail = truncate (error_text e) 200;
}

abbrev pub submit_launched : Manager → Launched → Outcome TaskView × World
submit_launched m ((ok u, t), w) = (ok (view t), w)
submit_launched m ((err e, t), w) = (err not_allowed, attempt (save m.now (launch_failed t e)) w)

abbrev pub accepted : Manager → String → Task → Task
accepted m digest t = record t {
  state = queued;
  phase = "launching";
  accepted_digest = digest;
  credential_digest = "";
}

abbrev pub submit_saved : Manager → Task → Outcome (Unit {0}) → World → Outcome TaskView × World
submit_saved m t (err e) w = (err e, w)
submit_saved m t (ok u) w = submit_launched m (launch_task m (stamp m.now t) w)

-- `Submit` of a task that is loaded: the checks in their order, then the acceptance.
unfoldable pub submit_task : Manager → SubmitRequest → Task → Action TaskView
submit_task m req t w =
    let digest = m.host.sha256_hex req.credential in
    if not (t.initiator == req.initiator)
    then (err invalid_credential, w)
    else if is_queued t.state
    then (if t.accepted_digest == "" || not (digest == t.accepted_digest)
        then (err invalid_credential, w)
        else (ok (view t), w))
    else if not (is_awaiting t.state)
    then (err task_conflict, w)
    else if ltb t.credential_expiry m.now
    then (
      err confirmation_elapsed,
      attempt (save m.now (record t { state = confirmation_expired })) w,
    )
    else if not (digest == t.credential_digest)
    then (err invalid_credential, w)
    else (let (r, w') = save m.now (accepted m digest t) w in
        submit_saved m (accepted m digest t) r w')

abbrev pub submit_loaded : Manager → SubmitRequest → Outcome (Option Task) → Action TaskView
submit_loaded m req (err e) w = (err e, w)
submit_loaded m req (ok none) w = (err invalid_credential, w)
submit_loaded m req (ok (some t)) w = submit_task m req t w

unfoldable pub submit : Manager → SubmitRequest → Action TaskView
submit m req w =
    if not req.confirm
    then (err invalid_credential, w)
    else with_lock (λ v. submit_loaded m req (load req.task_id v) v) w
