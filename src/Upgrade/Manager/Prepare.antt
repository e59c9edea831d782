-- ===== src/Upgrade/Manager/Prepare.antt =====
-- internal/upgrade/manager.go, `Prepare`: a validated candidate becomes a task that awaits its
-- confirmation, under a one-time credential.
use tokenlive_standalone.Prelude.{
  ℕ, ◌+◌, ◌/◌, String, Bool, true, false, not, Option, none, some, ◌++◌, ◌==◌, if◌then◌else◌, bytes,
  trim_v, text_append,
}
use tokenlive_standalone.Upgrade.Host.{awaiting_confirmation}
use tokenlive_standalone.Upgrade.Task.{Task, blank_task, second}
use tokenlive_standalone.Upgrade.Active.{active_task}
use tokenlive_standalone.Upgrade.Disk.{
  Outcome, ok, err, target_changed, task_conflict, other, Action, ◌>>=◌, ◌>>◌, pure, fail,
}
use tokenlive_standalone.Upgrade.Store.{error_text, create, try_lock, release}
use tokenlive_standalone.Upgrade.Manager.{Manager, Candidate, confirm_ttl, reconciled_tasks}

pub record PrepareRequest : Type 0 where
  pub target_version : String
  pub initiator : String

pub record Preparation : Type 0 where
  pub task_id : String
  pub current_version : String
  pub target_version : String
  pub release_url : String
  pub confirm_expires_in : ℕ
  pub credential : String
  pub restart_warning : Bool

-- The body runs under the lock, and the lock is released whatever the body returns.
abbrev pub under_lock : {A : Type 0} → Outcome Bool → Action A → Action A
under_lock (err e) body w = (err e, w)
under_lock (ok false) body w = (err task_conflict, w)
under_lock (ok true) body w = let (r, w') = body w in (r, release w')

unfoldable pub with_lock : {A : Type 0} → Action A → Action A
unfolding try_lock release
with_lock body w = let (r, w') = try_lock w in under_lock r body w'

unfoldable pub release_url : Manager → String → String
unfolding trim_v
release_url m version =
    text_append "https://github.com/tokenlive/tokenlive-standalone/releases/tag/v"
      (m.path_escape (trim_v version))

unfoldable pub new_task : Manager → PrepareRequest → Candidate → String → Task
new_task m req c credential = record (blank_task m.fresh_id awaiting_confirmation) {
  install_id = m.install_id;
  current_version = m.current_version;
  target_version = c.stable;
  release_url = release_url m c.stable;
  initiator = req.initiator;
  formula_sha256 = m.host.sha256_hex c.body;
  credential_digest = m.host.sha256_hex credential;
  credential_expiry = m.now + confirm_ttl;
  port = m.port;
  service_label = m.service_label;
  domain = m.domain;
  created_at = m.now;
  updated_at = m.now;
  target_keg_version = if not (c.raw == c.stable) then c.raw else c.stable;
}

abbrev pub preparation : Task → String → Preparation
preparation t credential = record {
  task_id = t.task_id;
  current_version = t.current_version;
  target_version = t.target_version;
  release_url = t.release_url;
  confirm_expires_in = confirm_ttl / second;
  credential = credential;
  restart_warning = true;
}

abbrev pub prepare_secret :
    Manager → PrepareRequest → Candidate → Outcome String → Action Preparation
prepare_secret m req c (err e) = fail e
prepare_secret m req c (ok credential) = do
  create m.now (new_task m req c credential) c.body
  pure (preparation (new_task m req c credential) credential)

abbrev pub prepare_candidate : Manager → PrepareRequest → Outcome Candidate → Action Preparation
prepare_candidate m req (err e) w =
    (err (other (bytes "candidate unavailable: " ++ error_text e)), w)
prepare_candidate m req (ok c) w =
    if not (c.stable == req.target_version)
    then (err target_changed, w)
    else prepare_secret m req c m.secret w

abbrev pub prepare_when_idle : Manager → PrepareRequest → Option Task → Action Preparation
prepare_when_idle m req (some t) = fail task_conflict
prepare_when_idle m req none = prepare_candidate m req m.fetch

unfoldable pub prepare_locked : Manager → PrepareRequest → Action Preparation
prepare_locked m req = do
  tasks ← reconciled_tasks m
  prepare_when_idle m req (active_task m.host m.now tasks)

unfoldable pub prepare : Manager → PrepareRequest → Action Preparation
prepare m req w =
    if req.target_version == "" then (err target_changed, w) else with_lock (prepare_locked m req) w
