-- ===== src/Upgrade/Task.antt =====
-- internal/upgrade/state.go, the task record and its two projections. Times are nanoseconds since
-- the zero time of the language; a summary's times are whole seconds, as RFC 3339 writes them.
use tokenlive_standalone.Prelude.{
  ℕ, ◌*◌, ◌/◌, String, Bool, true, false, Option, none, some, List, [], eqb, if◌then◌else◌,
}
use tokenlive_standalone.Upgrade.Host.{TaskState}

pub record Task : Type 0 where
  pub task_id : String
  pub install_id : String
  pub state : TaskState
  pub current_version : String
  pub target_version : String
  pub release_url : String
  pub initiator : String
  pub formula_sha256 : String
  pub target_keg_version : String
  pub credential_digest : String
  pub accepted_digest : String
  pub credential_expiry : ℕ
  pub port : ℕ
  pub service_label : String
  pub domain : String
  pub service_pid : ℕ
  pub phase : String
  pub failure_stage : String
  pub error_kind : String
  pub detail : List ℕ
  pub worker_pid : ℕ
  pub worker_started : ℕ
  pub launch_attempt : ℕ
  pub launch_unknown : Bool
  pub cleanup_pending : Bool
  pub cleaned : Bool
  pub created_at : ℕ
  pub updated_at : ℕ
  pub succeeded_at : ℕ

-- `&Task{}`: every field at its zero value, under an identifier and a state.
abbrev pub blank_task : String → TaskState → Task
blank_task id s = record {
  task_id = id;
  install_id = "";
  state = s;
  current_version = "";
  target_version = "";
  release_url = "";
  initiator = "";
  formula_sha256 = "";
  target_keg_version = "";
  credential_digest = "";
  accepted_digest = "";
  credential_expiry = 0;
  port = 0;
  service_label = "";
  domain = "";
  service_pid = 0;
  phase = "";
  failure_stage = "";
  error_kind = "";
  detail = [];
  worker_pid = 0;
  worker_started = 0;
  launch_attempt = 0;
  launch_unknown = false;
  cleanup_pending = false;
  cleaned = false;
  created_at = 0;
  updated_at = 0;
  succeeded_at = 0;
}

pub record TaskView : Type 0 where
  pub task_id : String
  pub state : TaskState
  pub current_version : String
  pub target_version : String
  pub release_url : String
  pub initiator : String
  pub phase : String
  pub failure_stage : String
  pub error_kind : String
  pub detail : List ℕ
  pub created_at : ℕ
  pub updated_at : ℕ
  pub succeeded_at : Option ℕ

abbrev pub second : ℕ
second = 1000000000

-- `none` is the empty text.
unfoldable pub ts_or_empty : ℕ → Option ℕ
ts_or_empty t = if eqb t 0 then none else some (t / second)

unfoldable pub view : Task → TaskView
unfolding ts_or_empty
view t = record {
  task_id = t.task_id;
  state = t.state;
  current_version = t.current_version;
  target_version = t.target_version;
  release_url = t.release_url;
  initiator = t.initiator;
  phase = t.phase;
  failure_stage = t.failure_stage;
  error_kind = t.error_kind;
  detail = t.detail;
  created_at = t.created_at / second;
  updated_at = t.updated_at / second;
  succeeded_at = ts_or_empty t.succeeded_at;
}

-- A text that does not parse leaves the zero time.
abbrev pub parse_time : Option ℕ → ℕ
parse_time none = 0
parse_time (some s) = s * second

unfoldable pub task_from_view : TaskView → Task
task_from_view v = record (blank_task v.task_id v.state) {
  current_version = v.current_version;
  target_version = v.target_version;
  release_url = v.release_url;
  initiator = v.initiator;
  phase = v.phase;
  failure_stage = v.failure_stage;
  error_kind = v.error_kind;
  detail = v.detail;
  cleaned = true;
  created_at = v.created_at * second;
  updated_at = v.updated_at * second;
  succeeded_at = parse_time v.succeeded_at;
}
