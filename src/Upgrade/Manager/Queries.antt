-- ===== src/Upgrade/Manager/Queries.antt =====
-- internal/upgrade/manager.go, the operations that only read beside their reconciliation.
use tokenlive_standalone.Prelude.{
  ℕ, ◌/◌, String, Bool, true, false, Option, none, some, List, [], ◌∷◌, map, ◌==◌, if◌then◌else◌,
}
use tokenlive_standalone.Upgrade.Host.{TaskState, is_needs_attention}
use tokenlive_standalone.Upgrade.Task.{Task, TaskView, view, second}
use tokenlive_standalone.Upgrade.Active.{active_task}
use tokenlive_standalone.Upgrade.Disk.{
  Error, invalid_credential, unsupported, Action, ◌>>=◌, pure, fail,
}
use tokenlive_standalone.Upgrade.Manager.{Manager, reconciled_tasks}

pub data Reason : Type 0 where
  task_pending task_active : Reason

pub record Capability : Type 0 where
  pub supported : Bool
  pub allowed : Bool
  pub reasons : List Reason
  pub active_task : Option TaskView

abbrev pub capability_of : Option Task → Capability
capability_of none = record { supported = true; allowed = true; reasons = []; active_task = none }
capability_of (some t) = record {
  supported = true;
  allowed = false;
  reasons = (if is_needs_attention t.state then task_pending else task_active) ∷ [];
  active_task = some (view t);
}

unfoldable pub capability : Manager → Action Capability
capability m = do tasks ← reconciled_tasks m; pure (capability_of (active_task m.host m.now tasks))

unfoldable pub last_of : List Task → Option Task
last_of [] = none
last_of (t ∷ []) = some t
last_of (t ∷ (u ∷ ts)) = last_of (u ∷ ts)

unfoldable pub task_named : String → List Task → Option Task
task_named id [] = none
task_named id (t ∷ ts) = if t.task_id == id then some t else task_named id ts

abbrev pub shown : Error → Option Task → Action TaskView
shown e none = fail e
shown e (some t) = pure (view t)

unfoldable pub task : Manager → String → Action TaskView
task m id = do
  tasks ← reconciled_tasks m
  if id == ""
      then shown unsupported (last_of tasks)
      else shown invalid_credential (task_named id tasks)

pub record TaskSummary : Type 0 where
  pub task_id : String
  pub state : TaskState
  pub current_version : String
  pub target_version : String
  pub failure_stage : String
  pub error_kind : String
  pub detail : List ℕ
  pub updated_at : ℕ

abbrev pub summary : Task → TaskSummary
summary t = record {
  task_id = t.task_id;
  state = t.state;
  current_version = t.current_version;
  target_version = t.target_version;
  failure_stage = t.failure_stage;
  error_kind = t.error_kind;
  detail = t.detail;
  updated_at = t.updated_at / second;
}

unfoldable pub snapshot : Manager → Action (List TaskSummary)
snapshot m = do tasks ← reconciled_tasks m; pure (map summary tasks)
