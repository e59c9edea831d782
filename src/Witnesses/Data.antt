-- ===== src/Witnesses/Data.antt =====
-- A host, a manager, a worker and two stores to run internal/upgrade on: an empty store, and one
-- whose only task is accepted.
use tokenlive_standalone.Prelude.{
  ℕ, bytes, ◌*◌, ◌≡◌, refl, sym, ◌∙◌, subst, inl, inr, Bool-cases, String, Bool, true, false, none,
  some, [], ◌∷◌, ◌==◌, eqb, arith, eq_iff, if◌then◌else◌, text_append,
}
use tokenlive_standalone.Upgrade.Host.{
  TaskState, Host, Classifies, awaiting_confirmation, queued, downloading, installing, restarting,
  verifying,
}
use tokenlive_standalone.Upgrade.Task.{Task, blank_task, second}
use tokenlive_standalone.Upgrade.Command.{printed}
use tokenlive_standalone.Upgrade.Disk.{ok, empty_dir, absent, holds, World, no_index, lookup_dir}
use tokenlive_standalone.Upgrade.Store.Records.{file_at}
use tokenlive_standalone.Upgrade.Safety.{Belongs, file_blocks}
use tokenlive_standalone.Upgrade.Safety.Prepare.{Safe}
use tokenlive_standalone.Upgrade.Manager.{Manager}
use tokenlive_standalone.Upgrade.Manager.Prepare.{PrepareRequest}
use tokenlive_standalone.Upgrade.Manager.Submit.{SubmitRequest}
use tokenlive_standalone.Upgrade.Health.{unreachable, reported}
use tokenlive_standalone.Upgrade.Verify.{Poll, Watch}
use tokenlive_standalone.Upgrade.Worker.{Worker}

abbrev terminal_states : TaskState → Bool
terminal_states awaiting_confirmation = false
terminal_states queued = false
terminal_states downloading = false
terminal_states installing = false
terminal_states restarting = false
terminal_states verifying = false
terminal_states _ = true

-- Its digest is a stand-in that differs from its text.
abbrev pub a_host : Host
a_host = record { terminal = terminal_states; sha256_hex = λ s. text_append "digest of " s }

pub a_host-Classifies : Classifies a_host
a_host-Classifies = record {
  awaiting_open = refl;
  queued_open = refl;
  downloading_open = refl;
  installing_open = refl;
  restarting_open = refl;
  verifying_open = refl;
  expired_closed = refl;
  failed_closed = refl;
  succeeded_closed = refl;
}

abbrev pub a_manager : Manager
a_manager = record {
  host = a_host;
  now = 5000 * second;
  install_id = "install";
  current_version = "1.0.0";
  port = 8080;
  service_label = "homebrew.mxcl.tokenlive";
  domain = "gui/501";
  executable = ok tt;
  fetch = ok (record { body = "formula"; stable = "1.1.0"; raw = "1.1.0" });
  secret = ok "secret";
  fresh_id = "t1";
  path_escape = λ s. s;
  pid_alive = λ pid. false;
  bootstrap = printed [];
  bootout = λ label. printed [];
  plist_fault = none;
}

abbrev pub a_request : PrepareRequest
a_request = record { target_version = "1.1.0"; initiator = "admin" }

abbrev pub a_confirmation : SubmitRequest
a_confirmation = record {
  task_id = "t1";
  credential = "secret";
  confirm = true;
  initiator = "admin";
}

abbrev pub empty_store : World
empty_store = record {
  dirs = [];
  index = no_index;
  root_abs = true;
  root_fault = none;
  lock_fault = none;
  locked = false;
  faults = λ n. none;
  issued = [];
  step = 0;
}

abbrev pub accepted_task : Task
accepted_task = record (blank_task "t1" queued) {
  target_version = "1.1.0";
  target_keg_version = "1.1.0";
  port = 8080;
  formula_sha256 = "digest of formula";
  created_at = 4999 * second;
  updated_at = 4999 * second;
}

abbrev pub accepted_store : World
accepted_store = record empty_store {
  dirs =
      ("t1", record empty_dir { task_file = holds accepted_task; snapshot = some "formula" }) ∷ [];
}

-- The service answers in the second round.
abbrev pub a_poll : ℕ → Poll
a_poll i = record {
  cancelled = false;
  delay = 0;
  listed = printed (bytes "78\t0\thomebrew.mxcl.tokenlive\n");
  reply =
      if eqb i 0
      then unreachable
      else reported (record {
        status = "ok";
        version = "v1.1.0";
        install_channel = "homebrew";
        executable = "/opt/homebrew/bin/tokenlive";
      });
}

abbrev pub a_watch : Watch
a_watch = record {
  prefix = "/opt/homebrew";
  poll_every = 0;
  started = 5000 * second;
  polls = a_poll;
  resolve = λ _. some "/opt/homebrew/Cellar/tokenlive/1.1.0/bin/tokenlive";
}

abbrev pub a_worker : Worker
a_worker = record {
  host = a_host;
  now = 5000 * second;
  pid = 4242;
  site = record { prefix = "/opt/homebrew"; home = "/Users/admin" };
  tap_write = none;
  tap_read = some "formula";
  brew_upgrade = none;
  brew_stop = none;
  brew_start = none;
  listed = printed (bytes "77\t0\thomebrew.mxcl.tokenlive\n");
  watch = a_watch;
}

pub file_at-accepted_store :
    (id : String) → file_at id accepted_store ≡ (if "t1" == id then holds accepted_task else absent)
unfolding lookup_dir
file_at-accepted_store id = ground arith

held :
    (id : String) (t : Task)
    → file_at id accepted_store ≡ holds t
    → ("t1" ≡ id) × (accepted_task ≡ t)
held id t e = elim (Bool-cases ("t1" == id)) [
  | inl y ↦ ground (arith, y, e, file_at-accepted_store id, eq_iff "t1" id)
  | inr y ↦ absurd (ground (arith, y, e, file_at-accepted_store id))
]

blocking_id :
    (id : String)
    → file_blocks a_host (5000 * second) (file_at id accepted_store) ≡ true
    → "t1" ≡ id
blocking_id id b = elim (Bool-cases ("t1" == id)) [
  | inl y ↦ ground (arith, y, eq_iff "t1" id)
  | inr y ↦ absurd (
      ground (
        arith,
        y,
        subst (λ f. file_blocks a_host (5000 * second) f ≡ true) (file_at-accepted_store id) b,
      ))
]

belongs : Belongs "t1" accepted_task
belongs = record {
  named = refl;
  no_parent = ground (arith, eq_iff "t1" "..");
  signalled = λ e. absurd (cc e);
}

pub Safe-accepted_store : Safe a_host (5000 * second) accepted_store
Safe-accepted_store = record {
  shape = record {
    files = λ id t p.
        let (q, r) = held id t p in
        subst (λ x. Belongs id x) r (subst (λ x. Belongs x accepted_task) q belongs);
    retired = tt;
  };
  one = λ i j bi bj. sym (blocking_id i bi) ∙ blocking_id j bj;
}
