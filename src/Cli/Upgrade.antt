-- ===== src/Cli/Upgrade.antt =====
-- internal/cli/upgrade.go: the subcommands `upgrade-status` and `upgrade-worker`, and `RunWorkerTask`
-- of internal/upgrade/worker.go, from their parsed flags.
use tokenlive_standalone.Prelude.{
  ℕ, Bool, true, false, String, List, [], ◌∷◌, Option, none, some, ◌==◌, dir, join, if◌then◌else◌,
}
use tokenlive_standalone.Upgrade.Disk.{Outcome, ok, err, World}
use tokenlive_standalone.Upgrade.Identity.{
  Machine, Prober, Installation, Checked, passed, refused, probe,
}
use tokenlive_standalone.Upgrade.Task.{Task}
use tokenlive_standalone.Upgrade.Manager.{Manager, reconciled_tasks}
use tokenlive_standalone.Upgrade.Manager.Queries.{TaskSummary, snapshot}
use tokenlive_standalone.Upgrade.Worker.{Worker, run}
use tokenlive_standalone.Cli.Discover.{Info}
pub mod Verified

-- What a subcommand is given by the system: the machine, the user, what answers the manager or the
-- worker of an installation, the identifier of an installation, and the stores by their roots.
pub record Command : Type 0 where
  pub machine : Machine
  pub uid : ℕ
  pub euid : ℕ
  pub install_id_for : Installation → String
  pub manager : Installation → Manager
  pub worker : Installation → Worker
  pub store : String → World
  pub encodes : Bool  -- whether the JSON encoder reports no error

abbrev pub or_empty : Option String → String
or_empty none = ""
or_empty (some s) = s

-- `NewCLIProber`, with the two fields that `upgradePaths` sets.
abbrev pub cli_prober : Command → Prober
cli_prober c = record {
  executable = c.machine.executable;
  user_home = or_empty c.machine.user_home;
  uid = c.uid;
  euid = c.euid;
  list_pid = none;
  domain_printed = none;
}

abbrev pub upgrades_root : Command → Info → Installation → String
upgrades_root c info i =
    let data_dir = if info.default_data_dir == "" then "data" else info.default_data_dir in
    join (join (dir data_dir) "upgrades") (c.install_id_for i)

-- `upgradePaths`: the root is the one of the installation that is found.
unfoldable pub upgrade_paths : Command → Checked Installation
unfolding probe
upgrade_paths c = probe c.machine (cli_prober c) 0

-- The exit code, and, where a store was touched, its root and what it is then.
abbrev pub Exit : Type 0
Exit = ℕ × Option (String × World)

abbrev pub error_code : Outcome (Unit {0}) → ℕ
error_code (ok u) = 0
error_code (err e) = 1

-- The worker that `RunWorkerTask` makes: its prefix and home are the installation's.
abbrev pub worker_for : Command → Installation → Worker
worker_for c i =
    let k = c.worker i in
    record k {
      site = record { prefix = i.prefix; home = i.home };
      watch = record k.watch { prefix = i.prefix };
    }

-- `RunWorkerTask`.
unfoldable pub run_worker_task : Command → Info → Installation → String → Exit
unfolding run join dir
run_worker_task c info i id =
    let root = upgrades_root c info i in
    let (r, w) = run (worker_for c i) id (c.store root) in (error_code r, some (root, w))

abbrev pub worker_on : Command → Info → String → Checked Installation → Exit
worker_on c info id (refused reason) = (2, none)
worker_on c info id (passed i) = run_worker_task c info i id

-- `RunUpgradeWorker`; `none` is an error of the flags.
unfoldable pub run_upgrade_worker : Command → Info → Option String → Exit
unfolding upgrade_paths run_worker_task
run_upgrade_worker c info none = (2, none)
run_upgrade_worker c info (some id) =
    if id == "" then (2, none) else worker_on c info id (upgrade_paths c)

-- What `upgrade-status` prints.
pub data StatusOut : Type 0 where
  unsupported : String → StatusOut
  supported : Installation → List TaskSummary → StatusOut
  reconcile_failed read_failed : StatusOut

-- `printStatus`: its code.
abbrev pub print_status : Command → Bool → ℕ
print_status c as_json = if as_json then (if c.encodes then 0 else 1) else 0

abbrev pub status_read :
    Command → Bool → Installation → Outcome (List TaskSummary) × World → ℕ × StatusOut × World
status_read c as_json i (ok tasks, w) = (print_status c as_json, supported i tasks, w)
status_read c as_json i (err e, w) = (1, read_failed, w)

abbrev pub status_reconciled :
    Command → Bool → Installation → Outcome (List Task) × World → ℕ × StatusOut × World
status_reconciled c as_json i (ok tasks, w) = status_read c as_json i (snapshot (c.manager i) w)
status_reconciled c as_json i (err e, w) = (1, reconcile_failed, w)

abbrev pub status_on :
    Command → Info → Bool → Checked Installation → ℕ × StatusOut × Option (String × World)
status_on c info as_json (refused reason) = (print_status c as_json, unsupported reason, none)
status_on c info as_json (passed i) =
    let root = upgrades_root c info i in
    let (code, out, w) =
      status_reconciled c as_json i (reconciled_tasks (c.manager i) (c.store root)) in
    (code, out, some (root, w))

-- `RunUpgradeStatus`, where the flags are in order.
unfoldable pub run_upgrade_status : Command → Info → Bool → ℕ × StatusOut × Option (String × World)
unfolding upgrade_paths reconciled_tasks snapshot join dir
run_upgrade_status c info as_json = status_on c info as_json (upgrade_paths c)
