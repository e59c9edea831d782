-- ===== src/Witnesses/Cli.antt =====
-- Logs of a small installation, and a file that is followed.
use tokenlive_standalone.Prelude.{
  join, without_suffix, trim_space, same_bytes, all_digits, value_from, ℕ, ◌<◌, ◌≤◌, ◌^◌, true,
  false, String, List, ◌∷◌, [], Option, some, none, ◌≡◌, base, dir, ◌≢◌, refl, subst, bytes, Bytes,
  length, split, arith,
}
use tokenlive_standalone.Cli.Tail.{pos, lines_read, small_size, read_last_n_lines}
use tokenlive_standalone.Cli.Tail.Suffix.{lines_of, EndsIn}
use tokenlive_standalone.Cli.Tail.Laws.{read_last_n_lines_lem}
use tokenlive_standalone.Cli.Errors.{LogFileInfo}
use tokenlive_standalone.Cli.Discover.{Info, FileInfo, Machine}
use tokenlive_standalone.Cli.Follow.{Options, Tick, FileState, state_at, pieces, tick, follow_loop}
use tokenlive_standalone.Cli.Follow.Followed.{IsFollowed, tick-IsFollowed}
use tokenlive_standalone.Cli.Follow.Verbatim.{follow_loop-verbatim}
use tokenlive_standalone.Cli.Follow.Appended.{appends, grown, ends_line}
use tokenlive_standalone.Cli.Logs.{LogsFlags, Terminal, crashed, run_logs}
use tokenlive_standalone.Upgrade.Identity
use tokenlive_standalone.Upgrade.Identity.{
  probe, service_plist, manages, matches, require, given, ◌>>=◌, ◌>>◌,
}
use tokenlive_standalone.Upgrade.Plist.{plist_program, scan, start_element, end_element}
use tokenlive_standalone.Upgrade.Worker.{
  run, write_ready, run_install, stage_snapshot, run_restart, run_verify,
}
use tokenlive_standalone.Upgrade.Health.{check_report, normalize_version, keg_root}
use tokenlive_standalone.Upgrade.Store.{try_lock, load, save, release}
use tokenlive_standalone.Upgrade.Disk.{write_file_atomic, write, lookup_dir, set_dir}
use tokenlive_standalone.Upgrade.Verify.{verify, rounds, clock, poll_once}
use tokenlive_standalone.Upgrade.Launchd.{list_pid, print_exists}
use tokenlive_standalone.Witnesses.Identity.{installed_machine}
use tokenlive_standalone.Cli.Upgrade.{Command, run_upgrade_worker, upgrade_paths, run_worker_task}
use tokenlive_standalone.Cli.Upgrade.Verified.{run_upgrade_worker_refused}
use tokenlive_standalone.Witnesses.Data.{a_watch, a_manager, a_worker, accepted_store}
use tokenlive_standalone.Cli.Logs.Safe.{run_logs-safe}

abbrev three_lines : Bytes
three_lines = bytes "started\r\nlevel=error\nstopped\n"

read_last_n_lines_lem_example :
    (found : List Bytes) × (read_last_n_lines (some three_lines) (pos 2) ≡ lines_read found)
    × EndsIn (lines_of three_lines) found
    × (length found ≤ 2)
    × (length three_lines < small_size → length found < 2 → found ≡ lines_of three_lines)
unfolding split
read_last_n_lines_lem_example =
    read_last_n_lines_lem three_lines 2
      (omega arith, (omega arith, (omega arith, (omega arith, tt))))

abbrev a_log : LogFileInfo
a_log = record {
  tag = "app-log";
  path = "/data/logs/tokenlive.log";
  size = 28;
  mod_time = 0;
  exists = true;
}

abbrev a_disk : String → Option Bytes
a_disk _ = some three_lines

abbrev no_quotient : ℕ → ℕ → Bytes
no_quotient b div = bytes "1.0"

abbrev an_info : Info
an_info = record {
  version = "1.0.0";
  build_kind = "release";
  default_config_path = "/brew/etc/tokenlive/config.yml";
  default_data_dir = "/brew/var/tokenlive/data";
  default_admin_work_dir = "";
  default_admin_static = "";
}

abbrev a_file : FileInfo
a_file = record { file_size = 28; modified = 0; is_dir = false }

abbrev a_machine : Machine
a_machine = record {
  stat = λ _. some a_file;
  homebrew_prefix = "";
  brew_prefix = none;
  loads = λ _. true;
  log_file_name = λ _. "logs/tokenlive.log";
  is_abs = λ _. false;
}

abbrev all_lines : Options
all_lines = record { show_err_only = false; use_color = false }

-- The file was replaced by another one.
abbrev renamed : Tick
renamed = record (grown 7 three_lines) { opened = some 7; reopened = some 7 }

abbrev other_file : FileState
other_file = state_at a_log 6 (some (6, 9))

tick-IsFollowed_example :
    IsFollowed all_lines false renamed 7 other_file 0 (tick all_lines false renamed other_file)
tick-IsFollowed_example =
    tick-IsFollowed all_lines false renamed 7 other_file
      (record { named = refl; opens = refl; reopens = refl; examines = refl }) (refl, refl)

abbrev two_writes : List Bytes
two_writes = bytes "one\ntwo\n" ∷ (bytes "three\n" ∷ [])

follow_loop-verbatim_example :
    follow_loop all_lines false
      (appends 7 (bytes "started\n") two_writes)
      (state_at a_log 7 (some (7, 8)) ∷ [])
    ≡ bytes "one\ntwo\nthree\n\nLog tailing stopped.\n"
unfolding ends_line pieces
follow_loop-verbatim_example =
    follow_loop-verbatim false a_log 7 (bytes "started\n") two_writes (refl, (refl, tt))
      (
        (refl, (refl, (refl, (refl, (refl, (refl, (refl, (refl, tt)))))))),
        ((refl, (refl, (refl, (refl, (refl, (refl, tt)))))), tt),
      )

abbrev a_terminal : Terminal
a_terminal = record {
  machine = a_machine;
  file_bytes = a_disk;
  is_terminal = false;
  start = λ _. record {
    first_open = some 7;
    first_stat = some (7, 28);
    first_content = some three_lines;
  };
  ticks = [];
  quotient = no_quotient;
  time_text = λ _. bytes "12:00:00";
}

abbrev some_flags : LogsFlags
some_flags = record {
  follow = true;
  lines = pos 50;
  show_err_only = true;
  app_only = false;
  service_only = false;
  check_mode = false;
  list_mode = false;
  conf_path = "";
  data_dir = "";
}

run_logs-safe_example : run_logs a_terminal an_info some_flags ≢ crashed
run_logs-safe_example =
    run_logs-safe a_terminal an_info some_flags 50
      (λ path st e.
        subst (λ x. elim x [ none ↦ 28 | some y ↦ y.file_size ] < 2 ^ 63) e (omega arith))
      refl refl

-- The job of a task runs a copy of the binary that stands in the task's directory.
abbrev job_machine : Identity.Machine
job_machine = record {
  is_darwin = true;
  executable = "/brew/var/upgrades/home/t1/executor";
  eval_symlinks = λ path. some path;
  read_file = λ _. some "homebrew";
  is_directory = λ _. some false;
  read_dir = λ _. some [];
  user_home = some "/Users/admin";
  pid = 4242;
  decode_xml = λ _. [];
  domain_of = λ _. "gui/501";
}

abbrev job_command : Command
job_command = record {
  machine = job_machine;
  uid = 501;
  euid = 501;
  install_id_for = λ _. "home";
  manager = λ _. a_manager;
  worker = λ _. a_worker;
  store = λ _. accepted_store;
  encodes = true;
}

run_upgrade_worker_refused_example : run_upgrade_worker job_command an_info (some "t1") ≡ (2, none)
unfolding base dir
run_upgrade_worker_refused_example =
    run_upgrade_worker_refused job_command an_info "t1" "/brew/var/upgrades/home/t1/executor" refl
      refl

-- The same command with the installed binary, which `Probe` verifies.
abbrev installed_command : Command
installed_command = record job_command {
  machine = installed_machine;
  worker = λ _. record a_worker {
    watch = record a_watch { resolve = λ _. some "/brew/Cellar/tokenlive/1.1.0/bin/tokenlive" };
  };
}

-- It exits with 0.
exits_with_0 : (run_upgrade_worker installed_command an_info (some "t1")).0 ≡ 0
unfolding run_upgrade_worker upgrade_paths run_worker_task probe service_plist manages matches join
    base dir without_suffix plist_program scan trim_space require given ◌>>=◌ ◌>>◌ list_pid
    print_exists start_element end_element same_bytes all_digits value_from run try_lock load save
    write_file_atomic write lookup_dir set_dir release verify rounds write_ready run_install
    stage_snapshot run_restart run_verify clock poll_once check_report normalize_version keg_root
exits_with_0 = refl
