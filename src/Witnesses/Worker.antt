-- ===== src/Witnesses/Worker.antt =====
-- A run of the accepted task's job that ends with the target proven.
use tokenlive_standalone.Prelude.{
  ◌≡◌, refl, true, base, dir, join, same_bytes, all_digits, value_from,
}
use tokenlive_standalone.Upgrade.Worker.{
  run, write_ready, run_install, stage_snapshot, run_restart, run_verify,
}
use tokenlive_standalone.Upgrade.Health.{check_report, normalize_version, keg_root}
use tokenlive_standalone.Upgrade.Store.{try_lock, load, save, release}
use tokenlive_standalone.Upgrade.Disk.{write_file_atomic, write, lookup_dir, set_dir}
use tokenlive_standalone.Upgrade.Verify.{verify, rounds, clock, poll_once}
use tokenlive_standalone.Upgrade.Launchd.{list_pid}
use tokenlive_standalone.Upgrade.Host.{is_queued}
use tokenlive_standalone.Upgrade.Worker.Restarted.{IsProven}
use tokenlive_standalone.Upgrade.Worker.Proven.{run-IsProven}
use tokenlive_standalone.Witnesses.Data.{a_worker, accepted_task, accepted_store}
use tokenlive_standalone.Upgrade.Worker.Plan.{CarriesOut, plan, run-CarriesOut-plan}

run-IsProven_example : (is_queued accepted_task.state ≡ true) × IsProven a_worker accepted_task
unfolding run try_lock load save write_file_atomic write lookup_dir set_dir release verify rounds
    list_pid base dir join write_ready run_install stage_snapshot run_restart same_bytes all_digits
    value_from run_verify clock poll_once check_report normalize_version keg_root
run-IsProven_example = run-IsProven a_worker "t1" accepted_task accepted_store refl refl refl

run-CarriesOut-plan_example :
    CarriesOut "t1" accepted_store
      (run a_worker "t1" accepted_store)
      (plan a_worker.site accepted_task)
unfolding lookup_dir
run-CarriesOut-plan_example = run-CarriesOut-plan a_worker "t1" accepted_task accepted_store refl

-- This run issues the whole list.
all_issued : (run a_worker "t1" accepted_store).1.issued ≡ plan a_worker.site accepted_task
unfolding run try_lock load save write_file_atomic write lookup_dir set_dir release verify rounds
    list_pid base dir join write_ready run_install stage_snapshot run_restart same_bytes all_digits
    value_from run_verify clock poll_once check_report normalize_version keg_root
all_issued = refl
