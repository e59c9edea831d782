-- ===== src/Witnesses/Service.antt =====
-- An answer of the restarted service that proves its target, and the polling for it.
use tokenlive_standalone.Prelude.{◌≡◌, ◌↔◌, ◌<◌, ◌≤◌, ℕ, [], String, Option, none, some}
use tokenlive_standalone.Upgrade.Verify.{Verdict, proven, verify_loop, rounds, verify}
use tokenlive_standalone.Upgrade.Verify.Ends.{verify_loop_ends}
use tokenlive_standalone.Upgrade.Verify.Proof.{Runs, Seen, verify_lem}
use tokenlive_standalone.Witnesses.Data.{a_watch, accepted_task}
use tokenlive_standalone.Upgrade.Health.{Report, reported, Expected, Proves, check, check_lem}

abbrev a_report : Report
a_report = record {
  status = "ok";
  version = "v1.1.0";
  install_channel = "homebrew";
  executable = "/opt/homebrew/bin/tokenlive";
}

abbrev an_upgrade : Expected
an_upgrade = record {
  port = 8080;
  target_version = "1.1.0";
  keg_version = "1.1.0";
  prefix = "/opt/homebrew";
  channel = "homebrew";
  service_pid = 78;
  previous_pid = 77;
}

abbrev linked : String → Option String
linked _ = some "/opt/homebrew/Cellar/tokenlive/1.1.0/bin/tokenlive"

check_lem_example : (check linked an_upgrade (reported a_report) ≡ none) ↔ (
    (r : Report) × (reported a_report ≡ reported r)
    × (0 < an_upgrade.port)
    × Proves linked an_upgrade r)
check_lem_example = check_lem linked an_upgrade (reported a_report)

verify_loop_ends_example :
    (d : Verdict) × (verify_loop a_watch accepted_task (rounds a_watch) 0 [] ≡ some d)
    × (verify a_watch accepted_task ≡ d)
verify_loop_ends_example = verify_loop_ends a_watch accepted_task

verify_lem_example :
    (verify a_watch accepted_task ≡ proven)
    ↔ ((i : ℕ) × ((j : ℕ) → j ≤ i → Runs a_watch accepted_task j) × Seen a_watch accepted_task i)
verify_lem_example = verify_lem a_watch accepted_task
