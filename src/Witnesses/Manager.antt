-- ===== src/Witnesses/Manager.antt =====
-- Runs of `Prepare` and `Submit` that report no error.
use tokenlive_standalone.Prelude.{◌≡◌, refl, true, some, [], ◌∷◌, sort_slice, base, trim_v}
use tokenlive_standalone.Upgrade.Task.{Task, view}
use tokenlive_standalone.Upgrade.Active.{active_task, active_from, sort_tasks}
use tokenlive_standalone.Upgrade.Disk.{
  ok, empty_dir, holds, World, lookup_dir, set_dir, write, write_file_atomic, mkdir_all,
}
use tokenlive_standalone.Upgrade.Store.{
  save, create, load, list_tasks, dedupe_tasks, dedupe_onto, entry_tasks, read_index, try_lock,
}
use tokenlive_standalone.Upgrade.Manager.{reconcile, reconciled_tasks}
use tokenlive_standalone.Upgrade.Manager.Prepare.{
  Preparation, new_task, prepare, prepare_locked, release_url, with_lock,
}
use tokenlive_standalone.Upgrade.Manager.Prepared.{IsPrepared, prepare-IsPrepared}
use tokenlive_standalone.Upgrade.Manager.Submit.{submit, submit_task}
use tokenlive_standalone.Upgrade.Manager.Submitted.{IsAuthorized, submit-IsAuthorized}
use tokenlive_standalone.Witnesses.Data.{
  a_manager, a_request, a_confirmation, empty_store, accepted_task,
}

abbrev a_preparation : Preparation
a_preparation = record {
  task_id = "t1";
  current_version = "1.0.0";
  target_version = "1.1.0";
  release_url = "https://github.com/tokenlive/tokenlive-standalone/releases/tag/v1.1.0";
  confirm_expires_in = 300;
  credential = "secret";
  restart_warning = true;
}

prepared : (prepare a_manager a_request empty_store).0 ≡ ok a_preparation
unfolding prepare prepare_locked with_lock try_lock reconciled_tasks list_tasks reconcile
    entry_tasks read_index dedupe_tasks dedupe_onto sort_tasks sort_slice active_task active_from
    create save mkdir_all write_file_atomic write lookup_dir set_dir new_task release_url trim_v
prepared = refl

prepare-IsPrepared_example :
    IsPrepared a_manager a_request a_preparation (prepare a_manager a_request empty_store).1
prepare-IsPrepared_example =
    prepare-IsPrepared a_manager a_request a_preparation empty_store prepared

abbrev consumed_task : Task
consumed_task = record accepted_task { initiator = "admin"; accepted_digest = "digest of secret" }

abbrev consumed_store : World
consumed_store = record empty_store {
  dirs = ("t1", record empty_dir { task_file = holds consumed_task }) ∷ [];
}

submitted_again : (submit a_manager a_confirmation consumed_store).0 ≡ ok (view consumed_task)
unfolding submit submit_task with_lock try_lock load lookup_dir base
submitted_again = refl

submit-IsAuthorized_example :
    (a_confirmation.confirm ≡ true)
    × ((try_lock consumed_store).0 ≡ ok true)
    × ((t : Task) × (load "t1" consumed_store ≡ ok (some t))
        × IsAuthorized a_manager a_confirmation t)
submit-IsAuthorized_example =
    submit-IsAuthorized a_manager a_confirmation (view consumed_task) consumed_store submitted_again
