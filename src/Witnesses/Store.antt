-- ===== src/Witnesses/Store.antt =====
-- The cleanup of a finished task.
use tokenlive_standalone.Prelude.{
  ◌≡◌, refl, true, ◌==◌, if◌then◌else◌, some, [], ◌∷◌, List, base, arith, eq_iff,
}
use tokenlive_standalone.Upgrade.Host.{succeeded}
use tokenlive_standalone.Upgrade.Task.{Task, TaskView, blank_task, view}
use tokenlive_standalone.Upgrade.Disk.{
  ok, absent, empty_dir, holds, World, records, lookup_dir, write, remove_all,
}
use tokenlive_standalone.Upgrade.Store.{
  cleanup, load, read_index, append_index, index_with, is_unsafe,
}
use tokenlive_standalone.Upgrade.Store.Records.{file_at}
use tokenlive_standalone.Upgrade.Store.Retired.{cleanup_lem}
use tokenlive_standalone.Witnesses.Data.{empty_store}

abbrev finished_task : Task
finished_task = record (blank_task "t1" succeeded) {
  target_version = "1.1.0";
  cleanup_pending = true;
}

abbrev finished_store : World
finished_store = record empty_store {
  dirs = ("t1", record empty_dir { task_file = holds finished_task }) ∷ [];
}

loaded_finished : load "t1" finished_store ≡ ok (some finished_task)
unfolding load lookup_dir base
loaded_finished = refl

cleaned_finished : (cleanup "t1" finished_store).0 ≡ ok tt
unfolding cleanup is_unsafe load lookup_dir base read_index append_index write remove_all
cleaned_finished = refl

cleanup_lem_example :
    (file_at "t1" (cleanup "t1" finished_store).1
      ≡ (if "t1" == "t1" then absent else file_at "t1" finished_store))
    × ((vs : List TaskView) × (read_index finished_store ≡ ok vs)
        × ((cleanup "t1" finished_store).1.index ≡ records (index_with (view finished_task) vs)))
cleanup_lem_example =
    cleanup_lem "t1" "t1" finished_task finished_store (ground (arith, eq_iff "t1" ".."))
      loaded_finished cleaned_finished
