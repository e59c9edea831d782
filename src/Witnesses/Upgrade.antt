-- ===== src/Witnesses/Upgrade.antt =====
-- Runs of internal/upgrade: an upgrade prepared and confirmed on an empty store, and the store of an
-- accepted task.
use tokenlive_standalone.Prelude.{
  ℕ, ◌*◌, ◌≡◌, ◌≤◌, refl, String, true, Option, none, some, List, [], ◌∷◌, ◌==◌, eqb, ◌⊎◌, Memᴰ,
  bytes, arith, eq_iff, if◌then◌else◌, All, length, ◌<◌, sort_slice, base,
}
use tokenlive_standalone.Upgrade.Host.{succeeded, needs_attention}
use tokenlive_standalone.Upgrade.Task.{Task, TaskView, blank_task, second, view}
use tokenlive_standalone.Upgrade.Active.{active_task, blocks, sort_tasks}
use tokenlive_standalone.Upgrade.Active.Laws.{IsActive, active_task_lem}
use tokenlive_standalone.Upgrade.Disk.{
  Error, other, ok, err, Dir, empty_dir, holds, World, lookup_dir, set_dir, write,
  write_file_atomic, mkdir_all,
}
use tokenlive_standalone.Upgrade.Store.{
  stamp, save, create, load, list_tasks, dedupe_tasks, index_with, replace_view,
  max_terminal_records, cap_log_file, max_task_log_bytes, capped, try_lock, entry_tasks, read_index,
  dedupe_onto, place,
}
use tokenlive_standalone.Upgrade.Store.Records.{file_at, file_at-save, create_failed}
use tokenlive_standalone.Upgrade.Store.Listing.{Distinct}
use tokenlive_standalone.Upgrade.Store.Latest.{find_task, last_task, Ordered, dedupe_tasks_lem}
use tokenlive_standalone.Upgrade.Store.Index.{NewestFirst, index_with_lem}
use tokenlive_standalone.Upgrade.Store.Log.{log_at, cap_log_file_lem}
use tokenlive_standalone.Upgrade.Safety.{AtMostOne, Keeps, file_blocks}
use tokenlive_standalone.Upgrade.Safety.Sources.{blocking_listed}
use tokenlive_standalone.Upgrade.Safety.Prepare.{
  Safe, IsFresh, Safe-prepare, Keeps-reconciled_tasks,
}
use tokenlive_standalone.Upgrade.Safety.Submit.{Safe-submit}
use tokenlive_standalone.Upgrade.Worker.{run}
use tokenlive_standalone.Upgrade.Worker.Run.{Safe-run, run_busy_second}
use tokenlive_standalone.Upgrade.Manager.{reconciled_tasks, reconcile}
use tokenlive_standalone.Upgrade.Manager.Prepare.{prepare}
use tokenlive_standalone.Upgrade.Manager.Submit.{submit}
use tokenlive_standalone.Upgrade.Reach.{
  Reach, here, next, prepares, submits, AtMostOne-Reach, Safe-empty,
}
use tokenlive_standalone.Witnesses.Data.{
  a_host, a_host-Classifies, a_manager, a_request, a_confirmation, empty_store, accepted_task,
  accepted_store, a_worker, Safe-accepted_store,
}

IsFresh-on_empty : IsFresh a_manager (reconciled_tasks a_manager (try_lock empty_store).1).1
unfolding reconciled_tasks list_tasks reconcile try_lock entry_tasks read_index dedupe_tasks
    dedupe_onto sort_tasks sort_slice
IsFresh-on_empty = (ground (arith, eq_iff "t1" ".."), tt)

abbrev prepared_store : World
prepared_store = (prepare a_manager a_request empty_store).1

abbrev submitted_store : World
submitted_store = (submit a_manager a_confirmation prepared_store).1

Safe-empty_store : Safe a_host (5000 * second) empty_store
Safe-empty_store = Safe-empty a_host (5000 * second) empty_store refl refl

Safe-prepare_example : Safe a_host (5000 * second) prepared_store
Safe-prepare_example =
    Safe-prepare a_manager a_request empty_store a_host-Classifies Safe-empty_store IsFresh-on_empty

prepared_Safe : Safe a_host (5000 * second) prepared_store
prepared_Safe =
    Safe-prepare a_manager a_request empty_store a_host-Classifies Safe-empty_store IsFresh-on_empty

Safe-submit_example : Safe a_host (5000 * second) submitted_store
Safe-submit_example =
    Safe-submit a_manager a_confirmation prepared_store a_host-Classifies prepared_Safe

prepared_and_submitted : Reach a_host (5000 * second) empty_store (5000 * second) submitted_store
prepared_and_submitted =
    next (next here (prepares a_manager a_request refl refl IsFresh-on_empty))
      (submits a_manager a_confirmation refl refl)

AtMostOne-Reach_example : AtMostOne a_host (5000 * second) submitted_store
AtMostOne-Reach_example =
    AtMostOne-Reach a_host (5000 * second) (5000 * second) empty_store submitted_store
      a_host-Classifies refl refl prepared_and_submitted

held_accepted : file_at "t1" accepted_store ≡ holds accepted_task
unfolding lookup_dir
held_accepted = refl

Safe-run_example : Safe a_host (5000 * second) (run a_worker "t1" accepted_store).1
Safe-run_example =
    Safe-run a_worker "t1" accepted_task accepted_store a_host-Classifies Safe-accepted_store
      held_accepted refl

Keeps-reconciled_tasks_example :
    Keeps a_host (5000 * second) accepted_store (reconciled_tasks a_manager accepted_store).1
Keeps-reconciled_tasks_example =
    Keeps-reconciled_tasks a_manager a_host-Classifies accepted_store Safe-accepted_store.shape

listed_accepted : list_tasks (5000 * second) accepted_store ≡ ok (accepted_task ∷ [])
unfolding list_tasks entry_tasks read_index dedupe_tasks dedupe_onto place sort_tasks sort_slice
    load lookup_dir
listed_accepted = refl

blocking_accepted : file_blocks a_host (5000 * second) (file_at "t1" accepted_store) ≡ true
unfolding lookup_dir
blocking_accepted = refl

blocking_listed_example :
    (y : Task) × Memᴰ y (accepted_task ∷ []) × (blocks a_host (5000 * second) y ≡ true)
blocking_listed_example =
    blocking_listed a_host (5000 * second) accepted_store Safe-accepted_store.shape
      (accepted_task ∷ []) "t1" listed_accepted blocking_accepted

created_on_empty : (create (5000 * second) accepted_task "formula" empty_store).0 ≡ ok tt
unfolding create save mkdir_all write_file_atomic write lookup_dir set_dir
created_on_empty = refl

plain_name : base "t1" ≡ "t1"
unfolding base
plain_name = refl

abbrev failing : ℕ → Option Error
failing n = if eqb n 3 then some (other (bytes "no space left")) else none

-- The write of the record fails.
abbrev full_disk : World
full_disk = record empty_store { faults = failing }

create_fails :
    (create (5000 * second) accepted_task "formula" full_disk).0
    ≡ err (other (bytes "no space left"))
unfolding create save mkdir_all write_file_atomic write lookup_dir set_dir
create_fails = refl

create_failed_example :
    file_at "t1" (create (5000 * second) accepted_task "formula" full_disk).1
    ≡ file_at "t1" full_disk
create_failed_example =
    create_failed (5000 * second) accepted_task "formula" full_disk "t1"
      (other (bytes "no space left")) create_fails

saved_over : (save (5000 * second) accepted_task accepted_store).0 ≡ ok tt
unfolding save write_file_atomic write lookup_dir set_dir
saved_over = refl

file_at-save_example : file_at "t1" (save (5000 * second) accepted_task accepted_store).1 ≡ (
    if "t1" == "t1"
    then holds (stamp (5000 * second) accepted_task)
    else file_at "t1" accepted_store)
file_at-save_example = file_at-save (5000 * second) accepted_task accepted_store "t1" saved_over

abbrev unresolved_task : Task
unresolved_task = record (blank_task "t3" needs_attention) { created_at = 7 }

abbrev some_tasks : List Task
some_tasks = accepted_task ∷ unresolved_task ∷ record accepted_task { created_at = 3 } ∷ []

dedupe_tasks_lem_example :
    Ordered (dedupe_tasks some_tasks)
    × Distinct (dedupe_tasks some_tasks)
    × ((id : String) → find_task id (dedupe_tasks some_tasks) ≡ last_task id none some_tasks)
dedupe_tasks_lem_example = dedupe_tasks_lem some_tasks

index_with_lem_example :
    (length (index_with (view accepted_task) (view unresolved_task ∷ [])) ≤ max_terminal_records)
    × NewestFirst (index_with (view accepted_task) (view unresolved_task ∷ []))
    × ((u : TaskView)
        → Memᴰ u (replace_view (view accepted_task) (view unresolved_task ∷ []))
        → Memᴰ u (index_with (view accepted_task) (view unresolved_task ∷ []))
          ⊎ ((length (index_with (view accepted_task) (view unresolved_task ∷ []))
                ≡ max_terminal_records)
              × All
                  (λ x. u.updated_at ≤ x.updated_at)
                  (index_with (view accepted_task) (view unresolved_task ∷ []))))
index_with_lem_example = index_with_lem (view accepted_task) (view unresolved_task ∷ [])

active_task_lem_example :
    IsActive a_host (5000 * second) some_tasks (active_task a_host (5000 * second) some_tasks)
active_task_lem_example = active_task_lem a_host (5000 * second) some_tasks

abbrev logged : Dir
logged = record empty_dir { log = bytes "started" }

abbrev logged_store : World
logged_store = record empty_store { dirs = ("t1", logged) ∷ [] }

log_capped : (cap_log_file "t1" logged_store).0 ≡ ok tt
unfolding cap_log_file lookup_dir
log_capped = refl

logged_dir : lookup_dir "t1" logged_store.dirs ≡ some logged
unfolding lookup_dir
logged_dir = refl

cap_log_file_lem_example :
    (after : List ℕ) × (log_at "t1" (cap_log_file "t1" logged_store).1 ≡ some after)
    × (length after ≤ max_task_log_bytes)
    × (length logged.log ≤ max_task_log_bytes → after ≡ logged.log)
    × (max_task_log_bytes < length logged.log → after ≡ capped max_task_log_bytes logged.log)
cap_log_file_lem_example = cap_log_file_lem "t1" logged_store logged log_capped logged_dir

-- While the lock is held, a task that succeeded before is run again beside the accepted one.
abbrev done_task : Task
done_task = record (blank_task "t0" succeeded) { created_at = 4000 * second }

abbrev busy_store : World
busy_store = record accepted_store {
  locked = true;
  dirs = ("t0", record empty_dir { task_file = holds done_task }) ∷ accepted_store.dirs;
}

run_busy_second_example : ¬ AtMostOne a_host (5000 * second) (run a_worker "t0" busy_store).1
unfolding load lookup_dir base
run_busy_second_example =
    run_busy_second a_worker "t0" "t1" done_task busy_store refl refl refl refl refl refl
      (ground (arith, eq_iff "t1" "t0"))
