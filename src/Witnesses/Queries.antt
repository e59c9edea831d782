-- ===== src/Witnesses/Queries.antt =====
-- Runs of `Capability` on an empty store and a reconciliation of a store whose task is due.
use tokenlive_standalone.Prelude.{◌≡◌, refl, false, none, [], ◌∷◌, ◌*◌, sort_slice, base}
use tokenlive_standalone.Upgrade.Task.{Task, second}
use tokenlive_standalone.Upgrade.Active.{active_task, active_from, sort_tasks}
use tokenlive_standalone.Upgrade.Disk.{ok, holds, lookup_dir}
use tokenlive_standalone.Upgrade.Store.{
  load, list_tasks, dedupe_tasks, dedupe_onto, place, entry_tasks, read_index,
}
use tokenlive_standalone.Upgrade.Store.Records.{file_at}
use tokenlive_standalone.Upgrade.Manager.{Manager, reconcile, reconciled_tasks}
use tokenlive_standalone.Upgrade.Manager.Queries.{capability, capability_of}
use tokenlive_standalone.Upgrade.Safety.{file_blocks}
use tokenlive_standalone.Upgrade.Safety.Queries.{capability_lem}
use tokenlive_standalone.Upgrade.Reach.{Safe-empty}
use tokenlive_standalone.Upgrade.Safety.Resolves.{Resolves, reconciled_tasks-Resolves}
use tokenlive_standalone.Witnesses.Data.{
  Safe-accepted_store, a_host, a_host-Classifies, a_manager, empty_store, accepted_task,
  accepted_store,
}

free_on_empty : (capability a_manager empty_store).0 ≡ ok (capability_of none)
unfolding capability reconciled_tasks list_tasks reconcile entry_tasks read_index dedupe_tasks
    dedupe_onto sort_tasks sort_slice active_task active_from
free_on_empty = refl

capability_lem_example :
    file_blocks a_host (5000 * second) (file_at "t1" (capability a_manager empty_store).1) ≡ false
capability_lem_example =
    capability_lem a_manager empty_store (capability_of none) "t1" a_host-Classifies
      (Safe-empty a_host (5000 * second) empty_store refl refl).shape free_on_empty refl

-- Later, when the accepted task was never started.
abbrev late_manager : Manager
late_manager = record a_manager { now = 9000 * second }

listed_late : list_tasks late_manager.now accepted_store ≡ ok (accepted_task ∷ [])
unfolding list_tasks entry_tasks read_index dedupe_tasks dedupe_onto place sort_tasks sort_slice
    load lookup_dir base
listed_late = refl

reconciled_tasks-Resolves_example :
    (u : Task) × Resolves accepted_task u
    × (file_at "t1" (reconciled_tasks late_manager accepted_store).1 ≡ holds u)
unfolding load lookup_dir base
reconciled_tasks-Resolves_example =
    reconciled_tasks-Resolves late_manager a_host-Classifies accepted_store "t1" accepted_task
      (accepted_task ∷ []) Safe-accepted_store.shape listed_late refl refl refl (λ n. refl)
