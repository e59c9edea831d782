-- ===== src/Upgrade/Store/Retired.antt =====
-- `Cleanup`: what it leaves of a task's directory and of the index.
use tokenlive_standalone.Prelude.{
  String, ◌≡◌, ◌≢◌, true, false, inl, inr, some, List, ◌==◌, arith, eq_iff, if◌then◌else◌,
  Bool-cases, Option-cases, ap, ◌∙◌,
}
use tokenlive_standalone.Upgrade.Task.{Task, TaskView, view}
use tokenlive_standalone.Upgrade.Disk.{ok, absent, World, records, write, remove_all, lookup_dir}
use tokenlive_standalone.Upgrade.Disk.Laws.{lookup_dir-remove_dir}
use tokenlive_standalone.Upgrade.Store.{
  cleanup, load, read_index, append_index, index_with, is_unsafe, task_file_of,
}
use tokenlive_standalone.Upgrade.Safety.Saves.{Outcome-cases}
use tokenlive_standalone.Upgrade.Store.Records.{file_at}

removed :
    (id j : String) (w : World)
    → id ≢ ".."
    → (remove_all id w).0 ≡ ok tt
    → (file_at j (remove_all id w).1 ≡ (if id == j then absent else file_at j w))
      × ((remove_all id w).1.index ≡ w.index)
unfolding remove_all write
removed id j w n e = (
  ground (arith, e, n, eq_iff id "..", lookup_dir-remove_dir id j w.dirs),
  ground (arith, e, n, eq_iff id ".."),
)

appended :
    (t : Task) (w : World)
    → (append_index t w).0 ≡ ok tt
    → ((append_index t w).1.dirs ≡ w.dirs)
      × ((vs : List TaskView) × (read_index w ≡ ok vs)
          × ((append_index t w).1.index ≡ records (index_with (view t) vs)))
unfolding append_index write
appended t w e = elim (Outcome-cases (read_index w)) [
  | inr (x, r) ↦ absurd (ground (arith, r, e))
  | inl (vs, r) ↦ elim (Option-cases (w.faults w.step)) [
    | inr (x, f) ↦ absurd (ground (arith, r, f, e))
    | inl f ↦ (ground (arith, r, f), (vs, r, ground (arith, r, f)))
  ]
]

-- If `Cleanup` of a task that loads reports no error, and the name is not `..`, the task's
-- directory holds no record any more, every other task's record is as it was, and the index, which
-- could be read, has the task's summary put in.
pub cleanup_lem :
    (id j : String) (t : Task) (w : World)
    → id ≢ ".."
    → load id w ≡ ok (some t)
    → (cleanup id w).0 ≡ ok tt
    → (file_at j (cleanup id w).1 ≡ (if id == j then absent else file_at j w))
      × ((vs : List TaskView) × (read_index w ≡ ok vs)
          × ((cleanup id w).1.index ≡ records (index_with (view t) vs)))
unfolding cleanup view
cleanup_lem id j t w n loads e =
    let t' = record t { cleaned = true; cleanup_pending = false } in
    let v = (append_index t' w).1 in
    elim (Bool-cases (is_unsafe w id)) [
      | inl u ↦ absurd (ground (arith, u, e))
      | inr u ↦ elim (Outcome-cases (append_index t' w).0) [
        | inr (x, a) ↦ absurd (ground (arith, u, loads, a, e))
        | inl (y, a) ↦
            let (dirs, (vs, r, index)) = appended t' w a in
            let (files, same) = removed id j v n (ground (arith, u, loads, a, e)) in
            rw (u, loads, a)
              (
                files ∙ ap (λ d. if id == j then absent else task_file_of (lookup_dir j d)) dirs,
                (vs, r, same ∙ index),
              )
      ]
    ]
