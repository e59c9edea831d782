-- ===== src/Upgrade/Safety/Faults.antt =====
-- internal/upgrade/state.go: the write faults of a store before and after its operations.
use tokenlive_standalone.Prelude.{
  ℕ, String, ◌≡◌, refl, ◌∙◌, true, false, inl, inr, arith, Bool-cases, Option, none, some,
}
use tokenlive_standalone.Upgrade.Task.{Task}
use tokenlive_standalone.Upgrade.Disk.{
  Outcome, ok, err, Dir, World, lookup_dir, write, write_file_atomic, remove_all,
}
use tokenlive_standalone.Upgrade.Store.{
  save, load, retire, append_index, read_index, cleanup, cap_log_file, is_unsafe,
}
use tokenlive_standalone.Upgrade.Manager.{
  Manager, reconcile_task, reconcile_launch, reconcile_inflight, reconcile_cleanup, launch_lost,
  inflight_lost,
}
use tokenlive_standalone.Upgrade.Host.{confirmation_expired}
use tokenlive_standalone.Upgrade.Safety.Saves.{Outcome-cases}

pub faults-save : (at : ℕ) (t : Task) (w : World) → (save at t w).1.faults ≡ w.faults
unfolding save write_file_atomic write
faults-save at t w = ground arith

faults-append_index : (t : Task) (w : World) → (append_index t w).1.faults ≡ w.faults
unfolding append_index read_index write
faults-append_index t w = ground arith

faults-retire : (o : Outcome (Option Task)) (w : World) → (retire o w).1.faults ≡ w.faults
faults-retire (err x) w = refl
faults-retire (ok none) w = refl
faults-retire (ok (some t)) w = faults-append_index _ w

faults-remove_all : (k : String) (w : World) → (remove_all k w).1.faults ≡ w.faults
unfolding remove_all write
faults-remove_all k w = ground arith

faults-cleanup : (k : String) (w : World) → (cleanup k w).1.faults ≡ w.faults
unfolding cleanup
faults-cleanup k w = elim (Bool-cases (is_unsafe w k)) [
  | inl e ↦ rw e refl
  | inr e ↦
      let r = retire (load k w) w in
      rw e (elim (Outcome-cases r.0) [
        | inl (u, p) ↦ rw p (faults-remove_all k r.1 ∙ faults-retire (load k w) w)
        | inr (x, p) ↦ rw p (faults-retire (load k w) w)
      ])
]

faults-cap_log_file : (k : String) (w : World) → (cap_log_file k w).1.faults ≡ w.faults
unfolding cap_log_file write_file_atomic write
faults-cap_log_file k w = ground arith

faults-reconcile_cleanup :
    (m : Manager) (t : Task) (w : World) → (reconcile_cleanup m t w).faults ≡ w.faults
unfolding reconcile_cleanup
faults-reconcile_cleanup m t w =
    ground (
      arith,
      faults-cleanup t.task_id (cap_log_file t.task_id w).1,
      faults-cap_log_file t.task_id w,
    )

pub faults-reconcile_task :
    (m : Manager) (t : Task) (w : World) → (reconcile_task m true t w).faults ≡ w.faults
unfolding reconcile_task reconcile_launch reconcile_inflight
faults-reconcile_task m t w = ground (
  arith,
  faults-save m.now (record t { state = confirmation_expired }) w,
  faults-save m.now (record t { launch_unknown = false }) w,
  faults-save m.now (launch_lost t) w,
  faults-save m.now (inflight_lost m t) w,
  faults-reconcile_cleanup m t w,
)

-- A save into a directory that is there, whose write does not fail, reports no error.
pub save_succeeds :
    (at : ℕ) (t : Task) (w : World) (d : Dir)
    → lookup_dir t.task_id w.dirs ≡ some d
    → w.faults w.step ≡ none
    → (save at t w).0 ≡ ok tt
unfolding save write_file_atomic write
save_succeeds at t w d found free = ground arith
