-- ===== src/Upgrade/Worker/Run.antt =====
-- A whole run of the worker, the lock included.
use tokenlive_standalone.Prelude.{
  Option-cases, sym, ap, ◌≢◌, ℕ, String, ◌≡◌, refl, ◌∙◌, true, false, not, ◌==◌, inl, inr, arith,
  ◌||◌, Bool-cases, List, none, some, bytes, base, eq_iff,
}
use tokenlive_standalone.Upgrade.Host.{Classifies, is_queued, succeeded, needs_attention}
use tokenlive_standalone.Upgrade.Task.{Task}
use tokenlive_standalone.Upgrade.Disk.{
  Dir, lookup_dir, ok, TaskFile, absent, unreadable, corrupt, holds, World,
}
use tokenlive_standalone.Upgrade.Store.{load, read_record, try_lock, error_text, save, stamp}
use tokenlive_standalone.Upgrade.Store.Records.{file_at, file_at-save}
use tokenlive_standalone.Upgrade.Safety.{
  file_blocks, AtMostOne, Belongs, WellFormed, Keeps, Keeps-refl,
}
use tokenlive_standalone.Upgrade.Active.{blocks}
use tokenlive_standalone.Upgrade.Safety.Faults.{save_succeeds}
use tokenlive_standalone.Upgrade.Safety.Reconcile.{save_elsewhere}
use tokenlive_standalone.Upgrade.Safety.Saves.{Outcome-cases}
use tokenlive_standalone.Upgrade.Safety.Prepare.{Safe, Safe-Keeps, Keeps-try_lock, Keeps-release}
use tokenlive_standalone.Upgrade.Worker.{Worker, run, run_loaded, fail_unknown, unknown}
use tokenlive_standalone.Upgrade.Worker.Safety.{is_live, IsLive, Keeps-queued, Keeps-fail_unknown}

pub file_at-try_lock : (w : World) (id : String) → file_at id (try_lock w).1 ≡ file_at id w
unfolding try_lock
file_at-try_lock w id = ground arith

module _ (k : Worker) (c : Classifies k.host) (id : String) where
  not_signalled : (t : Task) → Belongs id t → is_live t.state ≡ true → t.cleanup_pending ≡ false
  not_signalled t b q = elim (Bool-cases t.cleanup_pending) [
    | inl e ↦ absurd (live_done (b.signalled e))
    | inr e ↦ e
  ]
    where
      live_done : t.state ≡ succeeded → ⊥
      live_done e = ground arith

  Keeps-run_record :
      (w : World) (f : TaskFile)
      → WellFormed k.host w
      → file_at id w ≡ f
      → Keeps k.host k.now w (run_loaded k (read_record id f) w).1
  Keeps-run_record w absent s e = Keeps-refl k.host k.now w
  Keeps-run_record w (unreadable x) s e = Keeps-refl k.host k.now w
  Keeps-run_record w (corrupt x) s e = Keeps-refl k.host k.now w
  Keeps-run_record w (holds t) s e = elim (Bool-cases (is_queued t.state)) [
    | inl q ↦
        let b = s.files id t e in
        Keeps-queued k c id (λ x. b.no_parent (b.named ∙ x)) t w e q
          (b.named, not_signalled t b (ground arith))
    | inr q ↦ rw q (Keeps-refl k.host k.now w)
  ]

  Keeps-run_loaded :
      (w : World) → WellFormed k.host w → Keeps k.host k.now w (run_loaded k (load id w) w).1
  unfolding load
  Keeps-run_loaded w s = elim (Bool-cases (id == "" || not (id == base id))) [
    | inl e ↦ rw e (Keeps-refl k.host k.now w)
    | inr e ↦ rw e (Keeps-run_record w (file_at id w) s refl)
  ]

-- If the states are classified as documented, the store is safe and the task's file holds an
-- accepted or started record, a run of the job leaves a safe store, whether it gets the lock or
-- not and whatever its commands answer.
pub Safe-run :
    (k : Worker) (id : String) (t : Task) (w : World)
    → Classifies k.host
    → Safe k.host k.now w
    → file_at id w ≡ holds t
    → is_live t.state ≡ true
    → Safe k.host k.now (run k id w).1
unfolding run
Safe-run k id t w c s held q =
    let v = (try_lock w).1 in
    let s' : Safe k.host k.now v = Safe-Keeps (Keeps-try_lock k.host k.now w) s in
    let b : Belongs id t = s.shape.files id t held in
    let live : IsLive id v =
      (t, file_at-try_lock w id ∙ held, q, (b.named, not_signalled k c id t b q)) in
    let refused : (cause : List ℕ) → Safe k.host k.now (fail_unknown k id "lock" cause v).1 =
      λ cause.
        Safe-Keeps
          (Keeps-fail_unknown k c id (λ x. b.no_parent (b.named ∙ x)) "lock" cause id v live refl)
          s' in
    elim (Outcome-cases (try_lock w).0) [
      | inr (x, e) ↦ rw e (refused (error_text x))
      | inl (got, e) ↦ elim (Bool-cases got) [
        | inl y ↦
            rw (e, y)
              (Safe-Keeps (Keeps-release k.host k.now (run_loaded k (load id v) v).1)
                (Safe-Keeps (Keeps-run_loaded k c id v s'.shape) s'))
        | inr n ↦ rw (e, n) (refused (bytes "install lock busy"))
      ]
    ]

try_lock_busy : (w : World) → w.lock_fault ≡ none → w.locked ≡ true → try_lock w ≡ (ok false, w)
unfolding try_lock
try_lock_busy w free taken = ground arith

run_busy :
    (k : Worker) (id : String) (t : Task) (w : World)
    → w.lock_fault ≡ none
    → w.locked ≡ true
    → t.task_id ≡ id
    → load id w ≡ ok (some t)
    → (save k.now (unknown t "lock" (bytes "install lock busy")) w).0 ≡ ok tt
    → (u : Task) × (file_at id (run k id w).1 ≡ holds u) × (u.state ≡ needs_attention)
unfolding run fail_unknown
run_busy k id t w free taken name found wrote =
    let t' = unknown t "lock" (bytes "install lock busy") in
    (
      stamp k.now t',
      rw (try_lock_busy w free taken)
          (rw found (file_at-save k.now t' w id wrote ∙ ground (arith, name, eq_iff t.task_id id))),
      refl,
    )

loaded_dir :
    (id : String) (t : Task) (w : World)
    → load id w ≡ ok (some t)
    → (d : Dir) × (lookup_dir id w.dirs ≡ some d)
unfolding load
loaded_dir id t w found = elim (Option-cases (lookup_dir id w.dirs)) [
  | inl e ↦ absurd (ground (arith, e, found))
  | inr f ↦ f
]

-- If another process holds the lock and some task file blocks, a run of the job of another task,
-- whose record loads under its own name in whatever state, leaves a store where two task files
-- block, if its write does not fail: the record of that task, finished or not, is replaced by one
-- that blocks.
pub run_busy_second :
    (k : Worker) (id other : String) (t : Task) (w : World)
    → w.lock_fault ≡ none
    → w.locked ≡ true
    → t.task_id ≡ id
    → load id w ≡ ok (some t)
    → w.faults w.step ≡ none
    → file_blocks k.host k.now (file_at other w) ≡ true
    → other ≢ id
    → ¬ AtMostOne k.host k.now (run k id w).1
unfolding run fail_unknown
run_busy_second k id other t w free taken name found writes blocking ne one =
    let t' = unknown t "lock" (bytes "install lock busy") in
    let (d, here) = loaded_dir id t w found in
    let wrote = save_succeeds k.now t' w d (ap (λ j. lookup_dir j w.dirs) name ∙ here) writes in
    let (u, held, needs) = run_busy k id t w free taken name found wrote in
    let left : (run k id w).1 ≡ (save k.now t' w).1 =
      rw (try_lock_busy w free taken) (rw found refl) in
    let kept : file_at other (run k id w).1 ≡ file_at other w =
      ap (file_at other) left ∙ save_elsewhere k.now t' w other (λ e. ne (sym e ∙ name)) in
    ne (
      one other id (ap (file_blocks k.host k.now) kept ∙ blocking)
        (ap (file_blocks k.host k.now) held ∙ unresolved_blocks u needs))
  where
    unresolved_blocks : (u : Task) → u.state ≡ needs_attention → blocks k.host k.now u ≡ true
    unresolved_blocks u e = ground arith
