-- ===== src/Upgrade/Safety/Resolves.antt =====
-- internal/upgrade/manager.go: what a reconciliation does to a task that is due.
use tokenlive_standalone.Prelude.{
  ℕ, String, ◌≡◌, ◌≢◌, refl, sym, subst, ap, ◌∙◌, Bool, true, false, not, ◌&&◌, ◌||◌, inl, inr,
  arith, All, All-imp, List, [], ◌∷◌, Memᴰ, none, some, ltb, ◌*◌, ◌==◌, if◌then◌else◌, Option-cases,
  ◌⊎◌, All-mem, eq_iff,
}
use tokenlive_standalone.Upgrade.Host.{
  TaskState, Classifies, is_awaiting, is_queued, needs_attention, confirmation_expired,
}
use tokenlive_standalone.Upgrade.Task.{Task}
use tokenlive_standalone.Upgrade.Disk.{ok, holds, Dir, World, lookup_dir}
use tokenlive_standalone.Upgrade.Store.{save, stamp, load, list_tasks}
use tokenlive_standalone.Upgrade.Store.Listing.{Distinct}
use tokenlive_standalone.Upgrade.Store.Records.{file_at, file_at-save}
use tokenlive_standalone.Upgrade.Manager.{
  Manager, reconcile_task, reconcile, reconciled_tasks, reconcile_launch, reconcile_inflight,
  inflight_lost, launch_lost, inflight_state, worker_alive, elapsed_over, bootstrap_timeout,
  accepted_budget,
}
use tokenlive_standalone.Upgrade.Safety.{file_open, WellFormed}
use tokenlive_standalone.Upgrade.Safety.Sources.{Source, All-Source, pending_listed}
use tokenlive_standalone.Upgrade.Safety.Faults.{faults-reconcile_task, save_succeeds}
use tokenlive_standalone.Upgrade.Safety.Reconcile.{
  is_pending, Listed, Listed-later, reconcile_task_elsewhere, reconcile_task-Inert,
}
use tokenlive_standalone.Upgrade.Safety.Prepare.{Listed-Source}

-- The confirmation window has passed; or the worker's process is gone, and a queued task had the
-- time to start; or a started task is past its budget.
abbrev pub is_due : Manager → Task → Bool
is_due m t =
    if is_awaiting t.state
    then ltb t.credential_expiry m.now
    else if is_queued t.state
    then not (m.pid_alive t.worker_pid) && elapsed_over m.now t.updated_at (2 * bootstrap_timeout)
    else inflight_state t.state
      && (not (m.pid_alive t.worker_pid) || elapsed_over m.now t.created_at accepted_budget)

abbrev pub resolution : TaskState → TaskState
resolution s = if is_awaiting s then confirmation_expired else needs_attention

-- A record that resolves the task.
abbrev pub Resolves : Task → Task → Type 0
Resolves t u = (u.task_id ≡ t.task_id) × (u.state ≡ resolution t.state)

module _ (m : Manager) where
  dead_worker :
      (t : Task) (w : World) → m.pid_alive t.worker_pid ≡ false → worker_alive m t w ≡ false
  unfolding worker_alive
  dead_worker t w dead = ground arith

  abbrev resolved_record : Task → Task
  resolved_record t =
      if is_awaiting t.state
      then record t { state = confirmation_expired }
      else if is_queued t.state
      then launch_lost t
      else inflight_lost m t

  Resolves-record : (t : Task) → is_pending t.state ≡ true → Resolves t (resolved_record t)
  Resolves-record t p = (ground arith, ground arith)

  is_pending-due : (t : Task) → is_due m t ≡ true → is_pending t.state ≡ true
  is_pending-due t due = ground arith

  due_saved :
      (t : Task) (w : World)
      → is_due m t ≡ true
      → reconcile_task m true t w ≡ (save m.now (resolved_record t) w).1
  unfolding reconcile_task reconcile_launch reconcile_inflight
  due_saved t w due = ground (arith, dead_worker t w)

  -- Reconciling the due task itself, where no write fails.
  Resolves-own :
      (id : String) (t : Task) (w : World)
      → file_at id w ≡ holds t
      → t.task_id ≡ id
      → is_due m t ≡ true
      → ((n : ℕ) → w.faults n ≡ none)
      → (u : Task) × Resolves t u × (file_at id (reconcile_task m true t w) ≡ holds u)
  Resolves-own id t w held named due free =
      let u = resolved_record t in
      let r = Resolves-record t (is_pending-due t due) in
      let (d, found) = held_dir (Option-cases (lookup_dir id w.dirs)) in
      let saved : (save m.now u w).0 ≡ ok tt =
        save_succeeds m.now u w d (ap (λ k. lookup_dir k w.dirs) (r.0 ∙ named) ∙ found)
          (free w.step) in
      (
        stamp m.now u,
        r,
        ap (λ v. file_at id v) (due_saved t w due)
            ∙ (file_at-save m.now u w id saved ∙ own (r.0 ∙ named)),
      )
    where
      held_dir :
          (lookup_dir id w.dirs ≡ none) ⊎ ((d : Dir) × (lookup_dir id w.dirs ≡ some d))
          → (d : Dir) × (lookup_dir id w.dirs ≡ some d)
      held_dir (inl e) = absurd (cc (rw e at held))
      held_dir (inr f) = f

      own :
          (resolved_record t).task_id ≡ id
          → (if (resolved_record t).task_id == id
              then holds (stamp m.now (resolved_record t))
              else file_at id w)
            ≡ holds (stamp m.now (resolved_record t))
      own e = rw ((eq_iff (resolved_record t).task_id id).1 e) refl

  module _ (c : Classifies m.host) where
    one_elsewhere :
        (u : Task) (w : World) (id : String)
        → Listed m.host w u
        → u.task_id ≢ id
        → file_at id (reconcile_task m true u w) ≡ file_at id w
    one_elsewhere u w id (inl (held, b)) ne = reconcile_task_elsewhere m u w id ne b.no_parent
    one_elsewhere u w id (inr i) ne = ap (λ v. file_at id v) (reconcile_task-Inert m c u w i)

    others_elsewhere :
        (us : List Task) (w : World) (id : String)
        → Distinct us
        → All (Listed m.host w) us
        → All (λ u. u.task_id ≢ id) us
        → file_at id (reconcile m true us w) ≡ file_at id w
    unfolding reconcile
    others_elsewhere [] w id d l n = refl
    others_elsewhere (u ∷ us) w id d l n =
        others_elsewhere us (reconcile_task m true u w) id d.1 (Listed-later m c u w us l.0 d.0 l.1)
          n.1
        ∙ one_elsewhere u w id l.0 n.0

    -- The loop comes to the task, whose file and whose writes are as they were.
    Resolves-Listed :
        (ts : List Task) (id : String) (t : Task) (w : World)
        → Memᴰ t ts
        → Distinct ts
        → All (Listed m.host w) ts
        → file_at id w ≡ holds t
        → t.task_id ≡ id
        → is_due m t ≡ true
        → ((n : ℕ) → w.faults n ≡ none)
        → (u : Task) × Resolves t u × (file_at id (reconcile m true ts w) ≡ holds u)
    unfolding reconcile
    Resolves-Listed [] id t w mem d l held named due free = elim mem [ ]
    Resolves-Listed (x ∷ ts) id t w (Memᴰ.head e) d l held named due free =
        let x_named : x.task_id ≡ id = ap (λ (z : Task). z.task_id) (sym e) ∙ named in
        let (u, r, f) =
          Resolves-own id x w (held ∙ ap holds e) x_named (ap (is_due m) (sym e) ∙ due) free in
        (
          u,
          subst (λ z. Resolves z u) (sym e) r,
          others_elsewhere ts (reconcile_task m true x w) id d.1
                (Listed-later m c x w ts l.0 d.0 l.1)
                (subst (λ k. All (λ y. y.task_id ≢ k) ts) x_named d.0)
              ∙ f,
        )
    Resolves-Listed (x ∷ ts) id t w (Memᴰ.tail mem) d l held named due free =
        let ne : x.task_id ≢ id =
          λ q. All-mem (λ y. y.task_id ≢ x.task_id) ts mem d.0 (named ∙ sym q) in
        Resolves-Listed ts id t (reconcile_task m true x w) mem d.1
          (Listed-later m c x w ts l.0 d.0 l.1) (one_elsewhere x w id l.0 ne ∙ held) named due
          (λ n. ap (λ f. f n) (faults-reconcile_task m x w) ∙ free n)

    -- If the states are classified as documented, the store is in shape, its tasks can be listed,
    -- the record of a task loads and no write fails, then a reconciliation resolves the task that
    -- is due: its file then holds a record of the same name that is expired, if it awaited its
    -- confirmation, and otherwise in `needs_attention`. Due is a task whose confirmation window
    -- has passed, a queued one whose worker's process is gone and that had thirty seconds to
    -- start, and a started one whose worker's process is gone or that is past its budget.
    pub reconciled_tasks-Resolves :
        (w : World) (id : String) (t : Task) (ts : List Task)
        → WellFormed m.host w
        → list_tasks m.now w ≡ ok ts
        → file_at id w ≡ holds t
        → load id w ≡ ok (some t)
        → is_due m t ≡ true
        → ((n : ℕ) → w.faults n ≡ none)
        → (u : Task) × Resolves t u × (file_at id (reconciled_tasks m w).1 ≡ holds u)
    unfolding reconciled_tasks
    reconciled_tasks-Resolves w id t ts s listed held loads due free =
        let (sources, distinct) = All-Source m.host m.now w s ts listed in
        let is_open : file_open m.host (holds t) ≡ true = open_pending t (is_pending-due t due) in
        rw listed (
          Resolves-Listed ts id t w
            (pending_listed m.host m.now w s ts id t listed held loads is_open) distinct
            (All-imp (Source m.host w) (Listed m.host w) ts (Listed-Source m.host w) sources) held
            (s.files id t held).named due free)
      where
        open_pending : (t : Task) → is_pending t.state ≡ true → file_open m.host (holds t) ≡ true
        open_pending t p = ground arith
