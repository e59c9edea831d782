-- ===== src/Upgrade/Safety/Prepare.antt =====
-- internal/upgrade/manager.go: a whole reconciliation, and the new task of `Prepare`.
use tokenlive_standalone.Prelude.{
  ℕ, String, ◌≡◌, ◌≢◌, refl, sym, ◌∙◌, subst, true, false, not, ◌==◌, inl, inr, arith, eq_iff, All,
  All-mem, All-imp, All-both, Bool-cases, List, none, Option-cases,
}
use tokenlive_standalone.Upgrade.Host.{Host, Classifies}
use tokenlive_standalone.Upgrade.Task.{Task, TaskView}
use tokenlive_standalone.Upgrade.Active.{blocks, active_task}
use tokenlive_standalone.Upgrade.Active.Laws.{active_task-eq-none}
use tokenlive_standalone.Upgrade.Disk.{Outcome, ok, err, holds, World, Action}
use tokenlive_standalone.Upgrade.Store.{list_tasks, try_lock, release, create, stamp}
use tokenlive_standalone.Upgrade.Store.Records.{
  file_at, file_at-create, create_failed, create_elsewhere, index-create,
}
use tokenlive_standalone.Upgrade.Manager.{Manager, Candidate, reconciled_tasks}
use tokenlive_standalone.Upgrade.Manager.Prepare.{
  PrepareRequest, prepare, prepare_locked, prepare_candidate, prepare_secret, new_task, with_lock,
}
use tokenlive_standalone.Upgrade.Safety.{
  file_blocks, views_of, Belongs, IsRetired, WellFormed, AtMostOne, Keeps, Keeps-refl,
  Keeps-AtMostOne,
}
use tokenlive_standalone.Upgrade.Safety.Saves.{same_store, Outcome-cases}
use tokenlive_standalone.Upgrade.Safety.Sources.{
  Source, retired, unresolved, stored, All-Source, blocking_listed,
}
use tokenlive_standalone.Upgrade.Safety.Reconcile.{Listed, Keeps-reconcile}

pub Listed-Source : (h : Host) (w : World) (t : Task) → Source h w t → Listed h w t
Listed-Source h w t (retired a b c) = inr (inl (a, b))
Listed-Source h w t (unresolved a b e l) = inr (inr (a, b))
Listed-Source h w t (stored a b) = inl (a, b)

-- If the states are classified as documented and the store is in shape, listing and reconciling
-- leave it in shape, and no task file blocks that did not block before.
pub Keeps-reconciled_tasks :
    (m : Manager)
    → Classifies m.host
    → (w : World) → WellFormed m.host w
    → Keeps m.host m.now w (reconciled_tasks m w).1
unfolding reconciled_tasks
Keeps-reconciled_tasks m c w s = elim (Outcome-cases (list_tasks m.now w)) [
  | inl (ts, e) ↦
      let (sources, distinct) = All-Source m.host m.now w s ts e in
      rw e (
        Keeps-reconcile m c ts w distinct
          (All-imp (Source m.host w) (Listed m.host w) ts (Listed-Source m.host w) sources))
  | inr (x, e) ↦ rw e (Keeps-refl m.host m.now w)
]

-- The list that `reconciled_tasks` returns is of the store that it leaves.
pub reconciled_tasks-eq_ok :
    (m : Manager) (w : World) (ts : List Task)
    → (reconciled_tasks m w).0 ≡ ok ts
    → list_tasks m.now (reconciled_tasks m w).1 ≡ ok ts
unfolding reconciled_tasks
reconciled_tasks-eq_ok m w ts e = ground arith

-- With no active task, no file blocks.
pub none_block :
    (h : Host) (now : ℕ) (w : World) (ts : List Task)
    → WellFormed h w
    → list_tasks now w ≡ ok ts
    → active_task h now ts ≡ none
    → (id : String) → file_blocks h now (file_at id w) ≡ true
    → ⊥
none_block h now w ts s e idle id b =
    let (y, m, q) = blocking_listed h now w s ts id e b in
    let quiet : blocks h now y ≡ false =
      All-mem (λ t. blocks h now t ≡ false) ts m ((active_task-eq-none h now ts).0 idle) in
    cc (quiet, q)

-- The new identifier is none of the index's, and no name of the root's parent.
abbrev pub IsFresh : Manager → World → Type 0
IsFresh m w = (m.fresh_id ≢ "..") × All (λ v. v.task_id ≢ m.fresh_id) (views_of w.index)

-- What holds of the store when no operation is under way.
pub record Safe (h : Host) (now : ℕ) (w : World) : Type 0 where
  pub shape : WellFormed h w
  pub one : AtMostOne h now w

pub Safe-Keeps :
    {h : Host} {now : ℕ} {w w' : World} → Keeps h now w w' → Safe h now w → Safe h now w'
Safe-Keeps k s = record { shape = k.shape s.shape; one = Keeps-AtMostOne k s.one }

module _ (m : Manager) (w : World) (t : Task) (body : String)
    (quiet : (id : String) → file_blocks m.host m.now (file_at id w) ≡ true → ⊥)
    (shape : WellFormed m.host w) (fresh : All (λ v. v.task_id ≢ t.task_id) (views_of w.index))
    (belongs : Belongs t.task_id t) where
  created : World
  created = (create m.now t body w).1

  only_new : (id : String) → file_blocks m.host m.now (file_at id created) ≡ true → id ≡ t.task_id
  unfolding created
  only_new id b = elim (Bool-cases (t.task_id == id)) [
    | inl e ↦ sym ((eq_iff t.task_id id).0 e)
    | inr e ↦ absurd (quiet id (rw (create_elsewhere m.now t body w id e) at b))
  ]

  created_files : (id : String) (u : Task) → file_at id created ≡ holds u → Belongs id u
  unfolding created
  created_files id u e = elim (Outcome-cases (create m.now t body w).0) [
    | inl (x, p) ↦ elim (Bool-cases (t.task_id == id)) [
      | inl q ↦
          let same : t.task_id ≡ id = (eq_iff t.task_id id).0 q in
          let held : holds (stamp m.now t) ≡ holds u =
            rw (file_at-create m.now t body w id p, q) at e in
          let it : stamp m.now t ≡ u = cc held in
          subst (Belongs id) it (
            subst (λ k. Belongs k (stamp m.now t)) same
              (record {
                named = refl;
                no_parent = belongs.no_parent;
                signalled = belongs.signalled;
              }))
      | inr q ↦ shape.files id u (rw (file_at-create m.now t body w id p, q) at e)
    ]
    | inr (x, p) ↦ shape.files id u (rw (create_failed m.now t body w id x p) at e)
  ]

  created-IsRetired :
      (v : TaskView) → (v.task_id ≢ t.task_id) × IsRetired m.host w v → IsRetired m.host created v
  unfolding created
  created-IsRetired v (ne, (a, b)) = (
    a,
    rw (create_elsewhere m.now t body w v.task_id (ground (arith, eq_iff t.task_id v.task_id))) b,
  )

  index_kept : All (IsRetired m.host created) (views_of created.index)
  unfolding created
  index_kept = rw (index-create m.now t body w) (
      All-imp (λ v. (v.task_id ≢ t.task_id) × IsRetired m.host w v) (IsRetired m.host created)
        (views_of w.index) created-IsRetired
        (All-both (λ v. v.task_id ≢ t.task_id) (IsRetired m.host w) (views_of w.index) fresh
          shape.retired))

  Safe-created : Safe m.host m.now created
  unfolding created
  Safe-created = record {
    shape = record { files = created_files; retired = index_kept };
    one = λ i j bi bj. only_new i bi ∙ sym (only_new j bj);
  }

module _ (m : Manager) (req : PrepareRequest) where
  module _ (w : World) (quiet : (id : String) → file_blocks m.host m.now (file_at id w) ≡ true → ⊥)
      (s : Safe m.host m.now w) (fresh : IsFresh m w) where
    Safe-prepare_secret :
        (c : Candidate) (o : Outcome String) → Safe m.host m.now (prepare_secret m req c o w).1
    unfolding created
    Safe-prepare_secret c (err e) = s
    Safe-prepare_secret c (ok credential) =
        let t = new_task m req c credential in
        let safe : Safe m.host m.now (create m.now t c.body w).1 =
          unfold created new_task in
          Safe-created m w t c.body quiet s.shape fresh.1
            (record { named = refl; no_parent = fresh.0; signalled = λ e. absurd (cc e) }) in
        elim (Outcome-cases (create m.now t c.body w).0) [
          | inl (u, p) ↦ rw p safe
          | inr (x, p) ↦ rw p safe
        ]

    Safe-prepare_candidate :
        (o : Outcome Candidate) → Safe m.host m.now (prepare_candidate m req o w).1
    Safe-prepare_candidate (err e) = s
    Safe-prepare_candidate (ok c) = elim (Bool-cases (not (c.stable == req.target_version))) [
      | inl e ↦ rw e s
      | inr e ↦ rw e (Safe-prepare_secret c m.secret)
    ]

  Safe-prepare_locked :
      Classifies m.host
      → (w : World) → Safe m.host m.now w
      → IsFresh m (reconciled_tasks m w).1
      → Safe m.host m.now (prepare_locked m req w).1
  unfolding prepare_locked
  Safe-prepare_locked c w s fresh =
      let r = reconciled_tasks m w in
      let s' : Safe m.host m.now r.1 = Safe-Keeps (Keeps-reconciled_tasks m c w s.shape) s in
      elim (Outcome-cases r.0) [
        | inr (x, e) ↦ rw e s'
        | inl (ts, e) ↦ elim (Option-cases (active_task m.host m.now ts)) [
          | inr (t, a) ↦ rw (e, a) s'
          | inl a ↦
              rw (e, a)
                (Safe-prepare_candidate r.1
                  (none_block m.host m.now r.1 ts s'.shape (reconciled_tasks-eq_ok m w ts e) a) s'
                  fresh m.fetch)
        ]
      ]

pub Keeps-try_lock : (h : Host) (now : ℕ) (w : World) → Keeps h now w (try_lock w).1
unfolding try_lock
Keeps-try_lock h now w =
    same_store h now w (try_lock w).1 (λ id. unfold try_lock in ground arith) (ground arith)

pub Keeps-release : (h : Host) (now : ℕ) (w : World) → Keeps h now w (release w)
unfolding release
Keeps-release h now w = same_store h now w (release w) (λ id. refl) refl

-- Under the lock a safe body leaves a safe store.
pub Safe-with_lock :
    {A : Type 0} (h : Host) (now : ℕ) (body : Action A) (w : World)
    → Safe h now w
    → (Safe h now (try_lock w).1 → Safe h now (body (try_lock w).1).1)
    → Safe h now (with_lock body w).1
unfolding with_lock
Safe-with_lock h now body w s k =
    let s' : Safe h now (try_lock w).1 = Safe-Keeps (Keeps-try_lock h now w) s in
    elim (Outcome-cases (try_lock w).0) [
      | inr (x, e) ↦ rw e s'
      | inl (got, e) ↦ elim (Bool-cases got) [
        | inl y ↦ rw (e, y) (Safe-Keeps (Keeps-release h now (body (try_lock w).1).1) (k s'))
        | inr n ↦ rw (e, n) s'
      ]
    ]

-- If the states are classified as documented, the store is safe and the new identifier is fresh,
-- `Prepare` leaves a safe store, whatever it returns.
pub Safe-prepare :
    (m : Manager) (req : PrepareRequest) (w : World)
    → Classifies m.host
    → Safe m.host m.now w
    → IsFresh m (reconciled_tasks m (try_lock w).1).1
    → Safe m.host m.now (prepare m req w).1
unfolding prepare
Safe-prepare m req w c s fresh = elim (Bool-cases (req.target_version == "")) [
  | inl e ↦ rw e s
  | inr e ↦ rw e (
      Safe-with_lock m.host m.now (prepare_locked m req) w s
        (λ s'. Safe-prepare_locked m req c (try_lock w).1 s' fresh))
]
