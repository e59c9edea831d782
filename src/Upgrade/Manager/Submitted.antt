-- ===== src/Upgrade/Manager/Submitted.antt =====
-- internal/upgrade/manager.go, `Submit`: what a call that reports no error had to present.
use tokenlive_standalone.Prelude.{
  ◌≤◌, String, ◌≡◌, ◌≢◌, refl, sym, ap, ◌∙◌, true, ◌⊎◌, inl, inr, Option, none, some, ◌==◌, arith,
  eq_iff, Bool-cases, Option-cases,
}
use tokenlive_standalone.Upgrade.Host.{is_queued, is_awaiting}
use tokenlive_standalone.Upgrade.Task.{Task, TaskView}
use tokenlive_standalone.Upgrade.Disk.{Outcome, ok, err, World}
use tokenlive_standalone.Upgrade.Store.{load, try_lock}
use tokenlive_standalone.Upgrade.Safety.Saves.{Outcome-cases}
use tokenlive_standalone.Upgrade.Manager.{Manager}
use tokenlive_standalone.Upgrade.Manager.Prepare.{with_lock}
use tokenlive_standalone.Upgrade.Manager.Submit.{SubmitRequest, submit, submit_task, submit_loaded}

-- The request is confirmed, comes from the task's own initiator, and its credential is the one of
-- an open confirmation, or the one that the accepted task has consumed.
pub record IsAuthorized (m : Manager) (req : SubmitRequest) (t : Task) : Type 0 where
  pub own : t.initiator ≡ req.initiator
  pub credential :
      ((is_queued t.state ≡ true)
        × (t.accepted_digest ≢ "")
        × (t.accepted_digest ≡ m.host.sha256_hex req.credential))
      ⊎ ((is_awaiting t.state ≡ true)
          × (m.now ≤ t.credential_expiry)
          × (t.credential_digest ≡ m.host.sha256_hex req.credential))

submit_task-IsAuthorized :
    (m : Manager) (req : SubmitRequest) (t : Task) (v : TaskView) (w : World)
    → (submit_task m req t w).0 ≡ ok v
    → IsAuthorized m req t
unfolding submit_task
submit_task-IsAuthorized m req t v w h =
    let digest = m.host.sha256_hex req.credential in
    record {
      own = elim (Bool-cases (t.initiator == req.initiator)) [
        | inl e ↦ ground (arith, e, eq_iff t.initiator req.initiator)
        | inr e ↦ absurd (ground (arith, e, h))
      ];
      credential = elim (Bool-cases (is_queued t.state)) [
        | inl q ↦ inl (
          q,
          ground (arith, q, h, eq_iff t.accepted_digest ""),
          ground (arith, q, h, eq_iff digest t.accepted_digest),
        )
        | inr q ↦ inr (
          ground (arith, q, h),
          ground (arith, q, h),
          ground (arith, q, h, eq_iff digest t.credential_digest),
        )
      ];
    }

submit_loaded-IsAuthorized :
    (m : Manager) (req : SubmitRequest) (v : TaskView) (o : Outcome (Option Task)) (w : World)
    → (submit_loaded m req o w).0 ≡ ok v
    → (t : Task) × (o ≡ ok (some t)) × IsAuthorized m req t
submit_loaded-IsAuthorized m req v (err e) w h = absurd (cc h)
submit_loaded-IsAuthorized m req v (ok none) w h = absurd (cc h)
submit_loaded-IsAuthorized m req v (ok (some t)) w h =
    (t, refl, submit_task-IsAuthorized m req t v w h)

load-try_lock : (id : String) (w : World) → load id (try_lock w).1 ≡ load id w
unfolding load try_lock
load-try_lock id w = elim (Option-cases w.lock_fault) [
  | inl e ↦ elim (Bool-cases w.locked) [ inl y ↦ rw (e, y) refl | inr y ↦ rw (e, y) refl ]
  | inr (x, e) ↦ rw e refl
]

-- If `Submit` reports no error, the request was confirmed, the lock was got, and the record that
-- loads for the task belongs to the same initiator and is either in its confirmation window with
-- the digest of this credential, or accepted with that digest before.
pub submit-IsAuthorized :
    (m : Manager) (req : SubmitRequest) (v : TaskView) (w : World)
    → (submit m req w).0 ≡ ok v
    → (req.confirm ≡ true)
      × ((try_lock w).0 ≡ ok true)
      × ((t : Task) × (load req.task_id w ≡ ok (some t)) × IsAuthorized m req t)
unfolding submit with_lock
submit-IsAuthorized m req v w h = elim (Bool-cases req.confirm) [
  | inr n ↦ absurd (ground (arith, n, h))
  | inl y ↦ elim (Outcome-cases (try_lock w).0) [
    | inr (x, e) ↦ absurd (ground (arith, y, e, h))
    | inl (got, e) ↦ elim (Bool-cases got) [
      | inr n ↦ absurd (ground (arith, y, e, n, h))
      | inl g ↦
          let v' = (try_lock w).1 in
          let (t, found, a) =
            submit_loaded-IsAuthorized m req v (load req.task_id v') v'
              (ground (arith, y, e, g, h)) in
          (y, e ∙ ap ok g, (t, sym (load-try_lock req.task_id w) ∙ found, a))
    ]
  ]
]
