-- ===== src/Upgrade/Safety/Submit.antt =====
-- internal/upgrade/manager.go: the records that `Submit` writes.
use tokenlive_standalone.Prelude.{
  ℕ, String, ◌≡◌, refl, sym, ◌∙◌, subst, Bool, true, false, not, ◌==◌, inl, inr, arith, eq_iff,
  if◌then◌else◌, ◌||◌, Bool-cases, ltb, base,
}
use tokenlive_standalone.Upgrade.Host.{Host, Classifies, is_queued, is_awaiting, succeeded}
use tokenlive_standalone.Upgrade.Task.{Task}
use tokenlive_standalone.Upgrade.Disk.{Outcome, TaskFile, absent, unreadable, corrupt, holds, World}
use tokenlive_standalone.Upgrade.Store.{save, stamp, load, read_record, try_lock}
use tokenlive_standalone.Upgrade.Store.Records.{file_at, file_at-save}
use tokenlive_standalone.Upgrade.Manager.{Manager}
use tokenlive_standalone.Upgrade.Manager.Submit.{
  SubmitRequest, submit, submit_task, submit_loaded, submit_saved, accepted,
}
use tokenlive_standalone.Upgrade.Safety.{Belongs, WellFormed, Keeps, Keeps-refl, Keeps-trans}
use tokenlive_standalone.Upgrade.Safety.Saves.{Keeps-save}
use tokenlive_standalone.Upgrade.Safety.Reconcile.{Allowed-change, Keeps-expire}
use tokenlive_standalone.Upgrade.Safety.Prepare.{Safe, Safe-Keeps, Safe-with_lock}
use tokenlive_standalone.Upgrade.Safety.Launch.{Keeps-saved}

Keeps-choice :
    {A : Type 0} {h : Host} {now : ℕ} {w : World} (b : Bool) (x y : Outcome A × World)
    → (b ≡ true → Keeps h now w x.1)
    → (b ≡ false → Keeps h now w y.1)
    → Keeps h now w (if b then x else y).1
Keeps-choice true x y p q = p refl
Keeps-choice false x y p q = q refl

module _ (m : Manager) (c : Classifies m.host) (req : SubmitRequest) (w : World) where
  Keeps-accept :
      (t : Task)
      → file_at t.task_id w ≡ holds t
      → Belongs t.task_id t
      → is_awaiting t.state ≡ true
      → ltb t.credential_expiry m.now ≡ false
      → (digest : String)
      → let r = save m.now (accepted m digest t) w in
        Keeps m.host m.now w (submit_saved m (accepted m digest t) r.0 r.1).1
  Keeps-accept t held b p e digest =
      let t' = accepted m digest t in
      let flag : t.cleanup_pending ≡ false = elim (Bool-cases t.cleanup_pending) [
        | inl y ↦ absurd (not_done (b.signalled y))
        | inr n ↦ n
      ] in
      let first : Keeps m.host m.now w (save m.now t' w).1 = Keeps-save m.host m.now m.now w t' (
        Allowed-change m.host c m.now w t t' held b (ground arith) refl refl (λ _. ground arith)) in
      Keeps-trans first (
        Keeps-saved m c t.task_id b.no_parent t' (save m.now t' w).0 (save m.now t' w).1
          (refl, flag) refl
          (λ s. (
            stamp m.now t',
            file_at-save m.now t' w t.task_id s ∙ ground (arith, eq_iff t.task_id t.task_id),
            refl,
          )))
    where
      not_done : t.state ≡ succeeded → ⊥
      not_done s = ground arith

  Keeps-submit_task :
      (t : Task)
      → file_at t.task_id w ≡ holds t
      → Belongs t.task_id t
      → Keeps m.host m.now w (submit_task m req t w).1
  unfolding submit_task
  Keeps-submit_task t held b =
      let digest = m.host.sha256_hex req.credential in
      let same = Keeps-refl m.host m.now w in
      Keeps-choice (not (t.initiator == req.initiator)) _ _ (λ _. same)
        (λ _.
          Keeps-choice (is_queued t.state) _ _
            (λ _.
              Keeps-choice (t.accepted_digest == "" || not (digest == t.accepted_digest)) _ _
                (λ _. same) (λ _. same))
            (λ _.
              Keeps-choice (not (is_awaiting t.state)) _ _ (λ _. same)
                (λ waiting.
                  Keeps-choice (ltb t.credential_expiry m.now) _ _
                    (λ _. Keeps-expire m c t w (held, b) (ground arith))
                    (λ in_time.
                      Keeps-choice (not (digest == t.credential_digest)) _ _ (λ _. same)
                        (λ _. Keeps-accept t held b (ground arith) in_time digest)))))

  Keeps-submit_loaded :
      (id : String)
      → WellFormed m.host w
      → Keeps m.host m.now w (submit_loaded m req (load id w) w).1
  unfolding load
  Keeps-submit_loaded id s = elim (Bool-cases (id == "" || not (id == base id))) [
    | inl e ↦ rw e (Keeps-refl m.host m.now w)
    | inr e ↦ rw e (from_file (file_at id w) refl)
  ]
    where
      from_file :
          (f : TaskFile)
          → file_at id w ≡ f
          → Keeps m.host m.now w (submit_loaded m req (read_record id f) w).1
      from_file absent e = Keeps-refl m.host m.now w
      from_file (unreadable x) e = Keeps-refl m.host m.now w
      from_file (corrupt x) e = Keeps-refl m.host m.now w
      from_file (holds t) e =
          let b = s.files id t e in
          Keeps-submit_task t (subst (λ k. file_at k w ≡ holds t) (sym b.named) e)
            (record { named = refl; no_parent = b.no_parent; signalled = b.signalled })

-- If the states are classified as documented and the store is safe, `Submit` leaves a safe store,
-- whatever it returns.
pub Safe-submit :
    (m : Manager) (req : SubmitRequest) (w : World)
    → Classifies m.host
    → Safe m.host m.now w
    → Safe m.host m.now (submit m req w).1
unfolding submit
Safe-submit m req w c s = elim (Bool-cases (not req.confirm)) [
  | inl e ↦ rw e s
  | inr e ↦ rw e (
      Safe-with_lock m.host m.now (λ v. submit_loaded m req (load req.task_id v) v) w s
        (λ s'. Safe-Keeps (Keeps-submit_loaded m c req (try_lock w).1 req.task_id s'.shape) s'))
]
