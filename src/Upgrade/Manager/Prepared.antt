-- ===== src/Upgrade/Manager/Prepared.antt =====
-- internal/upgrade/manager.go, `Prepare`: the task that a successful call leaves in the store.
use tokenlive_standalone.Prelude.{
  ◌+◌, String, ◌≡◌, refl, ◌∙◌, subst, inl, inr, ◌==◌, arith, eq_iff, eq_refl, Bool-cases,
  Option-cases,
}
use tokenlive_standalone.Upgrade.Host.{awaiting_confirmation}
use tokenlive_standalone.Upgrade.Task.{Task}
use tokenlive_standalone.Upgrade.Active.{active_task}
use tokenlive_standalone.Upgrade.Disk.{Outcome, ok, err, holds, World}
use tokenlive_standalone.Upgrade.Store.{stamp, create, try_lock, release}
use tokenlive_standalone.Upgrade.Safety.Saves.{Outcome-cases}
use tokenlive_standalone.Upgrade.Store.Records.{file_at, file_at-create}
use tokenlive_standalone.Upgrade.Manager.{Manager, Candidate, confirm_ttl, reconciled_tasks}
use tokenlive_standalone.Upgrade.Manager.Prepare.{
  PrepareRequest, Preparation, prepare, prepare_locked, prepare_candidate, prepare_secret,
  with_lock, new_task, preparation,
}

-- The store holds, under the identifier that the caller gets, a task that awaits its confirmation:
-- its target is the one asked for, its digests are those of the fetched formula and of the secret
-- that the caller gets, and its window is five minutes.
pub record IsPrepared (m : Manager) (req : PrepareRequest) (p : Preparation) (w : World)
    : Type 0 where
  pub candidate : Candidate
  pub task : Task
  pub fetched : m.fetch ≡ ok candidate
  pub stored : file_at p.task_id w ≡ holds task
  pub waiting : task.state ≡ awaiting_confirmation
  pub asked : task.target_version ≡ req.target_version
  pub fixed : task.formula_sha256 ≡ m.host.sha256_hex candidate.body
  pub secret : task.credential_digest ≡ m.host.sha256_hex p.credential
  pub window : task.credential_expiry ≡ m.now + confirm_ttl
  pub bound : task.initiator ≡ req.initiator

module _ (m : Manager) (req : PrepareRequest) (p : Preparation) where
  IsPrepared-prepare_secret :
      (c : Candidate) (r : Outcome String) (w : World)
      → m.fetch ≡ ok c
      → c.stable ≡ req.target_version
      → (prepare_secret m req c r w).0 ≡ ok p
      → IsPrepared m req p (prepare_secret m req c r w).1
  unfolding new_task
  IsPrepared-prepare_secret c (err e) w f s h = absurd (cc h)
  IsPrepared-prepare_secret c (ok credential) w f s h =
      elim (Outcome-cases (create m.now (new_task m req c credential) c.body w).0) [
        | inl (u, e) ↦
            let t = new_task m req c credential in
            let v = (create m.now t c.body w).1 in
            let q : preparation t credential ≡ p = ground (arith, e, h) in
            rw e (
              subst (λ x. IsPrepared m req x v) q
                (record {
                  candidate = c;
                  task = stamp m.now t;
                  fetched = f;
                  stored =
                      file_at-create m.now t c.body w t.task_id e
                      ∙ ground (arith, eq_refl t.task_id);
                  waiting = refl;
                  asked = s;
                  fixed = refl;
                  secret = refl;
                  window = refl;
                  bound = refl;
                }))
        | inr (x, e) ↦ absurd (ground (arith, e, h))
      ]

  IsPrepared-prepare_candidate :
      (r : Outcome Candidate) (w : World)
      → m.fetch ≡ r
      → (prepare_candidate m req r w).0 ≡ ok p
      → IsPrepared m req p (prepare_candidate m req r w).1
  IsPrepared-prepare_candidate (err e) w f h = absurd (cc h)
  IsPrepared-prepare_candidate (ok c) w f h = elim (Bool-cases (c.stable == req.target_version)) [
    | inl e ↦
        let s : c.stable ≡ req.target_version =
          ground (arith, e, eq_iff c.stable req.target_version) in
        rw e (IsPrepared-prepare_secret c m.secret w f s (ground (arith, e, h)))
    | inr e ↦ absurd (ground (arith, e, h))
  ]

  IsPrepared-prepare_locked :
      (w : World)
      → (prepare_locked m req w).0 ≡ ok p
      → IsPrepared m req p (prepare_locked m req w).1
  unfolding prepare_locked
  IsPrepared-prepare_locked w h = elim (Outcome-cases (reconciled_tasks m w).0) [
    | inl (ts, e) ↦ elim (Option-cases (active_task m.host m.now ts)) [
      | inl a ↦
          rw (e, a)
            (IsPrepared-prepare_candidate m.fetch (reconciled_tasks m w).1 refl
              (ground (arith, e, a, h)))
      | inr (t, a) ↦ absurd (ground (arith, e, a, h))
    ]
    | inr (x, e) ↦ absurd (ground (arith, e, h))
  ]

IsPrepared-released :
    (m : Manager) (req : PrepareRequest) (p : Preparation) (w : World)
    → IsPrepared m req p w
    → IsPrepared m req p (release w)
unfolding release
IsPrepared-released m req p w x = record {
  candidate = x.candidate;
  task = x.task;
  fetched = x.fetched;
  stored = x.stored;
  waiting = x.waiting;
  asked = x.asked;
  fixed = x.fixed;
  secret = x.secret;
  window = x.window;
  bound = x.bound;
}

-- If `Prepare` reports no error, the store holds, under the identifier that the caller gets, a
-- task that awaits its confirmation, for the version and the initiator of the request, with the
-- digests of the fetched formula and of the caller's secret, and five minutes to confirm.
pub prepare-IsPrepared :
    (m : Manager) (req : PrepareRequest) (p : Preparation) (w : World)
    → (prepare m req w).0 ≡ ok p
    → IsPrepared m req p (prepare m req w).1
unfolding prepare with_lock
prepare-IsPrepared m req p w h = elim (Outcome-cases (try_lock w).0) [
  | inl (got, e) ↦ elim (Bool-cases (req.target_version == "")) [
    | inl n ↦ absurd (ground (arith, n, h))
    | inr n ↦ elim (Bool-cases got) [
      | inl y ↦
          rw (n, e, y)
            (IsPrepared-released m req p (prepare_locked m req (try_lock w).1).1
              (IsPrepared-prepare_locked m req p (try_lock w).1 (ground (arith, n, e, y, h))))
      | inr y ↦ absurd (ground (arith, n, e, y, h))
    ]
  ]
  | inr (x, e) ↦ absurd (ground (arith, e, h))
]
