-- ===== src/Upgrade/Worker/Proven.antt =====
-- internal/upgrade/worker.go: what a run has seen, stage by stage, when its record says
-- `succeeded`.
use tokenlive_standalone.Upgrade.Worker.Commands.{upgrade_command}
use tokenlive_standalone.Prelude.{
  [], ◌∷◌, String, ◌≡◌, refl, ◌∙◌, ap, subst, Bool, true, false, inl, inr, arith, eq_iff, Bytes,
  none, some, Option, Bool-cases, Option-cases,
}
use tokenlive_standalone.Upgrade.Host.{is_queued, downloading, installing}
use tokenlive_standalone.Upgrade.Task.{Task}
use tokenlive_standalone.Upgrade.Disk.{
  Outcome, ok, err, Dir, lookup_dir, write_file_atomic, holds, World,
}
use tokenlive_standalone.Upgrade.Store.{stamp, load, error_text, try_lock, release}
use tokenlive_standalone.Upgrade.Store.Records.{file_at}
use tokenlive_standalone.Upgrade.Safety.Saves.{Outcome-cases}
use tokenlive_standalone.Upgrade.Command.{CommandError, exited, timed_out, not_run, diagnose}
use tokenlive_standalone.Upgrade.Safety.Cleanup.{load_held}
use tokenlive_standalone.Upgrade.Worker.Run.{file_at-try_lock}
use tokenlive_standalone.Upgrade.Safety.Launch.{file_at-change}
use tokenlive_standalone.Upgrade.Worker.{
  Worker, failure, entered, enter, after_upgrade, after_snapshot, stage_snapshot, stage_body,
  snapshot_of, run_install, after_ready, write_ready, run_loaded, run_locked, run,
}
use tokenlive_standalone.Upgrade.Worker.Restarted.{
  is_done, file_done, says_done, save_undone, never, IsProven, IsProven-marked, enter_undone,
  unknown_undone, done-restart, IsRestarted,
}

module _ (k : Worker) (id : String) where
  done-upgrade :
      (t : Task) (o : Option CommandError) (w : World)
      → says_done id w ≡ false
      → says_done id (after_upgrade k t o w).1 ≡ true
      → (o ≡ none) × IsRestarted k id t
  done-upgrade t (some (timed_out p)) w n h =
      absurd (never (unknown_undone k id t.task_id "brew_upgrade" (diagnose (timed_out p)) w n) h)
  done-upgrade t (some (exited p c out)) w n h = absurd (
      never
        (save_undone k.now
          (failure t "brew_upgrade" "brew_upgrade_failed" (diagnose (exited p c out))) id w refl n)
        h)
  done-upgrade t (some (not_run e)) w n h = absurd (
      never
        (save_undone k.now (failure t "brew_upgrade" "brew_upgrade_failed" (diagnose (not_run e)))
          id w refl n)
        h)
  done-upgrade t none w n h = (refl, done-restart k id t w n h)

  tap_proven :
      (t : Task) (o : Option String)
      → stage_body k t o ≡ none
      → (text : String) × (k.tap_read ≡ some text) × (k.host.sha256_hex text ≡ t.formula_sha256)
  tap_proven t none h = absurd (cc h)
  tap_proven t (some body) h = elim (Option-cases k.tap_write) [
    | inr (x, e) ↦ absurd (ground (arith, e, h))
    | inl e ↦ elim (Option-cases k.tap_read) [
      | inl r ↦ absurd (ground (arith, e, r, h))
      | inr (text, r) ↦
          (text, r, ground (arith, e, r, h, eq_iff (k.host.sha256_hex text) t.formula_sha256))
    ]
  ]

  done-snapshot :
      (t : Task) (o : Option Bytes) (w : World)
      → says_done id w ≡ false
      → says_done id (after_snapshot k t o w).1 ≡ true
      → (o ≡ none) × (k.brew_upgrade ≡ none) × IsRestarted k id t
  done-snapshot t (some e) w n h =
      absurd
        (never (save_undone k.now (failure t "tap_snapshot" "snapshot_failed" e) id w refl n) h)
  done-snapshot t none w n h =
      let (upgraded, later) =
        done-upgrade (entered k installing "brew_upgrade" t) k.brew_upgrade
          (enter k installing "brew_upgrade" (upgrade_command k.site t.task_id ∷ []) t w)
          (enter_undone k id installing "brew_upgrade" (upgrade_command k.site t.task_id ∷ []) t w
            refl n)
          h in
      (refl, upgraded, later)

  done-install :
      (t : Task) (w : World)
      → says_done id w ≡ false
      → says_done id (run_install k t w).1 ≡ true
      → IsProven k t
  unfolding run_install stage_snapshot
  done-install t w n h =
      let t' = entered k downloading "tap_snapshot" t in
      let w' = enter k downloading "tap_snapshot" [] t w in
      let (staged, upgraded, (before, listed, stopped, started, service)) =
        done-snapshot t' (stage_snapshot k t' w') w'
          (enter_undone k id downloading "tap_snapshot" [] t w refl n) h in
      let (text, read, fixed) =
        tap_proven t' (snapshot_of (lookup_dir t'.task_id w'.dirs)) staged in
      record {
        snapshot_text = text;
        snapshot_read = read;
        snapshot_fixed = fixed;
        upgraded = upgraded;
        before = before;
        listed = listed;
        stopped = stopped;
        started = started;
        service = service;
      }

  done-ready :
      (t : Task) (o : Outcome (Unit {0})) (w : World)
      → says_done id w ≡ false
      → says_done id (after_ready k t o w).1 ≡ true
      → IsProven k (stamp k.now t)
  done-ready t (err e) w n h =
      absurd (never (unknown_undone k id t.task_id "ready" (error_text e) w n) h)
  done-ready t (ok u) w n h = done-install (stamp k.now t) w n h

  ready_undone :
      (t : Task) (w : World)
      → is_done t.state ≡ false
      → says_done id w ≡ false
      → says_done id (write_ready k t w).1 ≡ false
  unfolding write_ready
  ready_undone t w q n =
      let beat = λ (d : Dir). record d { ready_pid = some k.pid } in
      let r = write_file_atomic t.task_id beat w in
      let m : says_done id r.1 ≡ false =
        ap file_done (file_at-change t.task_id beat w id (λ d. refl)) ∙ n in
      elim (Outcome-cases r.0) [
        | inl (x, e) ↦ rw e (save_undone k.now (record t { worker_pid = k.pid }) id r.1 q m)
        | inr (x, e) ↦ rw e m
      ]

  done-queued :
      (t : Task) (w : World)
      → is_done t.state ≡ false
      → says_done id w ≡ false
      → says_done id (run_loaded k (ok (some t)) w).1 ≡ true
      → (is_queued t.state ≡ true) × IsProven k t
  done-queued t w q n h = elim (Bool-cases (is_queued t.state)) [
    | inr e ↦ absurd (never n (ground (arith, e, h)))
    | inl e ↦
        let r = write_ready k t w in
        let marked : IsProven k (record t { worker_pid = k.pid; updated_at = k.now }) =
          done-ready (record t { worker_pid = k.pid }) r.0 r.1 (ready_undone t w q n) (rw e at h) in
        (e, IsProven-marked k t k.pid k.now marked)
  ]

  done-loaded :
      (t : Task) (w : World)
      → file_at id w ≡ holds t
      → is_done t.state ≡ false
      → says_done id (run_loaded k (load id w) w).1 ≡ true
      → (is_queued t.state ≡ true) × IsProven k t
  done-loaded t w held q h =
      let n : says_done id w ≡ false = ap file_done held ∙ q in
      elim (load_held id w t held) [
        | inl e ↦ absurd (never n (subst (λ o. says_done id (run_loaded k o w).1 ≡ true) e h))
        | inr e ↦ done-queued t w q n (subst (λ o. says_done id (run_loaded k o w).1 ≡ true) e h)
      ]

-- If the file of a task that is not `succeeded` says `succeeded` after a run of its job, the task
-- was accepted, the formula in the tap has the confirmed digest, the upgrade, the stop and the
-- start reported no error, launchd answered for the process before the stop, and the service then
-- proved the target as another process.
pub run-IsProven :
    (k : Worker) (id : String) (t : Task) (w : World)
    → file_at id w ≡ holds t
    → is_done t.state ≡ false
    → says_done id (run k id w).1 ≡ true
    → (is_queued t.state ≡ true) × IsProven k t
unfolding run release
run-IsProven k id t w held q h = locked (try_lock w).0 refl h
  where
    v : World
    v = (try_lock w).1

    held' : file_at id v ≡ holds t
    held' = file_at-try_lock w id ∙ held

    n : says_done id v ≡ false
    n = ap file_done held' ∙ q

    locked :
        (o : Outcome Bool)
        → (try_lock w).0 ≡ o
        → says_done id (run_locked k id o v).1 ≡ true
        → (is_queued t.state ≡ true) × IsProven k t
    locked (err x) e g = absurd (never (unknown_undone k id id "lock" (error_text x) v n) g)
    locked (ok false) e g = absurd (never (unknown_undone k id id "lock" _ v n) g)
    locked (ok true) e g = done-loaded k id t v held' q g
