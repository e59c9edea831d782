-- ===== src/Upgrade/Worker/Safety.antt =====
-- internal/upgrade/worker.go: the records that the stages write.
use tokenlive_standalone.Upgrade.Worker.Commands.{
  issue, upgrade_command, list_command, stop_command, start_command,
}
use tokenlive_standalone.Upgrade.Disk.{Issued, polling}
use tokenlive_standalone.Prelude.{
  [], ◌∷◌, ℕ, String, ◌≡◌, ◌≢◌, refl, sym, ◌∙◌, ap, Bool, true, ◌⊎◌, inl, inr, arith, eq_iff, ◌||◌,
  List, none, some, Option,
}
use tokenlive_standalone.Upgrade.Host.{
  TaskState, Classifies, is_queued, downloading, installing, restarting, verifying,
}
use tokenlive_standalone.Upgrade.Task.{Task}
use tokenlive_standalone.Upgrade.Disk.{
  Dir, Outcome, ok, err, invalid_task_id, holds, World, lookup_dir, write_file_atomic,
}
use tokenlive_standalone.Upgrade.Store.{save, stamp, load, error_text, task_file_of}
use tokenlive_standalone.Upgrade.Store.Records.{file_at, file_at-save, save_failed}
use tokenlive_standalone.Upgrade.Manager.{inflight_state}
use tokenlive_standalone.Upgrade.Safety.{Belongs, Keeps, Keeps-refl, Keeps-trans}
use tokenlive_standalone.Upgrade.Safety.Saves.{Keeps-save, same_store, Outcome-cases}
use tokenlive_standalone.Upgrade.Safety.Cleanup.{load_held}
use tokenlive_standalone.Upgrade.Safety.Launch.{IsOf, Belongs-IsOf, file_at-change, index-change}
use tokenlive_standalone.Upgrade.Command.{CommandError, exited, timed_out, not_run, diagnose}
use tokenlive_standalone.Upgrade.Launchd.{list_pid}
use tokenlive_standalone.Upgrade.Verify.{Verdict, proven, refuted}
use tokenlive_standalone.Upgrade.Worker.{
  Worker, fail, failure, fail_unknown, save_unknown, unknown, entered, enter, finished, booted_out,
  after_verify, run_verify, after_start, after_stop, run_stop, after_pid, run_restart,
  after_upgrade, after_snapshot, run_install, after_ready, write_ready, run_loaded,
}

abbrev pub is_live : TaskState → Bool
is_live s = is_queued s || inflight_state s

-- The task's file holds a record that is accepted or under way.
abbrev pub IsLive : String → World → Type 0
IsLive id w = (u : Task) × (file_at id w ≡ holds u) × (is_live u.state ≡ true) × IsOf id u

module _ (k : Worker) (c : Classifies k.host) (id : String) (np : id ≢ "..") where
  Keeps-live :
      (t : Task) (w : World)
      → IsLive id w
      → t.task_id ≡ id
      → Belongs t.task_id t
      → Keeps k.host k.now w (save k.now t w).1
  Keeps-live t w (u, held, live, _) name b = Keeps-save k.host k.now k.now w t (record {
    belongs = b;
    was_open = rw (name, held) (ground arith);
    blocked = λ _. rw (name, held) (ground arith);
  })

  IsLive-save :
      (t : Task) (w : World)
      → IsLive id w
      → IsOf id t
      → is_live t.state ≡ true
      → IsLive id (save k.now t w).1
  IsLive-save t w (u, held, live, flag) f q = elim (Outcome-cases (save k.now t w).0) [
    | inl (x, e) ↦ (
      stamp k.now t,
      file_at-save k.now t w id e ∙ ground (arith, f.0, eq_iff t.task_id id),
      q,
      f,
    )
    | inr (x, e) ↦ (
      u,
      ap (λ d. task_file_of (lookup_dir id d)) (save_failed k.now t w x e).0 ∙ held,
      live,
      flag,
    )
  ]

  Keeps-issue : (cs : List Issued) (w : World) → Keeps k.host k.now w (issue cs w)
  Keeps-issue cs w = same_store k.host k.now w (issue cs w) (λ j. refl) refl

  Keeps-booted_out :
      (t : Task) (w : World) (r : Outcome (Unit {0}) × World)
      → Keeps k.host k.now w r.1
      → Keeps k.host k.now w (booted_out t r).1
  Keeps-booted_out t w (err e, v) kept = kept
  Keeps-booted_out t w (ok u, v) kept = Keeps-trans kept (Keeps-issue _ v)

  -- A stage begins: the store is as safe, and the record is live in its new state.
  entering :
      (s : TaskState) (phase : String) (cs : List Issued) (t : Task) (w : World)
      → IsLive id w
      → IsOf id t
      → is_live s ≡ true
      → Keeps k.host k.now w (enter k s phase cs t w) × IsLive id (enter k s phase cs t w)
  entering s phase cs t w l f q =
      let t' = record t { state = s; phase = phase } in
      (
        Keeps-trans (Keeps-live t' w l f.0 (Belongs-IsOf id t' np f))
            (Keeps-issue cs (save k.now t' w).1),
        IsLive-save t' w l f q,
      )

  pub Keeps-fail_unknown :
      (stage : String) (cause : List ℕ) (name : String) (w : World)
      → IsLive id w
      → name ≡ id
      → Keeps k.host k.now w (fail_unknown k name stage cause w).1
  unfolding fail_unknown
  Keeps-fail_unknown stage cause name w l e =
      rw e (found l (load id w) (λ u held. load_held id w u held))
    where
      found :
          IsLive id w
          → (o : Outcome (Option Task))
          → ((u : Task) → file_at id w ≡ holds u → (o ≡ err invalid_task_id) ⊎ (o ≡ ok (some u)))
          → Keeps k.host k.now w (save_unknown k stage cause o w)
      found (u, held, live, flag) o seen = elim (seen u held) [
        | inl x ↦ rw x (Keeps-refl k.host k.now w)
        | inr x ↦ rw x (
            Keeps-live (unknown u stage cause) w (u, held, live, flag) flag.0
              (Belongs-IsOf id (unknown u stage cause) np flag))
      ]

  Keeps-fail :
      (t : Task) (stage kind : String) (cause : List ℕ) (w : World)
      → IsLive id w
      → IsOf id t
      → Keeps k.host k.now w (fail k t stage kind cause w).1
  Keeps-fail t stage kind cause w l f =
      Keeps-live (failure t stage kind cause) w l f.0
        (Belongs-IsOf id (failure t stage kind cause) np f)

  Keeps-after_verify :
      (t : Task) (o : Verdict) (w : World)
      → IsLive id w
      → IsOf id t
      → Keeps k.host k.now w (after_verify k t o w).1
  Keeps-after_verify t (refuted reason) w l f = Keeps-fail_unknown "verify" _ t.task_id w l f.0
  Keeps-after_verify t proven w l f = Keeps-booted_out t w (save k.now (finished k t) w) (
      Keeps-live (finished k t) w l f.0
        (record { named = refl; no_parent = λ e. np (sym f.0 ∙ e); signalled = λ _. refl }))

  Keeps-run_verify :
      (t : Task) (w : World) → IsLive id w → IsOf id t → Keeps k.host k.now w (run_verify k t w).1
  unfolding run_verify
  Keeps-run_verify t w l f =
      let (kept, l') = entering verifying "health" (polling ∷ []) t w l f refl in
      Keeps-trans kept (Keeps-after_verify (entered k verifying "health" t) _ _ l' f)

  Keeps-after_start :
      (t : Task) (o : Option CommandError) (w : World)
      → IsLive id w
      → IsOf id t
      → Keeps k.host k.now w (after_start k t o w).1
  Keeps-after_start t (some e) w l f =
      Keeps-fail_unknown "service_start" (diagnose e) t.task_id w l f.0
  Keeps-after_start t none w l f = Keeps-run_verify t w l f

  Keeps-after_stop :
      (t : Task) (o : Option CommandError) (w : World)
      → IsLive id w
      → IsOf id t
      → Keeps k.host k.now w (after_stop k t o w).1
  Keeps-after_stop t (some e) w l f =
      Keeps-fail_unknown "service_stop" (diagnose e) t.task_id w l f.0
  Keeps-after_stop t none w l f =
      let (kept, l') =
        entering restarting "service_start" (start_command k.site ∷ []) t w l f refl in
      Keeps-trans kept
        (Keeps-after_start (entered k restarting "service_start" t) k.brew_start _ l' f)

  Keeps-run_stop :
      (t : Task) (w : World) → IsLive id w → IsOf id t → Keeps k.host k.now w (run_stop k t w).1
  Keeps-run_stop t w l f =
      let (kept, l') = entering restarting "service_stop" (stop_command k.site ∷ []) t w l f refl in
      Keeps-trans kept (Keeps-after_stop (entered k restarting "service_stop" t) k.brew_stop _ l' f)

  Keeps-after_pid :
      (t : Task) (o : Outcome (Option ℕ)) (w : World)
      → IsLive id w
      → IsOf id t
      → Keeps k.host k.now w (after_pid k t o w).1
  Keeps-after_pid t (err e) w l f =
      Keeps-fail_unknown "service_pid" (error_text e) t.task_id w l f.0
  Keeps-after_pid t (ok none) w l f = Keeps-run_stop t w l f
  Keeps-after_pid t (ok (some pid)) w l f = Keeps-run_stop (record t { service_pid = pid }) w l f

  Keeps-run_restart :
      (t : Task) (w : World) → IsLive id w → IsOf id t → Keeps k.host k.now w (run_restart k t w).1
  unfolding run_restart
  Keeps-run_restart t w l f =
      let (kept, l') =
        entering restarting "service_pid" (list_command t.service_label ∷ []) t w l f refl in
      Keeps-trans kept
        (Keeps-after_pid (entered k restarting "service_pid" t) (list_pid k.listed) _ l' f)

  Keeps-after_upgrade :
      (t : Task) (o : Option CommandError) (w : World)
      → IsLive id w
      → IsOf id t
      → Keeps k.host k.now w (after_upgrade k t o w).1
  Keeps-after_upgrade t (some (timed_out x)) w l f =
      Keeps-fail_unknown "brew_upgrade" (diagnose (timed_out x)) t.task_id w l f.0
  Keeps-after_upgrade t (some (exited x n out)) w l f =
      Keeps-fail t "brew_upgrade" "brew_upgrade_failed" (diagnose (exited x n out)) w l f
  Keeps-after_upgrade t (some (not_run x)) w l f =
      Keeps-fail t "brew_upgrade" "brew_upgrade_failed" (diagnose (not_run x)) w l f
  Keeps-after_upgrade t none w l f = Keeps-run_restart t w l f

  Keeps-after_snapshot :
      (t : Task) (o : Option (List ℕ)) (w : World)
      → IsLive id w
      → IsOf id t
      → Keeps k.host k.now w (after_snapshot k t o w).1
  Keeps-after_snapshot t (some e) w l f = Keeps-fail t "tap_snapshot" "snapshot_failed" e w l f
  Keeps-after_snapshot t none w l f =
      let (kept, l') =
        entering installing "brew_upgrade" (upgrade_command k.site t.task_id ∷ []) t w l f refl in
      Keeps-trans kept
        (Keeps-after_upgrade (entered k installing "brew_upgrade" t) k.brew_upgrade _ l' f)

  Keeps-run_install :
      (t : Task) (w : World) → IsLive id w → IsOf id t → Keeps k.host k.now w (run_install k t w).1
  unfolding run_install
  Keeps-run_install t w l f =
      let (kept, l') = entering downloading "tap_snapshot" [] t w l f refl in
      Keeps-trans kept (Keeps-after_snapshot (entered k downloading "tap_snapshot" t) _ _ l' f)

  Keeps-after_ready :
      (t : Task) (o : Outcome (Unit {0})) (w : World)
      → IsLive id w
      → IsOf id t
      → Keeps k.host k.now w (after_ready k t o w).1
  Keeps-after_ready t (err e) w l f = Keeps-fail_unknown "ready" (error_text e) t.task_id w l f.0
  Keeps-after_ready t (ok u) w l f = Keeps-run_install (stamp k.now t) w l f

  Keeps-write_ready :
      (t : Task) (w : World)
      → IsLive id w
      → IsOf id t
      → is_live t.state ≡ true
      → Keeps k.host k.now w (write_ready k t w).1 × IsLive id (write_ready k t w).1
  unfolding write_ready
  Keeps-write_ready t w (u, held, live, g) f q =
      let beat = λ (d : Dir). record d { ready_pid = some k.pid } in
      let r = write_file_atomic t.task_id beat w in
      let files : (j : String) → file_at j r.1 ≡ file_at j w =
        λ j. file_at-change t.task_id beat w j (λ d. refl) in
      let kept : Keeps k.host k.now w r.1 =
        same_store k.host k.now w r.1 files (index-change t.task_id beat w) in
      let l : IsLive id r.1 = (u, files id ∙ held, live, g) in
      let t' = record t { worker_pid = k.pid } in
      elim (Outcome-cases r.0) [
        | inl (x, e) ↦ rw e (
          Keeps-trans kept (Keeps-live t' r.1 l f.0 (Belongs-IsOf id t' np f)),
          IsLive-save t' r.1 l f q,
        )
        | inr (x, e) ↦ rw e (kept, l)
      ]

  -- What a run does once its record is loaded and queued.
  pub Keeps-queued :
      (t : Task) (w : World)
      → file_at id w ≡ holds t
      → is_queued t.state ≡ true
      → IsOf id t
      → Keeps k.host k.now w (run_loaded k (ok (some t)) w).1
  Keeps-queued t w held q f =
      let r = write_ready k t w in
      let (kept, l) = Keeps-write_ready t w (t, held, ground arith, f) f (ground arith) in
      rw q (Keeps-trans kept (Keeps-after_ready (record t { worker_pid = k.pid }) r.0 r.1 l f))
