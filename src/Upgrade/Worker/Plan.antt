-- ===== src/Upgrade/Worker/Plan.antt =====
-- internal/upgrade/worker.go: the commands of a run, against one fixed list of them.
use tokenlive_standalone.Prelude.{
  ℕ, String, Bool, true, false, Option, none, some, List, [], ◌∷◌, ◌++◌, ◌≡◌, ◌⊎◌, refl, sym, ap,
  ◌∙◌, subst, inl, inr, join, text_append, Bool-cases, arith, eq_refl,
}
use tokenlive_standalone.Upgrade.Host.{
  TaskState, downloading, installing, restarting, verifying, is_queued,
}
use tokenlive_standalone.Upgrade.Task.{Task}
use tokenlive_standalone.Upgrade.Disk.{
  Outcome, ok, err, World, holds, Issued, command, polling, replaced_by, write_file_atomic, write,
}
use tokenlive_standalone.Upgrade.Command.{CommandError, timed_out, exited, not_run}
use tokenlive_standalone.Upgrade.Launchd.{list_pid}
use tokenlive_standalone.Upgrade.Verify.{Verdict, proven, refuted, verify}
use tokenlive_standalone.Upgrade.Store.{load, save, stamp, try_lock, release}
use tokenlive_standalone.Upgrade.Store.Records.{file_at, file_at-save}
use tokenlive_standalone.Upgrade.Safety.Cleanup.{load_held}
use tokenlive_standalone.Upgrade.Manager.{task_label}
use tokenlive_standalone.Upgrade.Worker.{
  Ended, Worker, fail, failure, fail_unknown, save_unknown, unknown, entered, enter, finished,
  booted_out, after_verify, run_verify, after_start, after_stop, run_stop, after_pid, run_restart,
  after_upgrade, after_snapshot, stage_snapshot, run_install, after_ready, write_ready, run_loaded,
  run_locked, run,
}
use tokenlive_standalone.Upgrade.Worker.Commands.{
  Site, upgrade_command, list_command, stop_command, start_command,
}
use tokenlive_standalone.Upgrade.Worker.Restarted.{says_done, file_done}
use tokenlive_standalone.Upgrade.Worker.Run.{file_at-try_lock}

-- The environment of every brew command.
abbrev pub fixed_environment : Site → List String
fixed_environment s =
    text_append "PATH=" (text_append s.prefix "/bin:/usr/bin:/bin:/usr/sbin:/sbin")
    ∷ (text_append "HOME=" s.home
        ∷ (text_append "HOMEBREW_PREFIX=" s.prefix
            ∷ ("HOMEBREW_NO_AUTO_UPDATE=1"
                ∷ ("HOMEBREW_NO_INSTALL_CLEANUP=1"
                    ∷ ("HOMEBREW_NO_INSTALLED_DEPENDENTS_CHECK=1"
                        ∷ ("HOMEBREW_NO_ANALYTICS=1"
                            ∷ ("HOMEBREW_NO_ENV_HINTS=1"
                                ∷ ("HOMEBREW_NO_INSTALL_FROM_API=1" ∷ []))))))))

-- Every action of an upgrade, in order, written out; the last ones first.
abbrev last_plan : Task → List Issued
last_plan t =
    replaced_by
      ("launchctl"
        ∷ ("bootout"
            ∷ (text_append t.domain (text_append "/" (task_label t.install_id t.task_id)) ∷ [])))
      ("PATH=/usr/bin:/bin" ∷ [])
    ∷ []

abbrev start_plan : Site → Task → List Issued
start_plan s t =
    command (join s.prefix "bin/brew" ∷ ("services" ∷ ("start" ∷ ("tokenlive" ∷ []))))
      (fixed_environment s) 120
    ∷ (polling ∷ last_plan t)

abbrev stop_plan : Site → Task → List Issued
stop_plan s t =
    command
      (join s.prefix "bin/brew" ∷ ("services" ∷ ("stop" ∷ ("--max-wait=60" ∷ ("tokenlive" ∷ [])))))
      (fixed_environment s) 90
    ∷ start_plan s t

abbrev list_plan : Site → Task → List Issued
list_plan s t =
    command ("/bin/launchctl" ∷ ("list" ∷ (t.service_label ∷ []))) ("PATH=/usr/bin:/bin" ∷ []) 10
    ∷ stop_plan s t

abbrev pub plan : Site → Task → List Issued
plan s t =
    command
      (join s.prefix "bin/brew"
        ∷ ("upgrade"
            ∷ ("--formula"
                ∷ (join
                      (join
                        (join s.prefix
                          "Library/Taps/tokenlive/homebrew-tokenlive/.tokenlive-upgrade")
                        t.task_id)
                      "tokenlive.rb"
                    ∷ []))))
      (fixed_environment s) 600
    ∷ list_plan s t

-- Behind what was issued before, some of a list, and not all of it, was issued; or all of it, the run
-- reports no error, and it is recorded as done.
abbrev pub Carries : List Issued → Outcome (Unit {0}) → Bool → List Issued → List Issued → Type 0
Carries before o is_recorded after ys =
    ((some_of : List Issued) × (left : Issued) × (rest : List Issued) × (ys
        ≡ some_of ++ (left ∷ rest))
      × (after ≡ before ++ some_of))
    ⊎ ((o ≡ ok tt) × (after ≡ before ++ ys) × (is_recorded ≡ true))

-- What a run that ends this way has issued out of a list, by the record of a task.
abbrev pub CarriesOut : String → World → Ended → List Issued → Type 0
CarriesOut id w r ys = Carries w.issued r.0 (says_done id r.1) r.1.issued ys

append_none : (xs : List Issued) → xs ++ [] ≡ xs
append_none [] = refl
append_none (x ∷ xs) = ap (λ l. x ∷ l) (append_none xs)

append_one :
    (xs : List Issued) (c : Issued) (ys : List Issued) → (xs ++ (c ∷ [])) ++ ys ≡ xs ++ (c ∷ ys)
append_one [] c ys = refl
append_one (x ∷ xs) c ys = ap (λ l. x ∷ l) (append_one xs c ys)

Carries-step :
    (before : List Issued) (c : Issued) (o : Outcome (Unit {0})) (d : Bool) (after ys : List Issued)
    → Carries (before ++ (c ∷ [])) o d after ys
    → Carries before o d after (c ∷ ys)
Carries-step before c o d after ys (inl (xs, left, rest, e, q)) =
    inl (c ∷ xs, left, rest, ap (λ l. c ∷ l) e, q ∙ append_one before c xs)
Carries-step before c o d after ys (inr (f, q, r)) = inr (f, q ∙ append_one before c ys, r)

Carries-none :
    (before : List Issued) (o : Outcome (Unit {0})) (d : Bool) (after : List Issued) (left : Issued)
    (rest : List Issued)
    → after ≡ before
    → Carries before o d after (left ∷ rest)
Carries-none before o d after left rest e = inl ([], left, rest, refl, e ∙ sym (append_none before))

issued-save : (at : ℕ) (t : Task) (w : World) → (save at t w).1.issued ≡ w.issued
unfolding save write_file_atomic write
issued-save at t w = ground arith

issued-write_ready : (k : Worker) (t : Task) (w : World) → (write_ready k t w).1.issued ≡ w.issued
unfolding write_ready save write_file_atomic write
issued-write_ready k t w = ground arith

module _ (k : Worker) where
  issued-fail_unknown :
      (id stage : String) (cause : List ℕ) (w : World)
      → (fail_unknown k id stage cause w).1.issued ≡ w.issued
  unfolding fail_unknown
  issued-fail_unknown id stage cause w = loaded (load id w)
    where
      loaded : (o : Outcome (Option Task)) → (save_unknown k stage cause o w).issued ≡ w.issued
      loaded (ok (some t)) = issued-save k.now (unknown t stage cause) w
      loaded (ok none) = refl
      loaded (err e) = refl

  unknown_none :
      (id name stage : String) (cause : List ℕ) (w : World) (left : Issued) (rest : List Issued)
      → CarriesOut id w (fail_unknown k name stage cause w) (left ∷ rest)
  unknown_none id name stage cause w left rest =
      Carries-none w.issued _ _ (fail_unknown k name stage cause w).1.issued left rest
        (issued-fail_unknown name stage cause w)

  fail_none :
      (id : String) (t : Task) (stage kind : String) (cause : List ℕ) (w : World) (left : Issued)
      (rest : List Issued)
      → CarriesOut id w (fail k t stage kind cause w) (left ∷ rest)
  fail_none id t stage kind cause w left rest =
      Carries-none w.issued _ _ (fail k t stage kind cause w).1.issued left rest
        (issued-save k.now (failure t stage kind cause) w)

  entering_step :
      (id : String) (s : TaskState) (phase : String) (c : Issued) (t : Task) (w : World) (r : Ended)
      (ys : List Issued)
      → CarriesOut id (enter k s phase (c ∷ []) t w) r ys
      → CarriesOut id w r (c ∷ ys)
  entering_step id s phase c t w r ys h =
      Carries-step w.issued c r.0 (says_done id r.1) r.1.issued ys (
        subst (λ l. Carries (l ++ (c ∷ [])) r.0 (says_done id r.1) r.1.issued ys)
          (issued-save k.now (record t { state = s; phase = phase }) w) h)

  Carries-booted_out :
      (t : Task) (w : World) (r : Ended)
      → r.1.issued ≡ w.issued
      → (r.0 ≡ ok tt → says_done t.task_id r.1 ≡ true)
      → CarriesOut t.task_id w (booted_out t r) (last_plan t)
  Carries-booted_out t w (err e, v) same d = Carries-none w.issued _ _ v.issued _ [] same
  Carries-booted_out t w (ok u, v) same d = inr (refl, ap (λ l. l ++ last_plan t) same, d refl)

  Carries-verdict :
      (t : Task) (w : World) (v : Verdict)
      → CarriesOut t.task_id w (after_verify k t v w) (last_plan t)
  Carries-verdict t w (refuted reason) = unknown_none t.task_id t.task_id "verify" _ w _ []
  Carries-verdict t w proven =
      Carries-booted_out t w (save k.now (finished k t) w) (issued-save k.now (finished k t) w)
        (λ e.
          ap file_done (file_at-save k.now (finished k t) w t.task_id e)
          ∙ ground (arith, eq_refl t.task_id))

  Carries-start :
      (t : Task) (w : World) (o : Option CommandError)
      → CarriesOut t.task_id w (after_start k t o w) (polling ∷ last_plan t)
  unfolding run_verify
  Carries-start t w (some e) = unknown_none t.task_id t.task_id "service_start" _ w _ _
  Carries-start t w none =
      let t' = entered k verifying "health" t in
      let w' = enter k verifying "health" (polling ∷ []) t w in
      entering_step t.task_id verifying "health" polling t w (run_verify k t w) (last_plan t)
        (Carries-verdict t' w' (verify k.watch t'))

  Carries-stop :
      (t : Task) (w : World) (o : Option CommandError)
      → CarriesOut t.task_id w (after_stop k t o w) (start_plan k.site t)
  Carries-stop t w (some e) = unknown_none t.task_id t.task_id "service_stop" _ w _ _
  Carries-stop t w none =
      let t' = entered k restarting "service_start" t in
      let w' = enter k restarting "service_start" (start_command k.site ∷ []) t w in
      entering_step t.task_id restarting "service_start" (start_command k.site) t w
        (after_start k t' k.brew_start w') (polling ∷ last_plan t)
        (Carries-start t' w' k.brew_start)

  Carries-run_stop :
      (t : Task) (w : World) → CarriesOut t.task_id w (run_stop k t w) (stop_plan k.site t)
  Carries-run_stop t w =
      let t' = entered k restarting "service_stop" t in
      let w' = enter k restarting "service_stop" (stop_command k.site ∷ []) t w in
      entering_step t.task_id restarting "service_stop" (stop_command k.site) t w
        (after_stop k t' k.brew_stop w') (start_plan k.site t) (Carries-stop t' w' k.brew_stop)

  Carries-pid :
      (t : Task) (w : World) (o : Outcome (Option ℕ))
      → CarriesOut t.task_id w (after_pid k t o w) (stop_plan k.site t)
  Carries-pid t w (err e) = unknown_none t.task_id t.task_id "service_pid" _ w _ _
  Carries-pid t w (ok none) = Carries-run_stop t w
  Carries-pid t w (ok (some pid)) = Carries-run_stop (record t { service_pid = pid }) w

  Carries-upgrade :
      (t : Task) (w : World) (o : Option CommandError)
      → CarriesOut t.task_id w (after_upgrade k t o w) (list_plan k.site t)
  unfolding run_restart
  Carries-upgrade t w (some (timed_out p)) = unknown_none t.task_id t.task_id "brew_upgrade" _ w _ _
  Carries-upgrade t w (some (exited p c out)) =
      fail_none t.task_id t "brew_upgrade" "brew_upgrade_failed" _ w _ _
  Carries-upgrade t w (some (not_run e)) =
      fail_none t.task_id t "brew_upgrade" "brew_upgrade_failed" _ w _ _
  Carries-upgrade t w none =
      let t' = entered k restarting "service_pid" t in
      let w' = enter k restarting "service_pid" (list_command t.service_label ∷ []) t w in
      entering_step t.task_id restarting "service_pid" (list_command t.service_label) t w
        (run_restart k t w) (stop_plan k.site t) (Carries-pid t' w' (list_pid k.listed))

  Carries-snapshot :
      (t : Task) (w : World) (o : Option (List ℕ))
      → CarriesOut t.task_id w (after_snapshot k t o w) (plan k.site t)
  Carries-snapshot t w (some e) = fail_none t.task_id t "tap_snapshot" "snapshot_failed" e w _ _
  Carries-snapshot t w none =
      let t' = entered k installing "brew_upgrade" t in
      let w' = enter k installing "brew_upgrade" (upgrade_command k.site t.task_id ∷ []) t w in
      entering_step t.task_id installing "brew_upgrade" (upgrade_command k.site t.task_id) t w
        (after_upgrade k t' k.brew_upgrade w') (list_plan k.site t)
        (Carries-upgrade t' w' k.brew_upgrade)

  Carries-install :
      (t : Task) (w : World) → CarriesOut t.task_id w (run_install k t w) (plan k.site t)
  unfolding run_install
  Carries-install t w =
      let t' = entered k downloading "tap_snapshot" t in
      let w' = enter k downloading "tap_snapshot" [] t w in
      let r = run_install k t w in
      subst (λ l. Carries l r.0 (says_done t.task_id r.1) r.1.issued (plan k.site t))
        (append_none _
          ∙ issued-save k.now (record t { state = downloading; phase = "tap_snapshot" }) w)
        (Carries-snapshot t' w' (stage_snapshot k t' w'))

  Carries-ready :
      (t : Task) (o : Outcome (Unit {0})) (w : World)
      → CarriesOut t.task_id w (after_ready k t o w) (plan k.site t)
  Carries-ready t (err e) w = unknown_none t.task_id t.task_id "ready" _ w _ _
  Carries-ready t (ok u) w = Carries-install (stamp k.now t) w

  Carries-loaded :
      (t : Task) (w : World) → CarriesOut t.task_id w (run_loaded k (ok (some t)) w) (plan k.site t)
  Carries-loaded t w = elim (Bool-cases (is_queued t.state)) [
    | inr e ↦ rw e (Carries-none w.issued _ _ w.issued _ _ refl)
    | inl e ↦
        let r = write_ready k t w in
        let t' = record t { worker_pid = k.pid } in
        let x = after_ready k t' r.0 r.1 in
        rw e (
          subst (λ l. Carries l x.0 (says_done t.task_id x.1) x.1.issued (plan k.site t))
            (issued-write_ready k t w) (Carries-ready t' r.0 r.1))
  ]

  Carries-held :
      (id : String) (t : Task) (w : World)
      → file_at id w ≡ holds t
      → CarriesOut t.task_id w (run_loaded k (load id w) w) (plan k.site t)
  Carries-held id t w held = elim (load_held id w t held) [
    | inl e ↦ rw e (Carries-none w.issued _ _ w.issued _ _ refl)
    | inr e ↦ rw e (Carries-loaded t w)
  ]

  issued-try_lock : (w : World) → (try_lock w).1.issued ≡ w.issued
  unfolding try_lock
  issued-try_lock w = ground arith

  -- If the task's file holds a record, a run of its job either issues some first actions of one
  -- fixed list, and not all, or issues them all, reports no error, and leaves a record of the task
  -- that says `succeeded`. The list is written out with its arguments, environments and limits:
  -- `brew upgrade` of the formula that is staged for this very task, the query of the service's
  -- process, the stop, the start, the polling, and the removal of the job.
  pub run-CarriesOut-plan :
      (id : String) (t : Task) (w : World)
      → file_at id w ≡ holds t
      → CarriesOut t.task_id w (run k id w) (plan k.site t)
  unfolding run release
  run-CarriesOut-plan id t w held =
      let v = (try_lock w).1 in
      let r = run_locked k id (try_lock w).0 v in
      subst (λ l. Carries l r.0 (says_done t.task_id r.1) r.1.issued (plan k.site t))
        (issued-try_lock w) (locked (try_lock w).0 v (file_at-try_lock w id ∙ held))
    where
      locked :
          (o : Outcome Bool) (v : World)
          → file_at id v ≡ holds t
          → CarriesOut t.task_id v (run_locked k id o v) (plan k.site t)
      locked (err e) v h = unknown_none t.task_id id "lock" _ v _ _
      locked (ok false) v h = unknown_none t.task_id id "lock" _ v _ _
      locked (ok true) v h = Carries-held id t v h
