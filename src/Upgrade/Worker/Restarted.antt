-- ===== src/Upgrade/Worker/Restarted.antt =====
-- The last stages of a run: what a record that says `succeeded` proves of the restarted service.
use tokenlive_standalone.Upgrade.Worker.Commands.{list_command, stop_command, start_command}
use tokenlive_standalone.Upgrade.Disk.{Issued, polling}
use tokenlive_standalone.Prelude.{
  List, [], ◌∷◌, ℕ, String, ◌≡◌, ◌≤◌, refl, ◌∙◌, ap, Bool, true, false, inl, inr, arith, Bytes,
  none, some, Option, ◌==◌, Bool-cases,
}
use tokenlive_standalone.Upgrade.Host.{TaskState, succeeded, restarting, verifying}
use tokenlive_standalone.Upgrade.Task.{Task}
use tokenlive_standalone.Upgrade.Disk.{Outcome, ok, err, lookup_dir, TaskFile, holds, World}
use tokenlive_standalone.Upgrade.Store.{save, load, error_text, task_file_of}
use tokenlive_standalone.Upgrade.Store.Records.{file_at, file_at-save, save_failed}
use tokenlive_standalone.Upgrade.Safety.Saves.{Outcome-cases}
use tokenlive_standalone.Upgrade.Command.{CommandError, diagnose}
use tokenlive_standalone.Upgrade.Launchd.{list_pid}
use tokenlive_standalone.Upgrade.Verify.{Verdict, proven, refuted, verify}
use tokenlive_standalone.Upgrade.Verify.Proof.{Runs, Seen, verify_lem}
use tokenlive_standalone.Upgrade.Worker.{
  Worker, fail_unknown, save_unknown, unknown, entered, enter, after_verify, run_verify,
  after_start, after_stop, run_stop, after_pid, run_restart,
}

abbrev pub is_done : TaskState → Bool
is_done succeeded = true
is_done _ = false

abbrev pub file_done : TaskFile → Bool
file_done (holds t) = is_done t.state
file_done _ = false

abbrev pub says_done : String → World → Bool
says_done id w = file_done (file_at id w)

-- A record that is not `succeeded` may be saved, or fail to be.
pub save_undone :
    (now : ℕ) (t : Task) (id : String) (w : World)
    → is_done t.state ≡ false
    → says_done id w ≡ false
    → says_done id (save now t w).1 ≡ false
save_undone now t id w q n = elim (Outcome-cases (save now t w).0) [
  | inl (x, e) ↦ elim (Bool-cases (t.task_id == id)) [
    | inl y ↦ ap file_done (file_at-save now t w id e) ∙ ground (arith, y, q)
    | inr y ↦ ap file_done (file_at-save now t w id e) ∙ ground (arith, y, n)
  ]
  | inr (x, e) ↦
      ap (λ ds. file_done (task_file_of (lookup_dir id ds))) (save_failed now t w x e).0 ∙ n
]

pub never : {b : Bool} → b ≡ false → b ≡ true → ⊥
never p q = cc (p, q)

-- What the service did: a round of `verify`, which no round before it ended, saw it prove a version
-- from a keg at a port, as another process than `before`.
pub record ServiceProven (k : Worker) (version keg : String) (port before : ℕ) : Type 0 where
  pub watched : Task
  pub same_version : watched.target_version ≡ version
  pub same_keg : watched.target_keg_version ≡ keg
  pub same_port : watched.port ≡ port
  pub same_before : watched.service_pid ≡ before
  pub round : ℕ
  pub runs : (j : ℕ) → j ≤ round → Runs k.watch watched j
  pub seen : Seen k.watch watched round

-- The process before the stop: the one that was listed, or else the one on record.
abbrev pub before_stop : ℕ → Option ℕ → ℕ
before_stop recorded none = recorded
before_stop recorded (some pid) = pid

-- What every stage of a run proved of the task.
pub record IsProven (k : Worker) (t : Task) : Type 0 where
  pub snapshot_text : String
  pub snapshot_read : k.tap_read ≡ some snapshot_text
  pub snapshot_fixed : k.host.sha256_hex snapshot_text ≡ t.formula_sha256
  pub upgraded : k.brew_upgrade ≡ none
  pub before : Option ℕ
  pub listed : list_pid k.listed ≡ ok before
  pub stopped : k.brew_stop ≡ none
  pub started : k.brew_start ≡ none
  pub service :
      ServiceProven k t.target_version t.target_keg_version t.port
        (before_stop t.service_pid before)

-- The worker's own marks on the record change nothing that is proved.
pub IsProven-marked :
    (k : Worker) (t : Task) (pid now : ℕ)
    → IsProven k (record t { worker_pid = pid; updated_at = now })
    → IsProven k t
IsProven-marked k t pid now p = record {
  snapshot_text = p.snapshot_text;
  snapshot_read = p.snapshot_read;
  snapshot_fixed = p.snapshot_fixed;
  upgraded = p.upgraded;
  before = p.before;
  listed = p.listed;
  stopped = p.stopped;
  started = p.started;
  service = p.service;
}

module _ (k : Worker) (id : String) where
  pub enter_undone :
      (s : TaskState) (phase : String) (cs : List Issued) (t : Task) (w : World)
      → is_done s ≡ false
      → says_done id w ≡ false
      → says_done id (enter k s phase cs t w) ≡ false
  enter_undone s phase cs t w q n =
      save_undone k.now (record t { state = s; phase = phase }) id w q n

  pub unknown_undone :
      (name stage : String) (cause : Bytes) (w : World)
      → says_done id w ≡ false
      → says_done id (fail_unknown k name stage cause w).1 ≡ false
  unfolding fail_unknown
  unknown_undone name stage cause w n = loaded (load name w)
    where
      loaded : (o : Outcome (Option Task)) → says_done id (save_unknown k stage cause o w) ≡ false
      loaded (ok (some t)) = save_undone k.now (unknown t stage cause) id w refl n
      loaded (ok none) = n
      loaded (err e) = n

  done-verify :
      (t : Task) (w : World)
      → says_done id w ≡ false
      → says_done id (run_verify k t w).1 ≡ true
      → ServiceProven k t.target_version t.target_keg_version t.port t.service_pid
  unfolding run_verify
  done-verify t w n h = judged (verify k.watch t') refl h
    where
      t' : Task
      t' = entered k verifying "health" t

      w' : World
      w' = enter k verifying "health" (polling ∷ []) t w

      judged :
          (d : Verdict)
          → verify k.watch t' ≡ d
          → says_done id (after_verify k t' d w').1 ≡ true
          → ServiceProven k t.target_version t.target_keg_version t.port t.service_pid
      judged (refuted r) e g = absurd (
          never
            (unknown_undone t'.task_id "verify" _ w'
              (enter_undone verifying "health" (polling ∷ []) t w refl n))
            g)
      judged proven e g =
          let (i, runs, seen) = (verify_lem k.watch t').0 e in
          record {
            watched = t';
            same_version = refl;
            same_keg = refl;
            same_port = refl;
            same_before = refl;
            round = i;
            runs = runs;
            seen = seen;
          }

  done-start :
      (t : Task) (o : Option CommandError) (w : World)
      → says_done id w ≡ false
      → says_done id (after_start k t o w).1 ≡ true
      → (o ≡ none) × ServiceProven k t.target_version t.target_keg_version t.port t.service_pid
  done-start t (some e) w n h =
      absurd (never (unknown_undone t.task_id "service_start" (diagnose e) w n) h)
  done-start t none w n h = (refl, done-verify t w n h)

  done-stop :
      (t : Task) (o : Option CommandError) (w : World)
      → says_done id w ≡ false
      → says_done id (after_stop k t o w).1 ≡ true
      → (o ≡ none)
        × (k.brew_start ≡ none)
        × ServiceProven k t.target_version t.target_keg_version t.port t.service_pid
  done-stop t (some e) w n h =
      absurd (never (unknown_undone t.task_id "service_stop" (diagnose e) w n) h)
  done-stop t none w n h =
      let (started, service) =
        done-start (entered k restarting "service_start" t) k.brew_start
          (enter k restarting "service_start" (start_command k.site ∷ []) t w)
          (enter_undone restarting "service_start" (start_command k.site ∷ []) t w refl n) h in
      (refl, started, service)

  done-run_stop :
      (t : Task) (w : World)
      → says_done id w ≡ false
      → says_done id (run_stop k t w).1 ≡ true
      → (k.brew_stop ≡ none)
        × (k.brew_start ≡ none)
        × ServiceProven k t.target_version t.target_keg_version t.port t.service_pid
  done-run_stop t w n h =
      done-stop (entered k restarting "service_stop" t) k.brew_stop
        (enter k restarting "service_stop" (stop_command k.site ∷ []) t w)
        (enter_undone restarting "service_stop" (stop_command k.site ∷ []) t w refl n) h

  -- What the stages behind the installation proved.
  abbrev pub IsRestarted : Task → Type 0
  IsRestarted t =
      (before : Option ℕ) × (list_pid k.listed ≡ ok before)
      × (k.brew_stop ≡ none)
      × (k.brew_start ≡ none)
      × ServiceProven k t.target_version t.target_keg_version t.port
          (before_stop t.service_pid before)

  done-pid :
      (t : Task) (o : Outcome (Option ℕ)) (w : World)
      → list_pid k.listed ≡ o
      → says_done id w ≡ false
      → says_done id (after_pid k t o w).1 ≡ true
      → IsRestarted t
  done-pid t (err e) w l n h =
      absurd (never (unknown_undone t.task_id "service_pid" (error_text e) w n) h)
  done-pid t (ok none) w l n h =
      let (stopped, started, service) = done-run_stop t w n h in
      (none, l, stopped, started, service)
  done-pid t (ok (some pid)) w l n h =
      let (stopped, started, service) = done-run_stop (record t { service_pid = pid }) w n h in
      (some pid, l, stopped, started, service)

  pub done-restart :
      (t : Task) (w : World)
      → says_done id w ≡ false
      → says_done id (run_restart k t w).1 ≡ true
      → IsRestarted t
  unfolding run_restart
  done-restart t w n h =
      done-pid (entered k restarting "service_pid" t) (list_pid k.listed)
        (enter k restarting "service_pid" (list_command t.service_label ∷ []) t w) refl
        (enter_undone restarting "service_pid" (list_command t.service_label ∷ []) t w refl n) h
