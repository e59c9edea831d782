-- ===== src/Upgrade/Safety/Launch.antt =====
-- internal/upgrade/manager.go: the records that `launchTask` writes.
use tokenlive_standalone.Prelude.{
  ℕ, suc, String, ◌≡◌, ◌≢◌, refl, sym, ◌∙◌, ap, subst, true, false, inl, inr, arith, eq_iff, List,
  none, some, Option, Option-cases, bytes,
}
use tokenlive_standalone.Upgrade.Host.{Host, Classifies, is_queued}
use tokenlive_standalone.Upgrade.Task.{Task}
use tokenlive_standalone.Upgrade.Disk.{
  Error, Outcome, ok, err, holds, Dir, World, lookup_dir, Action, write, write_file_atomic,
  mkdir_all, ◌>>◌,
}
use tokenlive_standalone.Upgrade.Disk.Laws.{lookup_dir-set_dir}
use tokenlive_standalone.Upgrade.Store.{save, stamp, task_file_of}
use tokenlive_standalone.Upgrade.Store.Records.{
  file_at, file_at-save, save_failed, file_at-mkdir_all,
}
use tokenlive_standalone.Upgrade.Launchd.{bootstrap}
use tokenlive_standalone.Upgrade.Manager.{Manager}
use tokenlive_standalone.Upgrade.Manager.Submit.{
  submit_saved, submit_launched, Launched, launch_task, launch_prepared, launch_reported,
  launch_files, launch_failed, given, fail_if, wrapping,
}
use tokenlive_standalone.Upgrade.Safety.{Belongs, Keeps, Keeps-refl, Keeps-trans}
use tokenlive_standalone.Upgrade.Safety.Saves.{Allowed, Keeps-save, same_store, Outcome-cases}

-- The task's file holds an accepted record of it.
abbrev pub IsAccepted : String → World → Type 0
IsAccepted id w = (u : Task) × (file_at id w ≡ holds u) × (is_queued u.state ≡ true)

module _ (h : Host) (c : Classifies h) (now at : ℕ) (w : World) (t : Task) where
  Allowed-over : IsAccepted t.task_id w → Belongs t.task_id t → Allowed h now w t
  Allowed-over (u, held, q) b = record {
    belongs = b;
    was_open = rw held (ground arith);
    blocked = λ _. rw held (ground arith);
  }

  Keeps-over : IsAccepted t.task_id w → Belongs t.task_id t → Keeps h now w (save at t w).1
  Keeps-over a b = Keeps-save h now at w t (Allowed-over a b)

  -- Saving an accepted record leaves one, also when the save fails.
  pub IsAccepted-save :
      IsAccepted t.task_id w → is_queued t.state ≡ true → IsAccepted t.task_id (save at t w).1
  IsAccepted-save (u, held, q) p = elim (Outcome-cases (save at t w).0) [
    | inl (x, e) ↦ (
      stamp at t,
      file_at-save at t w t.task_id e ∙ ground (arith, eq_iff t.task_id t.task_id),
      p,
    )
    | inr (x, e) ↦
        (u, ap (λ d. task_file_of (lookup_dir t.task_id d)) (save_failed at t w x e).0 ∙ held, q)
  ]

-- The files of the launch are not task files.
pub file_at-change :
    (k : String) (f : Dir → Dir) (w : World) (j : String)
    → ((d : Dir) → (f d).task_file ≡ d.task_file)
    → file_at j (write_file_atomic k f w).1 ≡ file_at j w
unfolding write_file_atomic write
file_at-change k f w j same = elim (Option-cases (lookup_dir k w.dirs)) [
  | inl e ↦ ground arith
  | inr (d, e) ↦ ground (arith, eq_iff k j, lookup_dir-set_dir k j (f d) w.dirs, same d)
]

pub index-change :
    (k : String) (f : Dir → Dir) (w : World) → (write_file_atomic k f w).1.index ≡ w.index
unfolding write_file_atomic write
index-change k f w = ground arith

index-mkdir_all : (k : String) (w : World) → (mkdir_all k w).1.index ≡ w.index
unfolding mkdir_all write
index-mkdir_all k w = ground arith

-- An action that leaves every task file and the index as they were.
record IsQuiet (a : Action (Unit {0})) : Type 0 where
  files : (w : World) (id : String) → file_at id (a w).1 ≡ file_at id w
  index : (w : World) → (a w).1.index ≡ w.index

IsQuiet-given : (r : Outcome (Unit {0})) → IsQuiet (given r)
IsQuiet-given r = record { files = λ w id. refl; index = λ w. refl }

IsQuiet-fail_if : (o : Option Error) → IsQuiet (fail_if o)
IsQuiet-fail_if none = record { files = λ w id. refl; index = λ w. refl }
IsQuiet-fail_if (some e) = record { files = λ w id. refl; index = λ w. refl }

IsQuiet-mkdir_all : (k : String) → IsQuiet (mkdir_all k)
IsQuiet-mkdir_all k = record { files = file_at-mkdir_all k; index = index-mkdir_all k }

IsQuiet-change :
    (k : String) (f : Dir → Dir)
    → ((d : Dir) → (f d).task_file ≡ d.task_file)
    → IsQuiet (write_file_atomic k f)
IsQuiet-change k f same = record {
  files = λ w id. file_at-change k f w id same;
  index = index-change k f;
}

IsQuiet-then : (a b : Action (Unit {0})) → IsQuiet a → IsQuiet b → IsQuiet (a >> b)
IsQuiet-then a b qa qb = record {
  files = λ w id. elim (Outcome-cases (a w).0) [
    | inl (u, e) ↦ rw e (qb.files (a w).1 id ∙ qa.files w id)
    | inr (x, e) ↦ rw e (qa.files w id)
  ];
  index = λ w. elim (Outcome-cases (a w).0) [
    | inl (u, e) ↦ rw e (qb.index (a w).1 ∙ qa.index w)
    | inr (x, e) ↦ rw e (qa.index w)
  ];
}

IsQuiet-wrapping : (p : List ℕ) (a : Action (Unit {0})) → IsQuiet a → IsQuiet (wrapping p a)
IsQuiet-wrapping p a q = record { files = q.files; index = q.index }

ruleset quiet_rules =
    (IsQuiet-given, IsQuiet-fail_if, IsQuiet-mkdir_all, IsQuiet-then, IsQuiet-wrapping)

IsQuiet-launch_files : (m : Manager) (id : String) → IsQuiet (launch_files m id)
unfolding launch_files
IsQuiet-launch_files m id =
    let ex = IsQuiet-change id (λ d. record d { executor = true }) (λ d. refl) in
    let pl = IsQuiet-change id (λ d. record d { job_plist = true }) (λ d. refl) in
    IsQuiet-then _ _
      (IsQuiet-wrapping (bytes "copy executor: ") _ (
        IsQuiet-then _ _ (IsQuiet-given m.executable) (IsQuiet-then _ _ (IsQuiet-mkdir_all id) ex)))
      (IsQuiet-then _ _ (IsQuiet-fail_if m.plist_fault) pl)

Keeps-quiet :
    (h : Host) (now : ℕ) (a : Action (Unit {0})) (w : World) → IsQuiet a → Keeps h now w (a w).1
Keeps-quiet h now a w q = same_store h now w (a w).1 (q.files w) (q.index w)

-- A record under the given name whose working files are not yet marked for removal.
abbrev pub IsOf : String → Task → Type 0
IsOf id t = (t.task_id ≡ id) × (t.cleanup_pending ≡ false)

pub Belongs-IsOf : (id : String) (t : Task) → id ≢ ".." → IsOf id t → Belongs t.task_id t
Belongs-IsOf id t np (name, flag) = record {
  named = refl;
  no_parent = λ e. np (sym name ∙ e);
  signalled = λ e. absurd (cc (flag, e));
}

module _ (m : Manager) (c : Classifies m.host) (id : String) (np : id ≢ "..") where
  -- Over an accepted record of the task: the save of a record of it, and what the save leaves.
  Keeps-of :
      (t : Task) (w : World) → IsAccepted id w → IsOf id t → Keeps m.host m.now w (save m.now t w).1
  Keeps-of t w a f =
      Keeps-over m.host c m.now m.now w t (subst (λ k. IsAccepted k w) (sym f.0) a)
        (Belongs-IsOf id t np f)

  IsAccepted-of :
      (t : Task) (w : World)
      → IsAccepted id w
      → IsOf id t
      → is_queued t.state ≡ true
      → IsAccepted id (save m.now t w).1
  IsAccepted-of t w a f q =
      subst (λ k. IsAccepted k (save m.now t w).1) f.0
        (IsAccepted-save m.host c m.now m.now w t (subst (λ k. IsAccepted k w) (sym f.0) a) q)

  -- What a launch leaves: the store is as safe, the record accepted, and the task in memory its own.
  abbrev Left : World → Launched → Type 0
  Left w l = Keeps m.host m.now w l.1 × IsAccepted id l.1 × IsOf id l.0.1

  Left-reported :
      (t : Task) (o : Outcome (Unit {0})) (w : World)
      → IsAccepted id w
      → IsOf id t
      → is_queued t.state ≡ true
      → Left w (launch_reported m t o w)
  Left-reported t (ok u) w a f q = (Keeps-of t w a f, IsAccepted-of t w a f q, f)
  Left-reported t (err e) w a f q =
      let t' = record t { launch_unknown = true } in
      (Keeps-of t' w a f, IsAccepted-of t' w a f q, f)

  Left-prepared :
      (t : Task) (o : Outcome (Unit {0})) (w : World)
      → IsAccepted id w
      → IsOf id t
      → is_queued t.state ≡ true
      → Left w (launch_prepared m t o w)
  Left-prepared t (ok u) w a f q =
      Left-reported (record t { launch_attempt = suc t.launch_attempt }) (bootstrap m.bootstrap) w a
        f q
  Left-prepared t (err e) w a f q = (Keeps-refl m.host m.now w, a, f)

  Left-launch_task :
      (t : Task) (w : World)
      → IsAccepted id w
      → IsOf id t
      → is_queued t.state ≡ true
      → Left w (launch_task m t w)
  unfolding launch_task
  Left-launch_task t w (u, held, p) f q =
      let quiet = IsQuiet-launch_files m t.task_id in
      let v = (launch_files m t.task_id w).1 in
      let kept : Keeps m.host m.now w v =
        Keeps-quiet m.host m.now (launch_files m t.task_id) w quiet in
      let (k, a, g) =
        Left-prepared t (launch_files m t.task_id w).0 v (u, quiet.files w id ∙ held, p) f q in
      (Keeps-trans kept k, a, g)

  Keeps-launched :
      (w : World) (l : Launched) → Left w l → Keeps m.host m.now w (submit_launched m l).1
  Keeps-launched w ((ok u, t), v) (k, a, f) = k
  Keeps-launched w ((err e, t), v) (k, a, f) = Keeps-trans k (Keeps-of (launch_failed t e) v a f)

  -- The acceptance of a task whose file holds it, awaiting and in time, and its launch.
  pub Keeps-saved :
      (t : Task) (o : Outcome (Unit {0})) (w : World)
      → IsOf id t
      → is_queued t.state ≡ true
      → (o ≡ ok tt → IsAccepted id w)
      → Keeps m.host m.now w (submit_saved m t o w).1
  Keeps-saved t (err e) w f q a = Keeps-refl m.host m.now w
  Keeps-saved t (ok u) w f q a =
      Keeps-launched w (launch_task m (stamp m.now t) w)
        (Left-launch_task (stamp m.now t) w (a refl) f q)
