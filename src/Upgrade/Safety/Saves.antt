-- ===== src/Upgrade/Safety/Saves.antt =====
-- internal/upgrade/state.go: which saves a store in shape allows.
use tokenlive_standalone.Prelude.{
  ℕ, String, ◌≡◌, refl, sym, ◌∙◌, ap, true, false, ◌==◌, ◌⊎◌, inl, inr, eq_iff, if◌then◌else◌,
  All-imp, Bool-cases,
}
use tokenlive_standalone.Upgrade.Host.{Host}
use tokenlive_standalone.Upgrade.Task.{Task, TaskView}
use tokenlive_standalone.Upgrade.Active.{blocks}
use tokenlive_standalone.Upgrade.Disk.{Error, Outcome, ok, err, holds, World, lookup_dir}
use tokenlive_standalone.Upgrade.Store.{save, stamp, task_file_of}
use tokenlive_standalone.Upgrade.Store.Records.{file_at, file_at-save, save_failed, index-save}
use tokenlive_standalone.Upgrade.Safety.{
  file_blocks, file_open, views_of, Belongs, IsRetired, WellFormed, Keeps,
}

pub Outcome-cases :
    {A : Type 0} (o : Outcome A) → ((a : A) × (o ≡ ok a)) ⊎ ((e : Error) × (o ≡ err e))
Outcome-cases (ok a) = inl (a, refl)
Outcome-cases (err e) = inr (e, refl)

-- The same files and the same index: nothing that the properties speak of has changed.
pub same_store :
    (h : Host) (now : ℕ) (w w' : World)
    → ((id : String) → file_at id w' ≡ file_at id w)
    → w'.index ≡ w.index
    → Keeps h now w w'
same_store h now w w' f i = record {
  no_new = λ id b. rw (← f id) b;
  shape = λ s. record {
    files = λ id t e. s.files id t (sym (f id) ∙ e);
    retired = rw i (
        All-imp (IsRetired h w) (IsRetired h w') (views_of w.index)
          (λ v r. (r.0, rw (f v.task_id) r.1)) s.retired);
  };
}

-- What a save must show: the record belongs to its file, that file is open, and the record blocks
-- only if the file did.
pub record Allowed (h : Host) (now : ℕ) (w : World) (t : Task) : Type 0 where
  pub belongs : Belongs t.task_id t
  pub was_open : file_open h (file_at t.task_id w) ≡ true
  pub blocked : blocks h now t ≡ true → file_blocks h now (file_at t.task_id w) ≡ true

module _ (h : Host) (now : ℕ) (w w' : World) (t : Task) (ok_save : Allowed h now w t) where
  abbrev After : Type 0
  After = (id : String) → file_at id w' ≡ (if t.task_id == id then holds t else file_at id w)

  saved_blocks :
      After
      → (id : String) → file_blocks h now (file_at id w') ≡ true
      → file_blocks h now (file_at id w) ≡ true
  saved_blocks f id b = elim (Bool-cases (t.task_id == id)) [
    | inl e ↦
        let same : t.task_id ≡ id = (eq_iff t.task_id id).0 e in
        rw (← same) (ok_save.blocked (rw (f id, e) at b))
    | inr e ↦ rw (f id, e) at b
  ]

  saved_files :
      After → WellFormed h w → (id : String) (u : Task) → file_at id w' ≡ holds u → Belongs id u
  saved_files f s id u p = elim (Bool-cases (t.task_id == id)) [
    | inl e ↦
        let same : t.task_id ≡ id = (eq_iff t.task_id id).0 e in
        let held : holds t ≡ holds u = rw (f id, e) at p in
        let it : t ≡ u = cc held in rw (← it, ← same) ok_save.belongs
    | inr e ↦ s.files id u (rw (f id, e) at p)
  ]

  saved-IsRetired : After → (v : TaskView) → IsRetired h w v → IsRetired h w' v
  saved-IsRetired f v r = elim (Bool-cases (t.task_id == v.task_id)) [
    | inl e ↦
        let same : t.task_id ≡ v.task_id = (eq_iff t.task_id v.task_id).0 e in
        absurd (open_and_closed (rw (← same) at r.1))
    | inr e ↦ (r.0, rw (f v.task_id, e) r.1)
  ]
    where
      open_and_closed : file_open h (file_at t.task_id w) ≡ false → ⊥
      open_and_closed c = cc (c, ok_save.was_open)

  saved : After → w'.index ≡ w.index → Keeps h now w w'
  saved f i = record {
    no_new = saved_blocks f;
    shape = λ s. record {
      files = saved_files f s;
      retired = rw i (
          All-imp (IsRetired h w) (IsRetired h w') (views_of w.index) (saved-IsRetired f)
            s.retired);
    };
  }

-- A save that is allowed keeps the store in shape and adds no blocking file, also when it fails.
pub Keeps-save :
    (h : Host) (now at : ℕ) (w : World) (t : Task)
    → Allowed h now w t
    → Keeps h now w (save at t w).1
Keeps-save h now at w t a = elim (Outcome-cases (save at t w).0) [
  | inl (u, e) ↦
      saved h now w (save at t w).1 (stamp at t)
        (record {
          belongs = record {
            named = a.belongs.named;
            no_parent = a.belongs.no_parent;
            signalled = a.belongs.signalled;
          };
          was_open = a.was_open;
          blocked = a.blocked;
        })
        (λ id. file_at-save at t w id e) (index-save at t w)
  | inr (x, e) ↦
      let (ds, ix) = save_failed at t w x e in
      same_store h now w (save at t w).1 (λ id. ap (λ d. task_file_of (lookup_dir id d)) ds) ix
]
