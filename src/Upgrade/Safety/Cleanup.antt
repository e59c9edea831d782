-- ===== src/Upgrade/Safety/Cleanup.antt =====
-- internal/upgrade/state.go: retiring a finished task, whose summary enters the index and whose
-- directory goes.
use tokenlive_standalone.Prelude.{
  ℕ, String, ◌≡◌, ◌≢◌, refl, sym, ◌∙◌, ap, true, false, not, ◌==◌, ◌⊎◌, inl, inr, arith, eq_iff,
  All, All-imp, All-take, All-sort_slice, Bool-cases, List, [], ◌∷◌, Option, none, some,
  Option-cases, ◌||◌, base,
}
use tokenlive_standalone.Upgrade.Host.{Host}
use tokenlive_standalone.Upgrade.Task.{Task, TaskView, view}
use tokenlive_standalone.Upgrade.Disk.{
  Outcome, ok, err, invalid_task_id, absent, holds, World, lookup_dir, remove_all, write,
  write_file_atomic,
}
use tokenlive_standalone.Upgrade.Disk.Laws.{lookup_dir-remove_dir, lookup_dir-set_dir}
use tokenlive_standalone.Upgrade.Store.{
  load, cleanup, append_index, index_with, replace_view, newer_view, read_index, task_file_of,
  is_unsafe, retire, cap_log_file, max_terminal_records, max_task_log_bytes, capped,
}
use tokenlive_standalone.Upgrade.Store.Records.{file_at}
use tokenlive_standalone.Upgrade.Launchd.{is_gone}
use tokenlive_standalone.Upgrade.Manager.{Manager, reconcile_cleanup, task_label}
use tokenlive_standalone.Upgrade.Safety.{
  file_blocks, file_open, views_of, IsRetired, Keeps, Keeps-refl, Keeps-trans,
}
use tokenlive_standalone.Upgrade.Safety.Saves.{same_store, Outcome-cases}

-- Files that are as before or gone, and an index that is as before or gone.
shrunk :
    (h : Host) (now : ℕ) (w w' : World)
    → ((id : String) → (file_at id w' ≡ file_at id w) ⊎ (file_at id w' ≡ absent))
    → (views_of w'.index ≡ views_of w.index) ⊎ (views_of w'.index ≡ [])
    → Keeps h now w w'
shrunk h now w w' f i = record {
  no_new = λ id b. elim (f id) [ inl e ↦ rw e at b | inr e ↦ absurd (blocks_absent id e b) ];
  shape = λ s. record {
    files = λ id t p. elim (f id) [ inl e ↦ s.files id t (sym e ∙ p) | inr e ↦ absurd (cc (e, p)) ];
    retired = kept s.retired i;
  };
}
  where
    blocks_absent :
        (id : String) → file_at id w' ≡ absent → file_blocks h now (file_at id w') ≡ true → ⊥
    blocks_absent id e b = cc (rw e at b)

    one : (v : TaskView) → IsRetired h w v → IsRetired h w' v
    one v r = elim (f v.task_id) [ inl e ↦ (r.0, rw e r.1) | inr e ↦ (r.0, rw e refl) ]

    kept :
        All (IsRetired h w) (views_of w.index)
        → (views_of w'.index ≡ views_of w.index) ⊎ (views_of w'.index ≡ [])
        → All (IsRetired h w') (views_of w'.index)
    kept r (inl e) = rw e (All-imp (IsRetired h w) (IsRetired h w') (views_of w.index) one r)
    kept r (inr e) = rw e tt

pub lookup_dir-nil : (id : String) → lookup_dir id [] ≡ none
unfolding lookup_dir
lookup_dir-nil id = refl

file_at-remove_all :
    (k : String) (w : World) (id : String)
    → (file_at id (remove_all k w).1 ≡ file_at id w) ⊎ (file_at id (remove_all k w).1 ≡ absent)
unfolding remove_all write
file_at-remove_all k w id = ground (arith, lookup_dir-remove_dir k id w.dirs, lookup_dir-nil id)

remove_all_elsewhere :
    (k : String) (w : World) (id : String)
    → k ≢ id
    → k ≢ ".."
    → file_at id (remove_all k w).1 ≡ file_at id w
unfolding remove_all write
remove_all_elsewhere k w id ne np =
    ground (arith, lookup_dir-remove_dir k id w.dirs, eq_iff k id, eq_iff k "..")

index-remove_all :
    (k : String) (w : World)
    → (views_of (remove_all k w).1.index ≡ views_of w.index)
      ⊎ (views_of (remove_all k w).1.index ≡ [])
unfolding remove_all write
index-remove_all k w = ground arith

Keeps-remove_all : (h : Host) (now : ℕ) (k : String) (w : World) → Keeps h now w (remove_all k w).1
Keeps-remove_all h now k w =
    shrunk h now w (remove_all k w).1 (file_at-remove_all k w) (index-remove_all k w)

dirs-append_index : (t : Task) (w : World) → (append_index t w).1.dirs ≡ w.dirs
unfolding append_index write read_index
dirs-append_index t w = ground arith

views-append_index :
    (t : Task) (w : World)
    → (views_of (append_index t w).1.index ≡ views_of w.index)
      ⊎ (views_of (append_index t w).1.index ≡ index_with (view t) (views_of w.index))
unfolding append_index write read_index
views-append_index t w = ground arith

module _ (P : TaskView → Type 0) where
  All-replace_view :
      (v : TaskView) (vs : List TaskView) → P v → All P vs → All P (replace_view v vs)
  unfolding replace_view
  All-replace_view v [] p h = (p, tt)
  All-replace_view v (x ∷ vs) p h = elim (Bool-cases (x.task_id == v.task_id)) [
    | inl e ↦ rw e (p, h.1)
    | inr e ↦ rw e (h.0, All-replace_view v vs p h.1)
  ]

  All-index_with : (v : TaskView) (vs : List TaskView) → P v → All P vs → All P (index_with v vs)
  unfolding index_with
  All-index_with v vs p h =
      All-take P max_terminal_records _ (All-sort_slice P newer_view _ (All-replace_view v vs p h))

  All-append_index :
      (t : Task) (w : World)
      → P (view t)
      → All P (views_of w.index)
      → All P (views_of (append_index t w).1.index)
  All-append_index t w p h = elim (views-append_index t w) [
    | inl e ↦ rw e h
    | inr e ↦ rw e (All-index_with (view t) (views_of w.index) p h)
  ]

pub load_held :
    (id : String) (w : World) (t : Task)
    → file_at id w ≡ holds t
    → (load id w ≡ err invalid_task_id) ⊎ (load id w ≡ ok (some t))
unfolding load
load_held id w t e = elim (Bool-cases (id == "" || not (id == base id))) [
  | inl b ↦ inl (rw b refl)
  | inr b ↦ inr (rw (b, e) refl)
]

module _ (h : Host) (now : ℕ) (t : Task) where
  -- The record that is retired is finished, and stands in its file.
  abbrev pub IsDone : World → Type 0
  IsDone w =
      (file_at t.task_id w ≡ holds t)
      × (h.terminal t.state ≡ true)
      × (file_open h (holds t) ≡ false)

  Keeps-append_index :
      (w : World)
      → IsDone w
      → Keeps h now w (append_index (record t { cleaned = true; cleanup_pending = false }) w).1
  unfolding view
  Keeps-append_index w (held, done, closed) =
      let t' = record t { cleaned = true; cleanup_pending = false } in
      let w' = (append_index t' w).1 in
      let same : (id : String) → file_at id w' ≡ file_at id w =
        λ id. ap (λ d. task_file_of (lookup_dir id d)) (dirs-append_index t' w) in
      record {
        no_new = λ id b. rw (← same id) b;
        shape = λ s. record {
          files = λ id u e. s.files id u (sym (same id) ∙ e);
          retired =
              All-append_index (IsRetired h w') t' w (done, rw (same t.task_id, held) closed)
                (All-imp (IsRetired h w) (IsRetired h w') (views_of w.index)
                  (λ v r. (r.0, rw (same v.task_id) r.1)) s.retired);
        };
      }

  Keeps-retire : (w : World) → IsDone w → Keeps h now w (retire (load t.task_id w) w).1
  Keeps-retire w d = elim (load_held t.task_id w t d.0) [
    | inl e ↦ rw e (Keeps-refl h now w)
    | inr e ↦ rw e (Keeps-append_index w d)
  ]

  pub Keeps-cleanup : (w : World) → IsDone w → Keeps h now w (cleanup t.task_id w).1
  unfolding cleanup
  Keeps-cleanup w d = elim (Bool-cases (is_unsafe w t.task_id)) [
    | inl e ↦ rw e (Keeps-refl h now w)
    | inr e ↦
        let r = retire (load t.task_id w) w in
        rw e (elim (Outcome-cases r.0) [
          | inl (u, p) ↦
              rw p (Keeps-trans (Keeps-retire w d) (Keeps-remove_all h now t.task_id r.1))
          | inr (x, p) ↦ rw p (Keeps-retire w d)
        ])
  ]

file_at-cap_log_file :
    (k : String) (w : World) (id : String) → file_at id (cap_log_file k w).1 ≡ file_at id w
unfolding cap_log_file write_file_atomic write
file_at-cap_log_file k w id = elim (Option-cases (lookup_dir k w.dirs)) [
  | inl e ↦ ground arith
  | inr (d, e) ↦ ground (
    arith,
    eq_iff k id,
    lookup_dir-set_dir k id (record d { log = capped max_task_log_bytes d.log }) w.dirs,
  )
]

index-cap_log_file : (k : String) (w : World) → (cap_log_file k w).1.index ≡ w.index
unfolding cap_log_file write_file_atomic write
index-cap_log_file k w = ground arith

-- The cleanup of one task touches no other task's file.
cleanup_elsewhere :
    (k : String) (w : World) (id : String)
    → k ≢ id
    → k ≢ ".."
    → file_at id (cleanup k w).1 ≡ file_at id w
unfolding cleanup
cleanup_elsewhere k w id ne np = elim (Bool-cases (is_unsafe w k)) [
  | inl e ↦ rw e refl
  | inr e ↦
      let r = retire (load k w) w in
      rw e (elim (Outcome-cases r.0) [
        | inl (u, p) ↦ rw p (remove_elsewhere r.1 ∙ retire_elsewhere (load k w))
        | inr (x, p) ↦ rw p (retire_elsewhere (load k w))
      ])
]
  where
    retire_elsewhere : (o : Outcome (Option Task)) → file_at id (retire o w).1 ≡ file_at id w
    retire_elsewhere (err x) = refl
    retire_elsewhere (ok none) = refl
    retire_elsewhere (ok (some t)) =
        ap (λ d. task_file_of (lookup_dir id d)) (dirs-append_index _ w)

    remove_elsewhere : (v : World) → file_at id (remove_all k v).1 ≡ file_at id v
    remove_elsewhere v = remove_all_elsewhere k v id ne np

pub reconcile_cleanup_elsewhere :
    (m : Manager) (t : Task) (w : World) (id : String)
    → t.task_id ≢ id
    → t.task_id ≢ ".."
    → file_at id (reconcile_cleanup m t w) ≡ file_at id w
unfolding reconcile_cleanup
reconcile_cleanup_elsewhere m t w id ne np =
    elim (Bool-cases (is_gone (m.bootout (task_label t.install_id t.task_id)))) [
      | inl e ↦ rw e (
          cleanup_elsewhere t.task_id (cap_log_file t.task_id w).1 id ne np
          ∙ file_at-cap_log_file t.task_id w id)
      | inr e ↦ rw e refl
    ]

pub Keeps-reconcile_cleanup :
    (m : Manager) (t : Task) (w : World)
    → IsDone m.host m.now t w
    → Keeps m.host m.now w (reconcile_cleanup m t w)
unfolding reconcile_cleanup
Keeps-reconcile_cleanup m t w (held, done, closed) =
    elim (Bool-cases (is_gone (m.bootout (task_label t.install_id t.task_id)))) [
      | inl e ↦
          let v = (cap_log_file t.task_id w).1 in
          let capped_first : Keeps m.host m.now w v =
            same_store m.host m.now w v (file_at-cap_log_file t.task_id w)
              (index-cap_log_file t.task_id w) in
          rw e (
            Keeps-trans capped_first (
              Keeps-cleanup m.host m.now t v
                (file_at-cap_log_file t.task_id w t.task_id ∙ held, done, closed)))
      | inr e ↦ rw e (Keeps-refl m.host m.now w)
    ]
