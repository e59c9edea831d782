-- ===== src/Upgrade/Safety/Reconcile.antt =====
-- internal/upgrade/manager.go: the loop of `reconcile`, task by task.
use tokenlive_standalone.Prelude.{
  ℕ, String, ◌≡◌, ◌≢◌, refl, sym, ◌∙◌, ap, Bool, true, false, not, ◌⊎◌, inl, inr, arith, eq_iff,
  if◌then◌else◌, ◌&&◌, ◌||◌, All, List, [], ◌∷◌, ltb, ◌*◌,
}
use tokenlive_standalone.Upgrade.Host.{
  Host, TaskState, Classifies, is_awaiting, is_queued, needs_attention, confirmation_expired,
  succeeded,
}
use tokenlive_standalone.Upgrade.Task.{Task}
use tokenlive_standalone.Upgrade.Active.{blocks}
use tokenlive_standalone.Upgrade.Disk.{holds, World, lookup_dir}
use tokenlive_standalone.Upgrade.Store.Listing.{Distinct}
use tokenlive_standalone.Upgrade.Store.{save, task_file_of}
use tokenlive_standalone.Upgrade.Store.Records.{file_at, file_at-save, save_failed}
use tokenlive_standalone.Upgrade.Manager.{
  Manager, reconcile_task, reconcile, reconcile_launch, reconcile_inflight, inflight_lost,
  launch_lost, inflight_state, worker_alive, elapsed_over, bootstrap_timeout, accepted_budget,
}
use tokenlive_standalone.Upgrade.Safety.{file_open, Belongs, Keeps, Keeps-refl, Keeps-trans}
use tokenlive_standalone.Upgrade.Safety.Saves.{Allowed, Keeps-save, Outcome-cases}
use tokenlive_standalone.Upgrade.Safety.Cleanup.{
  IsDone, Keeps-reconcile_cleanup, reconcile_cleanup_elsewhere,
}

-- A save of one task touches no other task's file, also when it fails.
pub save_elsewhere :
    (at : ℕ) (t : Task) (w : World) (id : String)
    → t.task_id ≢ id
    → file_at id (save at t w).1 ≡ file_at id w
save_elsewhere at t w id ne = elim (Outcome-cases (save at t w).0) [
  | inl (u, e) ↦ file_at-save at t w id e ∙ ground (arith, eq_iff t.task_id id)
  | inr (x, e) ↦ ap (λ d. task_file_of (lookup_dir id d)) (save_failed at t w x e).0
]

pub reconcile_task_elsewhere :
    (m : Manager) (t : Task) (w : World) (id : String)
    → t.task_id ≢ id
    → t.task_id ≢ ".."
    → file_at id (reconcile_task m true t w) ≡ file_at id w
unfolding reconcile_task reconcile_launch reconcile_inflight
reconcile_task_elsewhere m t w id ne np = ground (
  arith,
  save_elsewhere m.now (record t { state = confirmation_expired }) w id ne,
  save_elsewhere m.now (record t { launch_unknown = false }) w id ne,
  save_elsewhere m.now (launch_lost t) w id (ground arith),
  save_elsewhere m.now (inflight_lost m t) w id (ground arith),
  reconcile_cleanup_elsewhere m t w id ne np,
)

abbrev pub is_pending : TaskState → Bool
is_pending s = is_awaiting s || (is_queued s || inflight_state s)

-- A record made from a pending one, under the same name, may be saved over it if it blocks only
-- where the pending one did.
module _ (h : Host) (c : Classifies h) (now : ℕ) (w : World) (t : Task) where
  pub Allowed-change :
      (t' : Task)
      → file_at t.task_id w ≡ holds t
      → Belongs t.task_id t
      → is_pending t.state ≡ true
      → t'.task_id ≡ t.task_id
      → t'.cleanup_pending ≡ t.cleanup_pending
      → (blocks h now t' ≡ true → blocks h now t ≡ true)
      → Allowed h now w t'
  Allowed-change t' held b p name flag bl = record {
    belongs = record {
      named = refl;
      no_parent = λ e. b.no_parent (sym name ∙ e);
      signalled = λ e. absurd (never (b.signalled (sym flag ∙ e)));
    };
    was_open = rw (name, held) open_file;
    blocked = λ e. rw (name, held) (bl e);
  }
    where
      never : t.state ≡ succeeded → ⊥
      never e = ground arith

      open_file : file_open h (holds t) ≡ true
      open_file = ground arith

  pub pending_blocks : is_queued t.state || inflight_state t.state ≡ true → blocks h now t ≡ true
  pending_blocks p = ground arith

pub Keeps-if :
    {h : Host} {now : ℕ} {w : World} (b : Bool) {x y : World}
    → (b ≡ true → Keeps h now w x)
    → (b ≡ false → Keeps h now w y)
    → Keeps h now w (if b then x else y)
Keeps-if true p q = p refl
Keeps-if false p q = q refl

module _ (m : Manager) (c : Classifies m.host) (t : Task) (w : World) where
  abbrev pub Stands : Type 0
  Stands = (file_at t.task_id w ≡ holds t) × Belongs t.task_id t

  Keeps-lost :
      (t' : Task)
      → Stands
      → is_queued t.state || inflight_state t.state ≡ true
      → t'.task_id ≡ t.task_id
      → t'.cleanup_pending ≡ t.cleanup_pending
      → Keeps m.host m.now w (save m.now t' w).1
  Keeps-lost t' (held, b) p name flag = Keeps-save m.host m.now m.now w t' (
      Allowed-change m.host c m.now w t t' held b (ground arith) name flag
        (λ _. pending_blocks m.host c m.now w t p))

  Keeps-reconcile_launch :
      Stands → is_queued t.state ≡ true → Keeps m.host m.now w (reconcile_launch m t w)
  unfolding reconcile_launch
  Keeps-reconcile_launch s q =
      Keeps-if (worker_alive m t w)
        (λ _.
          Keeps-if t.launch_unknown
            (λ _. Keeps-lost (record t { launch_unknown = false }) s (ground arith) refl refl)
            (λ _. Keeps-refl m.host m.now w))
        (λ _.
          Keeps-if (not (elapsed_over m.now t.updated_at (2 * bootstrap_timeout)))
            (λ _. Keeps-refl m.host m.now w)
            (λ _. Keeps-lost (launch_lost t) s (ground arith) (ground arith) (ground arith)))

  Keeps-reconcile_inflight :
      Stands → inflight_state t.state ≡ true → Keeps m.host m.now w (reconcile_inflight m t w)
  unfolding reconcile_inflight
  Keeps-reconcile_inflight s q =
      Keeps-if (worker_alive m t w && not (elapsed_over m.now t.created_at accepted_budget))
        (λ _. Keeps-refl m.host m.now w)
        (λ _. Keeps-lost (inflight_lost m t) s (ground arith) (ground arith) (ground arith))

  pub Keeps-expire :
      Stands
      → is_awaiting t.state ≡ true
      → Keeps m.host m.now w (save m.now (record t { state = confirmation_expired }) w).1
  Keeps-expire (held, b) q =
      let t' = record t { state = confirmation_expired } in
      Keeps-save m.host m.now m.now w t'
        (Allowed-change m.host c m.now w t t' held b (ground arith) refl refl (λ e. ground arith))

  IsDone-when_signalled :
      Stands
      → true && (t.cleanup_pending && (not t.cleaned && m.host.terminal t.state)) ≡ true
      → IsDone m.host m.now t w
  IsDone-when_signalled (held, b) q =
      let flag : t.cleanup_pending ≡ true = ground arith in
      let s : t.state ≡ succeeded = b.signalled flag in (held, ground arith, ground arith)

  -- One task of the loop, if its record stands in its file.
  pub Keeps-reconcile_task : Stands → Keeps m.host m.now w (reconcile_task m true t w)
  unfolding reconcile_task
  Keeps-reconcile_task s =
      Keeps-if (is_awaiting t.state && ltb t.credential_expiry m.now)
        (λ e. Keeps-expire s (ground arith))
        (λ _. Keeps-if (is_queued t.state) (Keeps-reconcile_launch s) (λ _.
          Keeps-if (inflight_state t.state) (Keeps-reconcile_inflight s) (λ _.
            Keeps-if (true && (t.cleanup_pending && (not t.cleaned && m.host.terminal t.state)))
              (λ e. Keeps-reconcile_cleanup m t w (IsDone-when_signalled s e))
              (λ _. Keeps-refl m.host m.now w))))

-- A task that reconciliation leaves alone: a summary of the index, or a record that did not load.
abbrev pub Inert : Host → Task → Type 0
Inert h t =
    ((t.cleaned ≡ true) × (h.terminal t.state ≡ true))
    ⊎ ((t.cleanup_pending ≡ false) × (t.state ≡ needs_attention))

pub reconcile_task-Inert :
    (m : Manager)
    → Classifies m.host
    → (t : Task) (w : World) → Inert m.host t
    → reconcile_task m true t w ≡ w
unfolding reconcile_task
reconcile_task-Inert m c t w (inl (a, b)) = ground arith
reconcile_task-Inert m c t w (inr (a, b)) = ground arith

abbrev pub Listed : Host → World → Task → Type 0
Listed h w t = ((file_at t.task_id w ≡ holds t) × Belongs t.task_id t) ⊎ Inert h t

module _ (m : Manager) (c : Classifies m.host) where
  Listed-after :
      (t u : Task) (w : World)
      → u.task_id ≢ t.task_id
      → Listed m.host w t
      → Listed m.host w u
      → Listed m.host (reconcile_task m true t w) u
  Listed-after t u w ne (inl (held, b)) (inl (held', b')) =
      inl (reconcile_task_elsewhere m t w u.task_id (λ e. ne (sym e)) b.no_parent ∙ held', b')
  Listed-after t u w ne (inr i) (inl p) = inl (rw (reconcile_task-Inert m c t w i) p)
  Listed-after t u w ne l (inr i) = inr i

  Keeps-one :
      (t : Task) (w : World) → Listed m.host w t → Keeps m.host m.now w (reconcile_task m true t w)
  Keeps-one t w (inl s) = Keeps-reconcile_task m c t w s
  Keeps-one t w (inr i) = rw (reconcile_task-Inert m c t w i) (Keeps-refl m.host m.now w)

  pub Listed-later :
      (t : Task) (w : World) (us : List Task)
      → Listed m.host w t
      → All (λ u. u.task_id ≢ t.task_id) us
      → All (Listed m.host w) us
      → All (Listed m.host (reconcile_task m true t w)) us
  Listed-later t w [] a n l = tt
  Listed-later t w (u ∷ us) a n l = (Listed-after t u w n.0 a l.0, Listed-later t w us a n.1 l.1)

  -- The whole loop, over tasks of different names that were listed from this store.
  pub Keeps-reconcile :
      (ts : List Task) (w : World)
      → Distinct ts
      → All (Listed m.host w) ts
      → Keeps m.host m.now w (reconcile m true ts w)
  unfolding reconcile
  Keeps-reconcile [] w d a = Keeps-refl m.host m.now w
  Keeps-reconcile (t ∷ ts) w d a =
      let w' = reconcile_task m true t w in
      Keeps-trans (Keeps-one t w a.0) (Keeps-reconcile ts w' d.1 (Listed-later t w ts a.0 d.0 a.1))
