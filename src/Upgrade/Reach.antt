-- ===== src/Upgrade/Reach.antt =====
-- The histories of one store: its processes' operations, in any order, as time goes on. The lock
-- file, the write faults and what launchd or the network answer are the environment's choice.
use tokenlive_standalone.Prelude.{ℕ, ◌≤◌, String, ◌≡◌, refl, sym, ap, ◌∙◌, subst, true, [], All}
use tokenlive_standalone.Upgrade.Host.{Host, Classifies}
use tokenlive_standalone.Upgrade.Task.{Task}
use tokenlive_standalone.Upgrade.Disk.{absent, holds, World, lookup_dir, no_index}
use tokenlive_standalone.Upgrade.Store.{try_lock, task_file_of}
use tokenlive_standalone.Upgrade.Store.Records.{file_at}
use tokenlive_standalone.Upgrade.Manager.{Manager, reconciled_tasks}
use tokenlive_standalone.Upgrade.Manager.Prepare.{PrepareRequest, prepare}
use tokenlive_standalone.Upgrade.Manager.Submit.{SubmitRequest, submit}
use tokenlive_standalone.Upgrade.Worker.{Worker, run}
use tokenlive_standalone.Upgrade.Worker.Safety.{is_live}
use tokenlive_standalone.Upgrade.Worker.Run.{Safe-run}
use tokenlive_standalone.Upgrade.Safety.{AtMostOne, IsRetired, file_blocks, views_of}
use tokenlive_standalone.Upgrade.Safety.Cleanup.{lookup_dir-nil}
use tokenlive_standalone.Upgrade.Safety.Saves.{same_store}
use tokenlive_standalone.Upgrade.Safety.Prepare.{
  Safe, Safe-Keeps, Safe-prepare, Keeps-reconciled_tasks, IsFresh,
}
use tokenlive_standalone.Upgrade.Safety.Submit.{Safe-submit}
use tokenlive_standalone.Upgrade.Safety.Times.{Safe-later}

pub data Step (h : Host) : ℕ → World → ℕ → World → Type 0 where
  -- Time passes; meanwhile the environment may change all but the records and the index.
  waits :
      {now later : ℕ} {w w' : World}
      → now ≤ later
      → w'.dirs ≡ w.dirs
      → w'.index ≡ w.index
      → Step h now w later w'
  -- `Capability`, `Task`, `Snapshot` and `Reconcile` change the store by their reconciliation alone.
  reconciles :
      (m : Manager) {now : ℕ} {w : World}
      → m.host ≡ h
      → m.now ≡ now
      → Step h now w now (reconciled_tasks m w).1
  prepares :
      (m : Manager) (req : PrepareRequest) {now : ℕ} {w : World}
      → m.host ≡ h
      → m.now ≡ now
      → IsFresh m (reconciled_tasks m (try_lock w).1).1
      → Step h now w now (prepare m req w).1
  submits :
      (m : Manager) (req : SubmitRequest) {now : ℕ} {w : World}
      → m.host ≡ h
      → m.now ≡ now
      → Step h now w now (submit m req w).1
  -- launchd starts the job of an accepted task.
  runs :
      (k : Worker) (id : String) (t : Task) {now : ℕ} {w : World}
      → k.host ≡ h
      → k.now ≡ now
      → file_at id w ≡ holds t
      → is_live t.state ≡ true
      → Step h now w now (run k id w).1

pub data Reach (h : Host) (start : ℕ) (w₀ : World) : ℕ → World → Type 0 where
  here : Reach h start w₀ start w₀
  next :
      {now later : ℕ} {w w' : World}
      → Reach h start w₀ now w
      → Step h now w later w'
      → Reach h start w₀ later w'

at_host :
    {h h' : Host} {now now' : ℕ} (w : World) → h ≡ h' → now ≡ now' → Safe h now w → Safe h' now' w
at_host {h' = h'} {now = now} w p q s = subst (λ n. Safe h' n w) q (subst (λ x. Safe x now w) p s)

Safe-Step :
    {h : Host} {now later : ℕ} {w w' : World}
    → Classifies h
    → Step h now w later w'
    → Safe h now w
    → Safe h later w'
Safe-Step {h} {now} {later} {w} {w'} c (waits l d i) s =
    Safe-later h now later w' l (Safe-Keeps (same_store h now w w' (λ id. rw d refl) i) s)
Safe-Step {w = w} c (reconciles m p q) s =
    let s' = at_host w (sym p) (sym q) s in
    at_host (reconciled_tasks m w).1 p q
      (Safe-Keeps (Keeps-reconciled_tasks m (subst Classifies (sym p) c) w s'.shape) s')
Safe-Step {w = w} c (prepares m req p q fresh) s =
    at_host (prepare m req w).1 p q
      (Safe-prepare m req w (subst Classifies (sym p) c) (at_host w (sym p) (sym q) s) fresh)
Safe-Step {w = w} c (submits m req p q) s =
    at_host (submit m req w).1 p q
      (Safe-submit m req w (subst Classifies (sym p) c) (at_host w (sym p) (sym q) s))
Safe-Step {w = w} c (runs k id t p q held live) s =
    at_host (run k id w).1 p q
      (Safe-run k id t w (subst Classifies (sym p) c) (at_host w (sym p) (sym q) s) held live)

-- From a safe store every history leads to a safe one.
pub Safe-Reach :
    {h : Host} {start : ℕ} {w₀ : World} {now : ℕ} {w : World}
    → Classifies h
    → Safe h start w₀
    → Reach h start w₀ now w
    → Safe h now w
Safe-Reach c s here = s
Safe-Reach c s (next r st) = Safe-Step c st (Safe-Reach c s r)

file_at-empty : (w : World) (id : String) → w.dirs ≡ [] → file_at id w ≡ absent
file_at-empty w id e = ap task_file_of (ap (lookup_dir id) e ∙ lookup_dir-nil id)

pub Safe-empty : (h : Host) (now : ℕ) (w : World) → w.dirs ≡ [] → w.index ≡ no_index → Safe h now w
Safe-empty h now w e i = record {
  shape = record {
    files = λ id t p. absurd (cc (file_at-empty w id e, p));
    retired = subst (λ x. All (IsRetired h w) (views_of x)) (sym i) tt;
  };
  one = λ j k bj bk. absurd (none_blocks j bj);
}
  where
    none_blocks : (j : String) → file_blocks h now (file_at j w) ≡ true → ⊥
    none_blocks j b = cc (subst (λ f. file_blocks h now f ≡ true) (file_at-empty w j e) b)

-- If the states are classified as documented and a store has no directory and no index, then after
-- any history of waiting, reconciling, `Prepare` with an identifier that is fresh then, `Submit`,
-- and runs of the job of a task whose file holds an accepted or started record, at most one task
-- file blocks a new upgrade.
pub AtMostOne-Reach :
    (h : Host) (start now : ℕ) (w₀ w : World)
    → Classifies h
    → w₀.dirs ≡ []
    → w₀.index ≡ no_index
    → Reach h start w₀ now w
    → AtMostOne h now w
AtMostOne-Reach h start now w₀ w c none_yet no_index_yet r =
    (Safe-Reach c (Safe-empty h start w₀ none_yet no_index_yet) r).one
