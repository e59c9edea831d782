-- ===== src/Upgrade/Safety.antt =====
-- What keeps two upgrades from running at once: which task files block a new task, the shape of the
-- store, and the changes that add no blocking file. The proofs are in the modules below.
use tokenlive_standalone.Prelude.{
  ℕ, String, ◌≡◌, ◌≢◌, refl, Bool, true, false, not, Option, none, some, List, [], ◌∷◌, ◌||◌, All,
  if◌then◌else◌,
}
use tokenlive_standalone.Upgrade.Host.{Host, succeeded, is_needs_attention}
use tokenlive_standalone.Upgrade.Task.{Task, TaskView}
use tokenlive_standalone.Upgrade.Active.{blocks}
use tokenlive_standalone.Upgrade.Disk.{
  TaskFile, absent, unreadable, corrupt, holds, IndexFile, no_index, bad_index, records, World,
}
use tokenlive_standalone.Upgrade.Store.Records.{file_at}
pub mod Saves
pub mod Cleanup
pub mod Sources
pub mod Reconcile
pub mod Prepare
pub mod Queries
pub mod Launch
pub mod Submit
pub mod Times
pub mod Faults
pub mod Resolves

-- A file that cannot be read is unresolved work, and so it blocks.
abbrev pub file_blocks : Host → ℕ → TaskFile → Bool
file_blocks h now absent = false
file_blocks h now (unreadable e) = true
file_blocks h now (corrupt e) = true
file_blocks h now (holds t) = blocks h now t

-- Open at every time: unresolved, or not terminal.
abbrev pub file_open : Host → TaskFile → Bool
file_open h absent = false
file_open h (unreadable e) = true
file_open h (corrupt e) = true
file_open h (holds t) = if is_needs_attention t.state then true else not (h.terminal t.state)

abbrev pub views_of : IndexFile → List TaskView
views_of no_index = []
views_of (bad_index e) = []
views_of (records vs) = vs

-- What a record promises of the directory that it stands in.
pub record Belongs (id : String) (t : Task) : Type 0 where
  pub named : t.task_id ≡ id
  pub no_parent : t.task_id ≢ ".."
  pub signalled : t.cleanup_pending ≡ true → t.state ≡ succeeded

-- A summary is of a finished task, whose directory is gone or holds a finished record.
abbrev pub IsRetired : Host → World → TaskView → Type 0
IsRetired h w v = (h.terminal v.state ≡ true) × (file_open h (file_at v.task_id w) ≡ false)

pub record WellFormed (h : Host) (w : World) : Type 0 where
  pub files : (id : String) (t : Task) → file_at id w ≡ holds t → Belongs id t
  pub retired : All (IsRetired h w) (views_of w.index)

-- At most one task file blocks a new upgrade.
abbrev pub AtMostOne : Host → ℕ → World → Type 0
AtMostOne h now w =
    (i j : String)
    → file_blocks h now (file_at i w) ≡ true
    → file_blocks h now (file_at j w) ≡ true
    → i ≡ j

-- A change after which no file blocks that did not block before, and the store is still in shape.
pub record Keeps (h : Host) (now : ℕ) (w w' : World) : Type 0 where
  pub no_new :
      (id : String)
      → file_blocks h now (file_at id w') ≡ true
      → file_blocks h now (file_at id w) ≡ true
  pub shape : WellFormed h w → WellFormed h w'

pub Keeps-refl : (h : Host) (now : ℕ) (w : World) → Keeps h now w w
Keeps-refl h now w = record { no_new = λ id b. b; shape = λ f. f }

pub Keeps-trans :
    {h : Host} {now : ℕ} {u v w : World} → Keeps h now u v → Keeps h now v w → Keeps h now u w
Keeps-trans a b = record {
  no_new = λ id x. a.no_new id (b.no_new id x);
  shape = λ f. b.shape (a.shape f);
}

pub Keeps-AtMostOne :
    {h : Host} {now : ℕ} {w w' : World} → Keeps h now w w' → AtMostOne h now w → AtMostOne h now w'
Keeps-AtMostOne k one i j bi bj = one i j (k.no_new i bi) (k.no_new j bj)
