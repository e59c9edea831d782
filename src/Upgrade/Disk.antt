-- ===== src/Upgrade/Disk.antt =====
-- The files below the upgrades root that internal/upgrade shares between processes, with what the
-- job issues beside them, and actions on them. An action returns the new files beside its result, so
-- what was written before an error stays written. A write asks `faults` whether it fails, at a number
-- that grows with each write.
use mathlib.Core.Path.{◌≡◌, refl}
use tokenlive_standalone.Prelude.{
  ℕ, suc, String, Bool, true, false, Option, none, some, List, [], ◌∷◌, ◌==◌, if◌then◌else◌,
}
use tokenlive_standalone.Upgrade.Task.{Task, TaskView}
pub mod Laws

-- The sentinel errors of `upgradehost`, the refusals of the store, and any other with its text.
pub data Error : Type 0 where
  target_changed task_conflict invalid_credential confirmation_expired : Error
  not_allowed unsupported : Error
  invalid_task_id unsafe_path : Error
  corrupt_task corrupt_index : List ℕ → Error
  other : List ℕ → Error

pub data Outcome {ℓ} (A : Type ℓ) : Type ℓ where
  ok : A → Outcome A
  err : Error → Outcome A

-- task.json of one directory: its text may be unreadable, or no JSON of a task.
pub data TaskFile : Type 0 where
  absent : TaskFile
  unreadable corrupt : List ℕ → TaskFile
  holds : Task → TaskFile

pub record Dir : Type 0 where
  pub task_file : TaskFile
  pub snapshot : Option String  -- snapshot/tokenlive.rb
  pub ready_pid : Option ℕ  -- the PID in ready.json, if that file can be read
  pub executor : Bool
  pub job_plist : Bool
  pub log : List ℕ  -- worker.log

abbrev pub empty_dir : Dir
empty_dir = record {
  task_file = absent;
  snapshot = none;
  ready_pid = none;
  executor = false;
  job_plist = false;
  log = [];
}

pub data IndexFile : Type 0 where
  no_index : IndexFile
  bad_index : Error → IndexFile
  records : List TaskView → IndexFile

abbrev pub Dirs : Type 0
Dirs = List (String × Dir)

-- An external action: a supervised command with its arguments, its environment and its limit in
-- seconds; the polling of the service; or the command that replaces the process.
pub data Issued : Type 0 where
  command : List String → List String → ℕ → Issued
  polling : Issued
  replaced_by : List String → List String → Issued

pub record World : Type 0 where
  pub dirs : Dirs
  pub index : IndexFile
  pub root_abs : Bool  -- the root is an absolute path
  pub root_fault : Option Error  -- why the root cannot be listed
  pub lock_fault : Option Error  -- why task.lock cannot be opened or locked
  pub locked : Bool  -- some process holds the lock
  pub faults : ℕ → Option Error
  pub step : ℕ
  pub issued : List Issued  -- what the job has issued so far

abbrev pub Action : Type 0 → Type 0
Action A = World → Outcome A × World

abbrev pub continue : {A B : Type 0} → Outcome A → (A → Action B) → Action B
continue (ok a) f w = f a w
continue (err e) f w = (err e, w)

infixl 10 ◌>>=◌ ◌>>◌
abbrev pub ◌>>=◌ : {A B : Type 0} → Action A → (A → Action B) → Action B
◌>>=◌ m f w = let (r, w') = m w in continue r f w'

abbrev pub ◌>>◌ : {B : Type 0} → Action (Unit {0}) → Action B → Action B
m >> k = m >>= λ _. k

abbrev pub pure : {A : Type 0} → A → Action A
pure a w = (ok a, w)

abbrev pub fail : {A : Type 0} → Error → Action A
fail e w = (err e, w)

-- `_ = m`: the error is dropped and what was written stays.
abbrev pub attempt : Action (Unit {0}) → World → World
attempt m w = (m w).1

unfoldable pub lookup_dir : String → Dirs → Option Dir
lookup_dir k [] = none
lookup_dir k ((n, d) ∷ ds) = if n == k then some d else lookup_dir k ds

unfoldable pub set_dir : String → Dir → Dirs → Dirs
set_dir k d [] = (k, d) ∷ []
set_dir k d ((n, x) ∷ ds) = if n == k then (k, d) ∷ ds else (n, x) ∷ set_dir k d ds

unfoldable pub remove_dir : String → Dirs → Dirs
remove_dir k [] = []
remove_dir k ((n, x) ∷ ds) = let rest = remove_dir k ds in if n == k then rest else (n, x) ∷ rest

-- One write: it fails as `faults` says, or makes the change.
unfoldable pub write : (World → World) → Action (Unit {0})
write change w =
    let w' = record w { step = suc w.step } in
    elim (w.faults w.step) [ none ↦ (ok tt, change w') | some e ↦ (err e, w') ]

-- A file of a directory that is not there cannot be created.
abbrev pub change_dir : String → (Dir → Dir) → Option Dir → Action (Unit {0})
change_dir k f none = fail (other [])
change_dir k f (some d) = write (λ w. record w { dirs = set_dir k (f d) w.dirs })

-- `writeFileAtomic`: a temporary file, renamed over the old one, so the old text or the new is there.
unfoldable pub write_file_atomic : String → (Dir → Dir) → Action (Unit {0})
unfolding write
write_file_atomic k f w = change_dir k f (lookup_dir k w.dirs) w

abbrev pub or_empty : Option Dir → Dir
or_empty none = empty_dir
or_empty (some d) = d

-- `os.MkdirAll`: a directory that is there already is left alone.
unfoldable pub mkdir_all : String → Action (Unit {0})
unfolding write
mkdir_all k = write (λ w. record w { dirs = set_dir k (or_empty (lookup_dir k w.dirs)) w.dirs })

-- `os.RemoveAll` of the directory that the root joined with `k` names: `..` is the root's parent.
unfoldable pub remove_all : String → Action (Unit {0})
unfolding write
remove_all k = write (λ w.
    if k == ".."
    then record w { dirs = []; index = no_index }
    else record w { dirs = remove_dir k w.dirs })
