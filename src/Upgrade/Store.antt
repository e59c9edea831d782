-- ===== src/Upgrade/Store.antt =====
-- internal/upgrade/state.go and lock.go: the task store below the upgrades root, its retained index
-- and the lock that the manager and the worker share.
use tokenlive_standalone.Prelude.{
  ℕ, suc, ◌-◌, ◌+◌, String, Bool, true, false, not, ◌||◌, ◌&&◌, Option, none, some, List, [], ◌∷◌,
  ◌++◌, map, ◌==◌, ltb, leb, if◌then◌else◌, length, take, drop, sort_slice, base, bytes,
}
use tokenlive_standalone.Upgrade.Host.{needs_attention}
use tokenlive_standalone.Upgrade.Task.{Task, TaskView, blank_task, view, task_from_view}
use tokenlive_standalone.Upgrade.Active.{sort_tasks}
use tokenlive_standalone.Upgrade.Disk.{
  Error, Outcome, ok, err, invalid_task_id, unsafe_path, corrupt_task, corrupt_index, other,
  TaskFile, absent, unreadable, corrupt, holds, Dir, Dirs, IndexFile, no_index, bad_index, records,
  World, Action, ◌>>=◌, ◌>>◌, pure, fail, lookup_dir, write, write_file_atomic, mkdir_all,
  remove_all,
}
pub mod Records
pub mod Listing
pub mod Latest
pub mod Index
pub mod Log
pub mod Retired

-- `truncate`: at most `n` bytes of a text.
unfoldable pub truncate : List ℕ → ℕ → List ℕ
truncate s n = if leb (length s) n then s else take n s

-- The text of an error that can reach a task's detail. The sentinels never do.
abbrev pub error_text : Error → List ℕ
error_text invalid_task_id = bytes "invalid task id"
error_text (corrupt_task s) = s
error_text (corrupt_index s) = s
error_text (other s) = s
error_text _ = []

-- `Save` first stamps the record in memory, also when the write then fails.
abbrev pub stamp : ℕ → Task → Task
stamp now t = record t { updated_at = now }

unfoldable pub save : ℕ → Task → Action (Unit {0})
unfolding write_file_atomic
save now t = write_file_atomic t.task_id (λ d. record d { task_file = holds (stamp now t) })

abbrev pub write_snapshot : String → String → Action (Unit {0})
write_snapshot id body =
    if body == ""
    then pure tt
    else (do mkdir_all id; write_file_atomic id (λ d. record d { snapshot = some body }))

unfoldable pub create : ℕ → Task → String → Action (Unit {0})
unfolding save mkdir_all write_file_atomic
create now t body = do mkdir_all t.task_id; write_snapshot t.task_id body; save now t

-- A missing directory or file is no task; a file that cannot be read or decoded is an error.
abbrev pub read_record : String → TaskFile → Outcome (Option Task)
read_record id absent = ok none
read_record id (unreadable e) = err (other e)
read_record id (corrupt e) = err (corrupt_task (bytes "corrupt task record " ++ (bytes id ++ e)))
read_record id (holds t) = ok (some t)

abbrev pub task_file_of : Option Dir → TaskFile
task_file_of none = absent
task_file_of (some d) = d.task_file

unfoldable pub load : String → World → Outcome (Option Task)
unfolding base lookup_dir
load id w =
    if id == "" || not (id == base id)
    then err invalid_task_id
    else read_record id (task_file_of (lookup_dir id w.dirs))

abbrev pub read_index_file : IndexFile → Outcome (List TaskView)
read_index_file no_index = ok []
read_index_file (bad_index e) = err e
read_index_file (records vs) = ok vs

unfoldable pub read_index : World → Outcome (List TaskView)
read_index w = read_index_file w.index

-- A record that does not load is listed as unresolved work.
abbrev pub corrupt_entry : ℕ → String → Error → Task
corrupt_entry now id e = record (blank_task id needs_attention) {
  error_kind = "corrupt_record";
  detail = truncate (error_text e) 200;
  updated_at = now;
}

abbrev pub entry_task : ℕ → String → Outcome (Option Task) → List Task
entry_task now id (ok none) = []
entry_task now id (ok (some t)) = t ∷ []
entry_task now id (err e) = corrupt_entry now id e ∷ []

unfoldable pub entry_tasks : ℕ → World → Dirs → List Task
entry_tasks now w [] = []
entry_tasks now w ((id, d) ∷ ds) = entry_task now id (load id w) ++ entry_tasks now w ds

abbrev pub indexed_tasks : Outcome (List TaskView) → List Task
indexed_tasks (ok vs) = map task_from_view vs
indexed_tasks (err e) = []

-- `out[at] = task` for an identifier that was seen, and `append` for a new one.
unfoldable pub place : Task → List Task → List Task
place t [] = t ∷ []
place t (x ∷ xs) = if x.task_id == t.task_id then t ∷ xs else x ∷ place t xs

unfoldable pub dedupe_onto : List Task → List Task → List Task
unfolding place
dedupe_onto out [] = out
dedupe_onto out (t ∷ ts) = dedupe_onto (place t out) ts

unfoldable pub dedupe_tasks : List Task → List Task
unfolding dedupe_onto sort_tasks
dedupe_tasks ts = sort_tasks (dedupe_onto [] ts)

unfoldable pub list_tasks : ℕ → World → Outcome (List Task)
list_tasks now w = elim w.root_fault [
  | some e ↦ err e
  | none ↦ ok (dedupe_tasks (sort_tasks (indexed_tasks (read_index w) ++ entry_tasks now w w.dirs)))
]

abbrev pub max_terminal_records : ℕ
max_terminal_records = 20

-- The first record of the same task is replaced; a new task is appended.
unfoldable pub replace_view : TaskView → List TaskView → List TaskView
replace_view v [] = v ∷ []
replace_view v (x ∷ xs) = if x.task_id == v.task_id then v ∷ xs else x ∷ replace_view v xs

abbrev pub newer_view : TaskView → TaskView → Bool
newer_view a b = ltb b.updated_at a.updated_at

unfoldable pub index_with : TaskView → List TaskView → List TaskView
unfolding replace_view sort_slice
index_with v vs = take max_terminal_records (sort_slice newer_view (replace_view v vs))

abbrev pub put_index : Task → Outcome (List TaskView) → Action (Unit {0})
put_index t (err e) = fail e
put_index t (ok vs) = write (λ w. record w { index = records (index_with (view t) vs) })

unfoldable pub append_index : Task → Action (Unit {0})
append_index t w = put_index t (read_index w) w

-- The guard of `Cleanup`: `dir == s.root` holds, of a name that passes the other tests, for `/` alone.
unfoldable pub is_unsafe : World → String → Bool
unfolding base
is_unsafe w id = id == "" || (id == "." || (id == "/" || (not w.root_abs || not (id == base id))))

abbrev pub retire : Outcome (Option Task) → Action (Unit {0})
retire (err e) = fail e
retire (ok none) = pure tt
retire (ok (some t)) = append_index (record t { cleaned = true; cleanup_pending = false })

unfoldable pub cleanup : String → Action (Unit {0})
cleanup id w =
    if is_unsafe w id then (err unsafe_path, w) else (do retire (load id w); remove_all id) w

abbrev pub max_task_log_bytes : ℕ
max_task_log_bytes = 5242880

abbrev pub log_truncated_marker : List ℕ
log_truncated_marker = 10 ∷ (bytes "[truncated]" ++ (10 ∷ []))

-- The text that a log longer than `limit` is replaced by: the marker and the last bytes.
unfoldable pub capped : ℕ → List ℕ → List ℕ
capped limit log =
    let keep = limit - length log_truncated_marker in
    log_truncated_marker ++ drop (length log - keep) log

unfoldable pub cap_log_file : String → Action (Unit {0})
unfolding capped write_file_atomic lookup_dir
cap_log_file id w = elim (lookup_dir id w.dirs) [
  | none ↦ (ok tt, w)
  | some d ↦
      if leb (length d.log) max_task_log_bytes
      then (ok tt, w)
      else write_file_atomic id (λ x. record x { log = capped max_task_log_bytes d.log }) w
]

-- `TryLock`: `ok false` when another process holds the lock.
unfoldable pub try_lock : Action Bool
try_lock w = elim w.lock_fault [
  | some e ↦ (err e, w)
  | none ↦ if w.locked then (ok false, w) else (ok true, record w { locked = true })
]

unfoldable pub release : World → World
release w = record w { locked = false }
