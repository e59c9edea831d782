-- ===== src/Upgrade/Store/Records.antt =====
-- What a saved or created record shows to a later `load`, and what the writes leave alone.
use tokenlive_standalone.Prelude.{
  ℕ, String, ◌≡◌, ap, false, some, ◌==◌, arith, eq_iff, if◌then◌else◌, Option-cases, inl, inr,
}
use tokenlive_standalone.Upgrade.Task.{Task}
use tokenlive_standalone.Upgrade.Disk.{
  Error, Outcome, ok, err, TaskFile, absent, holds, Dir, Dirs, World, lookup_dir, set_dir, write,
  write_file_atomic, mkdir_all, ◌>>=◌, ◌>>◌,
}
use tokenlive_standalone.Upgrade.Disk.Laws.{lookup_dir-set_dir}
use tokenlive_standalone.Upgrade.Disk
use tokenlive_standalone.Upgrade.Store.{stamp, save, create, task_file_of, write_snapshot}

-- The files of a directory after one write to another, or to its task file.
file_at-set :
    (k j : String) (d : Dir) (ds : Dirs)
    → task_file_of (lookup_dir j (set_dir k d ds))
      ≡ (if k == j then d.task_file else task_file_of (lookup_dir j ds))
file_at-set k j d ds = rw lookup_dir-set_dir (ground arith)

abbrev pub file_at : String → World → TaskFile
file_at id w = task_file_of (lookup_dir id w.dirs)

-- After a `Save` that reports no error, every task file is as before but the task's own, which
-- holds the stamped record.
pub file_at-save :
    (now : ℕ) (t : Task) (w : World) (j : String)
    → (save now t w).0 ≡ ok tt
    → file_at j (save now t w).1 ≡ (if t.task_id == j then holds (stamp now t) else file_at j w)
unfolding save write_file_atomic write
file_at-save now t w j e = elim (Option-cases (lookup_dir t.task_id w.dirs)) [
  | inl n ↦ ground arith
  | inr (d, p) ↦
      ground (arith, file_at-set t.task_id j (record d { task_file = holds (stamp now t) }) w.dirs)
]

-- A save that fails changes no directory and not the index.
pub save_failed :
    (now : ℕ) (t : Task) (w : World) (e : Error)
    → (save now t w).0 ≡ err e
    → ((save now t w).1.dirs ≡ w.dirs) × ((save now t w).1.index ≡ w.index)
unfolding save write_file_atomic write
save_failed now t w e h = ground arith

pub index-save : (now : ℕ) (t : Task) (w : World) → (save now t w).1.index ≡ w.index
unfolding save write_file_atomic write
index-save now t w = ground arith

-- The writes before the record: making the directory and the snapshot changes no task file.
pub file_at-mkdir_all :
    (k : String) (w : World) (j : String) → file_at j (mkdir_all k w).1 ≡ file_at j w
unfolding mkdir_all write
file_at-mkdir_all k w j = elim (Option-cases (lookup_dir k w.dirs)) [
  | inl n ↦
      ground
        (arith, lookup_dir-set_dir k j (Disk.or_empty (lookup_dir k w.dirs)) w.dirs, eq_iff k j)
  | inr (d, p) ↦
      ground
        (arith, lookup_dir-set_dir k j (Disk.or_empty (lookup_dir k w.dirs)) w.dirs, eq_iff k j)
]

file_at-snapshot :
    (k body : String) (w : World) (j : String)
    → file_at j (write_file_atomic k (λ d. record d { snapshot = some body }) w).1 ≡ file_at j w
unfolding write_file_atomic write
file_at-snapshot k body w j = elim (Option-cases (lookup_dir k w.dirs)) [
  | inl n ↦ ground arith
  | inr (d, p) ↦
      ground (arith, lookup_dir-set_dir k j (record d { snapshot = some body }) w.dirs, eq_iff k j)
]

file_at-write_snapshot :
    (k body : String) (w : World) (j : String) → file_at j (write_snapshot k body w).1 ≡ file_at j w
file_at-write_snapshot k body w j =
    let u = (mkdir_all k w).1 in
    ground (arith, file_at-mkdir_all k w j, file_at-snapshot k body u j)

-- A successful `create` adds the record of its own task and no other.
pub file_at-create :
    (now : ℕ) (t : Task) (body : String) (w : World) (j : String)
    → (create now t body w).0 ≡ ok tt
    → file_at j (create now t body w).1
      ≡ (if t.task_id == j then holds (stamp now t) else file_at j w)
unfolding create
file_at-create now t body w j e =
    let u = (mkdir_all t.task_id w).1 in
    let v = (write_snapshot t.task_id body u).1 in
    ground (
      arith,
      file_at-mkdir_all t.task_id w j,
      file_at-write_snapshot t.task_id body u j,
      file_at-save now t v j,
    )

-- Whatever `Create` returns, it changes the task file of no other identifier.
pub create_elsewhere :
    (now : ℕ) (t : Task) (body : String) (w : World) (j : String)
    → (t.task_id == j) ≡ false
    → file_at j (create now t body w).1 ≡ file_at j w
unfolding create save write_file_atomic write
create_elsewhere now t body w j ne =
    let u = (mkdir_all t.task_id w).1 in
    let v = (write_snapshot t.task_id body u).1 in
    elim (Option-cases (lookup_dir t.task_id v.dirs)) [
      | inl n ↦
          ground (arith, file_at-mkdir_all t.task_id w j, file_at-write_snapshot t.task_id body u j)
      | inr (d, p) ↦ ground (
        arith,
        file_at-mkdir_all t.task_id w j,
        file_at-write_snapshot t.task_id body u j,
        file_at-set t.task_id j (record d { task_file = holds (stamp now t) }) v.dirs,
      )
    ]

pub index-create :
    (now : ℕ) (t : Task) (body : String) (w : World) → (create now t body w).1.index ≡ w.index
unfolding create save write_file_atomic mkdir_all write
index-create now t body w = ground arith

-- A `Create` that fails, at whichever write, leaves every task file as it was.
pub create_failed :
    (now : ℕ) (t : Task) (body : String) (w : World) (j : String) (e : Error)
    → (create now t body w).0 ≡ err e
    → file_at j (create now t body w).1 ≡ file_at j w
unfolding create
create_failed now t body w j e h =
    let u = (mkdir_all t.task_id w).1 in
    let v = (write_snapshot t.task_id body u).1 in
    let after : (x : Error) → (save now t v).0 ≡ err x → file_at j (save now t v).1 ≡ file_at j v =
      λ x p. ap (λ d. task_file_of (lookup_dir j d)) (save_failed now t v x p).0 in
    ground
      (arith, file_at-mkdir_all t.task_id w j, file_at-write_snapshot t.task_id body u j, after e)
