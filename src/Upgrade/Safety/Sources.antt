-- ===== src/Upgrade/Safety/Sources.antt =====
-- internal/upgrade/state.go: where each listed task comes from.
use mathlib.Core.List.Memᴰ
use tokenlive_standalone.Prelude.{
  ℕ, String, ◌≡◌, refl, sym, subst, ap, ◌∙◌, true, false, not, ◌==◌, inl, inr, arith, eq_iff, ◌||◌,
  All, All-mem, All-append, All-sort_slice, Bool-cases, List, [], ◌∷◌, ◌++◌, map, Memᴰ, some,
  Option-cases, base, bytes, mem-sort_slice,
}
use tokenlive_standalone.Upgrade.Host.{Host, needs_attention}
use tokenlive_standalone.Upgrade.Task.{Task, TaskView, task_from_view}
use tokenlive_standalone.Upgrade.Active.{blocks, sort_tasks, created_before}
use tokenlive_standalone.Upgrade.Disk.{
  Error, ok, err, other, corrupt_task, invalid_task_id, TaskFile, absent, unreadable, corrupt,
  holds, Dir, Dirs, World, lookup_dir, records, no_index, bad_index, IndexFile,
}
use tokenlive_standalone.Upgrade.Store.{
  load, read_record, entry_task, entry_tasks, corrupt_entry, indexed_tasks, read_index,
  read_index_file, list_tasks, dedupe_tasks,
}
use tokenlive_standalone.Upgrade.Store.Listing.{
  Distinct, Distinct-dedupe_tasks, All-dedupe_tasks, Named, Named-dedupe_tasks,
}
use tokenlive_standalone.Upgrade.Store.Records.{file_at}
use tokenlive_standalone.Upgrade.Safety.{
  file_blocks, file_open, views_of, Belongs, IsRetired, WellFormed,
}

pub data Source (h : Host) (w : World) (t : Task) : Type 0 where
  retired :
      t.cleaned ≡ true
      → h.terminal t.state ≡ true
      → file_open h (file_at t.task_id w) ≡ false
      → Source h w t
  unresolved :
      t.cleanup_pending ≡ false
      → t.state ≡ needs_attention
      → (e : Error) → load t.task_id w ≡ err e
      → Source h w t
  stored : file_at t.task_id w ≡ holds t → Belongs t.task_id t → Source h w t

module _ (h : Host) (now : ℕ) (w : World) (s : WellFormed h w) where
  Source-record :
      (id : String) (f : TaskFile)
      → file_at id w ≡ f
      → load id w ≡ read_record id f
      → All (Source h w) (entry_task now id (read_record id f))
  Source-record id absent e l = tt
  Source-record id (unreadable x) e l = (unresolved refl refl _ l, tt)
  Source-record id (corrupt x) e l = (unresolved refl refl _ l, tt)
  Source-record id (holds t) e l =
      let b = s.files id t e in
      (
        stored (subst (λ k. file_at k w ≡ holds t) (sym b.named) e)
            (record { named = refl; no_parent = b.no_parent; signalled = b.signalled }),
        tt,
      )

  Source-entry : (id : String) → All (Source h w) (entry_task now id (load id w))
  unfolding load
  Source-entry id = elim (Bool-cases (id == "" || not (id == base id))) [
    | inl e ↦ rw e (unresolved refl refl invalid_task_id (rw e refl), tt)
    | inr e ↦ rw e (Source-record id (file_at id w) refl (rw e refl))
  ]

  Source-entries : (ds : Dirs) → All (Source h w) (entry_tasks now w ds)
  unfolding entry_tasks
  Source-entries [] = tt
  Source-entries ((id, d) ∷ ds) =
      All-append (Source h w) (entry_task now id (load id w)) (entry_tasks now w ds)
        (Source-entry id) (Source-entries ds)

  Source-views :
      (vs : List TaskView) → All (IsRetired h w) vs → All (Source h w) (map task_from_view vs)
  unfolding task_from_view
  Source-views [] r = tt
  Source-views (v ∷ vs) r = (retired refl r.0.0 r.0.1, Source-views vs r.1)

  Source-index :
      (i : IndexFile)
      → All (IsRetired h w) (views_of i)
      → All (Source h w) (indexed_tasks (read_index_file i))
  Source-index no_index r = tt
  Source-index (bad_index x) r = tt
  Source-index (records vs) r = Source-views vs r

  abbrev candidates : List Task
  candidates = indexed_tasks (read_index w) ++ entry_tasks now w w.dirs

  -- What a successful listing is.
  list_tasks-eq_ok :
      (ts : List Task) → list_tasks now w ≡ ok ts → dedupe_tasks (sort_tasks candidates) ≡ ts
  unfolding list_tasks
  list_tasks-eq_ok ts e = ground arith

  pub All-Source : (ts : List Task) → list_tasks now w ≡ ok ts → All (Source h w) ts × Distinct ts
  unfolding sort_tasks read_index
  All-Source ts e = rw (← list_tasks-eq_ok ts e) (
    All-dedupe_tasks (Source h w) (sort_tasks candidates) (
        All-sort_slice (Source h w) created_before candidates (
          All-append (Source h w) (indexed_tasks (read_index w)) (entry_tasks now w w.dirs)
            (Source-index w.index s.retired) (Source-entries w.dirs))),
    Distinct-dedupe_tasks (sort_tasks candidates),
  )

  -- A blocking file has an entry under its name.
  Named-record :
      (id : String) (f : TaskFile)
      → file_at id w ≡ f
      → file_blocks h now f ≡ true
      → Named id (entry_task now id (read_record id f))
  Named-record id absent e b = absurd (cc b)
  Named-record id (unreadable x) e b =
      (corrupt_entry now id (other x), Memᴰ.head {xs = []} refl, refl)
  Named-record id (corrupt x) e b = (
    corrupt_entry now id (corrupt_task (bytes "corrupt task record " ++ (bytes id ++ x))),
    Memᴰ.head {xs = []} refl,
    refl,
  )
  Named-record id (holds t) e b = (t, Memᴰ.head refl, (s.files id t e).named)

  Named-entry :
      (id : String)
      → file_blocks h now (file_at id w) ≡ true
      → Named id (entry_task now id (load id w))
  unfolding load
  Named-entry id b = elim (Bool-cases (id == "" || not (id == base id))) [
    | inl e ↦ rw e (corrupt_entry now id invalid_task_id, Memᴰ.head refl, refl)
    | inr e ↦ rw e (Named-record id (file_at id w) refl b)
  ]

  Named-append_right : (id : String) (xs ys : List Task) → Named id ys → Named id (xs ++ ys)
  Named-append_right id xs ys (y, m, n) = (y, Memᴰ.append_right xs m, n)

  -- So has the directory that `lookup_dir` finds among the entries.
  Named-entries :
      (id : String) (ds : Dirs) (d : Dir)
      → lookup_dir id ds ≡ some d
      → Named id (entry_task now id (load id w))
      → Named id (entry_tasks now w ds)
  unfolding entry_tasks lookup_dir
  Named-entries id [] d e n = absurd (cc e)
  Named-entries id ((k, x) ∷ ds) d e n = elim (Bool-cases (k == id)) [
    | inl q ↦
        let same : k ≡ id = (eq_iff k id).0 q in
        let (y, m, r) = n in rw same (y, Memᴰ.append_left (entry_tasks now w ds) m, r)
    | inr q ↦
        Named-append_right id (entry_task now k (load k w)) (entry_tasks now w ds)
          (Named-entries id ds d (rw q at e) n)
  ]

  has_dir :
      (id : String)
      → file_blocks h now (file_at id w) ≡ true
      → (d : Dir) × (lookup_dir id w.dirs ≡ some d)
  has_dir id b = elim (Option-cases (lookup_dir id w.dirs)) [
    | inl e ↦ absurd (cc (rw e at b))
    | inr f ↦ f
  ]

  open_of_blocks : (f : TaskFile) → file_blocks h now f ≡ true → file_open h f ≡ false → ⊥
  open_of_blocks absent b c = cc
  open_of_blocks (unreadable x) b c = cc
  open_of_blocks (corrupt x) b c = cc
  open_of_blocks (holds t) b c = ground arith

  -- The listed task of a blocking file blocks.
  Source-blocks :
      (y : Task)
      → Source h w y
      → file_blocks h now (file_at y.task_id w) ≡ true
      → blocks h now y ≡ true
  Source-blocks y (retired a b c) q = absurd (open_of_blocks _ q c)
  Source-blocks y (unresolved a b e l) q = ground arith
  Source-blocks y (stored a b) q = rw a at q

  -- A task that the entries of a directory name is in the list.
  Named-listed :
      (ts : List Task) (id : String) (d : Dir)
      → list_tasks now w ≡ ok ts
      → lookup_dir id w.dirs ≡ some d
      → Named id (entry_task now id (load id w))
      → Named id ts
  unfolding sort_tasks
  Named-listed ts id d e found n =
      let (x, m, q) =
        Named-append_right id (indexed_tasks (read_index w)) (entry_tasks now w w.dirs)
          (Named-entries id w.dirs d found n) in
      subst (Named id) (list_tasks-eq_ok ts e) (
        Named-dedupe_tasks id (sort_tasks candidates)
          (x, mem-sort_slice created_before candidates m, q))

  -- In a store in shape, if the list of tasks could be made and some task file blocks, a corrupt
  -- one included, then the list has a task that blocks.
  pub blocking_listed :
      (ts : List Task) (id : String)
      → list_tasks now w ≡ ok ts
      → file_blocks h now (file_at id w) ≡ true
      → (y : Task) × Memᴰ y ts × (blocks h now y ≡ true)
  blocking_listed ts id e b =
      let (d, found) = has_dir id b in
      let (y, k, q) = Named-listed ts id d e found (Named-entry id b) in
      (
        y,
        k,
        Source-blocks y (All-mem (Source h w) ts k (All-Source ts e).0)
            (subst (λ j. file_blocks h now (file_at j w) ≡ true) (sym q) b),
      )

  -- A pending record that loads is in the list, just as its file holds it.
  pub pending_listed :
      (ts : List Task) (id : String) (t : Task)
      → list_tasks now w ≡ ok ts
      → file_at id w ≡ holds t
      → load id w ≡ ok (some t)
      → file_open h (holds t) ≡ true
      → Memᴰ t ts
  pending_listed ts id t e held loads is_open =
      let (d, found) = held_dir in
      let named = (s.files id t held).named in
      let (y, k, q) =
        Named-listed ts id d e found
          (subst (λ o. Named id (entry_task now id o)) (sym loads) (t, Memᴰ.head refl, named)) in
      subst (λ z. Memᴰ z ts) (same y q (All-mem (Source h w) ts k (All-Source ts e).0)) k
    where
      held_dir : (d : Dir) × (lookup_dir id w.dirs ≡ some d)
      held_dir = elim (Option-cases (lookup_dir id w.dirs)) [
        | inl e ↦ absurd (cc (rw e at held))
        | inr f ↦ f
      ]

      same : (y : Task) → y.task_id ≡ id → Source h w y → y ≡ t
      same y q (retired a b c) = absurd (cc (rw (q, held) at c, is_open))
      same y q (unresolved a b e l) = absurd (cc (rw (q, loads) at l))
      same y q (stored a b) = same_held (ap (λ k. file_at k w) (sym q) ∙ a)
        where
          same_held : file_at id w ≡ holds y → y ≡ t
          same_held a =
              ap (λ f. elim f [ absent ↦ t | unreadable x ↦ t | corrupt x ↦ t | holds z ↦ z ])
                (sym a ∙ held)
