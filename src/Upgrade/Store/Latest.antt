-- ===== src/Upgrade/Store/Latest.antt =====
-- Which record `dedupe_tasks` keeps for an identifier, and in which order the records stand.
use tokenlive_standalone.Prelude.{
  ◌≤◌, String, ◌≡◌, ◌≢◌, refl, ◌∙◌, ap, Option, none, some, List, [], ◌∷◌, arith, eq_iff, ◌==◌,
  if◌then◌else◌, All, All-insert_sorted, All-sort_slice, Bool-cases, inl, inr, sort_slice,
  insert_sorted,
}
use tokenlive_standalone.Upgrade.Task.{Task}
use tokenlive_standalone.Upgrade.Active.{sort_tasks, created_before}
use tokenlive_standalone.Upgrade.Store.{place, dedupe_onto, dedupe_tasks}
use tokenlive_standalone.Upgrade.Store.Listing.{
  Distinct, Distinct-dedupe_onto, Distinct-dedupe_tasks,
}

unfoldable pub find_task : String → List Task → Option Task
find_task id [] = none
find_task id (t ∷ ts) = if t.task_id == id then some t else find_task id ts

-- The last task of the list with the identifier, `seen` if there is none.
unfoldable pub last_task : String → Option Task → List Task → Option Task
last_task id seen [] = seen
last_task id seen (t ∷ ts) = last_task id (if t.task_id == id then some t else seen) ts

find_task-place :
    (id : String) (t : Task) (xs : List Task)
    → find_task id (place t xs) ≡ (if t.task_id == id then some t else find_task id xs)
unfolding find_task place
find_task-place id t [] = refl
find_task-place id t (x ∷ xs) = ground (
  arith,
  eq_iff x.task_id t.task_id,
  eq_iff x.task_id id,
  eq_iff t.task_id id,
  find_task-place id t xs,
)

find_task-dedupe_onto :
    (id : String) (out ts : List Task)
    → find_task id (dedupe_onto out ts) ≡ last_task id (find_task id out) ts
unfolding dedupe_onto last_task
find_task-dedupe_onto id out [] = refl
find_task-dedupe_onto id out (t ∷ ts) =
    find_task-dedupe_onto id (place t out) ts
    ∙ ap (λ o. last_task id o ts) (find_task-place id t out)

find_task_absent :
    (id : String) (xs : List Task) → All (λ u. u.task_id ≢ id) xs → find_task id xs ≡ none
unfolding find_task
find_task_absent id [] a = refl
find_task_absent id (x ∷ xs) a =
    ground (arith, eq_iff x.task_id id, find_task_absent id xs a.1, a.0)

find_task-insert_sorted :
    (id : String) (x : Task) (ys : List Task)
    → All (λ u. u.task_id ≢ x.task_id) ys
    → find_task id (insert_sorted created_before x ys)
      ≡ (if x.task_id == id then some x else find_task id ys)
unfolding find_task insert_sorted
find_task-insert_sorted id x [] a = refl
find_task-insert_sorted id x (y ∷ ys) a =
    ground
      (arith, eq_iff x.task_id id, eq_iff y.task_id id, a.0, find_task-insert_sorted id x ys a.1)

find_task-sort_tasks :
    (id : String) (xs : List Task) → Distinct xs → find_task id (sort_tasks xs) ≡ find_task id xs
unfolding find_task sort_tasks sort_slice
find_task-sort_tasks id [] d = refl
find_task-sort_tasks id (x ∷ xs) d =
    find_task-insert_sorted id x (sort_slice created_before xs)
      (All-sort_slice (λ u. u.task_id ≢ x.task_id) created_before xs d.0)
    ∙ ap (λ o. if x.task_id == id then some x else o) (find_task-sort_tasks id xs d.1)

-- For every identifier `dedupe_tasks` keeps its last record of the given list.
pub find_task-dedupe_tasks :
    (id : String) (ts : List Task) → find_task id (dedupe_tasks ts) ≡ last_task id none ts
unfolding dedupe_tasks
find_task-dedupe_tasks id ts =
    find_task-sort_tasks id (dedupe_onto [] ts) (Distinct-dedupe_onto [] ts tt)
    ∙ unfold find_task in find_task-dedupe_onto id [] ts

-- The tasks stand in the order of their creation.
abbrev pub Ordered : List Task → Type 0
Ordered [] = Unit
Ordered (t ∷ ts) = All (λ u. t.created_at ≤ u.created_at) ts × Ordered ts

All-later :
    (x y : Task) (ys : List Task)
    → x.created_at ≤ y.created_at
    → All (λ u. y.created_at ≤ u.created_at) ys
    → All (λ u. x.created_at ≤ u.created_at) ys
All-later x y [] h a = tt
All-later x y (z ∷ ys) h a = (omega (arith, a.0), All-later x y ys h a.1)

Ordered-insert_sorted :
    (x : Task) (ys : List Task) → Ordered ys → Ordered (insert_sorted created_before x ys)
unfolding insert_sorted
Ordered-insert_sorted x [] o = (tt, tt)
Ordered-insert_sorted x (y ∷ ys) o = elim (Bool-cases (created_before y x)) [
  | inl e ↦ rw e (
    All-insert_sorted (λ u. y.created_at ≤ u.created_at) created_before x ys (ground arith) o.0,
    Ordered-insert_sorted x ys o.1,
  )
  | inr e ↦
      let first : x.created_at ≤ y.created_at = ground arith in
      rw e ((first, All-later x y ys first o.0), o)
]

Ordered-sort_tasks : (xs : List Task) → Ordered (sort_tasks xs)
unfolding sort_tasks sort_slice
Ordered-sort_tasks [] = tt
Ordered-sort_tasks (x ∷ xs) =
    Ordered-insert_sorted x (sort_slice created_before xs) (Ordered-sort_tasks xs)

-- The merged list is in the order of creation, names no task twice, and has for each identifier
-- the last record that the given list holds of it, be it of a directory or a copy from the index,
-- and no record of another.
pub dedupe_tasks_lem :
    (ts : List Task)
    → Ordered (dedupe_tasks ts)
      × Distinct (dedupe_tasks ts)
      × ((id : String) → find_task id (dedupe_tasks ts) ≡ last_task id none ts)
unfolding dedupe_tasks
dedupe_tasks_lem ts = (
  Ordered-sort_tasks (dedupe_onto [] ts),
  unfold dedupe_tasks in Distinct-dedupe_tasks ts,
  λ id. unfold dedupe_tasks in find_task-dedupe_tasks id ts,
)
