-- ===== src/Upgrade/Safety/Queries.antt =====
-- internal/upgrade/manager.go: what `Capability` promises, and which task `Task` shows.
use tokenlive_standalone.Prelude.{
  String, ◌≡◌, ◌≢◌, ap, ◌∙◌, true, false, inl, inr, some, List, [], ◌∷◌, Memᴰ, ◌==◌, arith, eq_iff,
  Bool-cases, Option-cases,
}
use tokenlive_standalone.Upgrade.Host.{Classifies}
use tokenlive_standalone.Upgrade.Task.{Task, TaskView, view}
use tokenlive_standalone.Upgrade.Active.{active_task}
use tokenlive_standalone.Upgrade.Disk.{ok, World}
use tokenlive_standalone.Upgrade.Store.Records.{file_at}
use tokenlive_standalone.Upgrade.Manager.{Manager, reconciled_tasks}
use tokenlive_standalone.Upgrade.Manager.Queries.{Capability, capability, task, task_named}
use tokenlive_standalone.Upgrade.Safety.{WellFormed, file_blocks}
use tokenlive_standalone.Upgrade.Safety.Saves.{Outcome-cases}
use tokenlive_standalone.Upgrade.Safety.Prepare.{
  none_block, reconciled_tasks-eq_ok, Keeps-reconciled_tasks,
}

-- If the states are classified as documented, the store is in shape and `Capability` allows an
-- upgrade, no task file of the store that it leaves blocks one.
pub capability_lem :
    (m : Manager) (w : World) (answer : Capability) (id : String)
    → Classifies m.host
    → WellFormed m.host w
    → (capability m w).0 ≡ ok answer
    → answer.allowed ≡ true
    → file_blocks m.host m.now (file_at id (capability m w).1) ≡ false
unfolding capability
capability_lem m w answer id c s h allowed = elim (Outcome-cases (reconciled_tasks m w).0) [
  | inr (x, e) ↦ absurd (ground (arith, e, h))
  | inl (ts, e) ↦
      let v = (reconciled_tasks m w).1 in
      elim (Option-cases (active_task m.host m.now ts)) [
        | inr (t, a) ↦ absurd (ground (arith, e, a, h, allowed))
        | inl a ↦ elim (Bool-cases (file_blocks m.host m.now (file_at id v))) [
          | inl b ↦ absurd (
              none_block m.host m.now v ts ((Keeps-reconciled_tasks m c w s).shape s)
                (reconciled_tasks-eq_ok m w ts e) a id b)
          | inr b ↦ rw e b
        ]
      ]
]

named :
    (id : String) (ts : List Task) (t : Task)
    → task_named id ts ≡ some t
    → Memᴰ t ts × (t.task_id ≡ id)
unfolding task_named
named id [] t e = absurd (cc e)
named id (x ∷ ts) t e = elim (Bool-cases (x.task_id == id)) [
  | inl y ↦ (Memᴰ.head (ground (arith, y, e)), ground (arith, y, e, eq_iff x.task_id id))
  | inr y ↦ let (m, n) = named id ts t (ground (arith, y, e)) in (Memᴰ.tail m, n)
]

-- If `Task` is asked for an identifier that is not empty and reports no error, it shows a task of
-- the reconciled list that has this identifier.
pub task_lem :
    (m : Manager) (id : String) (v : TaskView) (w : World)
    → id ≢ ""
    → (task m id w).0 ≡ ok v
    → (ts : List Task) × ((reconciled_tasks m w).0 ≡ ok ts)
      × ((t : Task) × Memᴰ t ts × (v ≡ view t) × (v.task_id ≡ id))
unfolding task view
task_lem m id v w n h = elim (Outcome-cases (reconciled_tasks m w).0) [
  | inr (x, e) ↦ absurd (ground (arith, e, h))
  | inl (ts, e) ↦ elim (Option-cases (task_named id ts)) [
    | inl q ↦ absurd (ground (arith, e, q, h, n, eq_iff id ""))
    | inr (t, q) ↦
        let (mem, name) = named id ts t q in
        let shows : v ≡ view t = ground (arith, e, q, h, n, eq_iff id "") in
        (ts, e, (t, mem, shows, ap (λ x. x.task_id) shows ∙ name))
  ]
]
