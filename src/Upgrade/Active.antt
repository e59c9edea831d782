-- ===== src/Upgrade/Active.antt =====
-- internal/upgrade/tasks.go: the order of tasks and the task that blocks a new upgrade.
use tokenlive_standalone.Prelude.{
  ℕ, Bool, true, false, not, ◌&&◌, Option, none, some, List, [], ◌∷◌, ltb, if◌then◌else◌,
  sort_slice,
}
use mathlib.Core.List.{reverse}
use tokenlive_standalone.Upgrade.Host.{Host, is_awaiting, is_needs_attention}
use tokenlive_standalone.Upgrade.Task.{Task}
pub mod Laws

abbrev pub created_before : Task → Task → Bool
created_before a b = ltb a.created_at b.created_at

unfoldable pub sort_tasks : List Task → List Task
unfolding sort_slice
sort_tasks = sort_slice created_before

-- The body of the loop for a task that is not `needs_attention`: the task it leaves in `pending`.
abbrev pub next_pending : Host → ℕ → Option Task → Task → Option Task
next_pending h now pending t =
    if h.terminal t.state
    then pending
    else if is_awaiting t.state && ltb t.credential_expiry now
    then pending
    else some t

unfoldable pub active_from : Host → ℕ → Option Task → List Task → Option Task
active_from h now pending [] = pending
active_from h now pending (t ∷ ts) =
    if is_needs_attention t.state
    then some t
    else active_from h now (next_pending h now pending t) ts

unfoldable pub active_task : Host → ℕ → List Task → Option Task
unfolding active_from
active_task h now ts = active_from h now none ts

unfoldable pub first_cleanup : Host → List Task → Option Task
first_cleanup h [] = none
first_cleanup h (t ∷ ts) =
    if h.terminal t.state && t.cleanup_pending then some t else first_cleanup h ts

-- The loop runs from the last task to the first.
unfoldable pub cleanup_pending_task : Host → List Task → Option Task
unfolding first_cleanup
cleanup_pending_task h ts = first_cleanup h (reverse ts)

-- A task that stands in the way of a new one: unresolved, or open and not past its confirmation.
abbrev pub blocks : Host → ℕ → Task → Bool
blocks h now t =
    if is_needs_attention t.state
    then true
    else not (h.terminal t.state) && not (is_awaiting t.state && ltb t.credential_expiry now)
