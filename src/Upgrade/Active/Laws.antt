-- ===== src/Upgrade/Active/Laws.antt =====
-- The task that `active_task` returns, against the plain description of the tasks that block.
use tokenlive_standalone.Prelude.{
  ℕ, ◌≡◌, refl, ◌↔◌, ◌⊎◌, inl, inr, true, false, Option, none, some, List, [], ◌∷◌, Memᴰ, arith,
  All, Bool-cases, subst, sym, ap, ◌∙◌, Option-cases,
}
use tokenlive_standalone.Upgrade.Host.{Host, is_needs_attention, needs_attention}
use tokenlive_standalone.Upgrade.Task.{Task}
use tokenlive_standalone.Upgrade.Active.{active_from, active_task, next_pending, blocks}

active_from-eq-none :
    (h : Host) (now : ℕ) (p : Option Task) (ts : List Task)
    → active_from h now p ts ≡ none
    → (p ≡ none) × All (λ t. blocks h now t ≡ false) ts
unfolding active_from
active_from-eq-none h now p [] e = (e, tt)
active_from-eq-none h now p (t ∷ ts) e =
    ground (arith, active_from-eq-none h now (next_pending h now p t) ts)

active_from-none :
    (h : Host) (now : ℕ) (ts : List Task)
    → All (λ t. blocks h now t ≡ false) ts
    → active_from h now none ts ≡ none
unfolding active_from
active_from-none h now [] a = refl
active_from-none h now (t ∷ ts) a = ground (arith, active_from-none h now ts a.1)

-- No task is active exactly when no task of the list blocks.
pub active_task-eq-none :
    (h : Host) (now : ℕ) (ts : List Task)
    → (active_task h now ts ≡ none) ↔ All (λ t. blocks h now t ≡ false) ts
unfolding active_task
active_task-eq-none h now ts =
    (λ e. (active_from-eq-none h now none ts e).1, active_from-none h now ts)

module _ (h : Host) (now : ℕ) where
  active_from-mem :
      (p : Option Task) (ts : List Task) (t : Task)
      → active_from h now p ts ≡ some t
      → (p ≡ some t) ⊎ (Memᴰ t ts × (blocks h now t ≡ true))
  unfolding active_from
  active_from-mem p [] t e = inl e
  active_from-mem p (x ∷ ts) t e = elim (Bool-cases (is_needs_attention x.state)) [
    | inl n ↦ inr (Memᴰ.head (ground arith), ground arith)
    | inr n ↦ later (active_from-mem (next_pending h now p x) ts t (ground arith))
  ]
    where
      later :
          (next_pending h now p x ≡ some t) ⊎ (Memᴰ t ts × (blocks h now t ≡ true))
          → (p ≡ some t) ⊎ (Memᴰ t (x ∷ ts) × (blocks h now t ≡ true))
      later (inl q) = elim (Bool-cases (blocks h now x)) [
        | inl b ↦ inr (Memᴰ.head (ground arith), ground arith)
        | inr b ↦ inl (ground arith)
      ]
      later (inr (m, b)) = inr (Memᴰ.tail m, b)

  active_task-mem :
      (ts : List Task) (t : Task)
      → active_task h now ts ≡ some t
      → Memᴰ t ts × (blocks h now t ≡ true)
  unfolding active_task
  active_task-mem ts t e = elim (active_from-mem none ts t e) [ inl q ↦ absurd (cc) | inr m ↦ m ]

  active_from_unresolved :
      (p : Option Task) (ts : List Task) {u : Task}
      → Memᴰ u ts
      → u.state ≡ needs_attention
      → (t : Task) × (active_from h now p ts ≡ some t) × (t.state ≡ needs_attention)
  unfolding active_from
  active_from_unresolved p [] m n = elim m [ ]
  active_from_unresolved p (x ∷ ts) (Memᴰ.head e) n = (x, ground arith, ground arith)
  active_from_unresolved p (x ∷ ts) (Memᴰ.tail m) n =
      elim (Bool-cases (is_needs_attention x.state)) [
        | inl q ↦ (x, ground arith, ground arith)
        | inr q ↦
            let (t, found, s) = active_from_unresolved (next_pending h now p x) ts m n in
            (t, rw q found, s)
      ]

  active_task_unresolved :
      (ts : List Task) {u : Task}
      → Memᴰ u ts
      → u.state ≡ needs_attention
      → (t : Task) × (active_task h now ts ≡ some t) × (t.state ≡ needs_attention)
  unfolding active_task
  active_task_unresolved ts m n = active_from_unresolved none ts m n

  unresolved_or :
      (ts : List Task)
      → All (λ u. is_needs_attention u.state ≡ false) ts
        ⊎ ((u : Task) × Memᴰ u ts × (u.state ≡ needs_attention))
  unresolved_or [] = inl tt
  unresolved_or (t ∷ ts) = elim (Bool-cases (is_needs_attention t.state)) [
    | inl e ↦ inr (t, Memᴰ.head refl, ground arith)
    | inr e ↦ elim (unresolved_or ts) [
      | inl a ↦ inl (e, a)
      | inr (u, m, n) ↦ inr (u, Memᴰ.tail m, n)
    ]
  ]

  -- What the active task of a list has to be.
  abbrev pub IsActive : List Task → Option Task → Type 0
  IsActive ts none = All (λ t. blocks h now t ≡ false) ts
  IsActive ts (some t) =
      Memᴰ t ts
      × (blocks h now t ≡ true)
      × (All (λ u. is_needs_attention u.state ≡ false) ts ⊎ (t.state ≡ needs_attention))

  same_task :
      (ts : List Task) (t u : Task)
      → active_task h now ts ≡ some t
      → active_task h now ts ≡ some u
      → u ≡ t
  same_task ts t u e f = cc (e, f)

  -- Where there is no active task, no task of the list blocks; the active task is one of the list
  -- that blocks, and is in `needs_attention` unless no task of the list is.
  pub active_task_lem : (ts : List Task) → IsActive ts (active_task h now ts)
  active_task_lem ts = elim (Option-cases (active_task h now ts)) [
    | inl e ↦ subst (IsActive ts) (sym e) ((active_task-eq-none h now ts).0 e)
    | inr (t, e) ↦
        let (m, b) = active_task-mem ts t e in
        subst (IsActive ts) (sym e) (
          m,
          b,
          elim (unresolved_or ts) [
            | inl a ↦ inl a
            | inr (u, n, q) ↦
                let (v, found, s) = active_task_unresolved ts n q in
                inr (ap (λ x. x.state) (sym (same_task ts t v e found)) ∙ s)
          ],
        )
  ]
