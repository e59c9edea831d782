-- ===== src/Upgrade/Store/Listing.antt =====
-- internal/upgrade/state.go: the identifiers of what `List` returns.
use tokenlive_standalone.Prelude.{
  String, ◌≡◌, ◌≢◌, refl, sym, ◌∙◌, ap, List, [], ◌∷◌, Memᴰ, eq_iff, ◌==◌, All, All-insert_sorted,
  All-sort_slice, mem-sort_slice, Bool-cases, ◌⊎◌, inl, inr, sort_slice, insert_sorted,
}
use tokenlive_standalone.Upgrade.Task.{Task}
use tokenlive_standalone.Upgrade.Active.{sort_tasks, created_before}
use tokenlive_standalone.Upgrade.Store.{place, dedupe_onto, dedupe_tasks}

-- No two tasks of the list have one identifier.
abbrev pub Distinct : List Task → Type 0
Distinct [] = Unit
Distinct (t ∷ ts) = All (λ u. u.task_id ≢ t.task_id) ts × Distinct ts

module _ {κ} (P : Task → Type κ) where
  All-place : (t : Task) (xs : List Task) → P t → All P xs → All P (place t xs)
  unfolding place
  All-place t [] p h = (p, tt)
  All-place t (x ∷ xs) p h = elim (Bool-cases (x.task_id == t.task_id)) [
    | inl e ↦ rw e (p, h.1)
    | inr e ↦ rw e (h.0, All-place t xs p h.1)
  ]

  All-dedupe_onto : (out ts : List Task) → All P out → All P ts → All P (dedupe_onto out ts)
  unfolding dedupe_onto
  All-dedupe_onto out [] ho ht = ho
  All-dedupe_onto out (t ∷ ts) ho ht =
      All-dedupe_onto (place t out) ts (All-place t out ht.0 ho) ht.1

  pub All-dedupe_tasks : (ts : List Task) → All P ts → All P (dedupe_tasks ts)
  unfolding dedupe_tasks sort_tasks
  All-dedupe_tasks ts h = All-sort_slice P created_before _ (All-dedupe_onto [] ts tt h)

Distinct-place : (t : Task) (xs : List Task) → Distinct xs → Distinct (place t xs)
unfolding place
Distinct-place t [] d = (tt, tt)
Distinct-place t (x ∷ xs) d = elim (Bool-cases (x.task_id == t.task_id)) [
  | inl e ↦ rw e (subst_ids ((eq_iff x.task_id t.task_id).0 e) xs d.0, d.1)
  | inr e ↦ rw e (
    All-place (λ u. u.task_id ≢ x.task_id) t xs
        (λ p. cc (e, (eq_iff x.task_id t.task_id).1 (sym p))) d.0,
    Distinct-place t xs d.1,
  )
]
  where
    subst_ids :
        x.task_id ≡ t.task_id
        → (ys : List Task) → All (λ u. u.task_id ≢ x.task_id) ys
        → All (λ u. u.task_id ≢ t.task_id) ys
    subst_ids q ys h = rw q at h

pub Distinct-dedupe_onto : (out ts : List Task) → Distinct out → Distinct (dedupe_onto out ts)
unfolding dedupe_onto
Distinct-dedupe_onto out [] d = d
Distinct-dedupe_onto out (t ∷ ts) d = Distinct-dedupe_onto (place t out) ts (Distinct-place t out d)

Distinct-insert_sorted :
    (x : Task) (ys : List Task)
    → All (λ u. u.task_id ≢ x.task_id) ys
    → Distinct ys
    → Distinct (insert_sorted created_before x ys)
unfolding insert_sorted
Distinct-insert_sorted x [] a d = (tt, tt)
Distinct-insert_sorted x (y ∷ ys) a d = elim (Bool-cases (created_before y x)) [
  | inl e ↦ rw e (
    All-insert_sorted (λ u. u.task_id ≢ y.task_id) created_before x ys (λ p. a.0 (sym p)) d.0,
    Distinct-insert_sorted x ys a.1 d.1,
  )
  | inr e ↦ rw e (a, d)
]

Distinct-sort_tasks : (xs : List Task) → Distinct xs → Distinct (sort_tasks xs)
unfolding sort_tasks sort_slice
Distinct-sort_tasks [] d = tt
Distinct-sort_tasks (x ∷ xs) d =
    Distinct-insert_sorted x (sort_slice created_before xs)
      (All-sort_slice (λ u. u.task_id ≢ x.task_id) created_before xs d.0)
      (Distinct-sort_tasks xs d.1)

-- The list that `dedupe_tasks` returns names every task once.
pub Distinct-dedupe_tasks : (ts : List Task) → Distinct (dedupe_tasks ts)
unfolding dedupe_tasks
Distinct-dedupe_tasks ts = Distinct-sort_tasks _ (Distinct-dedupe_onto [] ts tt)

-- Some task of the list has the identifier.
abbrev pub Named : String → List Task → Type 0
Named id ts = (y : Task) × Memᴰ y ts × (y.task_id ≡ id)

Named-place_self : (t : Task) (xs : List Task) → Named t.task_id (place t xs)
unfolding place
Named-place_self t [] = (t, Memᴰ.head refl, refl)
Named-place_self t (x ∷ xs) = elim (Bool-cases (x.task_id == t.task_id)) [
  | inl e ↦ rw e (t, Memᴰ.head refl, refl)
  | inr e ↦ let (y, m, n) = Named-place_self t xs in rw e (y, Memᴰ.tail m, n)
]

Named-place : (id : String) (t : Task) (xs : List Task) → Named id xs → Named id (place t xs)
unfolding place
Named-place id t [] (y, m, n) = elim m [ ]
Named-place id t (x ∷ xs) (y, Memᴰ.head p, n) = elim (Bool-cases (x.task_id == t.task_id)) [
  | inl e ↦
      let same : x.task_id ≡ t.task_id = (eq_iff x.task_id t.task_id).0 e in
      rw e (t, Memᴰ.head refl, sym same ∙ ap (λ (u : Task). u.task_id) (sym p) ∙ n)
  | inr e ↦ rw e (y, Memᴰ.head p, n)
]
Named-place id t (x ∷ xs) (y, Memᴰ.tail m, n) = elim (Bool-cases (x.task_id == t.task_id)) [
  | inl e ↦ rw e (y, Memᴰ.tail m, n)
  | inr e ↦ let (z, k, q) = Named-place id t xs (y, m, n) in rw e (z, Memᴰ.tail k, q)
]

Named-dedupe_onto :
    (id : String) (out ts : List Task) → Named id out ⊎ Named id ts → Named id (dedupe_onto out ts)
unfolding dedupe_onto
Named-dedupe_onto id out [] (inl n) = n
Named-dedupe_onto id out [] (inr (y, m, n)) = elim m [ ]
Named-dedupe_onto id out (t ∷ ts) (inl n) =
    Named-dedupe_onto id (place t out) ts (inl (Named-place id t out n))
Named-dedupe_onto id out (t ∷ ts) (inr (y, Memᴰ.head p, n)) =
    let (z, m, q) = Named-place_self t out in
    Named-dedupe_onto id (place t out) ts (inl (z, m, q ∙ ap (λ (u : Task). u.task_id) (sym p) ∙ n))
Named-dedupe_onto id out (t ∷ ts) (inr (y, Memᴰ.tail m, n)) =
    Named-dedupe_onto id (place t out) ts (inr (y, m, n))

pub Named-dedupe_tasks : (id : String) (ts : List Task) → Named id ts → Named id (dedupe_tasks ts)
unfolding dedupe_tasks sort_tasks
Named-dedupe_tasks id ts n =
    let (y, m, q) = Named-dedupe_onto id [] ts (inr n) in
    (y, mem-sort_slice created_before (dedupe_onto [] ts) m, q)
