-- ===== src/Upgrade/Store/Index.antt =====
-- The retained index: its bound, its order, and what a write to it drops.
use tokenlive_standalone.Prelude.{
  ℕ, zero, suc, ◌≤◌, ◌≡◌, refl, ap, List, [], ◌∷◌, arith, Memᴰ, ◌⊎◌, All, All-insert_sorted,
  All-take, All-mem, Bool-cases, inl, inr, sort_slice, insert_sorted, mem-sort_slice, length, take,
}
use tokenlive_standalone.Upgrade.Task.{TaskView}
use tokenlive_standalone.Upgrade.Store.{max_terminal_records, replace_view, newer_view, index_with}

abbrev pub NewestFirst : List TaskView → Type 0
NewestFirst [] = Unit
NewestFirst (v ∷ vs) = All (λ u. u.updated_at ≤ v.updated_at) vs × NewestFirst vs

All-older :
    (x y : TaskView) (ys : List TaskView)
    → y.updated_at ≤ x.updated_at
    → All (λ u. u.updated_at ≤ y.updated_at) ys
    → All (λ u. u.updated_at ≤ x.updated_at) ys
All-older x y [] h a = tt
All-older x y (z ∷ ys) h a = (omega (arith, a.0), All-older x y ys h a.1)

NewestFirst-insert_sorted :
    (x : TaskView) (ys : List TaskView)
    → NewestFirst ys
    → NewestFirst (insert_sorted newer_view x ys)
unfolding insert_sorted
NewestFirst-insert_sorted x [] o = (tt, tt)
NewestFirst-insert_sorted x (y ∷ ys) o = elim (Bool-cases (newer_view y x)) [
  | inl e ↦ rw e (
    All-insert_sorted (λ u. u.updated_at ≤ y.updated_at) newer_view x ys (ground arith) o.0,
    NewestFirst-insert_sorted x ys o.1,
  )
  | inr e ↦
      let first : y.updated_at ≤ x.updated_at = ground arith in
      rw e ((first, All-older x y ys first o.0), o)
]

NewestFirst-sort_slice : (xs : List TaskView) → NewestFirst (sort_slice newer_view xs)
unfolding sort_slice
NewestFirst-sort_slice [] = tt
NewestFirst-sort_slice (x ∷ xs) =
    NewestFirst-insert_sorted x (sort_slice newer_view xs) (NewestFirst-sort_slice xs)

NewestFirst-take : (n : ℕ) (xs : List TaskView) → NewestFirst xs → NewestFirst (take n xs)
NewestFirst-take zero xs o = tt
NewestFirst-take (suc n) [] o = tt
NewestFirst-take (suc n) (x ∷ xs) o = (All-take _ n xs o.0, NewestFirst-take n xs o.1)

length-take-le : (n : ℕ) (xs : List TaskView) → length (take n xs) ≤ n
length-take-le zero xs = omega arith
length-take-le (suc n) [] = omega arith
length-take-le (suc n) (x ∷ xs) = omega (arith, length-take-le n xs)

-- Of a list in order, a record past the cut is no newer than any record before it.
mem-take :
    (n : ℕ) (xs : List TaskView) (v : TaskView)
    → NewestFirst xs
    → Memᴰ v xs
    → Memᴰ v (take n xs)
      ⊎ ((length (take n xs) ≡ n) × All (λ u. v.updated_at ≤ u.updated_at) (take n xs))
mem-take zero xs v o m = inr (refl, tt)
mem-take (suc n) [] v o m = elim m [ ]
mem-take (suc n) (x ∷ xs) v o (Memᴰ.head e) = inl (Memᴰ.head e)
mem-take (suc n) (x ∷ xs) v o (Memᴰ.tail m) = elim (mem-take n xs v o.1 m) [
  | inl k ↦ inl (Memᴰ.tail k)
  | inr (full, a) ↦ inr (ap suc full, (All-mem' xs m o.0, a))
]
  where
    All-mem' :
        (ys : List TaskView)
        → Memᴰ v ys
        → All (λ u. u.updated_at ≤ x.updated_at) ys
        → v.updated_at ≤ x.updated_at
    All-mem' = All-mem (λ u. u.updated_at ≤ x.updated_at)

-- A new index has at most twenty records, newest first; and a record of the old index with the new
-- one put in is kept, or the index is full and the record is no newer than any that it keeps.
pub index_with_lem :
    (v : TaskView) (vs : List TaskView)
    → (length (index_with v vs) ≤ max_terminal_records)
      × NewestFirst (index_with v vs)
      × ((u : TaskView)
          → Memᴰ u (replace_view v vs)
          → Memᴰ u (index_with v vs)
            ⊎ ((length (index_with v vs) ≡ max_terminal_records)
                × All (λ x. u.updated_at ≤ x.updated_at) (index_with v vs)))
unfolding index_with
index_with_lem v vs =
    let sorted = sort_slice newer_view (replace_view v vs) in
    let order = NewestFirst-sort_slice (replace_view v vs) in
    (
      length-take-le max_terminal_records sorted,
      NewestFirst-take max_terminal_records sorted order,
      λ u m.
          mem-take max_terminal_records sorted u order
            (mem-sort_slice newer_view (replace_view v vs) m),
    )
