-- ===== src/Prelude/Sort.antt =====
-- Sorting by a `less` test, as `sort.Slice` of the language's library does for short slices, where
-- it is an insertion sort: elements that compare equal keep their order.
use mathlib.Core.Path.{refl}
use mathlib.Core.Logic.{inl, inr}
use mathlib.Core.Bool.{Bool}
use mathlib.Core.List.{List, [], ◌∷◌, Memᴰ}
use tokenlive_standalone.Prelude.Tests.{if◌then◌else◌, Bool-cases}
use tokenlive_standalone.Prelude.Lists.{All}

module _ {ℓ} {A : Type ℓ} (less : A → A → Bool) where
  unfoldable pub insert_sorted : A → List A → List A
  insert_sorted x [] = x ∷ []
  insert_sorted x (y ∷ ys) = if less y x then y ∷ insert_sorted x ys else x ∷ y ∷ ys

  unfoldable pub sort_slice : List A → List A
  unfolding insert_sorted
  sort_slice [] = []
  sort_slice (x ∷ xs) = insert_sorted x (sort_slice xs)

  pub mem-insert_sorted_self : (x : A) (ys : List A) → Memᴰ x (insert_sorted x ys)
  unfolding insert_sorted
  mem-insert_sorted_self x [] = Memᴰ.head refl
  mem-insert_sorted_self x (y ∷ ys) = elim (Bool-cases (less y x)) [
    | inl e ↦ rw e (Memᴰ.tail (mem-insert_sorted_self x ys))
    | inr e ↦ rw e (Memᴰ.head refl)
  ]

  pub mem-insert_sorted : (x : A) (ys : List A) {a : A} → Memᴰ a ys → Memᴰ a (insert_sorted x ys)
  unfolding insert_sorted
  mem-insert_sorted x [] m = elim m [ ]
  mem-insert_sorted x (y ∷ ys) (Memᴰ.head e) = elim (Bool-cases (less y x)) [
    | inl t ↦ rw t (Memᴰ.head e)
    | inr t ↦ rw t (Memᴰ.tail (Memᴰ.head e))
  ]
  mem-insert_sorted x (y ∷ ys) (Memᴰ.tail m) = elim (Bool-cases (less y x)) [
    | inl t ↦ rw t (Memᴰ.tail (mem-insert_sorted x ys m))
    | inr t ↦ rw t (Memᴰ.tail (Memᴰ.tail m))
  ]

  pub mem-sort_slice : (xs : List A) {a : A} → Memᴰ a xs → Memᴰ a (sort_slice xs)
  unfolding sort_slice
  mem-sort_slice [] m = elim m [ ]
  mem-sort_slice (x ∷ xs) (Memᴰ.head e) = rw e (mem-insert_sorted_self x (sort_slice xs))
  mem-sort_slice (x ∷ xs) (Memᴰ.tail m) = mem-insert_sorted x (sort_slice xs) (mem-sort_slice xs m)

module _ {ℓ κ} {A : Type ℓ} (P : A → Type κ) (less : A → A → Bool) where
  pub All-insert_sorted : (x : A) (ys : List A) → P x → All P ys → All P (insert_sorted less x ys)
  unfolding insert_sorted
  All-insert_sorted x [] p h = (p, tt)
  All-insert_sorted x (y ∷ ys) p h = elim (Bool-cases (less y x)) [
    | inl e ↦ rw e (h.0, All-insert_sorted x ys p h.1)
    | inr e ↦ rw e (p, h)
  ]

  pub All-sort_slice : (xs : List A) → All P xs → All P (sort_slice less xs)
  unfolding sort_slice
  All-sort_slice [] h = tt
  All-sort_slice (x ∷ xs) h = All-insert_sorted x (sort_slice less xs) h.0 (All-sort_slice xs h.1)
