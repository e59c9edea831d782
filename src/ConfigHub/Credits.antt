-- ===== src/ConfigHub/Credits.antt =====
-- internal/confighub/hub.go: what `DeductCredits` leaves behind.
use tokenlive_standalone.Prelude.{
  ℕ, ◌+◌, ◌-◌, ◌%◌, String, true, Option, none, some, ◌==◌, ◌≡◌, refl, eqb, ◌⊎◌, inl, inr, ap, ◌∙◌,
  arith, eq_iff, if◌then◌else◌, Bool-cases, Option-cases,
}
use tokenlive_standalone.ConfigHub.{
  Gateway, Snapshot, HubError, loaded_snapshot, two_64, unlimited, Item, Hub, get_key,
  snapshot_unchanged, refresh, deduct_credits, key_not_found,
}
use tokenlive_standalone.ConfigHub.Refresh.{get_key-put_key, refresh-unchanged}

-- The credits that a charge leaves: those of an unlimited key stay.
abbrev pub left_of : ℕ → ℕ → ℕ
left_of n credits = if eqb credits unlimited then credits else (credits + two_64 - n) % two_64

module _ (g : Gateway) where
  abbrev pub charged_item : ℕ → Option (Item g) → Option (Item g)
  charged_item n none = none
  charged_item n (some x) = some (record x { credits = left_of n x.credits })

  abbrev pub answer_of : ℕ → Option (Item g) → ℕ ⊎ HubError
  answer_of n none = inr key_not_found
  answer_of n (some x) = inl (left_of n x.credits)

  same_key :
      (h : Hub g) (j k : String) (o : Option (Item g))
      → get_key g k h.api_keys ≡ o
      → get_key g j h.api_keys ≡ (if k == j then o else get_key g j h.api_keys)
  same_key h j k o e = elim (Bool-cases (k == j)) [
    | inl y ↦ rw y (ground (arith, y, e, eq_iff k j))
    | inr y ↦ rw y refl
  ]

  -- A charge changes the credits of its own key alone and answers what it leaves, or an error for
  -- a key that the hub does not have; an unlimited key is answered with -1 and keeps it.
  pub deduct_credits_lem :
      (h : Hub g) (j k : String) (n : ℕ)
      → (get_key g j (deduct_credits g h k n).0.api_keys
          ≡ (if k == j then charged_item n (get_key g k h.api_keys) else get_key g j h.api_keys))
        × ((deduct_credits g h k n).1 ≡ answer_of n (get_key g k h.api_keys))
  unfolding deduct_credits
  deduct_credits_lem h j k n = elim (Option-cases (get_key g k h.api_keys)) [
    | inl e ↦ rw e (same_key h j k none e, refl)
    | inr (x, e) ↦ elim (Bool-cases (eqb x.credits unlimited)) [
      | inl u ↦ rw e (rw u (same_key h j k (some x) e, ap inl (ground (arith, u))))
      | inr u ↦ rw e (
          rw u (
            get_key-put_key g j k (record x { credits = (x.credits + two_64 - n) % two_64 })
                h.api_keys,
            refl,
          ))
    ]
  ]

  deduct_credits-unchanged :
      (h : Hub g) (s : Snapshot) (k : String) (n : ℕ)
      → snapshot_unchanged g (deduct_credits g h k n).0 s ≡ snapshot_unchanged g h s
  unfolding deduct_credits snapshot_unchanged
  deduct_credits-unchanged h s k n = elim (Option-cases (get_key g k h.api_keys)) [
    | inl e ↦ rw e refl
    | inr (x, e) ↦ elim (Bool-cases (eqb x.credits unlimited)) [
      | inl u ↦ rw e (rw u refl)
      | inr u ↦ rw e (rw u refl)
    ]
  ]

  -- A refresh with the snapshot that the hub already has does not bring charged credits back.
  pub refresh-deduct_credits :
      (h : Hub g) (kind k : String) (n : ℕ) (s : Snapshot)
      → snapshot_unchanged g h s ≡ true
      → refresh g (deduct_credits g h k n).0 kind (loaded_snapshot s)
        ≡ ((deduct_credits g h k n).0, none)
  refresh-deduct_credits h kind k n s same =
      refresh-unchanged g (deduct_credits g h k n).0 kind s
        (deduct_credits-unchanged h s k n ∙ same)
