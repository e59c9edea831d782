-- ===== src/ConfigHub/Overdrawn.antt =====
-- internal/confighub/hub.go: a key that is charged one credit more than it has.
use tokenlive_standalone.Prelude.{ℕ, ◌+◌, ◌<◌, String, some, ◌≡◌, inl, ap, ◌∙◌, arith, eq_refl}
use tokenlive_standalone.ConfigHub.{Gateway, unlimited, Item, Hub, get_key, deduct_credits}
use tokenlive_standalone.ConfigHub.Credits.{left_of, answer_of, deduct_credits_lem}

overdrawn : (c : ℕ) → c < unlimited → left_of (c + 1) c ≡ unlimited
overdrawn c h = ground arith

module _ (g : Gateway) where
  -- If a key has a number of credits below the mark of unlimited ones, charging one credit more
  -- than that answers -1, and so does every later charge, whatever it is: the key has become
  -- unlimited.
  pub deduct_credits-overdrawn :
      (h : Hub g) (k : String) (x : Item g) (later : ℕ)
      → get_key g k h.api_keys ≡ some x
      → x.credits < unlimited
      → ((deduct_credits g h k (x.credits + 1)).1 ≡ inl unlimited)
        × ((deduct_credits g (deduct_credits g h k (x.credits + 1)).0 k later).1 ≡ inl unlimited)
  deduct_credits-overdrawn h k x later e lt =
      let over = overdrawn x.credits lt in
      let first = deduct_credits_lem g h k k (x.credits + 1) in
      let h' = (deduct_credits g h k (x.credits + 1)).0 in
      let held : get_key g k h'.api_keys ≡ some (record x { credits = unlimited }) =
        first.0 ∙ (rw (eq_refl k, e) (ap (λ c. some (record x { credits = c })) over)) in
      (
        first.1 ∙ (ap (answer_of g (x.credits + 1)) e ∙ ap inl over),
        (deduct_credits_lem g h' k k later).1 ∙ ap (answer_of g later) held,
      )
