-- ===== src/Upgrade/Verify/Ends.antt =====
-- `verify` of internal/upgrade/worker.go: how its polling ends.
use tokenlive_standalone.Prelude.{
  ℕ, zero, suc, ap, ◌++◌, bytes, ◌+◌, ◌*◌, ◌/◌, ◌≤◌, ◌<◌, ◌≡◌, refl, true, inl, inr, some, [],
  arith, Bytes, Bool-cases, Option-cases, ltb,
}
use tokenlive_standalone.Upgrade.Task.{Task}
use tokenlive_standalone.Upgrade.Verify.{
  Watch, Verdict, proven, refuted, settled, verify, verify_loop, rounds, interval, clock, poll_once,
  verify_budget,
}

interval_pos : (v : Watch) → 0 < interval v
unfolding interval
interval_pos v = ground arith

le_div : (i n b : ℕ) → 0 < n → i * n < b → i ≤ b / n
le_div i n b p h = grind arith

-- A round that the budget lets pass is not the last one that the fuel allows.
pub in_budget :
    (v : Watch) (i : ℕ)
    → ltb (clock v i) (v.started + verify_budget) ≡ true
    → i ≤ verify_budget / interval v
unfolding clock
in_budget v i h = le_div i (interval v) verify_budget (interval_pos v) (ground arith)

module _ (v : Watch) (t : Task) where
  loop_ends :
      (fuel i : ℕ) (reason : Bytes)
      → fuel + i ≡ rounds v
      → i ≤ verify_budget / interval v + 1
      → (d : Verdict) × (verify_loop v t fuel i reason ≡ some d)
  unfolding verify_loop rounds
  loop_ends zero i reason e h = absurd (omega arith)
  loop_ends (suc fuel) i reason e h = elim (Bool-cases (v.polls i).cancelled) [
    | inl y ↦ (refuted (bytes "context canceled"), rw y refl)
    | inr y ↦ elim (Bool-cases (ltb (clock v i) (v.started + verify_budget))) [
      | inr late ↦ (refuted (bytes "verification budget exhausted: " ++ reason), rw (y, late) refl)
      | inl early ↦ elim (Option-cases (poll_once v t i)) [
        | inl p ↦ (proven, rw (y, early, p) refl)
        | inr (r, p) ↦
            let (d, q) =
              loop_ends fuel (suc i) r (omega arith) (omega (arith, in_budget v i early)) in
            (d, rw (y, early, p) q)
      ]
    ]
  ]

  -- Whatever the context, the clock, launchd and the service answer, the polling of `verify` comes
  -- to a verdict of its own within the rounds that the model gives it.
  pub verify_loop_ends :
      (d : Verdict) × (verify_loop v t (rounds v) 0 [] ≡ some d) × (verify v t ≡ d)
  unfolding verify
  verify_loop_ends =
      let (d, e) = loop_ends (rounds v) 0 [] (omega arith) (omega arith) in (d, e, ap settled e)
