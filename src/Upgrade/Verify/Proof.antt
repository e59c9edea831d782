-- ===== src/Upgrade/Verify/Proof.antt =====
-- `verify` of internal/upgrade/worker.go: what its verdict says of the rounds.
use tokenlive_standalone.Prelude.{
  ℕ, zero, suc, ◌+◌, ◌≤◌, ◌<◌, ◌≡◌, refl, sym, ◌∙◌, ap, subst, true, false, inl, inr, Option, none,
  some, [], arith, Bytes, Bool-cases, Option-cases, ltb, ◌↔◌,
}
use tokenlive_standalone.Upgrade.Task.{Task}
use tokenlive_standalone.Upgrade.Disk.{Outcome, ok, err}
use tokenlive_standalone.Upgrade.Launchd.{list_pid}
use tokenlive_standalone.Upgrade.Health.{Report, reported, Proves, check, check_lem}
use tokenlive_standalone.Upgrade.Verify.{
  Watch, proven, settled, verify, verify_loop, rounds, clock, poll_once, verify_budget, expected,
  asked, checked,
}
use tokenlive_standalone.Upgrade.Verify.Ends.{in_budget, verify_loop_ends}

module _ (v : Watch) (t : Task) where
  -- Round `i` runs: the context is live and the budget lasts.
  pub record Runs (i : ℕ) : Type 0 where
    pub live : (v.polls i).cancelled ≡ false
    pub in_time : clock v i < v.started + verify_budget

  -- In round `i` launchd lists a process of the service, and the service proves the target to be it.
  pub record Seen (i : ℕ) : Type 0 where
    pub pid : ℕ
    pub report : Report
    pub listed : list_pid (v.polls i).listed ≡ ok (some pid)
    pub answered : (v.polls i).reply ≡ reported report
    pub has_port : 0 < t.port
    pub proves : Proves v.resolve (expected v t pid) report

  Seen-asked :
      (i : ℕ) (o : Outcome (Option ℕ))
      → list_pid (v.polls i).listed ≡ o
      → asked v t (v.polls i).reply o ≡ none
      → Seen i
  Seen-asked i (err e) l h = absurd (cc h)
  Seen-asked i (ok none) l h = absurd (cc h)
  Seen-asked i (ok (some pid)) l h =
      let c : check v.resolve (expected v t pid) (v.polls i).reply ≡ none = ground (arith, h) in
      let (r, answered, port, p) = (check_lem v.resolve (expected v t pid) (v.polls i).reply).0 c in
      record { pid = pid; report = r; listed = l; answered = answered; has_port = port; proves = p }

  Seen-poll_once : (i : ℕ) → poll_once v t i ≡ none → Seen i
  unfolding poll_once
  Seen-poll_once i h = Seen-asked i (list_pid (v.polls i).listed) refl h

  poll_once-Seen : (i : ℕ) → Seen i → poll_once v t i ≡ none
  unfolding poll_once
  poll_once-Seen i s = rw s.listed (
      ap checked (
        (check_lem v.resolve (expected v t s.pid) (v.polls i).reply).1
          (s.report, s.answered, s.has_port, s.proves)))

  -- The first round with a proof, and the rounds before it.
  pub record FirstSeen (from : ℕ) : Type 0 where
    pub round : ℕ
    pub not_before : from ≤ round
    pub runs : (j : ℕ) → from ≤ j → j ≤ round → Runs j
    pub seen : Seen round

  run_at :
      (i j : ℕ)
      → (v.polls i).cancelled ≡ false
      → ltb (clock v i) (v.started + verify_budget) ≡ true
      → i ≡ j
      → Runs j
  run_at i j live early e = subst Runs e (record { live = live; in_time = ground arith })

  loop-FirstSeen :
      (fuel i : ℕ) (reason : Bytes) → verify_loop v t fuel i reason ≡ some proven → FirstSeen i
  unfolding verify_loop
  loop-FirstSeen zero i reason h = absurd (cc h)
  loop-FirstSeen (suc fuel) i reason h = elim (Bool-cases (v.polls i).cancelled) [
    | inl y ↦ absurd (ground (arith, y, h))
    | inr y ↦ elim (Bool-cases (ltb (clock v i) (v.started + verify_budget))) [
      | inr late ↦ absurd (ground (arith, y, late, h))
      | inl early ↦ elim (Option-cases (poll_once v t i)) [
        | inl p ↦ record {
          round = i;
          not_before = omega arith;
          runs = λ j lo hi. run_at i j y early (omega arith);
          seen = Seen-poll_once i p;
        }
        | inr (r, p) ↦
            let f = loop-FirstSeen fuel (suc i) r (ground (arith, y, early, p, h)) in
            record {
              round = f.round;
              not_before = omega (arith, f.not_before);
              runs = λ j lo hi. elim (Bool-cases (ltb i j)) [
                | inl after ↦ f.runs j (ground arith) hi
                | inr at ↦ run_at i j y early (ground arith)
              ];
              seen = f.seen;
            }
      ]
    ]
  ]

  loop_proven :
      (fuel j i : ℕ) (reason : Bytes)
      → j ≤ i
      → i < fuel + j
      → ((k : ℕ) → j ≤ k → k ≤ i → Runs k)
      → Seen i
      → verify_loop v t fuel j reason ≡ some proven
  unfolding verify_loop
  loop_proven zero j i reason lo hi runs seen = absurd (omega arith)
  loop_proven (suc fuel) j i reason lo hi runs seen =
      let run = runs j (omega arith) lo in
      let live = run.live in
      let early : ltb (clock v j) (v.started + verify_budget) ≡ true =
        ground (arith, run.in_time) in
      elim (Option-cases (poll_once v t j)) [
        | inl p ↦ rw (live, early, p) refl
        | inr (r, p) ↦ elim (Bool-cases (ltb j i)) [
          | inl before ↦
              rw (live, early, p)
                (loop_proven fuel (suc j) i r (ground arith) (omega arith)
                  (λ k a b. runs k (omega arith) b) seen)
          | inr at ↦
              let same : i ≡ j = ground arith in
              absurd (cc (p, subst (λ n. poll_once v t n ≡ none) same (poll_once-Seen i seen)))
        ]
      ]

  enough : (i : ℕ) → Runs i → i < rounds v + 0
  unfolding rounds
  enough i r = omega (arith, in_budget v i (ground (arith, r.in_time)))

  -- `verify` proves the target exactly when in some round, before the end of which the context was
  -- live and the budget lasted, launchd listed a process of the service and the service proved the
  -- target to be that process.
  pub verify_lem : (verify v t ≡ proven) ↔ ((i : ℕ) × ((j : ℕ) → j ≤ i → Runs j) × Seen i)
  unfolding verify rounds
  verify_lem = (
    λ h.
        let (d, e, q) = verify_loop_ends v t in
        let f = loop-FirstSeen (rounds v) 0 [] (e ∙ ap some (sym q ∙ h)) in
        (f.round, (λ (j : ℕ) (hi : j ≤ f.round). f.runs j (omega arith) hi), f.seen),
    λ (i, runs, seen). ap settled (
        loop_proven (rounds v) 0 i [] (omega arith) (enough i (runs i (omega arith)))
          (λ k a b. runs k b) seen),
  )
