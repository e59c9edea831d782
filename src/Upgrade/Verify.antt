-- ===== src/Upgrade/Verify.antt =====
-- internal/upgrade/worker.go, `verify`: the service is polled until the handshake proves the target
-- or the budget ends. One round reads the context, the clock, launchd and the service; what they
-- answer in round `i` is `polls i`. Every round sleeps for the interval at least, so the clock of
-- round `i` stands `i` intervals behind the start, and `delay` more.
use tokenlive_standalone.Prelude.{
  ℕ, zero, suc, ◌+◌, ◌-◌, ◌*◌, ◌/◌, ◌++◌, Bool, not, String, Option, none, some, eqb, ltb, bytes,
  Bytes, if◌then◌else◌, [],
}
use tokenlive_standalone.Upgrade.Task.{Task, second}
use tokenlive_standalone.Upgrade.Disk.{Outcome, ok, err}
use tokenlive_standalone.Upgrade.Command.{Ran}
use tokenlive_standalone.Upgrade.Launchd.{list_pid}
use tokenlive_standalone.Upgrade.Health.{Expected, Reply, Reason, check, reason_text}
pub mod Ends
pub mod Proof

pub record Poll : Type 0 where
  pub cancelled : Bool  -- `ctx.Err() != nil`
  pub delay : ℕ
  pub listed : Ran  -- how `launchctl list` ended
  pub reply : Reply

pub record Watch : Type 0 where
  pub prefix : String
  pub poll_every : ℕ  -- 0 uses the default
  pub started : ℕ
  pub polls : ℕ → Poll
  pub resolve : String → Option String  -- `filepath.EvalSymlinks`

abbrev pub verify_budget : ℕ
verify_budget = 180 * second

abbrev pub verify_poll_every : ℕ
verify_poll_every = 2 * second

unfoldable pub interval : Watch → ℕ
interval v = if eqb v.poll_every 0 then verify_poll_every else v.poll_every

unfoldable pub clock : Watch → ℕ → ℕ
clock v i = v.started + i * interval v + (v.polls i).delay

abbrev pub expected : Watch → Task → ℕ → Expected
expected v t pid = record {
  port = t.port;
  target_version = t.target_version;
  keg_version = t.target_keg_version;
  prefix = v.prefix;
  channel = "homebrew";
  service_pid = pid;
  previous_pid = t.service_pid;
}

abbrev pub checked : Option Reason → Option Bytes
checked none = none
checked (some r) = some (reason_text r)

abbrev pub asked : Watch → Task → Reply → Outcome (Option ℕ) → Option Bytes
asked v t reply (ok (some pid)) = checked (check v.resolve (expected v t pid) reply)
asked v t reply (ok none) = some (bytes "service_not_running")
asked v t reply (err e) = some (bytes "service_not_running")

-- The body of a round: `none` proves the target, and a reason keeps the worker waiting.
unfoldable pub poll_once : Watch → Task → ℕ → Option Bytes
unfolding list_pid check
poll_once v t i = asked v t (v.polls i).reply (list_pid (v.polls i).listed)

pub data Verdict : Type 0 where
  proven : Verdict
  refuted : Bytes → Verdict

-- The loop from round `i`, with the reason of the round before; `none` is out of fuel.
unfoldable pub verify_loop : Watch → Task → ℕ → ℕ → Bytes → Option Verdict
verify_loop v t zero i reason = none
verify_loop v t (suc fuel) i reason =
    if (v.polls i).cancelled
    then some (refuted (bytes "context canceled"))
    else if not (ltb (clock v i) (v.started + verify_budget))
    then some (refuted (bytes "verification budget exhausted: " ++ reason))
    else elim (poll_once v t i) [ none ↦ some proven | some r ↦ verify_loop v t fuel (suc i) r ]

-- More rounds than the budget has intervals.
unfoldable pub rounds : Watch → ℕ
unfolding interval
rounds v = verify_budget / interval v + 2

abbrev pub settled : Option Verdict → Verdict
settled none = refuted (bytes "verification budget exhausted: ")
settled (some d) = d

unfoldable pub verify : Watch → Task → Verdict
unfolding verify_loop rounds
verify v t = settled (verify_loop v t (rounds v) 0 [])
