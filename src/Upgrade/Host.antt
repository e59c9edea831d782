-- ===== src/Upgrade/Host.antt =====
-- What internal/upgrade takes from code outside the repository: the states of an upgrade task are
-- the constants of the administration package's `upgradehost` that the source names, which differ
-- from one another; its `StateTerminal` and the digest of the language's library are parameters.
use tokenlive_standalone.Prelude.{String, ◌≡◌, Bool, true, false}

pub data TaskState : Type 0 where
  awaiting_confirmation confirmation_expired queued : TaskState
  downloading installing restarting verifying : TaskState
  succeeded failed needs_attention : TaskState
  -- Any other word that a record on disk may hold.
  unnamed : String → TaskState

pub record Host : Type 0 where
  -- `upgradehost.StateTerminal`
  pub terminal : TaskState → Bool
  -- `sha256.Sum256` followed by `hex.EncodeToString`
  pub sha256_hex : String → String

-- The documented classification: a task that is waiting, accepted or under way is not terminal, and
-- one that expired, failed or succeeded is. Nothing is assumed of `needs_attention`.
pub record Classifies (h : Host) : Type 0 where
  pub awaiting_open : h.terminal awaiting_confirmation ≡ false
  pub queued_open : h.terminal queued ≡ false
  pub downloading_open : h.terminal downloading ≡ false
  pub installing_open : h.terminal installing ≡ false
  pub restarting_open : h.terminal restarting ≡ false
  pub verifying_open : h.terminal verifying ≡ false
  pub expired_closed : h.terminal confirmation_expired ≡ true
  pub failed_closed : h.terminal failed ≡ true
  pub succeeded_closed : h.terminal succeeded ≡ true

abbrev pub is_awaiting : TaskState → Bool
is_awaiting awaiting_confirmation = true
is_awaiting _ = false

abbrev pub is_queued : TaskState → Bool
is_queued queued = true
is_queued _ = false

abbrev pub is_needs_attention : TaskState → Bool
is_needs_attention needs_attention = true
is_needs_attention _ = false
