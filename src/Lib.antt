-- ===== src/Lib.antt =====
-- A model of tokenlive-standalone, with the theorems that make its parts correct.
--
-- internal/upgrade is the self-upgrade: the web process probes that it runs as the Homebrew service
-- (`Probe`), offers an upgrade (`Capability`), makes a task for a validated candidate (`Prepare`),
-- accepts its confirmation (`Submit`) and starts a one-shot job of launchd; that job (`Worker.Run`)
-- stages the formula, upgrades, restarts and verifies the service. Both sides share nothing but
-- files: one record for each task, a retained index of finished ones, and a lock.
-- internal/confighub is the in-process cache of the gateway's configuration. internal/cli reads and
-- follows the logs that the services write, and has the subcommands that report on upgrades and run
-- one. internal/assemble and cmd/tokenlive put the service together.
--
-- Which file models what:
--   Prelude and its children: Boolean tests, lists over the native numbers, `sort.Slice`, and the
--     functions of `strings`, `strconv` and `filepath` that the program uses.
--   Upgrade.Host: the states of a task (package `upgradehost`, outside the repository).
--   Upgrade.Task: internal/upgrade/state.go, `Task`, `View`, `tsOrEmpty`, `taskFromView`.
--   Upgrade.Active: internal/upgrade/tasks.go.
--   Upgrade.Disk: the files below the upgrades root, `writeFileAtomic`, and actions on them.
--   Upgrade.Store: the rest of state.go, and lock.go.
--   Upgrade.Command: runner.go and exec_runner.go. Upgrade.Launchd: launchd.go. Upgrade.Plist and
--     its child Render: plist.go. Upgrade.Identity: identity.go. Upgrade.Formula:
--     formula.go. Their children hold theorems.
--   Upgrade.Manager and its children Prepare, Submit, Queries: internal/upgrade/manager.go; its
--     children Prepared and Submitted hold theorems.
--   Upgrade.Worker: internal/upgrade/worker.go, without the polling, which is Upgrade.Verify.
--   Upgrade.Health: internal/upgrade/verify.go, `Check` and `sanitize`.
--   Upgrade.Safety and its children, Upgrade.Worker.Safety, Upgrade.Worker.Run, Upgrade.Worker.Restarted,
--     Upgrade.Worker.Proven: what each operation leaves of the store. Upgrade.Reach: histories of operations.
--   Upgrade.Worker.Commands: the commands of a run, with their arguments. Upgrade.Worker.Plan has a
--     theorem on them.
--   ConfigHub and its child Provider: internal/confighub/hub.go; its other children hold theorems.
--   Cli and its children Tail, Errors, Format, Discover, Follow, Logs: internal/cli/logs.go; the
--     children of these hold theorems.
--   Cli.Upgrade: internal/cli/upgrade.go, and `RunWorkerTask`.
--   Assemble: the decisions of internal/assemble/assemble.go and upgrade.go. Assemble.App: building,
--     serving and closing the instance of assemble.go. Assemble.Entry: the decisions of
--     cmd/tokenlive/main.go, and Assemble.Main: its `main`. Assemble.Roots, Assemble.Stale and
--     Assemble.Main.Closed hold theorems.
--   Bridge: internal/bridge; Bridge.Lossless has a theorem.
--   Witnesses: concrete runs.
--
-- How the state corresponds. `World` is the upgrades root: directories by task identifier, the
-- index, the lock, what the job has issued so far, and an oracle `faults` that decides whether each write fails; a write fails
-- whole or succeeds whole, as the rename of a temporary file does. Operations return the new `World`
-- beside their result, so what was written before an error stays. `Manager` and `Worker` carry what
-- one call takes from outside: the fetched candidate, secrets, how each command ended and what it
-- printed, the answers of the service and of the kernel. A whole operation is one step of a history:
-- the operations that write a new task hold the lock, and reconciliation outside of it is a step of
-- its own. `Poll` is what one round of the worker's polling sees, and `Tick` what one tick of a
-- followed log sees: the file that the path names, what opening it gives, and the contents by inode.
--
-- Assumptions and bounds. One instant stands for all clock readings of a call but in the polling,
-- where time passes by the interval and a delay of each round. Times are nanoseconds, a summary's
-- times are whole seconds. The states of a task are distinct constants; any other word is `unnamed`;
-- `Classifies` is the documented meaning of `StateTerminal`, with nothing assumed of
-- `needs_attention`. The digest and `url.PathEscape` are parameters; a fresh identifier is one that
-- no retained record carries, and not `..`. Details, outputs and logs are lists of bytes, of ASCII
-- text. A record that is written reads back as it is: its JSON is not modelled. Reading an open log
-- ends at its end, and never fails before. `config.NewConfig` of a file that it cannot load panics.
-- `sort.Slice` is a stable insertion sort. `filepath.Join` is concatenation of clean parts; the
-- root joined with `..` is its parent, whose removal takes the whole store. The XML decoder is a
-- parameter that turns a text into tokens. Error texts are kept where they reach a record; a sentinel
-- error is kept without its text. Three loops run on fuel: the polling, for two rounds more than the
-- budget has intervals, and the division in `formatBytes`, for six rounds, which is enough for 63
-- bits, and the digits of a decimal number, for one round more than the number; all other functions recur on their lists. The version of the hub wraps at 2^64 and credits
-- are 64-bit patterns; an absent blob is the empty one.
--
-- Not modelled: the routes of the HTTP server, the administration and the gateway, which are what
-- building them comes to and the calls they get; how the regular expressions of formula.go match;
-- running a process; the parsing of flags; and the constructors of probers. Writing the temporary
-- files, permissions and fsync are not modelled either. One refresh of the hub, with the calls of
-- the gateway that it causes, is one step.
mod Prelude
pub mod Upgrade
pub mod ConfigHub
pub mod Cli
pub mod Bridge
pub mod Assemble
mod Witnesses
