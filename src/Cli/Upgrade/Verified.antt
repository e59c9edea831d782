-- ===== src/Cli/Upgrade/Verified.antt =====
-- `RunUpgradeWorker` of internal/cli/upgrade.go, against what `Probe` finds.
use tokenlive_standalone.Prelude.{
  true, false, String, none, some, ◌≡◌, refl, sym, ap, ◌∙◌, inl, inr, Bool-cases, ◌==◌, dir,
}
use tokenlive_standalone.Upgrade.Worker.{run}
use tokenlive_standalone.Upgrade.Disk.{Outcome, ok, err, World}
use tokenlive_standalone.Upgrade.Identity.{
  Installation, Checked, passed, refused, first_text, in_cellar,
}
use tokenlive_standalone.Upgrade.Identity.Sound.{IsVerified, probe-IsVerified}
use tokenlive_standalone.Cli.Discover.{Info}
use tokenlive_standalone.Cli.Upgrade.{
  Command, cli_prober, upgrades_root, upgrade_paths, Exit, worker_for, worker_on,
  run_upgrade_worker,
}

-- The exit that a run of the worker comes to, with the store that it leaves at a root: 0 where it
-- reports no error, and 1 where it reports one.
abbrev pub ExitsAs : String → Outcome (Unit {0}) × World → Exit → Type 0
ExitsAs root (ok u, w) e = e ≡ (0, some (root, w))
ExitsAs root (err x, w) e = e ≡ (1, some (root, w))

-- The exit that the answer of `Probe` asks for: 2 with no store touched where it refuses, and
-- otherwise that of the worker of the verified installation, on the store below its root.
abbrev pub IsProbedExit : Command → Info → String → Checked Installation → Exit → Type 0
IsProbedExit c info id (refused reason) e = e ≡ (2, none)
IsProbedExit c info id (passed i) e =
    IsVerified c.machine (cli_prober c) i
    × ((worker_for c i).watch.prefix ≡ i.prefix)
    × ((worker_for c i).site.prefix ≡ i.prefix)
    × ((worker_for c i).site.home ≡ i.home)
    × ExitsAs (upgrades_root c info i) (run (worker_for c i) id (c.store (upgrades_root c info i)))
        e

worker_on-refused :
    (c : Command) (info : Info) (id resolved : String) (o : Checked Installation)
    → upgrade_paths c ≡ o
    → c.machine.eval_symlinks (first_text c.machine c.machine.executable c.machine.executable)
      ≡ some resolved
    → in_cellar c.machine (dir (dir resolved)) ≡ false
    → worker_on c info id o ≡ (2, none)
unfolding upgrade_paths
worker_on-refused c info id resolved (refused reason) h e n = refl
worker_on-refused c info id resolved (passed i) h e n =
    let v = probe-IsVerified c.machine (cli_prober c) 0 i h in
    let same : resolved ≡ v.resolved = same_text (sym e ∙ v.resolves) in
    let here : in_cellar c.machine (dir (dir resolved)) ≡ true =
      ap (λ s. in_cellar c.machine (dir (dir s))) same
      ∙ (ap (in_cellar c.machine) (sym v.keg_is) ∙ v.cellar) in
    absurd (cc (here, n))
  where
    same_text : {s t : String} → some s ≡ some t → s ≡ t
    same_text {s = s} q = ap (λ x. elim x [ none ↦ s | some y ↦ y ]) q

-- If the running binary resolves to a file whose directory's parent is not a keg below
-- `Cellar/tokenlive`, `RunUpgradeWorker` exits with 2 and touches no store, whatever the task is.
pub run_upgrade_worker_refused :
    (c : Command) (info : Info) (id resolved : String)
    → c.machine.eval_symlinks c.machine.executable ≡ some resolved
    → in_cellar c.machine (dir (dir resolved)) ≡ false
    → run_upgrade_worker c info (some id) ≡ (2, none)
unfolding run_upgrade_worker
run_upgrade_worker_refused c info id resolved e n = elim (Bool-cases (id == "")) [
  | inl y ↦ rw y refl
  | inr y ↦
      rw y (
        worker_on-refused c info id resolved (upgrade_paths c) refl (first c.machine.executable e)
          n)
]
  where
    first :
        (s : String)
        → c.machine.eval_symlinks s ≡ some resolved
        → c.machine.eval_symlinks (first_text c.machine s s) ≡ some resolved
    first s q = elim (Bool-cases (s == "")) [ inl y ↦ rw y q | inr y ↦ rw y q ]
