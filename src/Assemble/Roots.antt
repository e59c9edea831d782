-- ===== src/Assemble/Roots.antt =====
-- internal/assemble/upgrade.go and internal/cli/upgrade.go: the roots that the two derive.
use tokenlive_standalone.Prelude.{
  ◌||◌, ◌≡◌, ◌≢◌, refl, inl, inr, arith, eq_iff, Bool-cases, ◌==◌, dir,
}
use tokenlive_standalone.Upgrade.Identity.{Installation}
use tokenlive_standalone.Assemble.{or_else, service_root}
use tokenlive_standalone.Cli.Discover.{Info}
use tokenlive_standalone.Cli.Upgrade.{Command, upgrades_root}

-- If the data directory, by default `data`, has a parent that is neither the working directory nor
-- itself, the service keeps the tasks of an installation where the command line looks for them.
pub service_root-eq-upgrades_root :
    (c : Command) (info : Info) (i : Installation)
    → dir (or_else info.default_data_dir "data") ≢ "."
    → dir (or_else info.default_data_dir "data") ≢ or_else info.default_data_dir "data"
    → service_root c.install_id_for info.default_data_dir i ≡ upgrades_root c info i
unfolding service_root
service_root-eq-upgrades_root c info i named below =
    let d = or_else info.default_data_dir "data" in
    elim (Bool-cases (dir d == "." || dir d == d)) [
      | inl y ↦ absurd (ground (arith, y, named, below, eq_iff (dir d) ".", eq_iff (dir d) d))
      | inr y ↦ rw y refl
    ]
