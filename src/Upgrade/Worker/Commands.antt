-- ===== src/Upgrade/Worker/Commands.antt =====
-- internal/upgrade/worker.go, runner.go and launchd.go: the commands of the job, with their arguments,
-- environment and time limit in seconds.
use tokenlive_standalone.Prelude.{ℕ, String, List, [], ◌∷◌, ◌++◌, join, text_append}
use tokenlive_standalone.Upgrade.Disk.{Issued, command, replaced_by, World}

-- Where the worker runs: the prefix and the home directory.
pub record Site : Type 0 where
  pub prefix : String
  pub home : String

-- The world in which more has been issued.
abbrev pub issue : List Issued → World → World
issue cs w = record w { issued = w.issued ++ cs }

abbrev pub tap_file : Site → String → String
tap_file s id =
    join (join (join s.prefix "Library/Taps/tokenlive/homebrew-tokenlive/.tokenlive-upgrade") id)
      "tokenlive.rb"

abbrev pub brew_env : Site → List String
brew_env s =
    text_append "PATH=" (text_append s.prefix "/bin:/usr/bin:/bin:/usr/sbin:/sbin")
    ∷ (text_append "HOME=" s.home
        ∷ (text_append "HOMEBREW_PREFIX=" s.prefix
            ∷ ("HOMEBREW_NO_AUTO_UPDATE=1"
                ∷ ("HOMEBREW_NO_INSTALL_CLEANUP=1"
                    ∷ ("HOMEBREW_NO_INSTALLED_DEPENDENTS_CHECK=1"
                        ∷ ("HOMEBREW_NO_ANALYTICS=1"
                            ∷ ("HOMEBREW_NO_ENV_HINTS=1"
                                ∷ ("HOMEBREW_NO_INSTALL_FROM_API=1" ∷ []))))))))

-- `runBrew`.
abbrev pub run_brew : Site → ℕ → List String → Issued
run_brew s timeout args = command (join s.prefix "bin/brew" ∷ args) (brew_env s) timeout

abbrev pub upgrade_command : Site → String → Issued
upgrade_command s id = run_brew s 600 ("upgrade" ∷ ("--formula" ∷ (tap_file s id ∷ [])))

abbrev pub stop_command : Site → Issued
stop_command s = run_brew s 90 ("services" ∷ ("stop" ∷ ("--max-wait=60" ∷ ("tokenlive" ∷ []))))

abbrev pub start_command : Site → Issued
start_command s = run_brew s 120 ("services" ∷ ("start" ∷ ("tokenlive" ∷ [])))

abbrev pub launchctl_env : List String
launchctl_env = "PATH=/usr/bin:/bin" ∷ []

abbrev pub list_command : String → Issued
list_command label = command ("/bin/launchctl" ∷ ("list" ∷ (label ∷ []))) launchctl_env 10

-- `bootoutSelf`.
abbrev pub bootout_self : String → String → Issued
bootout_self domain label =
    replaced_by ("launchctl" ∷ ("bootout" ∷ (text_append domain (text_append "/" label) ∷ [])))
      launchctl_env
