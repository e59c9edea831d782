-- ===== src/Assemble/Entry.antt =====
-- cmd/tokenlive/main.go: which subcommand the arguments name, the directories that the service is
-- started with, and the channel of the running binary.
use tokenlive_standalone.Prelude.{
  Bool, ◌||◌, String, List, [], ◌∷◌, Option, none, some, ◌==◌, dir, join, without_suffix,
  if◌then◌else◌,
}
use tokenlive_standalone.Assemble.{or_else}

pub data Subcommand : Type 0 where
  logs status upgrade_status upgrade_worker : List String → Subcommand
  serve : Subcommand

-- The arguments behind the program's name.
unfoldable pub dispatch : List String → Subcommand
dispatch [] = serve
dispatch (a ∷ args) =
    if a == "logs" || (a == "log" || (a == "-logs" || a == "--logs"))
    then logs args
    else if a == "status" || (a == "-status" || a == "--status")
    then status args
    else if a == "upgrade-status"
    then upgrade_status args
    else if a == "upgrade-worker"
    then upgrade_worker args
    else serve

-- The administration's directory: the flag, the environment, the default.
abbrev pub work_dir : String → String → String → String
work_dir flag env default_dir = or_else (or_else flag env) (or_else default_dir "configs/admin")

-- The subset of its configuration.
abbrev pub admin_cfg : (String → Bool) → String → String → String
admin_cfg dir_exists flag wd =
    if flag == ""
    then (if dir_exists (join wd "conf")
        then "conf"
        else (if dir_exists (join wd "dev") then "dev" else "conf"))
    else flag

-- The console: the flag, the environment, the default, what is detected.
abbrev pub static_dir : String → String → String → String → String
static_dir flag env default_static detected =
    or_else (or_else (or_else flag env) default_static) detected

abbrev pub trim_newline : String → String
trim_newline s = elim (without_suffix "\n" s) [ none ↦ s | some t ↦ t ]

abbrev pub channel_of : Option String → String
channel_of none = "unknown"
channel_of (some content) = if trim_newline content == "homebrew" then "homebrew" else "unknown"

abbrev pub channel_at : (String → Option String) → Option String → String
channel_at read_file none = "unknown"
channel_at read_file (some resolved) =
    channel_of (read_file (join (dir (dir resolved)) "libexec/tokenlive-install-channel"))

-- `installedChannel`.
unfoldable pub installed_channel :
    (String → Option String) → (String → Option String) → String → String
unfolding join dir without_suffix
installed_channel eval_symlinks read_file executable =
    if executable == "" then "unknown" else channel_at read_file (eval_symlinks executable)
