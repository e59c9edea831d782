-- ===== src/Cli/Discover.antt =====
-- `DiscoverLogs`, `detectBrewPrefix` and the small helpers of internal/cli/logs.go. The file system,
-- the environment, the configuration and `brew` are the parameter `Machine`; paths are clean.
use tokenlive_standalone.Prelude.{
  ℕ, Bool, true, false, not, ◌||◌, String, List, [], ◌∷◌, ◌++◌, Option, none, some, ◌==◌, join,
  without_suffix, trim_space, if◌then◌else◌,
}
use tokenlive_standalone.Cli.Errors.{LogFileInfo}
pub mod Unique

pub record Info : Type 0 where
  pub version : String
  pub build_kind : String
  pub default_config_path : String
  pub default_data_dir : String
  pub default_admin_work_dir : String
  pub default_admin_static : String

-- What `os.Stat` answers of a path.
pub record FileInfo : Type 0 where
  pub file_size : ℕ
  pub modified : ℕ
  pub is_dir : Bool

pub record Machine : Type 0 where
  pub stat : String → Option FileInfo
  pub homebrew_prefix : String  -- the variable `HOMEBREW_PREFIX`
  pub brew_prefix : Option String  -- what `brew --prefix` prints
  pub loads : String → Bool  -- whether `config.NewConfig` of a file returns; it panics otherwise
  pub log_file_name : String → String  -- `log.log_file_name` of a configuration that it returns
  pub is_abs : String → Bool

abbrev pub first_non_empty : List String → String
first_non_empty [] = ""
first_non_empty (v ∷ vals) = if v == "" then first_non_empty vals else v

abbrev pub has_path : List String → String → Bool
has_path [] path = false
has_path (p ∷ seen) path = p == path || has_path seen path

abbrev pub paths_of : List LogFileInfo → List String
paths_of [] = []
paths_of (l ∷ logs) = l.path ∷ paths_of logs

abbrev pub is_regular : Option FileInfo → Bool
is_regular none = false
is_regular (some st) = if st.is_dir then false else true

abbrev pub log_file_info : String → String → Option FileInfo → LogFileInfo
log_file_info tag path none = record {
  tag = tag;
  path = path;
  size = 0;
  mod_time = 0;
  exists = false;
}
log_file_info tag path (some st) = record {
  tag = tag;
  path = path;
  size = st.file_size;
  mod_time = st.modified;
  exists = true;
}

module _ (m : Machine) where
  abbrev pub file_exists : String → Bool
  file_exists p = is_regular (m.stat p)

  abbrev pub exists_str : String → String
  exists_str p = if file_exists p then "exists" else "missing"

  -- The closure `add`: `seen` is the paths of the list.
  unfoldable pub add : String → String → List LogFileInfo → List LogFileInfo
  add tag path logs =
      if path == "" || has_path (paths_of logs) path
      then logs
      else logs ++ (log_file_info tag path (m.stat path) ∷ [])

  abbrev pub first_candidate : List String → String
  first_candidate [] = ""
  first_candidate (c ∷ cs) = if file_exists (join c "var/log") then c else first_candidate cs

  abbrev pub brew_answer : Option String → String
  brew_answer (some out) = trim_space out
  brew_answer none = first_candidate ("/opt/homebrew" ∷ ("/usr/local" ∷ []))

  abbrev pub environment_prefix : String
  environment_prefix =
      if m.homebrew_prefix == "" then brew_answer m.brew_prefix else m.homebrew_prefix

  abbrev pub configured_prefix : Option String → String
  configured_prefix (some prefix) = prefix
  configured_prefix none = environment_prefix

  -- `detectBrewPrefix`. The empty path has no such suffix.
  unfoldable pub detect_brew_prefix : String → String
  unfolding join trim_space without_suffix
  detect_brew_prefix conf = configured_prefix (without_suffix "/etc/tokenlive/config.yml" conf)

  abbrev pub add_service : String → List LogFileInfo → List LogFileInfo
  add_service prefix logs =
      if prefix == ""
      then logs
      else add "service-out" (join prefix "var/log/tokenlive.log")
          (add "service-err" (join prefix "var/log/tokenlive.err.log") logs)

  abbrev pub in_data : String → String → String
  in_data root file = if m.is_abs file then file else join root file

  abbrev pub add_config : String → String → List LogFileInfo → List LogFileInfo
  add_config root conf logs =
      if conf == ""
      then logs
      else (if file_exists conf
          then (if m.log_file_name conf == ""
              then logs
              else add "config-log" (in_data root (m.log_file_name conf)) logs)
          else logs)

  abbrev pub resolved_data : Info → String → String
  resolved_data info data_dir =
      if data_dir == "" then first_non_empty (info.default_data_dir ∷ ("data" ∷ [])) else data_dir

  abbrev pub resolved_conf : Info → String → String
  resolved_conf info conf_path = if conf_path == "" then info.default_config_path else conf_path

  -- The configuration that `DiscoverLogs` reads, if it reads one, can be loaded.
  abbrev pub config_loads : String → Bool
  config_loads conf = conf == "" || (not (file_exists conf) || m.loads conf)

  -- `DiscoverLogs`, where the configuration can be loaded.
  unfoldable pub discover_logs : Info → String → String → List LogFileInfo
  unfolding detect_brew_prefix join add
  discover_logs info conf_path data_dir =
      let root = resolved_data info data_dir in
      let service = add_service (detect_brew_prefix info.default_config_path) [] in
      let app = add "app-log" (join root "logs/tokenlive.log") service in
      add_config root (resolved_conf info conf_path) app
