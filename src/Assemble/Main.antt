-- ===== src/Assemble/Main.antt =====
-- cmd/tokenlive/main.go: `main`, from the parsed flags and the environment to its exit code.
use tokenlive_standalone.Prelude.{
  ℕ, ◌+◌, Bool, true, false, not, ◌&&◌, String, List, [], ◌∷◌, Option, none, some, ◌==◌, join,
  if◌then◌else◌,
}
use tokenlive_standalone.ConfigHub.{Gateway, Answer}
use tokenlive_standalone.Assemble.{Config, AssembleError, Options, or_else, validate_all_in_one}
use tokenlive_standalone.Assemble.Entry.{work_dir, admin_cfg, static_dir, installed_channel}
use tokenlive_standalone.Assemble.App.{
  Sizes, App, Event, Built, refused, admin_failed, gateway_failed, built, Served, close, new_app,
  listen_and_serve,
}
pub mod Closed

pub record Flags : Type 0 where
  pub show_version : Bool
  pub conf_path : String
  pub admin_work_dir : String
  pub admin_configs : String
  pub admin_static : String
  pub data_dir : String

-- The values that the build sets.
pub record Defaults : Type 0 where
  pub admin_work_dir : String
  pub admin_static : String

-- The settings of a configuration file that `main` reads and sets.
pub record Settings : Type 0 where
  pub config : Config
  pub sync_token : String
  pub log_file_name : String

pub record Environment : Type 0 where
  pub gateway_sync_token : String
  pub admin_workdir : String
  pub admin_static : String
  pub load_config : String → Option Settings  -- `none` where `config.NewConfig` panics
  pub is_abs : String → Bool
  pub dir_exists : String → Bool
  pub detected_static : String
  pub executable : String
  pub eval_symlinks : String → Option String
  pub read_file : String → Option String

-- The token of the environment, which `main` sets where it is empty.
abbrev pub env_token : Environment → String
env_token e = or_else e.gateway_sync_token "tokenlive-standalone-selfsync"

-- The settings that the service runs with.
abbrev pub log_path : Environment → String → String → String
log_path e data_dir name =
    if not (name == "") && not (e.is_abs name) then join data_dir name else name

abbrev pub with_token : Environment → Settings → Settings
with_token e v = record v { sync_token = or_else v.sync_token (env_token e) }

abbrev pub with_log_path : Environment → String → Settings → Settings
with_log_path e data_dir v = record v { log_file_name = log_path e data_dir v.log_file_name }

-- The options of `assemble.New`; the host and the port are left to its defaults.
abbrev pub options_of : Environment → Defaults → Flags → Settings → Options
options_of e d f v =
    let wd = work_dir f.admin_work_dir e.admin_workdir d.admin_work_dir in
    record {
      gateway_conf = some v.config;
      has_logger = true;
      admin_work_dir = wd;
      admin_configs = admin_cfg e.dir_exists f.admin_configs wd;
      admin_static_dir = static_dir f.admin_static e.admin_static d.admin_static e.detected_static;
      install_channel = installed_channel e.eval_symlinks e.read_file e.executable;
      data_dir = f.data_dir;
      host = "";
      port = 0;
    }

module _ (g : Gateway) (z : Sizes g) where
  -- What building the parts comes to, what the first refresh finds, what then happens, and how
  -- serving ends.
  pub record World : Type 0 where
    pub admin_built : Bool
    pub gateway_built : Bool
    pub first_answer : Answer
    pub events : List (Event g z)
    pub served : Served g z

  -- The exit code, and the instance that was built, as it is then.
  abbrev pub Exit : Type 0
  Exit = ℕ × Option (App g z)

  -- `os.Exit` runs no deferred function; the end of `main` runs the deferred `Close`.
  abbrev pub after_serving : App g z × Bool → Exit
  after_serving (a, true) = (1, some a)
  after_serving (a, false) = (0, some (close g z a))

  abbrev pub serve_app : World → Built g z → Exit
  serve_app w (refused e) = (1, none)
  serve_app w admin_failed = (1, none)
  serve_app w (gateway_failed n) = (1, none)
  serve_app w (built a) = after_serving (listen_and_serve g z a w.events w.served)

  abbrev pub run_service : World → Options → Option AssembleError → Exit
  run_service w opt (some e) = (2, none)
  run_service w opt none =
      serve_app w (new_app g z opt w.admin_built w.gateway_built w.first_answer)

  -- A panic exits with 2.
  abbrev pub configured : World → Environment → Defaults → Flags → Option Settings → Exit
  configured w e d f none = (2, none)
  configured w e d f (some settings) =
      let v = with_token e settings in
      run_service w (options_of e d f (with_log_path e f.data_dir v))
        (validate_all_in_one (some v.config))

  -- `main`, where the arguments name no subcommand.
  unfoldable pub main : World → Environment → Defaults → Flags → Exit
  unfolding new_app listen_and_serve installed_channel join
  main w e d f =
      if f.show_version then (0, none) else configured w e d f (e.load_config f.conf_path)
