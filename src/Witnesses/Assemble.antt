-- ===== src/Witnesses/Assemble.antt =====
-- An instance whose gateway hears of a snapshot, and a service that is told to stop.
use tokenlive_standalone.Prelude.{◌≡◌, refl, true, false, none, some, [], ◌∷◌}
use tokenlive_standalone.ConfigHub.{loaded_snapshot}
use tokenlive_standalone.ConfigHub.Provider.{new_hub}
use tokenlive_standalone.Assemble.{purge_policies, on_reload}
use tokenlive_standalone.Assemble.App.{Sizes, App, config_changed, ticked, context_done, run_events}
use tokenlive_standalone.Assemble.Stale.{run_events-first_kind}
use tokenlive_standalone.Assemble.Main.{Flags, Defaults, Environment, World, main}
use tokenlive_standalone.Assemble.Main.Closed.{AreReleased, main-AreReleased}
use tokenlive_standalone.Witnesses.ConfigHub.{a_gateway, a_snapshot, loaded_hub, is_new, took_over}

abbrev some_sizes : Sizes a_gateway
some_sizes = record { hub_config = λ _. record { models = 3; pipelines = 1 } }

abbrev a_running : App a_gateway some_sizes
a_running = record {
  hub = new_hub a_gateway;
  has_gateway = true;
  calls = [];
  gw_cleanup = true;
  cleanups = 0;
  admin_shutdowns = 0;
}

run_events-first_kind_example :
    (run_events a_gateway some_sizes a_running (
      config_changed "policies" (loaded_snapshot a_snapshot)
      ∷ (config_changed "endpoints" (loaded_snapshot a_snapshot)
          ∷ (ticked (loaded_snapshot a_snapshot) ∷ [])))).calls
    ≡ purge_policies ∷ []
unfolding on_reload
run_events-first_kind_example =
    run_events-first_kind a_gateway some_sizes a_running "policies" a_snapshot
      (record loaded_hub { reloads = "policies" ∷ [] }) (some "endpoints" ∷ (none ∷ [])) refl
      (is_new, took_over)

abbrev a_world : World a_gateway some_sizes
a_world = record {
  admin_built = true;
  gateway_built = true;
  first_answer = loaded_snapshot a_snapshot;
  events = ticked (loaded_snapshot a_snapshot) ∷ [];
  served = context_done;
}

abbrev an_environment : Environment
an_environment = record {
  gateway_sync_token = "";
  admin_workdir = "";
  admin_static = "";
  load_config = λ _. some (record {
    config = record { config_source = "embedded"; http_host = ""; http_port = 0 };
    sync_token = "";
    log_file_name = "logs/tokenlive.log";
  });
  is_abs = λ _. false;
  dir_exists = λ _. true;
  detected_static = "";
  executable = "";
  eval_symlinks = λ _. none;
  read_file = λ _. none;
}

abbrev some_defaults : Defaults
some_defaults = record { admin_work_dir = "configs/admin"; admin_static = "" }

abbrev some_flags : Flags
some_flags = record {
  show_version = false;
  conf_path = "config.yml";
  admin_work_dir = "";
  admin_configs = "";
  admin_static = "";
  data_dir = "data";
}

main-AreReleased_example :
    AreReleased a_gateway some_sizes
      (main a_gateway some_sizes a_world an_environment some_defaults some_flags).1
main-AreReleased_example =
    main-AreReleased a_gateway some_sizes a_world an_environment some_defaults some_flags
