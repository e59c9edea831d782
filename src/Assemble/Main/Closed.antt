-- ===== src/Assemble/Main/Closed.antt =====
-- internal/assemble/assemble.go and cmd/tokenlive/main.go: the release of what `main` builds.
use tokenlive_standalone.Prelude.{
  ◌+◌, ◌≤◌, Bool, true, false, String, List, [], ◌∷◌, Option, none, some, ◌≡◌, refl, ap, ◌∙◌, arith,
  if◌then◌else◌,
}
use tokenlive_standalone.ConfigHub.{Gateway, Answer}
use tokenlive_standalone.Assemble.{Options, AssembleError, checked_options, validate_all_in_one}
use tokenlive_standalone.Assemble.App.{
  Sizes, App, Event, config_changed, ticked, Served, context_done, server_closed, server_failed,
  close, refresh_app, on_event, run_events, built_on, new_app, listen_and_serve,
}
use tokenlive_standalone.Assemble.Main.{
  Flags, Defaults, Settings, Environment, World, after_serving, serve_app, run_service, configured,
  main, options_of, with_token, with_log_path,
}

module _ (g : Gateway) (z : Sizes g) where
  -- An instance that was never closed: its cleanup is still to be run.
  record IsOpen (a : App g z) : Type 0 where
    to_run : a.gw_cleanup ≡ true
    not_run : a.cleanups ≡ 0
    still_up : a.admin_shutdowns ≡ 0

  IsOpen-refresh_app :
      (a : App g z) (kind : String) (answer : Answer)
      → IsOpen a
      → IsOpen (refresh_app g z a kind answer)
  unfolding refresh_app
  IsOpen-refresh_app a kind answer o = record {
    to_run = o.to_run;
    not_run = o.not_run;
    still_up = o.still_up;
  }

  IsOpen-on_event : (a : App g z) (e : Event g z) → IsOpen a → IsOpen (on_event g z a e)
  IsOpen-on_event a (config_changed kind answer) o = chosen a.has_gateway
    where
      chosen : (b : Bool) → IsOpen (if b then refresh_app g z a kind answer else a)
      chosen true = IsOpen-refresh_app a kind answer o
      chosen false = o
  IsOpen-on_event a (ticked answer) o = IsOpen-refresh_app a "all" answer o

  IsOpen-run_events :
      (a : App g z) (events : List (Event g z)) → IsOpen a → IsOpen (run_events g z a events)
  unfolding run_events
  IsOpen-run_events a [] o = o
  IsOpen-run_events a (e ∷ events) o =
      IsOpen-run_events (on_event g z a e) events (IsOpen-on_event a e o)

  -- Released: the gateway's cleanup ran once, and the administration was shut down.
  pub record IsReleased (a : App g z) : Type 0 where
    pub cleaned_once : a.cleanups ≡ 1
    pub nothing_left : a.gw_cleanup ≡ false
    pub shut_down : 1 ≤ a.admin_shutdowns

  IsReleased-close : (a : App g z) → IsOpen a → IsReleased (close g z a)
  IsReleased-close a o = record {
    cleaned_once =
        ap (λ b. if b then a.cleanups + 1 else a.cleanups) o.to_run ∙ omega (arith, o.not_run);
    nothing_left = refl;
    shut_down = omega arith;
  }

  IsReleased-again : (a : App g z) → IsReleased a → IsReleased (close g z a)
  IsReleased-again a r = record {
    cleaned_once =
        ap (λ b. if b then a.cleanups + 1 else a.cleanups) r.nothing_left ∙ r.cleaned_once;
    nothing_left = refl;
    shut_down = omega (arith, r.shut_down);
  }

  -- An instance that `main` leaves behind, if any.
  abbrev pub AreReleased : Option (App g z) → Type 0
  AreReleased none = Unit
  AreReleased (some a) = IsReleased a

  served_released :
      (a : App g z) (events : List (Event g z)) (s : Served g z)
      → IsOpen a
      → AreReleased (after_serving g z (listen_and_serve g z a events s)).1
  unfolding listen_and_serve
  served_released a events context_done o =
      IsReleased-again (close g z (run_events g z a events))
        (IsReleased-close (run_events g z a events) (IsOpen-run_events a events o))
  served_released a events server_closed o =
      IsReleased-again (close g z (run_events g z a events))
        (IsReleased-close (run_events g z a events) (IsOpen-run_events a events o))
  served_released a events server_failed o =
      IsReleased-close (run_events g z a events) (IsOpen-run_events a events o)

  built_released :
      (w : World g z) (b c : Bool) (answer : Answer) (e : Option AssembleError)
      → AreReleased (serve_app g z w (built_on g z b c answer e)).1
  built_released w b c answer (some e) = tt
  built_released w false c answer none = tt
  built_released w true false answer none = tt
  built_released w true true answer none =
      served_released _ w.events w.served
        (record { to_run = refl; not_run = refl; still_up = refl })

  run_released :
      (w : World g z) (opt : Options) (e : Option AssembleError)
      → AreReleased (run_service g z w opt e).1
  unfolding new_app
  run_released w opt (some e) = tt
  run_released w opt none =
      built_released w w.admin_built w.gateway_built w.first_answer (checked_options opt)

  -- However `main` ends, whatever it is built of and whatever happens while it serves, an instance
  -- that it built had its gateway's cleanup run exactly once and its administration shut down.
  pub main-AreReleased :
      (w : World g z) (e : Environment) (d : Defaults) (f : Flags)
      → AreReleased (main g z w e d f).1
  unfolding main
  main-AreReleased w e d f = shown f.show_version
    where
      loaded : (o : Option Settings) → AreReleased (configured g z w e d f o).1
      loaded none = tt
      loaded (some settings) =
          let v = with_token e settings in
          run_released w (options_of e d f (with_log_path e f.data_dir v))
            (validate_all_in_one (some v.config))

      shown :
          (b : Bool)
          → AreReleased
              (if b then (0, none) else configured g z w e d f (e.load_config f.conf_path)).1
      shown true = tt
      shown false = loaded (e.load_config f.conf_path)
