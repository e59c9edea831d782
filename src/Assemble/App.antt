-- ===== src/Assemble/App.antt =====
-- internal/assemble/assemble.go: `New` up to the running instance, the events that reach its hub, and
-- its shutdown. The administration and the gateway are what building them comes to, what the source
-- of snapshots answers, and the calls that the gateway gets.
use tokenlive_standalone.Prelude.{
  ℕ, ◌+◌, String, Bool, true, false, List, [], ◌∷◌, ◌++◌, Option, none, some, ltb, length,
  if◌then◌else◌,
}
use tokenlive_standalone.ConfigHub.{Gateway, Answer, Hub, refresh}
use tokenlive_standalone.ConfigHub.Provider.{new_hub}
use tokenlive_standalone.Assemble.{
  Options, AssembleError, checked_options, HubConfig, GatewayCall, apply_hub_config, on_reload,
}

-- The models and pipelines of a configuration, by their numbers.
pub record Sizes (g : Gateway) : Type 0 where
  pub hub_config : g.Config → HubConfig

module _ (g : Gateway) (z : Sizes g) where
  pub record App : Type 0 where
    pub hub : Hub g
    pub has_gateway : Bool
    pub calls : List GatewayCall  -- what the gateway was called with, in order
    pub gw_cleanup : Bool  -- whether the cleanup is still to be run
    pub cleanups : ℕ
    pub admin_shutdowns : ℕ

  abbrev pub sizes_of : Option g.Config → Option HubConfig
  sizes_of none = none
  sizes_of (some c) = some (z.hub_config c)

  -- `Refresh` of the hub, whose handler `OnReload` is set by then: it is called when the hub takes a
  -- snapshot over.
  abbrev pub reloaded : App → String → Hub g → App
  reloaded a kind h = record a {
    hub = h;
    calls =
        if ltb (length a.hub.reloads) (length h.reloads)
        then a.calls ++ on_reload a.has_gateway (sizes_of h.config) kind
        else a.calls;
  }

  unfoldable pub refresh_app : App → String → Answer → App
  unfolding refresh on_reload
  refresh_app a kind answer = reloaded a kind (refresh g a.hub kind answer).0

  -- What reaches the hub: a change in the administration, and a tick of the periodic refresh.
  pub data Event : Type 0 where
    config_changed : String → Answer → Event
    ticked : Answer → Event

  -- A change before there is a gateway is dropped.
  abbrev pub on_event : App → Event → App
  on_event a (config_changed kind answer) = if a.has_gateway then refresh_app a kind answer else a
  on_event a (ticked answer) = refresh_app a "all" answer

  unfoldable pub run_events : App → List Event → App
  unfolding refresh_app
  run_events a [] = a
  run_events a (e ∷ events) = run_events (on_event a e) events

  -- `Close`.
  abbrev pub close : App → App
  close a = record a {
    admin_shutdowns = a.admin_shutdowns + 1;
    cleanups = if a.gw_cleanup then a.cleanups + 1 else a.cleanups;
    gw_cleanup = false;
  }

  pub data Built : Type 0 where
    refused : AssembleError → Built
    admin_failed : Built
    gateway_failed : ℕ → Built  -- the shutdowns of the administration
    built : App → Built

  -- The first refresh, before `OnReload` is set; its error is only logged.
  abbrev pub first_hub : Answer → Hub g
  first_hub answer = (refresh g (new_hub g) "all" answer).0

  abbrev pub with_gateway : Bool → Hub g → Built
  with_gateway gateway_built h =
      if gateway_built
      then built (record {
        hub = record h { has_handler = true };
        has_gateway = true;
        calls = apply_hub_config (sizes_of h.config);
        gw_cleanup = true;
        cleanups = 0;
        admin_shutdowns = 0;
      })
      else gateway_failed 1

  abbrev pub built_on : Bool → Bool → Answer → Option AssembleError → Built
  built_on admin_built gateway_built answer (some e) = refused e
  built_on admin_built gateway_built answer none =
      if admin_built then with_gateway gateway_built (first_hub answer) else admin_failed

  -- `New`.
  unfoldable pub new_app : Options → Bool → Bool → Answer → Built
  unfolding refresh
  new_app opt admin_built gateway_built answer =
      built_on admin_built gateway_built answer (checked_options opt)

  -- How serving ends: the context is done, the server was closed, or it failed.
  pub data Served : Type 0 where
    context_done server_closed server_failed : Served

  -- `ListenAndServe`, after the events that arrived while it served: the instance, closed, and
  -- whether it reports an error other than the end of its context.
  unfoldable pub listen_and_serve : App → List Event → Served → App × Bool
  unfolding run_events
  listen_and_serve a events context_done = (close (run_events a events), false)
  listen_and_serve a events server_closed = (close (run_events a events), false)
  listen_and_serve a events server_failed = (close (run_events a events), true)
