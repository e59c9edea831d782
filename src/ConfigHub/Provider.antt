-- ===== src/ConfigHub/Provider.antt =====
-- internal/confighub/hub.go: a new hub, what it tells of itself, the rest of its provider, and the
-- periodic refresh. The context of the refresh is done when its answers are used up.
use tokenlive_standalone.Prelude.{ℕ, String, false, Option, none, List, [], ◌∷◌}
use tokenlive_standalone.ConfigHub.{Gateway, Answer, Hub, refresh}

module _ (g : Gateway) where
  -- `New`.
  abbrev pub new_hub : Hub g
  new_hub = record {
    config = none;
    policies = g.no_policies;
    api_keys = [];
    version = 0;
    last_config_json = "";
    last_policies_json = "";
    last_api_keys_json = "";
    loaded = false;
    reloads = [];
    has_handler = false;
    notified = [];
  }

  -- `Version`.
  abbrev pub version_of : Hub g → ℕ
  version_of h = h.version

  -- `GatewayConfig`.
  abbrev pub gateway_config : Hub g → Option g.Config
  gateway_config h = h.config

  -- The provider's `GetPolicies`, which reports no error.
  abbrev pub get_policies : Hub g → g.Policies
  get_policies h = h.policies

  -- The provider's `GetUserModels` and `GetTenantModels`, whatever the user or the tenant is.
  abbrev pub all_models : List String
  all_models = "*" ∷ []

  -- The ticks of `StartPeriodicSync`, by what the source answers at each.
  unfoldable pub periodic_sync : List Answer → Hub g → Hub g
  unfolding refresh
  periodic_sync [] h = h
  periodic_sync (a ∷ answers) h = periodic_sync answers (refresh g h "all" a).0
