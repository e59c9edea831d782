-- ===== src/Assemble.antt =====
-- internal/assemble: the checks and defaults of the all-in-one service, what a reload does to the
-- gateway, the search for the console, and the root of the upgrades. The gateway, the console's
-- files and the probe are parameters.
use tokenlive_standalone.Prelude.{
  ℕ, Bool, true, false, not, ◌&&◌, ◌||◌, String, List, [], ◌∷◌, ◌++◌, Option, none, some, ◌==◌, eqb,
  dir, join, if◌then◌else◌,
}
use tokenlive_standalone.Upgrade.Identity.{Installation, Checked, passed, refused}
pub mod Entry
pub mod Roots
pub mod App
pub mod Stale
pub mod Main

-- The settings that the package reads.
pub record Config : Type 0 where
  pub config_source : String
  pub http_host : String
  pub http_port : ℕ

pub data AssembleError : Type 0 where
  config_is_nil : AssembleError
  not_embedded : String → AssembleError
  gateway_conf_is_nil logger_is_nil : AssembleError

-- `ValidateAllInOne`: `none` is no error.
abbrev pub validate_all_in_one : Option Config → Option AssembleError
validate_all_in_one none = some config_is_nil
validate_all_in_one (some v) =
    if v.config_source == "embedded" then none else some (not_embedded v.config_source)

pub record Options : Type 0 where
  pub gateway_conf : Option Config
  pub has_logger : Bool
  pub admin_work_dir : String
  pub admin_configs : String
  pub admin_static_dir : String
  pub install_channel : String
  pub data_dir : String
  pub host : String
  pub port : ℕ

abbrev pub or_else : String → String → String
or_else s default_value = if s == "" then default_value else s

abbrev pub port_or : ℕ → ℕ → ℕ
port_or port default_value = if eqb port 0 then default_value else port

-- The defaults of `New`; the console's directory is the one that is detected.
abbrev pub with_defaults : String → Config → Options → Options
with_defaults detected v opt = record opt {
  host = or_else (or_else opt.host v.http_host) "127.0.0.1";
  port = port_or (port_or opt.port v.http_port) 2525;
  admin_work_dir = or_else opt.admin_work_dir "configs";
  admin_configs = or_else opt.admin_configs "dev";
  admin_static_dir = or_else opt.admin_static_dir detected;
}

-- The checks that `New` begins with.
abbrev pub checked_options : Options → Option AssembleError
checked_options opt = elim opt.gateway_conf [
  | none ↦ some gateway_conf_is_nil
  | some v ↦ if opt.has_logger then validate_all_in_one (some v) else some logger_is_nil
]

-- `portFor`.
abbrev pub port_for : Options → ℕ
port_for opt = elim opt.gateway_conf [
  | none ↦ port_or opt.port 2525
  | some v ↦ port_or (port_or opt.port v.http_port) 2525
]

-- What a reload does to a running gateway.
pub data GatewayCall : Type 0 where
  apply_config : Bool → GatewayCall  -- whether the pipelines are the seed's
  purge_api_keys purge_policies purge_aliases : GatewayCall

-- The configuration of the hub: the numbers of its models and pipelines.
pub record HubConfig : Type 0 where
  pub models : ℕ
  pub pipelines : ℕ

abbrev pub apply_hub_config : Option HubConfig → List GatewayCall
apply_hub_config none = []
apply_hub_config (some cfg) =
    if eqb cfg.models 0 then [] else apply_config (eqb cfg.pipelines 0) ∷ []

abbrev pub purge_all : List GatewayCall
purge_all = purge_api_keys ∷ (purge_policies ∷ (purge_aliases ∷ []))

-- The handler `OnReload`; without a gateway it does nothing.
unfoldable pub on_reload : Bool → Option HubConfig → String → List GatewayCall
on_reload has_gateway cfg kind =
    if not has_gateway
    then []
    else if kind == "endpoints" || kind == "all"
    then apply_hub_config cfg ++ purge_all
    else if kind == "policies"
    then purge_policies ∷ []
    else if kind == "apikeys"
    then purge_api_keys ∷ []
    else purge_all

-- `spaDirOK` of a directory, from what `os.Stat` says of its `index.html`.
abbrev pub spa_dir_ok : (String → Option Bool) → String → Bool
spa_dir_ok is_dir d = elim (is_dir (join d "index.html")) [ none ↦ false | some b ↦ not b ]

abbrev pub absolute_or : Option String → String → String
absolute_or (some a) p = a
absolute_or none p = p

unfoldable pub first_spa : (String → Option Bool) → (String → Option String) → List String → String
unfolding join
first_spa is_dir abs [] = ""
first_spa is_dir abs (p ∷ ps) =
    let rest = first_spa is_dir abs ps in
    if spa_dir_ok is_dir p then absolute_or (abs p) p else rest

-- `DetectAdminStaticDir`, from the variable `TOKENLIVE_ADMIN_STATIC`.
unfoldable pub detect_admin_static_dir :
    (String → Option Bool) → (String → Option String) → String → String
unfolding join first_spa
detect_admin_static_dir is_dir abs env =
    if not (env == "") && spa_dir_ok is_dir env
    then env
    else first_spa is_dir abs
        ("web/dist" ∷ ("frontend/dist" ∷ ("../tokenlive-admin/frontend/dist" ∷ [])))

-- The root of the service's upgrades, of `newUpgradeManager`.
abbrev pub var_root : String → String
var_root data_dir = let d = dir data_dir in if d == "." || d == data_dir then data_dir else d

unfoldable pub service_root : (Installation → String) → String → Installation → String
unfolding dir join
service_root install_id_for data_dir i =
    join (join (var_root (or_else data_dir "data")) "upgrades") (install_id_for i)

-- `newUpgradeManager`: the root of the manager, if there is one.
abbrev pub root_of : (Installation → String) → String → Checked Installation → Option String
root_of install_id_for data_dir (refused reason) = none
root_of install_id_for data_dir (passed i) = some (service_root install_id_for data_dir i)

unfoldable pub new_upgrade_manager :
    Bool → Option String → (Installation → String) → Options → Checked Installation → Option String
unfolding service_root
new_upgrade_manager is_darwin executable install_id_for opt probed =
    if not is_darwin
    then none
    else elim executable [ none ↦ none | some exe ↦ root_of install_id_for opt.data_dir probed ]

-- The host of the upgrades that `New` gives the console.
unfoldable pub host_upgrade :
    Bool → Option String → (Installation → String) → Options → Checked Installation → Option String
unfolding new_upgrade_manager
host_upgrade is_darwin executable install_id_for opt probed =
    if opt.install_channel == "homebrew"
    then new_upgrade_manager is_darwin executable install_id_for opt probed
    else none
