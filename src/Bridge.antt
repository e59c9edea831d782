-- ===== src/Bridge.antt =====
-- internal/bridge: the administration as the hub's source of snapshots, and the gateway's metrics
-- written into the administration's store. The two packages' types are records of the fields that
-- the bridge copies; a cost is of the type `F` of floating-point numbers.
use tokenlive_standalone.Prelude.{ℕ, String, Bool, List, [], ◌∷◌, map}
use tokenlive_standalone.ConfigHub.{Snapshot, Answer, failed, loaded_snapshot}
pub mod Lossless

-- The administration: none, the error of its export, or what it exports.
pub data Admin : Type 0 where
  no_admin : Admin
  export_failed : String → Admin
  exported : Snapshot → Admin

-- `LoadGatewaySnapshot`.
abbrev pub load_gateway_snapshot : Admin → Answer
load_gateway_snapshot no_admin = failed "context canceled"
load_gateway_snapshot (export_failed e) = failed e
load_gateway_snapshot (exported s) = loaded_snapshot (record {
  config_json = s.config_json;
  policies_json = s.policies_json;
  api_keys_json = s.api_keys_json;
})

pub record AttemptMetric : Type 0 where
  pub endpoint_id : String
  pub provider : String
  pub provider_code : String
  pub success : Bool

pub record AdminAttempt : Type 0 where
  pub endpoint_id : String
  pub provider : String
  pub provider_code : String
  pub success : Bool

module _ (F : Type 0) where
  pub record RequestMetric : Type 0 where
    pub time : ℕ
    pub model : String
    pub provider : String
    pub success : Bool
    pub input_tokens : ℕ
    pub output_tokens : ℕ
    pub cached_tokens : ℕ
    pub cache_creation_tokens : ℕ
    pub cost : F
    pub endpoint_id : String
    pub ttft_ms : ℕ
    pub duration_ms : ℕ
    pub attempts : List AttemptMetric

  pub record AdminMetric : Type 0 where
    pub time : ℕ
    pub model : String
    pub provider : String
    pub success : Bool
    pub input_tokens : ℕ
    pub output_tokens : ℕ
    pub cached_tokens : ℕ
    pub cache_creation_tokens : ℕ
    pub cost : F
    pub endpoint_id : String
    pub ttft_ms : ℕ
    pub duration_ms : ℕ
    pub attempts : List AdminAttempt

  abbrev pub to_admin_attempt : AttemptMetric → AdminAttempt
  to_admin_attempt a = record {
    endpoint_id = a.endpoint_id;
    provider = a.provider;
    provider_code = a.provider_code;
    success = a.success;
  }

  -- `toAdminMetric`: the loop fills a list as long as the metric's.
  unfoldable pub to_admin_metric : RequestMetric → AdminMetric
  to_admin_metric m = record {
    time = m.time;
    model = m.model;
    provider = m.provider;
    success = m.success;
    input_tokens = m.input_tokens;
    output_tokens = m.output_tokens;
    cached_tokens = m.cached_tokens;
    cache_creation_tokens = m.cache_creation_tokens;
    cost = m.cost;
    endpoint_id = m.endpoint_id;
    ttft_ms = m.ttft_ms;
    duration_ms = m.duration_ms;
    attempts = map to_admin_attempt m.attempts;
  }

  pub record MetricsBatch : Type 0 where
    pub metrics : List RequestMetric
    pub open_endpoints : List String
    pub open_services : List String

  -- A call of the administration's store.
  pub data StoreCall : Type 0 where
    recorded : AdminMetric → StoreCall
    circuit_breakers : List String → List String → StoreCall

  unfoldable pub record_all : List RequestMetric → List StoreCall → List StoreCall
  unfolding to_admin_metric
  record_all [] rest = rest
  record_all (m ∷ ms) rest = recorded (to_admin_metric m) ∷ record_all ms rest

  -- `ReportMetrics`.
  unfoldable pub report_metrics : MetricsBatch → List StoreCall
  unfolding record_all
  report_metrics b = record_all b.metrics (circuit_breakers b.open_endpoints b.open_services ∷ [])
