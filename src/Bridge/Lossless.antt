-- ===== src/Bridge/Lossless.antt =====
-- internal/bridge/metrics_sink.go: the batch that the calls of the store can be read back to.
use tokenlive_standalone.Prelude.{
  String, List, [], ◌∷◌, Option, none, some, map, ◌≡◌, refl, ap, ◌∙◌,
}
use tokenlive_standalone.Bridge.{
  AttemptMetric, AdminAttempt, RequestMetric, AdminMetric, to_admin_attempt, to_admin_metric,
  MetricsBatch, StoreCall, recorded, circuit_breakers, record_all, report_metrics,
}

module _ (F : Type 0) where
  abbrev pub to_attempt : AdminAttempt → AttemptMetric
  to_attempt a = record {
    endpoint_id = a.endpoint_id;
    provider = a.provider;
    provider_code = a.provider_code;
    success = a.success;
  }

  abbrev pub to_metric : AdminMetric F → RequestMetric F
  to_metric m = record {
    time = m.time;
    model = m.model;
    provider = m.provider;
    success = m.success;
    input_tokens = m.input_tokens;
    output_tokens = m.output_tokens;
    cached_tokens = m.cached_tokens;
    cache_creation_tokens = m.cache_creation_tokens;
    cost = m.cost;
    endpoint_id = m.endpoint_id;
    ttft_ms = m.ttft_ms;
    duration_ms = m.duration_ms;
    attempts = map to_attempt m.attempts;
  }

  abbrev pub put_metric : AdminMetric F → Option (MetricsBatch F) → Option (MetricsBatch F)
  put_metric m none = none
  put_metric m (some b) = some (record b { metrics = to_metric m ∷ b.metrics })

  -- The batch that the calls of a store stand for.
  unfoldable pub batch_of : List (StoreCall F) → Option (MetricsBatch F)
  batch_of [] = none
  batch_of (recorded m ∷ calls) = put_metric m (batch_of calls)
  batch_of (circuit_breakers es ss ∷ calls) =
      some (record { metrics = []; open_endpoints = es; open_services = ss })

  attempts_back : (l : List AttemptMetric) → map to_attempt (map (to_admin_attempt F) l) ≡ l
  attempts_back [] = refl
  attempts_back (a ∷ l) = ap (λ r. a ∷ r) (attempts_back l)

  metric_back : (m : RequestMetric F) → to_metric (to_admin_metric F m) ≡ m
  unfolding to_admin_metric
  metric_back m = ap (λ l. record m { attempts = l }) (attempts_back m.attempts)

  recorded_back :
      (ms : List (RequestMetric F)) (es ss : List String)
      → batch_of (record_all F ms (circuit_breakers es ss ∷ []))
        ≡ some (record { metrics = ms; open_endpoints = es; open_services = ss })
  unfolding record_all batch_of
  recorded_back [] es ss = refl
  recorded_back (m ∷ ms) es ss =
      ap (put_metric (to_admin_metric F m)) (recorded_back ms es ss)
      ∙ ap (λ x. some (record { metrics = x ∷ ms; open_endpoints = es; open_services = ss }))
          (metric_back m)

  -- The calls that `ReportMetrics` makes of the store determine the batch: every metric with all of
  -- its fields and attempts, in order, and the open endpoints and services.
  pub batch_of-report_metrics : (b : MetricsBatch F) → batch_of (report_metrics F b) ≡ some b
  unfolding report_metrics
  batch_of-report_metrics b = recorded_back b.metrics b.open_endpoints b.open_services
