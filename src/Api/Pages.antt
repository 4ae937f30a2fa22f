-- ===== src/Api/Pages.antt =====
-- src/api/health.cpp and the root endpoint of src/main.cpp: the pages that only report. A page that
-- shows a snapshot of the metrics is `none` where the snapshot reads out of range.
use cost_optimized_llm_infer.Common.{
  ℕ, ◌+◌, ◌%◌, ◌^◌, List, [], ◌∷◌, ◌++◌, map, concat, Option, none, some, Text, codes, ltb, show_ℕ,
  pos, Double, if◌then◌else◌,
}
use cost_optimized_llm_infer.Types.{ProviderHealth}
use cost_optimized_llm_infer.Json.{Json, JsonDouble}
use cost_optimized_llm_infer.Cache.{CacheStats, get_stats}
use cost_optimized_llm_infer.Metrics.{Metrics, Snapshot, snapshot}
use cost_optimized_llm_infer.Router.{Router, get_health}
use cost_optimized_llm_infer.Providers.{
  Registry, available_providers, find_provider, supported_models,
}
use cost_optimized_llm_infer.Api.{Response, Service, json_response}

-- Three lines of the Prometheus format, and the blank line behind them.
unfoldable pub metric : (name help kind shown : Text) → Text
metric name help kind shown =
    codes "# HELP "
    ++ (name
        ++ (codes " "
            ++ (help
                ++ (codes "\n# TYPE "
                    ++ (name
                        ++ (codes " "
                            ++ (kind
                                ++ (codes "\n"
                                    ++ (name ++ (codes " " ++ (shown ++ codes "\n")))))))))))

module _ {F : Type 0} ⦃d : Double F⦄ where
  open d use {of_int, div}

  -- `(hits + misses) > 0 ? (double)hits / (hits + misses) : 0.0`, over `uint64_t`.
  unfoldable pub hit_ratio : (hits misses : ℕ) → F
  hit_ratio hits misses =
      let total = (hits + misses) % 2 ^ 64 in
      if ltb 0 total then div (of_int (pos hits)) (of_int (pos total)) else of_int (pos 0)

  -- `to_prometheus`
  unfoldable pub prometheus : Snapshot F → Text
  prometheus s =
      metric (codes "llm_gateway_requests_total") (codes "Total requests") (codes "counter")
        (show_ℕ s.total_requests)
      ++ (codes "\n"
          ++ (metric (codes "llm_gateway_errors_total") (codes "Total errors") (codes "counter")
                (show_ℕ s.total_errors)
              ++ (codes "\n"
                  ++ (metric (codes "llm_gateway_cache_hits_total") (codes "Cache hits")
                        (codes "counter") (show_ℕ s.cache_hits)
                      ++ (codes "\n"
                          ++ (metric (codes "llm_gateway_cache_misses_total") (codes "Cache misses")
                                (codes "counter") (show_ℕ s.cache_misses)
                              ++ (codes "\n"
                                  ++ (metric (codes "llm_gateway_latency_avg_ms")
                                        (codes "Average latency in ms") (codes "gauge")
                                        (d.print s.avg_latency_ms)
                                      ++ (codes "\n"
                                          ++ (metric (codes "llm_gateway_latency_p99_ms")
                                                (codes "P99 latency in ms") (codes "gauge")
                                                (d.print s.p99_latency_ms)
                                              ++ (codes "\n"
                                                  ++ (metric (codes "llm_gateway_tokens_total")
                                                        (codes "Total tokens processed")
                                                        (codes "counter") (show_ℕ s.total_tokens)
                                                      ++ (codes "\n"
                                                          ++ metric
                                                            (codes "llm_gateway_uptime_seconds")
                                                            (codes "Uptime") (codes "gauge")
                                                            (d.print s.uptime_seconds))))))))))))))

  -- /metrics
  unfoldable pub metrics_page : (now : ℕ) → Metrics F → Option Text
  metrics_page now m = elim (snapshot now m) [ none ↦ none | some s ↦ some (prometheus s) ]

module _ {J : Type 0} ⦃j : Json J⦄ where
  open j use {string, integer, array, object}

  unfoldable pub model_json : (owner model : Text) → J
  model_json owner model = object (
      (codes "id", string model)
      ∷ (codes "object", string (codes "model"))
      ∷ (codes "owned_by", string owner)
      ∷ (codes "created", integer (pos 0))
      ∷ [])

  unfoldable pub models_of : Registry → Text → List J
  models_of registry name = elim (find_provider name registry) [
    | none ↦ []
    | some p ↦ map (model_json name) (supported_models p.kind)
  ]

  -- /v1/models
  unfoldable pub models_page : Registry → Response J
  models_page registry = json_response 200 (
      object (
        (codes "object", string (codes "list"))
        ∷ (codes "data", array (concat (map (models_of registry) (available_providers registry))))
        ∷ []))

  -- /
  unfoldable pub root_page : Response J
  root_page = json_response 200 (
      object (
        (codes "name", string (codes "LLM Gateway"))
        ∷ (codes "version", string (codes "1.0.0"))
        ∷ (
          codes "endpoints",
          array (
              map (λ path. string path)
                (codes "/v1/chat/completions"
                  ∷ codes "/v1/models"
                  ∷ codes "/v1/stats"
                  ∷ codes "/chat"
                  ∷ codes "/health"
                  ∷ codes "/metrics"
                  ∷ codes "/admin/keys"
                  ∷ codes "/admin/routing"
                  ∷ codes "/admin/cache"
                  ∷ codes "/admin/costs"
                  ∷ [])),
        )
        ∷ []))

module _ {F J : Type 0} ⦃d : Double F⦄ ⦃j : Json J⦄ ⦃n : JsonDouble F J⦄ where
  open j use {string, integer, boolean, object}
  open n use {number}

  unfoldable pub health_members : ProviderHealth F → List (Text × J)
  health_members h =
      (codes "available", boolean h.available)
      ∷ (codes "avg_latency_ms", number h.avg_latency_ms)
      ∷ (codes "error_rate", number h.error_rate)
      ∷ []

  -- /health
  unfoldable pub health_page : Registry → Router F → Response J
  health_page registry r = json_response 200 (
      object (
        (codes "status", string (codes "ok"))
        ∷ (codes "version", string (codes "1.0.0"))
        ∷ (
          codes "providers",
          object (
              map (λ name. (name, object (health_members (get_health name r))))
                (available_providers registry)),
        )
        ∷ []))

  -- `Metrics::to_json`
  unfoldable pub snapshot_json : Snapshot F → J
  snapshot_json s = object (
      (codes "total_requests", integer (pos s.total_requests))
      ∷ (codes "total_errors", integer (pos s.total_errors))
      ∷ (codes "cache_hits", integer (pos s.cache_hits))
      ∷ (codes "cache_misses", integer (pos s.cache_misses))
      ∷ (codes "avg_latency_ms", number s.avg_latency_ms)
      ∷ (codes "p99_latency_ms", number s.p99_latency_ms)
      ∷ (codes "total_tokens", integer (pos s.total_tokens))
      ∷ (codes "uptime_seconds", number s.uptime_seconds)
      ∷ (codes "cache_hit_rate", number (hit_ratio s.cache_hits s.cache_misses))
      ∷ [])

  unfoldable pub cache_json : CacheStats F → J
  cache_json s = object (
      (codes "entries", integer (pos s.entries))
      ∷ (codes "max_size", integer (pos s.max_size))
      ∷ (codes "hits", integer (pos s.hits))
      ∷ (codes "misses", integer (pos s.misses))
      ∷ (codes "evictions", integer (pos s.evictions))
      ∷ (codes "hit_rate", number (hit_ratio s.hits s.misses))
      ∷ (codes "savings_usd", number s.savings_usd)
      ∷ [])

  unfoldable pub load_members : ProviderHealth F → List (Text × J)
  load_members h =
      (codes "requests_last_minute", integer h.requests_last_minute)
      ∷ (codes "errors_last_minute", integer h.errors_last_minute)
      ∷ []

  -- /v1/stats
  unfoldable pub stats_page : (now : ℕ) → Service F → Option (Response J)
  stats_page now s = elim (snapshot now s.gateway.metrics) [
    | none ↦ none
    | some shot ↦ some (
        json_response 200 (
          object (
            (codes "metrics", snapshot_json shot)
            ∷ (codes "cache", cache_json (get_stats s.gateway.cache))
            ∷ (
              codes "providers",
              object (
                  map
                    (λ name.
                      let h = get_health name s.gateway.router in
                      (name, object (health_members h ++ load_members h)))
                    (available_providers s.registry)),
            )
            ∷ [])))
  ]
