-- ===== src/Tests/Spending.antt =====
-- Runs of the cost tracker, the metrics and the token counter.
use cost_optimized_llm_infer.Common.{
  some, ◌*ℤ◌, [], ◌∷◌, ◌++◌, foldl, ◌≡◌, inl, refl, arith, ℤ, pos, codes, keep, concat,
}
use cost_optimized_llm_infer.Metrics.{Metrics, Snapshot, snapshot, observe_latency}
use cost_optimized_llm_infer.Metrics.Percentile.{IsPercentile, snapshot-IsPercentile}
use cost_optimized_llm_infer.Metrics.Latencies.{IsRecent, latencies-IsRecent}
use cost_optimized_llm_infer.TokenCounter.{tokenize}
use cost_optimized_llm_infer.TokenCounter.Tokens.{is_kept, concat-tokenize}
use cost_optimized_llm_infer.Tests.Values.{millionths, millionths-IsOrdered}
use mathlib.Core.List.{cons≢nil}

abbrev meters : Metrics ℤ
meters = record {
  total_requests = 2;
  total_errors = 0;
  cache_hits = 0;
  cache_misses = 2;
  total_tokens = 30;
  latencies = pos 100 ∷ [];
  start_time = 0;
}

latencies-IsRecent_example :
    IsRecent
      ((pos 100 ∷ []) ++ (pos 7 ∷ pos 9 ∷ []))
      (foldl (λ s x. observe_latency x s) meters (pos 7 ∷ pos 9 ∷ [])).latencies
latencies-IsRecent_example =
    latencies-IsRecent (pos 100 ∷ []) (pos 7 ∷ pos 9 ∷ []) meters
      (record { forgotten = []; split = refl; bounded = omega arith; enough = inl refl })

concat-tokenize_example :
    concat (tokenize (codes "Hello, big world")) ≡ keep is_kept (codes "Hello, big world")
concat-tokenize_example = concat-tokenize (codes "Hello, big world")

snapshot-IsPercentile_example :
    (s : Snapshot ℤ) × (snapshot 9 meters ≡ some s)
    × IsPercentile millionths-IsOrdered meters.latencies s.p99_latency_ms
unfolding ◌*ℤ◌
snapshot-IsPercentile_example =
    snapshot-IsPercentile millionths-IsOrdered 9 meters (λ e. cons≢nil e) (refl, tt) refl
