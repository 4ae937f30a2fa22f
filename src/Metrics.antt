-- ===== src/Metrics.antt =====
-- include/utils/metrics.h and src/utils/metrics.cpp, without the rendering of a snapshot as text or
-- JSON. Counters are `uint64_t`; the clock is read as a number of nanoseconds.
pub mod Latencies
pub mod Percentile
use Prim.Native.Nat.{min}
use cost_optimized_llm_infer.Common.{
  ℕ, ◌+◌, ◌-◌, ◌%◌, ◌^◌, List, [], ◌∷◌, ◌++◌, foldl, Option, none, some, length, drop, get_elem?,
  sort, ltb, ℤ, pos, Double, if◌then◌else◌,
}
use cost_optimized_llm_infer.Types.{second}
use cost_optimized_llm_infer.Cache.{to_size_t, inc64}

pub record Metrics (F : Type 0) : Type 0 where
  pub total_requests : ℕ
  pub total_errors : ℕ
  pub cache_hits : ℕ
  pub cache_misses : ℕ
  pub total_tokens : ℕ
  pub latencies : List F
  pub start_time : ℕ

pub record Snapshot (F : Type 0) : Type 0 where
  pub total_requests : ℕ
  pub total_errors : ℕ
  pub cache_hits : ℕ
  pub cache_misses : ℕ
  pub avg_latency_ms : F
  pub p99_latency_ms : F
  pub total_tokens : ℕ
  pub uptime_seconds : F

module _ {F : Type 0} where
  unfoldable pub init : (now : ℕ) → Metrics F
  init now = record {
    total_requests = 0;
    total_errors = 0;
    cache_hits = 0;
    cache_misses = 0;
    total_tokens = 0;
    latencies = [];
    start_time = now;
  }

  unfoldable pub inc_requests : Metrics F → Metrics F
  inc_requests m = record m { total_requests = inc64 m.total_requests }

  unfoldable pub inc_errors : Metrics F → Metrics F
  inc_errors m = record m { total_errors = inc64 m.total_errors }

  unfoldable pub inc_cache_hits : Metrics F → Metrics F
  inc_cache_hits m = record m { cache_hits = inc64 m.cache_hits }

  unfoldable pub inc_cache_misses : Metrics F → Metrics F
  inc_cache_misses m = record m { cache_misses = inc64 m.cache_misses }

  -- Beyond ten thousand observations the oldest five thousand are erased.
  unfoldable pub push_latency : F → List F → List F
  push_latency ms latencies =
      let all = latencies ++ (ms ∷ []) in if ltb 10_000 (length all) then drop 5000 all else all

  unfoldable pub observe_latency : F → Metrics F → Metrics F
  observe_latency ms m = record m { latencies = push_latency ms m.latencies }

  -- The `int` is converted to `uint64_t`.
  unfoldable pub observe_tokens : ℤ → Metrics F → Metrics F
  observe_tokens count m = record m { total_tokens = (m.total_tokens + to_size_t count) % 2 ^ 64 }

module _ {F : Type 0} ⦃d : Double F⦄ where
  open d use {lit, of_int, add, mul, div, lt, trunc}

  -- The observation that `snapshot` reports as the 99th percentile; `none` is a read out of range.
  unfoldable pub p99 : List F → Option F
  p99 latencies =
      let sorted = sort lt latencies in
      get_elem? sorted
        (min (trunc (mul (of_int (pos (length sorted))) (lit 99 2))) (length sorted - 1))

  unfoldable pub average : List F → F
  average latencies = div (foldl add (of_int (pos 0)) latencies) (of_int (pos (length latencies)))

  -- `none` is a read out of range.
  unfoldable pub snapshot : (now : ℕ) → Metrics F → Option (Snapshot F)
  snapshot now m = elim m.latencies [
    | [] ↦ some (base (of_int (pos 0)) (of_int (pos 0)))
    | x ∷ xs ↦ elim (p99 (x ∷ xs)) [ none ↦ none | some p ↦ some (base (average (x ∷ xs)) p) ]
  ]
    where
      base : F → F → Snapshot F
      base avg p = record {
        total_requests = m.total_requests;
        total_errors = m.total_errors;
        cache_hits = m.cache_hits;
        cache_misses = m.cache_misses;
        avg_latency_ms = avg;
        p99_latency_ms = p;
        total_tokens = m.total_tokens;
        uptime_seconds = div (of_int (pos (now - m.start_time))) (of_int (pos second));
      }
