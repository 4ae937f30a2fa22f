-- ===== src/Main/Threads/Coherent.antt =====
-- What every operation of every thread preserves.
use cost_optimized_llm_infer.Common.{
  ℕ, ◌≤◌, ◌<◌, [], ◌∷◌, Option, refl, sym, ◌∙◌, Double, arith, length, lookup, inl,
}
use mathlib.Core.Option.{some-injective}
use mathlib.Core.Path.{subst}
use cost_optimized_llm_infer.Types.{ChatResponse}
use cost_optimized_llm_infer.Metrics.{
  Metrics, inc_requests, inc_errors, inc_cache_hits, inc_cache_misses, observe_latency,
  observe_tokens,
}
use cost_optimized_llm_infer.Metrics.Latencies.{IsRecent, latencies-IsRecent}
use cost_optimized_llm_infer.Cache.{Cache, inc64, init, clear, to_size_t}
use cost_optimized_llm_infer.Cache.Invariant.{IsLinked-nil, IsValid}
use cost_optimized_llm_infer.Cache.Reads.{length-get}
use cost_optimized_llm_infer.RateLimiter.Keys.{
  AllSound, check_request-AllSound, record_tokens-AllSound,
}
use cost_optimized_llm_infer.RateLimiter.{RateLimiter}
use cost_optimized_llm_infer.Router.{Router}
use cost_optimized_llm_infer.CostTracker
use cost_optimized_llm_infer.Metrics
use cost_optimized_llm_infer.Config.{GatewayConfig}
use cost_optimized_llm_infer.Chat.{Gateway}
use cost_optimized_llm_infer.Chat.Books.{NoHits, record_request-NoHits}
use cost_optimized_llm_infer.Chat.Totality.{put_total}
use cost_optimized_llm_infer.Main.{set_up}
use cost_optimized_llm_infer.Main.Runs.{enough_fuel}
use cost_optimized_llm_infer.Main.Threads.{
  Operation, counted, counted_error, counted_hit, counted_miss, observed, observed_tokens, checked,
  recorded, booked, read, passed, stored, cleared, routed, reported_success, reported_failure,
  switched, Operated, idle, next,
}

-- The singletons of a service that is in order: the cache agrees with its index and is within its
-- room, no record of the history is a hit, every bucket has the limits of the configuration and
-- counts no request or no more of them than its limit of requests, and no more than ten thousand
-- latencies are kept.
pub record IsCoherent {F : Type 0} (cfg : GatewayConfig F) (g : Gateway F) : Type 0 where
  pub cache : IsValid g.cache
  pub few : length g.cache.entries ≤ to_size_t cfg.cache.max_entries
  pub history : NoHits g.costs.history
  pub limits : AllSound cfg.rate_limit g.limiter
  pub latencies : length g.metrics.latencies ≤ 10_000

module _ {F : Type 0} (cfg : GatewayConfig F) (g : Gateway F) (h : IsCoherent cfg g) where
  with_cache :
      (c : Cache F)
      → IsValid c
      → length c.entries ≤ to_size_t cfg.cache.max_entries
      → IsCoherent cfg (record g { cache = c })
  with_cache c v few = record {
    cache = v;
    few = few;
    history = h.history;
    limits = h.limits;
    latencies = h.latencies;
  }

  with_limiter :
      (l : RateLimiter) → AllSound cfg.rate_limit l → IsCoherent cfg (record g { limiter = l })
  with_limiter l sound = record {
    cache = h.cache;
    few = h.few;
    history = h.history;
    limits = sound;
    latencies = h.latencies;
  }

  with_metrics :
      (m : Metrics F) → length m.latencies ≤ 10_000 → IsCoherent cfg (record g { metrics = m })
  with_metrics m le = record {
    cache = h.cache;
    few = h.few;
    history = h.history;
    limits = h.limits;
    latencies = le;
  }

  with_router : (r : Router F) → IsCoherent cfg (record g { router = r })
  with_router r = record {
    cache = h.cache;
    few = h.few;
    history = h.history;
    limits = h.limits;
    latencies = h.latencies;
  }

module _ {F : Type 0} ⦃d : Double F⦄ (cfg : GatewayConfig F) where
  length-observe_latency :
      (ms : F) (m : Metrics F)
      → length m.latencies ≤ 10_000
      → length (observe_latency ms m).latencies ≤ 10_000
  length-observe_latency ms m le =
      let whole : IsRecent m.latencies m.latencies = record {
        forgotten = [];
        split = refl;
        bounded = le;
        enough = inl refl;
      } in
      (latencies-IsRecent m.latencies (ms ∷ []) m whole).bounded

  passed-IsValid : (seen : ℕ) (c : Cache F) → IsValid c → IsValid (record c { misses = inc64 seen })
  passed-IsValid seen c v = v

  Operation-IsCoherent :
      (g k : Gateway F)
      → 0 < to_size_t cfg.cache.max_entries
      → Operation cfg g k
      → IsCoherent cfg g
      → IsCoherent cfg k
  unfolding inc_requests inc_errors inc_cache_hits inc_cache_misses observe_tokens clear
  Operation-IsCoherent g _ room counted h = with_metrics cfg g h _ h.latencies
  Operation-IsCoherent g _ room counted_error h = with_metrics cfg g h _ h.latencies
  Operation-IsCoherent g _ room counted_hit h = with_metrics cfg g h _ h.latencies
  Operation-IsCoherent g _ room counted_miss h = with_metrics cfg g h _ h.latencies
  Operation-IsCoherent g _ room (observed ms) h =
      with_metrics cfg g h _ (length-observe_latency ms g.metrics h.latencies)
  Operation-IsCoherent g _ room (observed_tokens n) h = with_metrics cfg g h _ h.latencies
  Operation-IsCoherent g _ room (checked key est created now answered) h =
      with_limiter cfg g h _
        (check_request-AllSound cfg.rate_limit key est created now answered g.limiter h.limits)
  Operation-IsCoherent g _ room (recorded key tokens created) h =
      with_limiter cfg g h _
        (record_tokens-AllSound cfg.rate_limit key tokens created g.limiter h.limits)
  Operation-IsCoherent g _ room (booked w req resp) h = record {
    cache = h.cache;
    few = h.few;
    history = record_request-NoHits w req resp g.costs h.history;
    limits = h.limits;
    latencies = h.latencies;
  }
  Operation-IsCoherent g _ room (read hash req looked_up accessed {c} {found} on ran) h =
      let (out, ended, v, le) = length-get hash cfg.cache req looked_up accessed g.cache h.cache in
      let same = some-injective out (c, found) (sym ended ∙ ran) in
      subst (λ (x : Cache F × Option (ChatResponse F)). IsCoherent cfg (record g { cache = x.0 }))
        same (with_cache cfg g h out.0 v (omega (arith, le, h.few)))
  Operation-IsCoherent g _ room (passed seen off) h =
      with_cache cfg g h _ (passed-IsValid seen g.cache h.cache) h.few
  Operation-IsCoherent g _ room (stored hash req resp tidied now {c} ran) h =
      let (out, ended, v, few) =
        put_total hash (enough_fuel cfg) cfg.cache req resp tidied now g.cache room
          (omega (arith, h.few)) h.cache h.few in
      subst (λ (x : Cache F). IsCoherent cfg (record g { cache = x }))
        (some-injective out c (sym ended ∙ ran)) (with_cache cfg g h out v few)
  Operation-IsCoherent g _ room cleared h =
      with_cache cfg g h _ (IsLinked-nil g.cache.next_node) (omega arith)
  Operation-IsCoherent g _ room (routed req ran) h = with_router cfg g h _
  Operation-IsCoherent g _ room (reported_success now provider ms) h = with_router cfg g h _
  Operation-IsCoherent g _ room (reported_failure now provider) h = with_router cfg g h _
  Operation-IsCoherent g _ room (switched s) h = with_router cfg g h _

  set_up-IsCoherent : (now : ℕ) → IsCoherent cfg (set_up now cfg).gateway
  unfolding set_up init CostTracker.init Metrics.init lookup
  set_up-IsCoherent now = record {
    cache = IsLinked-nil 0;
    few = omega arith;
    history = tt;
    limits = λ k b e. absurd cc;
    latencies = omega arith;
  }

  -- The cache may hold an entry. However the operations of the handlers interleave, on any number of
  -- threads and whatever each of them has read before: since the start of the service the index and
  -- the list of the cache agree, the cache holds no more entries than it may, no record of the history
  -- is a hit, every bucket of the rate limiter has the limits of the configuration and counts either
  -- no request or no more of them than its limit of requests, and no more than ten thousand latencies
  -- are kept.
  pub Operated-IsCoherent :
      (now : ℕ) {g : Gateway F}
      → 0 < to_size_t cfg.cache.max_entries
      → Operated cfg (set_up now cfg).gateway g
      → IsCoherent cfg g
  Operated-IsCoherent now room idle = set_up-IsCoherent now
  Operated-IsCoherent now room (next {h} {k} before op) =
      Operation-IsCoherent h k room op (Operated-IsCoherent now room before)
