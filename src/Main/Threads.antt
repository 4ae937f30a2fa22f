-- ===== src/Main/Threads.antt =====
-- The handlers on several threads. Each operation of a singleton holds its mutex or is atomic, with
-- two exceptions: `set_strategy` is a single write that is taken as one step, and `Cache::get` of a
-- disabled cache counts its miss without the mutex, which is taken as a write of one more than any
-- number. So what the threads do together is a sequence of operations of all of them, each with
-- whatever its handler has read before.
pub mod Coherent
pub mod Handlers
pub mod Steps
use cost_optimized_llm_infer.Common.{ℕ, true, false, Text, Option, some, ℤ, ◌≡◌, Double}
use cost_optimized_llm_infer.Types.{ChatRequest, ChatResponse, RouteDecision, RoutingStrategy}
use cost_optimized_llm_infer.Metrics.{
  inc_requests, inc_errors, inc_cache_hits, inc_cache_misses, observe_latency, observe_tokens,
}
use cost_optimized_llm_infer.Cache.{Cache, inc64, get, put, clear}
use cost_optimized_llm_infer.RateLimiter.{check_request, record_tokens}
use cost_optimized_llm_infer.CostTracker.{record_request}
use cost_optimized_llm_infer.Config.{GatewayConfig}
use cost_optimized_llm_infer.Router.{Router, report_success, report_failure, set_strategy}
use cost_optimized_llm_infer.Router.Dispatch.{route}
use cost_optimized_llm_infer.Chat.{Gateway, World, metrics_of}
use cost_optimized_llm_infer.Main.Runs.{enough_fuel}

-- An operation that a handler calls.
pub data Operation {F : Type 0} ⦃d : Double F⦄ (cfg : GatewayConfig F) (g : Gateway F)
    : Gateway F → Type 0 where
  counted : Operation cfg g (record g { metrics = inc_requests g.metrics })
  counted_error : Operation cfg g (record g { metrics = inc_errors g.metrics })
  counted_hit : Operation cfg g (record g { metrics = inc_cache_hits g.metrics })
  counted_miss : Operation cfg g (record g { metrics = inc_cache_misses g.metrics })
  observed : (ms : F) → Operation cfg g (record g { metrics = observe_latency ms g.metrics })
  observed_tokens : (n : ℤ) → Operation cfg g (record g { metrics = observe_tokens n g.metrics })
  checked :
      (key : Text) (est : ℤ) (created now answered : ℕ)
      → Operation cfg g (record g {
        limiter = (check_request cfg.rate_limit key est created now answered g.limiter).0;
      })
  recorded :
      (key : Text) (tokens : ℤ) (created : ℕ)
      → Operation cfg g
          (record g { limiter = record_tokens cfg.rate_limit key tokens created g.limiter })
  booked :
      (w : World) (req : ChatRequest F) (resp : ChatResponse F)
      → Operation cfg g (record g { costs = record_request (metrics_of w req resp) g.costs })
  read :
      (hash : Text → ℕ) (req : ChatRequest F) (looked_up accessed : ℕ) {c : Cache F}
      {found : Option (ChatResponse F)}
      → cfg.cache.enabled ≡ true
      → get hash cfg.cache req looked_up accessed g.cache ≡ some (c, found)
      → Operation cfg g (record g { cache = c })
  -- `Cache::get` of a disabled cache, with the count of misses that it has read.
  passed :
      (seen : ℕ)
      → cfg.cache.enabled ≡ false
      → Operation cfg g (record g { cache = record (g.cache) { misses = inc64 seen } })
  stored :
      (hash : Text → ℕ) (req : ChatRequest F) (resp : ChatResponse F) (tidied now : ℕ) {c : Cache F}
      → put hash (enough_fuel cfg) cfg.cache req resp tidied now g.cache ≡ some c
      → Operation cfg g (record g { cache = c })
  cleared : Operation cfg g (record g { cache = clear g.cache })
  routed :
      (req : ChatRequest F) {dec : RouteDecision F} {r : Router F}
      → route req cfg g.router ≡ some (dec, r)
      → Operation cfg g (record g { router = r })
  reported_success :
      (now : ℕ) (provider : Text) (ms : F)
      → Operation cfg g (record g { router = report_success now provider ms g.router })
  reported_failure :
      (now : ℕ) (provider : Text)
      → Operation cfg g (record g { router = report_failure now provider g.router })
  switched : (s : RoutingStrategy) → Operation cfg g (record g { router = set_strategy s g.router })

-- A sequence of operations.
pub data Operated {F : Type 0} ⦃d : Double F⦄ (cfg : GatewayConfig F) (g : Gateway F)
    : Gateway F → Type 0 where
  idle : Operated cfg g g
  next : {h k : Gateway F} → Operated cfg g h → Operation cfg h k → Operated cfg g k
