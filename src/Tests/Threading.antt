-- ===== src/Tests/Threading.antt =====
-- Runs of the handlers on several threads, and of the log.
use cost_optimized_llm_infer.Common.{All, some, [], ◌∷◌, ◌*ℤ◌, codes, ◌≡◌, refl, arith, ℤ, pos}
use cost_optimized_llm_infer.Types.{ChatRequest}
use cost_optimized_llm_infer.Cache.{to_size_t, clear}
use cost_optimized_llm_infer.Metrics.{inc_requests}
use cost_optimized_llm_infer.RateLimiter.{check_request}
use cost_optimized_llm_infer.Router.{report_failure}
use cost_optimized_llm_infer.Config.{GatewayConfig}
use cost_optimized_llm_infer.Chat.{Gateway}
use cost_optimized_llm_infer.Api.{Service}
use cost_optimized_llm_infer.Api.Admin.{AdminRequest, post_keys, delete_cache, administer}
use cost_optimized_llm_infer.Logger.{log_request, log_rate_limited}
use cost_optimized_llm_infer.Logger.Secrets.{log-take}
use cost_optimized_llm_infer.Main.{set_up}
use cost_optimized_llm_infer.Main.Runs.{start, later, administered}
use cost_optimized_llm_infer.Main.Spent.{list_keys-Reach}
use cost_optimized_llm_infer.Auth.{list_keys}
use cost_optimized_llm_infer.Main.Threads.{
  counted, checked, reported_failure, cleared, Operated, idle, next,
}
use cost_optimized_llm_infer.Main.Threads.Coherent.{IsCoherent, Operated-IsCoherent}
use cost_optimized_llm_infer.Tests.Values.{millionths, hash, request, gateway}
use cost_optimized_llm_infer.Tests.JsonValues.{Value, library, library_numbers}

-- Two requests are counted before the first of them is checked, and a third thread clears the cache
-- before the failure of a provider is reported.
abbrev begun : Gateway ℤ
begun = (set_up 0 gateway).gateway

abbrev between : Gateway ℤ
between = record begun {
  metrics = inc_requests (inc_requests begun.metrics);
  limiter = (check_request gateway.rate_limit (codes "k") (pos 5) 1 2 3 begun.limiter).0;
  cache = clear begun.cache;
  router = report_failure 4 (codes "a") begun.router;
}

interleaved : Operated gateway begun between
interleaved =
    next
      (next (next (next (next idle counted) counted) (checked (codes "k") (pos 5) 1 2 3)) cleared)
      (reported_failure 4 (codes "a"))

Operated-IsCoherent_example : IsCoherent gateway between
unfolding to_size_t
Operated-IsCoherent_example = Operated-IsCoherent gateway 0 (omega arith) interleaved

abbrev guarded : GatewayConfig ℤ
guarded = record gateway { server = record (gateway.server) { admin_key = codes "root" } }

abbrev clearing : AdminRequest Value
clearing = delete_cache

abbrev keyed : ChatRequest ℤ
keyed = record request { api_key = codes "Bearer sk-gw-abc" }

log-take_example :
    (log_request keyed ≡ log_request (record keyed { api_key = codes "Bearer sk-gw-xyz" }))
    × (log_rate_limited (codes "r1") (codes "Bearer sk-gw-abc")
        ≡ log_rate_limited (codes "r1") (codes "Bearer sk-gw-xyz"))
log-take_example = log-take keyed (codes "r1") (codes "Bearer sk-gw-xyz") refl

-- A key for the default owner.
abbrev creation : AdminRequest Value
creation = post_keys hash (4 ∷ 5 ∷ 6 ∷ []) 8 (some (library.object []))

abbrev staffed : Service ℤ
staffed = (administer (codes "root") (codes "root") creation (set_up 0 guarded)).0

list_keys-Reach_example : All (λ vk. vk.spent_usd ≡ pos 0) (list_keys staffed.keys)
unfolding ◌*ℤ◌
list_keys-Reach_example =
    list_keys-Reach guarded 0 {s = staffed} (later start (administered (codes "root") creation))
